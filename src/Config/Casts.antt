-- ===== src/Config/Casts.antt =====
-- `hps_LexicalCast` of hps_sf/config.h, between strings and containers, over the casts of the
-- elements. What it uses of yaml-cpp and boost is a parameter: `none` is an exception. A vector, a
-- list and a set are the list of their elements, a map that of its pairs, in the order of the
-- iteration.
pub mod Tests
pub mod RoundTrip
pub mod Containers
use mathlib.Core.Option
use collabor_ative_schedule.Base.{
  ℕ, zero, suc, ◌+◌, Bool, true, false, List, [], ◌∷◌, ◌++◌, Option, none, some, if◌then◌else◌, Str,
  less_str,
}

-- `Load`, `<<`, `size`, `node[i]`, the pairs of a map with their keys' scalars, `Node()`,
-- `push_back`, and `node[key] = value`.
pub record Doc (Node : Type 0) : Type 0 where
  pub load : Str → Option Node
  pub emit : Node → Str
  pub size : Node → ℕ
  pub at : Node → ℕ → Node
  pub pairs : Node → List (Str × Node)
  pub null : Node
  pub push_back : Node → Node → Node
  pub put : Node → Str → Node → Node

-- `insert` of a `std::set`, for the order of its elements.
unfoldable pub set_insert : {T : Type 0} → (T → T → Bool) → T → List T → List T
set_insert less x [] = x ∷ []
set_insert less x (y ∷ ys) =
    let later = set_insert less x ys in
    if less x y then x ∷ y ∷ ys else if less y x then y ∷ later else y ∷ ys

-- `insert` of a `std::map` with strings as keys.
unfoldable pub map_insert : {T : Type 0} → Str × T → List (Str × T) → List (Str × T)
unfolding set_insert
map_insert = set_insert (λ p q. less_str p.0 q.0)

abbrev pub push : {T : Type 0} → T → List T → List T
push x xs = xs ++ x ∷ []

module _ {Node T : Type 0} (yaml : Doc Node) where
  module _ (from : Str → Option T) where
    -- The loop over `node[i]`, for `n` more elements, with what the container does with each.
    unfoldable pub load_items : (T → List T → List T) → Node → ℕ → ℕ → List T → Option (List T)
    load_items add node zero i c = some c
    load_items add node (suc n) i c = elim (from (yaml.emit (yaml.at node i))) [
      | none ↦ none
      | some x ↦ load_items add node n (i + 1) (add x c)
    ]

    unfoldable pub items_from_string : (T → List T → List T) → Str → Option (List T)
    unfolding load_items
    items_from_string add v = elim (yaml.load v) [
      | none ↦ none
      | some node ↦ load_items add node (yaml.size node) 0 []
    ]

    unfoldable pub vector_from_string : Str → Option (List T)
    unfolding items_from_string
    vector_from_string v = items_from_string push v

    unfoldable pub list_from_string : Str → Option (List T)
    unfolding items_from_string
    list_from_string v = items_from_string push v

    unfoldable pub set_from_string : (T → T → Bool) → Str → Option (List T)
    unfolding items_from_string set_insert
    set_from_string less v = items_from_string (set_insert less) v

    -- Where a hash container puts an element is the library's.
    unfoldable pub unordered_set_from_string : (T → List T → List T) → Str → Option (List T)
    unfolding items_from_string
    unordered_set_from_string insert v = items_from_string insert v

    unfoldable pub load_pairs :
        (Str × T → List (Str × T) → List (Str × T))
        → List (Str × Node)
        → List (Str × T)
        → Option (List (Str × T))
    load_pairs add [] c = some c
    load_pairs add (p ∷ ps) c = elim (from (yaml.emit p.1)) [
      | none ↦ none
      | some x ↦ load_pairs add ps (add (p.0, x) c)
    ]

    unfoldable pub map_from_string : Str → Option (List (Str × T))
    unfolding load_pairs map_insert
    map_from_string v = elim (yaml.load v) [
      | none ↦ none
      | some node ↦ load_pairs map_insert (yaml.pairs node) []
    ]

    unfoldable pub unordered_map_from_string :
        (Str × T → List (Str × T) → List (Str × T)) → Str → Option (List (Str × T))
    unfolding load_pairs
    unordered_map_from_string insert v = elim (yaml.load v) [
      | none ↦ none
      | some node ↦ load_pairs insert (yaml.pairs node) []
    ]

  module _ (to : T → Option Str) where
    -- `YAML::Load` of the element's string.
    abbrev pub node_of : T → Option Node
    node_of x = elim (to x) [ none ↦ none | some s ↦ yaml.load s ]

    unfoldable pub push_all : Node → List T → Option Node
    push_all node [] = some node
    push_all node (x ∷ xs) = elim (node_of x) [
      | none ↦ none
      | some n ↦ push_all (yaml.push_back node n) xs
    ]

    unfoldable pub items_to_string : List T → Option Str
    unfolding push_all
    items_to_string xs = Option.map yaml.emit (push_all yaml.null xs)

    unfoldable pub vector_to_string : List T → Option Str
    unfolding items_to_string
    vector_to_string xs = items_to_string xs

    unfoldable pub list_to_string : List T → Option Str
    unfolding items_to_string
    list_to_string xs = items_to_string xs

    unfoldable pub set_to_string : List T → Option Str
    unfolding items_to_string
    set_to_string xs = items_to_string xs

    unfoldable pub unordered_set_to_string : List T → Option Str
    unfolding items_to_string
    unordered_set_to_string xs = items_to_string xs

    unfoldable pub put_all : Node → List (Str × T) → Option Node
    put_all node [] = some node
    put_all node (p ∷ ps) = elim (node_of p.1) [
      | none ↦ none
      | some n ↦ put_all (yaml.put node p.0 n) ps
    ]

    unfoldable pub map_to_string : List (Str × T) → Option Str
    unfolding put_all
    map_to_string ps = Option.map yaml.emit (put_all yaml.null ps)

    unfoldable pub unordered_map_to_string : List (Str × T) → Option Str
    unfolding put_all
    unordered_map_to_string ps = Option.map yaml.emit (put_all yaml.null ps)
