-- ===== src/Config/Ordered.antt =====
-- The order in which `ListAllMember` of hps_sf/config.cpp lists nodes.
use mathlib.Core.List.{Memᴰ}
use collabor_ative_schedule.Base.{
  ℕ, zero, suc, ◌<◌, ◌≡◌, refl, inl, inr, true, false, List, [], ◌∷◌, ◌++◌, some, arith, Bool-cases,
  Str,
}
use collabor_ative_schedule.Config.{valid_name}
use collabor_ative_schedule.Config.Yaml.{Yaml, join, list_each, list_all_member}
use collabor_ative_schedule.Config.Members.{IsFinite}

-- A node under its name, or the rest of the pairs of a map whose name is the prefix.
pub data Part (Node : Type 0) : Type 0 where
  whole : Str → Node → Part Node
  pairs_of : Str → List (Node × Node) → Part Node

module _ {Node : Type 0} (yaml : Yaml Node) where
  -- The order of the file: a node before what is below it, and what is below a pair before what is
  -- below the pairs behind it.
  pub data InOrder : Part Node → List (Str × Node) → Type 0 where
    refused :
        {prefix : Str} {node : Node} → valid_name prefix ≡ false → InOrder (whole prefix node) []
    leaf :
        {prefix : Str} {node : Node}
        → valid_name prefix ≡ true
        → yaml.is_map node ≡ false
        → InOrder (whole prefix node) ((prefix, node) ∷ [])
    inner :
        {prefix : Str} {node : Node} {out : List (Str × Node)}
        → valid_name prefix ≡ true
        → yaml.is_map node ≡ true
        → InOrder (pairs_of prefix (yaml.pairs node)) out
        → InOrder (whole prefix node) ((prefix, node) ∷ out)
    no_pairs : {prefix : Str} → InOrder (pairs_of prefix []) []
    pair :
        {prefix : Str} {q : Node × Node} {qs : List (Node × Node)} {out rest : List (Str × Node)}
        → InOrder (whole (join prefix (yaml.scalar q.0)) q.1) out
        → InOrder (pairs_of prefix qs) rest
        → InOrder (pairs_of prefix (q ∷ qs)) (out ++ rest)

  each-InOrder :
      (fuel : ℕ) (prefix : Str) (qs : List (Node × Node))
      → ((q : Node × Node)
          → Memᴰ q qs
          → (out : List (Str × Node)) × (list_all_member yaml fuel
                (join prefix (yaml.scalar q.0))
                q.1
              ≡ some out)
            × InOrder (whole (join prefix (yaml.scalar q.0)) q.1) out)
      → (out : List (Str × Node)) × (list_each
            (λ q. list_all_member yaml fuel (join prefix (yaml.scalar q.0)) q.1)
            qs
          ≡ some out)
        × InOrder (pairs_of prefix qs) out
  unfolding list_each
  each-InOrder fuel prefix [] h = ([], refl, no_pairs)
  each-InOrder fuel prefix (q ∷ qs) h =
      let (out, e, here) = h q (Memᴰ.head refl) in
      let (rest, d, there) = each-InOrder fuel prefix qs (λ r m. h r (Memᴰ.tail m)) in
      (out ++ rest, rw (e, d) refl, pair here there)

  -- For a node that is finite in the sense that every value of a map has a smaller height, with
  -- fuel above the height of the node: `ListAllMember` ends, and lists nodes in the order of the
  -- file.
  pub list_all_member-InOrder :
      (height : Node → ℕ)
      → IsFinite yaml height
      → (fuel : ℕ) (prefix : Str) (node : Node) → height node < fuel
      → (out : List (Str × Node)) × (list_all_member yaml fuel prefix node ≡ some out)
        × InOrder (whole prefix node) out
  unfolding list_all_member
  list_all_member-InOrder height finite zero prefix node l = elim l [ ]
  list_all_member-InOrder height finite (suc fuel) prefix node l =
      elim (Bool-cases (valid_name prefix)) [
        | inr v ↦ ([], rw v refl, refused v)
        | inl v ↦ elim (Bool-cases (yaml.is_map node)) [
          | inr i ↦ ((prefix, node) ∷ [], rw (v, i) refl, leaf v i)
          | inl i ↦
              let (rest, e, ordered) = each-InOrder fuel prefix (yaml.pairs node) (λ q m.
                list_all_member-InOrder height finite fuel (join prefix (yaml.scalar q.0)) q.1
                  (omega (arith, finite node q i m, l))) in
              ((prefix, node) ∷ rest, rw (v, i, e) refl, inner v i ordered)
        ]
      ]
