-- ===== src/Config/Casts/RoundTrip.antt =====
-- Containers that are written and read back.
use mathlib.Core.List.{append-nil, append_assoc}
use collabor_ative_schedule.Base.{
  ℕ, ◌≡◌, refl, sym, ap, ◌∙◌, Bool, true, false, List, [], ◌∷◌, ◌++◌, Option, some, Str, less_str,
  All, length, get_elem?, length-append,
}
use collabor_ative_schedule.Config.Casts.{
  Doc, set_insert, push, load_items, items_from_string, node_of, push_all, items_to_string,
}

-- `c` as the elements leave it that are added one by one.
abbrev pub add_all : {A : Type 0} → (A → List A → List A) → List A → List A → List A
add_all add [] c = c
add_all add (x ∷ xs) c = add_all add xs (add x c)

pub add_all-push : {A : Type 0} (xs c : List A) → add_all push xs c ≡ c ++ xs
add_all-push [] c = sym (append-nil c)
add_all-push (x ∷ xs) c = add_all-push xs (c ++ x ∷ []) ∙ append_assoc c (x ∷ []) xs

module _ {A : Type 0} (less : A → A → Bool) where
  abbrev pub Before : A → A → Type 0
  Before x y = (less x y ≡ true) × (less y x ≡ false)

  -- The elements are in the order that a set keeps.
  abbrev pub IsAscending : List A → Type 0
  IsAscending [] = Unit
  IsAscending (x ∷ xs) = All (Before x) xs × IsAscending xs

  set_insert_last :
      (x : A) (c : List A) → All (λ y. Before y x) c → set_insert less x c ≡ c ++ x ∷ []
  unfolding set_insert
  set_insert_last x [] h = refl
  set_insert_last x (y ∷ c) h = rw (h.0.0, h.0.1, set_insert_last x c h.1) refl

  grow :
      (x : A) (c xs : List A)
      → All (λ y. All (Before y) (x ∷ xs)) c
      → All (Before x) xs
      → All (λ y. All (Before y) xs) (c ++ x ∷ [])
  grow x [] xs h b = (b, tt)
  grow x (y ∷ c) xs h b = (h.0.1, grow x c xs h.1 b)

  firsts : (x : A) (c xs : List A) → All (λ y. All (Before y) (x ∷ xs)) c → All (λ y. Before y x) c
  firsts x [] xs h = tt
  firsts x (y ∷ c) xs h = (h.0.0, firsts x c xs h.1)

  pub add_all-set_insert :
      (xs c : List A)
      → IsAscending xs
      → All (λ y. All (Before y) xs) c
      → add_all (set_insert less) xs c ≡ c ++ xs
  add_all-set_insert [] c s h = sym (append-nil c)
  add_all-set_insert (x ∷ xs) c s h =
      ap (add_all (set_insert less) xs) (set_insert_last x c (firsts x c xs h))
      ∙ add_all-set_insert xs (c ++ x ∷ []) s.1 (grow x c xs h s.0)
      ∙ append_assoc c (x ∷ []) xs

abbrev pub key_less : {A : Type 0} → Str × A → Str × A → Bool
key_less p q = less_str p.0 q.0

module _ {Node : Type 0} (yaml : Doc Node) where
  abbrev pub pushes : Node → List Node → Node
  pushes node [] = node
  pushes node (n ∷ ns) = pushes (yaml.push_back node n) ns

  abbrev pub puts : Node → List (Str × Node) → Node
  puts node [] = node
  puts node (p ∷ ps) = puts (yaml.put node p.0 p.1) ps

  -- What yaml-cpp documents: nodes pushed onto an empty node make the sequence of them, keys that
  -- are set make a map, and what is written is read back.
  pub record Laws : Type 0 where
    pub sequence_size : (ns : List Node) → yaml.size (pushes yaml.null ns) ≡ length ns
    pub sequence_at :
        (ns : List Node) (i : ℕ) (n : Node)
        → get_elem? ns i ≡ some n
        → yaml.at (pushes yaml.null ns) i ≡ n
    pub sequence_read :
        (ns : List Node) → yaml.load (yaml.emit (pushes yaml.null ns)) ≡ some (pushes yaml.null ns)
    pub map_pairs :
        (ps : List (Str × Node)) → IsAscending key_less ps → yaml.pairs (puts yaml.null ps) ≡ ps
    pub map_read :
        (ps : List (Str × Node))
        → yaml.load (yaml.emit (puts yaml.null ps)) ≡ some (puts yaml.null ps)

  module _ {T : Type 0} (from : Str → Option T) (to : T → Option Str) where
    -- The element is written as a node that reads back as the element.
    abbrev pub ReadsBack : T → Type 0
    ReadsBack x = (n : Node) × (node_of yaml to x ≡ some n) × (from (yaml.emit n) ≡ some x)

    -- The nodes of elements.
    abbrev pub AreNodes : List T → List Node → Type 0
    AreNodes [] [] = Unit
    AreNodes (x ∷ xs) (n ∷ ns) = (from (yaml.emit n) ≡ some x) × AreNodes xs ns
    AreNodes _ _ = ⊥

    written :
        (xs : List T)
        → All ReadsBack xs
        → (ns : List Node) × AreNodes xs ns
          × ((node : Node) → push_all yaml to node xs ≡ some (pushes node ns))
    unfolding push_all
    written [] h = ([], tt, λ node. refl)
    written (x ∷ xs) h =
        let (n, e, r) = h.0 in
        let (ns, are, p) = written xs h.1 in
        (n ∷ ns, (r, are), λ node. rw (push_all, e) (p (yaml.push_back node n)))

    module _ (laws : Laws) (add : T → List T → List T) where
      item_at :
          (before : List Node) (n : Node) (ns : List Node)
          → get_elem? (before ++ n ∷ ns) (length before) ≡ some n
      item_at [] n ns = refl
      item_at (m ∷ before) n ns = item_at before n ns

      load_items_lem :
          (before ns : List Node) (xs c : List T)
          → AreNodes xs ns
          → load_items yaml from add (pushes yaml.null (before ++ ns)) (length ns) (length before) c
            ≡ some (add_all add xs c)
      unfolding load_items
      load_items_lem before [] [] c h = refl
      load_items_lem before (n ∷ ns) (x ∷ xs) c h =
          let at = laws.sequence_at (before ++ n ∷ ns) (length before) n (item_at before n ns) in
          let next = load_items_lem (before ++ n ∷ []) ns xs (add x c) h.1 in
          rw (load_items, at, h.0)
            (ap
                (λ i.
                  load_items yaml from add (pushes yaml.null (before ++ n ∷ ns)) (length ns) i
                    (add x c))
                (sym (length-append before (n ∷ [])))
              ∙ ap
                  (λ ms.
                    load_items yaml from add (pushes yaml.null ms) (length ns)
                      (length (before ++ n ∷ [])) (add x c))
                  (sym (append_assoc before (n ∷ []) ns))
              ∙ next)
      load_items_lem before [] (x ∷ xs) c h = elim h [ ]
      load_items_lem before (n ∷ ns) [] c h = elim h [ ]

      pub items_lem :
          (xs : List T)
          → All ReadsBack xs
          → (s : Str) × (items_to_string yaml to xs ≡ some s)
            × (items_from_string yaml from add s ≡ some (add_all add xs []))
      unfolding items_to_string items_from_string
      items_lem xs h =
          let (ns, are, p) = written xs h in
          (
            yaml.emit (pushes yaml.null ns),
            rw (p yaml.null) refl,
            rw (items_from_string, laws.sequence_read ns, laws.sequence_size ns)
                (load_items_lem [] ns xs [] are),
          )
