-- ===== src/Log/Defines/RoundTrip.antt =====
-- Sequences of definitions that are written and read back, and what yaml-cpp does with them.
use mathlib.Core.List.{append_assoc}
use collabor_ative_schedule.Base.{
  ◌+◌, suc, ℕ, ◌≡◌, refl, sym, ap, ◌∙◌, List, [], ◌∷◌, ◌++◌, map, Option, none, some, if◌then◌else◌,
  Str, same_str, length, length-append, get_elem?,
}
use collabor_ative_schedule.Config.Casts.RoundTrip.{add_all}
use collabor_ative_schedule.Log.Defines.{Keyed, read_each, puts, pushes}

-- The value that was set last.
abbrev pub last_value : {A : Type 0} → Str → List (Str × A) → Option A
last_value k [] = none
last_value k (p ∷ ps) = elim (last_value k ps) [
  | some v ↦ some v
  | none ↦ if same_str k p.0 then some p.1 else none
]

-- What the elements that are read add; `none` is one that is passed over.
abbrev pub add_read : {A : Type 0} → (A → List A → List A) → Option A → List A → List A
add_read add none c = c
add_read add (some a) c = add a c

abbrev pub add_each : {A : Type 0} → (A → List A → List A) → List (Option A) → List A → List A
add_each add [] c = c
add_each add (o ∷ os) c = add_each add os (add_read add o c)

module _ {Node : Type 0} (yaml : Keyed Node) where
  -- What yaml-cpp documents of nodes that are built, and of writing and reading them.
  pub record Laws : Type 0 where
    pub sequence_size : (ns : List Node) → yaml.size (pushes yaml yaml.null ns) ≡ length ns
    pub sequence_at :
        (ns : List Node) (i : ℕ) (n : Node)
        → get_elem? ns i ≡ some n
        → yaml.at (pushes yaml yaml.null ns) i ≡ n
    pub sequence_read :
        (ns : List Node)
        → yaml.load (yaml.emit (pushes yaml yaml.null ns)) ≡ some (pushes yaml yaml.null ns)
    pub map_read :
        (ps : List (Str × Node))
        → yaml.load (yaml.emit (puts yaml yaml.null ps)) ≡ some (puts yaml yaml.null ps)
    pub map_get :
        (ps : List (Str × Node)) (k : Str) → yaml.get (puts yaml yaml.null ps) k ≡ last_value k ps
    pub scalar_text : (s : Str) → yaml.text (yaml.scalar s) ≡ some s

  module _ (laws : Laws) where
    item_at :
        (before : List Node) (n : Node) (ns : List Node)
        → get_elem? (before ++ n ∷ ns) (length before) ≡ some n
    item_at [] n ns = refl
    item_at (m ∷ before) n ns = item_at before n ns

    -- A loop over a sequence of written nodes, each of which is read back or passed over.
    module _ {A B : Type 0} (read : Node → Option (Option B)) (add : B → List B → List B)
        (write : A → Node) where
      -- One turn of the loop.
      read_each_step :
          (node : Node) (n i : ℕ) (c : List B) (o : Option B)
          → read (yaml.at node i) ≡ some o
          → read_each yaml read add node (suc n) i c
            ≡ read_each yaml read add node n (i + 1) (add_read add o c)
      unfolding read_each
      read_each_step node n i c none e = rw (read_each, e) refl
      read_each_step node n i c (some b) e = rw (read_each, e) refl

      pub read_each_any :
          (back : A → Option B)
          → ((a : A) → read (write a) ≡ some (back a))
          → (before : List Node) (xs : List A) (c : List B)
          → read_each yaml read add
              (pushes yaml yaml.null (before ++ map write xs))
              (length (map write xs))
              (length before)
              c
            ≡ some (add_each add (map back xs) c)
      unfolding read_each
      read_each_any back h before [] c = refl
      read_each_any back h before (x ∷ xs) c =
          let ns = map write xs in
          let n = write x in
          let c' = add_read add (back x) c in
          let at = laws.sequence_at (before ++ n ∷ ns) (length before) n (item_at before n ns) in
          let next = read_each_any back h (before ++ n ∷ []) xs c' in
          read_each_step (pushes yaml yaml.null (before ++ n ∷ ns)) (length ns) (length before) c
            (back x) (ap read at ∙ h x)
          ∙ ap
              (λ i.
                read_each yaml read add (pushes yaml yaml.null (before ++ n ∷ ns)) (length ns) i c')
              (sym (length-append before (n ∷ [])))
          ∙ ap
              (λ ms.
                read_each yaml read add (pushes yaml yaml.null ms) (length ns)
                  (length (before ++ n ∷ [])) c')
              (sym (append_assoc before (n ∷ []) ns))
          ∙ next

      pub read_each_lem :
          (back : A → B)
          → ((a : A) → read (write a) ≡ some (some (back a)))
          → (xs : List A)
          → read_each yaml read add
              (pushes yaml yaml.null (map write xs))
              (length (map write xs))
              0
              []
            ≡ some (add_all add (map back xs) [])
      read_each_lem back h xs =
          read_each_any (λ a. some (back a)) h [] xs [] ∙ ap some (all_read xs [])
        where
          all_read :
              (xs : List A) (c : List B)
              → add_each add (map (λ a. some (back a)) xs) c ≡ add_all add (map back xs) c
          all_read [] c = refl
          all_read (x ∷ xs) c = all_read xs (add (back x) c)
