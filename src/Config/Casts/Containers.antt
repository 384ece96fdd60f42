-- ===== src/Config/Casts/Containers.antt =====
-- The round trips of vectors, lists, sets and maps.
use collabor_ative_schedule.Base.{◌≡◌, refl, ap, ◌∙◌, Bool, List, [], ◌∷◌, Option, some, Str, All}
use collabor_ative_schedule.Config.Casts.{
  Doc, set_insert, map_insert, push, vector_from_string, list_from_string, set_from_string,
  load_pairs, map_from_string, vector_to_string, list_to_string, set_to_string, put_all,
  map_to_string,
}
use collabor_ative_schedule.Config.Casts.RoundTrip.{
  add_all, add_all-push, add_all-set_insert, IsAscending, key_less, Before, puts, Laws, ReadsBack,
  items_lem,
}

module _ {Node T : Type 0} (yaml : Doc Node) (from : Str → Option T) (to : T → Option Str)
    (laws : Laws yaml) where
  -- If what is written is read back by yaml-cpp, and each element's string is loaded as a node that
  -- reads back as the element: a vector, a list and a set, the set with its elements in the order
  -- of its comparison, are turned into a string without an exception, and that string is turned
  -- back into the same container.
  items_round_trip :
      (less : T → T → Bool) (xs : List T)
      → All (ReadsBack yaml from to) xs
      → IsAscending less xs
      → ((s : Str) × (vector_to_string yaml to xs ≡ some s)
          × (vector_from_string yaml from s ≡ some xs))
        × ((s : Str) × (list_to_string yaml to xs ≡ some s)
            × (list_from_string yaml from s ≡ some xs))
        × ((s : Str) × (set_to_string yaml to xs ≡ some s)
            × (set_from_string yaml from less s ≡ some xs))
  unfolding vector_to_string vector_from_string list_to_string list_from_string set_to_string
      set_from_string
  items_round_trip less xs reads order =
      let (s, e, r) = items_lem yaml from to laws push xs reads in
      let (t, f, q) = items_lem yaml from to laws (set_insert less) xs reads in
      let back = r ∙ ap some (add_all-push xs []) in
      ((s, e, back), (s, e, back), (t, f, q ∙ ap some (add_all-set_insert less xs [] order tt)))

  -- The nodes of the values of a map, under the same keys.
  abbrev pub AreValues : List (Str × T) → List (Str × Node) → Type 0
  AreValues [] [] = Unit
  AreValues (p ∷ ps) (q ∷ qs) = (q.0 ≡ p.0) × (from (yaml.emit q.1) ≡ some p.1) × AreValues ps qs
  AreValues _ _ = ⊥

  values_written :
      (ps : List (Str × T))
      → All (λ p. ReadsBack yaml from to p.1) ps
      → (qs : List (Str × Node)) × AreValues ps qs
        × ((node : Node) → put_all yaml to node ps ≡ some (puts yaml node qs))
  unfolding put_all
  values_written [] h = ([], tt, λ node. refl)
  values_written (p ∷ ps) h =
      let (n, e, r) = h.0 in
      let (qs, are, w) = values_written ps h.1 in
      ((p.0, n) ∷ qs, (refl, r, are), λ node. rw (put_all, e) (w (yaml.put node p.0 n)))

  load_pairs_lem :
      (add : Str × T → List (Str × T) → List (Str × T)) (ps : List (Str × T))
      (qs : List (Str × Node)) (c : List (Str × T))
      → AreValues ps qs
      → load_pairs yaml from add qs c ≡ some (add_all add ps c)
  unfolding load_pairs
  load_pairs_lem add [] [] c h = refl
  load_pairs_lem add (p ∷ ps) (q ∷ qs) c h =
      rw (load_pairs, h.1)
        (ap (λ k. load_pairs yaml from add qs (add (k, p.1) c)) h.0
          ∙ load_pairs_lem add ps qs (add p c) h.2)
  load_pairs_lem add [] (q ∷ qs) c h = elim h [ ]
  load_pairs_lem add (p ∷ ps) [] c h = elim h [ ]

  -- Keys decide the order.
  above :
      (p : Str × T) (q : Str × Node) (ps : List (Str × T)) (qs : List (Str × Node))
      → q.0 ≡ p.0
      → AreValues ps qs
      → All (Before key_less p) ps
      → All (Before key_less q) qs
  above p q [] [] e a h = tt
  above p q (r ∷ ps) (s ∷ qs) e a h = (rw (e, a.0) h.0, above p q ps qs e a.2 h.1)
  above p q [] (s ∷ qs) e a h = elim a [ ]
  above p q (r ∷ ps) [] e a h = elim a [ ]

  ascending :
      (ps : List (Str × T)) (qs : List (Str × Node))
      → AreValues ps qs
      → IsAscending key_less ps
      → IsAscending key_less qs
  ascending [] [] a h = tt
  ascending (p ∷ ps) (q ∷ qs) a h = (above p q ps qs a.0 a.2 h.0, ascending ps qs a.2 h.1)
  ascending [] (q ∷ qs) a h = elim a [ ]
  ascending (p ∷ ps) [] a h = elim a [ ]

  -- If what is written is read back by yaml-cpp, and each value's string is loaded as a node that
  -- reads back as the value: a map with its keys in their order is turned into a string without an
  -- exception, and that string is turned back into the same map.
  map_round_trip :
      (ps : List (Str × T))
      → All (λ p. ReadsBack yaml from to p.1) ps
      → IsAscending key_less ps
      → (s : Str) × (map_to_string yaml to ps ≡ some s) × (map_from_string yaml from s ≡ some ps)
  unfolding map_to_string map_from_string map_insert
  map_round_trip ps reads order =
      let (qs, are, w) = values_written ps reads in
      (
        yaml.emit (puts yaml yaml.null qs),
        rw (w yaml.null) refl,
        rw (map_from_string, laws.map_read qs, laws.map_pairs qs (ascending ps qs are order))
            (load_pairs_lem map_insert ps qs [] are
              ∙ ap some (add_all-set_insert key_less ps [] order tt)),
      )

  -- If what is written is read back by yaml-cpp, and the string of each element and of each value
  -- is loaded as a node that reads back as what it was: a vector, a list, a set with its elements
  -- in the order of its comparison, and a map with its keys in their order, are turned into a
  -- string without an exception, and that string is turned back into the same container.
  pub containers_round_trip :
      (less : T → T → Bool) (xs : List T) (ps : List (Str × T))
      → All (ReadsBack yaml from to) xs
      → IsAscending less xs
      → All (λ p. ReadsBack yaml from to p.1) ps
      → IsAscending key_less ps
      → ((s : Str) × (vector_to_string yaml to xs ≡ some s)
          × (vector_from_string yaml from s ≡ some xs))
        × ((s : Str) × (list_to_string yaml to xs ≡ some s)
            × (list_from_string yaml from s ≡ some xs))
        × ((s : Str) × (set_to_string yaml to xs ≡ some s)
            × (set_from_string yaml from less s ≡ some xs))
        × ((s : Str) × (map_to_string yaml to ps ≡ some s)
            × (map_from_string yaml from s ≡ some ps))
  containers_round_trip less xs ps reads order values keys =
      let (v, l, t) = items_round_trip less xs reads order in
      (v, l, t, map_round_trip ps values keys)
