-- ===== src/Config/Members.antt =====
-- What `ListAllMember` lists.
use mathlib.Core.List.{Memᴰ}
use mathlib.Core.List.Memᴰ
use collabor_ative_schedule.Base.{
  ℕ, zero, suc, ◌<◌, ◌≡◌, refl, sym, subst, inl, inr, true, false, List, [], ◌∷◌, ◌++◌, Option,
  some, arith, Bool-cases, Str,
}
use collabor_ative_schedule.Config.{valid_name}
use collabor_ative_schedule.Config.Yaml.{Yaml, join, list_each, list_all_member}

-- A call for each element that returns, with what it lists.
each_lem :
    {A B : Type 0} (f : A → Option (List B)) (P : A → B → Type 0) (qs : List A)
    → ((q : A)
        → Memᴰ q qs
        → (out : List B) × (f q ≡ some out)
          × ((x : B) → (Memᴰ x out → P q x) × (P q x → Memᴰ x out)))
    → (out : List B) × (list_each f qs ≡ some out)
      × ((x : B)
          → (Memᴰ x out → (q : A) × Memᴰ q qs × P q x) × ((q : A) → Memᴰ q qs → P q x → Memᴰ x out))
unfolding list_each
each_lem f P [] h = ([], refl, λ x. (λ m. absurd (Memᴰ.not-nil m), λ q m. absurd (Memᴰ.not-nil m)))
each_lem {A} {B} f P (q ∷ qs) h =
    let (out, e, here) = h q (Memᴰ.head refl) in
    let (rest, d, there) = each_lem f P qs (λ r m. h r (Memᴰ.tail m)) in
    (
      out ++ rest,
      rw (e, d) refl,
      λ x. (
        λ m. elim (Memᴰ.append_cases out m) [
          | inl i ↦ (q, Memᴰ.head refl, (here x).0 i)
          | inr i ↦ let (r, j, p) = (there x).0 i in (r, Memᴰ.tail j, p)
        ],
        λ r m p. elim (Memᴰ.cases_cons m) [
          | inl s ↦ Memᴰ.append_left rest ((here x).1 (subst (λ t. P t x) s p))
          | inr i ↦ Memᴰ.append_right out ((there x).1 r i p)
        ],
      ),
    )

module _ {Node : Type 0} (yaml : Yaml Node) where
  -- The nodes that are to be found under `node`: along keys, and while the names so far are valid.
  pub data Listed : Str → Node → Str × Node → Type 0 where
    itself :
        {prefix : Str} {node : Node} → valid_name prefix ≡ true → Listed prefix node (prefix, node)
    below :
        {prefix : Str} {node : Node} {x : Str × Node}
        → valid_name prefix ≡ true
        → yaml.is_map node ≡ true
        → (q : Node × Node) → Memᴰ q (yaml.pairs node)
        → Listed (join prefix (yaml.scalar q.0)) q.1 x
        → Listed prefix node x

  -- No node contains itself.
  abbrev pub IsFinite : (Node → ℕ) → Type 0
  IsFinite height =
      (n : Node) (q : Node × Node)
      → yaml.is_map n ≡ true
      → Memᴰ q (yaml.pairs n)
      → height q.1 < height n

  only :
      {prefix : Str} {node : Node} (x : Str × Node)
      → valid_name prefix ≡ true
      → yaml.is_map node ≡ false
      → Listed prefix node x
      → Memᴰ x ((prefix, node) ∷ [])
  only x v e (itself w) = Memᴰ.head refl
  only x v e (below w i q m l) = cc

  Listed-valid :
      {prefix : Str} {node : Node} {x : Str × Node}
      → Listed prefix node x
      → valid_name prefix ≡ true
  Listed-valid (itself w) = w
  Listed-valid (below w i q m l) = w

  listed_map :
      {prefix : Str} {node : Node} (x : Str × Node) (rest : List (Str × Node))
      → ((q : Node × Node)
          → Memᴰ q (yaml.pairs node)
          → Listed (join prefix (yaml.scalar q.0)) q.1 x
          → Memᴰ x rest)
      → Listed prefix node x
      → Memᴰ x ((prefix, node) ∷ rest)
  listed_map x rest h (itself w) = Memᴰ.head refl
  listed_map x rest h (below w i q m l) = Memᴰ.tail (h q m l)

  -- For a node that is finite in the sense that every value of a map has a smaller height: with
  -- fuel above the height of the node `ListAllMember` ends, under any prefix, and it lists exactly
  -- the nodes that are reached from the node along keys while every name on the way, joined by
  -- dots, has only the characters that a variable's name may have.
  pub list_all_member-Listed :
      (height : Node → ℕ)
      → IsFinite height
      → (fuel : ℕ) (prefix : Str) (node : Node) → height node < fuel
      → (out : List (Str × Node)) × (list_all_member yaml fuel prefix node ≡ some out)
        × ((x : Str × Node)
            → (Memᴰ x out → Listed prefix node x) × (Listed prefix node x → Memᴰ x out))
  unfolding list_all_member
  list_all_member-Listed height finite zero prefix node l = elim l [ ]
  list_all_member-Listed height finite (suc fuel) prefix node l =
      elim (Bool-cases (valid_name prefix)) [
        | inr v ↦ (
          [],
          rw v refl,
          λ x. (λ m. absurd (Memᴰ.not-nil m), λ t. absurd (cc (Listed-valid t, v))),
        )
        | inl v ↦ elim (Bool-cases (yaml.is_map node)) [
          | inr i ↦ (
            (prefix, node) ∷ [],
            rw (v, i) refl,
            λ x. (
              λ m. subst (Listed prefix node) (sym (Memᴰ.eq_of_singleton m)) (itself v),
              only x v i,
            ),
          )
          | inl i ↦
              let (rest, e, inside) =
                each_lem (λ q. list_all_member yaml fuel (join prefix (yaml.scalar q.0)) q.1)
                  (λ q x. Listed (join prefix (yaml.scalar q.0)) q.1 x) (yaml.pairs node)
                  (λ q m.
                    list_all_member-Listed height finite fuel (join prefix (yaml.scalar q.0)) q.1
                      (omega (arith, finite node q i m, l))) in
              (
                (prefix, node) ∷ rest,
                rw (v, i, e) refl,
                λ x. (
                  λ m. elim (Memᴰ.cases_cons m) [
                    | inl s ↦ subst (Listed prefix node) (sym s) (itself v)
                    | inr t ↦ let (q, j, p) = (inside x).0 t in below v i q j p
                  ],
                  listed_map x rest (λ q m. (inside x).1 q m),
                ),
              )
        ]
      ]
