-- ===== src/OrderedSet/Laws.antt =====
-- The laws of the ordered set that its clients use.
use collabor_ative_schedule.Base.{
  ℕ, ◌≡◌, refl, sym, subst, ◌∙◌, inl, inr, Bool, true, false, not, ◌&&◌, ◌||◌, List, [], ◌∷◌, none,
  some, All, ◌==◌, if◌then◌else◌, arith, ==_iff, Bool-cases,
}
use collabor_ative_schedule.OrderedSet.{insert, find, erase, mem, IsSorted, IsOrder}

pub All-mem : (P : ℕ → Type 0) (a : ℕ) (xs : List ℕ) → All P xs → mem a xs ≡ true → P a
All-mem P a [] h m = cc
All-mem P a (x ∷ xs) h m = elim (Bool-cases (a == x)) [
  | inl e ↦ subst P (sym ((==_iff a x).0 e)) h.0
  | inr e ↦ All-mem P a xs h.1 (ground (arith, e))
]

pub All-map :
    (P Q : ℕ → Type 0) (xs : List ℕ) → ((a : ℕ) → mem a xs ≡ true → P a → Q a) → All P xs → All Q xs
All-map P Q [] f h = tt
All-map P Q (x ∷ xs) f h = (f x (ground arith) h.0, All-map P Q xs (λ a m. f a (ground arith)) h.1)

mem-erase_keep : (a x : ℕ) (xs : List ℕ) → (a == x) ≡ false → mem a (erase x xs) ≡ mem a xs
unfolding erase
mem-erase_keep a x [] n = refl
mem-erase_keep a x (y ∷ ys) n = ground (arith, mem-erase_keep a x ys n)

pub erase-All : (P : ℕ → Type 0) (x : ℕ) (xs : List ℕ) → All P xs → All P (erase x xs)
unfolding erase
erase-All P x [] h = tt
erase-All P x (y ∷ ys) h = ground (arith, erase-All P x ys h.1)

module _ (lt : ℕ → ℕ → Bool) (o : IsOrder lt) where
  pub mem-insert : (a x : ℕ) (xs : List ℕ) → mem a (insert lt x xs) ≡ (a == x || mem a xs)
  unfolding insert
  mem-insert a x [] = refl
  mem-insert a x (y ∷ ys) = ground (arith, mem-insert a x ys, o.connex x y)

  pub insert-All : (P : ℕ → Type 0) (x : ℕ) (xs : List ℕ) → P x → All P xs → All P (insert lt x xs)
  unfolding insert
  insert-All P x [] p h = (p, tt)
  insert-All P x (y ∷ ys) p h = ground (arith, insert-All P x ys p h.1)

  pub insert-IsSorted : (x : ℕ) (xs : List ℕ) → IsSorted lt xs → IsSorted lt (insert lt x xs)
  unfolding insert
  insert-IsSorted x [] s = (tt, tt)
  insert-IsSorted x (y ∷ ys) s = elim (Bool-cases (lt x y)) [
    | inl e ↦ rw e ((e, All-map _ _ ys (λ a _ h. o.trans x y a e h) s.0), s)
    | inr e ↦ elim (Bool-cases (lt y x)) [
      | inl f ↦ rw (e, f) (insert-All _ x ys f s.0, insert-IsSorted x ys s.1)
      | inr f ↦ rw (e, f) s
    ]
  ]

  -- An element is not among those that stand behind it.
  pub not-mem-behind : (x : ℕ) (xs : List ℕ) → All (λ y. lt x y ≡ true) xs → mem x xs ≡ false
  not-mem-behind x xs h = elim (Bool-cases (mem x xs)) [
    | inl e ↦ cc (All-mem (λ y. lt x y ≡ true) x xs h e, o.irrefl x)
    | inr e ↦ e
  ]

  pub mem-erase :
      (a x : ℕ) (xs : List ℕ) → IsSorted lt xs → mem a (erase x xs) ≡ (not (a == x) && mem a xs)
  unfolding erase
  mem-erase a x [] s = ground arith
  mem-erase a x (y ∷ ys) s = ground (arith, mem-erase a x ys s.1, not-mem-behind y ys s.0)

  pub erase-IsSorted : (x : ℕ) (xs : List ℕ) → IsSorted lt xs → IsSorted lt (erase x xs)
  unfolding erase
  erase-IsSorted x [] s = tt
  erase-IsSorted x (y ∷ ys) s = elim (Bool-cases (x == y)) [
    | inl e ↦ rw e s.1
    | inr e ↦ rw e (erase-All _ x ys s.0, erase-IsSorted x ys s.1)
  ]

  find_absent : (x : ℕ) (xs : List ℕ) → mem x xs ≡ false → find lt x xs ≡ none
  unfolding find
  find_absent x [] m = refl
  find_absent x (y ∷ ys) m = ground (arith, find_absent x ys, o.connex x y)

  find_present : (x : ℕ) (xs : List ℕ) → IsSorted lt xs → mem x xs ≡ true → find lt x xs ≡ some x
  unfolding find
  find_present x [] s m = cc
  find_present x (y ∷ ys) s m = elim (Bool-cases (x == y)) [
    | inl e ↦ ground (arith, o.irrefl x, e)
    | inr e ↦
        let later = find_present x ys s.1 (ground (arith, e)) in
        ground (arith, later, All-mem (λ z. lt y z ≡ true) x ys s.0 (ground (arith, e)))
  ]

  -- `find` by equivalence is `find` by identity.
  pub find-mem :
      (x : ℕ) (xs : List ℕ) → IsSorted lt xs → find lt x xs ≡ (if mem x xs then some x else none)
  find-mem x xs s = elim (Bool-cases (mem x xs)) [
    | inl e ↦ rw e (find_present x xs s e)
    | inr e ↦ rw e (find_absent x xs e)
  ]

-- Two comparators that agree on the elements sort the same lists.
pub IsSorted-agree :
    (lt lt' : ℕ → ℕ → Bool) (xs : List ℕ)
    → ((a b : ℕ) → mem a xs ≡ true → mem b xs ≡ true → lt a b ≡ lt' a b)
    → IsSorted lt xs
    → IsSorted lt' xs
IsSorted-agree lt lt' [] f s = tt
IsSorted-agree lt lt' (x ∷ xs) f s = (
  All-map _ _ xs (λ a m h. sym (f x a (ground arith) (ground arith)) ∙ h) s.0,
  IsSorted-agree lt lt' xs (λ a b m n. f a b (ground arith) (ground arith)) s.1,
)
