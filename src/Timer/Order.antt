-- ===== src/Timer/Order.antt =====
-- What the timers' comparator orders. Where deadlines and addresses agree it is the order of the
-- addresses, and the set is sound.
use collabor_ative_schedule.Base.{
  ℕ, ◌<◌, ◌≤◌, ◌≡◌, refl, true, false, List, [], ◌∷◌, some, ◌==◌, ltb, arith, ==_iff, inl, inr,
  Bool-cases,
}
use collabor_ative_schedule.OrderedSet.{insert, find, mem, IsOrder}
use collabor_ative_schedule.Timer.{Timer, comparator, before}

-- Of the members, those with earlier deadlines have lower addresses.
abbrev pub Agree : (ℕ → Timer) → List ℕ → Type 0
Agree h xs = (a b : ℕ) → mem a xs ≡ true → mem b xs ≡ true → (h a).next < (h b).next → a < b

pub ltb-IsOrder : IsOrder ltb
ltb-IsOrder = record {
  irrefl = λ a. ground arith;
  trans = λ a b c p q. ground arith;
  connex = λ a b p q. ground arith;
}

-- When of two timers the one with the earlier deadline has the higher address, the comparator puts
-- each before the other: it is no strict weak order, as `std::set` requires.
pub comparator_both_ways :
    (h : ℕ → Timer) (a b : ℕ)
    → (h a).next < (h b).next
    → b < a
    → (comparator h (some a) (some b) ≡ true) × (comparator h (some b) (some a) ≡ true)
unfolding comparator
comparator_both_ways h a b l k = (ground arith, ground arith)

-- Among timers whose deadlines agree with their addresses, the comparator is the order of the
-- addresses, and what it puts first has no later deadline.
pub comparator_agrees :
    (h : ℕ → Timer) (xs : List ℕ)
    → Agree h xs
    → (a b : ℕ) → mem a xs ≡ true
    → mem b xs ≡ true
    → (comparator h (some a) (some b) ≡ ltb a b)
      × (comparator h (some a) (some b) ≡ true → (h a).next ≤ (h b).next)
unfolding comparator
comparator_agrees h xs agree a b m n = (
  elim (Bool-cases (ltb (h a).next (h b).next)) [
    | inl e ↦ rw e (ground (arith, agree a b m n (ground (arith, e))))
    | inr e ↦ ground (arith, e)
  ],
  λ e. ground (arith, e, agree b a n m),
)

-- The set behaves as one that orders addresses.
pub insert-before :
    (h : ℕ → Timer) (x : ℕ) (xs : List ℕ)
    → Agree h (x ∷ xs)
    → insert (before h) x xs ≡ insert ltb x xs
unfolding insert
insert-before h x [] agree = refl
insert-before h x (y ∷ ys) agree =
    let same = comparator_agrees h (x ∷ y ∷ ys) agree in
    rw
      (
        (same x y (ground arith) (ground arith)).0,
        (same y x (ground arith) (ground arith)).0,
        insert-before h x ys (λ a b m n. agree a b (ground arith) (ground arith)),
      )
      refl

pub find-before :
    (h : ℕ → Timer) (x : ℕ) (xs : List ℕ) → Agree h (x ∷ xs) → find (before h) x xs ≡ find ltb x xs
unfolding find
find-before h x [] agree = refl
find-before h x (y ∷ ys) agree =
    let same = comparator_agrees h (x ∷ y ∷ ys) agree in
    rw
      (
        (same x y (ground arith) (ground arith)).0,
        (same y x (ground arith) (ground arith)).0,
        find-before h x ys (λ a b m n. agree a b (ground arith) (ground arith)),
      )
      refl

pub ne-mem : (a t : ℕ) (xs : List ℕ) → mem a xs ≡ true → mem t xs ≡ false → (a == t) ≡ false
ne-mem a t xs p q = elim (Bool-cases (a == t)) [ inl e ↦ cc ((==_iff a t).0 e) | inr e ↦ e ]

-- Fewer members agree, and so do the same members with the same deadlines.
pub Agree-sub :
    (h h' : ℕ → Timer) (xs ys : List ℕ)
    → ((a : ℕ) → mem a ys ≡ true → (mem a xs ≡ true) × ((h' a).next ≡ (h a).next))
    → Agree h xs
    → Agree h' ys
Agree-sub h h' xs ys sub agree a b m n l =
    agree a b (sub a m).0 (sub b n).0 (omega (arith, (sub a m).1, (sub b n).1))
