-- ===== src/OrderedSet.antt =====
-- `std::set` of object addresses under a comparator, as the library documents it: the elements in
-- order, no two of them equivalent. An iterator is `some` element, and `none` is `end()`.
pub mod Laws
use collabor_ative_schedule.Base.{
  ℕ, ◌≡◌, Bool, true, false, ◌||◌, List, [], ◌∷◌, Option, none, some, All, ◌==◌, if◌then◌else◌,
}

module _ (lt : ℕ → ℕ → Bool) where
  -- `insert(x)`: an equivalent element that is there already stays.
  unfoldable pub insert : ℕ → List ℕ → List ℕ
  insert x [] = x ∷ []
  insert x (y ∷ ys) =
      let later = insert x ys in if lt x y then x ∷ y ∷ ys else if lt y x then y ∷ later else y ∷ ys

  -- `find(x)`.
  unfoldable pub find : ℕ → List ℕ → Option ℕ
  find x [] = none
  find x (y ∷ ys) = if lt y x then find x ys else if lt x y then none else some y

  abbrev pub IsSorted : List ℕ → Type 0
  IsSorted [] = Unit
  IsSorted (x ∷ xs) = All (λ y. lt x y ≡ true) xs × IsSorted xs

-- `erase(it)` at an iterator that is not `end()`.
unfoldable pub erase : ℕ → List ℕ → List ℕ
erase x [] = []
erase x (y ∷ ys) = if x == y then ys else y ∷ erase x ys

-- `begin()`.
abbrev pub begin : List ℕ → Option ℕ
begin [] = none
begin (x ∷ xs) = some x

-- `==` of two iterators.
abbrev pub same_iterator : Option ℕ → Option ℕ → Bool
same_iterator none none = true
same_iterator (some x) (some y) = x == y
same_iterator _ _ = false

-- Whether the element is in the set.
abbrev pub mem : ℕ → List ℕ → Bool
mem a [] = false
mem a (x ∷ xs) = a == x || mem a xs

-- The comparator is a strict total order.
pub record IsOrder (lt : ℕ → ℕ → Bool) : Type 0 where
  pub irrefl : (a : ℕ) → lt a a ≡ false
  pub trans : (a b c : ℕ) → lt a b ≡ true → lt b c ≡ true → lt a c ≡ true
  pub connex : (a b : ℕ) → lt a b ≡ false → lt b a ≡ false → a ≡ b
