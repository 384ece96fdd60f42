-- ===== src/Locks/Owners.antt =====
-- A lock that readers share, as the list of its owners: an instance of what Locks/Guarding asks of
-- pthread.
use collabor_ative_schedule.Base.{
  ℕ, ◌≡◌, refl, sym, ap, ◌∙◌, inl, inr, Bool, true, false, ◌&&◌, ◌||◌, List, [], ◌∷◌, Option, none,
  some, ◌==◌, if◌then◌else◌, Bool-cases, arith,
}
use mathlib.Core.Option.{some-injective}
use collabor_ative_schedule.Locks.{Op, lock, rdlock, wrlock, unlock}
use collabor_ative_schedule.Locks.Guarding.{Primitive, Laws}

abbrev pub Owners : Type 0
Owners = List (ℕ × Op)

abbrev is_rdlock : Op → Bool
is_rdlock rdlock = true
is_rdlock _ = false

abbrev owner : Owners → ℕ → Option Op
owner [] u = none
owner ((v, m) ∷ s) u = if u == v then some m else owner s u

abbrev may_take : Op → ℕ → Owners → Bool
may_take op t [] = true
may_take op t ((v, m) ∷ s) = (v == t || is_rdlock op && is_rdlock m) && may_take op t s

abbrev less_owner : ℕ → Owners → Owners
less_owner t [] = []
less_owner t ((v, m) ∷ s) = let rest = less_owner t s in if v == t then rest else (v, m) ∷ rest

abbrev pub owners : Primitive Owners
owners = record {
  take = λ op t s. if may_take op t s then some ((t, op) ∷ s) else none;
  give = less_owner;
  holds = owner;
  initial = [];
}

reads : (op : Op) → is_rdlock op ≡ true → op ≡ rdlock
reads rdlock e = refl
reads lock e = cc
reads wrlock e = cc
reads unlock e = cc

took :
    (op : Op) (t : ℕ) (s s' : Owners)
    → owners.take op t s ≡ some s'
    → (may_take op t s ≡ true) × ((t, op) ∷ s ≡ s')
took op t s s' e = elim (Bool-cases (may_take op t s)) [
  | inl x ↦ (x, some-injective _ _ (ap (λ b. if b then some ((t, op) ∷ s) else none) (sym x) ∙ e))
  | inr x ↦
      let y : none ≡ some s' = ap (λ b. if b then some ((t, op) ∷ s) else none) (sym x) ∙ e in cc
]

share :
    (op mode : Op) (t u : ℕ) (s : Owners)
    → may_take op t s ≡ true
    → (u == t) ≡ false
    → owner s u ≡ some mode
    → (op ≡ rdlock) × (mode ≡ rdlock)
share op mode t u [] e d h = cc
share op mode t u ((v, m) ∷ s) e d h = elim (Bool-cases (u == v)) [
  | inl x ↦
      let q : m ≡ mode =
        some-injective m mode (ap (λ b. if b then some m else owner s u) (sym x) ∙ h) in
      let both : (is_rdlock op && is_rdlock m) ≡ true = ground (arith, x, d, e) in
      (reads op (ground (arith, both)), sym q ∙ reads m (ground (arith, both)))
  | inr x ↦
      share op mode t u s (ground (arith, e)) d
        (ap (λ b. if b then some m else owner s u) (sym x) ∙ h)
]

gone : (t : ℕ) (s : Owners) → owner (less_owner t s) t ≡ none
gone t [] = refl
gone t ((v, m) ∷ s) =
    let rest = gone t s in
    elim (Bool-cases (v == t)) [
      | inl x ↦ rw x rest
      | inr x ↦ let y : (t == v) ≡ false = ground (arith, x) in rw (x, y) rest
    ]

stays : (t u : ℕ) (s : Owners) → (u == t) ≡ false → owner (less_owner t s) u ≡ owner s u
stays t u [] d = refl
stays t u ((v, m) ∷ s) d =
    let rest = stays t u s d in
    elim (Bool-cases (v == t)) [
      | inl x ↦ let y : (u == v) ≡ false = ground (arith, x, d) in rw (x, y) rest
      | inr x ↦ elim (Bool-cases (u == v)) [ inl y ↦ rw (x, y) refl | inr y ↦ rw (x, y) rest ]
    ]

pub owners-Laws : Laws owners
owners-Laws = record {
  free = λ t. refl;
  taken = λ op t s s' e.
      let q = (took op t s s' e).1 in
      (ap (λ s. owner s t) (sym q) ∙ ground arith, λ u d. ap (λ s. owner s u) (sym q) ∙ rw d refl);
  shared = λ op mode t u s s' e d h. share op mode t u s (took op t s s' e).0 d h;
  given = λ t s. (gone t s, λ u d. stays t u s d);
}
