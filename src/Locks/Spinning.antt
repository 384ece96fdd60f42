-- ===== src/Locks/Spinning.antt =====
-- `hps_CASLock` between threads: each test of the loop in `lock` is atomic, and so is the release.
use collabor_ative_schedule.Base.{
  ℕ, ◌≡◌, ◌≢◌, refl, sym, ap, subst, ◌∙◌, ◌⊎◌, ◌↔◌, inl, inr, Bool, true, false, not, if◌then◌else◌,
  ◌==◌, ==_iff, arith, Bool-cases,
}
use collabor_ative_schedule.Fiber.{put}
use collabor_ative_schedule.Locks.{new_cas_lock, test_and_set, clear}

-- Where a thread is.
pub data Place : Type 0 where
  outside spinning inside : Place

pub record System : Type 0 where
  pub flag : Bool
  pub places : ℕ → Place

abbrev pub initial : System
initial = record { flag = new_cas_lock; places = λ t. outside }

-- The thread `t` after a test of the flag.
abbrev pub tested : ℕ → System → System
tested t s =
    let r = test_and_set s.flag in
    record { flag = r.1; places = put s.places t (if r.0 then inside else spinning) }

-- A thread that is outside calls `lock`, a spinning one tests the flag, and the one that holds the
-- lock calls `unlock`.
pub data Step (s : System) : System → Type 0 where
  calls_lock :
      (t : ℕ) → s.places t ≡ outside → Step s (record s { places = put s.places t spinning })
  tests : (t : ℕ) → s.places t ≡ spinning → Step s (tested t s)
  calls_unlock :
      (t : ℕ)
      → s.places t ≡ inside
      → Step s (record { flag = clear s.flag; places = put s.places t outside })

pub data Reach : System → Type 0 where
  here : Reach initial
  next : {s s' : System} → Reach s → Step s s' → Reach s'

-- The flag is set while some thread is inside, and no two are.
pub record Exclusive (s : System) : Type 0 where
  pub held : (t : ℕ) → s.places t ≡ inside → s.flag ≡ true
  pub alone : (t u : ℕ) → s.places t ≡ inside → s.places u ≡ inside → t ≡ u
  pub free : s.flag ≡ true → (t : ℕ) × (s.places t ≡ inside)

at : {A : Type 0} (f : ℕ → A) (t : ℕ) (v : A) → put f t v t ≡ v
at f t v = rw ((==_iff t t).1 refl) refl

elsewhere : {A : Type 0} (f : ℕ → A) (t u : ℕ) (v : A) → (u == t) ≡ false → put f t v u ≡ f u
elsewhere f t u v n = rw n refl

-- A thread that comes out of a change inside was inside before, unless it is the one that changed.
moved :
    (f : ℕ → Place) (t u : ℕ) (v : Place)
    → put f t v u ≡ inside
    → ((u ≡ t) × (v ≡ inside)) ⊎ ((u == t) ≡ false) × (f u ≡ inside)
moved f t u v h = elim (Bool-cases (u == t)) [
  | inl e ↦ inl ((==_iff u t).0 e, ground (arith, h, e))
  | inr e ↦ inr (e, ground (arith, h, e))
]

-- A thread that changes without being inside before or after.
bystander :
    (s : System) (t : ℕ) (v : Place)
    → s.places t ≢ inside
    → v ≢ inside
    → Exclusive s
    → Exclusive (record s { places = put s.places t v })
bystander s t v was is ex = record {
  held = λ u h. ex.held u (inside_before u h);
  alone = λ u w h k. ex.alone u w (inside_before u h) (inside_before w k);
  free = λ h.
      let (u, there) = ex.free h in
      (
        u,
        elim (Bool-cases (u == t)) [
          | inl e ↦ absurd (was (ap s.places (sym ((==_iff u t).0 e)) ∙ there))
          | inr e ↦ elsewhere s.places t u v e ∙ there
        ],
      );
}
  where
    inside_before : (u : ℕ) → put s.places t v u ≡ inside → s.places u ≡ inside
    inside_before u h = elim (moved s.places t u v h) [
      | inl (_, q) ↦ absurd (is q)
      | inr (_, there) ↦ there
    ]

-- A thread that finds the flag unset.
enters :
    (s : System) (t : ℕ)
    → s.flag ≡ false
    → Exclusive s
    → Exclusive (record { flag = true; places = put s.places t inside })
enters s t e ex = record {
  held = λ u h. refl;
  alone = λ u w h k. only u h ∙ sym (only w k);
  free = λ h. (t, at s.places t inside);
}
  where
    only : (u : ℕ) → put s.places t inside u ≡ inside → u ≡ t
    only u h = elim (moved s.places t u inside h) [
      | inl (p, _) ↦ p
      | inr (_, there) ↦ absurd (cc (ex.held u there, e))
    ]

leaves :
    (s : System) (t : ℕ)
    → s.places t ≡ inside
    → Exclusive s
    → Exclusive (record { flag = clear s.flag; places = put s.places t outside })
unfolding clear
leaves s t e ex = record {
  held = λ u h. absurd (nobody u h);
  alone = λ u w h k. absurd (nobody u h);
  free = λ h. cc;
}
  where
    nobody : (u : ℕ) → put s.places t outside u ≢ inside
    nobody u h = elim (moved s.places t u outside h) [
      | inl (_, q) ↦ cc
      | inr (n, there) ↦ cc (n, (==_iff u t).1 (ex.alone u t there e))
    ]

tested-Exclusive :
    (s : System) (t : ℕ) → s.places t ≡ spinning → Exclusive s → Exclusive (tested t s)
unfolding test_and_set
tested-Exclusive s t e ex = go s.flag refl
  where
    go : (b : Bool) → s.flag ≡ b → Exclusive (tested t s)
    go true f =
        let same : tested t s ≡ record s { places = put s.places t spinning } = rw f refl in
        subst Exclusive (sym same) (bystander s t spinning (λ h. cc) (λ h. cc) ex)
    go false f =
        let same : tested t s ≡ record { flag = true; places = put s.places t inside } =
          rw f refl in
        subst Exclusive (sym same) (enters s t f ex)

Step-Exclusive : {s s' : System} → Exclusive s → Step s s' → Exclusive s'
Step-Exclusive {s} ex (calls_lock t e) = bystander s t spinning (λ h. cc) (λ h. cc) ex
Step-Exclusive {s} ex (tests t e) = tested-Exclusive s t e ex
Step-Exclusive {s} ex (calls_unlock t e) = leaves s t e ex

Reach-Exclusive : {s : System} → Reach s → Exclusive s
unfolding new_cas_lock
Reach-Exclusive here = record { held = λ t h. cc; alone = λ t u h k. cc; free = λ h. cc }
Reach-Exclusive (next r s) = Step-Exclusive (Reach-Exclusive r) s

-- With any threads that call `lock`, test the flag in its loop, and call `unlock` while they hold
-- the lock, in any order from a new lock: at most one thread holds the lock at a time; the flag is
-- set exactly while some thread holds it; and the next test of a spinning thread takes the lock
-- exactly when no thread holds it.
pub Reach-exclusive :
    {s : System}
    → Reach s
    → (t u : ℕ)
    → (s.places t ≡ inside → s.places u ≡ inside → t ≡ u)
      × ((s.flag ≡ true) ↔ ((v : ℕ) × (s.places v ≡ inside)))
      × (((tested t s).places t ≡ inside) ↔ ((v : ℕ) → s.places v ≢ inside))
unfolding test_and_set
Reach-exclusive {s} r t u =
    let ex = Reach-Exclusive r in
    let set = λ (v : ℕ) (h : s.places v ≡ inside). ex.held v h in
    let here = at s.places t (if not s.flag then inside else spinning) in
    (
      ex.alone t u,
      (ex.free, λ p. set p.0 p.1),
      (
        λ h v there.
            let f = set v there in
            let stays : (if not s.flag then inside else spinning) ≡ spinning = rw f refl in
            let d : spinning ≡ inside = sym stays ∙ sym here ∙ h in cc,
        λ none_inside. elim (Bool-cases s.flag) [
          | inl f ↦ let (v, there) = ex.free f in absurd (none_inside v there)
          | inr f ↦ here ∙ rw f refl
        ],
      ),
    )
