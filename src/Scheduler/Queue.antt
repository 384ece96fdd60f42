-- ===== src/Scheduler/Queue.antt =====
-- The queue: what `schedule` puts in and what the search in `run` takes out.
use collabor_ative_schedule.Base.{
  ℕ, ◌≡◌, refl, ap, inl, inr, Bool, true, false, ◌||◌, List, [], ◌∷◌, ◌++◌, none, some, ok, All,
  arith, Bool-cases,
}
use collabor_ative_schedule.Fiber.{State}
use collabor_ative_schedule.Scheduler.{Task, Pick, pick, has_work, is_elsewhere, is_executing, skip}

-- Every task in the queue has something to run.
abbrev pub AllWork : List Task → Type 0
AllWork = All (λ t. has_work t ≡ true)

-- A task that worker `tid` passes over.
abbrev pub passes : ℕ → (ℕ → State) → Task → Bool
passes tid states t = is_elsewhere tid t || is_executing states t

abbrev pub any_elsewhere : ℕ → List Task → Bool
any_elsewhere tid [] = false
any_elsewhere tid (t ∷ ts) = is_elsewhere tid t || any_elsewhere tid ts

-- The search found nothing, or took the first task that it does not pass over.
pub data Picked (tid : ℕ) (states : ℕ → State) (tasks : List Task) (p : Pick) : Type 0 where
  nothing :
      All (λ t. passes tid states t ≡ true) tasks
      → p ≡ record { taken = none; rest = tasks; tickle_me = any_elsewhere tid tasks }
      → Picked tid states tasks p
  took :
      (before : List Task) (t : Task) (after : List Task)
      → tasks ≡ before ++ t ∷ after
      → All (λ t. passes tid states t ≡ true) before
      → passes tid states t ≡ false
      → p ≡ record { taken = some t; rest = before ++ after; tickle_me = any_elsewhere tid before }
      → Picked tid states tasks p

Picked-skip :
    (tid : ℕ) (states : ℕ → State) (t : Task) (tasks : List Task) (p : Pick)
    → passes tid states t ≡ true
    → Picked tid states tasks p
    → Picked tid states (t ∷ tasks) (skip t (is_elsewhere tid t) p)
Picked-skip tid states t tasks p e (nothing all q) = nothing (e, all) (rw q refl)
Picked-skip tid states t tasks p e (took before u after split all f q) =
    took (t ∷ before) u after (ap (◌∷◌ t) split) (e, all) f (rw q refl)

-- The search at a task that it passes over, and at one that it takes.
pub pick_over :
    (tid : ℕ) (states : ℕ → State) (t : Task) (tasks : List Task) (p : Pick)
    → has_work t ≡ true
    → passes tid states t ≡ true
    → pick tid states tasks ≡ ok p
    → pick tid states (t ∷ tasks) ≡ ok (skip t (is_elsewhere tid t) p)
unfolding pick
pick_over tid states t tasks p h over e = elim (Bool-cases (is_elsewhere tid t)) [
  | inl f ↦ rw (f, e) refl
  | inr f ↦ let g : is_executing states t ≡ true = ground (arith, f, over) in rw (f, h, g, e) refl
]

pub pick_here :
    (tid : ℕ) (states : ℕ → State) (t : Task) (tasks : List Task)
    → has_work t ≡ true
    → passes tid states t ≡ false
    → pick tid states (t ∷ tasks) ≡ ok (record { taken = some t; rest = tasks; tickle_me = false })
unfolding pick
pick_here tid states t tasks h here =
    let f : is_elsewhere tid t ≡ false = ground (arith, here) in
    let g : is_executing states t ≡ false = ground (arith, here, f) in rw (f, h, g) refl

-- When every task of the queue has something to run, the search asserts nothing false, and it
-- takes the first task that is neither bound to another thread nor a fiber in state EXEC, leaving
-- the others in order; `tickle_me` is set exactly if it passed over a task bound to another thread.
pub pick-Picked :
    (tid : ℕ) (states : ℕ → State) (tasks : List Task)
    → AllWork tasks
    → (p : Pick) × (pick tid states tasks ≡ ok p) × Picked tid states tasks p
unfolding pick
pick-Picked tid states [] h =
    (record { taken = none; rest = []; tickle_me = false }, refl, nothing tt refl)
pick-Picked tid states (t ∷ ts) h =
    let (p, e, k) = pick-Picked tid states ts h.1 in
    elim (Bool-cases (passes tid states t)) [
      | inl f ↦ (
        skip t (is_elsewhere tid t) p,
        pick_over tid states t ts p h.0 f e,
        Picked-skip tid states t ts p f k,
      )
      | inr f ↦ (
        record { taken = some t; rest = ts; tickle_me = false },
        pick_here tid states t ts h.0 f,
        took [] t ts refl tt f refl,
      )
    ]
