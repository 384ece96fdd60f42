-- ===== src/IoManager/Shots.antt =====
-- What one `if (events & event)` of `cancelAll` and of `idle` does to a manager.
use mathlib.Core.List.{append-nil}
use collabor_ative_schedule.Base.{
  ℕ, ◌+◌, ◌^◌, ◌<◌, ◌≤◌, ◌≡◌, refl, sym, ap, ◌∙◌, inl, inr, Bool, true, false, List, [], ◌∷◌, ◌++◌,
  none, some, if◌then◌else◌, arith, Bool-cases, ok, ◌==◌,
}
use collabor_ative_schedule.Scheduler.{Work}
use collabor_ative_schedule.IoManager.{
  EventContext, FdContext, new_context, IoManager, Side, read_side, write_side, at_side, work_of,
}
use collabor_ative_schedule.IoManager.Removal.{trigger_if, trigger_one}
use collabor_ative_schedule.IoManager.Invariant.{Sides, weight}
use collabor_ative_schedule.IoManager.Trigger.{
  event_of, has, meets-event_of, cleared, without, trigger_one_ok, cleared-Sides, cleared-weight,
}
use collabor_ative_schedule.IoManager.Removing.{agrees, put_self, put_other}

-- What a side's context hands to its scheduler.
abbrev pub hand : Bool → EventContext → List (ℕ × Work)
hand registered e =
    if registered then elim e.scheduler [ none ↦ [] | some k ↦ (k, work_of e) ∷ [] ] else []

abbrev pub handed : Side → FdContext → List (ℕ × Work)
handed s c = hand (has s c.events) (at_side s c)

abbrev pub drop : Side → FdContext → FdContext
drop s c = if has s c.events then cleared s c else c

-- The manager after `if (events & event) { triggerEvent(event); m_pendingEventCount --; }`.
unfoldable pub shot : Side → ℕ → IoManager → IoManager
shot s fd io =
    if has s (io.contexts fd).events
    then record (without s fd io) { posted = io.posted ++ handed s (io.contexts fd) }
    else io

pub shot_ok :
    (s : Side) (fd : ℕ) (io : IoManager)
    → Sides (io.contexts fd)
    → trigger_if fd (event_of s) io ≡ ok (shot s fd io)
unfolding trigger_if shot
shot_ok s fd io a = elim (Bool-cases (has s (io.contexts fd).events)) [
  | inr e ↦ rw (meets-event_of s (io.contexts fd).events, e) refl
  | inl e ↦
      let armed = agrees s (io.contexts fd) a e in
      let (k, named) = armed.0 in
      rw (meets-event_of s (io.contexts fd).events, e)
        (trigger_one_ok s fd k io e armed named ∙ rw named refl)
]

module _ (s : Side) (fd : ℕ) (io : IoManager) where
  pub shot-here : (shot s fd io).contexts fd ≡ drop s (io.contexts fd)
  unfolding shot
  shot-here = elim (Bool-cases (has s (io.contexts fd).events)) [
    | inl e ↦ rw e (put_self io.contexts fd _)
    | inr e ↦ rw e refl
  ]

  pub shot-other : (i : ℕ) → (i == fd) ≡ false → (shot s fd io).contexts i ≡ io.contexts i
  unfolding shot
  shot-other i n = elim (Bool-cases (has s (io.contexts fd).events)) [
    | inl e ↦ rw e (put_other io.contexts fd i _ n)
    | inr e ↦ rw e refl
  ]

  pub shot_fields :
      ((shot s fd io).interest ≡ io.interest)
      × ((shot s fd io).size ≡ io.size)
      × ((shot s fd io).posted ≡ io.posted ++ handed s (io.contexts fd))
  unfolding shot
  shot_fields = elim (Bool-cases (has s (io.contexts fd).events)) [
    | inl e ↦ rw e (refl, refl, refl)
    | inr e ↦ rw e (refl, refl, sym (append-nil io.posted))
  ]

  pub shot-pending :
      weight (io.contexts fd) ≤ io.pending
      → io.pending < 2 ^ 64
      → (shot s fd io).pending + weight (io.contexts fd)
        ≡ io.pending + weight (drop s (io.contexts fd))
  unfolding shot
  shot-pending l k = elim (Bool-cases (has s (io.contexts fd).events)) [
    | inl e ↦ rw e (omega (arith, cleared-weight s (io.contexts fd) e))
    | inr e ↦ rw e refl
  ]

pub drop-Sides : (s : Side) (c : FdContext) → Sides c → Sides (drop s c)
drop-Sides s c a = elim (Bool-cases (has s c.events)) [
  | inl e ↦ rw e (cleared-Sides s c a)
  | inr e ↦ rw e a
]

pub drop-weight : (s : Side) (c : FdContext) → weight (drop s c) ≤ weight c
drop-weight read_side c = ground arith
drop-weight write_side c = ground arith

-- The other side keeps what it hands on.
pub handed-drop : (c : FdContext) → handed write_side (drop read_side c) ≡ handed write_side c
handed-drop c = ap (λ b. hand b (drop read_side c).write) bits ∙ ap (hand c.events.writes) contexts
  where
    bits : (drop read_side c).events.writes ≡ c.events.writes
    bits = ground arith

    contexts : (drop read_side c).write ≡ c.write
    contexts = ground arith

-- Without its two events a context is as it was made.
pub drop_both : (c : FdContext) → Sides c → drop write_side (drop read_side c) ≡ new_context c.fd
drop_both c a = elim (Bool-cases c.events.reads) [
  | inl e ↦ elim (Bool-cases c.events.writes) [
    | inl f ↦ ground (arith, e, f)
    | inr f ↦ ground (arith, e, f, a.write.off f)
  ]
  | inr e ↦ elim (Bool-cases c.events.writes) [
    | inl f ↦ ground (arith, e, f, a.read.off e)
    | inr f ↦ ground (arith, e, f, a.read.off e, a.write.off f)
  ]
]

-- A registered event is triggered.
pub shot_one :
    (s : Side) (fd : ℕ) (io : IoManager)
    → Sides (io.contexts fd)
    → has s (io.contexts fd).events ≡ true
    → trigger_one fd (event_of s) io ≡ ok (shot s fd io)
unfolding trigger_if
shot_one s fd io a e = rw (meets-event_of s (io.contexts fd).events, e) at (shot_ok s fd io a)

pub drop_other : (c : FdContext) → (drop read_side c).events.writes ≡ c.events.writes
drop_other c = ground arith
