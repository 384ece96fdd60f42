-- ===== src/IoManager/Handling.antt =====
-- What the loop of `idle` over the reported events hands on.
use mathlib.Core.List.{append-nil, append_assoc}
use collabor_ative_schedule.Base.{
  ℕ, ◌≡◌, refl, sym, ap, subst, ◌∙◌, inl, inr, Bool, true, false, ◌||◌, List, [], ◌∷◌, ◌++◌, ◌==◌,
  ==_iff, if◌then◌else◌, arith, Bool-cases, ok, ◌>>=◌,
}
use collabor_ative_schedule.Scheduler.{Work}
use collabor_ative_schedule.IoManager.{
  Events, FdContext, IoManager, Side, read_side, write_side, nonzero,
}
use collabor_ative_schedule.IoManager.Removal.{cancel_event, cancel_all}
use collabor_ative_schedule.IoManager.Idle.{
  Ready, tickle_pipe, descriptor, real_events, handle_descriptor, handle_event, handle_events,
}
use collabor_ative_schedule.IoManager.Invariant.{Inv}
use collabor_ative_schedule.IoManager.Trigger.{event_of, has}
use collabor_ative_schedule.IoManager.Shots.{handed}
use collabor_ative_schedule.IoManager.Cancel.{cancel_event_cases}
use collabor_ative_schedule.IoManager.CancelAll.{cancel_all_cases}
use collabor_ative_schedule.IoManager.Rounds.{handle_descriptor-eq-cancel, state_of}
use collabor_ative_schedule.IoManager.Reachable.{Reported}

-- What waits for the reported events, unless the kernel refuses the change.
abbrev pub waiters : Bool → Events → FdContext → List (ℕ × Work)
waiters fails real c =
    if fails
    then []
    else (if real.reads then handed read_side c else [])
      ++ (if real.writes then handed write_side c else [])

-- From `io` to `io'` only the context of `fd` changes, and `works` are handed on.
pub record Hands (fd : ℕ) (io io' : IoManager) (works : List (ℕ × Work)) : Type 0 where
  pub valid : Inv io'
  pub others : (i : ℕ) → (i == fd) ≡ false → io'.contexts i ≡ io.contexts i
  pub posted : io'.posted ≡ io.posted ++ works

no_change : (fd : ℕ) (io : IoManager) → Inv io → Hands fd io io []
no_change fd io inv = record {
  valid = inv;
  others = λ i n. refl;
  posted = sym (append-nil io.posted);
}

cancelled :
    (s : Side) (fails : Bool) (fd : ℕ) (io : IoManager)
    → Inv io
    → has s (io.contexts fd).events ≡ true
    → (io' : IoManager) × (state_of (cancel_event fails fd (event_of s) io) ≡ ok io')
      × Hands fd io io' (if fails then [] else handed s (io.contexts fd))
cancelled s fails fd io inv h = elim (cancel_event_cases s fails fd io inv) [
  | inl (off, e) ↦
      let f : fails ≡ true = ground (arith, off, h) in
      (io, ap state_of e, rw f (no_change fd io inv))
  | inr (k, io', on, named, e, r) ↦
      let f : fails ≡ false = ground (arith, on, h) in
      (
        io',
        ap state_of e,
        record {
          valid = r.valid;
          others = r.others;
          posted = r.posted ∙ ap (λ ws. io.posted ++ ws) (sym (rw (f, h, named) refl));
        },
      )
]

all_cancelled :
    (fails : Bool) (fd : ℕ) (io : IoManager)
    → Inv io
    → nonzero (io.contexts fd).events ≡ true
    → (io' : IoManager) × (state_of (cancel_all fails fd io) ≡ ok io')
      × Hands fd io io' (
          if fails
          then []
          else handed read_side (io.contexts fd) ++ handed write_side (io.contexts fd))
all_cancelled fails fd io inv h = elim (cancel_all_cases fails fd io inv) [
  | inl (off, e) ↦
      let f : fails ≡ true = ground (arith, off, h) in
      (io, ap state_of e, rw f (no_change fd io inv))
  | inr (io', on, e, r) ↦
      let f : fails ≡ false = ground (arith, on, h) in
      (
        io',
        ap state_of e,
        record { valid = r.valid; others = r.others; posted = r.posted ∙ rw f refl },
      )
]

handled :
    (a b fails : Bool) (fd : ℕ) (io : IoManager)
    → Inv io
    → Reported fd (record { reads = a; writes = b }) io
    → let real : Events = record { reads = a; writes = b } in
      (io' : IoManager) × (handle_descriptor fails fd real io ≡ ok io')
      × Hands fd io io' (waiters fails real (io.contexts fd))
handled true true fails fd io inv told =
    let (io', e, h) = all_cancelled fails fd io inv (let r = told.0 refl in ground (arith, r)) in
    (io', handle_descriptor-eq-cancel fails fd _ io inv told.0 told.1 ∙ e, h)
handled true false fails fd io inv told =
    let (io', e, h) = cancelled read_side fails fd io inv (told.0 refl) in
    (
      io',
      handle_descriptor-eq-cancel fails fd _ io inv told.0 told.1 ∙ e,
      subst (Hands fd io io')
          (ap (λ ws. if fails then [] else ws)
            (sym (append-nil (handed read_side (io.contexts fd)))))
          h,
    )
handled false true fails fd io inv told =
    let (io', e, h) = cancelled write_side fails fd io inv (told.1 refl) in
    (io', handle_descriptor-eq-cancel fails fd _ io inv told.0 told.1 ∙ e, h)
handled false false fails fd io inv told = (
  io,
  handle_descriptor-eq-cancel fails fd _ io inv told.0 told.1,
  subst (Hands fd io io) (nothing fails) (no_change fd io inv),
)
  where
    nothing : (b : Bool) → Path (List (ℕ × Work)) [] (if b then [] else [])
    nothing true = refl
    nothing false = refl

-- The descriptors of the reports.
abbrev pub among : List (Bool × Ready) → ℕ → Bool
among [] fd = false
among ((fails, tickle_pipe) ∷ evs) fd = among evs fd
among ((fails, descriptor d r w b) ∷ evs) fd = fd == d || among evs fd

-- The kernel reports a descriptor at most once, and events that are registered.
abbrev pub Reports : List (Bool × Ready) → IoManager → Type 0
Reports [] io = Unit
Reports ((fails, tickle_pipe) ∷ evs) io = Reports evs io
Reports ((fails, descriptor d r w b) ∷ evs) io =
    (among evs d ≡ false) × Reported d (real_events r w b) io × Reports evs io

-- What waits for the reports, in their order.
abbrev pub all_waiters : List (Bool × Ready) → (ℕ → FdContext) → List (ℕ × Work)
all_waiters [] cs = []
all_waiters ((fails, tickle_pipe) ∷ evs) cs = all_waiters evs cs
all_waiters ((fails, descriptor d r w b) ∷ evs) cs =
    waiters fails (real_events r w b) (cs d) ++ all_waiters evs cs

-- The contexts of the reports are the same.
abbrev pub Same : List (Bool × Ready) → IoManager → IoManager → Type 0
Same evs io io' = (i : ℕ) → among evs i ≡ true → io'.contexts i ≡ io.contexts i

pub Reports-later :
    (evs : List (Bool × Ready)) (io io' : IoManager)
    → Same evs io io'
    → Reports evs io
    → Reports evs io'
Reports-later [] io io' s h = tt
Reports-later ((fails, tickle_pipe) ∷ evs) io io' s h = Reports-later evs io io' s h
Reports-later ((fails, descriptor d r w b) ∷ evs) io io' s h = (
  h.0,
  subst
      (λ (c : FdContext).
        ((real_events r w b).reads ≡ true → c.events.reads ≡ true)
        × ((real_events r w b).writes ≡ true → c.events.writes ≡ true))
      (sym (s d (ground arith))) h.1,
  Reports-later evs io io' (λ i m. s i (ground (arith, m))) h.2,
)

all_waiters-later :
    (evs : List (Bool × Ready)) (io io' : IoManager)
    → Same evs io io'
    → all_waiters evs io'.contexts ≡ all_waiters evs io.contexts
all_waiters-later [] io io' s = refl
all_waiters-later ((fails, tickle_pipe) ∷ evs) io io' s = all_waiters-later evs io io' s
all_waiters-later ((fails, descriptor d r w b) ∷ evs) io io' s =
    ap (λ c. waiters fails (real_events r w b) c ++ all_waiters evs io'.contexts)
      (s d (ground arith))
    ∙ ap (λ ws. waiters fails (real_events r w b) (io.contexts d) ++ ws)
        (all_waiters-later evs io io' (λ i m. s i (ground (arith, m))))

-- The loop hands on what waits for the reports.
pub handle_events-all_waiters :
    (evs : List (Bool × Ready)) (io : IoManager)
    → Inv io
    → Reports evs io
    → (io' : IoManager) × (handle_events evs io ≡ ok io')
      × Inv io'
      × (io'.posted ≡ io.posted ++ all_waiters evs io.contexts)
unfolding handle_events handle_event
handle_events-all_waiters [] io inv h = (io, refl, inv, sym (append-nil io.posted))
handle_events-all_waiters ((fails, tickle_pipe) ∷ evs) io inv h =
    handle_events-all_waiters evs io inv h
handle_events-all_waiters ((fails, descriptor d r w b) ∷ evs) io inv h =
    let real = real_events r w b in
    let (io₁, e, hands) = handled real.reads real.writes fails d io inv h.1 in
    let same : Same evs io io₁ = λ i m.
      hands.others i (elim (Bool-cases (i == d)) as (λ _. (i == d) ≡ false) [
        | inl x ↦
            let p = (==_iff i d).0 x in
            let q : among evs d ≡ true = subst (λ k. among evs k ≡ true) p m in let z = h.0 in cc
        | inr x ↦ x
      ]) in
    let (io', e', kept, posted) =
      handle_events-all_waiters evs io₁ hands.valid (Reports-later evs io io₁ same h.2) in
    (
      io',
      ap (λ m. m >>= handle_events evs) e ∙ e',
      kept,
      posted
          ∙ ap (λ ws. io₁.posted ++ ws) (all_waiters-later evs io io₁ same)
          ∙ ap (λ ps. ps ++ all_waiters evs io.contexts) hands.posted
          ∙ append_assoc io.posted _ _,
    )
