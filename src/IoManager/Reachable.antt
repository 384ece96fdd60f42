-- ===== src/IoManager/Reachable.antt =====
-- The calls on an I/O manager and the reports of the kernel, in any order.
use collabor_ative_schedule.Base.{
  ℕ, ◌*◌, ◌/◌, ◌^◌, ◌<◌, ◌≡◌, refl, sym, ap, subst, assertion, ◌∙◌, inl, inr, Bool, true, false,
  ◌||◌, some, Outcome, ok, fault,
}
use collabor_ative_schedule.Callback.{Callback, is_set}
use collabor_ative_schedule.Fiber.{State, is_exec}
use collabor_ative_schedule.IoManager.{
  Events, IoManager, Side, read_side, write_side, new_io_manager, add_event,
}
use collabor_ative_schedule.IoManager.Removal.{del_event, cancel_event, cancel_all}
use collabor_ative_schedule.IoManager.Idle.{real_events, descriptor, handle_event}
use collabor_ative_schedule.IoManager.Invariant.{Inv}
use collabor_ative_schedule.IoManager.Growth.{new_io_manager-Inv}
use collabor_ative_schedule.IoManager.Trigger.{event_of}
use collabor_ative_schedule.IoManager.Adding.{add_event_cases}
use collabor_ative_schedule.IoManager.Cancel.{del_event_cases, cancel_event_cases}
use collabor_ative_schedule.IoManager.CancelAll.{cancel_all_cases}
use collabor_ative_schedule.IoManager.Rounds.{
  state_of, cancel_reported, handle_descriptor-eq-cancel,
}

-- The events that the flags of a report stand for are registered: with EPOLLERR or EPOLLHUP both.
abbrev pub Reported : ℕ → Events → IoManager → Type 0
Reported fd real io =
    (real.reads ≡ true → (io.contexts fd).events.reads ≡ true)
    × (real.writes ≡ true → (io.contexts fd).events.writes ≡ true)

-- A call that returns, or an entry of `epoll_wait` that `idle` handles.
pub data Step (io io' : IoManager) : Type 0 where
  adds :
      (s : Side) (fails : Bool) (fd : ℕ) (cb : Callback) (k cur : ℕ) (state : State) (b : Bool)
      → fd * 3 / 2 < 2 ^ 31
      → (is_set cb || is_exec state) ≡ true
      → add_event fails fd (event_of s) cb (some k) cur state io ≡ ok (b, io')
      → Step io io'
  dels :
      (s : Side) (fails : Bool) (fd : ℕ) (b : Bool)
      → del_event fails fd (event_of s) io ≡ ok (b, io')
      → Step io io'
  cancels :
      (s : Side) (fails : Bool) (fd : ℕ) (b : Bool)
      → cancel_event fails fd (event_of s) io ≡ ok (b, io')
      → Step io io'
  cancels_all :
      (fails : Bool) (fd : ℕ) (b : Bool) → cancel_all fails fd io ≡ ok (b, io') → Step io io'
  reports :
      (fails : Bool) (fd : ℕ) (readable writable broken : Bool)
      → Reported fd (real_events readable writable broken) io
      → handle_event fails (descriptor fd readable writable broken) io ≡ ok io'
      → Step io io'

pub data Reach : IoManager → Type 0 where
  here : Reach new_io_manager
  next : {io io' : IoManager} → Reach io → Step io io' → Reach io'

-- A call that keeps the invariant where it returns, and returns.
abbrev pub Keeps : Outcome (Bool × IoManager) → Type 0
Keeps r = (b : Bool) × (io' : IoManager) × (r ≡ ok (b, io')) × Inv io'

module _ (fails : Bool) (fd : ℕ) (io : IoManager) (inv : Inv io) where
  del_event-Keeps : (s : Side) → Keeps (del_event fails fd (event_of s) io)
  del_event-Keeps s = elim (del_event_cases s fails fd io inv) [
    | inl (_, e) ↦ (false, io, e, inv)
    | inr (io', _, e, removes) ↦ (true, io', e, removes.valid)
  ]

  cancel_event-Keeps : (s : Side) → Keeps (cancel_event fails fd (event_of s) io)
  cancel_event-Keeps s = elim (cancel_event_cases s fails fd io inv) [
    | inl (_, e) ↦ (false, io, e, inv)
    | inr (_, io', _, _, e, removes) ↦ (true, io', e, removes.valid)
  ]

  cancel_all-Keeps : Keeps (cancel_all fails fd io)
  cancel_all-Keeps = elim (cancel_all_cases fails fd io inv) [
    | inl (_, e) ↦ (false, io, e, inv)
    | inr (io', _, e, clears) ↦ (true, io', e, clears.valid)
  ]

  cancel_reported-Keeps : (real : Events) → Keeps (cancel_reported fails fd real io)
  cancel_reported-Keeps real = go real.reads real.writes
    where
      go : (a b : Bool) → Keeps (cancel_reported fails fd (record { reads = a; writes = b }) io)
      go true true = cancel_all-Keeps
      go true false = cancel_event-Keeps read_side
      go false true = cancel_event-Keeps write_side
      go false false = (false, io, refl, inv)

  pub handle_event-Keeps :
      (readable writable broken : Bool)
      → Reported fd (real_events readable writable broken) io
      → (io' : IoManager) × (handle_event fails (descriptor fd readable writable broken) io
          ≡ ok io')
        × Inv io'
  unfolding handle_event
  handle_event-Keeps readable writable broken told =
      let real = real_events readable writable broken in
      let (b, io', e, kept) = cancel_reported-Keeps real in
      (io', handle_descriptor-eq-cancel fails fd real io inv told.0 told.1 ∙ ap state_of e, kept)

returned :
    (r : Outcome (Bool × IoManager))
    → Keeps r
    → (b : Bool) (io' : IoManager) → r ≡ ok (b, io')
    → Inv io'
returned r (c, io'', e, kept) b io' h = let same : io'' ≡ io' = cc in subst Inv same kept

Step-Inv : {io io' : IoManager} → Inv io → Step io io' → Inv io'
Step-Inv {io} {io'} inv (adds s fails fd cb k cur state b l may h) =
    let r = add_event fails fd (event_of s) cb (some k) cur state io in
    elim (add_event_cases s fails fd cb k cur state io l may inv) [
      | inl (_, e) ↦ let no : fault assertion ≡ ok (b, io') = sym e ∙ h in absurd cc
      | inr (inl (_, _, e, kept)) ↦ returned r (false, _, e, kept) b io' h
      | inr (inr (io'', _, _, e, kept)) ↦ returned r (true, io'', e, kept.valid) b io' h
    ]
Step-Inv {io} {io'} inv (dels s fails fd b h) =
    returned _ (del_event-Keeps fails fd io inv s) b io' h
Step-Inv {io} {io'} inv (cancels s fails fd b h) =
    returned _ (cancel_event-Keeps fails fd io inv s) b io' h
Step-Inv {io} {io'} inv (cancels_all fails fd b h) =
    returned _ (cancel_all-Keeps fails fd io inv) b io' h
Step-Inv {io} {io'} inv (reports fails fd readable writable broken told h) =
    let (io'', e, kept) = handle_event-Keeps fails fd io inv readable writable broken told in
    let same : io'' ≡ io' = cc in subst Inv same kept

Reach-Inv : {io : IoManager} → Reach io → Inv io
Reach-Inv here = new_io_manager-Inv
Reach-Inv (next r s) = Step-Inv (Reach-Inv r) s

-- After any calls that returned and any reports of `epoll_wait` of registered events (a report with
-- EPOLLERR or EPOLLHUP counts as both, READ and WRITE), in any order, from a new I/O manager: the
-- invariant holds (the pending counter is the number of the registered events, the kernel watches
-- the masks, and an event has a waiting function or fiber exactly when it is registered), and no
-- later `delEvent`, `cancelEvent` or `cancelAll`, and no report of registered events, ends in a
-- fault, whether the kernel refuses its `epoll_ctl` or not. Each of the four returns and keeps the
-- invariant. Calls of `addEvent` are made on a thread that has a scheduler, with a function or on a
-- fiber in EXEC, and for a descriptor whose context index stays below 2^31.
pub Reach-returns :
    {io : IoManager}
    → Reach io
    → (s : Side) (fails : Bool) (fd : ℕ) (readable writable broken : Bool)
    → Reported fd (real_events readable writable broken) io
    → Inv io
      × Keeps (del_event fails fd (event_of s) io)
      × Keeps (cancel_event fails fd (event_of s) io)
      × Keeps (cancel_all fails fd io)
      × ((io' : IoManager) × (handle_event fails (descriptor fd readable writable broken) io
            ≡ ok io')
          × Inv io')
Reach-returns {io} r s fails fd readable writable broken told =
    let inv = Reach-Inv r in
    (
      inv,
      del_event-Keeps fails fd io inv s,
      cancel_event-Keeps fails fd io inv s,
      cancel_all-Keeps fails fd io inv,
      handle_event-Keeps fails fd io inv readable writable broken told,
    )
