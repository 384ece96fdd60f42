-- ===== src/IoManager/Round.antt =====
-- A whole round of `idle` of hps_sf/iomanager.cpp: the timers, the wait and the reports together.
use collabor_ative_schedule.Base.{
  ℕ, ◌≤◌, ◌≡◌, refl, ap, ◌∙◌, Bool, List, [], ◌++◌, map, Option, some, none, Outcome, ok, ◌>>=◌,
  All,
}
use collabor_ative_schedule.Callback.{Callback}
use collabor_ative_schedule.Scheduler.{Scheduler, callback}
use collabor_ative_schedule.Timer.{TimerManager, list_expired_cb}
use collabor_ative_schedule.Timer.Order.{Agree}
use collabor_ative_schedule.Timer.Invariant as TimerInvariant
use collabor_ative_schedule.Timer.Expiry.{after, staying}
use collabor_ative_schedule.Timer.Firing.{due, list_expired_cb_exact}
use collabor_ative_schedule.IoManager.{IoManager}
use collabor_ative_schedule.IoManager.Idle.{
  Ready, before_wait, ends_idle, waits, Wait, handle_events,
}
use collabor_ative_schedule.IoManager.Invariant.{Inv}
use collabor_ative_schedule.IoManager.Handling.{
  Reports, all_waiters, handle_events-all_waiters, Reports-later,
}

-- `schedule(cbs.begin(), cbs.end())`, on the I/O manager itself, which has the number `me`.
abbrev pub schedule_all : ℕ → List Callback → IoManager → IoManager
schedule_all me cbs io = record io { posted = io.posted ++ map (λ cb. (me, callback cb)) cbs }

-- A round after its decision: `epoll_wait` has reported `evs`, at the time `later`, with the timers
-- as they are then. `none` ends the loop, and otherwise the fiber gives the thread back.
unfoldable pub after_wait :
    Wait
    → ℕ
    → ℕ
    → List (Bool × Ready)
    → TimerManager
    → IoManager
    → Option (Outcome (TimerManager × IoManager))
unfolding handle_events
after_wait ends_idle later me evs timers io = none
after_wait (waits next) later me evs timers io =
    let expired = list_expired_cb later [] timers in
    some (handle_events evs (schedule_all me expired.0 io) >>= λ io'. ok (expired.1, io'))

-- A whole round. The timers are shared and the lock is free between the three times at which the
-- round reads them: `first` and `second` before the wait, `timers` after it.
unfoldable pub idle_round :
    ℕ
    → Scheduler
    → TimerManager
    → ℕ
    → ℕ
    → TimerManager
    → ℕ
    → ℕ
    → List (Bool × Ready)
    → TimerManager
    → IoManager
    → Option (Outcome (TimerManager × IoManager))
unfolding before_wait after_wait
idle_round now s first pending now' second later me evs timers io =
    after_wait (before_wait now s first pending now' second) later me evs timers io

-- What the timers hand to a round, at the time `later`.
abbrev pub due_callbacks : ℕ → TimerManager → List Callback
due_callbacks later m = map (λ t. (m.heap t).cb) (due m.heap later m.timers)

schedule_all-Inv :
    (me : ℕ) (cbs : List Callback) (io : IoManager) → Inv io → Inv (schedule_all me cbs io)
schedule_all-Inv me cbs io inv = record {
  sides = inv.sides;
  kernel = inv.kernel;
  named = inv.named;
  counted = inv.counted;
  beyond = inv.beyond;
  grown = inv.grown;
  small = inv.small;
}

-- After a wait, with both invariants, when no timer is overdue at the reading of the clock, the
-- deadlines that a fired timer gets agree with the addresses, and the kernel reports each
-- descriptor at most once and only events that are registered, which a hang-up on a descriptor with
-- one event is not: the round comes to its end without a fault, whatever `epoll_ctl` answers. It
-- has handed on, in this order, the functions of the timers that are due, to the I/O manager
-- itself, and then, report by report, the functions or fibers that wait for the reported events,
-- each to its scheduler, but for reports where the kernel refuses the change; and the invariant
-- holds.
pub idle_round-all_waiters :
    (now : ℕ) (s : Scheduler) (first : TimerManager) (pending now' : ℕ) (second : TimerManager)
    (next later me : ℕ) (evs : List (Bool × Ready)) (timers : TimerManager) (io : IoManager)
    → before_wait now s first pending now' second ≡ waits next
    → Inv io
    → TimerInvariant.Inv timers
    → Agree (after later timers) (staying later timers)
    → All (λ t. later ≤ (timers.heap t).next) timers.timers
    → Reports evs io
    → (timers' : TimerManager) × (io' : IoManager) × (idle_round now s first pending now' second
          later me evs timers io
        ≡ some (ok (timers', io')))
      × Inv io'
      × (io'.posted
          ≡ (io.posted ++ map (λ cb. (me, callback cb)) (due_callbacks later timers))
            ++ all_waiters evs io.contexts)
unfolding idle_round after_wait
idle_round-all_waiters now s first pending now' second next later me evs timers io w inv tinv agree
      ahead told =
    let expired = list_expired_cb later [] timers in
    let start = schedule_all me expired.0 io in
    let (io', e, kept, posted) =
      handle_events-all_waiters evs start (schedule_all-Inv me expired.0 io inv)
        (Reports-later evs io start (λ i m. refl) told) in
    let fired = (list_expired_cb_exact later [] timers tinv agree ahead).0 in
    (
      expired.1,
      io',
      ap (λ x. after_wait x later me evs timers io) w
          ∙ ap (λ m. some (m >>= λ x. ok (expired.1, x))) e,
      kept,
      posted
          ∙ ap
              (λ cbs.
                (io.posted ++ map (λ cb. (me, callback cb)) cbs) ++ all_waiters evs io.contexts)
              fired,
    )
