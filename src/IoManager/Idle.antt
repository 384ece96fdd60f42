-- ===== src/IoManager/Idle.antt =====
-- `idle` and `stopping` of hps_sf/iomanager.cpp: the wait, and what each event of `epoll_wait`
-- leads to.
use collabor_ative_schedule.Base.{
  ℕ, zero, suc, ◌%◌, ◌^◌, Bool, not, ◌&&◌, ◌||◌, List, [], ◌∷◌, none, some, ltb, ◌==◌,
  if◌then◌else◌, max64, Outcome, ok, ◌>>=◌,
}
use collabor_ative_schedule.Scheduler.{Scheduler}
use collabor_ative_schedule.Scheduler as S
use collabor_ative_schedule.Timer.{TimerManager, get_next_timer}
use collabor_ative_schedule.IoManager.{
  Events, read_event, write_event, meets, minus, nonzero, IoManager, ctl_mod, ctl_del, epoll_ctl,
}
use collabor_ative_schedule.IoManager.Removal.{trigger_one}

-- One entry that `epoll_wait` fills in: of the wake-up pipe, or of the context of a descriptor,
-- with the flags EPOLLIN, EPOLLOUT, and EPOLLERR or EPOLLHUP.
pub data Ready : Type 0 where
  tickle_pipe : Ready
  descriptor : ℕ → Bool → Bool → Bool → Ready

-- `real_events`.
abbrev pub real_events : Bool → Bool → Bool → Events
real_events readable writable broken = record {
  reads = readable || broken;
  writes = writable || broken;
}

-- `if (real_events & event) { triggerEvent(event); m_pendingEventCount --; }`.
unfoldable pub trigger_real : Events → ℕ → Events → IoManager → Outcome IoManager
unfolding trigger_one
trigger_real real fd event io = if meets real event then trigger_one fd event io else ok io

-- The body of the loop over the events, for a descriptor.
unfoldable pub handle_descriptor : Bool → ℕ → Events → IoManager → Outcome IoManager
unfolding trigger_real
handle_descriptor fails fd real io =
    let events = (io.contexts fd).events in
    let left = minus events real in
    let op = if nonzero left then ctl_mod else ctl_del in
    if not (meets events real)
    then ok io
    else elim (epoll_ctl fails op (io.contexts fd).fd left io) [
      | none ↦ ok io
      | some io₁ ↦ (trigger_real real fd read_event io₁ >>= trigger_real real fd write_event)
    ]

unfoldable pub handle_event : Bool → Ready → IoManager → Outcome IoManager
unfolding handle_descriptor
handle_event fails tickle_pipe io = ok io
handle_event fails (descriptor fd readable writable broken) io =
    handle_descriptor fails fd (real_events readable writable broken) io

-- The loop; each entry comes with the answer of `epoll_ctl` for it.
unfoldable pub handle_events : List (Bool × Ready) → IoManager → Outcome IoManager
unfolding handle_event
handle_events [] io = ok io
handle_events ((fails, ev) ∷ evs) io = handle_event fails ev io >>= λ io'. handle_events evs io'

-- `stopping(timeout)`: the answer, the timeout, and the timers after `getNextTimer`.
unfoldable pub stopping : ℕ → Scheduler → TimerManager → ℕ → Bool × ℕ × TimerManager
stopping now s timers pending =
    let next = get_next_timer now timers in
    (next.0 == max64 && pending == 0 && S.stopping s, next.0, next.1)

-- `(int)n`, compared with a bound below 2^31: the value that `idle` passes to `epoll_wait`.
abbrev pub clamp : ℕ → ℕ
clamp next =
    let low = next % 2 ^ 32 in
    if next == max64 then 3000 else if ltb low (2 ^ 31) && ltb 3000 low then 3000 else next

-- The inner loop: the timeouts of the calls of `epoll_wait`, of which the first `k` are interrupted
-- by a signal.
unfoldable pub polls : ℕ → ℕ → List ℕ
polls zero next = clamp next ∷ []
polls (suc k) next = clamp next ∷ polls k (clamp next)

-- What a round of `idle` does before its inner loop: end, or go into it with `next_timeout`.
pub data Wait : Type 0 where
  ends_idle : Wait
  waits : ℕ → Wait

-- `stopping()` reads the clock and the timers at one time, `getNextTimer()` after it, if it answers
-- true, at another, with the lock free in between.
unfoldable pub before_wait : ℕ → Scheduler → TimerManager → ℕ → ℕ → TimerManager → Wait
unfolding stopping
before_wait now s timers pending now' timers' =
    let next = get_next_timer now' timers' in
    if (stopping now s timers pending).0
    then if next.0 == max64 then ends_idle else waits next.0
    else waits 0

-- `tickle`: whether a byte is written to the pipe.
unfoldable pub tickle : Scheduler → Bool
tickle s = S.has_idle_threads s
