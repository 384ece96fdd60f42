-- ===== src/IoManager/Starving.antt =====
-- The loop of `idle` of hps_sf/iomanager.cpp while a timer's deadline has been missed.
use mathlib.Core.Option.{some-injective}
use collabor_ative_schedule.Base.{
  false, ℕ, ◌<◌, ◌≡◌, Bool, refl, sym, ap, subst, List, [], ◌∷◌, some, arith, All, if◌then◌else◌,
}
use collabor_ative_schedule.Callback.{Callback}
use collabor_ative_schedule.OrderedSet.{begin}
use collabor_ative_schedule.Scheduler.{Scheduler}
use collabor_ative_schedule.Timer.{Timer, TimerManager, get_next_timer, list_expired_cb}
use collabor_ative_schedule.IoManager.Idle.{Wait, waits, stopping, before_wait}

-- What the rounds find: the clock at the three times at which a round reads it, the scheduler and
-- the number of pending events.
pub record Readings : Type 0 where
  pub first : ℕ
  pub second : ℕ
  pub later : ℕ
  pub scheduler : Scheduler
  pub pending : ℕ

-- The timers of a round when nothing else calls them: after `stopping` and perhaps another
-- `getNextTimer`.
abbrev pub timers_at_wait : Readings → TimerManager → TimerManager
timers_at_wait r m =
    let answer = stopping r.first r.scheduler m r.pending in
    if answer.0 then (get_next_timer r.second answer.2).1 else answer.2

-- What the rounds decide on and which functions the timers hand out.
pub rounds : List Readings → TimerManager → List (Wait × List Callback)
rounds [] m = []
rounds (r ∷ rs) m =
    let answer = stopping r.first r.scheduler m r.pending in
    let w = before_wait r.first r.scheduler m r.pending r.second answer.2 in
    let expired = list_expired_cb r.later [] (timers_at_wait r m) in
    (w, expired.0) ∷ rounds rs expired.1

-- Rounds that neither wait nor hand out a function.
abbrev pub nothing_each : List Readings → List (Wait × List Callback)
nothing_each [] = []
nothing_each (r ∷ rs) = (waits 0, []) ∷ nothing_each rs

-- The clock has passed the time whenever a round reads it first and last.
abbrev pub Passed : ℕ → Readings → Type 0
Passed t r = (t < r.first) × (t < r.later)

starved_round :
    (r : Readings) (t : ℕ) (ts : List ℕ) (h : ℕ → Timer) (tickled : Bool) (previous : ℕ)
    → Passed (h t).next r
    → let m : TimerManager = record {
      heap = h;
      timers = t ∷ ts;
      tickled = tickled;
      previous_time = previous;
    } in
      (before_wait r.first r.scheduler m r.pending r.second
          (stopping r.first r.scheduler m r.pending).2
        ≡ waits 0)
      × (list_expired_cb r.later [] (timers_at_wait r m) ≡ ([], record m { tickled = false }))
unfolding before_wait stopping get_next_timer list_expired_cb
starved_round r t ts h tickled previous late = (ground (arith, late), ground (arith, late))

starved_rounds :
    (rs : List Readings) (t : ℕ) (ts : List ℕ) (h : ℕ → Timer) (tickled : Bool) (previous : ℕ)
    → All (Passed (h t).next) rs
    → rounds rs (record { heap = h; timers = t ∷ ts; tickled = tickled; previous_time = previous })
      ≡ nothing_each rs
unfolding rounds
starved_rounds [] t ts h tickled previous late = refl
starved_rounds (r ∷ rs) t ts h tickled previous late =
    let (w, e) = starved_round r t ts h tickled previous late.0 in
    rw (w, e) (ap (◌∷◌ (waits 0, [])) (starved_rounds rs t ts h false previous late.1))

-- Once the front timer's deadline has passed whenever the rounds of `idle` read the clock, and as
-- long as nothing else calls the timers, every round calls `epoll_wait` with the timeout 0 and no
-- round hands out a function, of that timer or of another, whatever the scheduler and the pending
-- events are.
pub overdue_front_starves :
    (rs : List Readings) (t : ℕ) (m : TimerManager)
    → begin m.timers ≡ some t
    → All (Passed (m.heap t).next) rs
    → rounds rs m ≡ nothing_each rs
overdue_front_starves rs t m front late = go m.timers front
  where
    go :
        (xs : List ℕ)
        → begin xs ≡ some t
        → rounds rs (record {
          heap = m.heap;
          timers = xs;
          tickled = m.tickled;
          previous_time = m.previous_time;
        })
          ≡ nothing_each rs
    go [] e = cc
    go (x ∷ xs) e =
        starved_rounds rs x xs m.heap m.tickled m.previous_time
          (subst (λ y. All (Passed (m.heap y).next) rs) (sym (some-injective x t e)) late)
