-- ===== src/Timer.antt =====
-- hps_sf/timer.h and hps_sf/timer.cpp. A timer is an object at an address of the store `heap`; the
-- manager's set and the callers' handles share it. The time that `GetCurrentMS` reads is an
-- argument, and so is the address that `new` returns. Times are `uint64_t`.
pub mod Tests
pub mod Order
pub mod Steps
pub mod Deadlines
pub mod Handles
pub mod Waiting
pub mod Firing
pub mod Expiry
pub mod Loop
pub mod Invariant
use collabor_ative_schedule.Base.{
  ℕ, ◌-◌, ◌*◌, Bool, true, false, not, ◌&&◌, List, [], ◌∷◌, ◌++◌, Option, none, some, ltb, leb,
  ◌==◌, if◌then◌else◌, add64, sub64, max64,
}
use collabor_ative_schedule.Callback.{Callback, empty, on_timer, is_set}
use collabor_ative_schedule.OrderedSet.{insert, find, erase, begin, same_iterator}

pub record Timer : Type 0 where
  pub recurring : Bool
  pub ms : ℕ
  pub next : ℕ
  pub cb : Callback

pub record TimerManager : Type 0 where
  pub heap : ℕ → Timer
  pub timers : List ℕ
  pub tickled : Bool
  pub previous_time : ℕ

-- The constructor that takes an interval.
unfoldable pub new_timer : ℕ → Callback → Bool → ℕ → Timer
new_timer ms cb recurring now = record {
  recurring = recurring;
  ms = ms;
  next = add64 now ms;
  cb = cb;
}

-- An address that holds no timer.
abbrev pub blank : Timer
blank = record { recurring = false; ms = 0; next = 0; cb = empty }

abbrev pub store : (ℕ → Timer) → ℕ → Timer → ℕ → Timer
store h a t b = if b == a then t else h b

-- `Comparator::operator()`; a null pointer is `none`. Its second test compares the right-hand side
-- with itself.
unfoldable pub comparator : (ℕ → Timer) → Option ℕ → Option ℕ → Bool
comparator h none none = false
comparator h none (some b) = true
comparator h (some a) none = false
comparator h (some a) (some b) =
    if ltb (h a).next (h b).next then true else if ltb (h b).next (h b).next then false else ltb a b

-- The comparator on the pointers that the set holds.
abbrev pub before : (ℕ → Timer) → ℕ → ℕ → Bool
before h a b = comparator h (some a) (some b)

unfoldable pub new_manager : ℕ → TimerManager
new_manager now = record { heap = λ a. blank; timers = []; tickled = false; previous_time = now }

-- `addTimer(val, lock)`; the flag says whether `onTimerInsertedAtFront` is called.
unfoldable pub add_timer_locked : ℕ → TimerManager → Bool × TimerManager
add_timer_locked a m =
    let timers = insert (before m.heap) a m.timers in
    let it = find (before m.heap) a timers in
    let at_front = same_iterator it (begin timers) && not m.tickled in
    (at_front, record m { timers = timers; tickled = if at_front then true else m.tickled })

-- `addTimer(ms, cb, recurring)`, which returns the timer at `a`.
unfoldable pub add_timer : ℕ → ℕ → Callback → Bool → ℕ → TimerManager → Bool × TimerManager
unfolding new_timer add_timer_locked
add_timer a ms cb recurring now m =
    add_timer_locked a (record m { heap = store m.heap a (new_timer ms cb recurring now) })

unfoldable pub add_condition_timer :
    ℕ → ℕ → Callback → ℕ → Bool → ℕ → TimerManager → Bool × TimerManager
unfolding add_timer
add_condition_timer a ms cb weak_cond recurring now m =
    add_timer a ms (on_timer weak_cond cb) recurring now m

-- `cancel`. `none` is the undefined behaviour of `erase(end())`.
unfoldable pub cancel : ℕ → TimerManager → Option (Bool × TimerManager)
cancel a m =
    if is_set (m.heap a).cb
    then (let heap = store m.heap a (record (m.heap a) { cb = empty }) in
        elim (find (before heap) a m.timers) [
          | none ↦ none
          | some it ↦ some (true, record m { heap = heap; timers = erase it m.timers })
        ])
    else some (false, m)

unfoldable pub refresh : ℕ → ℕ → TimerManager → Bool × TimerManager
refresh a now m =
    if not (is_set (m.heap a).cb) then (false, m) else elim (find (before m.heap) a m.timers) [
      | none ↦ (false, m)
      | some it ↦
          let timers = erase it m.timers in
          let heap = store m.heap a (record (m.heap a) { next = add64 now (m.heap a).ms }) in
          (true, record m { heap = heap; timers = insert (before heap) a timers })
    ]

-- `reset`; the second flag says whether `onTimerInsertedAtFront` is called.
unfoldable pub reset : ℕ → ℕ → Bool → ℕ → TimerManager → Bool × Bool × TimerManager
unfolding add_timer_locked
reset a ms from_now now m =
    if ms == (m.heap a).ms && not from_now
    then (true, false, m)
    else if not (is_set (m.heap a).cb)
    then (false, false, m)
    else elim (find (before m.heap) a m.timers) [
      | none ↦ (false, false, m)
      | some it ↦
          let timers = erase it m.timers in
          let start = if from_now then now else sub64 (m.heap a).next (m.heap a).ms in
          let t = record (m.heap a) { ms = ms; next = add64 start ms } in
          let added = add_timer_locked a (record m { heap = store m.heap a t; timers = timers }) in
          (true, added.0, added.1)
    ]

-- `getNextTimer`: the wait until the first deadline, `~0ull` without a timer.
unfoldable pub get_next_timer : ℕ → TimerManager → ℕ × TimerManager
get_next_timer now m = elim m.timers [
  | [] ↦ (max64, record m { tickled = false })
  | t ∷ _ ↦
      (if leb (m.heap t).next now then 0 else (m.heap t).next - now, record m { tickled = false })
]

-- The `while` loop of `listExpiredCb`: the timers before the iterator, and those from it on.
unfoldable pub split_expired : (ℕ → Timer) → ℕ → List ℕ → List ℕ × List ℕ
split_expired h now [] = ([], [])
split_expired h now (t ∷ ts) =
    let rest = split_expired h now ts in
    if (h t).next == now then (t ∷ rest.0, rest.1) else ([], t ∷ ts)

-- The body of its `for` loop, after the callback is taken: a recurring timer goes back into the
-- set, any other loses its callback.
unfoldable pub reinsert : ℕ → ℕ → TimerManager → TimerManager
reinsert now t m =
    let heap = store m.heap t (record (m.heap t) { next = add64 now (m.heap t).ms }) in
    record m { heap = heap; timers = insert (before heap) t m.timers }

unfoldable pub retire : ℕ → TimerManager → TimerManager
retire t m = record m { heap = store m.heap t (record (m.heap t) { cb = empty }) }

unfoldable pub rearm : ℕ → ℕ → TimerManager → TimerManager
rearm now t m = if (m.heap t).recurring then reinsert now t m else retire t m

-- The `for` loop over the expired timers.
unfoldable pub fire : ℕ → List ℕ → List Callback → TimerManager → List Callback × TimerManager
unfolding rearm reinsert retire
fire now [] cbs m = (cbs, m)
fire now (t ∷ ts) cbs m = fire now ts (cbs ++ (m.heap t).cb ∷ []) (rearm now t m)

unfoldable pub list_expired_cb : ℕ → List Callback → TimerManager → List Callback × TimerManager
unfolding split_expired fire
list_expired_cb now cbs m = elim m.timers [
  | [] ↦ (cbs, m)
  | t ∷ ts ↦
      let split = split_expired m.heap now (t ∷ ts) in
      fire now split.0 cbs (record m { timers = split.1 })
]

unfoldable pub has_timer : TimerManager → Bool
has_timer m = elim m.timers [ [] ↦ false | t ∷ ts ↦ true ]

-- `detectClockRollver`: whether the clock fell by more than an hour.
unfoldable pub detect_clock_rollver : ℕ → TimerManager → Bool × TimerManager
detect_clock_rollver now m =
    let rollover = ltb now m.previous_time && ltb now (sub64 m.previous_time (60 * 60 * 1000)) in
    (rollover, record m { previous_time = now })
