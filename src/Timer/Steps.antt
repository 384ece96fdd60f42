-- ===== src/Timer/Steps.antt =====
-- The calls that a program can make on a manager, in any order, and what holds after any of them.
use collabor_ative_schedule.Base.{
  ℕ, ◌≡◌, refl, Bool, false, List, none, some, ◌≢◌, subst, [], ◌∷◌, add64,
}
use collabor_ative_schedule.OrderedSet.{mem}
use collabor_ative_schedule.Timer.Order.{Agree}
use collabor_ative_schedule.Timer.Invariant.{Inv, Fits, new_manager-Inv, add_timer-Inv, refresh-Inv}
use collabor_ative_schedule.Timer.Handles.{cancel-Cancels, reset_value, reset-Inv}
use collabor_ative_schedule.Timer.Expiry.{after, staying, list_expired_cb-Inv}
use collabor_ative_schedule.Callback.{Callback, on_timer}
use collabor_ative_schedule.Timer.{
  Timer, TimerManager, new_timer, new_manager, add_timer, add_condition_timer, cancel, refresh,
  reset, get_next_timer, list_expired_cb, detect_clock_rollver,
}

-- One call after which the deadlines agree with the addresses. The allocator returns an address
-- that no timer of the set has, since those live.
pub data Step (m : TimerManager) : TimerManager → Type 0 where
  adds :
      (a ms : ℕ) (cb : Callback) (recurring : Bool) (now : ℕ)
      → mem a m.timers ≡ false
      → Fits a (new_timer ms cb recurring now) m
      → Step m (add_timer a ms cb recurring now m).1
  adds_condition :
      (a ms : ℕ) (cb : Callback) (weak_cond : ℕ) (recurring : Bool) (now : ℕ)
      → mem a m.timers ≡ false
      → Fits a (new_timer ms (on_timer weak_cond cb) recurring now) m
      → Step m (add_condition_timer a ms cb weak_cond recurring now m).1
  cancels : (a : ℕ) {b : Bool} {m' : TimerManager} → cancel a m ≡ some (b, m') → Step m m'
  refreshes :
      (a now : ℕ)
      → Fits a (record (m.heap a) { next = add64 now (m.heap a).ms }) m
      → Step m (refresh a now m).1
  resets :
      (a ms : ℕ) (from_now : Bool) (now : ℕ)
      → Fits a (reset_value a ms from_now now m) m
      → Step m (reset a ms from_now now m).2
  waits : (now : ℕ) → Step m (get_next_timer now m).1
  expires :
      (now : ℕ) (cbs : List Callback)
      → Agree (after now m) (staying now m)
      → Step m (list_expired_cb now cbs m).1
  checks_clock : (now : ℕ) → Step m (detect_clock_rollver now m).1

-- The managers that calls lead to from a new one.
pub data Reach (now : ℕ) : TimerManager → Type 0 where
  here : Reach now (new_manager now)
  next : {m m' : TimerManager} → Reach now m → Step m m' → Reach now m'

pub waits_lem :
    (now : ℕ) (m : TimerManager) → (get_next_timer now m).1 ≡ record m { tickled = false }
unfolding get_next_timer
waits_lem now m = go m.heap m.timers m.tickled m.previous_time
  where
    go :
        (h : ℕ → Timer) (xs : List ℕ) (tickled : Bool) (previous : ℕ)
        → let m : TimerManager = record {
          heap = h;
          timers = xs;
          tickled = tickled;
          previous_time = previous;
        } in
          (get_next_timer now m).1 ≡ record m { tickled = false }
    go h [] tickled previous = refl
    go h (t ∷ ts) tickled previous = refl

waits-Inv : (now : ℕ) (m : TimerManager) → Inv m → Inv (get_next_timer now m).1
waits-Inv now m inv =
    rw (waits_lem now m) (record { sorted = inv.sorted; agree = inv.agree; armed = inv.armed })

adds_condition-Inv :
    (a ms : ℕ) (cb : Callback) (weak_cond : ℕ) (recurring : Bool) (now : ℕ) (m : TimerManager)
    → mem a m.timers ≡ false
    → Fits a (new_timer ms (on_timer weak_cond cb) recurring now) m
    → Inv m
    → Inv (add_condition_timer a ms cb weak_cond recurring now m).1
unfolding add_condition_timer
adds_condition-Inv a ms cb weak_cond recurring now m fresh fits inv =
    add_timer-Inv a ms (on_timer weak_cond cb) recurring now m fresh fits inv

cancels-Inv : (a : ℕ) (b : Bool) (m m' : TimerManager) → Inv m → cancel a m ≡ some (b, m') → Inv m'
cancels-Inv a b m m' inv e =
    let (_, n, f, c) = cancel-Cancels a m inv in let same : n ≡ m' = cc in subst Inv same c.valid

cancel_safe : (a : ℕ) (m : TimerManager) → Inv m → cancel a m ≢ none
cancel_safe a m inv e = let (_, _, f, _) = cancel-Cancels a m inv in cc

checks_clock-Inv : (now : ℕ) (m : TimerManager) → Inv m → Inv (detect_clock_rollver now m).1
unfolding detect_clock_rollver
checks_clock-Inv now m inv = record { sorted = inv.sorted; agree = inv.agree; armed = inv.armed }

Step-Inv : {m m' : TimerManager} → Inv m → Step m m' → Inv m'
Step-Inv inv (adds a ms cb recurring now fresh fits) =
    add_timer-Inv a ms cb recurring now _ fresh fits inv
Step-Inv inv (adds_condition a ms cb weak recurring now fresh fits) =
    adds_condition-Inv a ms cb weak recurring now _ fresh fits inv
Step-Inv {m} {m'} inv (cancels a {b = b} e) = cancels-Inv a b m m' inv e
Step-Inv inv (refreshes a now fits) = refresh-Inv a now _ fits inv
Step-Inv inv (resets a ms from_now now fits) = reset-Inv a ms from_now now _ fits inv
Step-Inv inv (waits now) = waits-Inv now _ inv
Step-Inv inv (expires now cbs agree) = list_expired_cb-Inv now cbs _ agree inv
Step-Inv inv (checks_clock now) = checks_clock-Inv now _ inv

Reach-Inv : {now : ℕ} {m : TimerManager} → Reach now m → Inv m
Reach-Inv here = new_manager-Inv _
Reach-Inv (next r step) = Step-Inv (Reach-Inv r) step

-- After any calls on a new manager, in any order and at any clock readings, as long as each leaves
-- deadlines that agree with the addresses, the set is in order, every timer that has its callback
-- stands in it, and no handle's `cancel` erases `end()`.
pub Reach-safe : {now : ℕ} {m : TimerManager} → Reach now m → Inv m × ((a : ℕ) → cancel a m ≢ none)
Reach-safe r = (Reach-Inv r, λ a. cancel_safe a _ (Reach-Inv r))
