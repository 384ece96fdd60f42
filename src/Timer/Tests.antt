-- ===== src/Timer/Tests.antt =====
-- Timers at concrete addresses and clock readings.
use collabor_ative_schedule.Base.{
  ℕ, ◌≡◌, ◌≢◌, refl, Bool, true, false, not, ◌&&◌, ◌||◌, [], ◌∷◌, ◌++◌, none, some, ◌==◌,
  if◌then◌else◌, arith, add64, map,
}
use collabor_ative_schedule.Callback.{fn, on_timer, call}
use collabor_ative_schedule.OrderedSet.{mem, insert, find, erase}
use collabor_ative_schedule.Timer.{
  Timer, TimerManager, blank, comparator, split_expired, new_timer, new_manager, add_timer, cancel,
  reset, list_expired_cb, detect_clock_rollver,
}
use collabor_ative_schedule.Timer.Invariant.{Inv, Fits}
use collabor_ative_schedule.Timer.Order.{Agree}
use collabor_ative_schedule.Timer.Expiry.{after, staying}
use collabor_ative_schedule.Timer.Loop.{fired}
use collabor_ative_schedule.Timer.Firing.{due, list_expired_cb_exact}
use collabor_ative_schedule.Timer.Steps.{Reach, here, next, adds, expires, Reach-safe}
use collabor_ative_schedule.Timer.Handles.{Cancels, reset_value, cancel-Cancels}

abbrev heap : ℕ → Timer
heap a =
    if a == 1
    then record { recurring = true; ms = 50; next = 100; cb = fn 7 }
    else if a == 2
    then record { recurring = false; ms = 100; next = 100; cb = fn 8 }
    else if a == 3
    then record { recurring = false; ms = 200; next = 300; cb = fn 9 }
    else blank

abbrev three : TimerManager
three = record { heap = heap; timers = 1 ∷ 2 ∷ 3 ∷ []; tickled = false; previous_time = 0 }

three-Inv : Inv three
three-Inv = record {
  sorted = ((refl, (refl, tt)), ((refl, tt), (tt, tt)));
  agree = λ a b m n l. ground (arith, m, n, l);
  armed = λ a h. ground (arith, h);
}

-- A recurring and an ordinary timer fire at 100; the third waits on.
fires_at_100 : (list_expired_cb 100 [] three).0 ≡ fn 7 ∷ fn 8 ∷ []
unfolding list_expired_cb
fires_at_100 = refl

requeued_at_100 : (list_expired_cb 100 [] three).1.timers ≡ 1 ∷ 3 ∷ []
unfolding list_expired_cb insert comparator
requeued_at_100 = refl

conditional_call : call (λ c. c == 4) (on_timer 4 (fn 7)) ≡ some (7 ∷ [])
unfolding call
conditional_call = refl

clock_falls : (detect_clock_rollver 10 (record three { previous_time = 4000000 })).0 ≡ true
unfolding detect_clock_rollver
clock_falls = refl

resets_to_60 : (reset 3 60 true 100 three).2.timers ≡ 1 ∷ 2 ∷ 3 ∷ []
unfolding reset insert find erase comparator
resets_to_60 = refl

after-Agree : Agree (after 100 three) (staying 100 three)
unfolding split_expired staying
after-Agree a b m n l = ground (arith, m, n, l)

list_expired_cb_exact_example :
    ((list_expired_cb 100 [] three).0
      ≡ [] ++ map (λ t. (heap t).cb) (due heap 100 (1 ∷ 2 ∷ 3 ∷ [])))
    × ((a : ℕ)
        → (list_expired_cb 100 [] three).1.heap a
          ≡ (if mem a (1 ∷ 2 ∷ 3 ∷ []) && (heap a).next == 100 then fired 100 (heap a) else heap a))
    × ((a : ℕ)
        → mem a (list_expired_cb 100 [] three).1.timers
          ≡ (mem a (1 ∷ 2 ∷ 3 ∷ []) && (not ((heap a).next == 100) || (heap a).recurring)))
list_expired_cb_exact_example =
    list_expired_cb_exact 100 [] three three-Inv after-Agree
      (omega arith, (omega arith, (omega arith, tt)))

-- A timer is added at 5 and the round at 20 follows.
abbrev added : TimerManager
added = (add_timer 5 10 (fn 7) true 10 (new_manager 0)).1

abbrev stepped : TimerManager
stepped = (list_expired_cb 20 [] added).1

stepped-Reach : Reach 0 stepped
unfolding new_manager add_timer insert staying
stepped-Reach =
    next (next here (adds 5 10 (fn 7) true 10 refl (λ a b m n l. ground (arith, m, n, l))))
      (expires 20 [] (λ a b m n l. ground (arith, m, n, l)))

Reach-safe_example : Inv stepped × ((a : ℕ) → cancel a stepped ≢ none)
Reach-safe_example = Reach-safe stepped-Reach

cancel-Cancels_example :
    (b : Bool) × (m' : TimerManager) × (cancel 2 three ≡ some (b, m')) × Cancels 2 three b m'
cancel-Cancels_example = cancel-Cancels 2 three three-Inv

four-Fits : Fits 4 (new_timer 300 (fn 6) false 50) three
unfolding new_timer
four-Fits a b m n l = ground (arith, m, n, l)

three-Fits : Fits 3 (record (heap 3) { next = add64 150 200 }) three
three-Fits a b m n l = ground (arith, m, n, l)

-- Earlier by 30, from where its interval started.
sooner-Fits : Fits 3 (reset_value 3 170 false 150 three) three
sooner-Fits a b m n l = ground (arith, m, n, l)
