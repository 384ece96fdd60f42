-- ===== src/Callback.antt =====
-- `std::function<void()>` as hps_sf uses it: functions of the program, named by a number, and the
-- static `OnTimer` of hps_sf/timer.cpp.
use collabor_ative_schedule.Base.{
  ℕ, Bool, true, false, List, [], ◌∷◌, Option, none, some, if◌then◌else◌,
}

-- A `std::function<void()>`: the empty one, one of the program's, or `OnTimer` bound to a weak
-- pointer's target and a function.
pub data Callback : Type 0 where
  empty : Callback
  fn : ℕ → Callback
  on_timer : ℕ → Callback → Callback

abbrev pub is_set : Callback → Bool
is_set empty = false
is_set (fn f) = true
is_set (on_timer c cb) = true

-- What a call does: the functions of the program that run, or `none` for `std::bad_function_call`.
-- `alive c` says whether the weak pointer's target still lives.
unfoldable pub call : (ℕ → Bool) → Callback → Option (List ℕ)
call alive empty = none
call alive (fn f) = some (f ∷ [])
call alive (on_timer c cb) = let run = call alive cb in if alive c then run else some []
