-- ===== src/Util.antt =====
-- hps_sf/util.cpp. What gettimeofday, gettid, backtrace and backtrace_symbols answer are arguments.
pub mod Tests
pub mod Clock
pub mod Traces
use collabor_ative_schedule.Base.{
  ℕ, zero, suc, ◌+◌, ◌*◌, ◌/◌, ◌%◌, ◌^◌, List, [], ◌∷◌, ◌++◌, Option, none, some, Str, length,
  get_elem?, ◌-◌,
}

-- `GetFiberId`, which cuts the id of the fiber to 32 bits.
unfoldable pub short_fiber_id : ℕ → ℕ
short_fiber_id id = id % 2 ^ 32

-- `GetCurrentMS` and `GetCurrentUS`, from tv_sec and tv_usec, in uint64_t.
unfoldable pub get_current_ms : ℕ → ℕ → ℕ
get_current_ms sec usec = (sec * 1000 + usec / 1000) % 2 ^ 64

unfoldable pub get_current_us : ℕ → ℕ → ℕ
get_current_us sec usec = (sec * 1000 * 1000 + usec) % 2 ^ 64

-- The loop of `Backtrace`, for `n` more of the strings, from `i` on.
unfoldable pub push_each : ℕ → ℕ → List Str → List Str → List Str
push_each zero i strings bt = bt
push_each (suc n) i strings bt = elim (get_elem? strings i) [
  | none ↦ bt
  | some s ↦ push_each n (i + 1) strings (bt ++ s ∷ [])
]

-- `Backtrace`; `none` is a failure of backtrace_symbols. `skip` is what the int is as a size_t.
unfoldable pub backtrace : Option (List Str) → ℕ → List Str → List Str
unfolding push_each
backtrace none skip bt = bt
backtrace (some strings) skip bt = push_each (length strings - skip) skip strings bt

-- The loop of `BacktraceToString`.
unfoldable pub write_each : Str → List Str → Str → Str
write_each prefix [] ss = ss
write_each prefix (s ∷ bt) ss = write_each prefix bt (ss ++ (prefix ++ s ++ 10 ∷ []))

-- `BacktraceToString`.
unfoldable pub backtrace_to_string : Option (List Str) → ℕ → Str → Str
unfolding backtrace write_each
backtrace_to_string strings skip prefix = write_each prefix (backtrace strings skip []) []
