-- ===== src/Util/Clock.antt =====
-- The two clocks of hps_sf/util.cpp.
use collabor_ative_schedule.Base.{ℕ, ◌≡◌, ◌+◌, ◌*◌, ◌/◌, ◌^◌, ◌<◌, arith}
use collabor_ative_schedule.Util.{get_current_ms, get_current_us}

-- While the time in microseconds is below 2^64, GetCurrentUS is that time, from the two numbers of
-- gettimeofday, of which the second is below a million, and GetCurrentMS is the same time in whole
-- milliseconds.
pub get_current_ms-get_current_us :
    (sec usec : ℕ)
    → usec < 1000000
    → sec * 1000000 + usec < 2 ^ 64
    → (get_current_us sec usec ≡ sec * 1000000 + usec)
      × (get_current_ms sec usec ≡ get_current_us sec usec / 1000)
unfolding get_current_ms get_current_us
get_current_ms-get_current_us sec usec u b = (omega (arith, u, b), omega (arith, u, b))
