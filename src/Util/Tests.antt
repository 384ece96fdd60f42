-- ===== src/Util/Tests.antt =====
-- A backtrace of three frames.
use collabor_ative_schedule.Base.{◌≡◌, refl, List, [], ◌∷◌, some, Str}
use collabor_ative_schedule.Util.{backtrace_to_string}

abbrev frames : List Str
frames = (97 ∷ []) ∷ (98 ∷ []) ∷ (99 ∷ []) ∷ []

last_frame : backtrace_to_string (some frames) 2 (32 ∷ []) ≡ 32 ∷ 99 ∷ 10 ∷ []
unfolding backtrace_to_string
last_frame = refl

past_the_end : backtrace_to_string (some frames) 4 (32 ∷ []) ≡ []
unfolding backtrace_to_string
past_the_end = refl
