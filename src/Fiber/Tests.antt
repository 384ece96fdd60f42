-- ===== src/Fiber/Tests.antt =====
-- Fibers on one thread, at concrete addresses.
use collabor_ative_schedule.Base.{
  ℕ, ◌≡◌, refl, ◌⊎◌, true, false, some, ◌==◌, if◌then◌else◌, arith, Outcome, ok, fault, assertion,
  ◌>>=◌,
}
use collabor_ative_schedule.Callback.{empty, fn}
use collabor_ative_schedule.Fiber.{
  init, exec, is_exec, main_func, World, swap_in, yield_to_hold, main_func_end, returned, threw,
}
use collabor_ative_schedule.Fiber.Switching.{
  OnScheduler, InFiber, Entered, ends, leave, left, swap_in-Entered, leave-OnScheduler,
}
use collabor_ative_schedule.Fiber.Lifecycle.{IdsBelow}

-- The scheduler's fiber at 0, a fiber with a function at 1.
abbrev start : World
start = record {
  fibers = λ a.
      if a == 1
      then record {
        id = 1;
        stack_size = 4096;
        state = init;
        has_stack = true;
        entry = main_func;
        cb = fn 7;
      }
      else record {
        id = 0;
        stack_size = 0;
        state = exec;
        has_stack = false;
        entry = main_func;
        cb = empty;
      };
  context = λ c. c;
  running = 0;
  this = some 0;
  thread_fiber = some 0;
  scheduler_fiber = some 0;
  fiber_id = 1;
  fiber_count = 2;
}

abbrev inside : World
inside = record start { running = 1; this = some 1 }

start-OnScheduler : OnScheduler 0 start
start-OnScheduler = record { running = refl; scheduler = refl; contexts = λ c n. refl }

inside-InFiber : InFiber 0 1 inside
inside-InFiber = record {
  running = refl;
  this = refl;
  scheduler = refl;
  apart = refl;
  contexts = λ c n. refl;
}

-- In, out to HOLD, in again, and the end.
abbrev journey : Outcome World
journey = do
  w₁ ← swap_in 1 start
  w₂ ← yield_to_hold 9 w₁
  w₃ ← swap_in 1 w₂
  main_func_end returned 1 w₃

round_trip : journey >>= (λ w. ok w.running) ≡ ok 0
unfolding swap_in yield_to_hold main_func_end
round_trip = refl

swap_in-Entered_example :
    ((is_exec (start.fibers 1).state ≡ true) × (swap_in 1 start ≡ fault assertion))
    ⊎ ((w' : World) × (swap_in 1 start ≡ ok w') × Entered 0 1 start w')
swap_in-Entered_example = swap_in-Entered 0 1 start start-OnScheduler refl

leave-OnScheduler_example :
    (w' : World) × (leave (ends threw) 1 inside ≡ ok w')
    × OnScheduler 0 w'
    × (w'.this ≡ some 0)
    × (w'.fibers 1 ≡ left (ends threw) (start.fibers 1))
    × ((c : ℕ) → (c == 1) ≡ false → w'.fibers c ≡ start.fibers c)
leave-OnScheduler_example = leave-OnScheduler (ends threw) 0 1 inside inside-InFiber

start-IdsBelow : IdsBelow start
start-IdsBelow a = ground arith
