-- ===== src/Hook/Tests.antt =====
-- A fiber at 1 that sleeps for two seconds, on a thread whose I/O manager has no other timer.
use collabor_ative_schedule.Base.{
  ℕ, ◌≡◌, refl, true, false, [], none, some, ◌==◌, arith, Outcome, ok, fault, Bool,
}
use collabor_ative_schedule.Callback.{empty, fn}
use collabor_ative_schedule.OrderedSet.{insert, find}
use collabor_ative_schedule.Timer.{TimerManager, new_manager, add_timer, comparator}
use collabor_ative_schedule.Timer.Invariant.{Inv, new_manager-Inv, add_timer-Inv}
use collabor_ative_schedule.Timer.Order.{Agree}
use collabor_ative_schedule.Timer.Expiry.{after, staying}
use collabor_ative_schedule.Fiber.{
  exec, hold, main_func, World, get_this, yield_to_hold, swap_out, swap_context,
}
use collabor_ative_schedule.Fiber.Switching.{InFiber, to_hold, left}
use collabor_ative_schedule.Hook.{
  Originals, Manager, Thread, Fresh, Effect, held, called, hold_for, no_originals, hook_init, sleep,
  sleep_ms,
}
use collabor_ative_schedule.Hook.Sleeping.{seconds}
use collabor_ative_schedule.Hook.Waking.{Kept, Resumes, sleep-Resumes}
use collabor_ative_schedule.Hook.Delays.{Waits, sleep_call-Waits}

-- The scheduler's fiber at 0.
abbrev world : World
world = record {
  fibers = λ a. record {
    id = a;
    stack_size = 4096;
    state = exec;
    has_stack = true;
    entry = main_func;
    cb = empty;
  };
  context = λ c. c;
  running = 1;
  this = some 1;
  thread_fiber = some 0;
  scheduler_fiber = some 0;
  fiber_id = 1;
  fiber_count = 2;
}

abbrev manager : Manager
manager = record {
  scheduler = record {
    fibers = [];
    root_fiber = none;
    threads = [];
    thread_ids = [];
    thread_count = 1;
    active = 1;
    idle = 0;
    stopping = false;
    auto_stop = false;
    root_thread = none;
  };
  timers = new_manager 0;
}

abbrev thread : Thread
thread = record { enabled = true; world = world; manager = some manager; closures = λ k. none }

abbrev new : Fresh
new = record { fiber = 9; timer = 4; closure = 3; now = 100 }

abbrev originals : Originals ℕ
originals = hook_init (λ name. some (λ n. n)) no_originals

world-InFiber : InFiber 0 1 world
world-InFiber = record {
  running = refl;
  this = refl;
  scheduler = refl;
  apart = refl;
  contexts = λ c n. refl;
}

-- Without hooks the original is called.
original_called :
    sleep originals new 5 (record thread { enabled = false })
    ≡ ok (called 5, record thread { enabled = false })
unfolding sleep hook_init
original_called = refl

a_day_of_50 : sleep_ms 4294968 ≡ 704
unfolding sleep_ms
a_day_of_50 = refl

abbrev timers : TimerManager
timers = (add_timer 4 (sleep_ms 2) (fn 3) false 100 manager.timers).1

timers-Inv : Inv timers
unfolding new_manager sleep_ms
timers-Inv =
    add_timer-Inv 4 (sleep_ms 2) (fn 3) false 100 manager.timers refl
      (λ a b m n l. ground (arith, m, n, l)) (new_manager-Inv 0)

-- Meanwhile another fiber has gone to sleep for three seconds.
abbrev later_timers : TimerManager
later_timers = (add_timer 6 3000 (fn 8) false 100 timers).1

later-Inv : Inv later_timers
unfolding new_manager add_timer insert sleep_ms
later-Inv =
    add_timer-Inv 6 3000 (fn 8) false 100 timers refl (λ a b m n l. ground (arith, m, n, l))
      timers-Inv

later-Agree : Agree (after 2100 later_timers) (staying 2100 later_timers)
unfolding new_manager add_timer insert staying sleep_ms
later-Agree a b m n l = ground (arith, m, n, l)

abbrev later_manager : Manager
later_manager = record manager { timers = later_timers }

abbrev later : Thread
later = record {
  enabled = true;
  world = record world {
    fibers = λ a. record (world.fibers a) { state = hold };
    running = 0;
    this = some 0;
  };
  manager = some later_manager;
  closures = λ k. some 1;
}

later-Kept : Kept 0 1 new 2100 later_manager later
unfolding new_manager add_timer insert sleep_ms comparator
later-Kept = record {
  managed = refl;
  there = refl;
  deadline = refl;
  callback = refl;
  remembered = refl;
  given_back = record { running = refl; scheduler = refl; contexts = λ c n. refl };
  resting = refl;
}

sleep-Resumes_example :
    (front : Bool) × (th' : Thread) × (sleep originals new 2 thread ≡ ok (held front, th'))
    × (th'.world.fibers 1 ≡ left to_hold (world.fibers 1))
    × ((c : ℕ) → (c == 1) ≡ false → th'.world.fibers c ≡ world.fibers c)
    × Kept 0 1 new 2100 (record manager { timers = timers }) th'
    × Resumes 0 1 new 2100 later_manager later
unfolding new_manager add_timer insert staying sleep_ms comparator
sleep-Resumes_example =
    sleep-Resumes seconds originals 0 1 new 2 manager later_manager thread later refl refl
      world-InFiber (new_manager-Inv 0) refl (λ a b m n l. ground (arith, m, n, l)) later-Kept
      later-Inv later-Agree (omega arith, (omega arith, tt))

abbrev thread_of : Outcome (Effect ℕ × Thread) → Thread
thread_of (ok r) = r.1
thread_of (fault f) = thread

-- Some fifty days.
abbrev slept : Thread
slept = thread_of (sleep originals new 4294968 thread)

sleeps : sleep originals new 4294968 thread ≡ ok (held true, slept)
unfolding sleep hold_for get_this yield_to_hold swap_out swap_context new_manager add_timer insert
    find comparator
sleeps = refl

sleep_call-Waits_example :
    (iom : Manager) × (slept.manager ≡ some iom) × Waits seconds 4294968 (iom.timers.heap 4).ms
sleep_call-Waits_example =
    sleep_call-Waits seconds originals new 4294968 thread slept true (omega arith) refl sleeps
