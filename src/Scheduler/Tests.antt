-- ===== src/Scheduler/Tests.antt =====
-- A scheduler with two workers, at concrete tasks and fibers.
use collabor_ative_schedule.Base.{
  ℕ, ◌+◌, ◌≡◌, ◌≢◌, refl, true, false, List, [], ◌∷◌, none, some, ◌==◌, if◌then◌else◌, arith, ok,
  fault, assertion, ◌>>=◌,
}
use collabor_ative_schedule.Callback.{empty, fn}
use collabor_ative_schedule.Fiber.{State, init, hold, exec, term, put}
use collabor_ative_schedule.Scheduler.{
  Task, callback, Scheduler, schedule, Pick, pick, stopping, Stop, begin_stop, new_scheduler,
}
use collabor_ative_schedule.Scheduler.Worker.{
  Worker, picking, in_callback, in_fiber, Shared, dispatch,
}
use collabor_ative_schedule.Scheduler.Queue.{Picked, pick-Picked}
use collabor_ative_schedule.Scheduler.Moves.{busy, idling}
use collabor_ative_schedule.Scheduler.System.{System, schedules, dispatches, count_by, Inv}
use collabor_ative_schedule.Scheduler.Reachable.{Reach, here, next, IsFresh, Reach-counts}
use collabor_ative_schedule.Callback.{is_set}
use collabor_ative_schedule.Base.{Bool}
use collabor_ative_schedule.Scheduler.Conserving.{Conserves, Run-Conserves}
use collabor_ative_schedule.Scheduler.Fairness.{Run, goes, ends, Takes, Run-Takes}

-- A scheduler that was stopped before anything was scheduled.
abbrev quiet : Scheduler
quiet = record {
  fibers = [];
  root_fiber = none;
  threads = [];
  thread_ids = [];
  thread_count = 2;
  active = 0;
  idle = 0;
  stopping = true;
  auto_stop = true;
  root_thread = none;
}

abbrev worker : ℕ → Worker
worker tid = record { tid = tid; phase = picking; idle_fiber = 90 + tid; cb_fiber = none }

abbrev workers : List Worker
workers = worker 1 ∷ worker 2 ∷ []

quiet-IsFresh : IsFresh quiet workers
quiet-IsFresh = record {
  empty = refl;
  active = refl;
  idle = refl;
  few = omega arith;
  picking = (refl, (refl, tt));
}

-- Fiber 5 has ended, fiber 6 runs, the others wait.
abbrev states : ℕ → State
states f = if f == 5 then term else if f == 6 then exec else hold

-- For another thread, running, and free.
abbrev queue : List Task
queue =
    record { fiber = none; cb = fn 7; thread = some 2 }
    ∷ record { fiber = some 6; cb = empty; thread = none }
    ∷ record { fiber = some 4; cb = empty; thread = none }
    ∷ []

takes_the_third :
    (pick 1 states queue >>= λ p. ok p.taken)
    ≡ ok (some (record { fiber = some 4; cb = empty; thread = none }))
unfolding pick
takes_the_third = refl

needs_a_thread : new_scheduler 0 true false 1 2 ≡ fault assertion
unfolding new_scheduler
needs_a_thread = refl

pick-Picked_example : (p : Pick) × (pick 1 states queue ≡ ok p) × Picked 1 states queue p
pick-Picked_example = pick-Picked 1 states queue (refl, (refl, (refl, tt)))

abbrev first : Shared
first = record { scheduler = quiet; states = states }

abbrev scheduled : System
scheduled = record {
  shared = record first { scheduler = (schedule (callback (fn 7)) none quiet).1 };
  workers = workers;
}

scheduled-Reach : Reach quiet states workers scheduled
scheduled-Reach = next here (schedules (callback (fn 7)) none first workers)

Reach-counts_example :
    (scheduled.shared.scheduler.active ≡ count_by busy workers)
    × (scheduled.shared.scheduler.idle ≡ count_by idling workers)
    × ((tid : ℕ) → pick tid states scheduled.shared.scheduler.fibers ≢ fault assertion)
Reach-counts_example = Reach-counts quiet-IsFresh scheduled-Reach

-- The fiber that has ended is scheduled again.
abbrev ended : Task
ended = record { fiber = some 5; cb = empty; thread = none }

abbrev stale : Shared
stale = record { scheduler = record quiet { fibers = ended ∷ [] }; states = states }

abbrev taken : Pick
taken = record { taken = some ended; rest = []; tickle_me = false }

takes_ended : pick 1 states (ended ∷ []) ≡ ok taken
unfolding pick
takes_ended = refl

abbrev calling : Worker
calling = record (worker 1) { phase = in_callback 5; cb_fiber = some 5 }

abbrev started : Scheduler
started = record quiet { stopping = false; auto_stop = false; threads = 1 ∷ 2 ∷ [] }

abbrev half_stopped : Stop
half_stopped = record {
  scheduler = record started { stopping = true; auto_stop = true };
  returns = false;
  tickles = 2;
  calls_root = false;
}

stops_half : begin_stop stopping false init started ≡ ok half_stopped
unfolding begin_stop stopping
stops_half = refl

-- A function for worker 2, and fiber 4 for any.
abbrev two_tasks : List Task
two_tasks =
    record { fiber = none; cb = fn 7; thread = some 2 }
    ∷ record { fiber = some 4; cb = empty; thread = none }
    ∷ []

abbrev all_hold : ℕ → State
all_hold f = hold

abbrev at_first : Shared
at_first = record { scheduler = record quiet { fibers = two_tasks }; states = all_hold }

abbrev after_one : Shared
after_one = record {
  scheduler = record quiet {
    fibers = record { fiber = some 4; cb = empty; thread = none } ∷ [];
    active = 1;
  };
  states = put (put all_hold 50 init) 50 exec;
}

abbrev after_two : Shared
after_two = record {
  scheduler = record quiet { fibers = []; active = 2 };
  states = put (put (put all_hold 50 init) 50 exec) 4 exec;
}

one_takes :
    dispatch 50 (worker 2) at_first
    ≡ ok (false, record (worker 2) { phase = in_callback 50; cb_fiber = some 50 }, after_one)
unfolding dispatch pick
one_takes = refl

other_takes :
    dispatch 51 (worker 1) after_one
    ≡ ok (false, record (worker 1) { phase = in_fiber 4 }, after_two)
unfolding dispatch pick
other_takes = refl

abbrev both_take :
    Run
      (record { shared = at_first; workers = workers })
      (record {
        shared = after_two;
        workers =
            record (worker 1) { phase = in_fiber 4 }
            ∷ record (worker 2) { phase = in_callback 50; cb_fiber = some 50 }
            ∷ [];
      })
both_take =
    goes (dispatches 50 at_first after_one (worker 1 ∷ []) (worker 2) _ [] false refl one_takes)
      (goes (dispatches 51 after_one after_two [] (worker 1) _ _ false refl other_takes) ends)

at_first-Inv : Inv (record { shared = at_first; workers = workers })
at_first-Inv = record { work = (refl, (refl, tt)); active = refl; idle = refl; few = omega arith }

-- The tasks with a function.
abbrev is_set_cb : Task → Bool
is_set_cb t = is_set t.cb

-- Fiber 4 stands behind the function that worker 2 takes.
Run-Takes_example : Takes (record { fiber = some 4; cb = empty; thread = none }) both_take
Run-Takes_example =
    Run-Takes (record { fiber = some 4; cb = empty; thread = none }) both_take
      (record { fiber = none; cb = fn 7; thread = some 2 } ∷ []) at_first-Inv ([], refl)
      (omega arith)

Run-Conserves_example : Conserves is_set_cb both_take
Run-Conserves_example = Run-Conserves is_set_cb both_take at_first-Inv
