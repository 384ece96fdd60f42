-- ===== src/Scheduler.antt =====
-- hps_sf/scheduler.h and hps_sf/scheduler.cpp. The scheduler's members are a record; what a worker
-- does between two switches is a function on it. Thread ids are numbers, `none` is -1. The atomic
-- counters are `size_t`.
pub mod Tests
pub mod Worker
pub mod Queue
pub mod Fairness
pub mod Conserving
pub mod Moves
pub mod System
pub mod Reachable
pub mod Control
pub mod Running
use collabor_ative_schedule.Base.{
  ℕ, ◌+◌, ◌-◌, Bool, true, false, not, ◌&&◌, ◌||◌, List, [], ◌∷◌, ◌++◌, Option, none, some, ◌==◌,
  if◌then◌else◌, add64, sub64, Outcome, ok, fault, assertion, ◌>>=◌, ◌>>◌, require,
}
use collabor_ative_schedule.Callback.{Callback, empty, is_set}
use collabor_ative_schedule.Fiber.{
  State, init, hold, exec, term, ready, except, is_exec, is_term, is_ready, is_except, is_init, put,
}

-- `hps_FiberAndThread`.
pub record Task : Type 0 where
  pub fiber : Option ℕ
  pub cb : Callback
  pub thread : Option ℕ

-- What `schedule` is given: a fiber's pointer, perhaps null, or a function.
pub data Work : Type 0 where
  fiber : Option ℕ → Work
  callback : Callback → Work

unfoldable pub task : Work → Option ℕ → Task
task (fiber f) thread = record { fiber = f; cb = empty; thread = thread }
task (callback cb) thread = record { fiber = none; cb = cb; thread = thread }

abbrev pub is_some {ℓ} : {A : Type ℓ} → Option A → Bool
is_some none = false
is_some (some a) = true

abbrev pub has_work : Task → Bool
has_work t = is_some t.fiber || is_set t.cb

abbrev pub is_empty {ℓ} : {A : Type ℓ} → List A → Bool
is_empty [] = true
is_empty (x ∷ xs) = false

pub record Scheduler : Type 0 where
  pub fibers : List Task
  pub root_fiber : Option ℕ
  pub threads : List ℕ
  pub thread_ids : List ℕ
  pub thread_count : ℕ
  pub active : ℕ
  pub idle : ℕ
  pub stopping : Bool
  pub auto_stop : Bool
  pub root_thread : Option ℕ

-- `scheduleNoLock`; the flag asks for a tickle.
unfoldable pub schedule_no_lock : Work → Option ℕ → Scheduler → Bool × Scheduler
unfolding task
schedule_no_lock fc thread s =
    let need_tickle = is_empty s.fibers in
    let ft = task fc thread in
    (need_tickle, if has_work ft then record s { fibers = s.fibers ++ ft ∷ [] } else s)

-- `schedule(fc, thread)`; the flag says whether `tickle` is called.
unfoldable pub schedule : Work → Option ℕ → Scheduler → Bool × Scheduler
unfolding schedule_no_lock
schedule fc thread s = schedule_no_lock fc thread s

-- `schedule(begin, end)` over a range of functions, with its loop.
unfoldable pub schedule_loop : List Callback → Bool → Scheduler → Bool × Scheduler
schedule_loop [] need_tickle s = (need_tickle, s)
schedule_loop (cb ∷ cbs) need_tickle s =
    let r = schedule_no_lock (callback cb) none s in schedule_loop cbs (r.0 || need_tickle) r.1

unfoldable pub schedule_range : List Callback → Scheduler → Bool × Scheduler
unfolding schedule_loop schedule_no_lock
schedule_range cbs s = schedule_loop cbs false s

-- What the search of the queue ends with: the task taken, the queue without it, and `tickle_me`.
pub record Pick : Type 0 where
  pub taken : Option Task
  pub rest : List Task
  pub tickle_me : Bool

-- `it -> thread != -1 && it -> thread != GetThreadId()`.
abbrev pub is_elsewhere : ℕ → Task → Bool
is_elsewhere tid t = elim t.thread [ none ↦ false | some th ↦ not (th == tid) ]

-- `it -> fiber && it -> fiber -> getState() == EXEC`.
abbrev pub is_executing : (ℕ → State) → Task → Bool
is_executing states t = elim t.fiber [ none ↦ false | some f ↦ is_exec (states f) ]

abbrev pub skip : Task → Bool → Pick → Pick
skip t tickle p = record p { rest = t ∷ p.rest; tickle_me = tickle || p.tickle_me }

-- The inner loop of `run`, under the lock.
unfoldable pub pick : ℕ → (ℕ → State) → List Task → Outcome Pick
pick tid states [] = ok (record { taken = none; rest = []; tickle_me = false })
pick tid states (t ∷ ts) =
    let later = pick tid states ts in
    if is_elsewhere tid t
    then (later >>= λ p. ok (skip t true p))
    else require (has_work t)
      >> (if is_executing states t
          then (later >>= λ p. ok (skip t false p))
          else ok (record { taken = some t; rest = ts; tickle_me = false }))

-- `stopping`.
unfoldable pub stopping : Scheduler → Bool
stopping s = s.auto_stop && s.stopping && is_empty s.fibers && s.active == 0

unfoldable pub has_idle_threads : Scheduler → Bool
has_idle_threads s = not (s.idle == 0)

-- The constructor. `this` says whether the thread has a scheduler, `tid` is the thread's id, and
-- `root` the address of the root fiber.
unfoldable pub new_scheduler : ℕ → Bool → Bool → ℕ → ℕ → Outcome Scheduler
new_scheduler threads use_caller this tid root = do
  require (not (threads == 0))
  let s : Scheduler = record {
    fibers = [];
    root_fiber = none;
    threads = [];
    thread_ids = [];
    thread_count = threads;
    active = 0;
    idle = 0;
    stopping = true;
    auto_stop = false;
    root_thread = none;
  }
  let with_root = record s {
    root_fiber = some root;
    root_thread = some tid;
    thread_ids = tid ∷ [];
    thread_count = threads - 1;
  }
  if use_caller then (require (not this) >> ok with_root) else ok s

-- The destructor's assertion.
unfoldable pub destroy : Scheduler → Outcome (Unit {0})
destroy s = require s.stopping

-- `start`; `ids` are the ids of the threads that it creates.
unfoldable pub start : List ℕ → Scheduler → Outcome Scheduler
start ids s =
    if not s.stopping
    then ok s
    else require (is_empty s.threads)
      >> ok (record s { stopping = false; threads = ids; thread_ids = s.thread_ids ++ ids })

-- How far `stop` comes before the root fiber runs: whether it returns at once, how often it calls
-- `tickle`, and whether it calls the root fiber, which is then a worker like the others.
pub record Stop : Type 0 where
  pub scheduler : Scheduler
  pub returns : Bool
  pub tickles : ℕ
  pub calls_root : Bool

-- `stop` up to the call of the root fiber. `this` says whether the thread's scheduler is this one,
-- `root` is the root fiber's state, and `is_stopping` the virtual `stopping`.
unfoldable pub begin_stop : (Scheduler → Bool) → Bool → State → Scheduler → Outcome Stop
begin_stop is_stopping this root s =
    let s₁ = record s { auto_stop = true } in
    let quiet = is_some s.root_fiber && s.thread_count == 0 && (is_term root || is_init root) in
    let s₂ = if quiet then record s₁ { stopping = true } else s₁ in
    let s₃ = record s₂ { stopping = true } in
    if quiet && is_stopping s₂
    then ok (record { scheduler = s₂; returns = true; tickles = 0; calls_root = false })
    else require (if is_some s.root_thread then this else not this)
      >> ok (record {
        scheduler = s₃;
        returns = false;
        tickles = if is_some s.root_fiber then s.thread_count + 1 else s.thread_count;
        calls_root = is_some s.root_fiber && not (is_stopping s₃);
      })

-- `stop` after that: the threads that it takes out of the scheduler, to join them.
unfoldable pub swap_threads : Scheduler → List ℕ × Scheduler
swap_threads s = (s.threads, record s { threads = [] })
