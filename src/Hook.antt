-- ===== src/Hook.antt =====
-- hps_sf/hook.cpp, as one thread sees it: `sleep` and `usleep` that give the thread back to the
-- scheduler until a timer of the thread's I/O manager fires. The functions that `dlsym` finds are
-- parameters. The lambda that the timer gets is a function of the program; `closures` says of which
-- fiber each holds the pointer. `unsigned int` and `useconds_t` have 32 bits.

pub mod Tests
pub mod Delays
pub mod Sleeping
pub mod Waking
use collabor_ative_schedule.Base.{
  ℕ, ◌*◌, ◌/◌, ◌%◌, ◌^◌, Bool, true, false, Option, none, some, if◌then◌else◌, Outcome, ok, fault,
  null_pointer, ◌>>=◌,
}
use collabor_ative_schedule.Callback.{fn}
use collabor_ative_schedule.Timer.{TimerManager, add_timer}
use collabor_ative_schedule.Fiber.{World, put, get_this, yield_to_hold}
use collabor_ative_schedule.Scheduler.{Scheduler, fiber, schedule}

-- The functions behind `sleep_f` and `usleep_f`; `none` is the null pointer.
pub record Originals (R : Type 0) : Type 0 where
  pub is_inited : Bool
  pub sleep_f : Option (ℕ → R)
  pub usleep_f : Option (ℕ → R)

pub data Name : Type 0 where
  sleep_name usleep_name : Name

-- Before `hook_init`.
abbrev pub no_originals : {R : Type 0} → Originals R
no_originals = record { is_inited = false; sleep_f = none; usleep_f = none }

-- `hook_init`; `is_inited` is never set.
unfoldable pub hook_init : {R : Type 0} → (Name → Option (ℕ → R)) → Originals R → Originals R
hook_init dlsym o =
    if o.is_inited then o else record o { sleep_f = dlsym sleep_name; usleep_f = dlsym usleep_name }

-- The thread's I/O manager: a scheduler and a timer manager.
pub record Manager : Type 0 where
  pub scheduler : Scheduler
  pub timers : TimerManager

pub record Thread : Type 0 where
  pub enabled : Bool  -- t_hook_enable
  pub world : World
  pub manager : Option Manager  -- hps_IOManager::GetThis()
  pub closures : ℕ → Option ℕ

unfoldable pub is_hook_enable : Thread → Bool
is_hook_enable th = th.enabled

unfoldable pub set_hook_enable : Bool → Thread → Thread
set_hook_enable flag th = record th { enabled = flag }

-- What a call comes to: the result of the original, or a fiber that has given the thread back, and
-- for which the call returns 0 when it goes on. The flag says whether `onTimerInsertedAtFront` was
-- called.
pub data Effect (R : Type 0) : Type 0 where
  called : R → Effect R
  held : Bool → Effect R

-- What `new` returns, and the clock.
pub record Fresh : Type 0 where
  pub fiber : ℕ
  pub timer : ℕ
  pub closure : ℕ
  pub now : ℕ

abbrev pub deref {ℓ} : {A : Type ℓ} → Option A → Outcome A
deref none = fault null_pointer
deref (some a) = ok a

abbrev pub call_original : {R : Type 0} → Option (ℕ → R) → ℕ → Thread → Outcome (Effect R × Thread)
call_original f n th = do g ← deref f; ok (called (g n), th)

-- The common part of `sleep` and `usleep`: the current fiber waits for a timer of `ms`.
unfoldable pub hold_for : {R : Type 0} → Fresh → ℕ → Thread → Outcome (Effect R × Thread)
hold_for new ms th = do
  let (cur, w) = get_this new.fiber th.world
  iom ← deref th.manager
  let (front, timers) = add_timer new.timer ms (fn new.closure) false new.now iom.timers
  w' ← yield_to_hold new.fiber w
  ok (
    held front,
    record th {
      world = w';
      manager = some (record iom { timers = timers });
      closures = put th.closures new.closure (some cur);
    },
  )

-- `seconds * 1000` and `usec / 1000`.
unfoldable pub sleep_ms : ℕ → ℕ
sleep_ms seconds = seconds * 1000 % 2 ^ 32

unfoldable pub usleep_ms : ℕ → ℕ
usleep_ms usec = usec / 1000

unfoldable pub sleep : {R : Type 0} → Originals R → Fresh → ℕ → Thread → Outcome (Effect R × Thread)
unfolding hold_for sleep_ms
sleep o new seconds th =
    if th.enabled then hold_for new (sleep_ms seconds) th else call_original o.sleep_f seconds th

unfoldable pub usleep :
    {R : Type 0} → Originals R → Fresh → ℕ → Thread → Outcome (Effect R × Thread)
unfolding hold_for usleep_ms
usleep o new usec th =
    if th.enabled then hold_for new (usleep_ms usec) th else call_original o.usleep_f usec th

-- The lambda `k`: `iom -> schedule(fiber)`; the flag says whether `tickle` is called.
unfoldable pub wake : ℕ → Thread → Outcome (Bool × Thread)
wake k th = do
  iom ← deref th.manager
  f ← deref (th.closures k)
  let (tickles, scheduler) = schedule (fiber (some f)) none iom.scheduler
  ok (tickles, record th { manager = some (record iom { scheduler = scheduler }) })
