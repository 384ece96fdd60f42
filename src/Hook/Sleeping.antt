-- ===== src/Hook/Sleeping.antt =====
-- `sleep` and `usleep` up to the switch, on a thread that runs a fiber: hps_sf/hook.cpp with
-- fiber.cpp.
use collabor_ative_schedule.Base.{ℕ, ◌≡◌, refl, true, false, some, ◌==◌, Outcome, ok, arith, Bool}
use collabor_ative_schedule.Callback.{fn}
use collabor_ative_schedule.Timer.{add_timer}
use collabor_ative_schedule.Fiber.{World, put, get_this, yield_to_hold}
use collabor_ative_schedule.Fiber.Switching.{
  OnScheduler, InFiber, to_hold, left, leave, leave-OnScheduler,
}
use collabor_ative_schedule.Hook.{
  Originals, Manager, Thread, Fresh, Effect, held, sleep_ms, usleep_ms, hold_for, sleep, usleep,
}

-- The thread after its fiber `a`, entered from `m`, has gone to sleep for `ms`.
pub record Asleep (m a : ℕ) (new : Fresh) (ms : ℕ) (iom : Manager) (th th' : Thread) : Type 0 where
  pub given_back : OnScheduler m th'.world
  pub waiting : th'.world.fibers a ≡ left to_hold (th.world.fibers a)
  pub others : (c : ℕ) → (c == a) ≡ false → th'.world.fibers c ≡ th.world.fibers c
  pub managed :
      th'.manager
      ≡ some (record iom {
        timers = (add_timer new.timer ms (fn new.closure) false new.now iom.timers).1;
      })
  pub remembered : th'.closures new.closure ≡ some a

-- A thread with a fiber makes no other.
get_this_own : (a f : ℕ) (w : World) → w.this ≡ some a → get_this f w ≡ (a, w)
unfolding get_this
get_this_own a f w e = rw e refl

yield_to_hold_own : (a f : ℕ) (w : World) → w.this ≡ some a → yield_to_hold f w ≡ leave to_hold a w
unfolding yield_to_hold leave
yield_to_hold_own a f w e = rw e refl

pub hold_for-Asleep :
    {R : Type 0} (m a : ℕ) (new : Fresh) (ms : ℕ) (iom : Manager) (th : Thread)
    → th.manager ≡ some iom
    → InFiber m a th.world
    → (front : Bool) × (th' : Thread) × (hold_for {R = R} new ms th ≡ ok (held front, th'))
      × Asleep m a new ms iom th th'
unfolding hold_for
hold_for-Asleep m a new ms iom th man inside =
    let (w', e, on, _, at, others) = leave-OnScheduler to_hold m a th.world inside in
    let (front, timers) = add_timer new.timer ms (fn new.closure) false new.now iom.timers in
    (
      front,
      record th {
        world = w';
        manager = some (record iom { timers = timers });
        closures = put th.closures new.closure (some a);
      },
      rw
          (
            get_this_own a new.fiber th.world inside.this,
            man,
            yield_to_hold_own a new.fiber th.world inside.this,
            e,
          )
          refl,
      record {
        given_back = on;
        waiting = at;
        others = others;
        managed = refl;
        remembered = ground arith;
      },
    )

-- The two calls, and the milliseconds that each makes of its argument.
pub data SleepUnit : Type 0 where
  seconds microseconds : SleepUnit

abbrev pub sleep_call :
    {R : Type 0} → SleepUnit → Originals R → Fresh → ℕ → Thread → Outcome (Effect R × Thread)
sleep_call seconds = sleep
sleep_call microseconds = usleep

abbrev pub interval : SleepUnit → ℕ → ℕ
interval seconds n = sleep_ms n
interval microseconds n = usleep_ms n

pub sleep_call-hold_for :
    {R : Type 0} (u : SleepUnit) (o : Originals R) (new : Fresh) (n : ℕ) (th : Thread)
    → th.enabled ≡ true
    → sleep_call u o new n th ≡ hold_for new (interval u n) th
unfolding sleep usleep
sleep_call-hold_for seconds o new n th e = rw e refl
sleep_call-hold_for microseconds o new n th e = rw e refl
