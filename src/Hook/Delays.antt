-- ===== src/Hook/Delays.antt =====
-- How long `sleep` and `usleep` wait, against what they are asked for.
use collabor_ative_schedule.Base.{
  ℕ, ◌+◌, ◌*◌, ◌^◌, ◌≤◌, ◌<◌, ◌≡◌, sym, subst, ◌∙◌, ap, ◌⊎◌, true, false, Bool, Option, none, some,
  Outcome, ok, fault, bind-eq-ok, arith,
}
use collabor_ative_schedule.Callback.{fn}
use collabor_ative_schedule.Timer.{add_timer}
use collabor_ative_schedule.Fiber.{get_this, yield_to_hold}
use collabor_ative_schedule.Hook.{
  Originals, Manager, Thread, Fresh, Effect, held, deref, hold_for, sleep_ms, usleep_ms,
}
use collabor_ative_schedule.Hook.Sleeping.{
  SleepUnit, seconds, microseconds, sleep_call, interval, sleep_call-hold_for,
}

-- The interval of a timer against the argument of the call.
abbrev pub Waits : SleepUnit → ℕ → ℕ → Type 0
Waits seconds n ms =
    (n ≤ 4294967) × (ms ≡ n * 1000) ⊎ (4294968 ≤ n) × (ms < 2 ^ 32) × (ms + 2 ^ 32 ≤ n * 1000)
Waits microseconds n ms = (ms * 1000 ≤ n) × (n < ms * 1000 + 1000)

interval-Waits : (u : SleepUnit) (n : ℕ) → n < 2 ^ 32 → Waits u n (interval u n)
unfolding sleep_ms usleep_ms
interval-Waits seconds n l = grind arith
interval-Waits microseconds n l = (omega arith, omega arith)

manager_of : {R : Type 0} → Outcome (Effect R × Thread) → Option Manager
manager_of (ok r) = r.1.manager
manager_of (fault f) = none

hold_for-timer :
    {R : Type 0} (new : Fresh) (ms : ℕ) (th th' : Thread) (e : Effect R)
    → hold_for new ms th ≡ ok (e, th')
    → (iom : Manager) × (th'.manager ≡ some iom) × ((iom.timers.heap new.timer).ms ≡ ms)
unfolding hold_for add_timer manager_of
hold_for-timer new ms th th' e h =
    let (cur, w) = get_this new.fiber th.world in
    let (iom, _, rest) = bind-eq-ok (deref th.manager) _ h in
    let (w', _, same) = bind-eq-ok (yield_to_hold new.fiber w) _ rest in
    (
      record iom { timers = (add_timer new.timer ms (fn new.closure) false new.now iom.timers).1 },
      sym (ap manager_of same),
      ground arith,
    )

-- On a thread with hooks enabled, a call of `sleep` or `usleep` with an argument below 2^32 that
-- gives the thread back has set a timer whose interval is exact for `sleep` up to 4294967 seconds;
-- for more seconds it is short by at least 2^32 milliseconds; and for `usleep` it is the asked time
-- rounded down to a millisecond, so never longer and less than a millisecond shorter.
pub sleep_call-Waits :
    {R : Type 0} (u : SleepUnit) (o : Originals R) (new : Fresh) (n : ℕ) (th th' : Thread)
    (front : Bool)
    → n < 2 ^ 32
    → th.enabled ≡ true
    → sleep_call u o new n th ≡ ok (held front, th')
    → (iom : Manager) × (th'.manager ≡ some iom) × Waits u n (iom.timers.heap new.timer).ms
sleep_call-Waits u o new n th th' front l on h =
    let (iom, e, same) =
      hold_for-timer new (interval u n) th th' (held front)
        (sym (sleep_call-hold_for u o new n th on) ∙ h) in
    (iom, e, subst (Waits u n) (sym same) (interval-Waits u n l))
