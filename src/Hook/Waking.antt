-- ===== src/Hook/Waking.antt =====
-- `sleep` and `usleep` from the switch on: the timer, its lambda, the queue and the fiber's
-- `swapIn`.
use collabor_ative_schedule.Base.{
  ℕ, ◌≤◌, ◌≡◌, refl, sym, ap, ◌∙◌, inl, inr, true, false, List, [], ◌∷◌, ◌++◌, map, none, some,
  ◌==◌, ok, arith, All, add64, Bool, Bool-cases, ==_iff,
}
use mathlib.Core.List.{map-append}
use collabor_ative_schedule.Callback.{Callback, fn}
use collabor_ative_schedule.OrderedSet.{mem}
use collabor_ative_schedule.Timer.{TimerManager, new_timer, add_timer, list_expired_cb}
use collabor_ative_schedule.Timer.Order.{Agree}
use collabor_ative_schedule.Timer.Invariant.{Inv, Fits}
use collabor_ative_schedule.Timer.Expiry.{after, staying}
use collabor_ative_schedule.Timer.Firing.{due, mem-due, list_expired_cb_exact}
use collabor_ative_schedule.Fiber.{World, swap_in, is_exec}
use collabor_ative_schedule.Fiber.Switching.{
  OnScheduler, InFiber, Entered, to_hold, left, swap_in-Entered,
}
use collabor_ative_schedule.Scheduler.{Scheduler, fiber, task, is_empty, schedule, schedule_no_lock}
use collabor_ative_schedule.Hook.{Originals, Manager, Thread, Fresh, held, wake}
use collabor_ative_schedule.Hook.Sleeping.{
  Asleep, SleepUnit, sleep_call, interval, hold_for-Asleep, sleep_call-hold_for,
}
use collabor_ative_schedule.Timer.Deadlines.{add_timer_notifies}

split_at :
    (a : ℕ) (xs : List ℕ)
    → mem a xs ≡ true
    → (before : List ℕ) × (behind : List ℕ) × (xs ≡ before ++ a ∷ behind)
split_at a (x ∷ xs) h = elim (Bool-cases (a == x)) [
  | inl e ↦ ([], xs, ap (λ b. b ∷ xs) (sym ((==_iff a x).0 e)))
  | inr e ↦
      let (before, behind, p) = split_at a xs (ground (arith, e, h)) in
      (x ∷ before, behind, ap (◌∷◌ x) p)
]
split_at a [] h = cc

-- What a call with the deadline `at` leaves behind, with the manager `iom` on the thread: the timer with
-- its lambda in the set, the fiber in the lambda, and the fiber itself at rest beside the scheduler's.
pub record Kept (m a : ℕ) (new : Fresh) (at : ℕ) (iom : Manager) (th : Thread) : Type 0 where
  pub managed : th.manager ≡ some iom
  pub there : mem new.timer iom.timers.timers ≡ true
  pub deadline : (iom.timers.heap new.timer).next ≡ at
  pub callback : (iom.timers.heap new.timer).cb ≡ fn new.closure
  pub remembered : th.closures new.closure ≡ some a
  pub given_back : OnScheduler m th.world
  pub resting : is_exec (th.world.fibers a).state ≡ false

-- What the expiry of the timer at `at`, the call of its lambda and a worker's `swapIn` come to.
pub record Resumes (m a : ℕ) (new : Fresh) (at : ℕ) (iom : Manager) (th : Thread) : Type 0 where
  pub before : List Callback
  pub behind : List Callback
  pub fires : (list_expired_cb at [] iom.timers).0 ≡ before ++ fn new.closure ∷ behind
  -- The thread after the expiry.
  pub fired : Thread
  pub same_world : fired.world ≡ th.world
  pub expired : fired.manager ≡ some (record iom { timers = (list_expired_cb at [] iom.timers).1 })
  pub woken : Thread
  pub wakes : wake new.closure fired ≡ ok (is_empty iom.scheduler.fibers, woken)
  pub queued : Scheduler
  pub rescheduled :
      woken.manager
      ≡ some (record iom { scheduler = queued; timers = (list_expired_cb at [] iom.timers).1 })
  pub in_queue : queued.fibers ≡ iom.scheduler.fibers ++ task (fiber (some a)) none ∷ []
  pub world : World
  pub swaps_in : swap_in a woken.world ≡ ok world
  pub goes_on : Entered m a woken.world world

timer_cb :
    (t k ms now : ℕ) (m : TimerManager) → ((add_timer t ms (fn k) false now m).1.heap t).cb ≡ fn k
unfolding add_timer
timer_cb t k ms now m = ground arith

fires_when_due :
    (t k at : ℕ) (m : TimerManager)
    → Inv m
    → mem t m.timers ≡ true
    → (m.heap t).next ≡ at
    → (m.heap t).cb ≡ fn k
    → Agree (after at m) (staying at m)
    → All (λ u. at ≤ (m.heap u).next) m.timers
    → (before : List Callback) × (behind : List Callback) × ((list_expired_cb at [] m).0
        ≡ before ++ fn k ∷ behind)
fires_when_due t k at m inv there deadline callback agree ahead =
    let exact = (list_expired_cb_exact at [] m inv agree ahead).0 in
    let among : mem t (due m.heap at m.timers) ≡ true =
      mem-due m.heap at t m.timers ∙ ground (arith, there, deadline) in
    let (before, behind, p) = split_at t (due m.heap at m.timers) among in
    let cb = λ (u : ℕ). (m.heap u).cb in
    (
      map cb before,
      map cb behind,
      exact
          ∙ ap (map cb) p
          ∙ map-append cb before (t ∷ behind)
          ∙ ap (λ c. map cb before ++ c ∷ map cb behind) callback,
    )

resumes :
    (m a at : ℕ) (new : Fresh) (iom : Manager) (th : Thread)
    → (a == m) ≡ false
    → Kept m a new at iom th
    → ((before : List Callback) × (behind : List Callback) × ((list_expired_cb at [] iom.timers).0
          ≡ before ++ fn new.closure ∷ behind))
    → Resumes m a new at iom th
unfolding wake schedule schedule_no_lock task
resumes m a at new iom th apart kept (before, behind, fires) =
    let queued = (schedule (fiber (some a)) none iom.scheduler).1 in
    let timers = (list_expired_cb at [] iom.timers).1 in
    let fired : Thread = record th { manager = some (record iom { timers = timers }) } in
    let woken : Thread = record th {
      manager = some (record iom { timers = timers; scheduler = queued });
    } in
    elim (swap_in-Entered m a woken.world kept.given_back apart) [
      | inl (executing, _) ↦ cc (executing, kept.resting)
      | inr (world, swaps, entered) ↦ record {
        before = before;
        behind = behind;
        fires = fires;
        fired = fired;
        same_world = refl;
        expired = refl;
        woken = woken;
        wakes = rw kept.remembered refl;
        queued = queued;
        rescheduled = refl;
        in_queue = refl;
        world = world;
        swaps_in = swaps;
        goes_on = entered;
      }
    ]

Asleep-Kept :
    (m a ms : ℕ) (new : Fresh) (iom : Manager) (th th' : Thread)
    → Inv iom.timers
    → mem new.timer iom.timers.timers ≡ false
    → Fits new.timer (new_timer ms (fn new.closure) false new.now) iom.timers
    → Asleep m a new ms iom th th'
    → Kept m a new
        (add64 new.now ms)
        (record iom {
          timers = (add_timer new.timer ms (fn new.closure) false new.now iom.timers).1;
        })
        th'
Asleep-Kept m a ms new iom th th' inv fresh fits asleep =
    let (_, _, there, deadline) =
      add_timer_notifies new.timer ms (fn new.closure) false new.now iom.timers fresh fits inv in
    record {
      managed = asleep.managed;
      there = there;
      deadline = deadline;
      callback = timer_cb new.timer new.closure ms new.now iom.timers;
      remembered = asleep.remembered;
      given_back = asleep.given_back;
      resting = ap (λ f. is_exec f.state) asleep.waiting;
    }

-- On a thread with hooks enabled and an I/O manager whose timers satisfy the invariant, a fiber `a`
-- that was entered from the scheduler's fiber `m` calls `sleep` or `usleep`, and `new` gives the
-- timer an address that is not in the set, with which the deadline agrees. Then the call gives the
-- thread back to the scheduler's fiber, with `a` in HOLD and no other fiber changed, and leaves
-- behind a timer in the set whose lambda holds the fiber. For any later state of the thread and its
-- manager, whatever timers have come and gone meanwhile, in which these are still so, the timers
-- satisfy the invariant, none has a deadline before that of the call, and deadlines agree with
-- addresses after the expiry too: when the timers are asked exactly at the deadline, the lambda of
-- this call is among the functions to run; called after the expiry, it appends the fiber to the
-- queue, for any thread; and then `swapIn` on the fiber succeeds, the fiber runs again, and no
-- other fiber changes.
pub sleep-Resumes :
    {R : Type 0} (u : SleepUnit) (o : Originals R) (m a : ℕ) (new : Fresh) (n : ℕ)
    (iom iom' : Manager) (th later : Thread)
    → th.enabled ≡ true
    → th.manager ≡ some iom
    → InFiber m a th.world
    → Inv iom.timers
    → mem new.timer iom.timers.timers ≡ false
    → Fits new.timer (new_timer (interval u n) (fn new.closure) false new.now) iom.timers
    → let at = add64 new.now (interval u n) in
      Kept m a new at iom' later
      → Inv iom'.timers
      → Agree (after at iom'.timers) (staying at iom'.timers)
      → All (λ t. at ≤ (iom'.timers.heap t).next) iom'.timers.timers
      → (front : Bool) × (th' : Thread) × (sleep_call u o new n th ≡ ok (held front, th'))
        × (th'.world.fibers a ≡ left to_hold (th.world.fibers a))
        × ((c : ℕ) → (c == a) ≡ false → th'.world.fibers c ≡ th.world.fibers c)
        × Kept m a new at
            (record iom {
              timers =
                  (add_timer new.timer (interval u n) (fn new.closure) false new.now iom.timers).1;
            })
            th'
        × Resumes m a new at iom' later
sleep-Resumes u o m a new n iom iom' th later on man inside inv fresh fits kept inv' agree ahead =
    let (front, th', e, asleep) = hold_for-Asleep m a new (interval u n) iom th man inside in
    (
      front,
      th',
      sleep_call-hold_for u o new n th on ∙ e,
      asleep.waiting,
      asleep.others,
      Asleep-Kept m a (interval u n) new iom th th' inv fresh fits asleep,
      resumes m a (add64 new.now (interval u n)) new iom' later inside.apart kept (
          fires_when_due new.timer new.closure (add64 new.now (interval u n)) iom'.timers inv'
            kept.there kept.deadline kept.callback agree ahead),
    )
