-- ===== src/Scheduler/Conserving.antt =====
-- No task of hps_sf/scheduler.cpp is lost, and none is run twice for being queued once.
use mathlib.Core.List.{append-nil}
use collabor_ative_schedule.Base.{
  ℕ, ◌+◌, ◌≡◌, refl, sym, ap, ◌∙◌, inl, inr, Bool, true, ◌||◌, List, [], ◌∷◌, ◌++◌, Option, none,
  some, ok, fault, Outcome, All, arith, Bool-cases, if◌then◌else◌, sub64,
}
use collabor_ative_schedule.Fiber.{State, is_ready, is_term, is_except}
use collabor_ative_schedule.Scheduler.{
  Task, Work, fiber, task, Scheduler, schedule, Pick, pick, has_work, stopping, is_empty,
}
use collabor_ative_schedule.Scheduler.Worker.{
  Phase, in_fiber, in_callback, in_idle, Worker, Shared, resume, resume_fiber, resume_callback,
  resume_idle, set_active, set_idle,
}
use collabor_ative_schedule.Scheduler.Moves.{busy}
use collabor_ative_schedule.Scheduler.Queue.{Picked, nothing, took, pick-Picked}
use collabor_ative_schedule.Scheduler.System.{
  System, Step, dispatches, resumes, schedules, fibers_change, starts, begins_stop, takes_threads,
  start-Controls, begin_stop-Controls, swap_threads-Controls, Inv, Step-Inv, dispatch-branch,
  count_by,
}
use collabor_ative_schedule.Scheduler.Fairness.{Run, goes, ends, branch-fibers, hold-fibers}

-- How many tasks pass a test.
abbrev pub count : (Task → Bool) → List Task → ℕ
count f [] = 0
count f (t ∷ ts) = (if f t then 1 else 0) + count f ts

count-append : (f : Task → Bool) (xs ys : List Task) → count f (xs ++ ys) ≡ count f xs + count f ys
count-append f [] ys = omega arith
count-append f (x ∷ xs) ys = omega (arith, count-append f xs ys)

abbrev as_list : Option Task → List Task
as_list none = []
as_list (some t) = t ∷ []

abbrev taken_of : Outcome Pick → List Task
taken_of (ok p) = as_list p.taken
taken_of (fault e) = []

-- What `schedule` is asked to put into the queue, if it is something to run.
abbrev put_in : Work → Option ℕ → List Task
put_in fc thread = if has_work (task fc thread) then task fc thread ∷ [] else []

-- The fiber that comes back in READY.
abbrev came_back : Phase → Shared → List Task
came_back (in_fiber f) sh = if is_ready (sh.states f) then task (fiber (some f)) none ∷ [] else []
came_back (in_callback f) sh =
    if is_ready (sh.states f) then task (fiber (some f)) none ∷ [] else []
came_back _ sh = []

-- The tasks that a step puts into the queue, and those that it takes out.
abbrev step_in : {s s' : System} → Step s s' → List Task
step_in (schedules fc thread sh ws) = put_in fc thread
step_in (resumes sh before w after) = came_back w.phase sh
step_in _ = []

abbrev step_out : {s s' : System} → Step s s' → List Task
step_out (dispatches a sh sh' before w w' after tickle e h) =
    taken_of (pick w.tid sh.states sh.scheduler.fibers)
step_out _ = []

abbrev pub all_in : {s s' : System} → Run s s' → List Task
all_in ends = []
all_in (goes u r) = step_in u ++ all_in r

abbrev pub all_out : {s s' : System} → Run s s' → List Task
all_out ends = []
all_out (goes u r) = step_out u ++ all_out r

-- Of the tasks that pass the test there are as many in the queue at the end, and taken out on the
-- way, as there were at the start and were put in; and when `stopping` answers true at the end, all
-- have been taken out, and no worker runs one.
abbrev pub Conserves : (Task → Bool) → {s s' : System} → Run s s' → Type 0
Conserves f {s} {s'} r =
    (count f s'.shared.scheduler.fibers + count f (all_out r)
      ≡ count f s.shared.scheduler.fibers + count f (all_in r))
    × (stopping s'.shared.scheduler ≡ true
        → (count f (all_out r) ≡ count f s.shared.scheduler.fibers + count f (all_in r))
          × All (λ w. busy w.phase ≡ 0) s'.workers)

Picked-count :
    (f : Task → Bool) (tid : ℕ) (states : ℕ → State) (tasks : List Task) (p : Pick)
    → Picked tid states tasks p
    → count f p.rest + count f (as_list p.taken) ≡ count f tasks
Picked-count f tid states tasks p (nothing all e) = rw e (omega arith)
Picked-count f tid states tasks p (took before t after split all g e) =
    rw (e, split) (omega (arith, count-append f before after, count-append f before (t ∷ after)))

schedule-fibers :
    (fc : Work) (thread : Option ℕ) (s : Scheduler)
    → (schedule fc thread s).1.fibers ≡ s.fibers ++ put_in fc thread
unfolding schedule
schedule-fibers fc thread s = elim (Bool-cases (has_work (task fc thread))) [
  | inl e ↦ rw e refl
  | inr e ↦ rw e (sym (append-nil s.fibers))
]

resume-fibers :
    (p : Phase) (w : Worker) (sh : Shared)
    → (resume p w sh).2.scheduler.fibers ≡ sh.scheduler.fibers ++ came_back p sh
unfolding resume resume_fiber resume_callback resume_idle schedule task
resume-fibers (in_fiber f) w sh = elim (Bool-cases (is_ready (sh.states f))) [
  | inl e ↦ rw e refl
  | inr e ↦ rw e (
      hold-fibers f (set_active (sub64 sh.scheduler.active 1) sh)
      ∙ sym (append-nil sh.scheduler.fibers))
]
resume-fibers (in_callback f) w sh = elim (Bool-cases (is_ready (sh.states f))) [
  | inl e ↦ rw e refl
  | inr e ↦ elim (Bool-cases (is_except (sh.states f) || is_term (sh.states f))) [
    | inl g ↦ rw (e, g) (sym (append-nil sh.scheduler.fibers))
    | inr g ↦ rw (e, g) (sym (append-nil sh.scheduler.fibers))
  ]
]
resume-fibers in_idle w sh =
    hold-fibers w.idle_fiber (set_idle (sub64 sh.scheduler.idle 1) sh)
    ∙ sym (append-nil sh.scheduler.fibers)
resume-fibers _ w sh = sym (append-nil sh.scheduler.fibers)

step-count :
    (f : Task → Bool) {s s' : System} (u : Step s s')
    → Inv s
    → count f s'.shared.scheduler.fibers + count f (step_out u)
      ≡ count f s.shared.scheduler.fibers + count f (step_in u)
step-count f (dispatches a sh sh' ws w w' ws' tickle e h) inv =
    let (p, found, k) = pick-Picked w.tid sh.states sh.scheduler.fibers inv.work in
    let rest =
      branch-fibers a p.taken w w' _ sh' (dispatch-branch a w w' sh sh' tickle p found h) in
    let out : count f (taken_of (pick w.tid sh.states sh.scheduler.fibers))
        ≡ count f (as_list p.taken) =
      ap (λ o. count f (taken_of o)) found in
    omega (arith, ap (count f) rest, out, Picked-count f w.tid sh.states sh.scheduler.fibers p k)
step-count f (resumes sh ws w ws') inv = omega (
  arith,
  ap (count f) (resume-fibers w.phase w sh),
  count-append f sh.scheduler.fibers (came_back w.phase sh),
)
step-count f (schedules fc thread sh ws) inv = omega (
  arith,
  ap (count f) (schedule-fibers fc thread sh.scheduler),
  count-append f sh.scheduler.fibers (put_in fc thread),
)
step-count f (starts ids sh s' ws h) inv =
    omega (arith, ap (count f) (start-Controls ids sh.scheduler s' h).fibers)
step-count f (begins_stop g this root sh e ws h) inv =
    omega (arith, ap (count f) (begin_stop-Controls g this root sh.scheduler e h).fibers)
step-count f (takes_threads sh ws) inv =
    omega (arith, ap (count f) (swap_threads-Controls sh.scheduler).fibers)
step-count f (fibers_change states sh ws) inv = omega arith

run-count :
    (f : Task → Bool) {s s' : System} (r : Run s s')
    → Inv s
    → (count f s'.shared.scheduler.fibers + count f (all_out r)
        ≡ count f s.shared.scheduler.fibers + count f (all_in r))
      × Inv s'
run-count f ends inv = (omega arith, inv)
run-count f (goes u r) inv =
    let (e, last) = run-count f r (Step-Inv inv u) in
    (
      omega (
        arith,
        e,
        step-count f u inv,
        count-append f (step_in u) (all_in r),
        count-append f (step_out u) (all_out r),
      ),
      last,
    )

nil-is_empty : (ts : List Task) → is_empty ts ≡ true → ts ≡ []
nil-is_empty [] e = refl
nil-is_empty (t ∷ ts) e = cc

none_busy : (ws : List Worker) → count_by busy ws ≡ 0 → All (λ w. busy w.phase ≡ 0) ws
none_busy [] h = tt
none_busy (w ∷ ws) h = (omega arith, none_busy ws (omega arith))

-- In any run of the workers, with calls of `schedule`, `start` and `stop` and fibers that change
-- state in between, from a system whose counters count and whose queued tasks all have something to
-- run, and for any test of tasks: of those that pass it, as many are in the queue at the end or
-- were taken out by workers as were in the queue at the start or were put in, by `schedule` or as
-- fibers that came back in READY; and when `stopping` answers true at the end, every one was taken
-- out, and no worker runs a task.
pub Run-Conserves : (f : Task → Bool) {s s' : System} (r : Run s s') → Inv s → Conserves f r
unfolding stopping
Run-Conserves f {s} {s'} r inv =
    let (e, last) = run-count f r inv in
    (
      e,
      λ h.
          let quiet : count f s'.shared.scheduler.fibers ≡ 0 =
            ap (count f) (nil-is_empty s'.shared.scheduler.fibers (ground (arith, h))) in
          (omega (arith, e, quiet), none_busy s'.workers (sym last.active ∙ ground (arith, h))),
    )
