-- ===== src/Scheduler/Fairness.antt =====
-- How long a task waits in the queue of hps_sf/scheduler.cpp, while all workers search it and
-- put fibers in again.
use collabor_ative_schedule.Base.{
  ℕ, suc, ◌+◌, ◌<◌, ◌≤◌, ◌≡◌, refl, ap, subst, ◌∙◌, inl, inr, Bool, false, List, [], ◌∷◌, ◌++◌,
  Option, none, some, length, ok, arith, Bool-cases, if◌then◌else◌, ◌⊎◌, ◌||◌, sym, sub64,
}
use mathlib.Core.List.{append_assoc}
use collabor_ative_schedule.Scheduler.Worker.{
  Phase, in_fiber, in_callback, in_idle, Worker, Shared, branch, enter, resume, resume_fiber,
  resume_callback, resume_idle, hold_unless_ended, set_active, set_idle,
}
use collabor_ative_schedule.Scheduler.System.{
  System, Step, dispatches, resumes, schedules, fibers_change, starts, begins_stop, takes_threads,
  start-Controls, begin_stop-Controls, swap_threads-Controls, Inv, Step-Inv, dispatch-branch,
}
use collabor_ative_schedule.Fiber.{is_ready, is_term, is_except}
use collabor_ative_schedule.Fiber.{State}
use collabor_ative_schedule.Scheduler.{
  Task, Work, fiber, task, Scheduler, schedule, Pick, pick, has_work, is_elsewhere, skip,
}
use collabor_ative_schedule.Scheduler.Queue.{AllWork, passes, pick_over, pick_here, pick-Picked}
use collabor_ative_schedule.Scheduler.Moves.{Picked-AllWork}

-- 1 when the search of worker `tid` does not pass over the task.
abbrev pub chance : Task → ℕ → (ℕ → State) → ℕ
chance t tid states = if passes tid states t then 0 else 1

-- After a search that has a chance of `c`: the task is taken, or before it there are at most `n -
-- c`.
data Comes (t : Task) (n c : ℕ) (p : Pick) : Type 0 where
  now : p.taken ≡ some t → Comes t n c p
  later :
      (before after : List Task)
      → p.rest ≡ before ++ t ∷ after
      → length before + c ≤ n
      → Comes t n c p

chance_le_one : (t : Task) (tid : ℕ) (states : ℕ → State) → chance t tid states ≤ 1
chance_le_one t tid states = elim (Bool-cases (passes tid states t)) [
  | inl e ↦ rw e (omega arith)
  | inr e ↦ rw e (omega arith)
]

Comes-skip :
    (x t : Task) (n c : ℕ) (b : Bool) (p : Pick) → Comes t n c p → Comes t (suc n) c (skip x b p)
Comes-skip x t n c b p (now e) = now e
Comes-skip x t n c b p (later before after e h) =
    later (x ∷ before) after (ap (◌∷◌ x) e) (omega (arith, h))

pick-Comes :
    (tid : ℕ) (states : ℕ → State) (t : Task) (before after : List Task)
    → AllWork (before ++ t ∷ after)
    → (p : Pick) × (pick tid states (before ++ t ∷ after) ≡ ok p)
      × AllWork p.rest
      × Comes t (length before) (chance t tid states) p
pick-Comes tid states t [] after h = elim (Bool-cases (passes tid states t)) [
  | inl f ↦
      let (p, e, k) = pick-Picked tid states after h.1 in
      (
        skip t (is_elsewhere tid t) p,
        pick_over tid states t after p h.0 f e,
        (h.0, Picked-AllWork tid states after p h.1 k),
        later [] p.rest refl (rw f (omega arith)),
      )
  | inr f ↦ (
    record { taken = some t; rest = after; tickle_me = false },
    pick_here tid states t after h.0 f,
    h.1,
    now refl,
  )
]
pick-Comes tid states t (x ∷ xs) after h = elim (Bool-cases (passes tid states x)) [
  | inl f ↦
      let (p, e, w, k) = pick-Comes tid states t xs after h.1 in
      (
        skip x (is_elsewhere tid x) p,
        pick_over tid states x (xs ++ t ∷ after) p h.0 f e,
        (h.0, w),
        Comes-skip x t (length xs) _ _ p k,
      )
  | inr f ↦ (
    record { taken = some x; rest = xs ++ t ∷ after; tickle_me = false },
    pick_here tid states x (xs ++ t ∷ after) h.0 f,
    h.1,
    later xs after refl (omega (arith, chance_le_one t tid states)),
  )
]

-- The queue has the task behind these.
abbrev Behind : Task → List Task → List Task → Type 0
Behind t before q = (after : List Task) × (q ≡ before ++ t ∷ after)

schedule-Behind :
    (fc : Work) (thread : Option ℕ) (t : Task) (s : Scheduler) (before : List Task)
    → Behind t before s.fibers
    → Behind t before (schedule fc thread s).1.fibers
unfolding schedule
schedule-Behind fc thread t s before (after, e) = elim (Bool-cases (has_work (task fc thread))) [
  | inl f ↦ (
    after ++ task fc thread ∷ [],
    rw f (ap (λ q. q ++ task fc thread ∷ []) e ∙ append_assoc before (t ∷ after) _),
  )
  | inr f ↦ (after, rw f e)
]

pub hold-fibers :
    (f : ℕ) (sh : Shared) → (hold_unless_ended f sh).scheduler.fibers ≡ sh.scheduler.fibers
hold-fibers f sh = ground arith

-- What holds of the queue, and of the queue with a fiber put in again, holds after `resume`.
resume_queue :
    (P : List Task → Type 0) (p : Phase) (w : Worker) (sh : Shared)
    → P sh.scheduler.fibers
    → ((f n : ℕ) → P (schedule (fiber (some f)) none (record sh.scheduler { active = n })).1.fibers)
    → P (resume p w sh).2.scheduler.fibers
unfolding resume resume_fiber resume_callback resume_idle
resume_queue P (in_fiber f) w sh h again = elim (Bool-cases (is_ready (sh.states f))) [
  | inl e ↦ rw e (again f _)
  | inr e ↦ rw e (subst P (sym (hold-fibers f (set_active (sub64 sh.scheduler.active 1) sh))) h)
]
resume_queue P (in_callback f) w sh h again = elim (Bool-cases (is_ready (sh.states f))) [
  | inl e ↦ rw e (again f _)
  | inr e ↦ elim (Bool-cases (is_except (sh.states f) || is_term (sh.states f))) [
    | inl g ↦ rw (e, g) h
    | inr g ↦ rw (e, g) h
  ]
]
resume_queue P in_idle w sh h again =
    subst P (sym (hold-fibers w.idle_fiber (set_idle (sub64 sh.scheduler.idle 1) sh))) h
resume_queue P _ w sh h again = h

pub branch-fibers :
    (a : ℕ) (t : Option Task) (w w' : Worker) (sh sh' : Shared)
    → branch a t w sh ≡ ok (w', sh')
    → sh'.scheduler.fibers ≡ sh.scheduler.fibers
unfolding branch enter
branch-fibers a none w w' sh sh' h = ground arith
branch-fibers a (some t) w w' sh sh' h = ground arith

-- Any steps, one after another.
pub data Run : System → System → Type 0 where
  ends : {s : System} → Run s s
  goes : {s s' s'' : System} → Step s s' → Run s' s'' → Run s s''

-- The searches on the way that do not pass over the task.
abbrev step_chance : Task → {s s' : System} → Step s s' → ℕ
step_chance t (dispatches a sh sh' before w w' after tickle e h) = chance t w.tid sh.states
step_chance t _ = 0

abbrev pub chances : Task → {s s' : System} → Run s s' → ℕ
chances t ends = 0
chances t (goes u r) = step_chance t u + chances t r

-- A worker takes the task in this step.
abbrev StepTakes : Task → {s s' : System} → Step s s' → Type 0
StepTakes t (dispatches a sh sh' before w w' after tickle e h) =
    (p : Pick) × (pick w.tid sh.states sh.scheduler.fibers ≡ ok p) × (p.taken ≡ some t)
StepTakes t _ = ⊥

abbrev pub Takes : Task → {s s' : System} → Run s s' → Type 0
Takes t ends = ⊥
Takes t (goes u r) = StepTakes t u ⊎ Takes t r

-- In any run of the workers, with calls of `schedule`, `start` and `stop` and fibers that change
-- state in between, from a system whose counters count and whose queued tasks all have something to
-- run: a task with `n` tasks before it is taken when more than `n` searches on the way do not pass
-- over it.
pub Run-Takes :
    (t : Task) {sys sys' : System} (r : Run sys sys') (before : List Task)
    → Inv sys
    → Behind t before sys.shared.scheduler.fibers
    → length before < chances t r
    → Takes t r
Run-Takes t ends before inv b few = absurd (omega (arith, few))
Run-Takes t (goes (dispatches a sh sh' ws w w' ws' tickle e h) r) before inv (after, q) few =
    let (p, f, work, k) = pick-Comes w.tid sh.states t before after (subst AllWork q inv.work) in
    let found : pick w.tid sh.states sh.scheduler.fibers ≡ ok p = ap (pick w.tid sh.states) q ∙ f in
    elim k [
      | now x ↦ inl (p, found, x)
      | later before' after' x le ↦
          let same =
            branch-fibers a p.taken w w' _ sh' (dispatch-branch a w w' sh sh' tickle p found h) in
          inr (
            Run-Takes t r before' (Step-Inv inv (dispatches a sh sh' ws w w' ws' tickle e h))
              (after', same ∙ x) (omega (arith, le, few)))
    ]
Run-Takes t (goes (resumes sh ws w ws') r) before inv b few = inr (
    Run-Takes t r before (Step-Inv inv (resumes sh ws w ws'))
      (resume_queue (Behind t before) w.phase w sh b (λ f n.
        schedule-Behind (fiber (some f)) none t (record sh.scheduler { active = n }) before b))
      (omega (arith, few)))
Run-Takes t (goes (schedules fc thread sh ws) r) before inv b few = inr (
    Run-Takes t r before (Step-Inv inv (schedules fc thread sh ws))
      (schedule-Behind fc thread t sh.scheduler before b) (omega (arith, few)))
Run-Takes t (goes (starts ids sh s' ws h) r) before inv (after, q) few = inr (
    Run-Takes t r before (Step-Inv inv (starts ids sh s' ws h))
      (after, (start-Controls ids sh.scheduler s' h).fibers ∙ q) (omega (arith, few)))
Run-Takes t (goes (begins_stop f this root sh e ws h) r) before inv (after, q) few = inr (
    Run-Takes t r before (Step-Inv inv (begins_stop f this root sh e ws h))
      (after, (begin_stop-Controls f this root sh.scheduler e h).fibers ∙ q) (omega (arith, few)))
Run-Takes t (goes (takes_threads sh ws) r) before inv (after, q) few = inr (
    Run-Takes t r before (Step-Inv inv (takes_threads sh ws))
      (after, (swap_threads-Controls sh.scheduler).fibers ∙ q) (omega (arith, few)))
Run-Takes t (goes (fibers_change states sh ws) r) before inv b few =
    inr (Run-Takes t r before (Step-Inv inv (fibers_change states sh ws)) b (omega (arith, few)))
