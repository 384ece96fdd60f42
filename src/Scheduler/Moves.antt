-- ===== src/Scheduler/Moves.antt =====
-- What one worker's step does to the counters and to the queue.
use collabor_ative_schedule.Base.{
  ℕ, ◌+◌, ◌^◌, ◌<◌, ◌≡◌, subst, inl, inr, List, [], ◌∷◌, ◌++◌, Option, none, some, ok, All, arith,
  Bool-cases, sub64,
}
use collabor_ative_schedule.Fiber.{State}
use collabor_ative_schedule.Scheduler.{Task, Work, fiber, task, Scheduler, schedule, Pick, has_work}
use collabor_ative_schedule.Scheduler.Worker.{
  Phase, picking, in_fiber, in_callback, in_idle, finished, Worker, Shared, branch, resume, enter,
  resume_fiber, resume_callback, resume_idle,
}
use collabor_ative_schedule.Scheduler.Queue.{AllWork, Picked, nothing, took}

-- 1 for a worker that runs a task, 0 for another.
abbrev pub busy : Phase → ℕ
busy picking = 0
busy (in_fiber f) = 1
busy (in_callback c) = 1
busy in_idle = 0
busy finished = 0

-- 1 for a worker in its idle fiber.
abbrev pub idling : Phase → ℕ
idling in_idle = 1
idling picking = 0
idling (in_fiber f) = 0
idling (in_callback c) = 0
idling finished = 0

All-append : (P : Task → Type 0) (xs ys : List Task) → All P xs → All P ys → All P (xs ++ ys)
All-append P [] ys hx hy = hy
All-append P (x ∷ xs) ys hx hy = (hx.0, All-append P xs ys hx.1 hy)

All-split : (P : Task → Type 0) (xs ys : List Task) → All P (xs ++ ys) → All P xs × All P ys
All-split P [] ys h = (tt, h)
All-split P (x ∷ xs) ys h = let r = All-split P xs ys h.1 in ((h.0, r.0), r.1)

pub schedule-AllWork :
    (fc : Work) (thread : Option ℕ) (s : Scheduler)
    → AllWork s.fibers
    → AllWork (schedule fc thread s).1.fibers
unfolding schedule
schedule-AllWork fc thread s h = elim (Bool-cases (has_work (task fc thread))) [
  | inl e ↦ rw e (All-append _ s.fibers (task fc thread ∷ []) h (e, tt))
  | inr e ↦ rw e h
]

pub Picked-AllWork :
    (tid : ℕ) (states : ℕ → State) (tasks : List Task) (p : Pick)
    → AllWork tasks
    → Picked tid states tasks p
    → AllWork p.rest
Picked-AllWork tid states tasks p h (nothing all e) = rw e h
Picked-AllWork tid states tasks p h (took before t after split all f e) =
    let parts = All-split _ before (t ∷ after) (subst AllWork split h) in
    rw e (All-append _ before after parts.0 parts.1.1)

-- What one worker's step changes: the counters move with its phase.
pub record Moves (w w' : Worker) (sh sh' : Shared) : Type 0 where
  pub active :
      (n : ℕ)
      → n + 1 < 2 ^ 64
      → sh.scheduler.active ≡ n + busy w.phase
      → sh'.scheduler.active ≡ n + busy w'.phase
  pub idle :
      (n : ℕ)
      → n + 1 < 2 ^ 64
      → sh.scheduler.idle ≡ n + idling w.phase
      → sh'.scheduler.idle ≡ n + idling w'.phase
  pub work : AllWork sh.scheduler.fibers → AllWork sh'.scheduler.fibers

pub schedule_counters :
    (fc : Work) (thread : Option ℕ) (s : Scheduler)
    → ((schedule fc thread s).1.active ≡ s.active) × ((schedule fc thread s).1.idle ≡ s.idle)
unfolding schedule
schedule_counters fc thread s = ground arith

requeue-AllWork :
    (f n : ℕ) (s : Scheduler)
    → AllWork s.fibers
    → AllWork (schedule (fiber (some f)) none (record s { active = n })).1.fibers
requeue-AllWork f n s h = schedule-AllWork (fiber (some f)) none (record s { active = n }) h

resume_fiber-Moves :
    (f : ℕ) (w : Worker) (sh : Shared)
    → w.phase ≡ in_fiber f
    → Moves w (resume_fiber f w sh).1 sh (resume_fiber f w sh).2
unfolding resume_fiber
resume_fiber-Moves f w sh e =
    let n = sub64 sh.scheduler.active 1 in
    let same = schedule_counters (fiber (some f)) none (record sh.scheduler { active = n }) in
    record {
      active = λ k room c. ground (arith, same);
      idle = λ k room c. ground (arith, same);
      work = λ h. ground (arith, requeue-AllWork f n sh.scheduler h);
    }

resume_callback-Moves :
    (f : ℕ) (w : Worker) (sh : Shared)
    → w.phase ≡ in_callback f
    → Moves w (resume_callback f w sh).1 sh (resume_callback f w sh).2
unfolding resume_callback
resume_callback-Moves f w sh e =
    let n = sub64 sh.scheduler.active 1 in
    let same = schedule_counters (fiber (some f)) none (record sh.scheduler { active = n }) in
    record {
      active = λ k room c. ground (arith, same);
      idle = λ k room c. ground (arith, same);
      work = λ h. ground (arith, requeue-AllWork f n sh.scheduler h);
    }

resume_idle-Moves :
    (w : Worker) (sh : Shared)
    → w.phase ≡ in_idle
    → Moves w (resume_idle w sh).1 sh (resume_idle w sh).2
unfolding resume_idle
resume_idle-Moves w sh e = record {
  active = λ k room c. ground arith;
  idle = λ k room c. ground arith;
  work = λ h. ground arith;
}

pub resume-Moves :
    (p : Phase) (w : Worker) (sh : Shared)
    → w.phase ≡ p
    → Moves w (resume p w sh).1 sh (resume p w sh).2
unfolding resume
resume-Moves (in_fiber f) w sh e = resume_fiber-Moves f w sh e
resume-Moves (in_callback f) w sh e = resume_callback-Moves f w sh e
resume-Moves in_idle w sh e = resume_idle-Moves w sh e
resume-Moves _ w sh e = record { active = λ k room c. c; idle = λ k room c. c; work = λ h. h }

pub branch-Moves :
    (a : ℕ) (t : Option Task) (w w' : Worker) (sh sh' : Shared)
    → w.phase ≡ picking
    → branch a t w sh ≡ ok (w', sh')
    → Moves w w' sh sh'
unfolding branch enter
branch-Moves a none w w' sh sh' e h = record {
  active = λ k room c. ground arith;
  idle = λ k room c. ground arith;
  work = λ all. ground arith;
}
branch-Moves a (some t) w w' sh sh' e h = record {
  active = λ k room c. ground arith;
  idle = λ k room c. ground arith;
  work = λ all. ground arith;
}
