-- ===== src/Scheduler/Running.antt =====
-- What a worker does with the task that it takes, and the range form of `schedule`.
use collabor_ative_schedule.Base.{
  ℕ, ◌≡◌, ◌≢◌, refl, ap, ◌∙◌, ◌⊎◌, inl, inr, Bool, true, false, not, ◌&&◌, ◌||◌, List, [], ◌∷◌,
  ◌++◌, none, some, if◌then◌else◌, ok, fault, assertion, arith, Bool-cases,
}
use mathlib.Core.List.{append-nil, append_assoc}
use collabor_ative_schedule.Callback.{Callback, is_set}
use collabor_ative_schedule.Fiber.{init, is_term, is_except}
use collabor_ative_schedule.Scheduler.{
  Task, callback, Scheduler, schedule_no_lock, schedule_loop, schedule_range, Pick, pick, is_empty,
}
use collabor_ative_schedule.Scheduler.Worker.{
  Worker, Shared, dispatch, branch, run_callback, enter, resume_callback,
}

-- The guard of `run` that is to keep finished fibers out lets every fiber pass: when the search
-- takes a task with a fiber in state TERM or EXCEPT, the worker switches into it and an assertion
-- fails, whatever function the task has.
pub dispatch_finished_fiber_faults :
    (a f : ℕ) (w : Worker) (sh : Shared) (p : Pick) (t : Task)
    → pick w.tid sh.states sh.scheduler.fibers ≡ ok p
    → p.taken ≡ some t
    → t.fiber ≡ some f
    → (is_term (sh.states f) || is_except (sh.states f)) ≡ true
    → dispatch a w sh ≡ fault assertion
unfolding dispatch branch enter
dispatch_finished_fiber_faults a f w sh p t found e g h = rw (found, dispatch) (ground arith)

-- When a worker's callback fiber has given the thread back, in whatever state it is, the worker
-- can run a further function at once: either it keeps the fiber, in state INIT, or
-- it makes a new one; no assertion fails.
pub callback_after_callback :
    (a c : ℕ) (w : Worker) (sh : Shared)
    → w.cb_fiber ≡ some c
    → let r = resume_callback c w sh in
      ((r.1.cb_fiber ≡ none) ⊎ ((r.1.cb_fiber ≡ some c) × (r.2.states c ≡ init)))
      × (run_callback a r.1 r.2 ≢ fault assertion)
unfolding resume_callback run_callback enter
callback_after_callback a c w sh e = (ground arith, λ h. ground arith)

-- The tasks that a range of functions becomes.
abbrev pub tasks : List Callback → List Task
tasks [] = []
tasks (cb ∷ cbs) =
    if is_set cb then record { fiber = none; cb = cb; thread = none } ∷ tasks cbs else tasks cbs

schedule_one :
    (cb : Callback) (s : Scheduler)
    → schedule_no_lock (callback cb) none s
      ≡ (is_empty s.fibers, record s { fibers = s.fibers ++ tasks (cb ∷ []) })
unfolding schedule_no_lock
schedule_one cb s = elim (Bool-cases (is_set cb)) [
  | inl e ↦ rw e refl
  | inr e ↦ rw (e, append-nil s.fibers) refl
]

tasks-cons : (cb : Callback) (cbs : List Callback) → tasks (cb ∷ []) ++ tasks cbs ≡ tasks (cb ∷ cbs)
tasks-cons cb cbs = ground arith

schedule_loop_step :
    (cb : Callback) (cbs : List Callback) (tickle : Bool) (s : Scheduler)
    → schedule_loop (cb ∷ cbs) tickle s
      ≡ schedule_loop cbs
          (is_empty s.fibers || tickle)
          (record s { fibers = s.fibers ++ tasks (cb ∷ []) })
unfolding schedule_loop
schedule_loop_step cb cbs tickle s =
    ap (λ r. schedule_loop cbs (r.0 || tickle) r.1) (schedule_one cb s)

schedule_loop-tasks :
    (cbs : List Callback) (tickle : Bool) (s : Scheduler)
    → (schedule_loop cbs tickle s).1 ≡ record s { fibers = s.fibers ++ tasks cbs }
unfolding schedule_loop
schedule_loop-tasks [] tickle s = rw (append-nil s.fibers) refl
schedule_loop-tasks (cb ∷ cbs) tickle s = rw (schedule_loop_step cb cbs tickle s) (
    schedule_loop-tasks cbs _ (record s { fibers = s.fibers ++ tasks (cb ∷ []) })
    ∙ ap (λ ts. record s { fibers = ts })
        (append_assoc s.fibers (tasks (cb ∷ [])) (tasks cbs)
          ∙ ap (λ ts. s.fibers ++ ts) (tasks-cons cb cbs)))

is_empty-append : (xs ys : List Task) → is_empty xs ≡ false → is_empty (xs ++ ys) ≡ false
is_empty-append [] ys e = cc
is_empty-append (x ∷ xs) ys e = refl

schedule_loop-tickle :
    (cbs : List Callback) (tickle : Bool) (s : Scheduler)
    → (is_empty s.fibers ≡ false) ⊎ (tickle ≡ true)
    → (schedule_loop cbs tickle s).0 ≡ tickle
unfolding schedule_loop
schedule_loop-tickle [] tickle s e = refl
schedule_loop-tickle (cb ∷ cbs) tickle s (inl e) =
    rw (schedule_loop_step cb cbs tickle s, e)
      (schedule_loop-tickle cbs tickle _ (inl (is_empty-append s.fibers (tasks (cb ∷ [])) e)))
schedule_loop-tickle (cb ∷ cbs) tickle s (inr e) =
    rw (schedule_loop_step cb cbs tickle s)
      (schedule_loop-tickle cbs (is_empty s.fibers || tickle) _ (inr (ground arith)) ∙ ground arith)

range_tickle :
    (cbs : List Callback) (s : Scheduler)
    → (schedule_loop cbs false s).0 ≡ (not (is_empty cbs) && is_empty s.fibers)
unfolding schedule_loop
range_tickle [] s = refl
range_tickle (cb ∷ cbs) s =
    rw (schedule_loop_step cb cbs false s) (elim (Bool-cases (is_empty s.fibers)) [
      | inl e ↦ rw e (schedule_loop-tickle cbs true _ (inr refl))
      | inr e ↦
          rw e
            (schedule_loop-tickle cbs false _ (inl (is_empty-append s.fibers (tasks (cb ∷ [])) e)))
    ])

-- `schedule` over a range of functions appends one task for each that is not
-- empty, in order, and asks for a tickle exactly if the range is not empty and the queue was.
pub schedule_range_exact :
    (cbs : List Callback) (s : Scheduler)
    → ((schedule_range cbs s).1 ≡ record s { fibers = s.fibers ++ tasks cbs })
      × ((schedule_range cbs s).0 ≡ (not (is_empty cbs) && is_empty s.fibers))
unfolding schedule_range
schedule_range_exact cbs s = (schedule_loop-tasks cbs false s, range_tickle cbs s)
