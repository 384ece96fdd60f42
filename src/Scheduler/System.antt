-- ===== src/Scheduler/System.antt =====
-- The workers of a scheduler together. A step is what one worker does under the lock or between two
-- switches, a call of `schedule` or `start`, a piece of `stop`, or fibers changing state while they
-- run.
use collabor_ative_schedule.Base.{
  ℕ, ◌+◌, ◌^◌, ◌<◌, ◌≤◌, ◌≡◌, refl, sym, subst, ◌∙◌, Bool, List, [], ◌∷◌, ◌++◌, Option, ok, arith,
  length, length-append, bind-eq-ok,
}
use collabor_ative_schedule.Fiber.{State}
use collabor_ative_schedule.Scheduler.{
  Work, schedule, Pick, pick, Scheduler, Stop, start, begin_stop, swap_threads,
}
use collabor_ative_schedule.Scheduler.Worker.{
  Phase, picking, Worker, Shared, dispatch, branch, resume,
}
use collabor_ative_schedule.Scheduler.Queue.{AllWork, pick-Picked}
use collabor_ative_schedule.Scheduler.Moves.{
  busy, idling, Moves, branch-Moves, resume-Moves, schedule-AllWork, schedule_counters,
  Picked-AllWork,
}

abbrev pub count_by : (Phase → ℕ) → List Worker → ℕ
count_by f [] = 0
count_by f (w ∷ ws) = f w.phase + count_by f ws

pub record System : Type 0 where
  pub shared : Shared
  pub workers : List Worker

pub data Step : System → System → Type 0 where
  dispatches :
      (a : ℕ) (sh sh' : Shared) (before : List Worker) (w w' : Worker) (after : List Worker)
      (tickle : Bool)
      → w.phase ≡ picking
      → dispatch a w sh ≡ ok (tickle, w', sh')
      → Step
          (record { shared = sh; workers = before ++ w ∷ after })
          (record { shared = sh'; workers = before ++ w' ∷ after })
  resumes :
      (sh : Shared) (before : List Worker) (w : Worker) (after : List Worker)
      → Step
          (record { shared = sh; workers = before ++ w ∷ after })
          (record {
            shared = (resume w.phase w sh).2;
            workers = before ++ (resume w.phase w sh).1 ∷ after;
          })
  schedules :
      (fc : Work) (thread : Option ℕ) (sh : Shared) (ws : List Worker)
      → Step
          (record { shared = sh; workers = ws })
          (record {
            shared = record sh { scheduler = (schedule fc thread sh.scheduler).1 };
            workers = ws;
          })
  starts :
      (ids : List ℕ) (sh : Shared) (s' : Scheduler) (ws : List Worker)
      → start ids sh.scheduler ≡ ok s'
      → Step
          (record { shared = sh; workers = ws })
          (record { shared = record sh { scheduler = s' }; workers = ws })
  begins_stop :
      (is_stopping : Scheduler → Bool) (this : Bool) (root : State) (sh : Shared) (r : Stop)
      (ws : List Worker)
      → begin_stop is_stopping this root sh.scheduler ≡ ok r
      → Step
          (record { shared = sh; workers = ws })
          (record { shared = record sh { scheduler = r.scheduler }; workers = ws })
  takes_threads :
      (sh : Shared) (ws : List Worker)
      → Step
          (record { shared = sh; workers = ws })
          (record {
            shared = record sh { scheduler = (swap_threads sh.scheduler).1 };
            workers = ws;
          })
  fibers_change :
      (states : ℕ → State) (sh : Shared) (ws : List Worker)
      → Step
          (record { shared = sh; workers = ws })
          (record { shared = record sh { states = states }; workers = ws })

-- The members that `start` and `stop` set; the queue and the counters stay.
pub record Controls (s s' : Scheduler) : Type 0 where
  pub fibers : s'.fibers ≡ s.fibers
  pub active : s'.active ≡ s.active
  pub idle : s'.idle ≡ s.idle

pub start-Controls : (ids : List ℕ) (s s' : Scheduler) → start ids s ≡ ok s' → Controls s s'
unfolding start
start-Controls ids s s' h = record {
  fibers = ground (arith, h);
  active = ground (arith, h);
  idle = ground (arith, h);
}

pub begin_stop-Controls :
    (is_stopping : Scheduler → Bool) (this : Bool) (root : State) (s : Scheduler) (r : Stop)
    → begin_stop is_stopping this root s ≡ ok r
    → Controls s r.scheduler
unfolding begin_stop
begin_stop-Controls is_stopping this root s r h = record {
  fibers = ground (arith, h);
  active = ground (arith, h);
  idle = ground (arith, h);
}

-- The counters count, and every task in the queue has something to run.
pub record Inv (sys : System) : Type 0 where
  pub work : AllWork sys.shared.scheduler.fibers
  pub active : sys.shared.scheduler.active ≡ count_by busy sys.workers
  pub idle : sys.shared.scheduler.idle ≡ count_by idling sys.workers
  pub few : length sys.workers < 2 ^ 64

count_by-append :
    (f : Phase → ℕ) (xs ys : List Worker) → count_by f (xs ++ ys) ≡ count_by f xs + count_by f ys
count_by-append f [] ys = omega arith
count_by-append f (x ∷ xs) ys = omega (arith, count_by-append f xs ys)

count_by-le :
    (f : Phase → ℕ) → ((p : Phase) → f p ≤ 1) → (ws : List Worker) → count_by f ws ≤ length ws
count_by-le f h [] = omega arith
count_by-le f h (w ∷ ws) = omega (arith, h w.phase, count_by-le f h ws)

busy-le : (p : Phase) → busy p ≤ 1
busy-le picking = omega arith
busy-le _ = omega arith

idling-le : (p : Phase) → idling p ≤ 1
idling-le picking = omega arith
idling-le _ = omega arith

-- A dispatch that succeeds ran the branch for what the search took.
pub dispatch-branch :
    (a : ℕ) (w w' : Worker) (sh sh' : Shared) (tickle : Bool) (p : Pick)
    → pick w.tid sh.states sh.scheduler.fibers ≡ ok p
    → dispatch a w sh ≡ ok (tickle, w', sh')
    → branch a p.taken w (record sh { scheduler = record sh.scheduler { fibers = p.rest } })
      ≡ ok (w', sh')
unfolding dispatch
dispatch-branch a w w' sh sh' tickle p found h =
    let (r, b, k) =
      bind-eq-ok
        (branch a p.taken w (record sh { scheduler = record sh.scheduler { fibers = p.rest } }))
        (λ r. ok (p.tickle_me, r.0, r.1)) (rw found at h) in
    ground (arith, b, k)

dispatch-Moves :
    (a : ℕ) (w w' : Worker) (sh sh' : Shared) (tickle : Bool)
    → w.phase ≡ picking
    → AllWork sh.scheduler.fibers
    → dispatch a w sh ≡ ok (tickle, w', sh')
    → Moves w w' sh sh'
dispatch-Moves a w w' sh sh' tickle e all h =
    let (p, found, picked) = pick-Picked w.tid sh.states sh.scheduler.fibers all in
    let m = branch-Moves a p.taken w w' _ sh' e (dispatch-branch a w w' sh sh' tickle p found h) in
    record {
      active = m.active;
      idle = m.idle;
      work = λ all'. m.work (Picked-AllWork w.tid sh.states sh.scheduler.fibers p all' picked);
    }

-- A counter that follows one worker's phase goes on counting.
count_move :
    (f : Phase → ℕ)
    → ((p : Phase) → f p ≤ 1)
    → (before : List Worker) (w w' : Worker) (after : List Worker) (v v' : ℕ)
    → length (before ++ w ∷ after) < 2 ^ 64
    → v ≡ count_by f (before ++ w ∷ after)
    → ((n : ℕ) → n + 1 < 2 ^ 64 → v ≡ n + f w.phase → v' ≡ n + f w'.phase)
    → v' ≡ count_by f (before ++ w' ∷ after)
count_move f h before w w' after v v' few counts moves =
    let n = count_by f before + count_by f after in
    let split = count_by-append f before (w ∷ after) in
    let room : n + 1 < 2 ^ 64 =
      omega
        (arith, length-append before (w ∷ after), count_by-le f h before, count_by-le f h after) in
    omega (arith, moves n room (omega (arith, split)), count_by-append f before (w' ∷ after))

-- A move of one worker keeps the invariant.
Moves-Inv :
    (before : List Worker) (w w' : Worker) (after : List Worker) (sh sh' : Shared)
    → Moves w w' sh sh'
    → Inv (record { shared = sh; workers = before ++ w ∷ after })
    → Inv (record { shared = sh'; workers = before ++ w' ∷ after })
Moves-Inv before w w' after sh sh' m inv = record {
  work = m.work inv.work;
  active = count_move busy busy-le before w w' after _ _ inv.few inv.active m.active;
  idle = count_move idling idling-le before w w' after _ _ inv.few inv.idle m.idle;
  few = omega (arith, inv.few, length-append before (w ∷ after), length-append before (w' ∷ after));
}

pub swap_threads-Controls : (s : Scheduler) → Controls s (swap_threads s).1
unfolding swap_threads
swap_threads-Controls s = record { fibers = refl; active = refl; idle = refl }

Controls-Inv :
    (sh : Shared) (s' : Scheduler) (ws : List Worker)
    → Controls sh.scheduler s'
    → Inv (record { shared = sh; workers = ws })
    → Inv (record { shared = record sh { scheduler = s' }; workers = ws })
Controls-Inv sh s' ws c inv = record {
  work = subst AllWork (sym c.fibers) inv.work;
  active = c.active ∙ inv.active;
  idle = c.idle ∙ inv.idle;
  few = inv.few;
}

pub Step-Inv : {s s' : System} → Inv s → Step s s' → Inv s'
Step-Inv inv (dispatches a sh sh' before w w' after tickle e h) =
    Moves-Inv before w w' after sh sh' (dispatch-Moves a w w' sh sh' tickle e inv.work h) inv
Step-Inv inv (resumes sh before w after) =
    Moves-Inv before w _ after sh _ (resume-Moves w.phase w sh refl) inv
Step-Inv inv (schedules fc thread sh ws) =
    let same = schedule_counters fc thread sh.scheduler in
    record {
      work = schedule-AllWork fc thread sh.scheduler inv.work;
      active = same.0 ∙ inv.active;
      idle = same.1 ∙ inv.idle;
      few = inv.few;
    }
Step-Inv inv (starts ids sh s' ws h) =
    Controls-Inv sh s' ws (start-Controls ids sh.scheduler s' h) inv
Step-Inv inv (begins_stop is_stopping this root sh r ws h) =
    Controls-Inv sh r.scheduler ws (begin_stop-Controls is_stopping this root sh.scheduler r h) inv
Step-Inv inv (takes_threads sh ws) =
    Controls-Inv sh (swap_threads sh.scheduler).1 ws (swap_threads-Controls sh.scheduler) inv
Step-Inv inv (fibers_change states sh ws) = record {
  work = inv.work;
  active = inv.active;
  idle = inv.idle;
  few = inv.few;
}
