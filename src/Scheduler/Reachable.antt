-- ===== src/Scheduler/Reachable.antt =====
-- What holds in every state that workers, fibers and callers can bring a scheduler to.
use collabor_ative_schedule.Base.{
  ℕ, ◌^◌, ◌<◌, ◌≡◌, ◌≢◌, refl, sym, ap, subst, ◌∙◌, List, [], ◌∷◌, fault, assertion, All, arith,
  length,
}
use collabor_ative_schedule.Fiber.{State}
use collabor_ative_schedule.Scheduler.{Scheduler, pick}
use collabor_ative_schedule.Scheduler.Worker.{Phase, picking, Worker}
use collabor_ative_schedule.Scheduler.Queue.{AllWork, pick-Picked}
use collabor_ative_schedule.Scheduler.Moves.{busy, idling}
use collabor_ative_schedule.Scheduler.System.{System, Step, Inv, Step-Inv, count_by}

-- What workers that have not run yet are led to.
pub data Reach (s : Scheduler) (states : ℕ → State) (ws : List Worker) : System → Type 0 where
  here :
      Reach s states ws
        (record { shared = record { scheduler = s; states = states }; workers = ws })
  next : {sys sys' : System} → Reach s states ws sys → Step sys sys' → Reach s states ws sys'

-- A scheduler before its workers run: nothing queued, and no worker counted.
pub record IsFresh (s : Scheduler) (ws : List Worker) : Type 0 where
  pub empty : s.fibers ≡ []
  pub active : s.active ≡ 0
  pub idle : s.idle ≡ 0
  pub few : length ws < 2 ^ 64
  pub picking : All (λ w. w.phase ≡ picking) ws

count_fresh :
    (f : Phase → ℕ)
    → f picking ≡ 0
    → (ws : List Worker) → All (λ w. w.phase ≡ picking) ws
    → count_by f ws ≡ 0
count_fresh f z [] h = refl
count_fresh f z (w ∷ ws) h = omega (arith, ap f h.0, count_fresh f z ws h.1)

Reach-Inv :
    {s : Scheduler} {states : ℕ → State} {ws : List Worker} {sys : System}
    → IsFresh s ws
    → Reach s states ws sys
    → Inv sys
Reach-Inv {ws = ws} fresh here = record {
  work = subst AllWork (sym fresh.empty) tt;
  active = fresh.active ∙ sym (count_fresh busy refl ws fresh.picking);
  idle = fresh.idle ∙ sym (count_fresh idling refl ws fresh.picking);
  few = fresh.few;
}
Reach-Inv fresh (next r step) = Step-Inv (Reach-Inv fresh r) step

-- From a scheduler with nothing queued and workers that have not run, fewer than 2^64, whatever the
-- workers, the fibers and the callers of `schedule` do, in any order: `m_activeThreadCount` is the
-- number of workers that run a task and `m_idleThreadCount` that of the workers in their idle
-- fiber, and no worker's search of the queue fails its assertion.
pub Reach-counts :
    {s : Scheduler} {states : ℕ → State} {ws : List Worker} {sys : System}
    → IsFresh s ws
    → Reach s states ws sys
    → (sys.shared.scheduler.active ≡ count_by busy sys.workers)
      × (sys.shared.scheduler.idle ≡ count_by idling sys.workers)
      × ((tid : ℕ) → pick tid sys.shared.states sys.shared.scheduler.fibers ≢ fault assertion)
Reach-counts {sys = sys} fresh r =
    let inv = Reach-Inv fresh r in
    (
      inv.active,
      inv.idle,
      λ tid e.
          let (p, found, _) =
            pick-Picked tid sys.shared.states sys.shared.scheduler.fibers inv.work in
          cc,
    )
