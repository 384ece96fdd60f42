-- ===== src/Scheduler/Worker.antt =====
-- `hps_Scheduler::run` on one worker thread, cut at the switches: `dispatch` is an iteration up to
-- the switch into a fiber, `resume` what follows when the fiber gives the thread back. The states
-- of the fibers are shared by all threads.
use collabor_ative_schedule.Base.{
  ℕ, Bool, false, not, ◌&&◌, ◌||◌, Option, none, some, if◌then◌else◌, add64, sub64, Outcome, ok,
  fault, assertion, ◌>>=◌, ◌>>◌, require,
}
use collabor_ative_schedule.Callback.{is_set}
use collabor_ative_schedule.Fiber.{
  State, init, hold, exec, term, is_exec, is_term, is_ready, is_except, at_rest, put,
}
use collabor_ative_schedule.Scheduler.{Task, fiber, Scheduler, schedule, pick, stopping}

-- Where a worker is in the loop; a fiber is named by its address.
pub data Phase : Type 0 where
  picking : Phase
  in_fiber in_callback : ℕ → Phase
  in_idle finished : Phase

pub record Worker : Type 0 where
  pub tid : ℕ
  pub phase : Phase
  pub idle_fiber : ℕ
  pub cb_fiber : Option ℕ

-- What a worker reads and writes.
pub record Shared : Type 0 where
  pub scheduler : Scheduler
  pub states : ℕ → State

abbrev pub set_active : ℕ → Shared → Shared
set_active n sh = record sh { scheduler = record sh.scheduler { active = n } }

abbrev pub set_idle : ℕ → Shared → Shared
set_idle n sh = record sh { scheduler = record sh.scheduler { idle = n } }

abbrev pub mark : ℕ → State → Shared → Shared
mark f st sh = record sh { states = put sh.states f st }

-- `swapIn`. The code of a fiber that has ended, entered again, fails its last assertion.
unfoldable pub enter : ℕ → Shared → Outcome Shared
enter f sh = do
  require (not (is_exec (sh.states f)))
  require (not (is_term (sh.states f) || is_except (sh.states f)))
  ok (mark f exec sh)

-- The branch for a fiber.
unfoldable pub run_fiber : ℕ → Worker → Shared → Outcome (Worker × Shared)
unfolding enter
run_fiber f w sh = do sh' ← enter f sh; ok (record w { phase = in_fiber f }, sh')

-- The branch for a function; `a` is the address of a new fiber.
unfoldable pub run_callback : ℕ → Worker → Shared → Outcome (Worker × Shared)
unfolding enter
run_callback a w sh = elim w.cb_fiber [
  | none ↦ do
    sh' ← enter a (mark a init sh)
    ok (record w { phase = in_callback a; cb_fiber = some a }, sh')
  | some c ↦ do
    require (at_rest (sh.states c))
    sh' ← enter c (mark c init sh)
    ok (record w { phase = in_callback c }, sh')
]

-- The branch that finds nothing to run.
unfoldable pub run_idle : Worker → Shared → Outcome (Worker × Shared)
unfolding enter
run_idle w sh =
    if is_term (sh.states w.idle_fiber) then ok (record w { phase = finished }, sh) else do
      sh' ← enter w.idle_fiber (set_idle (add64 sh.scheduler.idle 1) sh)
      ok (record w { phase = in_idle }, sh')

-- `ft.fiber && (state != TERM || state != EXCEPT)`.
abbrev pub runs_fiber : (ℕ → State) → Option ℕ → Bool
runs_fiber states none = false
runs_fiber states (some f) = not (is_term (states f)) || not (is_except (states f))

-- The choice of the branch for the task taken.
unfoldable pub branch : ℕ → Option Task → Worker → Shared → Outcome (Worker × Shared)
unfolding run_fiber run_callback run_idle
branch a none w sh = run_idle w sh
branch a (some t) w sh =
    let sh' = set_active (add64 sh.scheduler.active 1) sh in
    if runs_fiber sh.states t.fiber
    then elim t.fiber [ none ↦ fault assertion | some f ↦ run_fiber f w sh' ]
    else if is_set t.cb
    then run_callback a w sh'
    else ok (w, set_active (sub64 sh'.scheduler.active 1) sh')

-- An iteration up to the switch; the flag says whether `tickle` is called.
unfoldable pub dispatch : ℕ → Worker → Shared → Outcome (Bool × Worker × Shared)
unfolding branch
dispatch a w sh = do
  p ← pick w.tid sh.states sh.scheduler.fibers
  r ← branch a p.taken w (record sh { scheduler = record sh.scheduler { fibers = p.rest } })
  ok (p.tickle_me, r.0, r.1)

-- `schedule(fiber)` at the end of an iteration.
abbrev pub requeue : ℕ → Shared → Bool × Shared
requeue f sh =
    let r = schedule (fiber (some f)) none sh.scheduler in (r.0, record sh { scheduler = r.1 })

-- `m_state = HOLD`, unless the fiber has ended.
abbrev pub hold_unless_ended : ℕ → Shared → Shared
hold_unless_ended f sh =
    if not (is_term (sh.states f)) && not (is_except (sh.states f)) then mark f hold sh else sh

unfoldable pub resume_fiber : ℕ → Worker → Shared → Bool × Worker × Shared
resume_fiber f w sh =
    let w' = record w { phase = picking } in
    let sh' = set_active (sub64 sh.scheduler.active 1) sh in
    if is_ready (sh.states f)
    then (let r = requeue f sh' in (r.0, w', r.1))
    else (false, w', hold_unless_ended f sh')

unfoldable pub resume_callback : ℕ → Worker → Shared → Bool × Worker × Shared
resume_callback c w sh =
    let w' = record w { phase = picking } in
    let sh' = set_active (sub64 sh.scheduler.active 1) sh in
    if is_ready (sh.states c)
    then (let r = requeue c sh' in (r.0, record w' { cb_fiber = none }, r.1))
    else if is_except (sh.states c) || is_term (sh.states c)
    then (false, w', mark c init sh')
    else (false, record w' { cb_fiber = none }, mark c hold sh')

unfoldable pub resume_idle : Worker → Shared → Bool × Worker × Shared
resume_idle w sh = (
  false,
  record w { phase = picking },
  hold_unless_ended w.idle_fiber (set_idle (sub64 sh.scheduler.idle 1) sh),
)

-- The rest of an iteration after the fiber has given the thread back.
unfoldable pub resume : Phase → Worker → Shared → Bool × Worker × Shared
unfolding resume_fiber resume_callback resume_idle
resume (in_fiber f) w sh = resume_fiber f w sh
resume (in_callback c) w sh = resume_callback c w sh
resume in_idle w sh = resume_idle w sh
resume _ w sh = (false, w, sh)

-- One round of `hps_Scheduler::idle`: the state in which the idle fiber leaves it.
unfoldable pub idle_round : Scheduler → State
idle_round s = if not (stopping s) then hold else term
