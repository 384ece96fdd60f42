-- ===== src/Fiber.antt =====
-- hps_sf/fiber.h and hps_sf/fiber.cpp, as one thread sees them. A fiber is an object at an address.
-- `running` is the fiber whose code the thread executes, and `context` says whose code a fiber's
-- `m_ctx` holds: `swapcontext(&x, &y)` saves the running code in `x` and goes on with what `y`
-- holds. The process-wide counters are part of the state.
pub mod Tests
pub mod Switching
pub mod Lifecycle
use collabor_ative_schedule.Base.{
  ℕ, Bool, true, false, not, ◌&&◌, ◌||◌, Option, none, some, ◌==◌, if◌then◌else◌, add64, sub64,
  Outcome, ok, fault, assertion, null_pointer, ◌>>=◌, ◌>>◌, require,
}
use collabor_ative_schedule.Callback.{Callback, empty, is_set}

pub data State : Type 0 where
  init hold exec term ready except : State

-- The function that `makecontext` enters.
pub data Entry : Type 0 where
  main_func caller_main_func : Entry

pub record Fiber : Type 0 where
  pub id : ℕ
  pub stack_size : ℕ
  pub state : State
  pub has_stack : Bool
  pub entry : Entry
  pub cb : Callback

pub record World : Type 0 where
  pub fibers : ℕ → Fiber
  pub context : ℕ → ℕ
  pub running : ℕ
  pub this : Option ℕ  -- t_fiber
  pub thread_fiber : Option ℕ  -- t_threadFiber
  pub scheduler_fiber : Option ℕ  -- t_scheduler_fiber
  pub fiber_id : ℕ  -- s_fiber_id
  pub fiber_count : ℕ  -- s_fiber_count

abbrev pub is_exec : State → Bool
is_exec exec = true
is_exec _ = false

abbrev pub is_term : State → Bool
is_term term = true
is_term _ = false

abbrev pub is_ready : State → Bool
is_ready ready = true
is_ready _ = false

abbrev pub is_except : State → Bool
is_except except = true
is_except _ = false

abbrev pub is_init : State → Bool
is_init init = true
is_init _ = false

-- The states in which a fiber's stack is not in use.
abbrev pub at_rest : State → Bool
at_rest s = is_term s || is_init s || is_except s

abbrev pub put {ℓ} : {A : Type ℓ} → (ℕ → A) → ℕ → A → ℕ → A
put f a v b = if b == a then v else f b

abbrev pub set_fiber : World → ℕ → Fiber → World
set_fiber w a f = record w { fibers = put w.fibers a f }

abbrev pub set_state : World → ℕ → State → World
set_state w a s = set_fiber w a (record (w.fibers a) { state = s })

-- `SetThis`.
abbrev pub set_this : Option ℕ → World → World
set_this f w = record w { this = f }

-- `GetFiberId`.
unfoldable pub get_fiber_id : World → ℕ
get_fiber_id w = elim w.this [ none ↦ 0 | some a ↦ (w.fibers a).id ]

-- `swapcontext(&x -> m_ctx, &y -> m_ctx)`.
unfoldable pub swap_context : ℕ → ℕ → World → World
swap_context x y w =
    let saved = put w.context x w.running in record w { context = saved; running = saved y }

-- The default constructor, for the fiber that a thread starts with: from here on the running code
-- is this fiber's.
unfoldable pub new_main_fiber : ℕ → World → World
new_main_fiber a w =
    let f : Fiber = record {
      id = 0;
      stack_size = 0;
      state = exec;
      has_stack = false;
      entry = main_func;
      cb = empty;
    } in
    record w {
      fibers = put w.fibers a f;
      context = put w.context a a;
      running = a;
      this = some a;
      fiber_count = add64 w.fiber_count 1;
    }

-- The constructor of a fiber with a function; `default_size` is what the configuration holds.
unfoldable pub new_fiber : ℕ → ℕ → Callback → ℕ → Bool → World → World
new_fiber default_size a cb stack_size use_caller w =
    let f : Fiber = record {
      id = add64 w.fiber_id 1;
      stack_size = if stack_size == 0 then default_size else stack_size;
      state = init;
      has_stack = true;
      entry = if not use_caller then main_func else caller_main_func;
      cb = cb;
    } in
    record w {
      fibers = put w.fibers a f;
      context = put w.context a a;
      fiber_id = add64 w.fiber_id 1;
      fiber_count = add64 w.fiber_count 1;
    }

-- The destructor; the memory is not modelled.
unfoldable pub destroy : ℕ → World → Outcome World
destroy a w =
    let f = w.fibers a in
    let w = record w { fiber_count = sub64 w.fiber_count 1 } in
    let forgotten : World = elim w.this [
      | none ↦ w
      | some t ↦ if t == a then set_this none w else w
    ] in
    if f.has_stack
    then require (at_rest f.state) >> ok w
    else require (not (is_set f.cb)) >> require (is_exec f.state) >> ok forgotten

unfoldable pub reset : ℕ → Callback → World → Outcome World
reset a cb w = do
  let f = w.fibers a
  require f.has_stack
  require (at_rest f.state)
  ok (record w {
    fibers = put w.fibers a (record f { cb = cb; entry = main_func; state = init });
    context = put w.context a a;
  })

-- A null pointer that the code dereferences.
abbrev pub deref : Option ℕ → Outcome ℕ
deref none = fault null_pointer
deref (some a) = ok a

unfoldable pub call : ℕ → World → Outcome World
unfolding swap_context
call a w = do
  let w = set_state (set_this (some a) w) a exec
  t ← deref w.thread_fiber
  ok (swap_context t a w)

unfoldable pub swap_in : ℕ → World → Outcome World
unfolding swap_context
swap_in a w = do
  let w = set_this (some a) w
  require (not (is_exec (w.fibers a).state))
  m ← deref w.scheduler_fiber
  ok (swap_context m a (set_state w a exec))

unfoldable pub back : ℕ → World → Outcome World
unfolding swap_context
back a w = do let w = set_this w.thread_fiber w; t ← deref w.thread_fiber; ok (swap_context a t w)

unfoldable pub swap_out : ℕ → World → Outcome World
unfolding swap_context
swap_out a w = do
  let w = set_this w.scheduler_fiber w
  m ← deref w.scheduler_fiber
  ok (swap_context a m w)

-- `GetThis`; `a` is the address that `new` returns if the thread has no fiber yet.
unfoldable pub get_this : ℕ → World → ℕ × World
unfolding new_main_fiber
get_this a w = elim w.this [
  | none ↦ (a, record (new_main_fiber a w) { thread_fiber = some a })
  | some t ↦ (t, w)
]

unfoldable pub yield_to_ready : ℕ → World → Outcome World
unfolding get_this swap_out
yield_to_ready a w = let (cur, w') = get_this a w in swap_out cur (set_state w' cur ready)

unfoldable pub yield_to_hold : ℕ → World → Outcome World
unfolding get_this swap_out
yield_to_hold a w = let (cur, w') = get_this a w in swap_out cur (set_state w' cur hold)

-- How the function of a fiber ends.
pub data Ending : Type 0 where
  returned threw : Ending

-- What follows the function's call in `MainFunc` and `CallerMainFunc`, up to the switch.
abbrev pub finish : Ending → Fiber → Fiber
finish returned f = record f { cb = empty; state = term }
finish threw f = record f { state = except }

-- `cur` is the fiber that `GetThis` gave at the start of the function.
unfoldable pub main_func_end : Ending → ℕ → World → Outcome World
unfolding swap_out
main_func_end e cur w = swap_out cur (set_fiber w cur (finish e (w.fibers cur)))

unfoldable pub caller_main_func_end : Ending → ℕ → World → Outcome World
unfolding back
caller_main_func_end e cur w = back cur (set_fiber w cur (finish e (w.fibers cur)))

-- `TotalFibel`.
unfoldable pub total_fibel : World → ℕ
total_fibel w = w.fiber_count
