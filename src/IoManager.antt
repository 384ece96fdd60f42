-- ===== src/IoManager.antt =====
-- hps_sf/iomanager.h and hps_sf/iomanager.cpp: the events of file descriptors. `epoll_ctl` is the
-- kernel's: whether it fails is an argument of each call, and when it succeeds the kernel's
-- interest list changes as its manual says. The vector of contexts is a function with a size.
pub mod Tests
pub mod Invariant
pub mod Growth
pub mod Trigger
pub mod Removing
pub mod Adding
pub mod CancelAll
pub mod Shots
pub mod Rounds
pub mod Round
pub mod Starving
pub mod Handling
pub mod Reachable
pub mod Cancel
pub mod Polling
pub mod Removal
pub mod Idle
use mathlib.Core.Option
use collabor_ative_schedule.Base.{
  ℕ, ◌+◌, ◌*◌, ◌/◌, Bool, true, false, not, ◌&&◌, ◌||◌, List, [], ◌∷◌, ◌++◌, Option, none, some,
  ltb, ◌==◌, if◌then◌else◌, add64, sub64, Outcome, ok, fault, assertion, null_pointer, ◌>>=◌, ◌>>◌,
  require,
}
use collabor_ative_schedule.Callback.{Callback, empty, is_set}
use collabor_ative_schedule.Fiber.{State, is_exec, deref, put}
use collabor_ative_schedule.Scheduler.{Work, fiber, callback, is_some}

-- A mask of `hps_Event`, by its two bits: READ (0x1) and WRITE (0x4).
pub record Events : Type 0 where
  pub reads : Bool
  pub writes : Bool

abbrev pub none_event : Events
none_event = record { reads = false; writes = false }

abbrev pub read_event : Events
read_event = record { reads = true; writes = false }

abbrev pub write_event : Events
write_event = record { reads = false; writes = true }

-- `a & b`, as a test.
abbrev pub meets : Events → Events → Bool
meets a b = a.reads && b.reads || a.writes && b.writes

-- `a | b`.
abbrev pub union : Events → Events → Events
union a b = record { reads = a.reads || b.reads; writes = a.writes || b.writes }

-- `a & ~b`.
abbrev pub minus : Events → Events → Events
minus a b = record { reads = a.reads && not b.reads; writes = a.writes && not b.writes }

-- A mask as a condition.
abbrev pub nonzero : Events → Bool
nonzero a = a.reads || a.writes

-- `hps_EventContext`; a scheduler is named by a number.
pub record EventContext : Type 0 where
  pub scheduler : Option ℕ
  pub fiber : Option ℕ
  pub cb : Callback

abbrev pub no_context : EventContext
no_context = record { scheduler = none; fiber = none; cb = empty }

-- `hps_FdContext`.
pub record FdContext : Type 0 where
  pub read : EventContext
  pub write : EventContext
  pub fd : ℕ
  pub events : Events

abbrev pub new_context : ℕ → FdContext
new_context i = record { read = no_context; write = no_context; fd = i; events = none_event }

-- `posted` is the list of the calls of `schedule` on the schedulers, the latest last; `interest` is
-- what the kernel watches of each descriptor.
pub record IoManager : Type 0 where
  pub contexts : ℕ → FdContext
  pub size : ℕ
  pub pending : ℕ
  pub interest : ℕ → Option Events
  pub posted : List (ℕ × Work)

pub data Op : Type 0 where
  ctl_add ctl_mod ctl_del : Op

-- What `epoll_ctl` makes of a descriptor's entry; `none` is its error (EEXIST, ENOENT).
abbrev pub ctl_entry : Op → Events → Option Events → Option (Option Events)
ctl_entry ctl_add mask none = some (some mask)
ctl_entry ctl_add mask (some old) = none
ctl_entry ctl_mod mask none = none
ctl_entry ctl_mod mask (some old) = some (some mask)
ctl_entry ctl_del mask none = none
ctl_entry ctl_del mask (some old) = some none

-- `epoll_ctl`; `fails` stands for the errors that do not depend on the entry.
abbrev pub epoll_ctl : Bool → Op → ℕ → Events → IoManager → Option IoManager
epoll_ctl true op fd mask io = none
epoll_ctl false op fd mask io =
    Option.map (λ e. record io { interest = put io.interest fd e })
      (ctl_entry op mask (io.interest fd))

-- Which context `getContext` returns.
pub data Side : Type 0 where
  read_side write_side : Side

unfoldable pub get_context : Events → Outcome Side
get_context e = elim e.reads [
  | true ↦ if e.writes then fault assertion else ok read_side
  | false ↦ if e.writes then ok write_side else fault assertion
]

abbrev pub at_side : Side → FdContext → EventContext
at_side read_side c = c.read
at_side write_side c = c.write

abbrev pub set_side : Side → EventContext → FdContext → FdContext
set_side read_side e c = record c { read = e }
set_side write_side e c = record c { write = e }

abbrev pub set_context : ℕ → FdContext → IoManager → IoManager
set_context fd c io = record io { contexts = put io.contexts fd c }

-- What the context asks its scheduler to run.
abbrev pub work_of : EventContext → Work
work_of e = if is_set e.cb then callback e.cb else fiber e.fiber

-- The context after `schedule` has swapped the function or the fiber out.
abbrev pub swapped_out : EventContext → EventContext
swapped_out e = if is_set e.cb then record e { cb = empty } else record e { fiber = none }

-- `triggerEvent` on the context of `fd`, once its side and its scheduler `s` are known.
unfoldable pub triggered : Side → ℕ → Events → ℕ → IoManager → IoManager
triggered side s event fd io =
    let c = io.contexts fd in
    let e = at_side side c in
    let c' = set_side side (record (swapped_out e) { scheduler = none }) c in
    record io {
      contexts = put io.contexts fd (record c' { events = minus c.events event });
      posted = io.posted ++ (s, work_of e) ∷ [];
    }

unfoldable pub trigger_event : ℕ → Events → IoManager → Outcome IoManager
trigger_event fd event io = do
  let c = io.contexts fd
  require (meets c.events event)
  side ← get_context event
  s ← deref (at_side side c).scheduler
  ok (triggered side s event fd io)

-- `contextResize`, for a size that is an `int`.
unfoldable pub context_resize : ℕ → IoManager → IoManager
context_resize size io = record io {
  size = size;
  contexts = λ i. if ltb i size && ltb i io.size then io.contexts i else new_context i;
}

-- The constructor's state, with the pipe that wakes the workers left out.
unfoldable pub new_io_manager : IoManager
unfolding context_resize
new_io_manager =
    context_resize 32
      (record { contexts = new_context; size = 0; pending = 0; interest = λ fd. none; posted = [] })

-- The context of `fd` in `addEvent`, which grows the vector where it is too short.
unfoldable pub ensure_context : ℕ → IoManager → IoManager
unfolding context_resize
ensure_context fd io = if ltb fd io.size then io else context_resize (fd * 3 / 2) io

-- The end of `addEvent`, after the kernel has agreed. `this` is the thread's scheduler, `cur` its
-- fiber, in state `state`.
unfoldable pub register :
    ℕ → Events → Callback → Option ℕ → ℕ → State → IoManager → Outcome IoManager
unfolding get_context
register fd event cb this cur state io = do
  let c = io.contexts fd
  let io₁ = record io { pending = add64 io.pending 1 }
  side ← get_context event
  let e = at_side side c
  require (not (is_some e.scheduler) && not (is_some e.fiber) && not (is_set e.cb))
  require (is_set cb || is_exec state)
  let e' = record e {
    scheduler = this;
    fiber = if is_set cb then e.fiber else some cur;
    cb = if is_set cb then cb else e.cb;
  }
  ok (set_context fd (record (set_side side e' c) { events = union c.events event }) io₁)

-- `addEvent`; `true` is 0 and `false` is -1.
unfoldable pub add_event :
    Bool → ℕ → Events → Callback → Option ℕ → ℕ → State → IoManager → Outcome (Bool × IoManager)
unfolding ensure_context register
add_event fails fd event cb this cur state io =
    let io₀ = ensure_context fd io in
    let events = (io₀.contexts fd).events in
    let op = if nonzero events then ctl_mod else ctl_add in
    require (not (meets events event)) >> elim (epoll_ctl fails op fd (union events event) io₀) [
      | none ↦ ok (false, io₀)
      | some io₁ ↦ (register fd event cb this cur state io₁ >>= λ io₂. ok (true, io₂))
    ]
