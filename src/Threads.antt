-- ===== src/Threads.antt =====
-- hps_sf/thread.cpp: semaphores, threads and their names. pthread's and semaphore's calls are taken
-- at their documentation; whether they fail is an argument. `none` is the id -1 and the handle 0.
pub mod Tests
pub mod Starting
pub mod Ending
use collabor_ative_schedule.Base.{
  ℕ, zero, suc, ◌+◌, Bool, true, false, List, [], ◌∷◌, Option, none, some, if◌then◌else◌, Outcome,
  ok, fault, logic_error, ◌>>=◌, Str,
}
use collabor_ative_schedule.Callback.{Callback, empty}
use collabor_ative_schedule.Fiber.{put}

-- The constructor of a semaphore, and its default argument.
unfoldable pub new_semaphore : Bool → ℕ → Outcome ℕ
new_semaphore fails count = if fails then fault logic_error else ok count

abbrev pub default_count : ℕ
default_count = 1

-- `wait`; `none` is a wait that does not end yet.
unfoldable pub wait : Bool → ℕ → Option (Outcome ℕ)
wait true count = some (fault logic_error)
wait false zero = none
wait false (suc count) = some (ok count)

unfoldable pub notify : Bool → ℕ → Outcome ℕ
notify fails count = if fails then fault logic_error else ok (count + 1)

-- `hps_Thread`; `permits` is what its semaphore counts.
pub record Thread : Type 0 where
  pub id : Option ℕ
  pub handle : Option ℕ
  pub cb : Callback
  pub name : Str
  pub permits : ℕ

-- The variables of a thread: `t_thread`, an address, and `t_thread_name`.
pub record Local : Type 0 where
  pub this : Option ℕ
  pub name : Str

-- "UNKNOW".
abbrev pub unknown : Str
unknown = 85 ∷ 78 ∷ 75 ∷ 78 ∷ 79 ∷ 87 ∷ []

abbrev pub or_unknown : Str → Str
or_unknown [] = unknown
or_unknown (c ∷ s) = c ∷ s

-- The constructor up to its wait; `created` is the handle that `pthread_create` gives.
unfoldable pub new_thread : Option ℕ → Callback → Str → ℕ → Outcome Thread
new_thread created cb name count = elim created [
  | none ↦ fault logic_error
  | some h ↦
      ok (record { id = none; handle = some h; cb = cb; name = or_unknown name; permits = count })
]

-- `run` up to its function, on the thread with the id `tid`, for the object at `a`: the object and
-- the variables of the thread.
unfoldable pub identify : ℕ → ℕ → Thread → Thread × Local
identify tid a t = (record t { id = some tid }, record { this = some a; name = t.name })

-- `cb.swap(thread -> m_cb)`: the object, and the function that was swapped out.
unfoldable pub take_function : Thread → Thread × Callback
take_function t = (record t { cb = empty }, t.cb)

-- `GetThis` and `GetName`.
unfoldable pub get_this : Local → Option ℕ
get_this l = l.this

unfoldable pub get_name : Local → Str
get_name l = l.name

-- `SetName`, on the objects.
unfoldable pub set_name : Str → (ℕ → Thread) → Local → (ℕ → Thread) × Local
set_name [] threads l = (threads, l)
set_name (c ∷ s) threads l = (
  elim l.this [ none ↦ threads | some a ↦ put threads a (record (threads a) { name = c ∷ s }) ],
  record l { name = c ∷ s },
)

-- `join`; the flag says whether `pthread_join` was called.
unfoldable pub join : Bool → Thread → Outcome (Bool × Thread)
join fails t = elim t.handle [
  | none ↦ ok (false, t)
  | some h ↦ if fails then fault logic_error else ok (true, record t { handle = none })
]

-- The destructor: whether it detaches the thread.
unfoldable pub destroy : Thread → Bool
destroy t = elim t.handle [ none ↦ false | some h ↦ true ]
