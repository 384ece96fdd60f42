-- ===== src/IoManager/Removal.antt =====
-- `delEvent`, `cancelEvent` and `cancelAll` of hps_sf/iomanager.cpp.
use collabor_ative_schedule.Base.{
  ℕ, Bool, true, false, not, none, some, ltb, if◌then◌else◌, sub64, Outcome, ok, ◌>>=◌, ◌>>◌,
  require,
}
use collabor_ative_schedule.IoManager.{
  Events, none_event, read_event, write_event, meets, minus, nonzero, no_context, IoManager,
  ctl_mod, ctl_del, epoll_ctl, get_context, set_side, set_context, trigger_event,
}

-- What `delEvent` does once the kernel has agreed: the context is reset.
unfoldable pub unregister : ℕ → Events → IoManager → Outcome IoManager
unfolding get_context
unregister fd event io = do
  let c = io.contexts fd
  side ← get_context event
  ok (
      set_context fd (record (set_side side no_context c) { events = minus c.events event })
        (record io { pending = sub64 io.pending 1 }))

-- What `cancelEvent` does once the kernel has agreed: the event is triggered.
unfoldable pub trigger_one : ℕ → Events → IoManager → Outcome IoManager
trigger_one fd event io = do
  io' ← trigger_event fd event io
  ok (record io' { pending = sub64 io'.pending 1 })

-- The common part of `delEvent` and `cancelEvent`.
unfoldable pub remove_event :
    (ℕ → Events → IoManager → Outcome IoManager)
    → Bool
    → ℕ
    → Events
    → IoManager
    → Outcome (Bool × IoManager)
remove_event finish fails fd event io =
    let events = (io.contexts fd).events in
    let left = minus events event in
    let op = if nonzero left then ctl_mod else ctl_del in
    if not (ltb fd io.size)
    then ok (false, io)
    else if not (meets events event)
    then ok (false, io)
    else elim (epoll_ctl fails op fd left io) [
      | none ↦ ok (false, io)
      | some io' ↦ (finish fd event io' >>= λ io''. ok (true, io''))
    ]

unfoldable pub del_event : Bool → ℕ → Events → IoManager → Outcome (Bool × IoManager)
unfolding remove_event unregister
del_event = remove_event unregister

unfoldable pub cancel_event : Bool → ℕ → Events → IoManager → Outcome (Bool × IoManager)
unfolding remove_event trigger_one
cancel_event = remove_event trigger_one

-- `if (events & event) { triggerEvent(event); m_pendingEventCount --; }`.
unfoldable pub trigger_if : ℕ → Events → IoManager → Outcome IoManager
unfolding trigger_one
trigger_if fd event io =
    if meets (io.contexts fd).events event then trigger_one fd event io else ok io

unfoldable pub cancel_all : Bool → ℕ → IoManager → Outcome (Bool × IoManager)
unfolding trigger_if
cancel_all fails fd io =
    if not (ltb fd io.size)
    then ok (false, io)
    else if not (nonzero (io.contexts fd).events)
    then ok (false, io)
    else elim (epoll_ctl fails ctl_del fd none_event io) [
      | none ↦ ok (false, io)
      | some io₁ ↦ do
        io₂ ← trigger_if fd read_event io₁
        io₃ ← trigger_if fd write_event io₂
        require (not (nonzero (io₃.contexts fd).events))
        ok (true, io₃)
    ]
