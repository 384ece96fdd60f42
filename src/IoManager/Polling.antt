-- ===== src/IoManager/Polling.antt =====
-- The loop of `idle`: how long it waits, and what it makes of a broken connection.
use collabor_ative_schedule.Base.{
  ℕ, ◌-◌, leb, ◌≡◌, refl, ap, ◌∙◌, Bool, true, false, [], none, some, if◌then◌else◌, arith, All,
  Outcome, ok, fault, assertion, ◌>>=◌,
}
use collabor_ative_schedule.Fiber.{put}
use collabor_ative_schedule.OrderedSet.{begin}
use collabor_ative_schedule.Scheduler.{Scheduler}
use collabor_ative_schedule.Timer.{Timer, TimerManager}
use collabor_ative_schedule.IoManager.{
  Events, read_event, write_event, minus, meets, nonzero, IoManager, Side, read_side, write_side,
  ctl_mod, ctl_del, epoll_ctl, trigger_event,
}
use collabor_ative_schedule.IoManager.Removal.{trigger_one}
use collabor_ative_schedule.IoManager.Idle.{
  descriptor, real_events, trigger_real, handle_descriptor, handle_event, ends_idle, waits, polls,
  clamp, Wait,
}
use collabor_ative_schedule.IoManager.Invariant.{Inv, watched}
use collabor_ative_schedule.IoManager.Trigger.{
  event_of, has, meets-event_of, without, post, trigger_one_ok, epoll_ctl_ok,
}
use collabor_ative_schedule.IoManager.Removing.{agrees, interest_some}

-- The wait for the deadline of a timer.
abbrev pub delay : ℕ → Timer → ℕ
delay now t = if leb t.next now then 0 else t.next - now

-- What a round of `idle` does: it polls, or ends, or waits for the deadline of the timer `t`.
pub data Decides (now' : ℕ) (stops : Bool) (timers timers' : TimerManager) (k : ℕ) (w : Wait)
    : Type 0 where
  polling :
      stops ≡ false
      → w ≡ waits 0
      → All (λ ms. ms ≡ 0) (polls k 0)
      → Decides now' stops timers timers' k w
  ending :
      stops ≡ true
      → timers.timers ≡ []
      → timers'.timers ≡ []
      → w ≡ ends_idle
      → Decides now' stops timers timers' k w
  sleeping :
      (t : ℕ)
      → stops ≡ true
      → timers.timers ≡ []
      → begin timers'.timers ≡ some t
      → w ≡ waits (delay now' (timers'.heap t))
      → All (λ ms. ms ≡ clamp (delay now' (timers'.heap t))) (polls k (delay now' (timers'.heap t)))
      → Decides now' stops timers timers' k w

-- Triggering an event that is not registered fails the assertion of `triggerEvent`.
trigger_absent :
    (s : Side) (fd : ℕ) (io : IoManager)
    → has s (io.contexts fd).events ≡ false
    → trigger_one fd (event_of s) io ≡ fault assertion
unfolding trigger_one trigger_event
trigger_absent s fd io h = rw (meets-event_of s (io.contexts fd).events, h) refl

abbrev both : Events
both = record { reads = true; writes = true }

broken_reports_both : (readable writable : Bool) → real_events readable writable true ≡ both
broken_reports_both true true = refl
broken_reports_both true false = refl
broken_reports_both false true = refl
broken_reports_both false false = refl

abbrev told_both : ℕ → IoManager → IoManager
told_both fd io = record io {
  interest = put io.interest fd (watched (minus (io.contexts fd).events both));
}

handle_both :
    (fd : ℕ) (io : IoManager)
    → Inv io
    → (s : Side) → has s (io.contexts fd).events ≡ true
    → handle_descriptor false fd both io
      ≡ (trigger_one fd read_event (told_both fd io) >>= trigger_one fd write_event)
unfolding handle_descriptor trigger_real
handle_both fd io inv s h = rw (meets_both s (io.contexts fd).events h) (
    ap
      (λ m. elim m as (λ _. Outcome IoManager) [
        | none ↦ ok io
        | some io₁ ↦ (trigger_one fd read_event io₁ >>= trigger_one fd write_event)
      ])
      agreed)
  where
    left : Events
    left = minus (io.contexts fd).events both

    agreed :
        epoll_ctl false (if nonzero left then ctl_mod else ctl_del) (io.contexts fd).fd left io
        ≡ some (told_both fd io)
    agreed =
        rw (inv.named fd)
          (epoll_ctl_ok fd (io.contexts fd).events left io (interest_some s fd io inv h))

    meets_both : (s : Side) (e : Events) → has s e ≡ true → meets e both ≡ true
    meets_both read_side e h = ground arith
    meets_both write_side e h = ground arith

-- In a manager that satisfies the invariant, an error or a hang-up on a descriptor of which only
-- one of READ and WRITE is registered makes `idle`, once the kernel has agreed, trigger both, and
-- the assertion in `triggerEvent` fails.
pub hangup_on_single_event_faults :
    (s : Side) (fd : ℕ) (readable writable : Bool) (io : IoManager)
    → Inv io
    → (io.contexts fd).events ≡ event_of s
    → handle_event false (descriptor fd readable writable true) io ≡ fault assertion
unfolding handle_event
hangup_on_single_event_faults s fd readable writable io inv e =
    ap (λ real. handle_descriptor false fd real io) (broken_reports_both readable writable) ∙ go s e
  where
    go :
        (s : Side)
        → (io.contexts fd).events ≡ event_of s
        → handle_descriptor false fd both io ≡ fault assertion
    go write_side e =
        handle_both fd io inv write_side (ap (has write_side) e)
        ∙ ap (λ m. m >>= trigger_one fd write_event)
            (trigger_absent read_side fd (told_both fd io) (ap (has read_side) e))
    go read_side e =
        let set = ap (has read_side) e in
        let armed = agrees read_side (io.contexts fd) (inv.sides fd) set in
        let (k, named) = armed.0 in
        let once = post k (io.contexts fd).read (without read_side fd (told_both fd io)) in
        handle_both fd io inv read_side set
        ∙ ap (λ m. m >>= trigger_one fd write_event)
            (trigger_one_ok read_side fd k (told_both fd io) set armed named)
        ∙ trigger_absent write_side fd once (ground (arith, e))
