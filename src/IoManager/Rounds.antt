-- ===== src/IoManager/Rounds.antt =====
-- The events that `epoll_wait` reports to `idle`, against `cancelEvent` and `cancelAll`.
use collabor_ative_schedule.Base.{
  ℕ, ◌≡◌, refl, sym, ap, ◌∙◌, inl, inr, Bool, true, false, subst, none, some, if◌then◌else◌, arith,
  Bool-cases, Outcome, ok, ◌>>=◌,
}
use collabor_ative_schedule.Fiber.{put}
use collabor_ative_schedule.IoManager.{
  Events, none_event, read_event, write_event, minus, meets, nonzero, IoManager, Side, read_side,
  write_side, ctl_mod, ctl_del, epoll_ctl,
}
use collabor_ative_schedule.IoManager.Removal.{cancel_event, cancel_all, remove_event, trigger_one}
use collabor_ative_schedule.IoManager.Idle.{trigger_real, handle_descriptor}
use collabor_ative_schedule.IoManager.Invariant.{Inv, Sides, watched}
use collabor_ative_schedule.IoManager.Trigger.{
  event_of, has, meets-event_of, trigger_one_ok, epoll_ctl_ok,
}
use collabor_ative_schedule.IoManager.Removing.{told, agrees, interest_some}
use collabor_ative_schedule.IoManager.Cancel.{remove_absent, remove_refused, remove_agreed}
use collabor_ative_schedule.IoManager.CancelAll.{
  emptied, cancel_all_ok, cancel_all_refused, registered-inside,
}
use collabor_ative_schedule.IoManager.Shots.{shot, shot_one, shot-here, drop-Sides, drop_other}

-- The manager without the result of the call.
abbrev pub state_of : Outcome (Bool × IoManager) → Outcome IoManager
state_of m = m >>= λ r. ok r.1

trigger_real_ok :
    (s : Side) (fd : ℕ) (io io' : IoManager)
    → trigger_one fd (event_of s) io ≡ ok io'
    → (trigger_real (event_of s) fd read_event io >>= trigger_real (event_of s) fd write_event)
      ≡ ok io'
unfolding trigger_real
trigger_real_ok read_side fd io io' t = rw t refl
trigger_real_ok write_side fd io io' t = t

module _ (fails : Bool) (fd : ℕ) (real : Events) (io : IoManager) (inv : Inv io) where
  handle_absent :
      meets (io.contexts fd).events real ≡ false → handle_descriptor fails fd real io ≡ ok io
  unfolding handle_descriptor
  handle_absent e = rw e refl

  handle_refused :
      meets (io.contexts fd).events real ≡ true
      → fails ≡ true
      → handle_descriptor fails fd real io ≡ ok io
  unfolding handle_descriptor
  handle_refused e f = rw (e, f) refl

  handle_agreed :
      meets (io.contexts fd).events real ≡ true
      → io.interest fd ≡ some (io.contexts fd).events
      → fails ≡ false
      → let io₁ = record io {
        interest = put io.interest fd (watched (minus (io.contexts fd).events real));
      } in
        handle_descriptor fails fd real io
        ≡ (trigger_real real fd read_event io₁ >>= trigger_real real fd write_event)
  unfolding handle_descriptor
  handle_agreed e known f =
      let left = minus (io.contexts fd).events real in
      let agreed : epoll_ctl false (if nonzero left then ctl_mod else ctl_del) (io.contexts fd).fd
            left io
          ≡ some (record io { interest = put io.interest fd (watched left) }) =
        rw (inv.named fd) (epoll_ctl_ok fd (io.contexts fd).events left io known) in
      rw (e, f)
        (ap
          (λ m. elim m as (λ _. Outcome IoManager) [
            | none ↦ ok io
            | some io₁ ↦ (trigger_real real fd read_event io₁ >>= trigger_real real fd write_event)
          ])
          agreed)

-- An event that is reported alone is handled as `cancelEvent` cancels it.
handle_one :
    (s : Side) (fails : Bool) (fd : ℕ) (io : IoManager)
    → Inv io
    → handle_descriptor fails fd (event_of s) io ≡ state_of (cancel_event fails fd (event_of s) io)
unfolding cancel_event
handle_one s fails fd io inv =
    let c = io.contexts fd in
    let meets_event = meets-event_of s c.events in
    elim (Bool-cases (has s c.events)) [
      | inr e ↦
          handle_absent fails fd (event_of s) io inv (meets_event ∙ e)
          ∙ sym (ap state_of (remove_absent trigger_one s fd io inv fails e))
      | inl e ↦ elim (Bool-cases fails) [
        | inl f ↦
            handle_refused fails fd (event_of s) io inv (meets_event ∙ e) f
            ∙ sym (
                ap (λ b. state_of (remove_event trigger_one b fd (event_of s) io)) f
                ∙ ap state_of (remove_refused trigger_one s fd io inv e))
        | inr f ↦
            let (k, named) = (agrees s c (inv.sides fd) e).0 in
            let done = trigger_one_ok s fd k (told s fd io) e (agrees s c (inv.sides fd) e) named in
            handle_agreed fails fd (event_of s) io inv (meets_event ∙ e)
              (interest_some s fd io inv e) f
            ∙ trigger_real_ok s fd (told s fd io) _ done
            ∙ sym (
                ap (λ b. state_of (remove_event trigger_one b fd (event_of s) io)) f
                ∙ ap state_of (
                    remove_agreed trigger_one s fd io inv e
                    ∙ ap (λ m. m >>= λ io'. ok (true, io')) done))
      ]
    ]

abbrev both : Events
both = record { reads = true; writes = true }

-- Both events, where both are registered, are handled as `cancelAll` cancels them.
handle_both_registered :
    (fails : Bool) (fd : ℕ) (io : IoManager)
    → Inv io
    → (io.contexts fd).events ≡ both
    → handle_descriptor fails fd both io ≡ state_of (cancel_all fails fd io)
unfolding trigger_real emptied
handle_both_registered fails fd io inv e =
    let c = io.contexts fd in
    let any : nonzero c.events ≡ true = ap nonzero e in
    let met : meets c.events both ≡ true = ap (λ x. meets x both) e in
    let l = registered-inside fd io inv any in
    elim (Bool-cases fails) [
      | inl f ↦
          handle_refused fails fd both io inv met f
          ∙ sym (
              ap (λ b. state_of (cancel_all b fd io)) f
              ∙ ap state_of (cancel_all_refused fd io inv any))
      | inr f ↦
          let io₁ = record io { interest = put io.interest fd none } in
          let at₁ = shot-here read_side fd io₁ in
          let first = shot_one read_side fd io₁ (inv.sides fd) (ap (λ x. x.reads) e) in
          let second =
            shot_one write_side fd (shot read_side fd io₁)
              (subst Sides (sym at₁) (drop-Sides read_side c (inv.sides fd)))
              (ap (λ x. x.events.writes) at₁ ∙ drop_other c ∙ ap (λ x. x.writes) e) in
          handle_agreed fails fd both io inv met (inv.kernel fd ∙ ap watched e ∙ ap some (sym e)) f
          ∙ ap
              (λ x.
                trigger_one fd read_event
                  (record io { interest = put io.interest fd (watched (minus x both)) })
                >>= trigger_one fd write_event)
              e
          ∙ ap (λ m. m >>= trigger_one fd write_event) first
          ∙ second
          ∙ sym (
              ap (λ b. state_of (cancel_all b fd io)) f
              ∙ ap state_of (cancel_all_ok fd io inv l any))
    ]

-- What the kernel reports: only events that are registered, of READ, of WRITE or of both.
abbrev pub cancel_reported : Bool → ℕ → Events → IoManager → Outcome (Bool × IoManager)
cancel_reported fails fd real io =
    if real.reads
    then if real.writes then cancel_all fails fd io else cancel_event fails fd read_event io
    else if real.writes
    then cancel_event fails fd write_event io
    else ok (false, io)

-- In a manager that satisfies the invariant, for reported events that are all registered, with the
-- same answer of the kernel: the loop of `idle` handles a descriptor exactly as `cancelAll` does
-- when both events are reported, as `cancelEvent` does when one is, and changes nothing when none
-- is, faults included.
pub handle_descriptor-eq-cancel :
    (fails : Bool) (fd : ℕ) (real : Events) (io : IoManager)
    → Inv io
    → (real.reads ≡ true → (io.contexts fd).events.reads ≡ true)
    → (real.writes ≡ true → (io.contexts fd).events.writes ≡ true)
    → handle_descriptor fails fd real io ≡ state_of (cancel_reported fails fd real io)
handle_descriptor-eq-cancel fails fd real io inv r w = elim (Bool-cases real.reads) [
  | inl e ↦ elim (Bool-cases real.writes) [
    | inl f ↦ rw (pair real true true e f) (
        handle_both_registered fails fd io inv (pair (io.contexts fd).events true true (r e) (w f)))
    | inr f ↦ rw (pair real true false e f) (handle_one read_side fails fd io inv)
  ]
  | inr e ↦ elim (Bool-cases real.writes) [
    | inl f ↦ rw (pair real false true e f) (handle_one write_side fails fd io inv)
    | inr f ↦
        rw (pair real false false e f) (handle_absent fails fd none_event io inv (ground arith))
  ]
]
  where
    pair :
        (x : Events) (a b : Bool)
        → x.reads ≡ a
        → x.writes ≡ b
        → x ≡ record { reads = a; writes = b }
    pair x a b p q = ground arith
