-- ===== src/IoManager/Cancel.antt =====
-- `delEvent` and `cancelEvent` on every branch.
use collabor_ative_schedule.Base.{
  ℕ, ◌≡◌, refl, sym, ap, ◌∙◌, ◌⊎◌, inl, inr, Bool, true, false, not, ◌&&◌, [], ◌∷◌, ◌++◌, some,
  Bool-cases, lt→ltb, Outcome, ok, ◌>>=◌, ltb,
}
use collabor_ative_schedule.IoManager.{Events, minus, IoManager, Side, at_side, work_of}
use collabor_ative_schedule.IoManager.Removal.{
  del_event, cancel_event, remove_event, unregister, trigger_one,
}
use collabor_ative_schedule.IoManager.Invariant.{Inv}
use collabor_ative_schedule.IoManager.Trigger.{
  event_of, has, meets-event_of, unregister_ok, trigger_one_ok, epoll_ctl_ok,
}
use collabor_ative_schedule.IoManager.Removing.{
  told, dropped, Removes, agrees, inside, dropped-Removes, interest_some,
}
use mathlib.Core.List.{append-nil}

module _ (finish : ℕ → Events → IoManager → Outcome IoManager) (s : Side) (fd : ℕ) (io : IoManager)
    (inv : Inv io) where
  -- Without the event registered nothing is removed.
  pub remove_absent :
      (fails : Bool)
      → has s (io.contexts fd).events ≡ false
      → remove_event finish fails fd (event_of s) io ≡ ok (false, io)
  unfolding remove_event
  remove_absent fails h =
      rw (meets-event_of s (io.contexts fd).events, h)
        (elim (Bool-cases (ltb fd io.size)) [ inl e ↦ rw e refl | inr e ↦ rw e refl ])

  pub remove_refused :
      has s (io.contexts fd).events ≡ true
      → remove_event finish true fd (event_of s) io ≡ ok (false, io)
  unfolding remove_event
  remove_refused h =
      rw (meets-event_of s (io.contexts fd).events, h, lt→ltb _ _ (inside s fd io inv h)) refl

  pub remove_agreed :
      has s (io.contexts fd).events ≡ true
      → remove_event finish false fd (event_of s) io
        ≡ (finish fd (event_of s) (told s fd io) >>= λ io'. ok (true, io'))
  unfolding remove_event
  remove_agreed h =
      rw
        (
          meets-event_of s (io.contexts fd).events,
          h,
          lt→ltb _ _ (inside s fd io inv h),
          epoll_ctl_ok fd (io.contexts fd).events (minus (io.contexts fd).events (event_of s)) io
              (interest_some s fd io inv h),
        )
        refl

-- In a manager that satisfies the invariant, `delEvent` of READ or of WRITE, for any descriptor,
-- returns false and changes nothing when the event is not registered or the kernel
-- refuses; otherwise it returns true, the event is gone from the context and the kernel's list, the
-- pending counter goes down by one, nothing is scheduled, no other context changes, and the
-- invariant holds again. No assertion fails.
pub del_event_cases :
    (s : Side) (fails : Bool) (fd : ℕ) (io : IoManager)
    → Inv io
    → let r = del_event fails fd (event_of s) io in
      ((has s (io.contexts fd).events && not fails) ≡ false) × (r ≡ ok (false, io))
      ⊎ (io' : IoManager) × ((has s (io.contexts fd).events && not fails) ≡ true)
        × (r ≡ ok (true, io'))
        × Removes s fd io io' []
unfolding del_event dropped
del_event_cases s fails fd io inv = elim (Bool-cases (has s (io.contexts fd).events)) [
  | inr e ↦ inl (rw e refl, remove_absent unregister s fd io inv fails e)
  | inl e ↦ elim (Bool-cases fails) [
    | inl f ↦ inl (rw (e, f) refl, rw f (remove_refused unregister s fd io inv e))
    | inr f ↦ inr (
      record (dropped s fd io) { posted = io.posted ++ [] },
      rw (e, f) refl,
      rw f (
          remove_agreed unregister s fd io inv e
          ∙ ap (λ m. m >>= λ x. ok (true, x)) (unregister_ok s fd (told s fd io))
          ∙ ap (λ p. ok (true, record (dropped s fd io) { posted = p }))
              (sym (append-nil io.posted))),
      dropped-Removes s fd io inv e [],
    )
  ]
]

-- In a manager that satisfies the invariant, `cancelEvent` of READ or of WRITE, for any descriptor,
-- returns false and changes nothing when the event is not registered or the kernel refuses;
-- otherwise it returns true, hands the function or the fiber that waited for the event, once, to
-- the scheduler that the context names, the event is gone from the context and the kernel's list,
-- the pending counter goes down by one, no other context changes, and the invariant holds again. No
-- assertion fails.
pub cancel_event_cases :
    (s : Side) (fails : Bool) (fd : ℕ) (io : IoManager)
    → Inv io
    → let r = cancel_event fails fd (event_of s) io in
      let e = at_side s (io.contexts fd) in
      ((has s (io.contexts fd).events && not fails) ≡ false) × (r ≡ ok (false, io))
      ⊎ (k : ℕ) × (io' : IoManager) × ((has s (io.contexts fd).events && not fails) ≡ true)
        × (e.scheduler ≡ some k)
        × (r ≡ ok (true, io'))
        × Removes s fd io io' ((k, work_of e) ∷ [])
unfolding cancel_event dropped
cancel_event_cases s fails fd io inv = elim (Bool-cases (has s (io.contexts fd).events)) [
  | inr e ↦ inl (rw e refl, remove_absent trigger_one s fd io inv fails e)
  | inl e ↦ elim (Bool-cases fails) [
    | inl f ↦ inl (rw (e, f) refl, rw f (remove_refused trigger_one s fd io inv e))
    | inr f ↦
        let armed = agrees s (io.contexts fd) (inv.sides fd) e in
        let (k, named) = armed.0 in
        inr (
          k,
          record (dropped s fd io) {
            posted = io.posted ++ (k, work_of (at_side s (io.contexts fd))) ∷ [];
          },
          rw (e, f) refl,
          named,
          rw f (
              remove_agreed trigger_one s fd io inv e
              ∙ ap (λ m. m >>= λ x. ok (true, x))
                  (trigger_one_ok s fd k (told s fd io) e armed named)),
          dropped-Removes s fd io inv e _,
        )
  ]
]
