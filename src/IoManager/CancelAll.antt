-- ===== src/IoManager/CancelAll.antt =====
-- `cancelAll` on every branch.
use mathlib.Core.List.{append_assoc}
use collabor_ative_schedule.Base.{
  ℕ, ◌+◌, ◌<◌, ◌≤◌, ◌≡◌, refl, sym, ap, ◌∙◌, ◌⊎◌, inl, inr, Bool, true, false, not, ◌&&◌, subst,
  List, ◌++◌, none, some, arith, Bool-cases, lt→ltb, ok, ◌==◌, ltb,
}
use collabor_ative_schedule.Fiber.{put}
use collabor_ative_schedule.Scheduler.{Work}
use collabor_ative_schedule.IoManager.{
  nonzero, FdContext, new_context, IoManager, read_side, write_side,
}
use collabor_ative_schedule.IoManager.Removal.{cancel_all}
use collabor_ative_schedule.IoManager.Invariant.{
  Inv, Sides, watched, weight, Changes, Changes-Inv, pending-lt, le-sum_below,
}
use collabor_ative_schedule.IoManager.Growth.{new_context-Sides}
use collabor_ative_schedule.IoManager.Removing.{inside, put_self, put_other}
use collabor_ative_schedule.IoManager.Shots.{
  handed, shot, drop, shot_ok, shot-here, shot-other, shot_fields, shot-pending, drop-Sides,
  drop-weight, handed-drop, drop_both,
}

-- The manager after `cancelAll`, when the kernel has dropped the descriptor.
unfoldable pub emptied : ℕ → IoManager → IoManager
emptied fd io =
    shot write_side fd (shot read_side fd (record io { interest = put io.interest fd none }))

-- What waits for a descriptor's events.
abbrev pub waiting : FdContext → List (ℕ × Work)
waiting c = handed read_side c ++ handed write_side c

-- What `cancelAll` brings about where it succeeds.
pub record Clears (fd : ℕ) (io io' : IoManager) : Type 0 where
  pub valid : Inv io'
  pub here : io'.contexts fd ≡ new_context fd
  pub others : (i : ℕ) → (i == fd) ≡ false → io'.contexts i ≡ io.contexts i
  pub pending : io'.pending + weight (io.contexts fd) ≡ io.pending
  pub posted : io'.posted ≡ io.posted ++ waiting (io.contexts fd)

module _ (fd : ℕ) (io : IoManager) (inv : Inv io) (inside : fd < io.size) where
  pub emptied-Clears : Clears fd io (emptied fd io)
  unfolding emptied
  emptied-Clears =
      let c = io.contexts fd in
      let io₁ = record io { interest = put io.interest fd none } in
      let io₂ = shot read_side fd io₁ in
      let a = inv.sides fd in
      let at₁ = shot-here read_side fd io₁ in
      let at : (shot write_side fd io₂).contexts fd ≡ new_context fd =
        shot-here write_side fd io₂
        ∙ ap (drop write_side) at₁
        ∙ drop_both c a
        ∙ ap new_context (inv.named fd) in
      let f₁ = shot_fields read_side fd io₁ in
      let f₂ = shot_fields write_side fd io₂ in
      let small = pending-lt io inv in
      let covered : weight c ≤ io.pending =
        omega (arith, inv.counted, le-sum_below (λ i. weight (io.contexts i)) fd io.size inside) in
      let p₁ = shot-pending read_side fd io₁ covered (omega (arith, small)) in
      let w₁ = ap weight at₁ in
      let p₂ =
        shot-pending write_side fd io₂ (omega (arith, p₁, w₁))
          (omega (arith, p₁, w₁, small, covered, drop-weight read_side c)) in
      let rest = ap weight (shot-here write_side fd io₂) in
      let count : (shot write_side fd io₂).pending + weight c ≡ io.pending =
        omega (arith, p₁, w₁, p₂, rest, ap weight at) in
      let others = λ (i : ℕ) (n : (i == fd) ≡ false).
        shot-other write_side fd io₂ i n ∙ shot-other read_side fd io₁ i n in
      let same : (shot write_side fd io₂).interest ≡ put io.interest fd none = f₂.0 ∙ f₁.0 in
      let changes : Changes fd io (shot write_side fd io₂) = record {
        inside = inside;
        sides = subst Sides (sym at) (new_context-Sides fd);
        kernel =
            ap (λ k. k fd) same
            ∙ put_self io.interest fd none
            ∙ sym (ap (λ x. watched x.events) at);
        named = ap (λ x. x.fd) at;
        others = others;
        others_kernel = λ i n. ap (λ k. k i) same ∙ put_other io.interest fd i none n;
        counted = omega (arith, count, ap weight at);
        size = f₂.1 ∙ f₁.1;
      } in
      record {
        valid = Changes-Inv fd io (shot write_side fd io₂) changes inv;
        here = at;
        others = others;
        pending = count;
        posted =
            f₂.2
            ∙ ap (λ p. p ++ handed write_side (io₂.contexts fd)) f₁.2
            ∙ ap (λ d. (io.posted ++ handed read_side c) ++ handed write_side d) at₁
            ∙ ap (λ h. (io.posted ++ handed read_side c) ++ h) (handed-drop c)
            ∙ append_assoc io.posted (handed read_side c) (handed write_side c);
      }

  -- The assertion at the end of `cancelAll` holds.
  pub cancel_all_ok :
      nonzero (io.contexts fd).events ≡ true → cancel_all false fd io ≡ ok (true, emptied fd io)
  unfolding cancel_all emptied
  cancel_all_ok h =
      let io₁ = record io { interest = put io.interest fd none } in
      let io₂ = shot read_side fd io₁ in
      let io₃ = shot write_side fd io₂ in
      let a = inv.sides fd in
      let at₁ = shot-here read_side fd io₁ in
      let clean : nonzero (io₃.contexts fd).events ≡ false =
        ap (λ c. nonzero c.events) emptied-Clears.here in
      let known : io.interest fd ≡ some (io.contexts fd).events = inv.kernel fd ∙ rw h refl in
      rw
        (
          lt→ltb _ _ inside,
          h,
          known,
          shot_ok read_side fd io₁ a,
          shot_ok write_side fd io₂
              (subst Sides (sym at₁) (drop-Sides read_side (io.contexts fd) a)),
          clean,
        )
        refl

pub registered-inside :
    (fd : ℕ) (io : IoManager) → Inv io → nonzero (io.contexts fd).events ≡ true → fd < io.size
registered-inside fd io inv e = elim (Bool-cases (io.contexts fd).events.reads) [
  | inl r ↦ inside read_side fd io inv r
  | inr r ↦ inside write_side fd io inv (ground (arith, e, r))
]

pub cancel_all_refused :
    (fd : ℕ) (io : IoManager)
    → Inv io
    → nonzero (io.contexts fd).events ≡ true
    → cancel_all true fd io ≡ ok (false, io)
unfolding cancel_all
cancel_all_refused fd io inv e = rw (lt→ltb _ _ (registered-inside fd io inv e), e) refl

-- In a manager that satisfies the invariant, `cancelAll` of any descriptor returns false and
-- changes nothing when no event is registered or the kernel refuses; otherwise it returns true, the
-- context is as it was made, what waited for READ and then what waited for WRITE is handed, once,
-- to the scheduler that its context names, the pending counter goes down by the number of the
-- events, no other context changes, and the invariant holds again. No assertion fails.
pub cancel_all_cases :
    (fails : Bool) (fd : ℕ) (io : IoManager)
    → Inv io
    → let r = cancel_all fails fd io in
      let active = nonzero (io.contexts fd).events && not fails in
      (active ≡ false) × (r ≡ ok (false, io))
      ⊎ (io' : IoManager) × (active ≡ true) × (r ≡ ok (true, io')) × Clears fd io io'
unfolding cancel_all
cancel_all_cases fails fd io inv = elim (Bool-cases (nonzero (io.contexts fd).events)) [
  | inr e ↦ inl (
    rw e refl,
    rw e (elim (Bool-cases (ltb fd io.size)) [ inl l ↦ rw l refl | inr l ↦ rw l refl ]),
  )
  | inl e ↦
      let l = registered-inside fd io inv e in
      elim (Bool-cases fails) [
        | inl f ↦ inl (rw (e, f) refl, rw f (cancel_all_refused fd io inv e))
        | inr f ↦ inr (
          emptied fd io,
          rw (e, f) refl,
          rw f (cancel_all_ok fd io inv l e),
          emptied-Clears fd io inv l,
        )
      ]
]
