-- ===== src/IoManager/Growth.antt =====
-- The vector of contexts: its first size, its growth in `addEvent`, and what a resize by two
-- threads at once does to it.
use collabor_ative_schedule.Base.{
  ℕ, ◌-◌, ◌*◌, ◌/◌, ◌^◌, ◌<◌, ◌≤◌, ◌≡◌, refl, sym, ap, ◌∙◌, inl, inr, none, ltb, ◌==◌,
  if◌then◌else◌, arith, Bool-cases, subst,
}
use collabor_ative_schedule.IoManager.{
  FdContext, new_context, IoManager, new_io_manager, context_resize, ensure_context,
}
use collabor_ative_schedule.IoManager.Invariant.{
  Inv, Sides, watched, weight, sum_below-grow, sum_below-agree, sum_below-zero,
}

pub new_context-Sides : (i : ℕ) → Sides (new_context i)
new_context-Sides i = record {
  read = record { off = λ _. refl; on = λ e. cc };
  write = record { off = λ _. refl; on = λ e. cc };
}

-- A resize to more keeps every context, the old ones and those that are not yet in the vector.
resize_keeps :
    (n : ℕ) (io : IoManager)
    → Inv io
    → io.size ≤ n
    → (i : ℕ) → (context_resize n io).contexts i ≡ io.contexts i
unfolding context_resize
resize_keeps n io inv l i = elim (Bool-cases (ltb i io.size)) [
  | inl e ↦ ground (arith, e)
  | inr e ↦ ground (arith, e, inv.beyond i (ground (arith, e)))
]

resize_fields :
    (n : ℕ) (io : IoManager)
    → let io' = context_resize n io in
      (io'.size ≡ n) × (io'.pending ≡ io.pending) × (io'.interest ≡ io.interest)
unfolding context_resize
resize_fields n io = (refl, refl, refl)

grow-Inv : (n : ℕ) (io : IoManager) → Inv io → io.size ≤ n → n < 2 ^ 32 → Inv (context_resize n io)
grow-Inv n io inv l small =
    let same = resize_keeps n io inv l in
    let fields = resize_fields n io in
    record {
      sides = λ i. subst Sides (sym (same i)) (inv.sides i);
      kernel =
          λ i. ap (λ f. f i) fields.2 ∙ inv.kernel i ∙ ap (λ x. watched x.events) (sym (same i));
      named = λ i. ap (λ x. x.fd) (same i) ∙ inv.named i;
      counted =
          rw (fields.0, fields.1)
            (inv.counted
              ∙ sym (
                  sum_below-agree (λ i. weight (io.contexts i))
                    (λ i. weight ((context_resize n io).contexts i)) n (λ i _. ap weight (same i))
                  ∙ sum_below-grow (λ i. weight (io.contexts i)) io.size (n - io.size)
                      (λ i k. ap weight (inv.beyond i k)) n (omega arith)));
      beyond = λ i k. same i ∙ inv.beyond i (omega (arith, fields.0));
      grown = omega (arith, fields.0, inv.grown);
      small = omega (arith, fields.0);
    }

-- In a manager that satisfies the invariant, for a descriptor of which 1.5 times is an `int`,
-- `addEvent` finds or makes a context: the invariant stays, the descriptor is inside the vector,
-- and no context changes.
pub ensure_context-Inv :
    (fd : ℕ) (io : IoManager)
    → fd * 3 / 2 < 2 ^ 31
    → Inv io
    → Inv (ensure_context fd io)
      × (fd < (ensure_context fd io).size)
      × ((i : ℕ) → (ensure_context fd io).contexts i ≡ io.contexts i)
unfolding ensure_context
ensure_context-Inv fd io l inv = elim (Bool-cases (ltb fd io.size)) [
  | inl e ↦ rw e (inv, ground (arith, e), λ i. refl)
  | inr e ↦
      let n = fd * 3 / 2 in
      let long : io.size ≤ fd = ground (arith, e) in
      let more : io.size ≤ n = omega (arith, inv.grown) in
      rw e (
        grow-Inv n io inv more (omega arith),
        omega (arith, (resize_fields n io).0, inv.grown),
        resize_keeps n io inv more,
      )
]

new_contexts : (i : ℕ) → new_io_manager.contexts i ≡ new_context i
unfolding new_io_manager
new_contexts i = ground arith

new_fields :
    (new_io_manager.size ≡ 32)
    × (new_io_manager.pending ≡ 0)
    × ((i : ℕ) → new_io_manager.interest i ≡ none)
unfolding new_io_manager
new_fields = (refl, refl, λ i. refl)

-- The constructor's state satisfies the invariant.
pub new_io_manager-Inv : Inv new_io_manager
new_io_manager-Inv = record {
  sides = λ i. subst Sides (sym (new_contexts i)) (new_context-Sides i);
  kernel = λ i. new_fields.2 i ∙ ap (λ x. watched x.events) (sym (new_contexts i));
  named = λ i. ap (λ x. x.fd) (new_contexts i);
  counted = new_fields.1 ∙ sym (sum_below-zero _ _ (λ i. ap weight (new_contexts i)));
  beyond = λ i l. new_contexts i;
  grown = omega (arith, new_fields.0);
  small = omega (arith, new_fields.0);
}

-- `addEvent` reads the size under the read lock and resizes under the write lock. When two threads
-- found the vector too short, for `b` and for `a`, where 1.5 times `a` is at most `b`, and resize
-- it in this order, the later resize cuts the vector: `b` is outside of it, and whatever was
-- registered for `b` in between is lost.
pub resize_race_loses_context :
    (a b : ℕ) (c : FdContext) (io : IoManager)
    → io.size ≤ a
    → a * 3 / 2 ≤ b
    → let io₁ = ensure_context b io in
      let io₂ = record io₁ { contexts = λ i. if i == b then c else io₁.contexts i } in
      let io₃ = context_resize (a * 3 / 2) io₂ in (io₃.size ≤ b) × (io₃.contexts b ≡ new_context b)
unfolding context_resize
resize_race_loses_context a b c io l k = (omega arith, ground arith)
