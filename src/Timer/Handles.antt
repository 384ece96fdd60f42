-- ===== src/Timer/Handles.antt =====
-- `cancel`, `refresh` and `reset`: what a caller's handle can do to a timer.
use collabor_ative_schedule.Base.{
  ℕ, ◌≡◌, refl, sym, ◌∙◌, Bool, true, false, not, ◌&&◌, ◌==◌, ap, some, if◌then◌else◌, arith, inl,
  inr, Bool-cases, ==_iff, add64, sub64, ltb,
}
use mathlib.Core.Path.{fun_ext}
use collabor_ative_schedule.OrderedSet.{mem, erase}
use collabor_ative_schedule.OrderedSet.Laws.{mem-erase}
use collabor_ative_schedule.Timer.Order.{ltb-IsOrder}
use collabor_ative_schedule.Timer.Invariant.{Inv, Fits, move-Inv, disarm-Inv, erased, found}
use collabor_ative_schedule.Callback.{empty, is_set}
use collabor_ative_schedule.Timer.{Timer, TimerManager, before, comparator, store, cancel, reset}

-- A write that keeps the deadline keeps the order.
before-store :
    (h : ℕ → Timer) (t : ℕ) (v : Timer) → v.next ≡ (h t).next → before (store h t v) ≡ before h
unfolding comparator
before-store h t v e = fun_ext λ a. fun_ext λ b. same a b
  where
    next_same : (a : ℕ) → (store h t v a).next ≡ (h a).next
    next_same a = elim (Bool-cases (a == t)) [
      | inl f ↦ ground (arith, f, ap (λ b. (h b).next) ((==_iff a t).0 f))
      | inr f ↦ ground (arith, f)
    ]

    same : (a b : ℕ) → before (store h t v) a b ≡ before h a b
    same a b = rw (next_same a, next_same b)

cancelled : ℕ → TimerManager → TimerManager
cancelled a m = record m {
  heap = store m.heap a (record (m.heap a) { cb = empty });
  timers = erase a m.timers;
}

cancel_armed :
    (a : ℕ) (m : TimerManager)
    → Inv m
    → is_set (m.heap a).cb ≡ true
    → cancel a m ≡ some (true, cancelled a m)
unfolding cancel cancelled
cancel_armed a m inv set =
    rw (set, before-store m.heap a (record (m.heap a) { cb = empty }) refl, found m a inv set) refl

cancel_disarmed :
    (a : ℕ) (m : TimerManager) → is_set (m.heap a).cb ≡ false → cancel a m ≡ some (false, m)
unfolding cancel
cancel_disarmed a m unset = rw unset refl

cancelled-Inv : (a : ℕ) (m : TimerManager) → Inv m → Inv (cancelled a m)
unfolding cancelled
cancelled-Inv a m inv = disarm-Inv m a (record (m.heap a) { cb = empty }) refl inv

-- What `cancel` promises of the result `b` and the manager `m'` after it.
pub record Cancels (a : ℕ) (m : TimerManager) (b : Bool) (m' : TimerManager) : Type 0 where
  pub result : b ≡ is_set (m.heap a).cb
  pub valid : Inv m'
  pub disarmed : is_set (m'.heap a).cb ≡ false
  pub removed : b ≡ true → mem a m'.timers ≡ false
  pub others_heap : (c : ℕ) → (c == a) ≡ false → m'.heap c ≡ m.heap c
  pub others_set : (c : ℕ) → (c == a) ≡ false → mem c m'.timers ≡ mem c m.timers
  pub unchanged : b ≡ false → m' ≡ m

cancelled-Cancels :
    (a : ℕ) (m : TimerManager)
    → Inv m
    → is_set (m.heap a).cb ≡ true
    → Cancels a m true (cancelled a m)
unfolding cancelled
cancelled-Cancels a m inv set = record {
  result = sym set;
  valid = cancelled-Inv a m inv;
  disarmed = ground arith;
  removed = λ _. erased m a inv;
  others_heap = λ c n. ground arith;
  others_set = λ c n. mem-erase ltb ltb-IsOrder c a m.timers inv.sorted ∙ ground arith;
  unchanged = λ e. cc;
}

-- In a manager that satisfies the invariant `cancel` never erases `end()`: it returns whether the
-- timer still had its callback, and if so takes callback and timer away and touches no other timer;
-- if not, nothing changes; and the invariant holds again.
pub cancel-Cancels :
    (a : ℕ) (m : TimerManager)
    → Inv m
    → (b : Bool) × (m' : TimerManager) × (cancel a m ≡ some (b, m')) × Cancels a m b m'
cancel-Cancels a m inv = elim (Bool-cases (is_set (m.heap a).cb)) [
  | inl set ↦ (true, cancelled a m, cancel_armed a m inv set, cancelled-Cancels a m inv set)
  | inr unset ↦ (
    false,
    m,
    cancel_disarmed a m unset,
    record {
      result = sym unset;
      valid = inv;
      disarmed = unset;
      removed = λ e. cc;
      others_heap = λ c _. refl;
      others_set = λ c _. refl;
      unchanged = λ _. refl;
    },
  )
]

-- The value that `reset` gives a timer.
abbrev pub reset_value : ℕ → ℕ → Bool → ℕ → TimerManager → Timer
reset_value a ms from_now now m =
    let start = if from_now then now else sub64 (m.heap a).next (m.heap a).ms in
    record (m.heap a) { ms = ms; next = add64 start ms }

-- `reset` keeps the invariant when the new deadline agrees with the address.
pub reset-Inv :
    (a ms : ℕ) (from_now : Bool) (now : ℕ) (m : TimerManager)
    → Fits a (reset_value a ms from_now now m) m
    → Inv m
    → Inv (reset a ms from_now now m).2
unfolding reset
reset-Inv a ms from_now now m fits inv = elim (Bool-cases (ms == (m.heap a).ms && not from_now)) [
  | inl e ↦ rw e inv
  | inr e ↦ elim (Bool-cases (is_set (m.heap a).cb)) [
    | inr f ↦ rw (e, f) inv
    | inl f ↦ rw (e, f, found m a inv f) (move-Inv m a (reset_value a ms from_now now m) _ fits inv)
  ]
]
