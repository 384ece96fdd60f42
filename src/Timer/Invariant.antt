-- ===== src/Timer/Invariant.antt =====
-- What holds of a timer manager between two calls, while deadlines agree with addresses.
use collabor_ative_schedule.Base.{
  ℕ, ◌≡◌, refl, ◌∙◌, ap, sym, Bool, true, false, List, ◌∷◌, some, ◌==◌, ltb, add64, arith, inl, inr,
  Bool-cases, ==_iff,
}
use collabor_ative_schedule.OrderedSet.{insert, find, erase, mem, IsSorted}
use collabor_ative_schedule.OrderedSet.Laws.{
  mem-insert, insert-IsSorted, mem-erase, erase-IsSorted, find-mem,
}
use collabor_ative_schedule.Timer.Order.{Agree, Agree-sub, ltb-IsOrder, insert-before, find-before}
use collabor_ative_schedule.Callback.{Callback, is_set}
use collabor_ative_schedule.Timer.{
  Timer, TimerManager, before, store, new_timer, new_manager, add_timer, refresh,
}

-- The set is in the order of the addresses, with which the deadlines agree, and a timer that still
-- has its callback is in the set.
pub record Inv (m : TimerManager) : Type 0 where
  pub sorted : IsSorted ltb m.timers
  pub agree : Agree m.heap m.timers
  pub armed : (a : ℕ) → is_set (m.heap a).cb ≡ true → mem a m.timers ≡ true

pub new_manager-Inv : (now : ℕ) → Inv (new_manager now)
unfolding new_manager
new_manager-Inv now = record { sorted = tt; agree = λ a b m n l. cc; armed = λ a h. cc }

pub member-insert : (a x : ℕ) (xs : List ℕ) → mem a (insert ltb x xs) ≡ mem a (x ∷ xs)
member-insert a x xs = mem-insert ltb ltb-IsOrder a x xs

-- A new value for `t`, and `t` put into a set without it.
pub reinsert-Inv :
    (h : ℕ → Timer) (t : ℕ) (v : Timer) (xs : List ℕ) (tickled : Bool) (previous : ℕ)
    → mem t xs ≡ false
    → IsSorted ltb xs
    → Agree (store h t v) (t ∷ xs)
    → ((a : ℕ) → (a == t) ≡ false → is_set (h a).cb ≡ true → mem a xs ≡ true)
    → Inv (record {
      heap = store h t v;
      timers = insert (before (store h t v)) t xs;
      tickled = tickled;
      previous_time = previous;
    })
reinsert-Inv h t v xs tickled previous out s agree armed =
    rw (insert-before (store h t v) t xs agree) (record {
      sorted = insert-IsSorted ltb ltb-IsOrder t xs s;
      agree =
          Agree-sub (store h t v) (store h t v) (t ∷ xs) (insert ltb t xs)
            (λ a m. (sym (member-insert a t xs) ∙ m, refl)) agree;
      armed = λ a set. member-insert a t xs ∙ ground (arith, armed a);
    })

-- In a set that is in order an erased timer is gone, and the others stay.
pub mem-erased :
    (m : TimerManager) (t : ℕ)
    → Inv m
    → (a : ℕ) → mem a (erase t m.timers) ≡ true
    → (mem a m.timers ≡ true) × ((a == t) ≡ false)
mem-erased m t inv a e =
    let there = mem-erase ltb ltb-IsOrder a t m.timers inv.sorted in
    (ground (arith, there, e), ground (arith, there, e))

pub erased : (m : TimerManager) (t : ℕ) → Inv m → mem t (erase t m.timers) ≡ false
erased m t inv = ground (arith, mem-erase ltb ltb-IsOrder t t m.timers inv.sorted)

pub kept :
    (m : TimerManager) (t : ℕ)
    → Inv m
    → (a : ℕ) → (a == t) ≡ false
    → is_set (m.heap a).cb ≡ true
    → mem a (erase t m.timers) ≡ true
kept m t inv a n set =
    ground (arith, mem-erase ltb ltb-IsOrder a t m.timers inv.sorted, inv.armed a set)

-- The set without `t`, and `t` without its callback.
pub disarm-Inv :
    (m : TimerManager) (t : ℕ) (v : Timer)
    → is_set v.cb ≡ false
    → Inv m
    → Inv (record m { heap = store m.heap t v; timers = erase t m.timers })
disarm-Inv m t v unset inv = record {
  sorted = erase-IsSorted ltb ltb-IsOrder t m.timers inv.sorted;
  agree =
      Agree-sub m.heap (store m.heap t v) m.timers (erase t m.timers)
        (λ a e. let there = mem-erased m t inv a e in (there.0, ground (arith, there.1))) inv.agree;
  armed = λ a set. ground (arith, kept m t inv a);
}

-- A timer with a callback is found.
pub found :
    (m : TimerManager) (t : ℕ)
    → Inv m
    → is_set (m.heap t).cb ≡ true
    → find (before m.heap) t m.timers ≡ some t
found m t inv set =
    let there = inv.armed t set in
    find-before m.heap t m.timers
      (Agree-sub m.heap m.heap m.timers (t ∷ m.timers) (λ a e. (member a there e, refl)) inv.agree)
    ∙ find-mem ltb ltb-IsOrder t m.timers inv.sorted
    ∙ ground (arith, there)
  where
    member : (a : ℕ) → mem t m.timers ≡ true → mem a (t ∷ m.timers) ≡ true → mem a m.timers ≡ true
    member a there e = elim (Bool-cases (a == t)) [
      | inl f ↦ ap (λ b. mem b m.timers) ((==_iff a t).0 f) ∙ there
      | inr f ↦ ground (arith, f)
    ]

-- The deadlines that a call leaves agree with the addresses when they do for the timer `a` with the
-- new value `v`, in the set and outside.
abbrev pub Fits : ℕ → Timer → TimerManager → Type 0
Fits a v m = Agree (store m.heap a v) (a ∷ m.timers)

pub add_timer-Inv :
    (a ms : ℕ) (cb : Callback) (recurring : Bool) (now : ℕ) (m : TimerManager)
    → mem a m.timers ≡ false
    → Fits a (new_timer ms cb recurring now) m
    → Inv m
    → Inv (add_timer a ms cb recurring now m).1
unfolding add_timer
add_timer-Inv a ms cb recurring now m fresh fits inv =
    reinsert-Inv m.heap a _ m.timers _ m.previous_time fresh inv.sorted fits
      (λ b _ set. inv.armed b set)

-- A timer taken out and put back with a new value.
pub move-Inv :
    (m : TimerManager) (a : ℕ) (v : Timer) (tickled : Bool)
    → Fits a v m
    → Inv m
    → Inv (record m {
      heap = store m.heap a v;
      timers = insert (before (store m.heap a v)) a (erase a m.timers);
      tickled = tickled;
    })
move-Inv m a v tickled fits inv =
    reinsert-Inv m.heap a v (erase a m.timers) tickled m.previous_time (erased m a inv)
      (erase-IsSorted ltb ltb-IsOrder a m.timers inv.sorted)
      (Agree-sub (store m.heap a v) (store m.heap a v) (a ∷ m.timers) (a ∷ erase a m.timers)
        (λ b e. (ground (arith, mem-erased m a inv b), refl)) fits)
      (kept m a inv)

pub refresh-Inv :
    (a now : ℕ) (m : TimerManager)
    → Fits a (record (m.heap a) { next = add64 now (m.heap a).ms }) m
    → Inv m
    → Inv (refresh a now m).1
unfolding refresh
refresh-Inv a now m fits inv = elim (Bool-cases (is_set (m.heap a).cb)) [
  | inr e ↦ rw e inv
  | inl e ↦ rw (e, found m a inv e) (move-Inv m a _ m.tickled fits inv)
]
