-- ===== src/Timer/Deadlines.antt =====
-- Deadlines that `addTimer`, `refresh` and `reset` set, and who is told of a new front timer.
use collabor_ative_schedule.Base.{
  ℕ, ◌≡◌, refl, sym, ◌∙◌, ◌↔◌, Bool, true, false, not, ◌&&◌, ◌||◌, List, [], ◌∷◌, ◌==◌, ap, some,
  if◌then◌else◌, arith, inl, inr, Bool-cases, ==_iff, add64, All, ltb,
}
use collabor_ative_schedule.OrderedSet.{
  mem, begin, same_iterator, erase, insert, find, IsSorted, IsOrder,
}
use collabor_ative_schedule.OrderedSet.Laws.{mem-erase, find-mem, insert-IsSorted, All-map}
use collabor_ative_schedule.Timer.Order.{
  Agree-sub, ltb-IsOrder, comparator_agrees, insert-before, find-before,
}
use collabor_ative_schedule.Timer.Invariant.{Inv, Fits, found, member-insert}
use collabor_ative_schedule.Timer.Handles.{reset_value}
use collabor_ative_schedule.Callback.{Callback, is_set}
use collabor_ative_schedule.Timer.{
  Timer, TimerManager, before, store, refresh, reset, add_timer, new_timer,
}

-- The iterator that `insert` returns is `begin()` exactly when the new element comes before all.
at_begin :
    (lt : ℕ → ℕ → Bool) (o : IsOrder lt) (a : ℕ) (xs : List ℕ)
    → mem a xs ≡ false
    → IsSorted lt xs
    → (same_iterator (some a) (begin (insert lt a xs)) ≡ true) ↔ All (λ t. lt a t ≡ true) xs
unfolding insert
at_begin lt o a [] n s = (λ _. tt, λ _. ground arith)
at_begin lt o a (y ∷ ys) n s = (
  λ e.
      let front : lt a y ≡ true = ground (arith, e, n, o.connex a y) in
      (front, All-map _ _ ys (λ t _ b. o.trans a y t front b) s.0),
  λ f. ground (arith, f.0),
)

-- A timer of the set that is taken out and put back.
moved :
    (m : TimerManager) (a : ℕ) (v : Timer)
    → Inv m
    → Fits a v m
    → mem a m.timers ≡ true
    → (c : ℕ) → mem c (insert (before (store m.heap a v)) a (erase a m.timers)) ≡ mem c m.timers
moved m a v inv fits there c =
    let gone = λ (b : ℕ). mem-erase ltb ltb-IsOrder b a m.timers inv.sorted in
    let h = store m.heap a v in
    ap (mem c) (
      insert-before h a (erase a m.timers) (
        Agree-sub h h (a ∷ m.timers) (a ∷ erase a m.timers) (λ b e. (ground (arith, gone b), refl))
          fits))
    ∙ member-insert c a (erase a m.timers)
    ∙ elim (Bool-cases (c == a)) [
      | inl f ↦ ground (arith, f, there, ap (λ b. mem b m.timers) ((==_iff c a).0 f))
      | inr f ↦ ground (arith, f, gone c)
    ]

-- In a manager that satisfies the invariant, for a timer at a fresh address with which its deadline
-- agrees, `addTimer` tells the front of the queue (the flag) exactly when nobody has been told
-- since the last `getNextTimer` and the new timer comes before every other; afterwards `tickled`
-- records whether anybody has been told; and the timer stands in the set with the deadline `now +
-- ms`.
pub add_timer_notifies :
    (a ms : ℕ) (cb : Callback) (recurring : Bool) (now : ℕ) (m : TimerManager)
    → mem a m.timers ≡ false
    → Fits a (new_timer ms cb recurring now) m
    → Inv m
    → let r = add_timer a ms cb recurring now m in
      ((r.0 ≡ true) ↔ ((m.tickled ≡ false) × All (λ t. before r.1.heap a t ≡ true) m.timers))
      × (r.1.tickled ≡ (r.0 || m.tickled))
      × (mem a r.1.timers ≡ true)
      × ((r.1.heap a).next ≡ add64 now ms)
unfolding add_timer
add_timer_notifies a ms cb recurring now m fresh fits inv =
    let h = store m.heap a (new_timer ms cb recurring now) in
    let xs = insert ltb a m.timers in
    let member = member-insert a a m.timers in
    let it : find (before h) a xs ≡ some a =
      find-before h a xs (
        Agree-sub h h (a ∷ m.timers) (a ∷ xs)
          (λ b e. (ground (arith, member-insert b a m.timers), refl)) fits)
      ∙ find-mem ltb ltb-IsOrder a xs (insert-IsSorted ltb ltb-IsOrder a m.timers inv.sorted)
      ∙ ground (arith, member) in
    let front = at_begin ltb ltb-IsOrder a m.timers fresh inv.sorted in
    let same = λ (t : ℕ) (e : mem t m.timers ≡ true).
      (comparator_agrees h (a ∷ m.timers) fits a t (ground arith) (ground arith)).0 in
    rw (insert-before h a m.timers fits, it)
      (
        (
          λ e. (
            ground (arith, e),
            All-map _ _ m.timers (λ t n b. same t n ∙ b) (front.0 (ground (arith, e))),
          ),
          λ p.
              ground (arith, p.0, front.1 (All-map _ _ m.timers (λ t n b. sym (same t n) ∙ b) p.1)),
        ),
        ground arith,
        ground (arith, member),
        ground arith,
      )

-- In a manager that satisfies the invariant, and when the clock reading plus the timer's interval
-- is a deadline that agrees with the address: `refresh` succeeds and starts the interval anew from
-- the clock reading when the timer still has its callback; otherwise it fails. Either way the timer
-- is in the set as before, and no other timer changes its place or its value.
pub refresh_deadline :
    (a now : ℕ) (m : TimerManager)
    → Fits a (record (m.heap a) { next = add64 now (m.heap a).ms }) m
    → Inv m
    → let r = refresh a now m in
      (r.0 ≡ is_set (m.heap a).cb)
      × (r.1.heap a
          ≡ (if r.0 then record (m.heap a) { next = add64 now (m.heap a).ms } else m.heap a))
      × ((c : ℕ) → (c == a) ≡ false → r.1.heap c ≡ m.heap c)
      × ((c : ℕ) → mem c r.1.timers ≡ mem c m.timers)
unfolding refresh
refresh_deadline a now m fits inv = elim (Bool-cases (is_set (m.heap a).cb)) [
  | inr e ↦ rw e (refl, refl, λ c n. refl, λ c. refl)
  | inl e ↦
      rw (e, found m a inv e)
        (refl, ground arith, λ c n. ground arith, λ c. moved m a _ inv fits (inv.armed a e) c)
]

-- In a manager that satisfies the invariant, and when the value that `reset` would give the timer
-- has a deadline that agrees with the address: `reset` succeeds and changes nothing when it asks
-- for the interval that the timer has, from its start; otherwise it succeeds exactly when the timer
-- still has its callback, and then the timer has the interval `ms`, from the clock reading or from
-- where the old interval started. Either way the timer is in the set as before, and no other timer
-- changes its place or its value.
pub reset_deadline :
    (a ms : ℕ) (from_now : Bool) (now : ℕ) (m : TimerManager)
    → Fits a (reset_value a ms from_now now m) m
    → Inv m
    → let r = reset a ms from_now now m in
      let same = ms == (m.heap a).ms && not from_now in
      (r.0 ≡ (same || is_set (m.heap a).cb))
      × (r.2.heap a ≡ (
          if not same && is_set (m.heap a).cb then reset_value a ms from_now now m else m.heap a))
      × ((c : ℕ) → (c == a) ≡ false → r.2.heap c ≡ m.heap c)
      × ((c : ℕ) → mem c r.2.timers ≡ mem c m.timers)
unfolding reset
reset_deadline a ms from_now now m fits inv =
    elim (Bool-cases (ms == (m.heap a).ms && not from_now)) [
      | inl e ↦ rw e (refl, refl, λ c n. refl, λ c. refl)
      | inr e ↦ elim (Bool-cases (is_set (m.heap a).cb)) [
        | inr f ↦ rw (e, f) (refl, refl, λ c n. refl, λ c. refl)
        | inl f ↦
            rw (e, f, found m a inv f)
              (refl, ground arith, λ c n. ground arith, λ c. moved m a _ inv fits (inv.armed a f) c)
      ]
    ]
