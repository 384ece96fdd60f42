-- ===== src/Timer/Expiry.antt =====
-- `listExpiredCb` as a whole: its loops, and the invariant.
use collabor_ative_schedule.Base.{
  ℕ, ◌≡◌, refl, sym, ◌∙◌, Bool, not, ◌&&◌, ◌||◌, List, [], ◌∷◌, ◌==◌, if◌then◌else◌, arith, ==_iff,
  inl, inr, Bool-cases, ap, subst, ltb,
}
use collabor_ative_schedule.OrderedSet.{mem, IsSorted}
use collabor_ative_schedule.Timer.Order.{Agree, Agree-sub}
use collabor_ative_schedule.Timer.Invariant.{Inv}
use collabor_ative_schedule.Callback.{Callback}
use collabor_ative_schedule.Timer.{Timer, TimerManager, split_expired, fire, list_expired_cb}
use collabor_ative_schedule.Timer.Loop.{
  mem-append, split_expired-append, Pending-of-IsSorted, fired, LoopInv, fire-LoopInv, apart,
}

-- The early return of `listExpiredCb` is the loop over no timer.
pub list_expired_cb_lem :
    (now : ℕ) (cbs : List Callback) (m : TimerManager)
    → list_expired_cb now cbs m
      ≡ fire now
          (split_expired m.heap now m.timers).0
          cbs
          (record m { timers = (split_expired m.heap now m.timers).1 })
unfolding list_expired_cb
list_expired_cb_lem now cbs m = go m.heap m.timers m.tickled m.previous_time
  where
    go :
        (h : ℕ → Timer) (xs : List ℕ) (tickled : Bool) (previous : ℕ)
        → let m : TimerManager = record {
          heap = h;
          timers = xs;
          tickled = tickled;
          previous_time = previous;
        } in
          list_expired_cb now cbs m
          ≡ fire now
              (split_expired h now xs).0
              cbs
              (record m { timers = (split_expired h now xs).1 })
    go h [] tickled previous = refl
    go h (x ∷ xs) tickled previous = refl

-- The timers that the call takes out, and the timers as it leaves them.
abbrev pub expired : ℕ → TimerManager → List ℕ
expired now m = (split_expired m.heap now m.timers).0

abbrev pub after : ℕ → TimerManager → ℕ → Timer
after now m a = if mem a (expired now m) then fired now (m.heap a) else m.heap a

-- The timers that the set holds after the call.
unfoldable stay : (ℕ → Bool) → List ℕ → List ℕ
stay f [] = []
stay f (a ∷ xs) = let rest = stay f xs in if f a then a ∷ rest else rest

mem-stay : (f : ℕ → Bool) (a : ℕ) (xs : List ℕ) → mem a (stay f xs) ≡ (mem a xs && f a)
unfolding stay
mem-stay f a [] = refl
mem-stay f a (x ∷ xs) = elim (Bool-cases (a == x)) [
  | inl e ↦ ground (arith, mem-stay f a xs, e, ap f ((==_iff a x).0 e))
  | inr e ↦ ground (arith, mem-stay f a xs, e)
]

unfoldable pub staying : ℕ → TimerManager → List ℕ
unfolding stay
staying now m = stay (λ a. not (mem a (expired now m)) || (m.heap a).recurring) m.timers

mem-staying :
    (now a : ℕ) (m : TimerManager)
    → mem a (staying now m)
      ≡ (mem a m.timers && (not (mem a (expired now m)) || (m.heap a).recurring))
unfolding staying
mem-staying now a m = mem-stay _ a m.timers

-- The loop starts from a set that is in order, without the timers that it goes through.
pub start-LoopInv :
    (now : ℕ) (m : TimerManager)
    → Inv m
    → LoopInv now
        (after now m)
        (staying now m)
        (expired now m)
        (record m { timers = (split_expired m.heap now m.timers).1 })
start-LoopInv now m inv =
    let es = (split_expired m.heap now m.timers).0 in
    let xs = (split_expired m.heap now m.timers).1 in
    let whole = split_expired-append m.heap now m.timers in
    let cut = Pending-of-IsSorted es xs (subst (IsSorted ltb) (sym whole) inv.sorted) in
    let member = λ (a : ℕ). sym (mem-append a es xs) ∙ ap (mem a) whole in
    record {
      sorted = cut.1;
      pending = cut.0;
      armed = λ a set. member a ∙ inv.armed a set;
      inside = λ a h. ground (arith, mem-staying now a m, member a, apart a es xs cut.0, h);
      there = λ a h. ground (arith, apart a es xs cut.0, h);
      ahead = λ a h r. rw (h, r) refl;
    }

pub list_expired_cb-Inv :
    (now : ℕ) (cbs : List Callback) (m : TimerManager)
    → Agree (after now m) (staying now m)
    → Inv m
    → Inv (list_expired_cb now cbs m).1
list_expired_cb-Inv now cbs m agree inv = rw (list_expired_cb_lem now cbs m) (
    let start = record m { timers = (split_expired m.heap now m.timers).1 } in
    let end =
      fire-LoopInv now (after now m) (staying now m) agree (expired now m) cbs start
        (start-LoopInv now m inv) in
    record {
      sorted = end.sorted;
      agree =
          Agree-sub (after now m) (fire now (expired now m) cbs start).1.heap (staying now m)
            (fire now (expired now m) cbs start).1.timers (λ a h. (end.inside a h, end.there a h))
            agree;
      armed = end.armed;
    })
