-- ===== src/Timer/Firing.antt =====
-- Which timers `listExpiredCb` fires, and what becomes of each.
use collabor_ative_schedule.Base.{
  ℕ, ◌≡◌, refl, sym, ◌∙◌, not, ◌&&◌, ◌||◌, List, [], ◌∷◌, ◌++◌, ◌==◌, if◌then◌else◌, arith, ==_iff,
  inl, inr, Bool-cases, All, ap, map, ◌≤◌, ◌<◌, ltb,
}
use collabor_ative_schedule.OrderedSet.{mem, IsSorted}
use collabor_ative_schedule.OrderedSet.Laws.{All-map}
use collabor_ative_schedule.Timer.Order.{Agree, insert-before}
use collabor_ative_schedule.Timer.Invariant.{Inv, member-insert}
use collabor_ative_schedule.Timer.Expiry.{after, staying, start-LoopInv, list_expired_cb_lem}
use collabor_ative_schedule.Timer.Loop.{
  Pending, LoopInv, fired, apart, reinsert-Agree, rearm-LoopInv, fire-cbs, split_expired-append,
  mem-append,
}
use collabor_ative_schedule.Callback.{Callback}
use collabor_ative_schedule.Timer.{
  Timer, TimerManager, split_expired, rearm, fire, list_expired_cb, reinsert, retire,
}

-- The timers whose deadline is the given time.
abbrev pub due : (ℕ → Timer) → ℕ → List ℕ → List ℕ
due h now [] = []
due h now (t ∷ ts) = if (h t).next == now then t ∷ due h now ts else due h now ts

due-empty :
    (h : ℕ → Timer) (now : ℕ) (ts : List ℕ) → All (λ t. now < (h t).next) ts → due h now ts ≡ []
due-empty h now [] l = refl
due-empty h now (t ∷ ts) l = ground (arith, due-empty h now ts l.1)

pub mem-due :
    (h : ℕ → Timer) (now a : ℕ) (ts : List ℕ)
    → mem a (due h now ts) ≡ (mem a ts && (h a).next == now)
mem-due h now a [] = refl
mem-due h now a (t ∷ ts) = elim (Bool-cases (a == t)) [
  | inl e ↦ ground (arith, mem-due h now a ts, e, ap (λ b. (h b).next) ((==_iff a t).0 e))
  | inr e ↦ ground (arith, mem-due h now a ts)
]

-- With no timer overdue the loop stops after the last timer that is due.
split_expired-due :
    (h : ℕ → Timer) (now : ℕ) (ts : List ℕ)
    → IsSorted ltb ts
    → Agree h ts
    → All (λ t. now ≤ (h t).next) ts
    → (split_expired h now ts).0 ≡ due h now ts
unfolding split_expired
split_expired-due h now [] s agree l = refl
split_expired-due h now (t ∷ ts) s agree l = elim (Bool-cases ((h t).next == now)) [
  | inl e ↦ rw e (
      ap (◌∷◌ t)
        (split_expired-due h now ts s.1 (λ a b m n. agree a b (ground arith) (ground arith)) l.1))
  | inr e ↦
      let later : All (λ u. now < (h u).next) ts =
        All-map _ _ ts (λ u m b. ground (arith, agree u t (ground arith) (ground arith), b, l.0))
          s.0 in
      rw e (sym (due-empty h now ts later))
]

rearm-heap :
    (now t a : ℕ) (m : TimerManager)
    → (rearm now t m).heap a ≡ (if a == t then fired now (m.heap t) else m.heap a)
unfolding rearm reinsert retire
rearm-heap now t a m = ground arith

module _ (now a : ℕ) where
  fire-heap :
      (ts : List ℕ) (cbs : List Callback) (m : TimerManager) (xs : List ℕ)
      → Pending ts xs
      → (fire now ts cbs m).1.heap a ≡ (if mem a ts then fired now (m.heap a) else m.heap a)
  unfolding fire
  fire-heap [] cbs m xs p = refl
  fire-heap (t ∷ ts) cbs m xs p =
      let ih = fire-heap ts (cbs ++ (m.heap t).cb ∷ []) (rearm now t m) xs p.2 in
      elim (Bool-cases (a == t)) [
        | inl e ↦
            let q = (==_iff a t).0 e in
            ground (arith, ih, rearm-heap now t a m, e, ap (λ b. mem b ts) q, ap m.heap q, p.0)
        | inr e ↦ ground (arith, ih, rearm-heap now t a m, e)
      ]

  module _ (goal : ℕ → Timer) (all : List ℕ) (agree : Agree goal all) where
    rearm-timers :
        (t : ℕ) (ts : List ℕ) (m : TimerManager)
        → LoopInv now goal all (t ∷ ts) m
        → mem a (rearm now t m).timers ≡ (mem a m.timers || a == t && (m.heap t).recurring)
    unfolding rearm reinsert retire
    rearm-timers t ts m inv = elim (Bool-cases (m.heap t).recurring) [
      | inl e ↦
          let same =
            insert-before (reinsert now t m).heap t m.timers
              (reinsert-Agree now goal all agree t ts m inv e) in
          ground (arith, e, ap (mem a) same, member-insert a t m.timers)
      | inr e ↦ ground (arith, e)
    ]

    fire-timers :
        (ts : List ℕ) (cbs : List Callback) (m : TimerManager)
        → LoopInv now goal all ts m
        → mem a (fire now ts cbs m).1.timers ≡ (mem a m.timers || mem a ts && (m.heap a).recurring)
    unfolding fire
    fire-timers [] cbs m inv = ground arith
    fire-timers (t ∷ ts) cbs m inv =
        let ih =
          fire-timers ts (cbs ++ (m.heap t).cb ∷ []) (rearm now t m)
            (rearm-LoopInv now goal all agree t ts m inv) in
        let step = rearm-timers t ts m inv in
        elim (Bool-cases (a == t)) [
          | inl e ↦
              let p = (==_iff a t).0 e in
              ground (
                arith,
                ih,
                rearm-heap now t a m,
                step,
                e,
                ap (λ b. mem b ts) p,
                ap m.heap p,
                inv.pending.0,
              )
          | inr e ↦ ground (arith, ih, rearm-heap now t a m, step, e)
        ]

-- In a manager that satisfies the invariant, when no timer is overdue and the deadlines of the
-- timers that stay agree with their addresses after the call too, `listExpiredCb` appends to the
-- vector exactly the callbacks of the timers whose deadline is now, in the order of the set; of
-- these a recurring timer gets its next deadline, any other loses its callback, and no other timer
-- changes; and the set then holds the timers that it held, less those that fired and do not recur.
pub list_expired_cb_exact :
    (now : ℕ) (cbs : List Callback) (m : TimerManager)
    → Inv m
    → Agree (after now m) (staying now m)
    → All (λ t. now ≤ (m.heap t).next) m.timers
    → ((list_expired_cb now cbs m).0 ≡ cbs ++ map (λ t. (m.heap t).cb) (due m.heap now m.timers))
      × ((a : ℕ)
          → (list_expired_cb now cbs m).1.heap a
            ≡ (if mem a m.timers && (m.heap a).next == now then fired now (m.heap a) else m.heap a))
      × ((a : ℕ)
          → mem a (list_expired_cb now cbs m).1.timers
            ≡ (mem a m.timers && (not ((m.heap a).next == now) || (m.heap a).recurring)))
list_expired_cb_exact now cbs m inv agree ahead =
    let es = split_expired-due m.heap now m.timers inv.sorted inv.agree ahead in
    let start = start-LoopInv now m inv in
    let member = λ (a : ℕ).
      ap (mem a) (sym (split_expired-append m.heap now m.timers))
      ∙ mem-append a (split_expired m.heap now m.timers).0 (split_expired m.heap now m.timers).1 in
    let out = λ (a : ℕ). ap (mem a) es ∙ mem-due m.heap now a m.timers in
    rw (list_expired_cb_lem now cbs m) (
      fire-cbs (λ t. (m.heap t).cb) now _ cbs _ _ start.pending (λ a _. refl)
          ∙ ap (λ ts. cbs ++ map (λ t. (m.heap t).cb) ts) es,
      λ a. fire-heap now a _ cbs _ _ start.pending ∙ ground (arith, out a),
      λ a.
          fire-timers now a (after now m) (staying now m) agree _ cbs _ start
          ∙ ground (arith, out a, member a, apart a _ _ start.pending),
    )
