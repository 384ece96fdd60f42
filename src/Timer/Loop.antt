-- ===== src/Timer/Loop.antt =====
-- The loops of `listExpiredCb`: over the set, and over the timers that it takes out.
use mathlib.Core.List.{append-nil, append_assoc}
use collabor_ative_schedule.Base.{
  ℕ, ◌≡◌, refl, sym, ◌∙◌, true, false, ◌&&◌, ◌||◌, List, [], ◌∷◌, ◌++◌, ◌==◌, if◌then◌else◌, arith,
  ==_iff, inl, inr, Bool-cases, add64, ap, map, ltb,
}
use collabor_ative_schedule.OrderedSet.{insert, mem, IsSorted}
use collabor_ative_schedule.OrderedSet.Laws.{insert-IsSorted, not-mem-behind}
use collabor_ative_schedule.Timer.Order.{Agree, Agree-sub, ltb-IsOrder, insert-before, ne-mem}
use collabor_ative_schedule.Timer.Invariant.{member-insert}
use collabor_ative_schedule.Callback.{Callback, empty, is_set}
use collabor_ative_schedule.Timer.{
  Timer, TimerManager, split_expired, reinsert, retire, rearm, fire,
}

pub mem-append : (a : ℕ) (xs ys : List ℕ) → mem a (xs ++ ys) ≡ (mem a xs || mem a ys)
mem-append a [] ys = refl
mem-append a (x ∷ xs) ys = ground (arith, mem-append a xs ys)

-- The split cuts the set in two at the iterator.
pub split_expired-append :
    (h : ℕ → Timer) (now : ℕ) (xs : List ℕ)
    → (split_expired h now xs).0 ++ (split_expired h now xs).1 ≡ xs
unfolding split_expired
split_expired-append h now [] = refl
split_expired-append h now (x ∷ xs) = ground (arith, split_expired-append h now xs)

-- Timers taken out of the set, each once, that the loop has not come to yet.
abbrev pub Pending : List ℕ → List ℕ → Type 0
Pending [] xs = Unit
Pending (e ∷ es) xs = (mem e es ≡ false) × (mem e xs ≡ false) × Pending es xs

pub Pending-of-IsSorted :
    (es xs : List ℕ) → IsSorted ltb (es ++ xs) → Pending es xs × IsSorted ltb xs
Pending-of-IsSorted [] xs s = (tt, s)
Pending-of-IsSorted (e ∷ es) xs s =
    let rest = Pending-of-IsSorted es xs s.1 in
    let out : mem e (es ++ xs) ≡ false = not-mem-behind ltb ltb-IsOrder e (es ++ xs) s.0 in
    ((ground (arith, mem-append e es xs), ground (arith, mem-append e es xs), rest.0), rest.1)

Pending-insert :
    (t : ℕ) (es xs : List ℕ) → mem t es ≡ false → Pending es xs → Pending es (insert ltb t xs)
Pending-insert t [] xs m p = tt
Pending-insert t (e ∷ es) xs m p =
    (p.0, member-insert e t xs ∙ ground arith, Pending-insert t es xs (ground arith) p.2)

-- What a timer becomes when it fires.
abbrev pub fired : ℕ → Timer → Timer
fired now t = if t.recurring then record t { next = add64 now t.ms } else record t { cb = empty }

-- The invariant of the loop, which is to leave the timers as `goal` has them: a timer with a
-- callback is in the set or still to come.
pub record LoopInv (now : ℕ) (goal : ℕ → Timer) (all es : List ℕ) (m : TimerManager) : Type 0 where
  pub sorted : IsSorted ltb m.timers
  pub pending : Pending es m.timers
  pub armed : (a : ℕ) → is_set (m.heap a).cb ≡ true → (mem a es || mem a m.timers) ≡ true
  pub inside :
      (a : ℕ) → (mem a es && (m.heap a).recurring || mem a m.timers) ≡ true → mem a all ≡ true
  pub there : (a : ℕ) → mem a m.timers ≡ true → (m.heap a).next ≡ (goal a).next
  pub ahead :
      (a : ℕ)
      → mem a es ≡ true
      → (m.heap a).recurring ≡ true
      → add64 now (m.heap a).ms ≡ (goal a).next

module _ (now : ℕ) (goal : ℕ → Timer) (all : List ℕ) (agree : Agree goal all) where
  pub reinsert-Agree :
      (t : ℕ) (ts : List ℕ) (m : TimerManager)
      → LoopInv now goal all (t ∷ ts) m
      → (m.heap t).recurring ≡ true
      → Agree (reinsert now t m).heap (t ∷ m.timers)
  unfolding reinsert
  reinsert-Agree t ts m inv e =
      Agree-sub goal (reinsert now t m).heap all (t ∷ m.timers)
        (λ a there. (inv.inside a (within a there), same a there)) agree
    where
      within :
          (a : ℕ)
          → mem a (t ∷ m.timers) ≡ true
          → (mem a (t ∷ ts) && (m.heap a).recurring || mem a m.timers) ≡ true
      within a there = elim (Bool-cases (a == t)) [
        | inl f ↦ ground (arith, f, e, ap (λ b. (m.heap b).recurring) ((==_iff a t).0 f))
        | inr f ↦ ground (arith, f, there)
      ]

      same :
          (a : ℕ) → mem a (t ∷ m.timers) ≡ true → ((reinsert now t m).heap a).next ≡ (goal a).next
      same a there = elim (Bool-cases (a == t)) [
        | inl f ↦
            ground
              (arith, f, inv.ahead t (ground arith) e, ap (λ b. (goal b).next) ((==_iff a t).0 f))
        | inr f ↦ ground (arith, f, inv.there a (ground (arith, f, there)))
      ]

  reinsert-LoopInv :
      (t : ℕ) (ts : List ℕ) (m : TimerManager)
      → LoopInv now goal all (t ∷ ts) m
      → (m.heap t).recurring ≡ true
      → LoopInv now goal all ts (reinsert now t m)
  unfolding reinsert
  reinsert-LoopInv t ts m inv e =
      rw (insert-before (reinsert now t m).heap t m.timers (reinsert-Agree t ts m inv e)) (record {
        sorted = insert-IsSorted ltb ltb-IsOrder t m.timers inv.sorted;
        pending = Pending-insert t ts m.timers inv.pending.0 inv.pending.2;
        armed = λ a set. ground (arith, inv.armed a, member-insert a t m.timers);
        inside = λ a h. inv.inside a (
            still a (
              ap (λ b. mem a ts && ((reinsert now t m).heap a).recurring || b)
                (sym (member-insert a t m.timers))
              ∙ h));
        there = λ a h. back a (sym (member-insert a t m.timers) ∙ h);
        ahead = λ a h r.
            let other = ne-mem a t ts h inv.pending.0 in
            ground (arith, other, inv.ahead a (ground (arith, h)));
      })
    where
      still :
          (a : ℕ)
          → (mem a ts && ((reinsert now t m).heap a).recurring || mem a (t ∷ m.timers)) ≡ true
          → (mem a (t ∷ ts) && (m.heap a).recurring || mem a m.timers) ≡ true
      still a h = elim (Bool-cases (a == t)) [
        | inl f ↦ ground (arith, f, e, ap (λ b. (m.heap b).recurring) ((==_iff a t).0 f))
        | inr f ↦ ground (arith, f, h)
      ]

      back :
          (a : ℕ) → mem a (t ∷ m.timers) ≡ true → ((reinsert now t m).heap a).next ≡ (goal a).next
      back a h = elim (Bool-cases (a == t)) [
        | inl f ↦
            ground
              (arith, f, inv.ahead t (ground arith) e, ap (λ b. (goal b).next) ((==_iff a t).0 f))
        | inr f ↦ ground (arith, f, inv.there a (ground (arith, f, h)))
      ]

  retire-LoopInv :
      (t : ℕ) (ts : List ℕ) (m : TimerManager)
      → LoopInv now goal all (t ∷ ts) m
      → LoopInv now goal all ts (retire t m)
  unfolding retire
  retire-LoopInv t ts m inv = record {
    sorted = inv.sorted;
    pending = inv.pending.2;
    armed = λ a set. ground (arith, inv.armed a);
    inside = λ a h. inv.inside a (still a h);
    there = λ a h. ground (arith, ne-mem a t m.timers h inv.pending.1, inv.there a h);
    ahead = λ a h r.
        let other = ne-mem a t ts h inv.pending.0 in
        ground (arith, other, inv.ahead a (ground (arith, h)));
  }
    where
      still :
          (a : ℕ)
          → (mem a ts && ((retire t m).heap a).recurring || mem a m.timers) ≡ true
          → (mem a (t ∷ ts) && (m.heap a).recurring || mem a m.timers) ≡ true
      still a h = elim (Bool-cases (a == t)) [
        | inl f ↦ ground (
          arith,
          f,
          h,
          inv.pending,
          ap (λ b. mem b ts) ((==_iff a t).0 f),
          ap (λ b. mem b m.timers) ((==_iff a t).0 f),
        )
        | inr f ↦ ground (arith, f, h)
      ]

  pub rearm-LoopInv :
      (t : ℕ) (ts : List ℕ) (m : TimerManager)
      → LoopInv now goal all (t ∷ ts) m
      → LoopInv now goal all ts (rearm now t m)
  unfolding rearm
  rearm-LoopInv t ts m inv = elim (Bool-cases (m.heap t).recurring) [
    | inl e ↦ rw e (reinsert-LoopInv t ts m inv e)
    | inr e ↦ rw e (retire-LoopInv t ts m inv)
  ]

  pub fire-LoopInv :
      (ts : List ℕ) (cbs : List Callback) (m : TimerManager)
      → LoopInv now goal all ts m
      → LoopInv now goal all [] (fire now ts cbs m).1
  unfolding fire
  fire-LoopInv [] cbs m inv = inv
  fire-LoopInv (t ∷ ts) cbs m inv =
      fire-LoopInv ts (cbs ++ (m.heap t).cb ∷ []) (rearm now t m) (rearm-LoopInv t ts m inv)

rearm-cb :
    (now t a : ℕ) (m : TimerManager)
    → (a == t) ≡ false
    → ((rearm now t m).heap a).cb ≡ (m.heap a).cb
unfolding rearm reinsert retire
rearm-cb now t a m n = ground arith

-- The callbacks taken are those that the timers had, in order.
pub fire-cbs :
    (f : ℕ → Callback) (now : ℕ) (ts : List ℕ) (cbs : List Callback) (m : TimerManager)
    (xs : List ℕ)
    → Pending ts xs
    → ((a : ℕ) → mem a ts ≡ true → (m.heap a).cb ≡ f a)
    → (fire now ts cbs m).0 ≡ cbs ++ map f ts
unfolding fire
fire-cbs f now [] cbs m xs p same = sym (append-nil cbs)
fire-cbs f now (t ∷ ts) cbs m xs p same =
    fire-cbs f now ts (cbs ++ (m.heap t).cb ∷ []) (rearm now t m) xs p.2 later
    ∙ append_assoc cbs ((m.heap t).cb ∷ []) (map f ts)
    ∙ ap (λ c. cbs ++ c ∷ map f ts) (same t (ground arith))
  where
    later : (a : ℕ) → mem a ts ≡ true → ((rearm now t m).heap a).cb ≡ f a
    later a e = rearm-cb now t a m (ne-mem a t ts e p.0) ∙ same a (ground arith)

-- A timer that the loop goes through is not in the set.
pub apart : (a : ℕ) (es xs : List ℕ) → Pending es xs → mem a es ≡ true → mem a xs ≡ false
apart a [] xs p e = cc
apart a (x ∷ es) xs p e = elim (Bool-cases (a == x)) [
  | inl f ↦ ap (λ b. mem b xs) ((==_iff a x).0 f) ∙ p.1
  | inr f ↦ apart a es xs p.2 (ground (arith, f))
]
