-- ===== src/Locks/Guarding.antt =====
-- The scoped locks of hps_sf/mutex.h on one lock, by several threads. hps_Mutex, hps_Spinlock and
-- hps_RWMutex pass each call on to pthread, whose lock is a parameter.
use mathlib.Core.Option.{some-injective}
use collabor_ative_schedule.Base.{
  ℕ, ◌≡◌, refl, sym, ap, subst, ◌∙◌, ◌⊎◌, inl, inr, Bool, true, false, List, [], ◌∷◌, Option, none,
  some, ◌==◌, ==_iff, if◌then◌else◌, Bool-cases,
}
use collabor_ative_schedule.Fiber.{put}
use collabor_ative_schedule.Locks.{
  Op, lock, rdlock, wrlock, unlock, ScopedLock, new_scoped_lock, new_read_lock, new_write_lock,
  lock_scoped, lock_read, lock_write, unlock_scoped, destroy_scoped,
}
use collabor_ative_schedule.Locks.Scoped.{
  Kind, plain, reading, writing, acquire, construct, Request, locks, unlocks, answer,
}

-- A lock of pthread: a call that takes it, where it does not block, the call that gives it back,
-- and how a thread holds it.
pub record Primitive (S : Type 0) : Type 0 where
  pub take : Op → ℕ → S → Option S
  pub give : ℕ → S → S
  pub holds : S → ℕ → Option Op
  pub initial : S

-- What pthread documents of its locks, for threads that take a lock only when they do not hold it.
pub record Laws {S : Type 0} (p : Primitive S) : Type 0 where
  pub free : (t : ℕ) → p.holds p.initial t ≡ none
  pub taken :
      (op : Op) (t : ℕ) (s s' : S)
      → p.take op t s ≡ some s'
      → (p.holds s' t ≡ some op) × ((u : ℕ) → (u == t) ≡ false → p.holds s' u ≡ p.holds s u)
  pub shared :
      (op mode : Op) (t u : ℕ) (s s' : S)
      → p.take op t s ≡ some s'
      → (u == t) ≡ false
      → p.holds s u ≡ some mode
      → (op ≡ rdlock) × (mode ≡ rdlock)
  pub given :
      (t : ℕ) (s : S)
      → (p.holds (p.give t s) t ≡ none)
        × ((u : ℕ) → (u == t) ≡ false → p.holds (p.give t s) u ≡ p.holds s u)

-- A scoped lock of which only the calls from here on are kept.
abbrev pub from_here : ScopedLock → ScopedLock
from_here x = record x { ops = [] }

-- How a thread holds the lock, by its scoped lock.
abbrev pub held : Option (Kind × ScopedLock) → Option Op
held none = none
held (some (k, x)) = if x.locked then some (acquire k) else none

module _ {S : Type 0} (p : Primitive S) where
  -- The calls of a thread on the lock, one after the other.
  abbrev pub perform : List Op → ℕ → S → Option S
  perform [] t s = some s
  perform (unlock ∷ ops) t s = perform ops t (p.give t s)
  perform (lock ∷ ops) t s = elim (p.take lock t s) [ none ↦ none | some s' ↦ perform ops t s' ]
  perform (rdlock ∷ ops) t s = elim (p.take rdlock t s) [ none ↦ none | some s' ↦ perform ops t s' ]
  perform (wrlock ∷ ops) t s = elim (p.take wrlock t s) [ none ↦ none | some s' ↦ perform ops t s' ]

  -- The lock, and the scoped lock of each thread.
  pub record System : Type 0 where
    pub guarded : S
    pub scopes : ℕ → Option (Kind × ScopedLock)

  abbrev pub idle_system : System
  idle_system = record { guarded = p.initial; scopes = λ t. none }

  -- The constructor, `lock` or `unlock`, or the destructor of a thread's scoped lock, with its
  -- calls.
  pub data Step (c : System) : System → Type 0 where
    constructs :
        (t : ℕ) (k : Kind) (s : S)
        → c.scopes t ≡ none
        → perform (construct k []).ops t c.guarded ≡ some s
        → Step c (record { guarded = s; scopes = put c.scopes t (some (k, construct k [])) })
    answers :
        (t : ℕ) (k : Kind) (x : ScopedLock) (r : Request) (s : S)
        → c.scopes t ≡ some (k, x)
        → perform (answer k r (from_here x)).ops t c.guarded ≡ some s
        → Step c
            (record { guarded = s; scopes = put c.scopes t (some (k, answer k r (from_here x))) })
    destroys :
        (t : ℕ) (k : Kind) (x : ScopedLock) (s : S)
        → c.scopes t ≡ some (k, x)
        → perform (destroy_scoped (from_here x)).ops t c.guarded ≡ some s
        → Step c (record { guarded = s; scopes = put c.scopes t none })

  pub data Reach : System → Type 0 where
    here : Reach idle_system
    next : {c c' : System} → Reach c → Step c c' → Reach c'

  -- What the calls of one thread change.
  data Change (t : ℕ) (s : S) : Option Op → Option Op → S → Type 0 where
    stays : {h : Option Op} → Change t s h h s
    takes : (op : Op) (s' : S) → p.take op t s ≡ some s' → Change t s none (some op) s'
    gives : {h : Option Op} → Change t s h none (p.give t s)

  taking :
      (op : Op) (t : ℕ) (s s' : S)
      → (elim (p.take op t s) [ none ↦ none | some s₁ ↦ some s₁ ]) ≡ some s'
      → Change t s none (some op) s'
  taking op t s s' e = takes op s' (sym (kept (p.take op t s)) ∙ e)
    where
      kept : (o : Option S) → elim o as (λ _. Option S) [ none ↦ none | some s₁ ↦ some s₁ ] ≡ o
      kept none = refl
      kept (some s₁) = refl

  -- No call changes nothing.
  staying :
      (t : ℕ) (s s' : S) (h : Option Op) → Path (Option S) (some s) (some s') → Change t s h h s'
  staying t s s' h e = subst (Change t s h h) (some-injective s s' e) stays

  giving :
      (t : ℕ) (s s' : S) (h : Option Op)
      → Path (Option S) (some (p.give t s)) (some s')
      → Change t s h none s'
  giving t s s' h e = subst (Change t s h none) (some-injective (p.give t s) s' e) gives

  constructed :
      (k : Kind) (t : ℕ) (s s' : S)
      → perform (construct k []).ops t s ≡ some s'
      → Change t s none (held (some (k, construct k []))) s'
  unfolding new_scoped_lock new_read_lock new_write_lock
  constructed plain t s s' e = taking lock t s s' e
  constructed reading t s s' e = taking rdlock t s s' e
  constructed writing t s s' e = taking wrlock t s s' e

  answered :
      (k : Kind) (r : Request) (b : Bool) (before : List Op) (t : ℕ) (s s' : S)
      → let x : ScopedLock = record { locked = b; ops = before } in
        perform (answer k r (from_here x)).ops t s ≡ some s'
        → Change t s (held (some (k, x))) (held (some (k, answer k r (from_here x)))) s'
  unfolding lock_scoped lock_read lock_write unlock_scoped
  answered k unlocks true before t s s' e = giving t s s' _ e
  answered k unlocks false before t s s' e = staying t s s' none e
  answered plain locks true before t s s' e = staying t s s' (some lock) e
  answered plain locks false before t s s' e = taking lock t s s' e
  answered reading locks true before t s s' e = staying t s s' (some rdlock) e
  answered reading locks false before t s s' e = taking rdlock t s s' e
  answered writing locks true before t s s' e = staying t s s' (some wrlock) e
  answered writing locks false before t s s' e = taking wrlock t s s' e

  destroyed :
      (k : Kind) (b : Bool) (before : List Op) (t : ℕ) (s s' : S)
      → let x : ScopedLock = record { locked = b; ops = before } in
        perform (destroy_scoped (from_here x)).ops t s ≡ some s'
        → Change t s (held (some (k, x))) none s'
  unfolding destroy_scoped unlock_scoped
  destroyed k true before t s s' e = giving t s s' _ e
  destroyed k false before t s s' e = staying t s s' none e

  -- The scoped locks say how the lock is held, and who holds it shares it only for reading.
  record Inv (c : System) : Type 0 where
    agree : (t : ℕ) → p.holds c.guarded t ≡ held (c.scopes t)
    shares :
        (t u : ℕ) (m n : Op)
        → (u == t) ≡ false
        → p.holds c.guarded t ≡ some m
        → p.holds c.guarded u ≡ some n
        → (m ≡ rdlock) × (n ≡ rdlock)

  module _ (laws : Laws p) where
    -- The thread holds the lock as the change says, the others as before, and what it takes is
    -- shared only for reading.
    record Effect (t : ℕ) (s : S) (old new : Option Op) (s' : S) : Type 0 where
      here : p.holds s' t ≡ new
      others : (u : ℕ) → (u == t) ≡ false → p.holds s' u ≡ p.holds s u
      shares :
          (u : ℕ) (m n : Op)
          → (u == t) ≡ false
          → new ≡ some m
          → p.holds s u ≡ some n
          → (old ≡ some m) ⊎ (m ≡ rdlock) × (n ≡ rdlock)

    effect :
        {t : ℕ} {s s' : S} {old new : Option Op}
        → p.holds s t ≡ old
        → Change t s old new s'
        → Effect t s old new s'
    effect h stays = record { here = h; others = λ u e. refl; shares = λ u m n e q r. inl q }
    effect {t} {s} h (takes op s' e) = record {
      here = (laws.taken op t s s' e).0;
      others = (laws.taken op t s s' e).1;
      shares = λ u m n d q r.
          let (x, y) = laws.shared op n t u s s' e d r in inr (sym (some-injective op m q) ∙ x, y);
    }
    effect {t} {s} h gives = record {
      here = (laws.given t s).0;
      others = (laws.given t s).1;
      shares = λ u m n d q r. cc;
    }

    module _ (t : ℕ) (c : System) (s' : S) (v : Option (Kind × ScopedLock)) (inv : Inv c)
        (f : Effect t c.guarded (held (c.scopes t)) (held v) s') where
      agree_after : (u : ℕ) → p.holds s' u ≡ held (put c.scopes t v u)
      agree_after u = elim (Bool-cases (u == t)) [
        | inl e ↦ ap (p.holds s') ((==_iff u t).0 e) ∙ f.here ∙ rw e refl
        | inr e ↦ f.others u e ∙ inv.agree u ∙ rw e refl
      ]

      -- The thread that changed, against another.
      shares_here :
          (u : ℕ) (m n : Op)
          → (u == t) ≡ false
          → p.holds s' t ≡ some m
          → p.holds s' u ≡ some n
          → (m ≡ rdlock) × (n ≡ rdlock)
      shares_here u m n d x y =
          let r = sym (f.others u d) ∙ y in
          elim (f.shares u m n d (sym f.here ∙ x) r) [
            | inl q ↦ inv.shares t u m n d (inv.agree t ∙ q) r
            | inr q ↦ q
          ]

      shares_after :
          (a b : ℕ) (m n : Op)
          → (b == a) ≡ false
          → p.holds s' a ≡ some m
          → p.holds s' b ≡ some n
          → (m ≡ rdlock) × (n ≡ rdlock)
      shares_after a b m n d x y = elim (Bool-cases (a == t)) [
        | inl e ↦
            let q = (==_iff a t).0 e in
            shares_here b m n (ap (λ k. b == k) (sym q) ∙ d) (ap (p.holds s') (sym q) ∙ x) y
        | inr e ↦ elim (Bool-cases (b == t)) [
          | inl g ↦
              let q = (==_iff b t).0 g in
              let (k, l) = shares_here a n m e (ap (p.holds s') (sym q) ∙ y) x in (l, k)
          | inr g ↦ inv.shares a b m n d (sym (f.others a e) ∙ x) (sym (f.others b g) ∙ y)
        ]
      ]

    changed :
        (t : ℕ) (c : System) (s' : S) (v w : Option (Kind × ScopedLock))
        → Inv c
        → c.scopes t ≡ w
        → Change t c.guarded (held w) (held v) s'
        → Inv (record { guarded = s'; scopes = put c.scopes t v })
    changed t c s' v w inv o change =
        let f =
          effect (inv.agree t)
            (subst (λ x. Change t c.guarded (held x) (held v) s') (sym o) change) in
        record { agree = agree_after t c s' v inv f; shares = shares_after t c s' v inv f }

    Step-Inv : {c c' : System} → Inv c → Step c c' → Inv c'
    Step-Inv {c} inv (constructs t k s e r) =
        changed t c s (some (k, construct k [])) none inv e (constructed k t c.guarded s r)
    Step-Inv {c} inv (answers t k x q s e r) =
        changed t c s (some (k, answer k q (from_here x))) (some (k, x)) inv e
          (answered k q x.locked x.ops t c.guarded s r)
    Step-Inv {c} inv (destroys t k x s e r) =
        changed t c s none (some (k, x)) inv e (destroyed k x.locked x.ops t c.guarded s r)

    Reach-Inv : {c : System} → Reach c → Inv c
    Reach-Inv here = record {
      agree = laws.free;
      shares = λ t u m n d x y. let z = laws.free t in cc;
    }
    Reach-Inv (next r s) = Step-Inv (Reach-Inv r) s

    -- When pthread's lock keeps its promises and each thread has at most one scoped lock on it at a
    -- time: whatever the threads do with their scoped locks, in any order, m_locked says exactly
    -- whether the thread holds the lock, and in which way; and two threads whose scoped locks are
    -- both locked are both reading.
    pub Reach-guards :
        {c : System}
        → Reach c
        → (t u : ℕ) (j k : Kind) (x y : ScopedLock) → (u == t) ≡ false
        → c.scopes t ≡ some (j, x)
        → c.scopes u ≡ some (k, y)
        → (p.holds c.guarded t ≡ (if x.locked then some (acquire j) else none))
          × (x.locked ≡ true → y.locked ≡ true → (j ≡ reading) × (k ≡ reading))
    Reach-guards {c} r t u j k x y d e f =
        let inv = Reach-Inv r in
        let a = inv.agree t ∙ ap held e in
        let b = inv.agree u ∙ ap held f in
        (
          a,
          λ g h.
              let (m, n) =
                inv.shares t u (acquire j) (acquire k) d (a ∙ rw g refl) (b ∙ rw h refl) in
              (only_reading j m, only_reading k n),
        )
      where
        only_reading : (k : Kind) → acquire k ≡ rdlock → k ≡ reading
        only_reading reading q = refl
        only_reading plain q = cc
        only_reading writing q = cc
