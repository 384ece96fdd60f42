-- ===== src/Locks/Scoped.antt =====
-- The scoped locks of hps_sf/mutex.h over their whole life.
use mathlib.Core.List.{append-nil, append_assoc}
use collabor_ative_schedule.Base.{
  ◌≡◌, refl, sym, ap, subst, ◌∙◌, inl, inr, Bool, true, false, not, List, [], ◌∷◌, ◌++◌,
  if◌then◌else◌, Bool-cases,
}
use collabor_ative_schedule.Locks.{
  Op, lock, rdlock, wrlock, unlock, ScopedLock, calls, new_scoped_lock, new_read_lock,
  new_write_lock, lock_scoped, lock_read, lock_write, unlock_scoped, destroy_scoped,
}

-- The three templates.
pub data Kind : Type 0 where
  plain reading writing : Kind

abbrev pub acquire : Kind → Op
acquire plain = lock
acquire reading = rdlock
acquire writing = wrlock

abbrev pub construct : Kind → List Op → ScopedLock
construct plain = new_scoped_lock
construct reading = new_read_lock
construct writing = new_write_lock

abbrev pub lock_as : Kind → ScopedLock → ScopedLock
lock_as plain = lock_scoped
lock_as reading = lock_read
lock_as writing = lock_write

-- The calls of `lock` and `unlock` between the constructor and the destructor.
pub data Request : Type 0 where
  locks unlocks : Request

abbrev pub answer : Kind → Request → ScopedLock → ScopedLock
answer k locks = lock_as k
answer k unlocks = unlock_scoped

abbrev pub answer_all : Kind → List Request → ScopedLock → ScopedLock
answer_all k [] s = s
answer_all k (r ∷ rs) s = answer_all k rs (answer k r s)

-- The life of a scoped lock.
abbrev pub life : Kind → List Request → List Op → ScopedLock
life k rs before = destroy_scoped (answer_all k rs (construct k before))

-- Calls in turns: `held` says whether the lock is held before them.
abbrev pub InTurns : Kind → Bool → List Op → Type 0
InTurns k held [] = held ≡ false
InTurns k true (op ∷ ops) = (op ≡ unlock) × InTurns k false ops
InTurns k false (op ∷ ops) = (op ≡ acquire k) × InTurns k true ops

-- Calls in turns that leave the lock held, or not.
data Leaves (k : Kind) : Bool → List Op → Type 0 where
  unheld : Leaves k false []
  acquires : {ops : List Op} → Leaves k false ops → Leaves k true (ops ++ acquire k ∷ [])
  releases : {ops : List Op} → Leaves k true ops → Leaves k false (ops ++ unlock ∷ [])

-- Further calls in turns complete them.
complete :
    (k : Kind) {held : Bool} {ops : List Op} (more : List Op)
    → Leaves k held ops
    → InTurns k held more
    → InTurns k false (ops ++ more)
complete k more unheld t = t
complete k more (acquires {ops = ops} l) t =
    subst (InTurns k false) (sym (append_assoc ops (acquire k ∷ []) more))
      (complete k (acquire k ∷ more) l (refl, t))
complete k more (releases {ops = ops} l) t =
    subst (InTurns k false) (sym (append_assoc ops (unlock ∷ []) more))
      (complete k (unlock ∷ more) l (refl, t))

-- The calls of a scoped lock after those of `before`.
record Own (k : Kind) (before : List Op) (s : ScopedLock) : Type 0 where
  mine : List Op
  ops : s.ops ≡ before ++ mine
  turns : Leaves k s.locked mine
  first : (rest : List Op) × (mine ≡ acquire k ∷ rest)

taken :
    (k : Kind) (before : List Op) (s : ScopedLock)
    → Own k before s
    → s.locked ≡ false
    → Own k before (record s { locked = true; ops = s.ops ++ acquire k ∷ [] })
taken k before s own e = record {
  mine = own.mine ++ acquire k ∷ [];
  ops = ap (λ o. o ++ acquire k ∷ []) own.ops ∙ append_assoc before own.mine (acquire k ∷ []);
  turns = acquires (subst (λ b. Leaves k b own.mine) e own.turns);
  first = (own.first.0 ++ acquire k ∷ [], ap (λ o. o ++ acquire k ∷ []) own.first.1);
}

released :
    (k : Kind) (before : List Op) (s : ScopedLock)
    → Own k before s
    → s.locked ≡ true
    → Own k before (record s { locked = false; ops = s.ops ++ unlock ∷ [] })
released k before s own e = record {
  mine = own.mine ++ unlock ∷ [];
  ops = ap (λ o. o ++ unlock ∷ []) own.ops ∙ append_assoc before own.mine (unlock ∷ []);
  turns = releases (subst (λ b. Leaves k b own.mine) e own.turns);
  first = (own.first.0 ++ unlock ∷ [], ap (λ o. o ++ unlock ∷ []) own.first.1);
}

construct-Own : (k : Kind) (before : List Op) → Own k before (construct k before)
unfolding new_scoped_lock new_read_lock new_write_lock
construct-Own plain before = record {
  mine = lock ∷ [];
  ops = refl;
  turns = acquires unheld;
  first = ([], refl);
}
construct-Own reading before = record {
  mine = rdlock ∷ [];
  ops = refl;
  turns = acquires unheld;
  first = ([], refl);
}
construct-Own writing before = record {
  mine = wrlock ∷ [];
  ops = refl;
  turns = acquires unheld;
  first = ([], refl);
}

lock_as_lem :
    (k : Kind) (s : ScopedLock)
    → lock_as k s
      ≡ (if not s.locked then record s { locked = true; ops = s.ops ++ acquire k ∷ [] } else s)
unfolding lock_scoped lock_read lock_write
lock_as_lem plain s = refl
lock_as_lem reading s = refl
lock_as_lem writing s = refl

unlock_idle : (s : ScopedLock) → s.locked ≡ false → unlock_scoped s ≡ s
unfolding unlock_scoped
unlock_idle s e = ap (λ b. if b then record (calls unlock s) { locked = false } else s) e

answer-Own :
    (k : Kind) (before : List Op) (r : Request) (s : ScopedLock)
    → Own k before s
    → Own k before (answer k r s)
unfolding unlock_scoped
answer-Own k before locks s own = elim (Bool-cases s.locked) [
  | inl e ↦ subst (Own k before) (sym (lock_as_lem k s ∙ rw e refl)) own
  | inr e ↦ subst (Own k before) (sym (lock_as_lem k s ∙ rw e refl)) (taken k before s own e)
]
answer-Own k before unlocks s own = elim (Bool-cases s.locked) [
  | inl e ↦ rw e (released k before s own e)
  | inr e ↦ subst (Own k before) (sym (unlock_idle s e)) own
]

answer_all-Own :
    (k : Kind) (before : List Op) (rs : List Request) (s : ScopedLock)
    → Own k before s
    → Own k before (answer_all k rs s)
answer_all-Own k before [] s own = own
answer_all-Own k before (r ∷ rs) s own =
    answer_all-Own k before rs (answer k r s) (answer-Own k before r s own)

unlocked : (s : ScopedLock) → (unlock_scoped s).locked ≡ false
unfolding unlock_scoped
unlocked s = elim (Bool-cases s.locked) [
  | inl e ↦ rw e refl
  | inr e ↦ ap ScopedLock.locked (unlock_idle s e) ∙ e
]

closed :
    (k : Kind) (s : ScopedLock) {ops : List Op}
    → Leaves k (unlock_scoped s).locked ops
    → InTurns k false ops
closed k s {ops} l =
    subst (InTurns k false) (append-nil ops)
      (complete k [] (subst (λ b. Leaves k b ops) (unlocked s) l) refl)

-- For each of the three scoped locks, whatever was called on the guarded lock before, and whatever
-- calls of `lock` and `unlock` are made between the constructor and the destructor: the scoped
-- lock's own calls on the guarded lock come after those from before, they take and release it in
-- turns, beginning with the taking call of that scoped lock and ending with a release, so that the
-- lock is never taken twice nor released while it is not held; and `m_locked` is false at the end.
pub life-InTurns :
    (k : Kind) (rs : List Request) (before : List Op)
    → (mine : List Op) × ((life k rs before).ops ≡ before ++ acquire k ∷ mine)
      × InTurns k true mine
      × ((life k rs before).locked ≡ false)
unfolding destroy_scoped
life-InTurns k rs before =
    let s = answer_all k rs (construct k before) in
    let own =
      answer-Own k before unlocks s (answer_all-Own k before rs _ (construct-Own k before)) in
    let turns = closed k s own.turns in
    let (rest, p) = own.first in
    (rest, own.ops ∙ ap (λ o. before ++ o) p, (subst (InTurns k false) p turns).1, refl)
