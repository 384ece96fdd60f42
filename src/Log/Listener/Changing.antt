-- ===== src/Log/Listener/Changing.antt =====
-- The loop of the listener over all the new definitions.
use collabor_ative_schedule.Base.{
  ◌≡◌, refl, sym, subst, ◌<◌, ◌≤◌, true, false, List, [], ◌∷◌, ok, fault, null_pointer, same_str, ℕ,
  arith, Bool-cases, inl, inr, All,
}
use collabor_ative_schedule.Log.Defines.{LogDefine}
use collabor_ative_schedule.Log.Logger.{Logger, Logs}
use collabor_ative_schedule.Log.Listener.{change_each}
use collabor_ative_schedule.Log.Listener.Keeping.{
  Shape, logger_of, Keeps, Keeps-refl, Keeps-trans, Keeps-logger_of,
}
use collabor_ative_schedule.Log.Listener.Naming.{named_in, Apart, differ_each}
use collabor_ative_schedule.Log.Listener.Applying.{Applied, Applied-later, configure_named}
use collabor_ative_schedule.Log.Listener.Refusing.{
  unchanged, good, all_good, change_one_lem, change_one_fault,
}

pub All-zip :
    {A : Type 0} {P Q R : A → Type 0}
    → ((x : A) → P x → Q x → R x)
    → (xs : List A) → All P xs
    → All Q xs
    → All R xs
All-zip f [] p q = tt
All-zip f (x ∷ xs) p q = (f x p.0 q.0, All-zip f xs p.1 q.1)

-- The appenders of the logger of a definition lie below `low`.
abbrev pub Below : ℕ → Logs → LogDefine → Type 0
Below low s d = All (λ x. x < low) (logger_of d.name s).appenders

pub change_each_lem :
    (low : ℕ) (old ds : List LogDefine) (s : Logs)
    → Shape s
    → low ≤ s.next
    → Apart ds
    → All (Below low s) ds
    → all_good old ds ≡ true
    → (t : Logs) × (change_each old ds s ≡ ok t)
      × All (λ d. Applied low d (logger_of d.name s) t) ds
      × Keeps low (named_in ds) s t
      × Shape t
unfolding change_each
change_each_lem low old [] s shape le apart below g = (s, refl, tt, Keeps-refl low s _, shape)
change_each_lem low old (d ∷ ds) s shape le apart below g =
    let first : unchanged old d ≡ false = ground (arith, g) in
    let (s1, e1, a1, k1, sh1) = configure_named low d s shape (ground (arith, g)) le below.0 in
    let same = λ (x : LogDefine) (n : same_str x.name d.name ≡ false).
      Keeps-logger_of low (λ n. same_str n d.name) s s1 x.name k1 n in
    let apart' = differ_each d.name ds apart.0 in
    let below' : All (Below low s1) ds =
      All-zip (λ x n h. subst (λ (g : Logger). All (λ y. y < low) g.appenders) (sym (same x n)) h)
        ds apart' below.1 in
    let (t, e, a, k, sh) =
      change_each_lem low old ds s1 sh1 (omega (arith, le, k1.grows)) apart.1 below'
        (ground (arith, g)) in
    (
      t,
      rw (change_each, change_one_lem old d s first, e1) e,
      (
        Applied-later low d (logger_of d.name s) (named_in ds) s1 t k apart.0 a1,
        All-zip (λ x n h. subst (λ g. Applied low x g t) (same x n) h) ds apart' a,
      ),
      Keeps-trans low (λ n. same_str n d.name) (named_in ds) s s1 t k1 k,
      sh,
    )

pub change_each_fault :
    (low : ℕ) (old ds : List LogDefine) (s : Logs)
    → Shape s
    → low ≤ s.next
    → Apart ds
    → All (Below low s) ds
    → all_good old ds ≡ false
    → change_each old ds s ≡ fault null_pointer
unfolding change_each
change_each_fault low old [] s shape le apart below g = cc
change_each_fault low old (d ∷ ds) s shape le apart below g = elim (Bool-cases (good old d)) [
  | inr x ↦ rw (change_each, change_one_fault old d s x) refl
  | inl x ↦
      let first : unchanged old d ≡ false = ground (arith, x) in
      let (s1, e1, a1, k1, sh1) = configure_named low d s shape (ground (arith, x)) le below.0 in
      let below' : All (Below low s1) ds =
        All-zip
          (λ (x : LogDefine) n h.
            subst (λ (g : Logger). All (λ y. y < low) g.appenders)
              (sym (Keeps-logger_of low (λ n. same_str n d.name) s s1 x.name k1 n)) h)
          ds (differ_each d.name ds apart.0) below.1 in
      rw (change_each, change_one_lem old d s first, e1)
        (change_each_fault low old ds s1 sh1 (omega (arith, le, k1.grows)) apart.1 below'
          (ground (arith, g, x)))
]
