-- ===== src/Log/Listener/Brought.antt =====
-- What the listener brings about as a whole.
use collabor_ative_schedule.Base.{
  ◌≡◌, refl, sym, ap, subst, ◌∙◌, ◌<◌, ◌≤◌, true, false, ◌||◌, List, [], ◌∷◌, none, some, Str,
  same_str, same_str-eq, same_str_refl, if◌then◌else◌, ℕ, arith, Bool-cases, Option-cases, inl, inr,
  All, ok, fault, null_pointer,
}
use mathlib.Core.Option.{some-injective}
use collabor_ative_schedule.Config.Casts.RoundTrip.{IsAscending}
use collabor_ative_schedule.Log.Defines.{LogDefine, less_define}
use collabor_ative_schedule.Log.Logger.{Logger, Logs, new_manager, root_name}
use collabor_ative_schedule.Log.Listener.{on_change, remove_each}
use collabor_ative_schedule.Log.Listener.Keeping.{
  Shape, logger_of, logger_at, Keeps, Keeps-trans, Keeps-logger_of,
}
use collabor_ative_schedule.Log.Listener.Naming.{named_in, IsAscending-Apart}
use collabor_ative_schedule.Log.Listener.Applying.{Applied, Applied-later}
use collabor_ative_schedule.Log.Listener.Refusing.{all_good}
use collabor_ative_schedule.Log.Listener.Changing.{
  Below, All-zip, change_each_lem, change_each_fault,
}
use collabor_ative_schedule.Log.Listener.Removing.{Removed, gone, gone-named_in, remove_each_lem}

-- The manager's names lead to loggers of these names, and the loggers' appenders are there.
pub record WellFormed (s : Logs) : Type 0 where
  pub shape : Shape s
  pub below : (n : Str) (l : ℕ) → s.names n ≡ some l → All (λ a. a < s.next) (s.loggers l).appenders

root_only : (n : Str) (l : ℕ) → new_manager.names n ≡ some l → (root_name ≡ n) × (0 ≡ l)
unfolding new_manager
root_only n l e = elim (Bool-cases (same_str n root_name)) [
  | inl x ↦ (
    sym (same_str-eq n root_name x),
    some-injective 0 l (ap (λ b. if b then some 0 else none) (sym x) ∙ e),
  )
  | inr x ↦ let y : none ≡ some l = ap (λ b. if b then some 0 else none) (sym x) ∙ e in cc
]

-- A new manager is in order.
pub new_manager-WellFormed : WellFormed new_manager
unfolding new_manager
new_manager-WellFormed = record {
  shape = λ n l e.
      let (p, q) = root_only n l e in
      subst (λ l. ((new_manager.loggers l).name ≡ n) × (l < 2)) q (p, omega arith);
  below = λ n l e.
      let (p, q) = root_only n l e in
      subst (λ l. All (λ a. a < 2) (new_manager.loggers l).appenders) q (omega arith, tt);
}

-- What the listener does to the loggers, from `s` to `t`: each new definition is applied, each old
-- one that is not among the new is put out, and the other names keep their loggers as they are.
pub record Brought (old new : List LogDefine) (s t : Logs) : Type 0 where
  pub applied : All (λ d. Applied s.next d (logger_of d.name s) t) new
  pub put_out :
      All (λ (d : LogDefine). named_in new d.name ≡ false → Removed d (logger_of d.name s) t) old
  pub others : Keeps s.next (λ n. named_in new n || gone new old n) s t
  pub well_formed : WellFormed t

each-Below : (ds : List LogDefine) (s : Logs) → WellFormed s → All (Below s.next s) ds
each-Below [] s w = tt
each-Below (d ∷ ds) s w = (
  elim (Option-cases (s.names d.name)) [
    | inl x ↦
        subst (λ (g : Logger). All (λ y. y < s.next) g.appenders)
          (sym (ap (λ o. logger_at o d.name s) x)) tt
    | inr (l, x) ↦
        subst (λ (g : Logger). All (λ y. y < s.next) g.appenders)
          (sym (ap (λ o. logger_at o d.name s) x)) (w.below d.name l x)
  ],
  each-Below ds s w,
)

definition_of :
    {P : LogDefine → Type 0} (ds : List LogDefine) (n : Str)
    → named_in ds n ≡ true
    → All P ds
    → (d : LogDefine) × (n ≡ d.name) × P d
definition_of [] n e h = cc
definition_of (d ∷ ds) n e h = elim (Bool-cases (same_str n d.name)) [
  | inl x ↦ (d, same_str-eq n d.name x, h.0)
  | inr x ↦ definition_of ds n (ground (arith, e, x)) h.1
]

gone_definition :
    {P : LogDefine → Type 0} (new ds : List LogDefine) (n : Str)
    → gone new ds n ≡ true
    → All (λ (d : LogDefine). named_in new d.name ≡ false → P d) ds
    → (d : LogDefine) × (n ≡ d.name) × P d
gone_definition new [] n e h = cc
gone_definition new (d ∷ ds) n e h = elim (Bool-cases (gone new ds n)) [
  | inl x ↦ gone_definition new ds n x h.1
  | inr x ↦ (d, same_str-eq n d.name (ground (arith, e, x)), h.0 (ground (arith, e, x)))
]

pub below_later : (n m : ℕ) (xs : List ℕ) → n ≤ m → All (λ a. a < n) xs → All (λ a. a < m) xs
below_later n m [] e h = tt
below_later n m (x ∷ xs) e h = (let l = h.0 in omega (arith, l, e), below_later n m xs e h.1)

newly-below : (low m : ℕ) (xs : List ℕ) → All (λ a. (low ≤ a) × (a < m)) xs → All (λ a. a < m) xs
newly-below low m [] h = tt
newly-below low m (x ∷ xs) h = (h.0.1, newly-below low m xs h.1)

weaken_named :
    (ds : List LogDefine) (e : LogDefine) (xs : List LogDefine)
    → All (λ (d : LogDefine). named_in ds d.name ≡ true) xs
    → All (λ (d : LogDefine). named_in (e ∷ ds) d.name ≡ true) xs
weaken_named ds e [] h = tt
weaken_named ds e (x ∷ xs) h = (let y = h.0 in ground (arith, y), weaken_named ds e xs h.1)

all_named : (ds : List LogDefine) → All (λ (d : LogDefine). named_in ds d.name ≡ true) ds
all_named [] = tt
all_named (d ∷ ds) = (rw (same_str_refl d.name) refl, weaken_named ds d ds (all_named ds))

each_removed :
    (new ds : List LogDefine) (s s1 t : Logs) (low : ℕ)
    → Keeps low (named_in new) s s1
    → All (λ (d : LogDefine). named_in new d.name ≡ false → Removed d (logger_of d.name s1) t) ds
    → All (λ (d : LogDefine). named_in new d.name ≡ false → Removed d (logger_of d.name s) t) ds
each_removed new [] s s1 t low k h = tt
each_removed new (d ∷ ds) s s1 t low k h = (
  λ e. subst (λ g. Removed d g t) (Keeps-logger_of low (named_in new) s s1 d.name k e) (h.0 e),
  each_removed new ds s s1 t low k h.1,
)

-- Where the names have led to their loggers before, or have been applied, or put out, the map is in
-- order.
still_below :
    (old new : List LogDefine) (s t : Logs)
    → WellFormed s
    → All (λ d. Applied s.next d (logger_of d.name s) t) new
    → All (λ (d : LogDefine). named_in new d.name ≡ false → Removed d (logger_of d.name s) t) old
    → Keeps s.next (λ n. named_in new n || gone new old n) s t
    → (n : Str) (l : ℕ) → t.names n ≡ some l
    → All (λ a. a < t.next) (t.loggers l).appenders
still_below old new s t w a r k n l e = elim (Bool-cases (named_in new n)) [
  | inl x ↦
      let (d, p, h) = definition_of new n x a in
      let q = some-injective h.address l (sym h.registered ∙ ap t.names (sym p) ∙ e) in
      subst (λ l. All (λ a. a < t.next) (t.loggers l).appenders) q
        (subst (λ (g : Logger). All (λ a. a < t.next) g.appenders) (sym h.logger)
          (newly-below s.next t.next h.appenders h.newly))
  | inr x ↦ elim (Bool-cases (gone new old n)) [
    | inl y ↦
        let (d, p, h) = gone_definition new old n y r in
        let q = some-injective h.address l (sym h.registered ∙ ap t.names (sym p) ∙ e) in
        subst (λ l. All (λ a. a < t.next) (t.loggers l).appenders) q
          (subst (λ (g : Logger). All (λ a. a < t.next) g.appenders) (sym h.logger) tt)
    | inr y ↦
        let z : (named_in new n || gone new old n) ≡ false = rw (x, y) refl in
        let f = sym (k.names n z) ∙ e in
        subst (λ (g : Logger). All (λ a. a < t.next) g.appenders) (sym (k.loggers n l z f))
          (below_later s.next t.next (s.loggers l).appenders k.grows (w.below n l f))
  ]
]

-- With sets in the order of their names, on a manager that is in order: when no new definition
-- stands in the old set as it is, and all appenders have a type that there is, the listener comes
-- to its end. Then each new definition has its logger, with its level, with its pattern if that is
-- no error, and with a new appender for each that it has; each logger whose definition is gone has
-- no appender and the level 100; all other names have the loggers that they had; and the manager is
-- in order.
pub on_change-Brought :
    (old new : List LogDefine) (s : Logs)
    → WellFormed s
    → IsAscending less_define old
    → IsAscending less_define new
    → all_good old new ≡ true
    → (t : Logs) × (on_change old new s ≡ ok t) × Brought old new s t
unfolding on_change
on_change-Brought old new s w asc asc' g =
    let (s1, e, a, k, sh) =
      change_each_lem s.next old new s w.shape (omega arith) (IsAscending-Apart new asc')
        (each-Below new s w) g in
    let t = remove_each new old s1 in
    let (r, k', sh') = remove_each_lem s.next new old s1 sh (IsAscending-Apart old asc) in
    let applied =
      All-zip
        (λ d h n.
          Applied-later s.next d (logger_of d.name s) (gone new old) s1 t k'
            (gone-named_in new old d.name n) h)
        new a (all_named new) in
    let put_out = each_removed new old s s1 t s.next k r in
    let keeps = Keeps-trans s.next (named_in new) (gone new old) s s1 t k k' in
    (
      t,
      rw (on_change, e) refl,
      record {
        applied = applied;
        put_out = put_out;
        others = keeps;
        well_formed = record {
          shape = sh';
          below = still_below old new s t w applied put_out keeps;
        };
      },
    )

-- On such a manager, when a new definition stands in the old set as it is, or asks for an appender
-- of a type that there is not, the listener calls a method of a null pointer.
pub on_change-faults :
    (old new : List LogDefine) (s : Logs)
    → WellFormed s
    → IsAscending less_define new
    → all_good old new ≡ false
    → on_change old new s ≡ fault null_pointer
unfolding on_change
on_change-faults old new s w asc g =
    let e =
      change_each_fault s.next old new s w.shape (omega arith) (IsAscending-Apart new asc)
        (each-Below new s w) g in
    rw (on_change, e) refl
