-- ===== src/Log/Listener/Keeping.antt =====
-- What the listener leaves alone, and the manager's map of names.
use collabor_ative_schedule.Base.{
  ◌≡◌, refl, sym, ap, ◌∙◌, ◌<◌, ◌≤◌, Bool, false, ◌||◌, Option, none, some, ◌==◌, Str, same_str,
  same_str_refl, same_str-eq, same_str_iff, ==_iff, ℕ, arith, Bool-cases, Option-cases, inl, inr,
  if◌then◌else◌,
}
use mathlib.Core.Option.{some-injective}
use collabor_ative_schedule.Log.Logger.{Logger, Logs, new_logger, get_logger}
use collabor_ative_schedule.Log.Logger.Dispatch.{made, get_logger_new, get_logger_old}
use collabor_ative_schedule.Log.Listener.Adding.{put-same, put-other}
use collabor_ative_schedule.Log.Listener.Configuring.{Touches}

-- The manager maps a name to a logger that has the name, and that is there.
abbrev pub Shape : Logs → Type 0
Shape s = (n : Str) (l : ℕ) → s.names n ≡ some l → ((s.loggers l).name ≡ n) × (l < s.next)

-- The logger of a name, as it is or as it would be made.
abbrev pub logger_at : Option ℕ → Str → Logs → Logger
logger_at none n s = record (new_logger n) { root = some s.root }
logger_at (some l) n s = s.loggers l

abbrev pub logger_of : Str → Logs → Logger
logger_of n s = logger_at (s.names n) n s

-- From `s` to `t` the names that are not touched keep their loggers, and the appenders that there
-- are, at `low` and above, stay as they are.
pub record Keeps (low : ℕ) (touched : Str → Bool) (s t : Logs) : Type 0 where
  pub names : (n : Str) → touched n ≡ false → t.names n ≡ s.names n
  pub loggers :
      (n : Str) (l : ℕ) → touched n ≡ false → s.names n ≡ some l → t.loggers l ≡ s.loggers l
  pub earlier : (a : ℕ) → low ≤ a → a < s.next → t.appenders a ≡ s.appenders a
  pub root : t.root ≡ s.root
  pub grows : s.next ≤ t.next

pub Keeps-refl : (low : ℕ) (s : Logs) (f : Str → Bool) → Keeps low f s s
Keeps-refl low s f = record {
  names = λ n e. refl;
  loggers = λ n l e r. refl;
  earlier = λ a e f. refl;
  root = refl;
  grows = omega arith;
}

pub Keeps-trans :
    (low : ℕ) (f g : Str → Bool) (s t u : Logs)
    → Keeps low f s t
    → Keeps low g t u
    → Keeps low (λ n. f n || g n) s u
Keeps-trans low f g s t u h k = record {
  names = λ n e.
      let x : f n ≡ false = ground (arith, e) in
      let y : g n ≡ false = ground (arith, e) in k.names n y ∙ h.names n x;
  loggers = λ n l e r.
      let x : f n ≡ false = ground (arith, e) in
      let y : g n ≡ false = ground (arith, e) in
      k.loggers n l y (h.names n x ∙ r) ∙ h.loggers n l x r;
  earlier = λ a e f. k.earlier a e (omega (arith, f, h.grows)) ∙ h.earlier a e f;
  root = k.root ∙ h.root;
  grows = omega (arith, h.grows, k.grows);
}

pub Keeps-weaken :
    (low : ℕ) (f g : Str → Bool) (s t : Logs)
    → ((n : Str) → g n ≡ false → f n ≡ false)
    → Keeps low f s t
    → Keeps low g s t
Keeps-weaken low f g s t w k = record {
  names = λ n e. k.names n (w n e);
  loggers = λ n l e r. k.loggers n l (w n e) r;
  earlier = k.earlier;
  root = k.root;
  grows = k.grows;
}

abbrev with_root : Str → ℕ → Logger
with_root n r = record (new_logger n) { root = some r }

pub Keeps-logger_of :
    (low : ℕ) (f : Str → Bool) (s t : Logs) (n : Str)
    → Keeps low f s t
    → f n ≡ false
    → logger_of n t ≡ logger_of n s
Keeps-logger_of low f s t n h e = elim (Option-cases (s.names n)) [
  | inl x ↦
      ap (λ o. logger_at o n t) (h.names n e ∙ x)
      ∙ ap (λ r. with_root n r) h.root
      ∙ sym (ap (λ o. logger_at o n s) x)
  | inr (l, x) ↦
      ap (λ o. logger_at o n t) (h.names n e ∙ x)
      ∙ h.loggers n l e x
      ∙ sym (ap (λ o. logger_at o n s) x)
]

-- A change to the logger of one name keeps the others, and the shape of the map.
pub Touches-Keeps :
    (low : ℕ) (name : Str) (l : ℕ) (s t : Logs)
    → Shape s
    → s.names name ≡ some l
    → Touches low l s t
    → Keeps low (λ n. same_str n name) s t × Shape t
Touches-Keeps low name l s t shape r h =
    let names = λ (n : Str). ap (λ f. f n) h.names in
    let differ = λ (n : Str) (m : ℕ) (e : same_str n name ≡ false) (q : s.names n ≡ some m).
      elim (Bool-cases (m == l)) as (λ _. (m == l) ≡ false) [
        | inl x ↦
            let p = (shape n m q).0 in
            let p' = (shape name l r).0 in
            let eq : n ≡ name = sym p ∙ ap (λ k. (s.loggers k).name) ((==_iff m l).0 x) ∙ p' in
            let y = (same_str_iff n name).1 eq in cc
        | inr x ↦ x
      ] in
    (
      record {
        names = λ n e. names n;
        loggers = λ n m e q. h.others m (differ n m e q);
        earlier = h.earlier;
        root = h.root;
        grows = h.grows;
      },
      λ n m q.
          let q' = sym (names n) ∙ q in
          let (p, lt) = shape n m q' in
          (
            elim (Bool-cases (m == l)) [
              | inl x ↦
                  let eq = (==_iff m l).0 x in
                  ap (λ k. (t.loggers k).name) eq
                  ∙ h.same_name
                  ∙ ap (λ k. (s.loggers k).name) (sym eq)
                  ∙ p
              | inr x ↦ ap (λ (g : Logger). g.name) (h.others m x) ∙ p
            ],
            omega (arith, lt, h.grows),
          ),
    )

pub made_lem :
    (low : ℕ) (name : Str) (s : Logs)
    → Shape s
    → s.names name ≡ none
    → Keeps low (λ n. same_str n name) s (made name s) × Shape (made name s)
made_lem low name s shape x = (
  record {
    names = λ n e. rw e refl;
    loggers = λ n l e r. put-other s.loggers s.next l _ (let lt = (shape n l r).1 in ground arith);
    earlier = λ a e f. refl;
    root = refl;
    grows = omega arith;
  },
  λ n l q. elim (Bool-cases (same_str n name)) [
    | inl y ↦
        let eq =
          some-injective s.next l (ap (λ b. if b then some s.next else s.names n) (sym y) ∙ q) in
        (
          ap (λ k. ((made name s).loggers k).name) (sym eq)
              ∙ ap (λ (g : Logger). g.name) (put-same s.loggers s.next _)
              ∙ sym (same_str-eq n name y),
          omega (arith, eq),
        )
    | inr y ↦
        let (p, lt) = shape n l (ap (λ b. if b then some s.next else s.names n) (sym y) ∙ q) in
        (
          ap (λ (g : Logger). g.name) (put-other s.loggers s.next l _ (ground arith)) ∙ p,
          omega (arith, lt),
        )
  ],
)

-- `getLogger` leaves a logger under the name.
pub get_logger_lem :
    (low : ℕ) (name : Str) (s : Logs)
    → Shape s
    → let r = get_logger name s in
      (r.1.names name ≡ some r.0)
      × (r.1.loggers r.0 ≡ logger_of name s)
      × Keeps low (λ n. same_str n name) s r.1
      × Shape r.1
get_logger_lem low name s shape = elim (Option-cases (s.names name)) [
  | inl x ↦
      let (k, sh) = made_lem low name s shape x in
      rw (get_logger_new name s x) (
        rw (same_str_refl name) refl,
        put-same s.loggers s.next _ ∙ sym (ap (λ o. logger_at o name s) x),
        k,
        sh,
      )
  | inr (l, x) ↦
      rw (get_logger_old name l s x)
        (x, sym (ap (λ o. logger_at o name s) x), Keeps-refl low s _, shape)
]
