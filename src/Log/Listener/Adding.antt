-- ===== src/Log/Listener/Adding.antt =====
-- The loop of the listener over a definition's appenders.
use mathlib.Core.List.{append-nil, append_assoc}
use collabor_ative_schedule.Base.{
  ◌≡◌, refl, sym, ap, ◌∙◌, ◌<◌, ◌+◌, Bool, true, false, ◌&&◌, ◌||◌, List, [], ◌∷◌, ◌++◌, map,
  Option, none, some, ◌==◌, if◌then◌else◌, ok, Str, ℕ, zero, suc, arith, Bool-cases, inl, inr,
  length,
}
use collabor_ative_schedule.Fiber.{put}
use collabor_ative_schedule.Scheduler.{is_some}
use collabor_ative_schedule.Log.Pattern.{init}
use collabor_ative_schedule.Log.Level.{Level}
use collabor_ative_schedule.Log.Defines.{AppenderDefine}
use collabor_ative_schedule.Log.Logger.{
  Appender, Logger, Logs, make_appender, set_appender_level, set_appender_formatter, add_appender,
}
use collabor_ative_schedule.Log.Listener.{give_pattern, add_defined, add_each_defined, make_defined}

-- A definition's own pattern: none if it is empty or an error.
abbrev pub own_pattern : Str → Option Str
own_pattern [] = none
own_pattern (c ∷ f) = if (init (c ∷ f)).error then none else some (c ∷ f)

abbrev pub or_else : {A : Type 0} → Option A → Option A → Option A
or_else none d = d
or_else (some p) d = some p

-- The appender that a definition asks for, of a logger with the formatter `f`.
abbrev pub appender_of : Option Str → AppenderDefine → Appender
appender_of f a = record {
  level = a.level;
  has_formatter = is_some (own_pattern a.formatter);
  formatter = or_else (own_pattern a.formatter) f;
  file = if a.type == 1 then some a.file else none;
}

-- The types that there are.
abbrev pub usable : AppenderDefine → Bool
usable a = a.type == 1 || a.type == 2

abbrev pub all_usable : List AppenderDefine → Bool
all_usable [] = true
all_usable (a ∷ xs) = usable a && all_usable xs

abbrev pub from : ℕ → ℕ → List ℕ
from n zero = []
from n (suc k) = n ∷ from (n + 1) k

abbrev pub with_appenders : Logger → List ℕ → Logger
with_appenders g xs = record g { appenders = xs }

-- From `s`, `t` has `k` new appenders, which are the last of the logger `l`.
pub record Grown (l k : ℕ) (s t : Logs) : Type 0 where
  pub grows : t.next ≡ s.next + k
  pub logger :
      t.loggers l ≡ record (s.loggers l) { appenders = (s.loggers l).appenders ++ from s.next k }
  pub others : (m : ℕ) → (m == l) ≡ false → t.loggers m ≡ s.loggers m
  pub earlier : (a : ℕ) → a < s.next → t.appenders a ≡ s.appenders a
  pub names : t.names ≡ s.names
  pub root : t.root ≡ s.root

pub put-same : {A : Type 0} (f : ℕ → A) (a : ℕ) (v : A) → put f a v a ≡ v
put-same f a v = ground arith

pub put-other : {A : Type 0} (f : ℕ → A) (a b : ℕ) (v : A) → (b == a) ≡ false → put f a v b ≡ f b
put-other f a b v e = rw e refl

abbrev pub one_more : ℕ → Option Str → Level → Str → Logs → Logs
one_more l file v f s =
    let made = make_appender file s in
    add_appender l made.0 (give_pattern f made.0 (set_appender_level made.0 v made.1))

one_more-Grown :
    (l : ℕ) (file : Option Str) (v : Level) (f : Str) (s : Logs)
    → Grown l 1 s (one_more l file v f s)
unfolding make_appender add_appender give_pattern set_appender_formatter
one_more-Grown l file v [] s = record {
  grows = refl;
  logger = put-same s.loggers l _;
  others = λ m e. put-other s.loggers l m _ e;
  earlier = λ a e. ground arith;
  names = refl;
  root = refl;
}
one_more-Grown l file v (c ∷ f) s = elim (Bool-cases (init (c ∷ f)).error) [
  | inl x ↦ rw x record {
    grows = refl;
    logger = put-same s.loggers l _;
    others = λ m e. put-other s.loggers l m _ e;
    earlier = λ a e. ground arith;
    names = refl;
    root = refl;
  }
  | inr x ↦ rw x record {
    grows = refl;
    logger = put-same s.loggers l _;
    others = λ m e. put-other s.loggers l m _ e;
    earlier = λ a e. ground arith;
    names = refl;
    root = refl;
  }
]

one_more-appender :
    (l : ℕ) (file : Option Str) (v : Level) (f : Str) (s : Logs)
    → (one_more l file v f s).appenders s.next ≡ record {
      level = v;
      has_formatter = is_some (own_pattern f);
      formatter = or_else (own_pattern f) (s.loggers l).formatter;
      file = file;
    }
unfolding make_appender add_appender give_pattern set_appender_formatter
one_more-appender l file v [] s = ground arith
one_more-appender l file v (c ∷ f) s = elim (Bool-cases (init (c ∷ f)).error) [
  | inl x ↦ rw x (ground arith)
  | inr x ↦ rw x (ground arith)
]

pub add_defined_lem :
    (l : ℕ) (a : AppenderDefine) (s : Logs)
    → usable a ≡ true
    → add_defined l a s
      ≡ ok (one_more l (if a.type == 1 then some a.file else none) a.level a.formatter s)
unfolding add_defined make_defined make_appender
add_defined_lem l a s u = elim (Bool-cases (a.type == 1)) [
  | inl e ↦ rw (add_defined, make_defined, e) refl
  | inr e ↦
      let g : (a.type == 2) ≡ true = ground (arith, e, u) in
      rw (add_defined, make_defined, e, g) refl
]

Grown-suc : (l k : ℕ) (s t u : Logs) → Grown l 1 s t → Grown l k t u → Grown l (suc k) s u
Grown-suc l k s t u g h = record {
  grows = omega (arith, g.grows, h.grows);
  logger =
      h.logger
      ∙ ap (λ x. with_appenders x (x.appenders ++ from t.next k)) g.logger
      ∙ ap (with_appenders (s.loggers l)) (
          append_assoc (s.loggers l).appenders (s.next ∷ []) (from t.next k)
          ∙ ap (λ n. (s.loggers l).appenders ++ s.next ∷ from n k) g.grows);
  others = λ m e. h.others m e ∙ g.others m e;
  earlier = λ a e. h.earlier a (omega (arith, e, g.grows)) ∙ g.earlier a e;
  names = h.names ∙ g.names;
  root = h.root ∙ g.root;
}

Grown-none : (l : ℕ) (s : Logs) → Grown l 0 s s
Grown-none l s = record {
  grows = omega arith;
  logger = ap (with_appenders (s.loggers l)) (sym (append-nil (s.loggers l).appenders));
  others = λ m e. refl;
  earlier = λ a e. refl;
  names = refl;
  root = refl;
}

-- With types that there are, the loop makes an appender for each definition.
pub add_each_lem :
    (l : ℕ) (xs : List AppenderDefine) (s : Logs)
    → all_usable xs ≡ true
    → (t : Logs) × (add_each_defined l xs s ≡ ok t)
      × Grown l (length xs) s t
      × (map t.appenders (from s.next (length xs)) ≡ map (appender_of (s.loggers l).formatter) xs)
unfolding add_each_defined
add_each_lem l [] s u = (s, refl, Grown-none l s, refl)
add_each_lem l (a ∷ xs) s u =
    let file = if a.type == 1 then some a.file else none in
    let m = one_more l file a.level a.formatter s in
    let g = one_more-Grown l file a.level a.formatter s in
    let (t, e, h, v) = add_each_lem l xs m (ground (arith, u)) in
    let first : t.appenders s.next ≡ appender_of (s.loggers l).formatter a =
      h.earlier s.next (omega (arith, g.grows)) ∙ one_more-appender l file a.level a.formatter s in
    let rest : map t.appenders (from (s.next + 1) (length xs))
        ≡ map (appender_of (s.loggers l).formatter) xs =
      ap (λ n. map t.appenders (from n (length xs))) (sym g.grows)
      ∙ v
      ∙ ap (λ x. map (appender_of x.formatter) xs) g.logger in
    (
      t,
      rw (add_each_defined, add_defined_lem l a s (ground (arith, u))) e,
      Grown-suc l (length xs) s m t g h,
      cc,
    )
