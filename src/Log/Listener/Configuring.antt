-- ===== src/Log/Listener/Configuring.antt =====
-- What the listener does to one logger.
use collabor_ative_schedule.Base.{
  ◌≡◌, refl, sym, ap, subst, ◌∙◌, ◌<◌, ◌≤◌, ◌+◌, true, false, List, [], ◌∷◌, ◌++◌, map, Option,
  ◌==◌, ok, Str, ℕ, arith, Bool-cases, inl, inr, All, length, not, if◌then◌else◌,
}
use collabor_ative_schedule.Log.Pattern.{init}
use collabor_ative_schedule.Log.Defines.{LogDefine}
use collabor_ative_schedule.Log.Logger.{
  Appender, Logger, Logs, pass_on, set_formatter, set_pattern, set_level, clear_appenders,
}
use collabor_ative_schedule.Log.Listener.{set_defined_pattern, configure}
use collabor_ative_schedule.Log.Listener.Adding.{
  own_pattern, or_else, appender_of, all_usable, from, Grown, add_each_lem, with_appenders,
  put-same, put-other,
}
use collabor_ative_schedule.Fiber.{put}

-- From `s` to `t` only the logger `l` changes, and not its name; of the appenders that there are,
-- those at `low` and above stay as they are.
pub record Touches (low l : ℕ) (s t : Logs) : Type 0 where
  pub others : (m : ℕ) → (m == l) ≡ false → t.loggers m ≡ s.loggers m
  pub same_name : (t.loggers l).name ≡ (s.loggers l).name
  pub earlier : (a : ℕ) → low ≤ a → a < s.next → t.appenders a ≡ s.appenders a
  pub names : t.names ≡ s.names
  pub root : t.root ≡ s.root
  pub grows : s.next ≤ t.next

pub Touches-trans :
    (low l : ℕ) (s t u : Logs) → Touches low l s t → Touches low l t u → Touches low l s u
Touches-trans low l s t u g h = record {
  others = λ m e. h.others m e ∙ g.others m e;
  same_name = h.same_name ∙ g.same_name;
  earlier = λ a e f. h.earlier a e (omega (arith, f, g.grows)) ∙ g.earlier a e f;
  names = h.names ∙ g.names;
  root = h.root ∙ g.root;
  grows = omega (arith, g.grows, h.grows);
}

pub set_logger_touches :
    (low l : ℕ) (g : Logger) (s : Logs)
    → g.name ≡ (s.loggers l).name
    → Touches low l s (record s { loggers = put s.loggers l g })
set_logger_touches low l g s n = record {
  others = λ m e. put-other s.loggers l m g e;
  same_name = ap (λ (x : Logger). x.name) (put-same s.loggers l g) ∙ n;
  earlier = λ a e f. refl;
  names = refl;
  root = refl;
  grows = omega arith;
}

pass_on-keeps :
    (low : ℕ) (xs : List ℕ) (val : Option Str) (f : ℕ → Appender) (a : ℕ)
    → All (λ x. x < low) xs
    → low ≤ a
    → pass_on xs val f a ≡ f a
unfolding pass_on
pass_on-keeps low [] val f a h e = refl
pass_on-keeps low (x ∷ xs) val f a h e =
    let here = if not (f x).has_formatter then put f x (record (f x) { formatter = val }) else f in
    let l = h.0 in
    let differ : (a == x) ≡ false = ground arith in
    let same : here a ≡ f a = elim (Bool-cases (f x).has_formatter) [
      | inl y ↦ rw y refl
      | inr y ↦ rw y (put-other f x a _ differ)
    ] in
    pass_on-keeps low xs val here a h.1 e ∙ same

-- The pattern of a logger after its definition.
abbrev pub new_pattern : LogDefine → Logger → Option Str
new_pattern d g = or_else (own_pattern d.formatter) g.formatter

same : (low l : ℕ) (s : Logs) → Touches low l s s
same low l s = record {
  others = λ m e. refl;
  same_name = refl;
  earlier = λ a e f. refl;
  names = refl;
  root = refl;
  grows = omega arith;
}

set_pattern_lem :
    (low l : ℕ) (f : Str) (s : Logs)
    → All (λ x. x < low) (s.loggers l).appenders
    → let t = set_defined_pattern f l s in
      Touches low l s t
      × (t.next ≡ s.next)
      × (t.loggers l
          ≡ record (s.loggers l) { formatter = or_else (own_pattern f) (s.loggers l).formatter })
unfolding set_defined_pattern set_pattern set_formatter
set_pattern_lem low l [] s h = (same low l s, refl, refl)
set_pattern_lem low l (c ∷ f) s h = elim (Bool-cases (init (c ∷ f)).error) [
  | inl x ↦ rw x (same low l s, refl, refl)
  | inr x ↦ rw x (
    record {
      others = λ m e. put-other s.loggers l m _ e;
      same_name = ap (λ (x : Logger). x.name) (put-same s.loggers l _);
      earlier = λ a e f. pass_on-keeps low (s.loggers l).appenders _ s.appenders a h e;
      names = refl;
      root = refl;
      grows = omega arith;
    },
    refl,
    put-same s.loggers l _,
  )
]

-- A logger after its definition, with appenders at the addresses `xs`.
abbrev pub configured : LogDefine → Logger → List ℕ → Logger
configured d g xs = record g { level = d.level; formatter = new_pattern d g; appenders = xs }

abbrev with_pattern : LogDefine → Logger → Logger
with_pattern d g = record g { formatter = new_pattern d g }

Grown-Touches : (low l k : ℕ) (s t : Logs) → Grown l k s t → Touches low l s t
Grown-Touches low l k s t g = record {
  others = g.others;
  same_name = ap (λ (x : Logger). x.name) g.logger;
  earlier = λ a e f. g.earlier a f;
  names = g.names;
  root = g.root;
  grows = omega (arith, g.grows);
}

-- With types that there are, the logger becomes what its definition says, with new appenders.
pub configure_lem :
    (low l : ℕ) (d : LogDefine) (s : Logs)
    → all_usable d.appenders ≡ true
    → All (λ x. x < low) (s.loggers l).appenders
    → (t : Logs) × (configure d (l, s) ≡ ok t)
      × Touches low l s t
      × (t.next ≡ s.next + length d.appenders)
      × (t.loggers l ≡ configured d (s.loggers l) (from s.next (length d.appenders)))
      × (map t.appenders (from s.next (length d.appenders))
          ≡ map (appender_of (new_pattern d (s.loggers l))) d.appenders)
unfolding configure clear_appenders
configure_lem low l d s u h =
    let a = set_level l d.level s in
    let b = set_defined_pattern d.formatter l a in
    let c = clear_appenders l b in
    let first : a.loggers l ≡ record (s.loggers l) { level = d.level } = put-same s.loggers l _ in
    let (p, q, r) =
      set_pattern_lem low l d.formatter a
        (subst (λ (x : Logger). All (λ y. y < low) x.appenders) (sym first) h) in
    let (t, e, g, v) = add_each_lem l d.appenders c u in
    let k = length d.appenders in
    let ready : c.loggers l ≡ configured d (s.loggers l) [] =
      put-same b.loggers l _ ∙ ap (λ x. with_appenders x []) (r ∙ ap (with_pattern d) first) in
    (
      t,
      e,
      Touches-trans low l s a t (set_logger_touches low l _ s refl) (
          Touches-trans low l a b t p (
            Touches-trans low l b c t (set_logger_touches low l _ b refl)
              (Grown-Touches low l k c t g))),
      omega (arith, g.grows, q),
      g.logger
          ∙ ap (λ x. with_appenders x (x.appenders ++ from c.next k)) ready
          ∙ ap (λ n. configured d (s.loggers l) (from n k)) q,
      ap (λ n. map t.appenders (from n k)) (sym q)
          ∙ v
          ∙ ap (λ (x : Logger). map (appender_of x.formatter) d.appenders) ready,
    )
