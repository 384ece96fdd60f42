-- ===== src/Log/Listener/Routing.antt =====
-- Where events go after the listener has run.
use collabor_ative_schedule.Base.{
  ◌≡◌, refl, sym, ap, subst, ◌∙◌, ◌<◌, true, false, List, [], ◌∷◌, map, Option, some, Str, ℕ, arith,
  Bool-cases, Option-cases, none, suc, inl, inr, All, ok, ◌≢◌, if◌then◌else◌,
}
use collabor_ative_schedule.Config.Casts.RoundTrip.{IsAscending}
use collabor_ative_schedule.Scheduler.{is_some}
use collabor_ative_schedule.Log.Level.{Level, value, at_least}
use collabor_ative_schedule.Log.Defines.{AppenderDefine, LogDefine, less_define}
use collabor_ative_schedule.Log.Logger.{Appender, Logger, Logs, log}
use collabor_ative_schedule.Log.Logger.Dispatch.{writers, Formatted, log_with_appenders, log_below}
use collabor_ative_schedule.Log.Listener.{on_change}
use collabor_ative_schedule.Log.Listener.Adding.{own_pattern, or_else, appender_of}
use collabor_ative_schedule.Log.Listener.Configuring.{new_pattern, configured}
use collabor_ative_schedule.Log.Listener.Keeping.{logger_of}
use collabor_ative_schedule.Log.Listener.Naming.{named_in}
use collabor_ative_schedule.Log.Listener.Applying.{Applied}
use collabor_ative_schedule.Log.Listener.Refusing.{all_good}
use collabor_ative_schedule.Log.Listener.Changing.{All-zip}
use collabor_ative_schedule.Log.Pattern.{init}
use collabor_ative_schedule.Log.Listener.Removing.{Removed}
use collabor_ative_schedule.Log.Listener.Brought.{WellFormed, on_change-Brought}

-- Those of the appenders whose level the event reaches.
abbrev pub reached : Level → List Appender → List Appender
reached v [] = []
reached v (x ∷ xs) = if at_least v x.level then x ∷ reached v xs else reached v xs

reached-writers :
    (v : Level) (t : Logs) (xs : List ℕ)
    → map t.appenders (writers v t xs) ≡ reached v (map t.appenders xs)
reached-writers v t [] = refl
reached-writers v t (x ∷ xs) =
    let rest = reached-writers v t xs in
    elim (Bool-cases (at_least v (t.appenders x).level)) [ inl e ↦ rw e cc | inr e ↦ rw e rest ]

-- An event of the level `v` that is given to the logger of `d` is written by new appenders as `d`
-- has them, by those of them whose level it reaches, in order; by none when it does not reach the
-- level of `d`.
pub record Routed (v : Level) (d : LogDefine) (base : Logger) (t : Logs) : Type 0 where
  pub address : ℕ
  pub outputs : List ℕ
  pub registered : t.names d.name ≡ some address
  pub logged : log 1 v address t ≡ some (ok outputs)
  pub written : map t.appenders outputs ≡ (
      if at_least v d.level
      then reached v (map (appender_of (new_pattern d base)) d.appenders)
      else [])

patterned :
    (f : Option Str) (p : Str) → is_some f ≡ true → is_some (or_else (own_pattern p) f) ≡ true
patterned f [] h = h
patterned f (c ∷ p) h = elim (Bool-cases (init (c ∷ p)).error) [
  | inl e ↦ rw e h
  | inr e ↦ rw e refl
]

all-Formatted :
    (t : Logs) (f : Option Str) (xs : List ℕ) (ds : List AppenderDefine)
    → is_some f ≡ true
    → map t.appenders xs ≡ map (appender_of f) ds
    → Formatted t xs
all-Formatted t f [] ds h e = tt
all-Formatted t f (x ∷ xs) [] h e = cc
all-Formatted t f (x ∷ xs) (a ∷ ds) h e =
    let p : t.appenders x ≡ appender_of f a = cc in
    let q : map t.appenders xs ≡ map (appender_of f) ds = cc in
    (
      ap (λ (y : Appender). is_some y.formatter) p ∙ patterned f a.formatter h,
      all-Formatted t f xs ds h q,
    )

routed :
    (v : Level) (t : Logs) (l : ℕ) (level : Level) (xs : List ℕ) (ys : List Appender)
    → xs ≢ []
    → (t.loggers l).level ≡ level
    → (t.loggers l).appenders ≡ xs
    → Formatted t xs
    → map t.appenders xs ≡ ys
    → (outputs : List ℕ) × (log 1 v l t ≡ some (ok outputs))
      × (map t.appenders outputs ≡ (if at_least v level then reached v ys else []))
routed v t l level [] ys some_one e f g h = elim (some_one refl) [ ]
routed v t l level (x ∷ xs) ys some_one e f g h = elim (Bool-cases (at_least v level)) [
  | inl r ↦ (
    writers v t (x ∷ xs),
    log_with_appenders 0 v l x xs t (ap (at_least v) e ∙ r) f (subst (Formatted t) (sym f) g),
    rw r (reached-writers v t (x ∷ xs) ∙ ap (reached v) h),
  )
  | inr r ↦ ([], log_below 0 v l t (ap (at_least v) e ∙ r), rw r refl)
]

has_one :
    (t : Logs) (f : Option Str) (xs : List ℕ) (ds : List AppenderDefine)
    → map t.appenders xs ≡ map (appender_of f) ds
    → ds ≢ []
    → xs ≢ []
has_one t f xs [] e h = elim (h refl) [ ]
has_one t f [] (d ∷ ds) e h = cc
has_one t f (x ∷ xs) (d ∷ ds) e h = λ p. cc

Applied-Routed :
    (v : Level) (low : ℕ) (d : LogDefine) (base : Logger) (t : Logs)
    → Applied low d base t
    → is_some base.formatter ≡ true
    → d.appenders ≢ []
    → Routed v d base t
Applied-Routed v low d base t a f n =
    let made = map (appender_of (new_pattern d base)) d.appenders in
    let formatted =
      all-Formatted t (new_pattern d base) a.appenders d.appenders
        (patterned base.formatter d.formatter f) a.made in
    let (ys, e, w) =
      routed v t a.address d.level a.appenders made
        (has_one t (new_pattern d base) a.appenders d.appenders a.made n)
        (ap (λ (g : Logger). g.level) a.logger) (ap (λ (g : Logger). g.appenders) a.logger)
        formatted a.made in
    record { address = a.address; outputs = ys; registered = a.registered; logged = e; written = w }

-- An event of the level `v` that is given to the logger of `d` is written by none.
pub record Silent (v : Level) (d : LogDefine) (t : Logs) : Type 0 where
  pub address : ℕ
  pub registered : t.names d.name ≡ some address
  pub logged : log 1 v address t ≡ some (ok [])

Removed-Silent :
    (v : Level) (d : LogDefine) (base : Logger) (t : Logs)
    → value v < 100
    → Removed d base t
    → Silent v d t
Removed-Silent v d base t e r = record {
  address = r.address;
  registered = r.registered;
  logged =
      log_below 0 v r.address t
        (ap (λ (g : Logger). at_least v g.level) r.logger ∙ ground (arith, e));
}

-- An event of the level `v` that is given to the logger of `d`, which has no appenders, is passed
-- on to the logger's root if it reaches the level of `d`, and otherwise written by none.
pub record PassedOn (v : Level) (d : LogDefine) (base : Logger) (t : Logs) : Type 0 where
  pub address : ℕ
  pub registered : t.names d.name ≡ some address
  pub logged :
      (n : ℕ)
      → log (suc n) v address t ≡ (
          if at_least v d.level
          then elim base.root [ none ↦ some (ok []) | some r ↦ log n v r t ]
          else some (ok []))

passed_on :
    (v : Level) (n l : ℕ) (d : LogDefine) (base : Logger) (t : Logs)
    → t.loggers l ≡ configured d base []
    → log (suc n) v l t ≡ (
        if at_least v d.level
        then elim base.root [ none ↦ some (ok []) | some r ↦ log n v r t ]
        else some (ok []))
unfolding log
passed_on v n l d base t e =
    let level : at_least v (t.loggers l).level ≡ at_least v d.level =
      ap (λ (g : Logger). at_least v g.level) e in
    let none_left : (t.loggers l).appenders ≡ [] = ap (λ (g : Logger). g.appenders) e in
    let root : (t.loggers l).root ≡ base.root = ap (λ (g : Logger). g.root) e in
    elim (Bool-cases (at_least v d.level)) [
      | inl r ↦ elim (Option-cases base.root) [
        | inl x ↦ rw (log, level ∙ r, none_left, root ∙ x, x, r) refl
        | inr (top, x) ↦ rw (log, level ∙ r, none_left, root ∙ x, x, r) refl
      ]
      | inr r ↦ log_below n v l t (level ∙ r) ∙ rw r refl
    ]

no_addresses : (f : ℕ → Appender) (xs : List ℕ) → map f xs ≡ [] → xs ≡ []
no_addresses f [] e = refl
no_addresses f (x ∷ xs) e = cc

Applied-PassedOn :
    (v : Level) (low : ℕ) (d : LogDefine) (base : Logger) (t : Logs)
    → Applied low d base t
    → d.appenders ≡ []
    → PassedOn v d base t
Applied-PassedOn v low d base t a n =
    let none_made : a.appenders ≡ [] =
      no_addresses t.appenders a.appenders
        (a.made ∙ ap (map (appender_of (new_pattern d base))) n) in
    record {
      address = a.address;
      registered = a.registered;
      logged = λ k. passed_on v k a.address d base t (a.logger ∙ ap (configured d base) none_made);
    }

each-PassedOn :
    (v : Level) (low : ℕ) (s t : Logs) (ds : List LogDefine)
    → All (λ (d : LogDefine). Applied low d (logger_of d.name s) t) ds
    → All (λ (d : LogDefine). d.appenders ≡ [] → PassedOn v d (logger_of d.name s) t) ds
each-PassedOn v low s t [] a = tt
each-PassedOn v low s t (d ∷ ds) a =
    (Applied-PassedOn v low d (logger_of d.name s) t a.0, each-PassedOn v low s t ds a.1)

each-Routed :
    (v : Level) (low : ℕ) (s t : Logs) (ds : List LogDefine)
    → All (λ (d : LogDefine). Applied low d (logger_of d.name s) t) ds
    → All (λ (d : LogDefine). is_some (logger_of d.name s).formatter ≡ true) ds
    → All (λ (d : LogDefine). d.appenders ≢ [] → Routed v d (logger_of d.name s) t) ds
each-Routed v low s t ds a f =
    All-zip {R = λ (d : LogDefine). d.appenders ≢ [] → Routed v d (logger_of d.name s) t}
      (λ (d : LogDefine) x y n. Applied-Routed v low d (logger_of d.name s) t x y n) ds a f

each-Silent :
    (v : Level) (s t : Logs) (new ds : List LogDefine)
    → value v < 100
    → All (λ (d : LogDefine). named_in new d.name ≡ false → Removed d (logger_of d.name s) t) ds
    → All (λ (d : LogDefine). named_in new d.name ≡ false → Silent v d t) ds
each-Silent v s t new [] e h = tt
each-Silent v s t new (d ∷ ds) e h =
    (λ n. Removed-Silent v d (logger_of d.name s) t e (h.0 n), each-Silent v s t new ds e h.1)

-- When the listener comes to its end and the loggers that it configures had a formatter, then
-- afterwards an event of a level below 100 that is given to the logger of a new definition with
-- appenders goes to appenders as the definition has them, to exactly those whose level it reaches,
-- in order, if it reaches the level of the definition; one given to the logger of a new definition
-- without appenders is, if it reaches that level, passed on to the logger's root if it has one; one
-- that does not reach the level of the definition is written by none; and one given to a logger
-- whose definition is gone is written by none, not even by the root's appenders.
pub on_change-Routed :
    (v : Level) (old new : List LogDefine) (s : Logs)
    → value v < 100
    → WellFormed s
    → IsAscending less_define old
    → IsAscending less_define new
    → all_good old new ≡ true
    → All (λ (d : LogDefine). is_some (logger_of d.name s).formatter ≡ true) new
    → (t : Logs) × (on_change old new s ≡ ok t)
      × All (λ (d : LogDefine). d.appenders ≢ [] → Routed v d (logger_of d.name s) t) new
      × All (λ (d : LogDefine). d.appenders ≡ [] → PassedOn v d (logger_of d.name s) t) new
      × All (λ (d : LogDefine). named_in new d.name ≡ false → Silent v d t) old
on_change-Routed v old new s e w asc asc' g f =
    let (t, done, b) = on_change-Brought old new s w asc asc' g in
    (
      t,
      done,
      each-Routed v s.next s t new b.applied f,
      each-PassedOn v s.next s t new b.applied,
      each-Silent v s t new old e b.put_out,
    )
