-- ===== src/Log/Logger/Dispatch.antt =====
-- Which appenders write an event, and what the manager hands out.
use collabor_ative_schedule.Base.{
  ℕ, suc, subst, Option-cases, ◌≡◌, refl, ap, ◌∙◌, ◌⊎◌, inl, inr, true, false, not, List, [], ◌∷◌,
  none, some, if◌then◌else◌, All, arith, Bool-cases, ok, Str, same_str, same_str_refl, ◌+◌,
}
use collabor_ative_schedule.Fiber.{put}
use collabor_ative_schedule.Scheduler.{is_some}
use collabor_ative_schedule.Log.Level.{Level, at_least}
use collabor_ative_schedule.Log.Logger.{
  Logger, Logs, new_logger, appender_log, log_all, log, get_logger,
}

-- The appenders of a list whose level the event reaches.
abbrev pub writers : Level → Logs → List ℕ → List ℕ
writers level s [] = []
writers level s (a ∷ xs) =
    if at_least level (s.appenders a).level then a ∷ writers level s xs else writers level s xs

-- Every appender of the list has a formatter.
abbrev pub Formatted : Logs → List ℕ → Type 0
Formatted s = All (λ a. is_some (s.appenders a).formatter ≡ true)

log_all-writers :
    (level : Level) (xs : List ℕ) (s : Logs)
    → Formatted s xs
    → log_all level xs s ≡ ok (writers level s xs)
unfolding log_all appender_log
log_all-writers level [] s f = refl
log_all-writers level (a ∷ xs) s f = elim (Bool-cases (at_least level (s.appenders a).level)) [
  | inl e ↦ rw (e, f.0, log_all-writers level xs s f.1) refl
  | inr e ↦ rw (e, log_all-writers level xs s f.1) refl
]

-- The appenders that an event of a level reaches from a logger: its own if it has any, and
-- otherwise those of its root.
abbrev pub targets : Level → Logs → Logger → List ℕ
targets level s logger = if not (at_least level logger.level) then [] else elim logger.appenders [
  | a ∷ xs ↦ writers level s (a ∷ xs)
  | [] ↦ elim logger.root [
    | none ↦ []
    | some r ↦
        if at_least level (s.loggers r).level then writers level s (s.loggers r).appenders else []
  ]
]

pub list-cases : (xs : List ℕ) → (xs ≡ []) ⊎ (a : ℕ) × (ys : List ℕ) × (xs ≡ a ∷ ys)
list-cases [] = inl refl
list-cases (a ∷ ys) = inr (a, ys, refl)

pub log_with_appenders :
    (n : ℕ) (level : Level) (l a : ℕ) (xs : List ℕ) (s : Logs)
    → at_least level (s.loggers l).level ≡ true
    → (s.loggers l).appenders ≡ a ∷ xs
    → Formatted s (s.loggers l).appenders
    → log (suc n) level l s ≡ some (ok (writers level s (a ∷ xs)))
unfolding log
log_with_appenders n level l a xs s e c f =
    rw (log, e, c) (ap some (log_all-writers level (a ∷ xs) s (subst (Formatted s) c f)))

pub log_below :
    (n : ℕ) (level : Level) (l : ℕ) (s : Logs)
    → at_least level (s.loggers l).level ≡ false
    → log (suc n) level l s ≡ some (ok [])
unfolding log
log_below n level l s e = rw (log, e) refl

-- A logger without a root.
log_own :
    (n : ℕ) (level : Level) (l : ℕ) (s : Logs)
    → (s.loggers l).root ≡ none
    → Formatted s (s.loggers l).appenders
    → log (suc n) level l s
      ≡ some (
          ok (
            if at_least level (s.loggers l).level
            then writers level s (s.loggers l).appenders
            else []))
unfolding log
log_own n level l s top f = elim (Bool-cases (at_least level (s.loggers l).level)) [
  | inr e ↦ log_below n level l s e ∙ rw e refl
  | inl e ↦ elim (list-cases (s.loggers l).appenders) [
    | inl c ↦ rw (log, e, c, top) refl
    | inr (a, xs, c) ↦ log_with_appenders n level l a xs s e c f ∙ rw (e, c) refl
  ]
]

-- When every appender of a logger and of its root has its formatter, and the root has no root of
-- its own, `log` comes to an end after at most two loggers, and the event is written exactly by the
-- logger's appenders whose level it reaches, in order, or, when the logger has no appender, by the
-- root's; and by none when it does not reach the level of the logger, or of the root that it is
-- passed to.
pub log-targets :
    (level : Level) (l : ℕ) (s : Logs)
    → Formatted s (s.loggers l).appenders
    → ((r : ℕ)
        → (s.loggers l).root ≡ some r
        → ((s.loggers r).root ≡ none) × Formatted s (s.loggers r).appenders)
    → log 2 level l s ≡ some (ok (targets level s (s.loggers l)))
unfolding log
log-targets level l s own rooted = elim (Bool-cases (at_least level (s.loggers l).level)) [
  | inr e ↦ log_below 1 level l s e ∙ rw e refl
  | inl e ↦ elim (list-cases (s.loggers l).appenders) [
    | inr (a, xs, c) ↦ log_with_appenders 1 level l a xs s e c own ∙ rw (e, c) refl
    | inl c ↦ elim (Option-cases (s.loggers l).root) [
      | inl t ↦ rw (log, e, c, t) refl
      | inr (r, t) ↦ let top = rooted r t in rw (log, e, c, t) (log_own 0 level r s top.0 top.1)
    ]
  ]
]

abbrev pub made : Str → Logs → Logs
made name s = record s {
  loggers = put s.loggers s.next (record (new_logger name) { root = some s.root });
  names = λ n. if same_str n name then some s.next else s.names n;
  next = s.next + 1;
}

pub get_logger_new :
    (name : Str) (s : Logs) → s.names name ≡ none → get_logger name s ≡ (s.next, made name s)
unfolding get_logger
get_logger_new name s e = rw (get_logger, e) refl

pub get_logger_old :
    (name : Str) (l : ℕ) (s : Logs) → s.names name ≡ some l → get_logger name s ≡ (l, s)
unfolding get_logger
get_logger_old name l s e = rw (get_logger, e) refl

-- `getLogger` gives a name its logger for good: asked again it returns the same logger and changes
-- nothing; a logger that it makes has the name, no appender and the manager's root; and no other
-- name is touched.
pub get_logger_again :
    (name : Str) (s : Logs)
    → let r = get_logger name s in
      (get_logger name r.1 ≡ r)
      × (s.names name ≡ none → r.1.loggers s.next ≡ record (new_logger name) { root = some s.root })
      × ((other : Str) → same_str other name ≡ false → r.1.names other ≡ s.names other)
get_logger_again name s = elim (Option-cases (s.names name)) [
  | inl e ↦ rw (get_logger_new name s e) (
    get_logger_old name s.next (made name s) (rw (same_str_refl name) refl),
    λ _. ground arith,
    λ other n. rw n refl,
  )
  | inr (l, e) ↦
      rw (get_logger_old name l s e) (get_logger_old name l s e, λ h. cc, λ other n. refl)
]
