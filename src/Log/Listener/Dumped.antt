-- ===== src/Log/Listener/Dumped.antt =====
-- The loggers that the listener has configured, as hps_LoggerManager::toYAMLString of
-- hps_sf/log.cpp shows them.
use mathlib.Core.List.{append_assoc, append-nil}
use collabor_ative_schedule.Base.{
  ◌≡◌, Bool, refl, sym, ap, ◌∙◌, true, false, List, [], ◌∷◌, ◌++◌, map, Option, none, some, Str, ℕ,
  less_str, same_str, ◌||◌, ◌==◌, inl, inr, All, Bool-cases, Option-cases, if◌then◌else◌,
}
use collabor_ative_schedule.Config.Casts.{push}
use collabor_ative_schedule.Config.Casts.RoundTrip.{IsAscending, Before}
use collabor_ative_schedule.Scheduler.{is_some}
use collabor_ative_schedule.Log.Level.{unknow, named}
use collabor_ative_schedule.Log.Defines.{
  AppenderDefine, LogDefine, less_define, Keyed, defines_from_string,
}
use collabor_ative_schedule.Log.Defines.RoundTrip.{Laws, add_each}
use collabor_ative_schedule.Log.Defines.Dump.{
  LiveAppender, file_appender, stdout_appender, LiveLogger, dump_manager,
}
use collabor_ative_schedule.Log.Defines.Dump.Restored.{
  restored, restored_appender, pattern_or_empty, dump-restored,
}
use collabor_ative_schedule.Log.Logger.{Appender, Logger, Logs}
use collabor_ative_schedule.Log.Listener.Adding.{own_pattern, appender_of, or_else}
use collabor_ative_schedule.Log.Listener.Configuring.{new_pattern, configured}
use collabor_ative_schedule.Log.Listener.Keeping.{Shape, logger_of, logger_at}
use collabor_ative_schedule.Log.Listener.Applying.{Applied}
use collabor_ative_schedule.Log.Listener.History.{History, History-Current, InForce}

-- An appender and a logger as they are in the store.
abbrev pub live_appender : Appender → LiveAppender
live_appender x = elim x.file [
  | none ↦ stdout_appender x.level x.has_formatter x.formatter
  | some name ↦ file_appender x.level x.has_formatter x.formatter name
]

abbrev pub live_logger : Logs → Logger → LiveLogger
live_logger s g = record {
  name = g.name;
  level = g.level;
  formatter = g.formatter;
  appenders = map live_appender (map s.appenders g.appenders);
}

-- The loggers of the manager's map, whose keys are `ns`.
unfoldable pub live_each : List Str → Logs → Option (List LiveLogger)
live_each [] s = some []
live_each (n ∷ ns) s = elim (s.names n) [
  | none ↦ none
  | some l ↦ elim (live_each ns s) [
    | none ↦ none
    | some gs ↦ some (live_logger s (s.loggers l) ∷ gs)
  ]
]

-- `hps_LoggerManager::toYAMLString` on the store.
unfoldable pub manager_to_yaml : {Node : Type 0} → Keyed Node → List Str → Logs → Option Str
unfolding live_each dump_manager
manager_to_yaml yaml ns s = elim (live_each ns s) [ none ↦ none | some gs ↦ dump_manager yaml gs ]

-- The definition that comes back for a name.
abbrev pub definition_at : Logs → Str → LogDefine
definition_at s n = restored (live_logger s (logger_of n s))

-- The definitions of the appenders to the console, as they come back.
abbrev pub consoles : List AppenderDefine → List AppenderDefine
consoles [] = []
consoles (a ∷ xs) =
    let rest = consoles xs in
    if a.type == 1
    then rest
    else record { type = 2; level = unknow; formatter = []; file = [] } ∷ rest

consoles_lem :
    (f : Option Str) (xs : List AppenderDefine) (c : List AppenderDefine)
    → add_each push (map restored_appender (map live_appender (map (appender_of f) xs))) c
      ≡ c ++ consoles xs
consoles_lem f [] c = sym (append-nil c)
consoles_lem f (a ∷ xs) c = elim (Bool-cases (a.type == 1)) [
  | inl e ↦ rw e (consoles_lem f xs c)
  | inr e ↦
      let x : AppenderDefine = record { type = 2; level = unknow; formatter = []; file = [] } in
      rw e (consoles_lem f xs (c ++ x ∷ []) ∙ append_assoc c (x ∷ []) (consoles xs))
]

-- What comes back, `e`, for a definition that is in force: its name, its level, its pattern if it
-- has one that is no error, and its appenders to the console.
pub record ComesBack (d e : LogDefine) : Type 0 where
  pub name : e.name ≡ d.name
  pub level : e.level ≡ named d.level
  pub formatter : (p : Str) → own_pattern d.formatter ≡ some p → e.formatter ≡ p
  pub appenders : e.appenders ≡ consoles d.appenders

Applied-ComesBack :
    (low : ℕ) (d : LogDefine) (base : Logger) (s : Logs)
    → Shape s
    → Applied low d base s
    → ComesBack d (definition_at s d.name)
Applied-ComesBack low d base s shape a =
    let same : logger_of d.name s ≡ configured d base a.appenders =
      ap (λ o. logger_at o d.name s) a.registered ∙ a.logger in
    let name : (logger_of d.name s).name ≡ d.name =
      ap (λ o. (logger_at o d.name s).name) a.registered
      ∙ (shape d.name a.address a.registered).0 in
    record {
      name = name;
      level = ap (λ (g : Logger). named g.level) same;
      formatter = λ p e.
          ap (λ (g : Logger). pattern_or_empty g.formatter) same
          ∙ ap (λ o. pattern_or_empty (or_else o base.formatter)) e;
      appenders =
          ap (λ (g : Logger). (restored (live_logger s g)).appenders) same
          ∙ ap (λ xs. add_each push (map restored_appender (map live_appender xs)) []) a.made
          ∙ consoles_lem (new_pattern d base) d.appenders [];
    }

abbrev pub Registered : Logs → List Str → Type 0
Registered s = All (λ n. is_some (s.names n) ≡ true)

live_each_lem :
    (ns : List Str) (s : Logs)
    → Registered s ns
    → live_each ns s ≡ some (map (λ n. live_logger s (logger_of n s)) ns)
unfolding live_each
live_each_lem [] s h = refl
live_each_lem (n ∷ ns) s h = elim (Option-cases (s.names n)) [
  | inl x ↦ let y : false ≡ true = ap is_some (sym x) ∙ h.0 in cc
  | inr (l, x) ↦ rw (live_each, x, live_each_lem ns s h.1) refl
]

-- The name that the logger of a registered name has.
registered_name :
    (n : Str) (s : Logs) → Shape s → is_some (s.names n) ≡ true → (logger_of n s).name ≡ n
registered_name n s shape h = elim (Option-cases (s.names n)) [
  | inl x ↦ let y : false ≡ true = ap is_some (sym x) ∙ h in cc
  | inr (l, x) ↦ ap (λ o. (logger_at o n s).name) x ∙ (shape n l x).0
]

at_each-Before :
    (n : Str) (ns : List Str) (s : Logs)
    → Shape s
    → is_some (s.names n) ≡ true
    → Registered s ns
    → All (Before less_str n) ns
    → All
        (Before less_define (definition_at s n))
        (map restored (map (λ n. live_logger s (logger_of n s)) ns))
unfolding less_define
at_each-Before n [] s shape r h b = tt
at_each-Before n (m ∷ ns) s shape r h b =
    let x = registered_name n s shape r in
    let y = registered_name m s shape h.0 in
    (
      (
        ap (λ a. less_str a (logger_of m s).name) x ∙ ap (less_str n) y ∙ b.0.0,
        ap (λ a. less_str a (logger_of n s).name) y ∙ ap (less_str m) x ∙ b.0.1,
      ),
      at_each-Before n ns s shape r h.1 b.1,
    )

at_each-IsAscending :
    (ns : List Str) (s : Logs)
    → Shape s
    → Registered s ns
    → IsAscending less_str ns
    → IsAscending less_define (map restored (map (λ n. live_logger s (logger_of n s)) ns))
at_each-IsAscending [] s shape h order = tt
at_each-IsAscending (n ∷ ns) s shape h order =
    (at_each-Before n ns s shape h.0 h.1 order.0, at_each-IsAscending ns s shape h.1 order.1)

abbrev pub listed : List Str → Str → Bool
listed [] n = false
listed (m ∷ ns) n = same_str n m || listed ns n

-- The keys of the manager's map, in the order in which std::map goes through them.
pub record Keys (s : Logs) (ns : List Str) : Type 0 where
  pub registered : Registered s ns
  pub ascending : IsAscending less_str ns
  pub all : (n : Str) → is_some (s.names n) ≡ true → listed ns n ≡ true

comes_back :
    (ns : List Str) (v : List LogDefine) (s : Logs)
    → Keys s ns
    → Shape s
    → All (λ d. InForce d s) v
    → All (λ d. (listed ns d.name ≡ true) × ComesBack d (definition_at s d.name)) v
comes_back ns [] s keys shape h = tt
comes_back ns (d ∷ v) s keys shape h = (
  (
    keys.all d.name (ap is_some h.0.applied.registered),
    Applied-ComesBack h.0.low d h.0.base s shape h.0.applied,
  ),
  comes_back ns v s keys shape h.1,
)

-- The string of the manager whose keys are `ns`, and what comes back of it for the value `v`.
pub record Returns {Node : Type 0} (yaml : Keyed Node) (ns : List Str) (v : List LogDefine)
    (s : Logs) : Type 0 where
  pub text : Str
  pub written : manager_to_yaml yaml ns s ≡ some text
  pub read :
      defines_from_string yaml text
      ≡ some (map restored (map (λ n. live_logger s (logger_of n s)) ns))
  pub back : All (λ d. (listed ns d.name ≡ true) × ComesBack d (definition_at s d.name)) v

manager_to_yaml_lem :
    {Node : Type 0} (yaml : Keyed Node) (ns : List Str) (s : Logs)
    → Registered s ns
    → manager_to_yaml yaml ns s ≡ dump_manager yaml (map (λ n. live_logger s (logger_of n s)) ns)
unfolding manager_to_yaml
manager_to_yaml_lem yaml ns s h = rw (manager_to_yaml, live_each_lem ns s h) refl

-- After any calls of the listener that come to their end, each with the new value of the last as
-- its old one, and any calls of getLogger, and for exactly the names of the manager's map in their
-- order, when what is written is read back by yaml-cpp: the manager's string is read as one
-- definition for each logger, and that of each logger that the value defines has its name, its
-- level (UNKNOW for 100), its pattern where the value gives one that is no error, and an appender
-- of neither level nor formatter for each that is no file's.
pub History-Returns :
    {Node : Type 0} (yaml : Keyed Node)
    → Laws yaml
    → (ns : List Str) {v : List LogDefine} {s : Logs} → History v s
    → Keys s ns
    → Returns yaml ns v s
History-Returns yaml laws ns {v} {s} past keys =
    let now = History-Current past in
    let shape = now.well_formed.shape in
    let gs = map (λ n. live_logger s (logger_of n s)) ns in
    let (text, written, read) =
      dump-restored yaml laws gs (at_each-IsAscending ns s shape keys.registered keys.ascending) in
    record {
      text = text;
      written = manager_to_yaml_lem yaml ns s keys.registered ∙ written;
      read = read;
      back = comes_back ns v s keys shape now.in_force;
    }
