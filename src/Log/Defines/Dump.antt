-- ===== src/Log/Defines/Dump.antt =====
-- hps_LoggerManager::toYAMLString of hps_sf/log.cpp, with the loggers and appenders it asks.
pub mod Restored
use mathlib.Core.Option
use collabor_ative_schedule.Base.{
  Bool, true, false, List, [], ◌∷◌, ◌++◌, map, Option, none, some, Str,
}
use collabor_ative_schedule.Log.Level.{Level}
use collabor_ative_schedule.Log.Defines.{
  key_name, key_formatter, key_appenders, key_type, key_file, stdout_type, Keyed, level_entry, puts,
  pushes,
}

-- What `toYAMLString` reads of an appender: its level, `m_hasFormatter`, the pattern of its
-- formatter if it has one, and the name of its file.
pub data LiveAppender : Type 0 where
  file_appender : Level → Bool → Option Str → Str → LiveAppender
  stdout_appender : Level → Bool → Option Str → LiveAppender

-- What it reads of a logger, the pattern of its formatter included.
pub record LiveLogger : Type 0 where
  pub name : Str
  pub level : Level
  pub formatter : Option Str
  pub appenders : List LiveAppender

-- "hps_FileAppender"
abbrev pub dumped_file_type : Str
dumped_file_type =
    104 ∷ 112 ∷ 115 ∷ 95 ∷ 70 ∷ 105 ∷ 108 ∷ 101 ∷ 65 ∷ 112 ∷ 112 ∷ 101 ∷ 110 ∷ 100 ∷ 101 ∷ 114 ∷ []

module _ {Node : Type 0} (yaml : Keyed Node) where
  abbrev pub pattern_entry : Bool → Option Str → List (Str × Node)
  pattern_entry true (some p) = (key_formatter, yaml.scalar p) ∷ []
  pattern_entry true none = []
  pattern_entry false f = []

  -- What an appender sets.
  abbrev pub live_entries : LiveAppender → List (Str × Node)
  live_entries (file_appender l has f name) =
      level_entry yaml l
      ++ (key_file, yaml.scalar name)
        ∷ (key_type, yaml.scalar dumped_file_type)
        ∷ pattern_entry has f
  live_entries (stdout_appender l has f) =
      (key_type, yaml.scalar stdout_type) ∷ level_entry yaml l ++ pattern_entry has f

  -- `toYAMLString` of both appenders.
  unfoldable pub dump_appender : LiveAppender → Str
  dump_appender a = yaml.emit (puts yaml yaml.null (live_entries a))

  -- The loop over the appenders: each is dumped, and loaded again.
  unfoldable pub load_appenders : List LiveAppender → Option (List Node)
  unfolding dump_appender
  load_appenders [] = some []
  load_appenders (a ∷ xs) = elim (yaml.load (dump_appender a)) [
    | none ↦ none
    | some n ↦ Option.map (λ ns. n ∷ ns) (load_appenders xs)
  ]

  abbrev pub nodes_entry : List Node → List (Str × Node)
  nodes_entry [] = []
  nodes_entry (n ∷ ns) = (key_appenders, pushes yaml yaml.null (n ∷ ns)) ∷ []

  -- The node that a logger fills, given those of its appenders.
  abbrev pub logger_entries : Str → Level → Option Str → List Node → List (Str × Node)
  logger_entries name l f ns =
      (key_name, yaml.scalar name) ∷ level_entry yaml l
      ++ (key_type, yaml.scalar stdout_type) ∷ pattern_entry true f
      ++ nodes_entry ns

  -- `hps_Logger::toYAMLString`.
  unfoldable pub dump_logger : LiveLogger → Option Str
  unfolding load_appenders
  dump_logger g =
      Option.map
        (λ ns. yaml.emit (puts yaml yaml.null (logger_entries g.name g.level g.formatter ns)))
        (load_appenders g.appenders)

  -- The loop over the loggers.
  unfoldable pub load_loggers : List LiveLogger → Option (List Node)
  unfolding dump_logger
  load_loggers [] = some []
  load_loggers (g ∷ gs) = elim (dump_logger g) [
    | none ↦ none
    | some s ↦ elim (yaml.load s) [
      | none ↦ none
      | some n ↦ Option.map (λ ns. n ∷ ns) (load_loggers gs)
    ]
  ]

  -- `hps_LoggerManager::toYAMLString`.
  unfoldable pub dump_manager : List LiveLogger → Option Str
  unfolding load_loggers
  dump_manager gs = Option.map (λ ns. yaml.emit (pushes yaml yaml.null ns)) (load_loggers gs)
