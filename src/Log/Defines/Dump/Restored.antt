-- ===== src/Log/Defines/Dump/Restored.antt =====
-- What the conversion of definitions from a string makes of the manager's string.
use collabor_ative_schedule.Base.{
  ◌≡◌, refl, ap, ◌∙◌, inl, inr, Bool, true, false, List, [], ◌∷◌, map, Option, none, some, Str,
  Bool-cases,
}
use collabor_ative_schedule.Log.Level.{Level, named, unknow}
use collabor_ative_schedule.Config.Casts.{set_insert, push}
use collabor_ative_schedule.Config.Casts.RoundTrip.{add_all-set_insert, IsAscending}
use collabor_ative_schedule.Log.Defines.{
  key_name, key_level, key_formatter, key_appenders, key_type, stdout_type, AppenderDefine,
  LogDefine, same_level, less_define, Keyed, text_or_empty, read_appender, read_appenders,
  read_define, defines_from_string, puts, pushes,
}
use collabor_ative_schedule.Log.Defines.RoundTrip.{
  last_value, Laws, add_each, read_each_any, read_each_lem,
}
use collabor_ative_schedule.Log.Defines.Appenders.{reads_stdout}
use collabor_ative_schedule.Log.Defines.Whole.{level_node, reads_define}
use collabor_ative_schedule.Log.Defines.Dump.{
  LiveAppender, file_appender, stdout_appender, LiveLogger, dumped_file_type, pattern_entry,
  live_entries, dump_appender, load_appenders, logger_entries, dump_logger, load_loggers,
  dump_manager,
}

-- What comes back of an appender: nothing of one to a file.
abbrev pub restored_appender : LiveAppender → Option AppenderDefine
restored_appender (file_appender l has f name) = none
restored_appender (stdout_appender l has f) =
    some (record { type = 2; level = unknow; formatter = []; file = [] })

abbrev pub pattern_or_empty : Option Str → Str
pattern_or_empty none = []
pattern_or_empty (some p) = p

abbrev pub restored : LiveLogger → LogDefine
restored g = record {
  name = g.name;
  level = named g.level;
  formatter = pattern_or_empty g.formatter;
  appenders = add_each push (map restored_appender g.appenders) [];
}

module _ {Node : Type 0} (yaml : Keyed Node) (laws : Laws yaml) where
  abbrev appender_node : LiveAppender → Node
  appender_node a = puts yaml yaml.null (live_entries yaml a)

  load_appenders_lem :
      (xs : List LiveAppender) → load_appenders yaml xs ≡ some (map appender_node xs)
  unfolding load_appenders dump_appender
  load_appenders_lem [] = refl
  load_appenders_lem (a ∷ xs) =
      rw (load_appenders, dump_appender, laws.map_read (live_entries yaml a), load_appenders_lem xs)
        refl

  abbrev type_of : LiveAppender → Str
  type_of (file_appender l has f name) = dumped_file_type
  type_of (stdout_appender l has f) = stdout_type

  last-pattern_entry :
      (has : Bool) (f : Option Str) → last_value key_type (pattern_entry yaml has f) ≡ none
  last-pattern_entry true none = refl
  last-pattern_entry true (some p) = refl
  last-pattern_entry false f = refl

  type_value :
      (a : LiveAppender)
      → last_value key_type (live_entries yaml a) ≡ some (yaml.scalar (type_of a))
  type_value (file_appender l has f name) = elim (Bool-cases (same_level l unknow)) [
    | inl e ↦ rw (e, last_value, last-pattern_entry has f) refl
    | inr e ↦ rw (e, last_value, last-pattern_entry has f) refl
  ]
  type_value (stdout_appender l has f) = elim (Bool-cases (same_level l unknow)) [
    | inl e ↦ rw (e, last_value, last-pattern_entry has f) refl
    | inr e ↦ rw (e, last_value, last-pattern_entry has f) refl
  ]

  passes_over :
      (n : Node)
      → yaml.get n key_type ≡ some (yaml.scalar dumped_file_type)
      → read_appender yaml n ≡ some none
  unfolding read_appender
  passes_over n t = rw (read_appender, t, laws.scalar_text dumped_file_type) refl

  read_appender_node :
      (a : LiveAppender) → read_appender yaml (appender_node a) ≡ some (restored_appender a)
  read_appender_node (file_appender l has f name) =
      let a = file_appender l has f name in
      passes_over (appender_node a) (laws.map_get (live_entries yaml a) key_type ∙ type_value a)
  read_appender_node (stdout_appender l has f) =
      let a = stdout_appender l has f in
      reads_stdout yaml laws (appender_node a)
        (laws.map_get (live_entries yaml a) key_type ∙ type_value a)

  abbrev nodes_value : List Node → Option Node
  nodes_value [] = none
  nodes_value (n ∷ ns) = some (pushes yaml yaml.null (n ∷ ns))

  read_nodes :
      (xs : List LiveAppender)
      → read_appenders yaml (nodes_value (map appender_node xs))
        ≡ some (add_each push (map restored_appender xs) [])
  unfolding read_appenders
  read_nodes [] = refl
  read_nodes (a ∷ xs) = rw (laws.sequence_size (map appender_node (a ∷ xs))) (
      read_each_any yaml laws (read_appender yaml) push appender_node restored_appender
        read_appender_node [] (a ∷ xs) [])

  abbrev pattern_value : Option Str → Option Node
  pattern_value none = none
  pattern_value (some p) = some (yaml.scalar p)

  pattern_text : (f : Option Str) → text_or_empty yaml (pattern_value f) ≡ some (pattern_or_empty f)
  pattern_text none = refl
  pattern_text (some p) = laws.scalar_text p

  -- The values of the keys of a logger.
  abbrev LoggerValues : Str → Level → Option Str → List Node → Type 0
  LoggerValues name l f ns =
      let ps = logger_entries yaml name l f ns in
      (last_value key_name ps ≡ some (yaml.scalar name))
      × (last_value key_level ps ≡ level_node yaml laws l)
      × (last_value key_formatter ps ≡ pattern_value f)
      × (last_value key_appenders ps ≡ nodes_value ns)

  logger_values :
      (name : Str) (l : Level) (f : Option Str) (ns : List Node) → LoggerValues name l f ns
  logger_values name l none [] = elim (Bool-cases (same_level l unknow)) [
    | inl e ↦ rw e (refl, refl, refl, refl)
    | inr e ↦ rw e (refl, refl, refl, refl)
  ]
  logger_values name l none (n ∷ ns) = elim (Bool-cases (same_level l unknow)) [
    | inl e ↦ rw e (refl, refl, refl, refl)
    | inr e ↦ rw e (refl, refl, refl, refl)
  ]
  logger_values name l (some p) [] = elim (Bool-cases (same_level l unknow)) [
    | inl e ↦ rw e (refl, refl, refl, refl)
    | inr e ↦ rw e (refl, refl, refl, refl)
  ]
  logger_values name l (some p) (n ∷ ns) = elim (Bool-cases (same_level l unknow)) [
    | inl e ↦ rw e (refl, refl, refl, refl)
    | inr e ↦ rw e (refl, refl, refl, refl)
  ]

  abbrev entries_of : LiveLogger → List (Str × Node)
  entries_of g = logger_entries yaml g.name g.level g.formatter (map appender_node g.appenders)

  abbrev logger_node : LiveLogger → Node
  logger_node g = puts yaml yaml.null (entries_of g)

  read_logger_node : (g : LiveLogger) → read_define yaml (logger_node g) ≡ some (some (restored g))
  read_logger_node g =
      let ns = map appender_node g.appenders in
      let (p, q, r, s) = logger_values g.name g.level g.formatter ns in
      let ps = entries_of g in
      reads_define yaml laws (logger_node g) g.name g.level (pattern_or_empty g.formatter)
        (add_each push (map restored_appender g.appenders) []) (pattern_value g.formatter)
        (nodes_value ns) (laws.map_get ps key_name ∙ p) (laws.map_get ps key_level ∙ q)
        (laws.map_get ps key_formatter ∙ r) (laws.map_get ps key_appenders ∙ s)
        (pattern_text g.formatter) (read_nodes g.appenders)

  load_loggers_lem : (gs : List LiveLogger) → load_loggers yaml gs ≡ some (map logger_node gs)
  unfolding load_loggers dump_logger
  load_loggers_lem [] = refl
  load_loggers_lem (g ∷ gs) =
      rw
        (
          load_loggers,
          dump_logger,
          load_appenders_lem g.appenders,
          laws.map_read (entries_of g),
          load_loggers_lem gs,
        )
        refl

  -- When what is written is read back by yaml-cpp and the manager's loggers are in the order of
  -- their names: its string is turned back into the definitions of the same loggers, with their
  -- names, levels (UNKNOW for one cast from 100) and patterns, but of their appenders only those to
  -- the console are left, without level and formatter; those to files are gone.
  pub dump-restored :
      (gs : List LiveLogger)
      → IsAscending less_define (map restored gs)
      → (s : Str) × (dump_manager yaml gs ≡ some s)
        × (defines_from_string yaml s ≡ some (map restored gs))
  unfolding dump_manager defines_from_string
  dump-restored gs order =
      let ns = map logger_node gs in
      (
        yaml.emit (pushes yaml yaml.null ns),
        rw (load_loggers_lem gs) refl,
        rw (defines_from_string, laws.sequence_read ns, laws.sequence_size ns)
            (read_each_lem yaml laws (read_define yaml) (set_insert less_define) logger_node
                restored read_logger_node gs
              ∙ ap some (add_all-set_insert less_define (map restored gs) [] order tt)),
      )
