-- ===== src/Log/Defines/Whole.antt =====
-- Definitions of loggers that are written and read back, as a whole.
use collabor_ative_schedule.Base.{
  ◌≡◌, refl, ap, ◌∙◌, inl, inr, List, [], ◌∷◌, ◌++◌, map, Option, none, some, if◌then◌else◌, Str,
  Bool-cases, All,
}
use collabor_ative_schedule.Log.Level.{
  Level, unknow, debug, info, warn, error, fatal, from_string, to_string, removed, named,
}
use collabor_ative_schedule.Config.Casts.{set_insert}
use collabor_ative_schedule.Config.Casts.RoundTrip.{add_all-set_insert, IsAscending, Before}
use collabor_ative_schedule.Log.Defines.{
  key_name, key_level, key_formatter, key_appenders, AppenderDefine, LogDefine, same_level,
  less_define, Keyed, text_or_empty, read_appenders, read_define, defines_from_string, level_entry,
  formatter_entry, appenders_entry, write_define, defines_to_string,
}
use collabor_ative_schedule.Log.Defines.RoundTrip.{last_value, Laws, read_each_lem}
use collabor_ative_schedule.Log.Defines.Appenders.{
  forget_appender, formatter_node, formatter_text, appenders_node, read_appenders_lem,
}

-- What reading loses of a definition.
abbrev pub forget : LogDefine → LogDefine
forget d = record d { level = named d.level; appenders = map forget_appender d.appenders }

forget-Before :
    (d : LogDefine) (ds : List LogDefine)
    → All (Before less_define d) ds
    → All (Before less_define (forget d)) (map forget ds)
unfolding less_define
forget-Before d [] h = tt
forget-Before d (e ∷ ds) h = (h.0, forget-Before d ds h.1)

forget-IsAscending :
    (ds : List LogDefine) → IsAscending less_define ds → IsAscending less_define (map forget ds)
forget-IsAscending [] h = tt
forget-IsAscending (d ∷ ds) h = (forget-Before d ds h.0, forget-IsAscending ds h.1)

module _ {Node : Type 0} (yaml : Keyed Node) where
  module _ (laws : Laws yaml) where
    abbrev pub level_node : Level → Option Node
    level_node l = if same_level l unknow then none else some (yaml.scalar (to_string l))

    abbrev level_text : Level → Str
    level_text l = if same_level l unknow then [] else to_string l

    level_read : (l : Level) → text_or_empty yaml (level_node l) ≡ some (level_text l)
    level_read l = elim (Bool-cases (same_level l unknow)) [
      | inl e ↦ rw e refl
      | inr e ↦ rw e (laws.scalar_text (to_string l))
    ]

    from_string-level_text : (l : Level) → from_string (level_text l) ≡ named l
    unfolding from_string to_string
    from_string-level_text unknow = refl
    from_string-level_text debug = refl
    from_string-level_text info = refl
    from_string-level_text warn = refl
    from_string-level_text error = refl
    from_string-level_text fatal = refl
    from_string-level_text removed = refl

    -- The values of the keys of a definition.
    abbrev DefineValues : Str → Level → Str → List AppenderDefine → Type 0
    DefineValues name l f xs =
        let ps =
          (key_name, yaml.scalar name) ∷ level_entry yaml l
          ++ formatter_entry yaml f
          ++ appenders_entry yaml xs in
        (last_value key_name ps ≡ some (yaml.scalar name))
        × (last_value key_level ps ≡ level_node l)
        × (last_value key_formatter ps ≡ formatter_node yaml laws f)
        × (last_value key_appenders ps ≡ appenders_node yaml laws xs)

    define_values :
        (name : Str) (l : Level) (f : Str) (xs : List AppenderDefine) → DefineValues name l f xs
    unfolding appenders_node
    define_values name l [] [] = elim (Bool-cases (same_level l unknow)) [
      | inl e ↦ rw e (refl, refl, refl, refl)
      | inr e ↦ rw e (refl, refl, refl, refl)
    ]
    define_values name l [] (a ∷ xs) = elim (Bool-cases (same_level l unknow)) [
      | inl e ↦ rw e (refl, refl, refl, refl)
      | inr e ↦ rw e (refl, refl, refl, refl)
    ]
    define_values name l (c ∷ s) [] = elim (Bool-cases (same_level l unknow)) [
      | inl e ↦ rw e (refl, refl, refl, refl)
      | inr e ↦ rw e (refl, refl, refl, refl)
    ]
    define_values name l (c ∷ s) (a ∷ xs) = elim (Bool-cases (same_level l unknow)) [
      | inl e ↦ rw e (refl, refl, refl, refl)
      | inr e ↦ rw e (refl, refl, refl, refl)
    ]

    pub reads_define :
        (n : Node) (name : Str) (l : Level) (f : Str) (bs : List AppenderDefine)
        (fo xo : Option Node)
        → yaml.get n key_name ≡ some (yaml.scalar name)
        → yaml.get n key_level ≡ level_node l
        → yaml.get n key_formatter ≡ fo
        → yaml.get n key_appenders ≡ xo
        → text_or_empty yaml fo ≡ some f
        → read_appenders yaml xo ≡ some bs
        → read_define yaml n
          ≡ some (some (record { name = name; level = named l; formatter = f; appenders = bs }))
    unfolding read_define
    reads_define n name l f bs fo xo p q r s t u =
        rw (read_define, p, laws.scalar_text name, q, level_read l, r, t, s, u)
          (ap (λ l. some (some (record { name = name; level = l; formatter = f; appenders = bs })))
            (from_string-level_text l))

    read_define_lem :
        (d : LogDefine) → read_define yaml (write_define yaml d) ≡ some (some (forget d))
    unfolding write_define
    read_define_lem d =
        let (p, q, r, s) = define_values d.name d.level d.formatter d.appenders in
        let ps =
          (key_name, yaml.scalar d.name) ∷ level_entry yaml d.level
          ++ formatter_entry yaml d.formatter
          ++ appenders_entry yaml d.appenders in
        reads_define (write_define yaml d) d.name d.level d.formatter
          (map forget_appender d.appenders) (formatter_node yaml laws d.formatter)
          (appenders_node yaml laws d.appenders) (laws.map_get ps key_name ∙ p)
          (laws.map_get ps key_level ∙ q) (laws.map_get ps key_formatter ∙ r)
          (laws.map_get ps key_appenders ∙ s) (formatter_text yaml laws d.formatter)
          (read_appenders_lem yaml laws d.appenders)

    -- When what is written is read back by yaml-cpp: a set of definitions, in the order of their
    -- names, is turned into a string that is turned back into the same definitions, where a level
    -- cast from 100 has become UNKNOW, every appender has lost its level, one to the console also
    -- its formatter, and one of neither type has become one to the console.
    pub defines_round_trip :
        (ds : List LogDefine)
        → IsAscending less_define ds
        → defines_from_string yaml (defines_to_string yaml ds) ≡ some (map forget ds)
    unfolding defines_from_string defines_to_string
    defines_round_trip ds order =
        let ns = map (write_define yaml) ds in
        rw (defines_from_string, laws.sequence_read ns, laws.sequence_size ns)
          (read_each_lem yaml laws (read_define yaml) (set_insert less_define) (write_define yaml)
              forget read_define_lem ds
            ∙ ap some (
                add_all-set_insert less_define (map forget ds) [] (forget-IsAscending ds order) tt))
