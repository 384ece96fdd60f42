-- ===== src/Log/Defines/Appenders.antt =====
-- Definitions of loggers that are written and read back: their appenders.
use collabor_ative_schedule.Base.{
  ℕ, ◌≡◌, refl, sym, ap, ◌∙◌, inl, inr, Bool, true, false, List, [], ◌∷◌, map, Option, none, some,
  ◌==◌, if◌then◌else◌, Str, Bool-cases,
}
use collabor_ative_schedule.Log.Level.{Level, unknow}
use collabor_ative_schedule.Config.Casts.{push}
use collabor_ative_schedule.Config.Casts.RoundTrip.{add_all-push}
use collabor_ative_schedule.Log.Defines.{
  key_formatter, key_type, key_file, file_type, stdout_type, AppenderDefine, same_level, Keyed,
  text_or_empty, read_appender, read_appenders, pushes, appender_entries, write_appender,
}
use collabor_ative_schedule.Log.Defines.RoundTrip.{last_value, Laws, read_each_lem}

-- What reading loses: the level of an appender, and the formatter of one to the console.
abbrev pub forget_appender : AppenderDefine → AppenderDefine
forget_appender a =
    if a.type == 1
    then record { type = 1; level = unknow; formatter = a.formatter; file = a.file }
    else record { type = 2; level = unknow; formatter = []; file = [] }

module _ {Node : Type 0} (yaml : Keyed Node) where
  module _ (laws : Laws yaml) where
    abbrev pub formatter_node : Str → Option Node
    formatter_node [] = none
    formatter_node (c ∷ s) = some (yaml.scalar (c ∷ s))

    pub formatter_text : (s : Str) → text_or_empty yaml (formatter_node s) ≡ some s
    formatter_text [] = refl
    formatter_text (c ∷ s) = laws.scalar_text (c ∷ s)

    -- The values of the keys of an appender.
    abbrev AppenderValues : AppenderDefine → Type 0
    AppenderValues a =
        let ps = appender_entries yaml a in
        (last_value key_type ps
          ≡ some (yaml.scalar (if a.type == 1 then file_type else stdout_type)))
        × (a.type == 1 ≡ true → last_value key_file ps ≡ some (yaml.scalar a.file))
        × (last_value key_formatter ps ≡ formatter_node a.formatter)

    appender_values :
        (t : ℕ) (l : Level) (f file : Str)
        → AppenderValues (record { type = t; level = l; formatter = f; file = file })
    appender_values t l [] file = elim (Bool-cases (t == 1)) [
      | inl e ↦ elim (Bool-cases (same_level l unknow)) [
        | inl g ↦ rw (e, g) (refl, λ h. refl, refl)
        | inr g ↦ rw (e, g) (refl, λ h. refl, refl)
      ]
      | inr e ↦ elim (Bool-cases (same_level l unknow)) [
        | inl g ↦ rw (e, g) (refl, λ h. cc, refl)
        | inr g ↦ rw (e, g) (refl, λ h. cc, refl)
      ]
    ]
    appender_values t l (c ∷ s) file = elim (Bool-cases (t == 1)) [
      | inl e ↦ elim (Bool-cases (same_level l unknow)) [
        | inl g ↦ rw (e, g) (refl, λ h. refl, refl)
        | inr g ↦ rw (e, g) (refl, λ h. refl, refl)
      ]
      | inr e ↦ elim (Bool-cases (same_level l unknow)) [
        | inl g ↦ rw (e, g) (refl, λ h. cc, refl)
        | inr g ↦ rw (e, g) (refl, λ h. cc, refl)
      ]
    ]

    reads_file :
        (n : Node) (file f : Str)
        → yaml.get n key_type ≡ some (yaml.scalar file_type)
        → yaml.get n key_file ≡ some (yaml.scalar file)
        → yaml.get n key_formatter ≡ formatter_node f
        → read_appender yaml n
          ≡ some (some (record { type = 1; level = unknow; formatter = f; file = file }))
    unfolding read_appender
    reads_file n file f t e g =
        rw
          (
            read_appender,
            t,
            laws.scalar_text file_type,
            e,
            laws.scalar_text file,
            g,
            formatter_text f,
          )
          refl

    pub reads_stdout :
        (n : Node)
        → yaml.get n key_type ≡ some (yaml.scalar stdout_type)
        → read_appender yaml n
          ≡ some (some (record { type = 2; level = unknow; formatter = []; file = [] }))
    unfolding read_appender
    reads_stdout n t = rw (read_appender, t, laws.scalar_text stdout_type) refl

    read_appender_lem :
        (a : AppenderDefine)
        → read_appender yaml (write_appender yaml a) ≡ some (some (forget_appender a))
    unfolding write_appender
    read_appender_lem a =
        let (t, f, g) = appender_values a.type a.level a.formatter a.file in
        let ps = appender_entries yaml a in
        let n = write_appender yaml a in
        let typed = λ (b : Bool) (e : (a.type == 1) ≡ b).
          laws.map_get ps key_type
          ∙ t
          ∙ ap (λ c. some (yaml.scalar (if c then file_type else stdout_type))) e in
        elim (Bool-cases (a.type == 1)) [
          | inl e ↦
              reads_file n a.file a.formatter (typed true e) (laws.map_get ps key_file ∙ f e)
                (laws.map_get ps key_formatter ∙ g)
              ∙ ap
                  (λ c. some (
                    some (
                      if c
                      then record {
                        type = 1;
                        level = unknow;
                        formatter = a.formatter;
                        file = a.file;
                      }
                      else record { type = 2; level = unknow; formatter = []; file = [] })))
                  (sym e)
          | inr e ↦
              reads_stdout n (typed false e)
              ∙ ap
                  (λ c. some (
                    some (
                      if c
                      then record {
                        type = 1;
                        level = unknow;
                        formatter = a.formatter;
                        file = a.file;
                      }
                      else record { type = 2; level = unknow; formatter = []; file = [] })))
                  (sym e)
        ]

    -- The appenders of a definition.
    unfoldable pub appenders_node : List AppenderDefine → Option Node
    appenders_node [] = none
    appenders_node (a ∷ xs) = some (pushes yaml yaml.null (map (write_appender yaml) (a ∷ xs)))

    pub read_appenders_lem :
        (xs : List AppenderDefine)
        → read_appenders yaml (appenders_node xs) ≡ some (map forget_appender xs)
    unfolding read_appenders appenders_node
    read_appenders_lem [] = refl
    read_appenders_lem (a ∷ xs) =
        let ns = map (write_appender yaml) (a ∷ xs) in
        rw (laws.sequence_size ns) (
          read_each_lem yaml laws (read_appender yaml) push (write_appender yaml) forget_appender
            read_appender_lem (a ∷ xs)
          ∙ ap some (add_all-push (map forget_appender (a ∷ xs)) []))
