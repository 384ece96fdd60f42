-- ===== src/Log/Defines.antt =====
-- hps_LogAppenderDefine and hps_LogDefine of hps_sf/log.cpp, and their conversion from and to
-- strings. yaml-cpp's nodes are a parameter; `none` is an exception.
pub mod Tests
pub mod RoundTrip
pub mod Appenders
pub mod Whole
pub mod Dump
use mathlib.Core.Option
use collabor_ative_schedule.Base.{
  ℕ, zero, suc, ◌+◌, Bool, true, false, ◌&&◌, List, [], ◌∷◌, ◌++◌, map, Option, none, some, ◌==◌,
  if◌then◌else◌, Str, same_str, less_str,
}
use collabor_ative_schedule.Log.Level.{Level, unknow, value, from_string, to_string}
use collabor_ative_schedule.Config.Casts.{set_insert, push}

-- "name"
abbrev pub key_name : Str
key_name = 110 ∷ 97 ∷ 109 ∷ 101 ∷ []

-- "level"
abbrev pub key_level : Str
key_level = 108 ∷ 101 ∷ 118 ∷ 101 ∷ 108 ∷ []

-- "formatter"
abbrev pub key_formatter : Str
key_formatter = 102 ∷ 111 ∷ 114 ∷ 109 ∷ 97 ∷ 116 ∷ 116 ∷ 101 ∷ 114 ∷ []

-- "appenders"
abbrev pub key_appenders : Str
key_appenders = 97 ∷ 112 ∷ 112 ∷ 101 ∷ 110 ∷ 100 ∷ 101 ∷ 114 ∷ 115 ∷ []

-- "type"
abbrev pub key_type : Str
key_type = 116 ∷ 121 ∷ 112 ∷ 101 ∷ []

-- "file"
abbrev pub key_file : Str
key_file = 102 ∷ 105 ∷ 108 ∷ 101 ∷ []

-- "hps_FileLogAppender"
abbrev pub file_type : Str
file_type =
    104 ∷ 112 ∷ 115 ∷ 95 ∷ 70 ∷ 105 ∷ 108 ∷ 101 ∷ 76 ∷ 111 ∷ 103 ∷ 65 ∷ 112 ∷ 112 ∷ 101 ∷ 110 ∷ 100
    ∷ 101 ∷ 114 ∷ []

-- "hps_StdoutLogAppender"
abbrev pub stdout_type : Str
stdout_type =
    104 ∷ 112 ∷ 115 ∷ 95 ∷ 83 ∷ 116 ∷ 100 ∷ 111 ∷ 117 ∷ 116 ∷ 76 ∷ 111 ∷ 103 ∷ 65 ∷ 112 ∷ 112 ∷ 101
    ∷ 110 ∷ 100 ∷ 101 ∷ 114 ∷ []

pub record AppenderDefine : Type 0 where
  pub type : ℕ
  pub level : Level
  pub formatter : Str
  pub file : Str

pub record LogDefine : Type 0 where
  pub name : Str
  pub level : Level
  pub formatter : Str
  pub appenders : List AppenderDefine

abbrev pub same_level : Level → Level → Bool
same_level a b = value a == value b

-- `operator==` of both, and `operator<`.
unfoldable pub same_appender : AppenderDefine → AppenderDefine → Bool
same_appender a b =
    a.type == b.type
    && same_level a.level b.level
    && same_str a.formatter b.formatter
    && same_str a.file b.file

unfoldable pub same_appenders : List AppenderDefine → List AppenderDefine → Bool
unfolding same_appender
same_appenders [] [] = true
same_appenders (a ∷ xs) (b ∷ bs) = same_appender a b && same_appenders xs bs
same_appenders _ _ = false

unfoldable pub same_define : LogDefine → LogDefine → Bool
unfolding same_appenders
same_define a b =
    same_str a.name b.name
    && same_level a.level b.level
    && same_str a.formatter b.formatter
    && same_appenders a.appenders b.appenders

unfoldable pub less_define : LogDefine → LogDefine → Bool
less_define a b = less_str a.name b.name

-- `Load`, `<<`, `size`, `node[i]`, `node[key]` where it is defined, `as<std::string>`, a node of a
-- string, `Node()`, `push_back`, and `node[key] = value`.
pub record Keyed (Node : Type 0) : Type 0 where
  pub load : Str → Option Node
  pub emit : Node → Str
  pub size : Node → ℕ
  pub at : Node → ℕ → Node
  pub get : Node → Str → Option Node
  pub text : Node → Option Str
  pub scalar : Str → Node
  pub null : Node
  pub push_back : Node → Node → Node
  pub put : Node → Str → Node → Node

module _ {Node : Type 0} (yaml : Keyed Node) where
  -- `node[key].as<std::string>()` where the key is defined, and "" where it is not.
  abbrev pub text_or_empty : Option Node → Option Str
  text_or_empty none = some []
  text_or_empty (some n) = yaml.text n

  -- The body of the loop over the appenders; the inner `none` is `continue`.
  unfoldable pub read_appender : Node → Option (Option AppenderDefine)
  read_appender a = elim (yaml.get a key_type) [
    | none ↦ some none
    | some t ↦ elim (yaml.text t) [
      | none ↦ none
      | some type ↦
          if same_str type file_type
          then elim (yaml.get a key_file) [
            | none ↦ some none
            | some f ↦ elim (yaml.text f) [
              | none ↦ none
              | some file ↦ elim (text_or_empty (yaml.get a key_formatter)) [
                | none ↦ none
                | some formatter ↦
                    some (
                      some
                        (record { type = 1; level = unknow; formatter = formatter; file = file }))
              ]
            ]
          ]
          else if same_str type stdout_type
          then some (some (record { type = 2; level = unknow; formatter = []; file = [] }))
          else some none
    ]
  ]

  -- A loop that reads the elements of a sequence, from `i` on, and adds what is not passed over.
  unfoldable pub read_each :
      {A : Type 0} (read : Node → Option (Option A)) (add : A → List A → List A)
      → Node
      → ℕ
      → ℕ
      → List A
      → Option (List A)
  read_each read add node zero i c = some c
  read_each read add node (suc n) i c = elim (read (yaml.at node i)) [
    | none ↦ none
    | some none ↦ read_each read add node n (i + 1) c
    | some (some a) ↦ read_each read add node n (i + 1) (add a c)
  ]

  unfoldable pub read_appenders : Option Node → Option (List AppenderDefine)
  unfolding read_appender read_each
  read_appenders none = some []
  read_appenders (some xs) = read_each read_appender push xs (yaml.size xs) 0 []

  -- The body of the loop over the definitions.
  unfoldable pub read_define : Node → Option (Option LogDefine)
  unfolding read_appenders
  read_define n = elim (yaml.get n key_name) [
    | none ↦ some none
    | some m ↦ elim (yaml.text m) [
      | none ↦ none
      | some name ↦ elim (text_or_empty (yaml.get n key_level)) [
        | none ↦ none
        | some l ↦ elim (text_or_empty (yaml.get n key_formatter)) [
          | none ↦ none
          | some formatter ↦ elim (read_appenders (yaml.get n key_appenders)) [
            | none ↦ none
            | some appenders ↦ some (
                some (record {
                  name = name;
                  level = from_string l;
                  formatter = formatter;
                  appenders = appenders;
                }))
          ]
        ]
      ]
    ]
  ]

  -- The conversion from a string.
  unfoldable pub defines_from_string : Str → Option (List LogDefine)
  unfolding read_define read_each less_define
  defines_from_string v = elim (yaml.load v) [
    | none ↦ none
    | some node ↦ read_each read_define (set_insert less_define) node (yaml.size node) 0 []
  ]

  abbrev pub puts : Node → List (Str × Node) → Node
  puts node [] = node
  puts node (p ∷ ps) = puts (yaml.put node p.0 p.1) ps

  abbrev pub pushes : Node → List Node → Node
  pushes node [] = node
  pushes node (n ∷ ns) = pushes (yaml.push_back node n) ns

  -- What is set only for a level other than UNKNOW, and for a formatter that is not empty.
  abbrev pub level_entry : Level → List (Str × Node)
  level_entry l = if same_level l unknow then [] else (key_level, yaml.scalar (to_string l)) ∷ []

  abbrev pub formatter_entry : Str → List (Str × Node)
  formatter_entry [] = []
  formatter_entry (c ∷ s) = (key_formatter, yaml.scalar (c ∷ s)) ∷ []

  abbrev pub appender_entries : AppenderDefine → List (Str × Node)
  appender_entries a =
      (if a.type == 1
        then (key_type, yaml.scalar file_type) ∷ (key_file, yaml.scalar a.file) ∷ []
        else (key_type, yaml.scalar stdout_type) ∷ [])
      ++ level_entry a.level
      ++ formatter_entry a.formatter

  unfoldable pub write_appender : AppenderDefine → Node
  write_appender a = puts yaml.null (appender_entries a)

  abbrev pub appenders_entry : List AppenderDefine → List (Str × Node)
  appenders_entry [] = []
  appenders_entry (a ∷ xs) = (key_appenders, pushes yaml.null (map write_appender (a ∷ xs))) ∷ []

  unfoldable pub write_define : LogDefine → Node
  unfolding write_appender
  write_define d = puts yaml.null (
      (key_name, yaml.scalar d.name) ∷ level_entry d.level
      ++ formatter_entry d.formatter
      ++ appenders_entry d.appenders)

  -- The conversion to a string.
  unfoldable pub defines_to_string : List LogDefine → Str
  unfolding write_define
  defines_to_string ds = yaml.emit (pushes yaml.null (map write_define ds))
