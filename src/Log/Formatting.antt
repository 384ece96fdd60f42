-- ===== src/Log/Formatting.antt =====
-- hps_LogEvent, the format items, hps_LogFormatter::format and hps_FileLogAppender of
-- hps_sf/log.cpp. `localtime_r` with `strftime` is a parameter, from a format and a time to a text.
pub mod Rendered
pub mod Files
use collabor_ative_schedule.Base.{
  ℕ, zero, suc, ◌+◌, ◌/◌, ◌%◌, Bool, true, false, not, List, [], ◌∷◌, ◌++◌, Option, none, some, ltb,
  ◌==◌, if◌then◌else◌, Outcome, ok, fault, null_pointer, ◌>>=◌, Str,
}
use collabor_ative_schedule.Log.Level.{Level, debug, info, warn, error, fatal, at_least, to_string}
use collabor_ative_schedule.Log.Pattern.{
  Item, string, message, level, elapse, name, thread_id, new_line, filename, line, tab, fiber_id,
  thread_name, date_time,
}

-- `hps_LogEvent`; its logger is the logger's name, which is what formats read of it.
pub record Event : Type 0 where
  pub file : Str
  pub line_no : ℕ
  pub elapsed : ℕ
  pub thread : ℕ
  pub fiber : ℕ
  pub time : ℕ
  pub thread_called : Str
  pub content : Str
  pub logger : Str
  pub at_level : Level

-- The decimal digits of a number, before `acc`.
abbrev pub digits : ℕ → ℕ → Str → Str
digits zero n acc = acc
digits (suc f) n acc =
    let rest = digits f (n / 10) ((48 + n % 10) ∷ acc) in if ltb n 10 then (48 + n) ∷ acc else rest

-- `<<` of a number.
abbrev pub decimal : ℕ → Str
decimal n = digits (suc n) n []

-- "%Y-%m-%d %H:%M:%S"
abbrev pub default_time : Str
default_time =
    37 ∷ 89 ∷ 45 ∷ 37 ∷ 109 ∷ 45 ∷ 37 ∷ 100 ∷ 32 ∷ 37 ∷ 72 ∷ 58 ∷ 37 ∷ 77 ∷ 58 ∷ 37 ∷ 83 ∷ []

-- The constructor of the time item.
abbrev pub time_format : Str → Str
time_format [] = default_time
time_format (c ∷ s) = c ∷ s

module _ (strftime : Str → ℕ → Str) where
  -- What the `format` of each item writes.
  unfoldable pub format_one : Level → Event → Item → Str
  format_one lvl e (string s) = s
  format_one lvl e message = e.content
  format_one lvl e level = to_string lvl
  format_one lvl e elapse = decimal e.elapsed
  format_one lvl e name = e.logger
  format_one lvl e thread_id = decimal e.thread
  format_one lvl e new_line = 10 ∷ []
  format_one lvl e filename = e.file
  format_one lvl e line = decimal e.line_no
  format_one lvl e tab = 9 ∷ []
  format_one lvl e fiber_id = decimal e.fiber
  format_one lvl e thread_name = e.thread_called
  format_one lvl e (date_time fmt) = strftime (time_format fmt) e.time

  -- `hps_LogFormatter::format`.
  unfoldable pub format : Level → Event → List Item → Str
  unfolding format_one
  format lvl e [] = []
  format lvl e (i ∷ is) = format_one lvl e i ++ format lvl e is

  -- `hps_FileLogAppender`: `is_open` is the state of the stream, `last_time` is m_latsTime,
  -- `written` what went into the file, and `complaints` counts the lines "LogFile error" on the
  -- console.
  pub record FileAppender : Type 0 where
    pub threshold : Level
    pub formatter : Option (List Item)
    pub is_open : Bool
    pub last_time : ℕ
    pub written : List Str
    pub complaints : ℕ

  -- `reopen`; `opens` says whether the file can be opened.
  unfoldable pub reopen : Bool → FileAppender → Bool × FileAppender
  reopen opens a = (opens, record a { is_open = opens })

  -- `log`, at the second `now`. What is written into a stream that is not open is lost.
  unfoldable pub file_log : Bool → ℕ → Level → Event → FileAppender → Outcome FileAppender
  unfolding reopen format
  file_log opens now lvl e a =
      if not (at_least lvl a.threshold)
      then ok a
      else (let b =
            if now == a.last_time then a else record (reopen opens a).1 { last_time = now } in
          elim b.formatter [
            | none ↦ fault null_pointer
            | some items ↦
                if b.is_open
                then ok (record b {
                  written = b.written ++ format lvl e items ∷ [];
                  complaints = b.complaints + 1;
                })
                else ok b
          ])
