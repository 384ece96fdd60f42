-- ===== src/Log/Logger.antt =====
-- hps_Logger, its appenders and hps_LoggerManager of hps_sf/log.h and hps_sf/log.cpp. Loggers and
-- appenders are objects at addresses, and `next` is the address of the next one that is made. A
-- formatter never changes after it is made, so a pointer to one is its pattern. An output is the
-- address of the appender that writes the event.
pub mod Dispatch
use collabor_ative_schedule.Base.{
  ℕ, zero, suc, ◌+◌, Bool, true, false, not, List, [], ◌∷◌, ◌++◌, Option, none, some, ◌==◌,
  if◌then◌else◌, Outcome, ok, fault, null_pointer, ◌>>=◌, Str, same_str,
}
use collabor_ative_schedule.Fiber.{put}
use collabor_ative_schedule.Scheduler.{is_some}
use collabor_ative_schedule.Log.Level.{Level, debug, at_least}
use collabor_ative_schedule.Log.Pattern.{init}

-- `hps_LogAppender`; `file` is m_filename of one to a file, and none of one to the console.
pub record Appender : Type 0 where
  pub level : Level
  pub has_formatter : Bool
  pub formatter : Option Str
  pub file : Option Str

-- `hps_Logger`.
pub record Logger : Type 0 where
  pub name : Str
  pub level : Level
  pub appenders : List ℕ
  pub formatter : Option Str
  pub root : Option ℕ

-- `names` is the manager's map.
pub record Logs : Type 0 where
  pub loggers : ℕ → Logger
  pub appenders : ℕ → Appender
  pub names : Str → Option ℕ
  pub root : ℕ
  pub next : ℕ

abbrev pub set_logger : ℕ → Logger → Logs → Logs
set_logger a l s = record s { loggers = put s.loggers a l }

abbrev pub set_appender : ℕ → Appender → Logs → Logs
set_appender a x s = record s { appenders = put s.appenders a x }

-- "%d{%Y-%m-%d %H:%M:%S}%T%t%T%T%N%T%F%T[%p]%T[%c]%T%f:%l%T%m%n"
abbrev pub default_pattern : Str
default_pattern =
    37 ∷ 100 ∷ 123 ∷ 37 ∷ 89 ∷ 45 ∷ 37 ∷ 109 ∷ 45 ∷ 37 ∷ 100 ∷ 32 ∷ 37 ∷ 72 ∷ 58 ∷ 37 ∷ 77 ∷ 58 ∷ 37
    ∷ 83 ∷ 125 ∷ 37 ∷ 84 ∷ 37 ∷ 116 ∷ 37 ∷ 84 ∷ 37 ∷ 84 ∷ 37 ∷ 78 ∷ 37 ∷ 84 ∷ 37 ∷ 70 ∷ 37 ∷ 84 ∷ 91
    ∷ 37 ∷ 112 ∷ 93 ∷ 37 ∷ 84 ∷ 91 ∷ 37 ∷ 99 ∷ 93 ∷ 37 ∷ 84 ∷ 37 ∷ 102 ∷ 58 ∷ 37 ∷ 108 ∷ 37 ∷ 84
    ∷ 37 ∷ 109 ∷ 37 ∷ 110 ∷ []

-- The constructor of a logger.
abbrev pub new_logger : Str → Logger
new_logger name = record {
  name = name;
  level = debug;
  appenders = [];
  formatter = some default_pattern;
  root = none;
}

-- The constructors of the appenders.
abbrev pub new_appender : Option Str → Appender
new_appender file = record { level = debug; has_formatter = false; formatter = none; file = file }

-- A new appender's address.
unfoldable pub make_appender : Option Str → Logs → ℕ × Logs
make_appender file s =
    (s.next, record (set_appender s.next (new_appender file) s) { next = s.next + 1 })

-- `setLevel` of a logger and of an appender.
abbrev pub set_level : ℕ → Level → Logs → Logs
set_level l v s = set_logger l (record (s.loggers l) { level = v }) s

abbrev pub set_appender_level : ℕ → Level → Logs → Logs
set_appender_level a v s = set_appender a (record (s.appenders a) { level = v }) s

-- `hps_LogAppender::setFormatter`.
unfoldable pub set_appender_formatter : ℕ → Option Str → Logs → Logs
set_appender_formatter a val s =
    set_appender a (record (s.appenders a) { formatter = val; has_formatter = is_some val }) s

-- The loop of `hps_Logger::setFormatter`, over the appenders.
unfoldable pub pass_on : List ℕ → Option Str → (ℕ → Appender) → ℕ → Appender
pass_on [] val xs = xs
pass_on (a ∷ rest) val xs =
    let here =
      if not (xs a).has_formatter then put xs a (record (xs a) { formatter = val }) else xs in
    pass_on rest val here

-- `hps_Logger::setFormatter` with a formatter.
unfoldable pub set_formatter : ℕ → Option Str → Logs → Logs
unfolding pass_on
set_formatter l val s =
    let changed = set_logger l (record (s.loggers l) { formatter = val }) s in
    record changed { appenders = pass_on (s.loggers l).appenders val s.appenders }

-- `hps_Logger::setFormatter` with a pattern.
unfoldable pub set_pattern : ℕ → Str → Logs → Logs
unfolding set_formatter
set_pattern l val s = if (init val).error then s else set_formatter l (some val) s

-- `addAppender`.
unfoldable pub add_appender : ℕ → ℕ → Logs → Logs
add_appender l a s =
    let x = s.appenders a in
    let given =
      if not (is_some x.formatter) then record x { formatter = (s.loggers l).formatter } else x in
    set_logger l (record (s.loggers l) { appenders = (s.loggers l).appenders ++ a ∷ [] })
      (set_appender a given s)

-- `delAppender`: the first occurrence.
unfoldable pub without_first : ℕ → List ℕ → List ℕ
without_first a [] = []
without_first a (x ∷ xs) = let rest = without_first a xs in if x == a then xs else x ∷ rest

unfoldable pub del_appender : ℕ → ℕ → Logs → Logs
unfolding without_first
del_appender l a s =
    set_logger l (record (s.loggers l) { appenders = without_first a (s.loggers l).appenders }) s

unfoldable pub clear_appenders : ℕ → Logs → Logs
clear_appenders l s = set_logger l (record (s.loggers l) { appenders = [] }) s

-- `log` of an appender, to the console or to a file: whether it writes. It needs its formatter.
unfoldable pub appender_log : Level → ℕ → Logs → Outcome (List ℕ)
appender_log level a s =
    if at_least level (s.appenders a).level
    then if is_some (s.appenders a).formatter then ok (a ∷ []) else fault null_pointer
    else ok []

-- The loop over the appenders in `hps_Logger::log`.
unfoldable pub log_all : Level → List ℕ → Logs → Outcome (List ℕ)
unfolding appender_log
log_all level [] s = ok []
log_all level (a ∷ xs) s = do
  here ← appender_log level a s
  rest ← log_all level xs s
  ok (here ++ rest)

-- `hps_Logger::log`. The fuel counts the loggers on the way along `m_root`; `none` is to run out.
unfoldable pub log : ℕ → Level → ℕ → Logs → Option (Outcome (List ℕ))
unfolding log_all
log zero level l s = none
log (suc n) level l s =
    let logger = s.loggers l in
    if not (at_least level logger.level) then some (ok []) else elim logger.appenders [
      | a ∷ xs ↦ some (log_all level (a ∷ xs) s)
      | [] ↦ elim logger.root [ none ↦ some (ok []) | some r ↦ log n level r s ]
    ]

-- `getLogger`.
unfoldable pub get_logger : Str → Logs → ℕ × Logs
get_logger name s = elim (s.names name) [
  | some l ↦ (l, s)
  | none ↦ (
    s.next,
    record (set_logger s.next (record (new_logger name) { root = some s.root }) s) {
      names = λ n. if same_str n name then some s.next else s.names n;
      next = s.next + 1;
    },
  )
]

-- "root"
abbrev pub root_name : Str
root_name = 114 ∷ 111 ∷ 111 ∷ 116 ∷ []

-- The constructor of the manager, with its root logger at 0 and the root's appender at 1.
unfoldable pub new_manager : Logs
unfolding make_appender add_appender
new_manager =
    let s : Logs = record {
      loggers = λ l. new_logger root_name;
      appenders = λ a. new_appender none;
      names = λ n. none;
      root = 0;
      next = 1;
    } in
    let made = make_appender none s in
    let t = add_appender 0 made.0 made.1 in
    record t { names = λ n. if same_str n root_name then some 0 else t.names n }
