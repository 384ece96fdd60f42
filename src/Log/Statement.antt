-- ===== src/Log/Statement.antt =====
-- The macros of hps_sf/log.h that make an event and give it to a logger, with hps_LogEventWarp of
-- hps_sf/log.cpp. The numbers of the thread and of the fiber, the time and what vasprintf prints
-- are arguments. As in Log/Logger, an output is the address of the appender that writes the event.
use mathlib.Core.Option
use collabor_ative_schedule.Base.{
  ℕ, List, [], ◌++◌, Option, none, some, if◌then◌else◌, Outcome, ok, ◌>>=◌, ◌∷◌, Str,
}
use collabor_ative_schedule.Util.{short_fiber_id}
use collabor_ative_schedule.Log.Level.{Level, debug, info, warn, error, fatal, at_least}
use collabor_ative_schedule.Log.Formatting.{Event}
use collabor_ative_schedule.Log.Logger.{Logs, log}

-- The constructor of `hps_LogEvent`.
unfoldable pub new_event : Str → Level → Str → ℕ → ℕ → ℕ → ℕ → ℕ → Str → Event
new_event logger level file line elapsed thread fiber time thread_name = record {
  file = file;
  line_no = line;
  elapsed = elapsed;
  thread = thread;
  fiber = fiber;
  time = time;
  thread_called = thread_name;
  content = [];
  logger = logger;
  at_level = level;
}

-- What is streamed into `getSS()`.
abbrev pub write : Str → Event → Event
write text e = record e { content = e.content ++ text }

-- `hps_LogEvent::format`; `none` is a failure of vasprintf.
unfoldable pub format_into : Option Str → Event → Event
format_into none e = e
format_into (some text) e = write text e

-- The event at each of the appenders that `log` hands it to: it passes the event on as it is.
abbrev pub each_with : Event → List ℕ → List (ℕ × Event)
each_with e [] = []
each_with e (a ∷ xs) = (a, e) ∷ each_with e xs

-- `hps_Logger::log` with its event, for the logger at `l`. `fuel` is that of `log`.
unfoldable pub log_event : ℕ → Level → ℕ → Event → Logs → Option (Outcome (List (ℕ × Event)))
unfolding log
log_event fuel level l e s = Option.map (λ r. r >>= λ xs. ok (each_with e xs)) (log fuel level l s)

-- The destructor of `hps_LogEventWarp`.
unfoldable pub destroy_warp : ℕ → ℕ → Event → Logs → Option (Outcome (List (ℕ × Event)))
unfolding log_event
destroy_warp fuel l e s = log_event fuel e.at_level l e s

-- The event that `HPS_LOG_LEVEL` makes; `id` is the fiber's.
unfoldable pub statement_event : ℕ → Level → Str → ℕ → ℕ → ℕ → ℕ → Str → Logs → Event
unfolding new_event short_fiber_id
statement_event l level file line thread id time thread_name s =
    new_event (s.loggers l).name level file line (short_fiber_id id) thread (short_fiber_id id) time
      thread_name

-- `HPS_LOG_LEVEL(logger, level) << text;`.
unfoldable pub log_statement :
    ℕ → ℕ → Level → Str → ℕ → ℕ → ℕ → ℕ → Str → Str → Logs → Option (Outcome (List (ℕ × Event)))
unfolding statement_event destroy_warp
log_statement fuel l level file line thread id time thread_name text s =
    if at_least level (s.loggers l).level
    then destroy_warp fuel l
        (write text (statement_event l level file line thread id time thread_name s)) s
    else some (ok [])

-- `HPS_LOG_FMT_LEVEL(logger, level, fmt, ...);`, whose event has 0 for its elapsed time.
unfoldable pub format_event : ℕ → Level → Str → ℕ → ℕ → ℕ → ℕ → Str → Logs → Event
unfolding new_event short_fiber_id
format_event l level file line thread id time thread_name s =
    new_event (s.loggers l).name level file line 0 thread (short_fiber_id id) time thread_name

unfoldable pub format_statement :
    ℕ
    → ℕ
    → Level
    → Str
    → ℕ
    → ℕ
    → ℕ
    → ℕ
    → Str
    → Option Str
    → Logs
    → Option (Outcome (List (ℕ × Event)))
unfolding format_event format_into destroy_warp
format_statement fuel l level file line thread id time thread_name printed s =
    if at_least level (s.loggers l).level
    then destroy_warp fuel l
        (format_into printed (format_event l level file line thread id time thread_name s)) s
    else some (ok [])

-- `debug`, `info`, `warn`, `error` and `fatal` of `hps_Logger`.
unfoldable pub log_debug : ℕ → ℕ → Event → Logs → Option (Outcome (List (ℕ × Event)))
unfolding log_event
log_debug fuel l e s = log_event fuel debug l e s

unfoldable pub log_info : ℕ → ℕ → Event → Logs → Option (Outcome (List (ℕ × Event)))
unfolding log_event
log_info fuel l e s = log_event fuel info l e s

unfoldable pub log_warn : ℕ → ℕ → Event → Logs → Option (Outcome (List (ℕ × Event)))
unfolding log_event
log_warn fuel l e s = log_event fuel warn l e s

unfoldable pub log_error : ℕ → ℕ → Event → Logs → Option (Outcome (List (ℕ × Event)))
unfolding log_event
log_error fuel l e s = log_event fuel error l e s

unfoldable pub log_fatal : ℕ → ℕ → Event → Logs → Option (Outcome (List (ℕ × Event)))
unfolding log_event
log_fatal fuel l e s = log_event fuel fatal l e s

-- What comes of `vasprintf`: its text, or nothing when it fails.
abbrev pub printed_text : Option Str → Str
printed_text none = []
printed_text (some text) = text
