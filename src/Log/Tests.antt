-- ===== src/Log/Tests.antt =====
-- Patterns and loggers at concrete values.
use collabor_ative_schedule.Base.{
  ◌+◌, length, ◌++◌, ℕ, ◌≡◌, refl, subst, true, false, List, [], ◌∷◌, Option, none, some, ◌==◌, ok,
  if◌then◌else◌, same_str,
}
use mathlib.Core.Option.{some-injective}
use collabor_ative_schedule.Log.Level.{debug, info, error}
use collabor_ative_schedule.Log.Pattern.{
  Piece, text, directive, init, string, date_time, tab, message, line,
}
use collabor_ative_schedule.Log.Pattern.RoundTrip.{render, Separate}
use collabor_ative_schedule.Log.Formatting.{Event, FileAppender, format_one, format}
use collabor_ative_schedule.Log.Formatting.Files.{Call, kept, file_logs, file_logs-kept}
use collabor_ative_schedule.Log.Formatting.Rendered.{shown_all, any_unknown, format-init}
use collabor_ative_schedule.Log.Logger.{Logs, new_logger, root_name, log}
use collabor_ative_schedule.Log.Logger.Dispatch.{Formatted, targets, log-targets}

-- "%d{%Y}%T:%m"
abbrev pattern : List ℕ
pattern = 37 ∷ 100 ∷ 123 ∷ 37 ∷ 89 ∷ 125 ∷ 37 ∷ 84 ∷ 58 ∷ 37 ∷ 109 ∷ []

abbrev pieces : List Piece
pieces =
    directive (100 ∷ []) (37 ∷ 89 ∷ [])
    ∷ directive (84 ∷ []) []
    ∷ text (58 ∷ [])
    ∷ directive (109 ∷ []) []
    ∷ []

pattern_items :
    (init pattern).items ≡ date_time (37 ∷ 89 ∷ []) ∷ tab ∷ string (58 ∷ []) ∷ message ∷ []
unfolding init
pattern_items = refl

pattern-render : render pieces ≡ pattern
unfolding render
pattern-render = refl

-- "%m{" never closes its brace.
open_pattern : (init (37 ∷ 109 ∷ 123 ∷ [])).error ≡ true
unfolding init
open_pattern = refl

pieces-Separate : Separate pieces
unfolding render
pieces-Separate = (
  (refl, (refl, tt)),
  (refl, (refl, tt)),
  λ e. cc,
  ((refl, (refl, tt)), tt, λ _. refl, ((refl, (refl, tt)), ((refl, (refl, tt)), tt, λ _. tt, tt))),
)

abbrev event : Event
event = record {
  file = [];
  line_no = 12;
  elapsed = 0;
  thread = 1;
  fiber = 0;
  time = 5;
  thread_called = [];
  content = 104 ∷ 105 ∷ [];
  logger = [];
  at_level = info;
}

-- A clock that shows the format itself.
format-init_example :
    (format (λ f t. f) info event (init (render pieces)).items
      ≡ shown_all (λ f t. f) info event pieces)
    × ((init (render pieces)).error ≡ any_unknown pieces)
format-init_example = format-init (λ f t. f) info event pieces pieces-Separate

shows : shown_all (λ f t. f) info event pieces ≡ 37 ∷ 89 ∷ 9 ∷ 58 ∷ 104 ∷ 105 ∷ []
unfolding format_one
shows = refl

shows_numbers : format_one (λ f t. f) info event line ≡ 49 ∷ 50 ∷ []
unfolding format_one
shows_numbers = refl

-- The root logger at 0 with the appenders 10 and 11, and the logger 1 without appenders.
abbrev logs : Logs
logs = record {
  loggers = λ l.
      if l == 0
      then record (new_logger root_name) { appenders = 10 ∷ 11 ∷ [] }
      else record (new_logger (97 ∷ [])) { root = some 0 };
  appenders = λ a.
      if a == 10
      then record { level = error; has_formatter = false; formatter = some []; file = none }
      else record { level = debug; has_formatter = false; formatter = some []; file = none };
  names = λ n. if same_str n root_name then some 0 else none;
  root = 0;
  next = 12;
}

info_goes_to_11 : log 2 info 1 logs ≡ some (ok (11 ∷ []))
unfolding log
info_goes_to_11 = refl

root-Formatted :
    (r : ℕ)
    → Path (Option ℕ) (some 0) (some r)
    → ((logs.loggers r).root ≡ none) × Formatted logs (logs.loggers r).appenders
root-Formatted r e =
    subst (λ r. ((logs.loggers r).root ≡ none) × Formatted logs (logs.loggers r).appenders)
      (some-injective 0 r e) (refl, (refl, (refl, tt)))

log-targets_example : log 2 info 1 logs ≡ some (ok (targets info logs (logs.loggers 1)))
log-targets_example = log-targets info 1 logs tt root-Formatted

-- An appender to a file that cannot be opened in the second 5 and can in 6.
abbrev file : FileAppender (λ f t. f)
file = record {
  threshold = info;
  formatter = some (message ∷ []);
  is_open = false;
  last_time = 0;
  written = [];
  complaints = 0;
}

abbrev log_calls : List Call
log_calls =
    record { opens = false; now = 5; level = info; event = event }
    ∷ record { opens = true; now = 6; level = debug; event = event }
    ∷ record { opens = true; now = 6; level = error; event = event }
    ∷ []

file_logs-kept_example :
    let texts = kept (λ f t. f) info (message ∷ []) log_calls false 0 in
    (b : FileAppender (λ f t. f)) × (file_logs (λ f t. f) log_calls file ≡ ok b)
    × (b.written ≡ [] ++ texts)
    × (b.complaints ≡ 0 + length texts)
file_logs-kept_example = file_logs-kept (λ f t. f) log_calls (message ∷ []) file refl
