-- ===== src/Log/Listener.antt =====
-- The listener of the configuration variable "logs" in hps_LogIniter of hps_sf/log.cpp, which
-- brings the loggers into line with their definitions. Sets of definitions are lists in their
-- order. Opening the file of a new appender leaves nothing in the store of loggers.
pub mod Adding
pub mod Tests
pub mod History
pub mod Dumped
pub mod Routing
pub mod Brought
pub mod Removing
pub mod Refusing
pub mod Changing
pub mod Applying
pub mod Naming
pub mod Keeping
pub mod Configuring
use collabor_ative_schedule.Base.{
  Bool, true, false, not, ◌&&◌, List, [], ◌∷◌, Option, none, some, ◌==◌, if◌then◌else◌, Outcome, ok,
  fault, null_pointer, ◌>>=◌, Str, ℕ,
}
use collabor_ative_schedule.Log.Level.{removed}
use collabor_ative_schedule.Log.Pattern.{init}
use collabor_ative_schedule.Log.Defines.{AppenderDefine, LogDefine, less_define, same_define}
use collabor_ative_schedule.Log.Logger.{
  Logs, make_appender, set_level, set_appender_level, set_appender_formatter, set_pattern,
  add_appender, clear_appenders, get_logger,
}

-- `std::set::find`: the element that is neither before nor after `i`.
unfoldable pub find : LogDefine → List LogDefine → Option LogDefine
unfolding less_define
find i [] = none
find i (d ∷ ds) =
    let rest = find i ds in if not (less_define i d) && not (less_define d i) then some d else rest

-- The appender that a definition asks for. Of another type there is none, and `ap` stays null.
unfoldable pub make_defined : AppenderDefine → Logs → Outcome (ℕ × Logs)
unfolding make_appender
make_defined a s =
    if a.type == 1
    then ok (make_appender (some a.file) s)
    else if a.type == 2
    then ok (make_appender none s)
    else fault null_pointer

-- The pattern of an appender is passed over when it is an error.
unfoldable pub give_pattern : Str → ℕ → Logs → Logs
unfolding set_appender_formatter
give_pattern [] ap s = s
give_pattern (c ∷ f) ap s =
    if (init (c ∷ f)).error then s else set_appender_formatter ap (some (c ∷ f)) s

-- The body of the loop over a definition's appenders.
unfoldable pub add_defined : ℕ → AppenderDefine → Logs → Outcome Logs
unfolding make_defined give_pattern
add_defined l a s = do
  made ← make_defined a s
  ok (
      add_appender l made.0
        (give_pattern a.formatter made.0 (set_appender_level made.0 a.level made.1)))

unfoldable pub add_each_defined : ℕ → List AppenderDefine → Logs → Outcome Logs
unfolding add_defined
add_each_defined l [] s = ok s
add_each_defined l (a ∷ xs) s = do t ← add_defined l a s; add_each_defined l xs t

-- `if (!i.formatter.empty()) logger -> setFormatter(i.formatter);`
unfoldable pub set_defined_pattern : Str → ℕ → Logs → Logs
unfolding set_pattern
set_defined_pattern [] l s = s
set_defined_pattern (c ∷ f) l s = set_pattern l (c ∷ f) s

-- What is done to the logger that `logger` points to.
unfoldable pub configure : LogDefine → ℕ × Logs → Outcome Logs
unfolding set_defined_pattern clear_appenders add_each_defined
configure i got =
    add_each_defined got.0 i.appenders (
      clear_appenders got.0 (set_defined_pattern i.formatter got.0 (set_level got.0 i.level got.1)))

-- The body of the loop over the new definitions. For one that is in `old_value` unchanged `logger`
-- stays null.
unfoldable pub change_one : List LogDefine → LogDefine → Logs → Outcome Logs
unfolding find configure get_logger same_define
change_one old_value i s = elim (find i old_value) [
  | none ↦ configure i (get_logger i.name s)
  | some it ↦
      if not (same_define i it) then configure i (get_logger i.name s) else fault null_pointer
]

unfoldable pub change_each : List LogDefine → List LogDefine → Logs → Outcome Logs
unfolding change_one
change_each old_value [] s = ok s
change_each old_value (i ∷ is) s = do t ← change_one old_value i s; change_each old_value is t

-- The body of the loop over the old definitions.
unfoldable pub remove_one : List LogDefine → LogDefine → Logs → Logs
unfolding find get_logger clear_appenders
remove_one new_value i s = elim (find i new_value) [
  | some it ↦ s
  | none ↦ let got = get_logger i.name s in clear_appenders got.0 (set_level got.0 removed got.1)
]

unfoldable pub remove_each : List LogDefine → List LogDefine → Logs → Logs
unfolding remove_one
remove_each new_value [] s = s
remove_each new_value (i ∷ is) s = remove_each new_value is (remove_one new_value i s)

-- The function that hps_LogIniter passes to addListener.
unfoldable pub on_change : List LogDefine → List LogDefine → Logs → Outcome Logs
unfolding change_each remove_each
on_change old_value new_value s = do
  t ← change_each old_value new_value s
  ok (remove_each new_value old_value t)
