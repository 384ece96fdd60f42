-- ===== src/Log/Listener/Tests.antt =====
-- The definitions of loggers, applied to a new manager.
use collabor_ative_schedule.Base.{
  ◌≡◌, refl, true, false, [], ◌∷◌, ok, fault, null_pointer, All, arith, ◌≢◌, Str, same_str, false,
  Bool-cases, inl, inr, ap, ◌∙◌,
}
use collabor_ative_schedule.Log.Level.{unknow, info, error}
use collabor_ative_schedule.Log.Defines.{LogDefine, less_define, same_define}
use collabor_ative_schedule.Config.Casts.RoundTrip.{IsAscending}
use collabor_ative_schedule.Log.Logger.{Logs, new_manager}
use collabor_ative_schedule.Log.Listener.{on_change, find}
use collabor_ative_schedule.Scheduler.{is_some}
use collabor_ative_schedule.Log.Listener.Keeping.{logger_of}
use collabor_ative_schedule.Log.Listener.Naming.{named_in}
use collabor_ative_schedule.Log.Listener.Refusing.{all_good}
use collabor_ative_schedule.Log.Listener.Brought.{
  Brought, new_manager-WellFormed, on_change-Brought, on_change-faults,
}
use collabor_ative_schedule.Log.Listener.Routing.{Routed, PassedOn, Silent, on_change-Routed}
use collabor_ative_schedule.Log.Listener.History.{starts, calls, Current, History-Current}
use collabor_ative_schedule.Log.Logger.{root_name}
use collabor_ative_schedule.Log.Defines.Tests.{doc, doc-Laws}
use collabor_ative_schedule.Log.Listener.Dumped.{Returns, Keys, History-Returns}

-- The logger "a", at INFO, with the file "f" at ERROR and the console with the pattern "%m".
abbrev define : LogDefine
define = record {
  name = 97 ∷ [];
  level = info;
  formatter = [];
  appenders =
      record { type = 1; level = error; formatter = []; file = 102 ∷ [] }
      ∷ record { type = 2; level = unknow; formatter = 37 ∷ 109 ∷ []; file = [] }
      ∷ [];
}

-- The logger "b" without appenders.
abbrev other : LogDefine
other = record { name = 98 ∷ []; level = error; formatter = []; appenders = [] }

first_good : all_good [] (define ∷ []) ≡ true
unfolding find
first_good = refl

second_good : all_good (other ∷ []) (define ∷ []) ≡ true
unfolding find
second_good = refl

-- A second definition beside one that stays as it is.
added_bad : all_good (define ∷ []) (define ∷ other ∷ []) ≡ false
unfolding find same_define
added_bad = refl

in_order : IsAscending less_define (define ∷ other ∷ [])
unfolding less_define
in_order = (((refl, refl), tt), (tt, tt))

on_change-Brought_example :
    (t : Logs) × (on_change (other ∷ []) (define ∷ []) new_manager ≡ ok t)
    × Brought (other ∷ []) (define ∷ []) new_manager t
on_change-Brought_example =
    on_change-Brought (other ∷ []) (define ∷ []) new_manager new_manager-WellFormed (tt, tt)
      (tt, tt) second_good

on_change-faults_example :
    on_change (define ∷ []) (define ∷ other ∷ []) new_manager ≡ fault null_pointer
on_change-faults_example =
    on_change-faults (define ∷ []) (define ∷ other ∷ []) new_manager new_manager-WellFormed in_order
      added_bad

has_pattern : is_some (logger_of (97 ∷ []) new_manager).formatter ≡ true
unfolding new_manager
has_pattern = refl

on_change-Routed_example :
    (t : Logs) × (on_change (other ∷ []) (define ∷ []) new_manager ≡ ok t)
    × All
        (λ (d : LogDefine). d.appenders ≢ [] → Routed info d (logger_of d.name new_manager) t)
        (define ∷ [])
    × All
        (λ (d : LogDefine). d.appenders ≡ [] → PassedOn info d (logger_of d.name new_manager) t)
        (define ∷ [])
    × All (λ (d : LogDefine). named_in (define ∷ []) d.name ≡ false → Silent info d t) (other ∷ [])
on_change-Routed_example =
    on_change-Routed info (other ∷ []) (define ∷ []) new_manager (omega arith)
      new_manager-WellFormed (tt, tt) (tt, tt) second_good (has_pattern, tt)

abbrev result :
    (t : Logs) × (on_change [] (define ∷ []) new_manager ≡ ok t)
    × Brought [] (define ∷ []) new_manager t
result =
    on_change-Brought [] (define ∷ []) new_manager new_manager-WellFormed tt (tt, tt) first_good

History-Current_example : Current (define ∷ []) result.0
History-Current_example = History-Current (calls (define ∷ []) starts (tt, tt) result.1)

root_registered : is_some (new_manager.names root_name) ≡ true
unfolding new_manager
root_registered = refl

others_unregistered :
    (n : Str)
    → same_str n (97 ∷ []) ≡ false
    → same_str n root_name ≡ false
    → is_some (result.0.names n) ≡ false
unfolding new_manager
others_unregistered n a r = ap is_some (result.2.others.names n (rw a refl)) ∙ rw r refl

result-Keys : Keys result.0 ((97 ∷ []) ∷ root_name ∷ [])
result-Keys = record {
  registered = (
    ap is_some result.2.applied.0.registered,
    (ap is_some (result.2.others.names root_name refl) ∙ root_registered, tt),
  );
  ascending = (((refl, refl), tt), (tt, tt));
  all = λ n h. elim (Bool-cases (same_str n (97 ∷ []))) [
    | inl a ↦ rw a refl
    | inr a ↦ elim (Bool-cases (same_str n root_name)) [
      | inl r ↦ rw (a, r) refl
      | inr r ↦ absurd (cc (others_unregistered n a r, h))
    ]
  ];
}

History-Returns_example : Returns doc ((97 ∷ []) ∷ root_name ∷ []) (define ∷ []) result.0
History-Returns_example =
    History-Returns doc doc-Laws ((97 ∷ []) ∷ root_name ∷ [])
      (calls (define ∷ []) starts (tt, tt) result.1) result-Keys
