-- ===== src/Log/Listener/History.antt =====
-- The loggers while the listener of the variable "logs" is called time and again. In
-- hps_sf/config.h addListener stores no listener, so no change of the value makes such a call.
use collabor_ative_schedule.Base.{
  ◌≡◌, sym, ap, subst, ◌∙◌, ◌<◌, ◌+◌, false, List, [], none, some, Str, same_str, same_str-eq, ℕ,
  arith, Bool-cases, Option-cases, inl, inr, All, ok, if◌then◌else◌,
}
use mathlib.Core.Option.{some-injective}
use collabor_ative_schedule.Config.Casts.RoundTrip.{IsAscending}
use collabor_ative_schedule.Log.Defines.{LogDefine, less_define}
use collabor_ative_schedule.Log.Logger.{Logger, Logs, new_manager, get_logger}
use collabor_ative_schedule.Log.Logger.Dispatch.{made, get_logger_new, get_logger_old}
use collabor_ative_schedule.Log.Listener.{on_change}
use collabor_ative_schedule.Log.Listener.Adding.{put-same, put-other}
use collabor_ative_schedule.Log.Listener.Keeping.{made_lem, logger_of}
use collabor_ative_schedule.Log.Listener.Applying.{Applied, Applied-later}
use collabor_ative_schedule.Log.Listener.Refusing.{all_good}
use collabor_ative_schedule.Log.Listener.Changing.{All-zip}
use collabor_ative_schedule.Log.Listener.Brought.{
  WellFormed, new_manager-WellFormed, on_change-Brought, on_change-faults, below_later,
}

-- The last new value that the listener was given and the loggers, after any calls of the listener,
-- each with the new value of the last as its old one, and any calls of getLogger.
pub data History : List LogDefine → Logs → Type 0 where
  starts : History [] new_manager
  asks : {v : List LogDefine} {s : Logs} (n : Str) → History v s → History v (get_logger n s).1
  calls :
      {old : List LogDefine} {s t : Logs} (new : List LogDefine)
      → History old s
      → IsAscending less_define new
      → on_change old new s ≡ ok t
      → History new t

-- The definition is what its logger was last configured by.
pub record InForce (d : LogDefine) (s : Logs) : Type 0 where
  pub low : ℕ
  pub base : Logger
  pub applied : Applied low d base s

pub record Current (v : List LogDefine) (s : Logs) : Type 0 where
  pub ascending : IsAscending less_define v
  pub well_formed : WellFormed s
  pub in_force : All (λ d. InForce d s) v

asked-InForce :
    (n : Str) (d : LogDefine) (s : Logs)
    → WellFormed s
    → s.names n ≡ none
    → InForce d s
    → InForce d (made n s)
asked-InForce n d s w e h = record {
  low = h.low;
  base = h.base;
  applied =
      let other : same_str d.name n ≡ false =
        elim (Bool-cases (same_str d.name n)) as (λ _. same_str d.name n ≡ false) [
          | inl x ↦
              let r = h.applied.registered in
              let y : some h.applied.address ≡ none =
                sym r ∙ ap s.names (same_str-eq d.name n x) ∙ e in
              cc
          | inr x ↦ x
        ] in
      Applied-later h.low d h.base (λ m. same_str m n) s (made n s) (made_lem h.low n s w.shape e).0
        other h.applied;
}

made-WellFormed : (n : Str) (s : Logs) → WellFormed s → s.names n ≡ none → WellFormed (made n s)
made-WellFormed n s w e = record {
  shape = (made_lem 0 n s w.shape e).1;
  below = λ m l q. elim (Bool-cases (same_str m n)) [
    | inl x ↦
        let y =
          some-injective s.next l (ap (λ b. if b then some s.next else s.names m) (sym x) ∙ q) in
        subst (λ l. All (λ a. a < s.next + 1) ((made n s).loggers l).appenders) y
          (subst (λ (g : Logger). All (λ a. a < s.next + 1) g.appenders)
            (sym (put-same s.loggers s.next _)) tt)
    | inr x ↦
        let y = ap (λ b. if b then some s.next else s.names m) (sym x) ∙ q in
        let lt = (w.shape m l y).1 in
        subst (λ (g : Logger). All (λ a. a < s.next + 1) g.appenders)
          (sym (put-other s.loggers s.next l _ (ground arith)))
          (below_later s.next (s.next + 1) (s.loggers l).appenders (omega arith) (w.below m l y))
  ];
}

asked-Current :
    (n : Str) (v : List LogDefine) (s : Logs) → Current v s → Current v (get_logger n s).1
asked-Current n v s c = elim (Option-cases (s.names n)) [
  | inr (l, e) ↦ subst (λ r. Current v r.1) (sym (get_logger_old n l s e)) c
  | inl e ↦
      subst (λ r. Current v r.1) (sym (get_logger_new n s e))
        (record {
          ascending = c.ascending;
          well_formed = made-WellFormed n s c.well_formed e;
          in_force =
              All-zip {R = λ d. InForce d (made n s)}
                (λ d h _. asked-InForce n d s c.well_formed e h) v c.in_force c.in_force;
        })
]

changed-Current :
    (old new : List LogDefine) (s t : Logs)
    → Current old s
    → IsAscending less_define new
    → on_change old new s ≡ ok t
    → Current new t
changed-Current old new s t c asc e = elim (Bool-cases (all_good old new)) [
  | inr x ↦ let y = on_change-faults old new s c.well_formed asc x in cc
  | inl x ↦
      let (t', done, b) = on_change-Brought old new s c.well_formed c.ascending asc x in
      let same : t' ≡ t = cc in
      subst (Current new) same (record {
        ascending = asc;
        well_formed = b.well_formed;
        in_force =
            All-zip {R = λ d. InForce d t'}
              (λ (d : LogDefine) h _. record {
                low = s.next;
                base = logger_of d.name s;
                applied = h;
              })
              new b.applied b.applied;
      })
]

-- After any calls of the listener that come to their end, each with the new value of the last as
-- its old one, on the manager that the constructor makes, and whatever loggers are asked for
-- between, the map of names is in order, and each definition of the value that the last call was
-- given is in force: the logger of its name has its level, its pattern, and an appender for each
-- that it has.
pub History-Current : {v : List LogDefine} {s : Logs} → History v s → Current v s
History-Current starts = record {
  ascending = tt;
  well_formed = new_manager-WellFormed;
  in_force = tt;
}
History-Current (asks {v} {s} n h) = asked-Current n v s (History-Current h)
History-Current (calls {old} {s} {t} new h asc e) =
    changed-Current old new s t (History-Current h) asc e
