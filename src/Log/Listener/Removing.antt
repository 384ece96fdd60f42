-- ===== src/Log/Listener/Removing.antt =====
-- The loop of the listener over the old definitions.
use collabor_ative_schedule.Base.{
  ◌≡◌, refl, sym, ap, subst, ◌∙◌, Bool, true, false, not, ◌&&◌, ◌||◌, List, [], ◌∷◌, some, Str,
  same_str, same_str-eq, ℕ, arith, Bool-cases, Option-cases, inl, inr, All,
}
use collabor_ative_schedule.Scheduler.{is_some}
use collabor_ative_schedule.Log.Level.{removed}
use collabor_ative_schedule.Log.Defines.{LogDefine}
use collabor_ative_schedule.Log.Logger.{Logger, Logs, get_logger, set_level, clear_appenders}
use collabor_ative_schedule.Log.Listener.{find, remove_one, remove_each}
use collabor_ative_schedule.Log.Listener.Adding.{put-same, with_appenders}
use collabor_ative_schedule.Log.Listener.Configuring.{Touches-trans, set_logger_touches}
use collabor_ative_schedule.Log.Listener.Keeping.{
  Shape, logger_of, Keeps, Keeps-refl, Keeps-trans, Keeps-weaken, Keeps-logger_of, Touches-Keeps,
  get_logger_lem,
}
use collabor_ative_schedule.Log.Listener.Naming.{named_in, Apart, differ_each, find-named_in}
use collabor_ative_schedule.Log.Listener.Changing.{All-zip}

-- A logger without its definition.
abbrev pub put_out : Logger → Logger
put_out g = record g { level = removed; appenders = [] }

-- The logger that is registered under the name of `d` is `base`, put out.
pub record Removed (d : LogDefine) (base : Logger) (t : Logs) : Type 0 where
  pub address : ℕ
  pub registered : t.names d.name ≡ some address
  pub logger : t.loggers address ≡ put_out base

-- The names of the old definitions that are not among the new.
abbrev pub gone : List LogDefine → List LogDefine → Str → Bool
gone new [] n = false
gone new (d ∷ ds) n = same_str n d.name && not (named_in new d.name) || gone new ds n

pub gone-named_in :
    (new ds : List LogDefine) (n : Str) → named_in new n ≡ true → gone new ds n ≡ false
gone-named_in new [] n h = refl
gone-named_in new (d ∷ ds) n h =
    let rest = gone-named_in new ds n h in
    elim (Bool-cases (same_str n d.name)) [
      | inl x ↦
          let y : named_in new d.name ≡ true =
            ap (named_in new) (sym (same_str-eq n d.name x)) ∙ h in
          rw (x, y, rest) refl
      | inr x ↦ rw (x, rest) refl
    ]

remove_one_lem :
    (low : ℕ) (new : List LogDefine) (d : LogDefine) (s : Logs)
    → Shape s
    → named_in new d.name ≡ false
    → let t = remove_one new d s in
      Removed d (logger_of d.name s) t × Keeps low (λ n. same_str n d.name) s t × Shape t
unfolding remove_one clear_appenders
remove_one_lem low new d s shape e = elim (Option-cases (find d new)) [
  | inr (it, x) ↦ let y : true ≡ false = ap is_some (sym x) ∙ find-named_in d new ∙ e in cc
  | inl x ↦
      let r = get_logger d.name s in
      let (reg, log, k, sh) = get_logger_lem low d.name s shape in
      let a = set_level r.0 removed r.1 in
      let t = clear_appenders r.0 a in
      let touch =
        Touches-trans low r.0 r.1 a t (set_logger_touches low r.0 _ r.1 refl)
          (set_logger_touches low r.0 _ a refl) in
      let (k', sh') = Touches-Keeps low d.name r.0 r.1 t sh reg touch in
      rw (remove_one, x)
        (
          record {
            address = r.0;
            registered = reg;
            logger =
                put-same a.loggers r.0 _
                ∙ ap (λ g. with_appenders g []) (put-same r.1.loggers r.0 _)
                ∙ ap put_out log;
          },
          Keeps-weaken low _ (λ n. same_str n d.name) s t (λ n x. rw x refl)
              (Keeps-trans low (λ n. same_str n d.name) (λ n. same_str n d.name) s r.1 t k k'),
          sh',
        )
]

remove_one_kept :
    (new : List LogDefine) (d : LogDefine) (s : Logs)
    → named_in new d.name ≡ true
    → remove_one new d s ≡ s
unfolding remove_one
remove_one_kept new d s e = elim (Option-cases (find d new)) [
  | inl x ↦ let y : false ≡ true = ap is_some (sym x) ∙ find-named_in d new ∙ e in cc
  | inr (it, x) ↦ rw (remove_one, x) refl
]

Removed-later :
    (low : ℕ) (d : LogDefine) (base : Logger) (f : Str → Bool) (s t : Logs)
    → Keeps low f s t
    → f d.name ≡ false
    → Removed d base s
    → Removed d base t
Removed-later low d base f s t k e h = record {
  address = h.address;
  registered = k.names d.name e ∙ h.registered;
  logger = k.loggers d.name h.address e h.registered ∙ h.logger;
}

gone-Apart : (new ds : List LogDefine) (n : Str) → named_in ds n ≡ false → gone new ds n ≡ false
gone-Apart new [] n h = refl
gone-Apart new (d ∷ ds) n h =
    let x : same_str n d.name ≡ false = ground (arith, h) in
    let y = gone-Apart new ds n (ground (arith, h)) in rw (x, y) refl

-- What the loop does from `s` to `t`.
abbrev pub Removes : ℕ → List LogDefine → List LogDefine → Logs → Logs → Type 0
Removes low new ds s t =
    All (λ (d : LogDefine). named_in new d.name ≡ false → Removed d (logger_of d.name s) t) ds
    × Keeps low (gone new ds) s t
    × Shape t

pub remove_each_lem :
    (low : ℕ) (new ds : List LogDefine) (s : Logs)
    → Shape s
    → Apart ds
    → Removes low new ds s (remove_each new ds s)
unfolding remove_each
remove_each_lem low new [] s shape apart = (tt, Keeps-refl low s _, shape)
remove_each_lem low new (d ∷ ds) s shape apart = elim (Bool-cases (named_in new d.name)) [
  | inl x ↦
      let (a, k, sh) = remove_each_lem low new ds s shape apart.1 in
      let done : Removes low new (d ∷ ds) s (remove_each new ds s) = (
        (λ e. cc, a),
        Keeps-weaken low (gone new ds) (gone new (d ∷ ds)) s _ (λ n e. ground (arith, e)) k,
        sh,
      ) in
      subst (Removes low new (d ∷ ds) s) (ap (remove_each new ds) (sym (remove_one_kept new d s x)))
        done
  | inr x ↦
      let s1 = remove_one new d s in
      let (r, k1, sh1) = remove_one_lem low new d s shape x in
      let (a, k, sh) = remove_each_lem low new ds s1 sh1 apart.1 in
      let t = remove_each new ds s1 in
      (
        (
          λ _.
              Removed-later low d (logger_of d.name s) (gone new ds) s1 t k
                (gone-Apart new ds d.name apart.0) r,
          All-zip
              (λ y n h e.
                subst (λ g. Removed y g t)
                  (Keeps-logger_of low (λ n. same_str n d.name) s s1 y.name k1 n) (h e))
              ds (differ_each d.name ds apart.0) a,
        ),
        Keeps-weaken low _ (gone new (d ∷ ds)) s t (λ n e. ground (arith, e, x))
            (Keeps-trans low (λ n. same_str n d.name) (gone new ds) s s1 t k1 k),
        sh,
      )
]
