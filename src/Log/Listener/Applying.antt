-- ===== src/Log/Listener/Applying.antt =====
-- The loop of the listener over the new definitions.
use collabor_ative_schedule.Base.{
  ◌≡◌, refl, sym, ap, subst, ◌∙◌, ◌<◌, ◌≤◌, ◌+◌, Bool, true, false, List, [], ◌∷◌, map, some, ok,
  Str, same_str, ℕ, zero, suc, arith, All, length,
}
use collabor_ative_schedule.Log.Defines.{LogDefine}
use collabor_ative_schedule.Log.Logger.{Logger, Logs, get_logger}
use collabor_ative_schedule.Log.Listener.{configure}
use collabor_ative_schedule.Log.Listener.Adding.{appender_of, all_usable, from}
use collabor_ative_schedule.Log.Listener.Configuring.{configured, new_pattern, configure_lem}
use collabor_ative_schedule.Log.Listener.Keeping.{
  Shape, logger_of, Keeps, Keeps-trans, Keeps-weaken, Touches-Keeps, get_logger_lem,
}

-- The logger that is registered under the name of `d` is what `base` becomes by the definition,
-- with an appender, at `low` or above, for each that the definition has.
pub record Applied (low : ℕ) (d : LogDefine) (base : Logger) (t : Logs) : Type 0 where
  pub address : ℕ
  pub appenders : List ℕ
  pub registered : t.names d.name ≡ some address
  pub logger : t.loggers address ≡ configured d base appenders
  pub newly : All (λ a. (low ≤ a) × (a < t.next)) appenders
  pub made : map t.appenders appenders ≡ map (appender_of (new_pattern d base)) d.appenders

from-newly : (low n k t : ℕ) → low ≤ n → t ≡ n + k → All (λ a. (low ≤ a) × (a < t)) (from n k)
from-newly low n zero t h e = tt
from-newly low n (suc k) t h e =
    ((h, omega (arith, e)), from-newly low (n + 1) k t (omega (arith, h)) (omega (arith, e)))

newly_later :
    (low n m : ℕ) (xs : List ℕ)
    → n ≤ m
    → All (λ a. (low ≤ a) × (a < n)) xs
    → All (λ a. (low ≤ a) × (a < m)) xs
newly_later low n m [] e h = tt
newly_later low n m (x ∷ xs) e h =
    ((h.0.0, let l = h.0.1 in omega (arith, l, e)), newly_later low n m xs e h.1)

made_later :
    (low : ℕ) (f : Str → Bool) (s t : Logs) (xs : List ℕ)
    → Keeps low f s t
    → All (λ a. (low ≤ a) × (a < s.next)) xs
    → map t.appenders xs ≡ map s.appenders xs
made_later low f s t [] k h = refl
made_later low f s t (x ∷ xs) k h =
    let p = k.earlier x h.0.0 h.0.1 in let q = made_later low f s t xs k h.1 in cc

pub Applied-later :
    (low : ℕ) (d : LogDefine) (base : Logger) (f : Str → Bool) (s t : Logs)
    → Keeps low f s t
    → f d.name ≡ false
    → Applied low d base s
    → Applied low d base t
Applied-later low d base f s t k e h = record {
  address = h.address;
  appenders = h.appenders;
  registered = k.names d.name e ∙ h.registered;
  logger = k.loggers d.name h.address e h.registered ∙ h.logger;
  newly = newly_later low s.next t.next h.appenders k.grows h.newly;
  made = made_later low f s t h.appenders k h.newly ∙ h.made;
}

-- What one definition with types that there are does.
pub configure_named :
    (low : ℕ) (d : LogDefine) (s : Logs)
    → Shape s
    → all_usable d.appenders ≡ true
    → low ≤ s.next
    → All (λ x. x < low) (logger_of d.name s).appenders
    → (t : Logs) × (configure d (get_logger d.name s) ≡ ok t)
      × Applied low d (logger_of d.name s) t
      × Keeps low (λ n. same_str n d.name) s t
      × Shape t
configure_named low d s shape u le h =
    let r = get_logger d.name s in
    let (reg, log, k, sh) = get_logger_lem low d.name s shape in
    let (t, e, touch, n, l, v) =
      configure_lem low r.0 d r.1 u
        (subst (λ (g : Logger). All (λ x. x < low) g.appenders) (sym log) h) in
    let (k', sh') = Touches-Keeps low d.name r.0 r.1 t sh reg touch in
    let count = length d.appenders in
    (
      t,
      e,
      record {
        address = r.0;
        appenders = from r.1.next count;
        registered = ap (λ f. f d.name) touch.names ∙ reg;
        logger = l ∙ ap (λ g. configured d g (from r.1.next count)) log;
        newly = from-newly low r.1.next count t.next (omega (arith, le, k.grows)) n;
        made = v ∙ ap (λ g. map (appender_of (new_pattern d g)) d.appenders) log;
      },
      Keeps-weaken low _ (λ n. same_str n d.name) s t (λ n x. rw x refl)
          (Keeps-trans low (λ n. same_str n d.name) (λ n. same_str n d.name) s r.1 t k k'),
      sh',
    )
