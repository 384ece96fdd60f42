-- ===== src/IoManager/Removing.antt =====
-- What the removal of one event changes.
use collabor_ative_schedule.Base.{
  ℕ, ◌+◌, ◌<◌, ◌≡◌, refl, sym, ap, ◌∙◌, inl, inr, true, false, subst, List, ◌++◌, some, arith,
  Bool-cases, sub64, ◌==◌, ltb,
}
use collabor_ative_schedule.Fiber.{put}
use collabor_ative_schedule.Scheduler.{Work}
use collabor_ative_schedule.IoManager.{
  Events, none_event, minus, nonzero, FdContext, IoManager, Side, read_side, write_side, at_side,
}
use collabor_ative_schedule.IoManager.Invariant.{
  Inv, Sides, IsArmed, watched, weight, Changes, Changes-Inv, pending-lt, le-sum_below,
}
use collabor_ative_schedule.IoManager.Trigger.{
  event_of, has, cleared, without, cleared-Sides, cleared-weight,
}

-- The manager after the kernel has dropped the event and the context is cleared.
abbrev pub told : Side → ℕ → IoManager → IoManager
told s fd io = record io {
  interest = put io.interest fd (watched (minus (io.contexts fd).events (event_of s)));
}

unfoldable pub dropped : Side → ℕ → IoManager → IoManager
dropped s fd io = without s fd (told s fd io)

-- What the removal of one event brings about, with the works that are handed to schedulers.
pub record Removes (s : Side) (fd : ℕ) (io io' : IoManager) (works : List (ℕ × Work)) : Type 0 where
  pub valid : Inv io'
  pub gone : has s (io'.contexts fd).events ≡ false
  pub events : (io'.contexts fd).events ≡ minus (io.contexts fd).events (event_of s)
  pub others : (i : ℕ) → (i == fd) ≡ false → io'.contexts i ≡ io.contexts i
  pub pending : io'.pending + 1 ≡ io.pending
  pub posted : io'.posted ≡ io.posted ++ works

pub agrees : (s : Side) (c : FdContext) → Sides c → has s c.events ≡ true → IsArmed (at_side s c)
agrees read_side c a h = a.read.on h
agrees write_side c a h = a.write.on h

has_none : (s : Side) → has s none_event ≡ false
has_none read_side = refl
has_none write_side = refl

pub inside :
    (s : Side) (fd : ℕ) (io : IoManager)
    → Inv io
    → has s (io.contexts fd).events ≡ true
    → fd < io.size
inside s fd io inv h = elim (Bool-cases (ltb fd io.size)) [
  | inl e ↦ ground (arith, e)
  | inr e ↦ cc (h, ap (λ c. has s c.events) (inv.beyond fd (ground (arith, e))), has_none s)
]

weight-pos : (s : Side) (c : FdContext) → has s c.events ≡ true → 0 < weight c
weight-pos s c h = omega (arith, cleared-weight s c h)

pub pending-pos :
    (s : Side) (fd : ℕ) (io : IoManager)
    → Inv io
    → has s (io.contexts fd).events ≡ true
    → 0 < io.pending
pending-pos s fd io inv h = omega (
  arith,
  inv.counted,
  weight-pos s (io.contexts fd) h,
  le-sum_below (λ i. weight (io.contexts i)) fd io.size (inside s fd io inv h),
)

pub pending-drop :
    (s : Side) (fd : ℕ) (io : IoManager)
    → Inv io
    → has s (io.contexts fd).events ≡ true
    → sub64 io.pending 1 + 1 ≡ io.pending
pending-drop s fd io inv h = omega (arith, pending-pos s fd io inv h, pending-lt io inv)

pub put_self {ℓ} : {A : Type ℓ} (f : ℕ → A) (a : ℕ) (v : A) → put f a v a ≡ v
put_self f a v = ground arith

pub put_other {ℓ} :
    {A : Type ℓ} (f : ℕ → A) (a i : ℕ) (v : A) → (i == a) ≡ false → put f a v i ≡ f i
put_other f a i v e = rw e refl

dropped-Changes :
    (s : Side) (fd : ℕ) (io : IoManager)
    → Inv io
    → has s (io.contexts fd).events ≡ true
    → Changes fd io (dropped s fd io)
unfolding dropped
dropped-Changes s fd io inv h =
    let c' = cleared s (io.contexts fd) in
    let at : put io.contexts fd c' fd ≡ c' = put_self io.contexts fd c' in
    record {
      inside = inside s fd io inv h;
      sides = subst Sides (sym at) (cleared-Sides s (io.contexts fd) (inv.sides fd));
      kernel = put_self io.interest fd _ ∙ ap (λ x. watched x.events) (sym at);
      named = ap (λ x. x.fd) at ∙ kept_fd s (io.contexts fd) ∙ inv.named fd;
      others = λ i n. put_other io.contexts fd i c' n;
      others_kernel = λ i n. put_other io.interest fd i _ n;
      counted =
          omega
            (arith, ap weight at, cleared-weight s (io.contexts fd) h, pending-drop s fd io inv h);
      size = refl;
    }
  where
    kept_fd : (s : Side) (c : FdContext) → (cleared s c).fd ≡ c.fd
    kept_fd read_side c = refl
    kept_fd write_side c = refl

gone : (s : Side) (c : FdContext) → has s (cleared s c).events ≡ false
gone read_side c = ground arith
gone write_side c = ground arith

pub dropped-Removes :
    (s : Side) (fd : ℕ) (io : IoManager)
    → Inv io
    → has s (io.contexts fd).events ≡ true
    → (works : List (ℕ × Work))
    → Removes s fd io (record (dropped s fd io) { posted = io.posted ++ works }) works
unfolding dropped
dropped-Removes s fd io inv h works =
    let c' = cleared s (io.contexts fd) in
    let v = Changes-Inv fd io (dropped s fd io) (dropped-Changes s fd io inv h) inv in
    record {
      valid = record {
        sides = v.sides;
        kernel = v.kernel;
        named = v.named;
        counted = v.counted;
        beyond = v.beyond;
        grown = v.grown;
        small = v.small;
      };
      gone = ap (λ x. has s x.events) (put_self io.contexts fd c') ∙ gone s (io.contexts fd);
      events = ap (λ x. x.events) (put_self io.contexts fd c');
      others = λ i n. put_other io.contexts fd i c' n;
      pending = pending-drop s fd io inv h;
      posted = refl;
    }

-- The mask that the kernel holds, where an event is registered.
pub interest_some :
    (s : Side) (fd : ℕ) (io : IoManager)
    → Inv io
    → has s (io.contexts fd).events ≡ true
    → io.interest fd ≡ some (io.contexts fd).events
interest_some s fd io inv h = inv.kernel fd ∙ rw (nonzero-has s (io.contexts fd).events h) refl
  where
    nonzero-has : (s : Side) (e : Events) → has s e ≡ true → nonzero e ≡ true
    nonzero-has read_side e h = ground arith
    nonzero-has write_side e h = ground arith
