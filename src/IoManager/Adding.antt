-- ===== src/IoManager/Adding.antt =====
-- `addEvent` on every branch.
use collabor_ative_schedule.Base.{
  ℕ, ◌+◌, ◌^◌, ◌*◌, ◌/◌, ◌<◌, ◌≡◌, refl, sym, ap, ◌∙◌, ◌⊎◌, inl, inr, Bool, true, false, ◌||◌,
  subst, none, some, if◌then◌else◌, arith, Bool-cases, Outcome, ok, fault, assertion, ◌>>=◌, add64,
  ◌==◌,
}
use collabor_ative_schedule.Callback.{Callback, empty, is_set}
use collabor_ative_schedule.Fiber.{State, is_exec, put}
use collabor_ative_schedule.IoManager.{
  Events, union, nonzero, EventContext, no_context, FdContext, IoManager, Side, read_side,
  write_side, at_side, set_side, ctl_add, ctl_mod, epoll_ctl, ensure_context, register, add_event,
}
use collabor_ative_schedule.IoManager.Invariant.{
  Inv, Sides, IsArmed, watched, weight, Changes, Changes-Inv, pending-lt,
}
use collabor_ative_schedule.IoManager.Growth.{ensure_context-Inv}
use collabor_ative_schedule.IoManager.Trigger.{event_of, has, meets-event_of, get_context-event_of}
use collabor_ative_schedule.IoManager.Removing.{put_self, put_other}

-- What waits for an event: the function, or without one the current fiber.
abbrev pub waiter : Callback → ℕ → ℕ → EventContext
waiter cb k cur = record {
  scheduler = some k;
  fiber = if is_set cb then none else some cur;
  cb = if is_set cb then cb else empty;
}

abbrev joined : Side → EventContext → FdContext → FdContext
joined s e c = record (set_side s e c) { events = union c.events (event_of s) }

-- The manager after the kernel has taken the event.
abbrev asked : Side → ℕ → IoManager → IoManager
asked s fd io = record io {
  interest = put io.interest fd (some (union (io.contexts fd).events (event_of s)));
}

unfoldable added : Side → EventContext → ℕ → IoManager → IoManager
added s e fd io = record (asked s fd io) {
  contexts = put io.contexts fd (joined s e (io.contexts fd));
  pending = add64 io.pending 1;
}

-- What the registration of an event for `e` brings about.
pub record Adds (s : Side) (e : EventContext) (fd : ℕ) (io io' : IoManager) : Type 0 where
  pub valid : Inv io'
  pub waits : at_side s (io'.contexts fd) ≡ e
  pub events : (io'.contexts fd).events ≡ union (io.contexts fd).events (event_of s)
  pub others : (i : ℕ) → (i == fd) ≡ false → io'.contexts i ≡ io.contexts i
  pub pending : io'.pending ≡ io.pending + 1
  pub posted : io'.posted ≡ io.posted

free : (s : Side) (c : FdContext) → Sides c → has s c.events ≡ false → at_side s c ≡ no_context
free read_side c a h = a.read.off h
free write_side c a h = a.write.off h

register_ok :
    (s : Side) (fd : ℕ) (cb : Callback) (k cur : ℕ) (state : State) (io : IoManager)
    → at_side s (io.contexts fd) ≡ no_context
    → (is_set cb || is_exec state) ≡ true
    → register fd (event_of s) cb (some k) cur state (asked s fd io)
      ≡ ok (added s (waiter cb k cur) fd io)
unfolding register added
register_ok s fd cb k cur state io e h = rw (get_context-event_of s, e, h) refl

-- The kernel accepts the operation that `addEvent` chooses.
epoll_ctl_add :
    (fd : ℕ) (old mask : Events) (io : IoManager)
    → io.interest fd ≡ watched old
    → epoll_ctl false (if nonzero old then ctl_mod else ctl_add) fd mask io
      ≡ some (record io { interest = put io.interest fd (some mask) })
epoll_ctl_add fd old mask io e = elim (Bool-cases (nonzero old)) [
  | inl f ↦ rw (f, e, f) refl
  | inr f ↦ rw (f, e, f) refl
]

joined-Sides :
    (s : Side) (e : EventContext) (c : FdContext) → IsArmed e → Sides c → Sides (joined s e c)
joined-Sides read_side e c armed a = record {
  read = record { off = λ h. absurd (ground (arith, h)); on = λ _. armed };
  write = record { off = λ h. a.write.off (ground arith); on = λ h. a.write.on (ground arith) };
}
joined-Sides write_side e c armed a = record {
  read = record { off = λ h. a.read.off (ground arith); on = λ h. a.read.on (ground arith) };
  write = record { off = λ h. absurd (ground (arith, h)); on = λ _. armed };
}

joined-weight :
    (s : Side) (e : EventContext) (c : FdContext)
    → has s c.events ≡ false
    → weight (joined s e c) ≡ weight c + 1
joined-weight read_side e c h = ground arith
joined-weight write_side e c h = ground arith

joined-fd : (s : Side) (e : EventContext) (c : FdContext) → (joined s e c).fd ≡ c.fd
joined-fd read_side e c = refl
joined-fd write_side e c = refl

joined-at_side : (s : Side) (e : EventContext) (c : FdContext) → at_side s (joined s e c) ≡ e
joined-at_side read_side e c = refl
joined-at_side write_side e c = refl

union-nonzero : (s : Side) (e : Events) → nonzero (union e (event_of s)) ≡ true
union-nonzero read_side e = ground arith
union-nonzero write_side e = ground arith

waiter-IsArmed : (cb : Callback) (k cur : ℕ) → IsArmed (waiter cb k cur)
waiter-IsArmed cb k cur = elim (Bool-cases (is_set cb)) [
  | inl e ↦ ((k, refl), inl (rw (e, e) refl, rw e refl))
  | inr e ↦ ((k, refl), inr (rw e refl, rw e refl))
]

pending-add : (io : IoManager) → Inv io → add64 io.pending 1 ≡ io.pending + 1
pending-add io inv = omega (arith, pending-lt io inv)

added-Changes :
    (s : Side) (e : EventContext) (fd : ℕ) (io : IoManager)
    → IsArmed e
    → Inv io
    → fd < io.size
    → has s (io.contexts fd).events ≡ false
    → Changes fd io (added s e fd io)
unfolding added
added-Changes s e fd io armed inv inside h =
    let c = io.contexts fd in
    let at : put io.contexts fd (joined s e c) fd ≡ joined s e c = put_self io.contexts fd _ in
    record {
      inside = inside;
      sides = subst Sides (sym at) (joined-Sides s e c armed (inv.sides fd));
      kernel =
          put_self io.interest fd _
          ∙ sym (ap (λ x. watched x.events) at ∙ rw (union-nonzero s c.events) refl);
      named = ap (λ x. x.fd) at ∙ joined-fd s e c ∙ inv.named fd;
      others = λ i n. put_other io.contexts fd i _ n;
      others_kernel = λ i n. put_other io.interest fd i _ n;
      counted = omega (arith, ap weight at, joined-weight s e c h, pending-add io inv);
      size = refl;
    }

added-Adds :
    (s : Side) (e : EventContext) (fd : ℕ) (io : IoManager)
    → IsArmed e
    → Inv io
    → fd < io.size
    → has s (io.contexts fd).events ≡ false
    → Adds s e fd io (added s e fd io)
unfolding added
added-Adds s e fd io armed inv inside h =
    let c = io.contexts fd in
    let at : put io.contexts fd (joined s e c) fd ≡ joined s e c = put_self io.contexts fd _ in
    record {
      valid = Changes-Inv fd io (added s e fd io) (added-Changes s e fd io armed inv inside h) inv;
      waits = ap (at_side s) at ∙ joined-at_side s e c;
      events = ap (λ x. x.events) at;
      others = λ i n. put_other io.contexts fd i _ n;
      pending = pending-add io inv;
      posted = refl;
    }

-- `addEvent` of READ or of WRITE, for a descriptor of which 1.5 times is an `int`, in a manager
-- that satisfies the invariant, called under a scheduler `k` with a function or else from a fiber
-- in EXEC: when the event is registered already the assertion fails; when the kernel refuses it
-- returns false and has at most grown the vector; otherwise it returns true, the function (without
-- one, the current fiber) waits for the event with the scheduler `k`, the mask gains the event, the
-- pending counter goes up by one, nothing is scheduled, no other context changes, and the invariant
-- holds again.
pub add_event_cases :
    (s : Side) (fails : Bool) (fd : ℕ) (cb : Callback) (k cur : ℕ) (state : State) (io : IoManager)
    → fd * 3 / 2 < 2 ^ 31
    → (is_set cb || is_exec state) ≡ true
    → Inv io
    → let r = add_event fails fd (event_of s) cb (some k) cur state io in
      let io₀ = ensure_context fd io in
      (has s (io.contexts fd).events ≡ true) × (r ≡ fault assertion)
      ⊎ (has s (io.contexts fd).events ≡ false) × (fails ≡ true) × (r ≡ ok (false, io₀)) × Inv io₀
      ⊎ (io' : IoManager) × (has s (io.contexts fd).events ≡ false)
        × (fails ≡ false)
        × (r ≡ ok (true, io'))
        × Adds s (waiter cb k cur) fd io₀ io'
unfolding add_event
add_event_cases s fails fd cb k cur state io l may inv =
    let grown = ensure_context-Inv fd io l inv in
    let io₀ = ensure_context fd io in
    let same : has s (io₀.contexts fd).events ≡ has s (io.contexts fd).events =
      ap (λ c. has s c.events) (grown.2 fd) in
    elim (Bool-cases (has s (io.contexts fd).events)) [
      | inl e ↦ inl (e, rw (meets-event_of s (io₀.contexts fd).events, same, e) refl)
      | inr e ↦
          let absent = same ∙ e in
          elim (Bool-cases fails) [
            | inl f ↦ inr (
                inl (e, f, rw (meets-event_of s (io₀.contexts fd).events, absent, f) refl, grown.0))
            | inr f ↦ inr (
                inr (
                  added s (waiter cb k cur) fd io₀,
                  e,
                  f,
                  rw (meets-event_of s (io₀.contexts fd).events, absent, f)
                      (ap
                          (λ m. elim m as (λ _. Outcome (Bool × IoManager)) [
                            | none ↦ ok (false, io₀)
                            | some io₁ ↦
                                (register fd (event_of s) cb (some k) cur state io₁ >>= λ io₂.
                                ok (true, io₂))
                          ])
                          (epoll_ctl_add fd (io₀.contexts fd).events
                            (union (io₀.contexts fd).events (event_of s)) io₀ ((grown.0).kernel fd))
                        ∙ ap (λ m. m >>= λ io₂. ok (true, io₂))
                            (register_ok s fd cb k cur state io₀
                              (free s (io₀.contexts fd) ((grown.0).sides fd) absent) may)),
                  added-Adds s (waiter cb k cur) fd io₀ (waiter-IsArmed cb k cur) grown.0 grown.1
                      absent,
                ))
          ]
    ]
