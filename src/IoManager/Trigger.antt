-- ===== src/IoManager/Trigger.antt =====
-- One event of a context: what triggering it and resetting it come to.
use collabor_ative_schedule.Base.{
  ℕ, ◌+◌, ◌≡◌, refl, ap, inl, inr, Bool, true, false, [], ◌∷◌, ◌++◌, none, some, if◌then◌else◌,
  arith, Bool-cases, ok, sub64,
}
use collabor_ative_schedule.Fiber.{put}
use collabor_ative_schedule.IoManager.{
  Events, read_event, write_event, meets, minus, nonzero, EventContext, no_context, FdContext,
  IoManager, Side, read_side, write_side, at_side, set_side, work_of, swapped_out, trigger_event,
  triggered, get_context, ctl_mod, ctl_del, epoll_ctl,
}
use collabor_ative_schedule.IoManager.Removal.{trigger_one, unregister}
use collabor_ative_schedule.IoManager.Invariant.{Sides, IsArmed, watched, weight}

-- The event of a side, and its bit in a mask.
abbrev pub event_of : Side → Events
event_of read_side = read_event
event_of write_side = write_event

abbrev pub has : Side → Events → Bool
has read_side e = e.reads
has write_side e = e.writes

pub meets-event_of : (s : Side) (e : Events) → meets e (event_of s) ≡ has s e
meets-event_of read_side e = ground arith
meets-event_of write_side e = ground arith

pub get_context-event_of : (s : Side) → get_context (event_of s) ≡ ok s
unfolding get_context
get_context-event_of read_side = refl
get_context-event_of write_side = refl

-- The context of `fd` without the event of a side.
abbrev pub cleared : Side → FdContext → FdContext
cleared s c = record (set_side s no_context c) { events = minus c.events (event_of s) }

abbrev pub without : Side → ℕ → IoManager → IoManager
without s fd io = record io {
  contexts = put io.contexts fd (cleared s (io.contexts fd));
  pending = sub64 io.pending 1;
}

abbrev pub post : ℕ → EventContext → IoManager → IoManager
post k e io = record io { posted = io.posted ++ (k, work_of e) ∷ [] }

emptied : (e : EventContext) → IsArmed e → record (swapped_out e) { scheduler = none } ≡ no_context
emptied e a = ground arith

pub unregister_ok :
    (s : Side) (fd : ℕ) (io : IoManager) → unregister fd (event_of s) io ≡ ok (without s fd io)
unfolding unregister
unregister_ok s fd io = rw (get_context-event_of s) refl

triggered_lem :
    (s : Side) (fd k : ℕ) (io : IoManager)
    → IsArmed (at_side s (io.contexts fd))
    → triggered s k (event_of s) fd io ≡ record (post k (at_side s (io.contexts fd)) io) {
      contexts = put io.contexts fd (cleared s (io.contexts fd));
    }
unfolding triggered
triggered_lem s fd k io a =
    ap
      (λ x. record (post k (at_side s (io.contexts fd)) io) {
        contexts = put io.contexts fd (record (set_side s x (io.contexts fd)) {
          events = minus (io.contexts fd).events (event_of s);
        });
      })
      (emptied (at_side s (io.contexts fd)) a)

trigger_event_ok :
    (s : Side) (fd k : ℕ) (io : IoManager)
    → has s (io.contexts fd).events ≡ true
    → (at_side s (io.contexts fd)).scheduler ≡ some k
    → trigger_event fd (event_of s) io ≡ ok (triggered s k (event_of s) fd io)
unfolding trigger_event
trigger_event_ok s fd k io h e =
    rw (meets-event_of s (io.contexts fd).events, h, get_context-event_of s, e) refl

pub trigger_one_ok :
    (s : Side) (fd k : ℕ) (io : IoManager)
    → has s (io.contexts fd).events ≡ true
    → IsArmed (at_side s (io.contexts fd))
    → (at_side s (io.contexts fd)).scheduler ≡ some k
    → trigger_one fd (event_of s) io ≡ ok (post k (at_side s (io.contexts fd)) (without s fd io))
unfolding trigger_one
trigger_one_ok s fd k io h a e =
    rw (trigger_event_ok s fd k io h e, trigger_one)
      (ap {A = IoManager} (λ x. ok (record x { pending = sub64 x.pending 1 }))
        (triggered_lem s fd k io a))

-- The kernel accepts the operation that the code chooses for what is left of the mask.
pub epoll_ctl_ok :
    (fd : ℕ) (old left : Events) (io : IoManager)
    → io.interest fd ≡ some old
    → epoll_ctl false (if nonzero left then ctl_mod else ctl_del) fd left io
      ≡ some (record io { interest = put io.interest fd (watched left) })
epoll_ctl_ok fd old left io e = elim (Bool-cases (nonzero left)) [
  | inl f ↦ rw (f, e) refl
  | inr f ↦ rw (f, e) refl
]

pub cleared-Sides : (s : Side) (c : FdContext) → Sides c → Sides (cleared s c)
cleared-Sides read_side c a = record {
  read = record { off = λ _. refl; on = λ e. ground arith };
  write = record { off = λ e. a.write.off (ground arith); on = λ e. a.write.on (ground arith) };
}
cleared-Sides write_side c a = record {
  read = record { off = λ e. a.read.off (ground arith); on = λ e. a.read.on (ground arith) };
  write = record { off = λ _. refl; on = λ e. ground arith };
}

pub cleared-weight :
    (s : Side) (c : FdContext) → has s c.events ≡ true → weight (cleared s c) + 1 ≡ weight c
cleared-weight read_side c h = ground arith
cleared-weight write_side c h = ground arith
