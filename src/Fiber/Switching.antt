-- ===== src/Fiber/Switching.antt =====
-- Control goes from the scheduler's fiber into a fiber and back, and every fiber's context keeps
-- that fiber's own code.
use collabor_ative_schedule.Base.{
  ℕ, ◌≡◌, refl, ◌⊎◌, inl, inr, true, false, some, ◌==◌, arith, Outcome, ok, fault, assertion,
  Bool-cases, ==_iff,
}
use collabor_ative_schedule.Callback.{empty}
use collabor_ative_schedule.Fiber.{
  hold, exec, ready, term, except, returned, threw, Fiber, World, is_exec, put, Ending, swap_in,
  swap_out, yield_to_ready, yield_to_hold, main_func_end, swap_context,
}

-- The thread runs the scheduler's fiber `m`, and every other context holds its fiber's code.
pub record OnScheduler (m : ℕ) (w : World) : Type 0 where
  pub running : w.running ≡ m
  pub scheduler : w.scheduler_fiber ≡ some m
  pub contexts : (c : ℕ) → (c == m) ≡ false → w.context c ≡ c

-- The thread runs the fiber `a`, which was entered from the scheduler's fiber `m`.
pub record InFiber (m a : ℕ) (w : World) : Type 0 where
  pub running : w.running ≡ a
  pub this : w.this ≡ some a
  pub scheduler : w.scheduler_fiber ≡ some m
  pub apart : (a == m) ≡ false
  pub contexts : (c : ℕ) → (c == a) ≡ false → w.context c ≡ c

-- What `swap_in a` leaves alone.
pub record Entered (m a : ℕ) (w w' : World) : Type 0 where
  pub inside : InFiber m a w'
  pub executing : (w'.fibers a).state ≡ exec
  pub others : (c : ℕ) → (c == a) ≡ false → w'.fibers c ≡ w.fibers c

entered : ℕ → ℕ → World → World
entered m a w = record w {
  fibers = put w.fibers a (record (w.fibers a) { state = exec });
  context = put w.context m w.running;
  running = put w.context m w.running a;
  this = some a;
}

swap_in_ok :
    (m a : ℕ) (w : World)
    → w.scheduler_fiber ≡ some m
    → is_exec (w.fibers a).state ≡ false
    → swap_in a w ≡ ok (entered m a w)
unfolding swap_in entered
swap_in_ok m a w s e = rw (e, s) refl

entered-Entered :
    (m a : ℕ) (w : World) → OnScheduler m w → (a == m) ≡ false → Entered m a w (entered m a w)
unfolding entered
entered-Entered m a w on apart = record {
  inside = record {
    running = ground (arith, on.contexts a apart);
    this = refl;
    scheduler = on.scheduler;
    apart = apart;
    contexts = λ c n. ground (arith, on.contexts c, on.running, ==_iff c m);
  };
  executing = ground arith;
  others = λ c n. ground arith;
}

-- While the thread runs the scheduler's fiber, and every other fiber's context holds its own code:
-- `swapIn` on another fiber succeeds exactly if that fiber is not in state EXEC, and then the
-- thread runs that fiber, in state EXEC, every context but that fiber's holds its own fiber's code,
-- and no other fiber changes.
pub swap_in-Entered :
    (m a : ℕ) (w : World)
    → OnScheduler m w
    → (a == m) ≡ false
    → ((is_exec (w.fibers a).state ≡ true) × (swap_in a w ≡ fault assertion))
      ⊎ ((w' : World) × (swap_in a w ≡ ok w') × Entered m a w w')
unfolding swap_in
swap_in-Entered m a w on apart = elim (Bool-cases (is_exec (w.fibers a).state)) [
  | inl e ↦ inl (e, rw e refl)
  | inr e ↦ inr (entered m a w, swap_in_ok m a w on.scheduler e, entered-Entered m a w on apart)
]

-- The ways in which a fiber gives the thread back to the scheduler.
pub data Exit : Type 0 where
  to_ready to_hold : Exit
  ends : Ending → Exit

unfoldable pub leave : Exit → ℕ → World → Outcome World
leave to_ready a w = yield_to_ready a w
leave to_hold a w = yield_to_hold a w
leave (ends e) a w = main_func_end e a w

-- The fiber as each of them leaves it: in READY, in HOLD, in TERM and without its function, or in
-- EXCEPT.
abbrev pub left : Exit → Fiber → Fiber
left to_ready f = record f { state = ready }
left to_hold f = record f { state = hold }
left (ends returned) f = record f { cb = empty; state = term }
left (ends threw) f = record f { state = except }

exited : Exit → ℕ → ℕ → World → World
exited e m a w = record w {
  fibers = put w.fibers a (left e (w.fibers a));
  context = put w.context a w.running;
  running = put w.context a w.running m;
  this = some m;
}

leave_ok : (e : Exit) (m a : ℕ) (w : World) → InFiber m a w → leave e a w ≡ ok (exited e m a w)
unfolding leave exited yield_to_ready yield_to_hold main_func_end swap_out swap_context
leave_ok to_ready m a w i = rw (i.this, i.scheduler) refl
leave_ok to_hold m a w i = rw (i.this, i.scheduler) refl
leave_ok (ends returned) m a w i = rw i.scheduler refl
leave_ok (ends threw) m a w i = rw i.scheduler refl

-- When the thread runs a fiber other than the scheduler's, as its current fiber, and every other
-- fiber's context holds its own code: if the fiber yields, to READY or to HOLD, or its function
-- returns or throws, it gives the thread back to the scheduler's fiber. No assertion fails, the
-- fiber is in READY, HOLD, TERM without its function, or EXCEPT, as the way out is, every fiber's
-- context but the scheduler's holds its own code, and no other fiber changes.
pub leave-OnScheduler :
    (e : Exit) (m a : ℕ) (w : World)
    → InFiber m a w
    → (w' : World) × (leave e a w ≡ ok w')
      × OnScheduler m w'
      × (w'.this ≡ some m)
      × (w'.fibers a ≡ left e (w.fibers a))
      × ((c : ℕ) → (c == a) ≡ false → w'.fibers c ≡ w.fibers c)
unfolding exited
leave-OnScheduler e m a w i = (
  exited e m a w,
  leave_ok e m a w i,
  record {
    running = ground (arith, i.contexts m, i.apart);
    scheduler = i.scheduler;
    contexts = λ c n. ground (arith, i.contexts c, i.running, ==_iff c a);
  },
  refl,
  ground arith,
  λ c n. ground arith,
)
