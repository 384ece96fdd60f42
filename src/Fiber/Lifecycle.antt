-- ===== src/Fiber/Lifecycle.antt =====
-- The construction, the reuse and the destruction of fibers.
use collabor_ative_schedule.Base.{
  ℕ, ◌+◌, ◌^◌, ◌<◌, ◌≤◌, ◌≡◌, ◌≢◌, refl, ◌⊎◌, inl, inr, Bool, true, false, ◌&&◌, ◌==◌, arith, ok,
  fault, assertion, Bool-cases,
}
use collabor_ative_schedule.Callback.{Callback}
use collabor_ative_schedule.Fiber.{init, Fiber, World, at_rest, put, reset, new_fiber, main_func}

-- What `reset` makes of a fiber.
abbrev pub renewed : Callback → Fiber → Fiber
renewed cb f = record f { cb = cb; entry = main_func; state = init }

-- `reset` succeeds exactly on a fiber with a stack in state TERM, INIT or EXCEPT, and then the
-- fiber is INIT with the new function, its id and its stack kept, and no other fiber changes; on
-- any other fiber an assertion fails.
pub reset_exact :
    (a : ℕ) (cb : Callback) (w : World)
    → (((w.fibers a).has_stack && at_rest (w.fibers a).state) ≡ false)
        × (reset a cb w ≡ fault assertion)
      ⊎ (w' : World) × (((w.fibers a).has_stack && at_rest (w.fibers a).state) ≡ true)
        × (reset a cb w ≡ ok w')
        × (w'.fibers a ≡ renewed cb (w.fibers a))
        × ((c : ℕ) → (c == a) ≡ false → w'.fibers c ≡ w.fibers c)
unfolding reset
reset_exact a cb w = elim (Bool-cases (w.fibers a).has_stack) [
  | inr e ↦ inl (ground (arith, e), rw e refl)
  | inl e ↦ elim (Bool-cases (at_rest (w.fibers a).state)) [
    | inr f ↦ inl (ground (arith, e, f), rw (e, f) refl)
    | inl f ↦ inr (
      record w { fibers = put w.fibers a (renewed cb (w.fibers a)); context = put w.context a a },
      ground (arith, e, f),
      rw (e, f) refl,
      ground arith,
      λ c n. ground arith,
    )
  ]
]

-- No fiber has an id above the counter.
abbrev pub IdsBelow : World → Type 0
IdsBelow w = (a : ℕ) → (w.fibers a).id ≤ w.fiber_id

-- While the id counter does not wrap, and bounds every fiber's id, a new fiber's id is positive and
-- differs from every other fiber's, the counter goes up by one, and bounds every id again.
pub new_fiber_id_unique :
    (size a : ℕ) (cb : Callback) (stack_size : ℕ) (use_caller : Bool) (w : World)
    → w.fiber_id + 1 < 2 ^ 64
    → IdsBelow w
    → let w' = new_fiber size a cb stack_size use_caller w in
      (0 < (w'.fibers a).id)
      × ((c : ℕ) → (c == a) ≡ false → (w'.fibers c).id ≢ (w'.fibers a).id)
      × (w'.fiber_id ≡ w.fiber_id + 1)
      × IdsBelow w'
unfolding new_fiber
new_fiber_id_unique size a cb stack_size use_caller w room below =
    (ground arith, λ c n e. ground (arith, below c), ground arith, λ c. ground (arith, below c))
