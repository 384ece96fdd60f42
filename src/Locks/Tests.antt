-- ===== src/Locks/Tests.antt =====
-- A scoped lock that is released early and taken again, and a thread that holds the atomic lock.
use collabor_ative_schedule.Base.{
  ◌≡◌, ◌≢◌, ◌↔◌, refl, true, Option, none, some, if◌then◌else◌, [], ◌∷◌, ℕ,
}
use collabor_ative_schedule.Locks.{
  Op, ScopedLock, rdlock, unlock, new_read_lock, lock_read, unlock_scoped, destroy_scoped,
}
use collabor_ative_schedule.Fiber.{put}
use collabor_ative_schedule.Locks.Guarding
use collabor_ative_schedule.Locks.Guarding.{Reach-guards}
use collabor_ative_schedule.Locks.Owners.{owners, owners-Laws}
use collabor_ative_schedule.Locks.Scoped.{Kind, reading, locks, unlocks, life}
use collabor_ative_schedule.Locks.Spinning.{
  System, inside, spinning, initial, tested, Reach, here, next, calls_lock, tests, Reach-exclusive,
}

unlocked_early :
    (life reading (unlocks ∷ unlocks ∷ locks ∷ locks ∷ []) []).ops
    ≡ rdlock ∷ unlock ∷ rdlock ∷ unlock ∷ []
unfolding new_read_lock lock_read unlock_scoped destroy_scoped
unlocked_early = refl

-- Thread 4 calls `lock`, and its first test succeeds.
abbrev called : System
called = record initial { places = put initial.places 4 spinning }

taken-Reach : Reach (tested 4 called)
taken-Reach = next (next here (calls_lock 4 refl)) (tests 4 refl)

Reach-exclusive_example :
    let s = tested 4 called in
    (s.places 4 ≡ inside → s.places 5 ≡ inside → Path ℕ 4 5)
    × ((s.flag ≡ true) ↔ ((v : ℕ) × (s.places v ≡ inside)))
    × (((tested 4 s).places 4 ≡ inside) ↔ ((v : ℕ) → s.places v ≢ inside))
Reach-exclusive_example = Reach-exclusive taken-Reach 4 5

-- The threads 4 and 5 each make a scoped lock for reading.
abbrev reader : ScopedLock
reader = new_read_lock []

abbrev two_readers : Guarding.System owners
two_readers = record {
  guarded = (5, rdlock) ∷ (4, rdlock) ∷ [];
  scopes = put (put (λ t. none) 4 (some (reading, reader))) 5 (some (reading, reader));
}

two_readers-Reach : Guarding.Reach owners two_readers
unfolding new_read_lock
two_readers-Reach =
    Guarding.next
      (Guarding.next Guarding.here (Guarding.constructs 4 reading ((4, rdlock) ∷ []) refl refl))
      (Guarding.constructs 5 reading ((5, rdlock) ∷ (4, rdlock) ∷ []) refl refl)

Reach-guards_example :
    (Path (Option Op) (some rdlock) (if reader.locked then some rdlock else none))
    × (reader.locked ≡ true
        → reader.locked ≡ true
        → Path Kind reading reading × Path Kind reading reading)
Reach-guards_example =
    Reach-guards owners owners-Laws two_readers-Reach 4 5 reading reading reader reader refl refl
      refl
