-- ===== src/Timer/Waiting.antt =====
-- `getNextTimer`.
use collabor_ative_schedule.Base.{
  ℕ, ◌+◌, ◌-◌, ◌≤◌, ◌<◌, ◌≡◌, refl, ◌⊎◌, Bool, List, [], ◌∷◌, if◌then◌else◌, arith, All, leb, max64,
  ltb,
}
use collabor_ative_schedule.OrderedSet.{IsSorted}
use collabor_ative_schedule.OrderedSet.Laws.{All-map}
use collabor_ative_schedule.Timer.Invariant.{Inv}
use collabor_ative_schedule.Timer.Order.{Agree}
use collabor_ative_schedule.Timer.{Timer, TimerManager, get_next_timer}

-- The specification of the wait: `w` is the time to the earliest deadline.
abbrev pub IsWait : ℕ → ℕ → (ℕ → Timer) → List ℕ → Type 0
IsWait w now h [] = w ≡ max64
IsWait w now h (t ∷ ts) =
    All (λ a. (w ≡ 0) ⊎ (now + w ≤ (h a).next)) (t ∷ ts)
    × ((w ≡ 0) ⊎ ((h t).next ≡ now + w))
    × (now < (h t).next → 0 < w)

IsWait-front :
    (w now t : ℕ) (ts : List ℕ) (h : ℕ → Timer)
    → w ≡ (if leb (h t).next now then 0 else (h t).next - now)
    → IsSorted ltb (t ∷ ts)
    → Agree h (t ∷ ts)
    → IsWait w now h (t ∷ ts)
IsWait-front w now t ts h e s agree = (
  (
    ground arith,
    All-map _ _ ts (λ a m b. ground (arith, agree a t (ground arith) (ground arith), b)) s.0,
  ),
  ground arith,
  λ l. ground arith,
)

get_next_timer-IsWait_at :
    (now : ℕ) (h : ℕ → Timer) (xs : List ℕ) (tickled : Bool) (previous : ℕ)
    → IsSorted ltb xs
    → Agree h xs
    → IsWait
        (get_next_timer now
          (record { heap = h; timers = xs; tickled = tickled; previous_time = previous })).0
        now
        h
        xs
unfolding get_next_timer
get_next_timer-IsWait_at now h [] tickled previous s agree = refl
get_next_timer-IsWait_at now h (t ∷ ts) tickled previous s agree =
    IsWait-front _ now t ts h refl s agree

-- In a manager that satisfies the invariant, the agreement of deadlines and addresses included,
-- `getNextTimer` returns `~0ull` without a timer; and with timers it returns a wait that ends at
-- the earliest deadline: no timer is due before it, the front timer is due at its end, and the wait
-- is not 0 while the front deadline lies ahead.
pub get_next_timer-IsWait :
    (now : ℕ) (m : TimerManager) → Inv m → IsWait (get_next_timer now m).0 now m.heap m.timers
get_next_timer-IsWait now m inv =
    get_next_timer-IsWait_at now m.heap m.timers m.tickled m.previous_time inv.sorted inv.agree
