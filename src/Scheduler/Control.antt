-- ===== src/Scheduler/Control.antt =====
-- `start`.
use collabor_ative_schedule.Base.{
  ℕ, ◌≡◌, refl, ◌⊎◌, inl, inr, true, false, List, ◌++◌, ok, fault, assertion, arith, Bool-cases,
}
use collabor_ative_schedule.Scheduler.{Scheduler, start, is_empty}

-- `start` on a scheduler that runs changes nothing; on one that is stopped it fails its assertion
-- exactly if threads are left, and otherwise has the new threads and runs, so that a
-- second `start` changes nothing.
pub start_cases :
    (ids ids' : List ℕ) (s : Scheduler)
    → ((s.stopping ≡ false) × (start ids s ≡ ok s))
      ⊎ ((s.stopping ≡ true) × (is_empty s.threads ≡ false) × (start ids s ≡ fault assertion))
      ⊎ (s' : Scheduler) × (s.stopping ≡ true)
        × (start ids s ≡ ok s')
        × (s'.threads ≡ ids)
        × (s'.thread_ids ≡ s.thread_ids ++ ids)
        × (s'.fibers ≡ s.fibers)
        × (start ids' s' ≡ ok s')
unfolding start
start_cases ids ids' s = elim (Bool-cases s.stopping) [
  | inr e ↦ inl (e, ground arith)
  | inl e ↦ elim (Bool-cases (is_empty s.threads)) [
    | inr f ↦ inr (inl (e, f, ground arith))
    | inl f ↦ inr (
        inr (
          record s { stopping = false; threads = ids; thread_ids = s.thread_ids ++ ids },
          e,
          ground arith,
          refl,
          refl,
          refl,
          refl,
        ))
  ]
]
