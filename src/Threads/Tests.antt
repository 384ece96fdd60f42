-- ===== src/Threads/Tests.antt =====
-- A thread made as the source makes it, with the semaphore's default count.
use collabor_ative_schedule.Base.{
  ◌<◌, ◌≡◌, ◌↔◌, ◌⊎◌, refl, true, false, [], ◌∷◌, none, some, ok, fault, logic_error,
}
use collabor_ative_schedule.Callback.{Callback, fn, empty}
use collabor_ative_schedule.Threads.{
  default_count, unknown, new_thread, set_name, get_name, join, destroy, identify,
}
use collabor_ative_schedule.Threads.Ending.{releases, releases_once}
use collabor_ative_schedule.Threads.Starting.{
  System, called, Reach, fresh, ReturnsEarly, ReturnsEarly-iff,
}

ReturnsEarly-iff_example :
    (new_thread (some 3) (fn 5) [] default_count ≡ ok (fresh 3 (fn 5) [] default_count))
    × (ReturnsEarly 42 7 (fresh 3 (fn 5) [] default_count) ↔ (0 < default_count))
    × ((s : System)
        → Reach 42 7 (fresh 3 (fn 5) [] default_count) s
        → (((s.thread.id ≡ none) × (s.thread.cb ≡ fn 5))
            ⊎ ((s.thread.id ≡ some 42) × ((s.thread.cb ≡ fn 5) ⊎ (s.thread.cb ≡ empty))))
          × ((f : Callback) → s.stage ≡ called f → (f ≡ fn 5) × (s.thread.cb ≡ empty)))
ReturnsEarly-iff_example = ReturnsEarly-iff 42 7 3 (fn 5) [] default_count

creation_fails : new_thread none (fn 5) [] default_count ≡ fault logic_error
unfolding new_thread
creation_fails = refl

named_by_the_object : get_name (identify 42 7 (fresh 3 (fn 5) [] default_count)).1 ≡ unknown
unfolding get_name identify
named_by_the_object = refl

renamed :
    ((set_name (65 ∷ []) (λ a. fresh 3 (fn 5) [] 0) (record { this = some 7; name = [] })).0 7).name
    ≡ 65 ∷ []
unfolding set_name
renamed = refl

joined_once :
    join false (fresh 3 (fn 5) [] 0) ≡ ok (true, record (fresh 3 (fn 5) [] 0) { handle = none })
unfolding join
joined_once = refl

joined_is_not_detached : destroy (record (fresh 3 (fn 5) [] 0) { handle = none }) ≡ false
unfolding destroy
joined_is_not_detached = refl

releases_once_example : releases (true ∷ false ∷ false ∷ []) (fresh 3 (fn 5) [] 0) ≡ 1
releases_once_example = releases_once (true ∷ false ∷ false ∷ []) (fresh 3 (fn 5) [] 0) 3 refl
