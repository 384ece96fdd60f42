-- ===== src/Threads/Ending.antt =====
-- The end of a thread's object in hps_sf/thread.cpp.
use collabor_ative_schedule.Base.{
  ℕ, ◌+◌, ◌≡◌, refl, ap, ◌∙◌, Bool, true, false, List, [], ◌∷◌, Option, none, some, if◌then◌else◌,
  Outcome, ok, fault, logic_error, arith,
}
use collabor_ative_schedule.Threads.{Thread, join, destroy}

-- The object after calls of `join`, of which each says whether pthread_join would fail, and how
-- many times pthread_join has joined the thread. A call that throws leaves the object as it is.
abbrev pub after_join : Outcome (Bool × Thread) → Thread → ℕ × Thread
after_join (fault e) t = (0, t)
after_join (ok r) t = (if r.0 then 1 else 0, r.1)

unfoldable pub joins : List Bool → Thread → ℕ × Thread
joins [] t = (0, t)
joins (fails ∷ rest) t =
    let here = after_join (join fails t) t in
    let later = joins rest here.1 in (here.0 + later.0, later.1)

-- How many times pthread_join has joined the thread or pthread_detach has detached it, at the end.
abbrev pub releases : List Bool → Thread → ℕ
releases calls t = let r = joins calls t in r.0 + (if destroy r.1 then 1 else 0)

abbrev total : List Bool → ℕ × Thread → ℕ
total rest p = let later = joins rest p.1 in (p.0 + later.0) + (if destroy later.1 then 1 else 0)

-- Without a handle nothing is released any more.
released : (calls : List Bool) (t : Thread) → t.handle ≡ none → releases calls t ≡ 0
unfolding joins join destroy
released [] t e = rw e refl
released (fails ∷ rest) t e =
    let here : join fails t ≡ ok (false, t) =
      ap
        (λ (o : Option ℕ). elim o [
          | none ↦ ok (false, t)
          | some h ↦ if fails then fault logic_error else ok (true, record t { handle = none })
        ])
        e in
    let later = released rest t e in
    ap (λ o. total rest (after_join o t)) here ∙ omega (arith, later)

-- However often `join` is called, and whether or not pthread_join fails, a thread that was created
-- is joined or detached exactly once until its object is destroyed.
pub releases_once :
    (calls : List Bool) (t : Thread) (h : ℕ) → t.handle ≡ some h → releases calls t ≡ 1
unfolding joins join destroy
releases_once [] t h e = rw (destroy, e) refl
releases_once (true ∷ rest) t h e =
    let here : join true t ≡ fault logic_error = rw (join, e) refl in
    let later = releases_once rest t h e in
    ap (λ o. total rest (after_join o t)) here ∙ omega (arith, later)
releases_once (false ∷ rest) t h e =
    let u = record t { handle = none } in
    let here : join false t ≡ ok (true, u) = rw (join, e) refl in
    let none_left = released rest u refl in
    ap (λ o. total rest (after_join o t)) here ∙ omega (arith, none_left)
