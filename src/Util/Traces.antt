-- ===== src/Util/Traces.antt =====
-- The text of a backtrace in hps_sf/util.cpp.
use mathlib.Core.List.{append-nil, append_assoc}
use collabor_ative_schedule.Base.{
  ℕ, zero, suc, ◌+◌, ◌-◌, ◌≡◌, refl, sym, ap, ◌∙◌, List, [], ◌∷◌, ◌++◌, Option, none, some, Str,
  length, length-append, get_elem?, arith,
}
use collabor_ative_schedule.Util.{push_each, backtrace, write_each, backtrace_to_string}

-- The list without its first `n` elements.
abbrev pub without : ℕ → List Str → List Str
without zero xs = xs
without (suc n) [] = []
without (suc n) (x ∷ xs) = without n xs

-- A line for each string.
abbrev pub lines : Str → List Str → Str
lines prefix [] = []
lines prefix (s ∷ xs) = (prefix ++ s ++ 10 ∷ []) ++ lines prefix xs

write_each-lines :
    (prefix : Str) (bt : List Str) (ss : Str) → write_each prefix bt ss ≡ ss ++ lines prefix bt
unfolding write_each
write_each-lines prefix [] ss = sym (append-nil ss)
write_each-lines prefix (s ∷ bt) ss =
    write_each-lines prefix bt (ss ++ (prefix ++ s ++ 10 ∷ []))
    ∙ append_assoc ss (prefix ++ s ++ 10 ∷ []) (lines prefix bt)

get_at :
    (done : List Str) (s : Str) (rest : List Str)
    → get_elem? (done ++ s ∷ rest) (length done) ≡ some s
get_at [] s rest = refl
get_at (d ∷ done) s rest = get_at done s rest

none_left : (i : ℕ) (strings bt : List Str) → push_each 0 i strings bt ≡ bt ++ []
unfolding push_each
none_left i strings bt = sym (append-nil bt)

skip_zero : (skip : ℕ) → skip ≡ 0 + skip
skip_zero skip = omega arith

-- Behind the elements `done`, the loop takes the rest.
push_each-rest :
    (done rest bt : List Str) → push_each (length rest) (length done) (done ++ rest) bt ≡ bt ++ rest
unfolding push_each
push_each-rest done [] bt = sym (append-nil bt)
push_each-rest done (s ∷ rest) bt =
    rw (push_each, get_at done s rest)
      (ap (λ i. push_each (length rest) i (done ++ s ∷ rest) (bt ++ s ∷ []))
          (sym (length-append done (s ∷ [])))
        ∙ ap (λ xs. push_each (length rest) (length (done ++ s ∷ [])) xs (bt ++ s ∷ []))
            (sym (append_assoc done (s ∷ []) rest))
        ∙ push_each-rest (done ++ s ∷ []) rest (bt ++ s ∷ [])
        ∙ append_assoc bt (s ∷ []) rest)

push_each-without :
    (done strings : List Str) (skip : ℕ) (bt : List Str)
    → push_each (length strings - skip) (length done + skip) (done ++ strings) bt
      ≡ bt ++ without skip strings
push_each-without done strings zero bt =
    let p : length strings - 0 ≡ length strings = omega arith in
    let q : length done + 0 ≡ length done = omega arith in
    rw (p, q) (push_each-rest done strings bt)
push_each-without done [] (suc n) bt =
    let p : 0 - suc n ≡ 0 = omega arith in
    ap (λ k. push_each k (length done + suc n) (done ++ []) bt) p
    ∙ none_left (length done + suc n) (done ++ []) bt
push_each-without done (s ∷ strings) (suc n) bt =
    let p : suc (length strings) - suc n ≡ length strings - n = omega arith in
    let q : length done + suc n ≡ length (done ++ s ∷ []) + n =
      omega (arith, length-append done (s ∷ [])) in
    ap (λ k. push_each k (length done + suc n) (done ++ s ∷ strings) bt) p
    ∙ ap (λ k. push_each (length strings - n) k (done ++ s ∷ strings) bt) q
    ∙ ap (λ xs. push_each (length strings - n) (length (done ++ s ∷ []) + n) xs bt)
        (sym (append_assoc done (s ∷ []) strings))
    ∙ push_each-without (done ++ s ∷ []) strings n bt

-- The text has a line, with the prefix before it, for each of the strings but the first `skip`, in
-- their order; it is empty when `skip` is past their end, and when there are none.
pub backtrace_to_string-lines :
    (strings : Option (List Str)) (skip : ℕ) (prefix : Str)
    → backtrace_to_string strings skip prefix
      ≡ elim strings [ none ↦ [] | some xs ↦ lines prefix (without skip xs) ]
unfolding backtrace_to_string backtrace
backtrace_to_string-lines none skip prefix = write_each-lines prefix [] []
backtrace_to_string-lines (some xs) skip prefix =
    write_each-lines prefix (push_each (length xs - skip) skip xs []) []
    ∙ ap (λ k. lines prefix (push_each (length xs - skip) k xs [])) (skip_zero skip)
    ∙ ap (lines prefix) (push_each-without [] xs skip [])
