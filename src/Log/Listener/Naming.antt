-- ===== src/Log/Listener/Naming.antt =====
-- Sets of definitions by the names in them.
use collabor_ative_schedule.Base.{
  ◌≡◌, refl, sym, ◌∙◌, Bool, false, not, ◌&&◌, ◌||◌, List, [], ◌∷◌, Str, same_str, less_str,
  same_str-eq, same_str_iff, arith, Bool-cases, inl, inr, All,
}
use collabor_ative_schedule.Scheduler.{is_some}
use collabor_ative_schedule.Log.Defines.{LogDefine, less_define}
use collabor_ative_schedule.Config.Casts.RoundTrip.{IsAscending, Before}
use collabor_ative_schedule.Log.Listener.{find}

abbrev pub named_in : List LogDefine → Str → Bool
named_in [] n = false
named_in (d ∷ ds) n = same_str n d.name || named_in ds n

-- No name stands twice in the list.
abbrev pub Apart : List LogDefine → Type 0
Apart [] = Unit
Apart (d ∷ ds) = (named_in ds d.name ≡ false) × Apart ds

neither_before : (a b : Str) → (not (less_str a b) && not (less_str b a)) ≡ same_str a b
neither_before [] [] = refl
neither_before [] (b ∷ t) = refl
neither_before (a ∷ s) [] = refl
neither_before (a ∷ s) (b ∷ t) = let h = neither_before s t in ground (arith, h)

pub find-named_in : (d : LogDefine) (ds : List LogDefine) → is_some (find d ds) ≡ named_in ds d.name
unfolding find less_define
find-named_in d [] = refl
find-named_in d (e ∷ ds) =
    let h = neither_before d.name e.name in
    let k = find-named_in d ds in
    elim (Bool-cases (same_str d.name e.name)) [
      | inl x ↦ let y = h ∙ x in rw (find, y, x) refl
      | inr x ↦ let y = h ∙ x in rw (find, y, x) k
    ]

pub same_str-sym : (a b : Str) → same_str a b ≡ false → same_str b a ≡ false
same_str-sym a b e = elim (Bool-cases (same_str b a)) as (λ _. same_str b a ≡ false) [
  | inl x ↦ let y = (same_str_iff a b).1 (sym (same_str-eq b a x)) in cc
  | inr x ↦ x
]

Before-named_in :
    (d : LogDefine) (ds : List LogDefine)
    → All (Before less_define d) ds
    → named_in ds d.name ≡ false
unfolding less_define
Before-named_in d [] h = refl
Before-named_in d (e ∷ ds) h =
    let less = h.0.0 in
    let x : same_str d.name e.name ≡ false = sym (neither_before d.name e.name) ∙ rw less refl in
    let rest = Before-named_in d ds h.1 in rw (x, rest) refl

pub IsAscending-Apart : (ds : List LogDefine) → IsAscending less_define ds → Apart ds
IsAscending-Apart [] h = tt
IsAscending-Apart (d ∷ ds) h = (Before-named_in d ds h.0, IsAscending-Apart ds h.1)

pub differ_each :
    (n : Str) (ds : List LogDefine)
    → named_in ds n ≡ false
    → All (λ (d : LogDefine). same_str d.name n ≡ false) ds
differ_each n [] h = tt
differ_each n (d ∷ ds) h =
    let x : same_str n d.name ≡ false = ground (arith, h) in
    (same_str-sym n d.name x, differ_each n ds (ground (arith, h)))
