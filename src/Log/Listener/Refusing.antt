-- ===== src/Log/Listener/Refusing.antt =====
-- Definitions that the listener cannot apply.
use collabor_ative_schedule.Base.{
  ◌≡◌, refl, sym, ap, ◌∙◌, Bool, true, false, not, ◌&&◌, List, [], ◌∷◌, Option, none, some, fault,
  null_pointer, ℕ, arith, Bool-cases, Option-cases, inl, inr, if◌then◌else◌, ◌==◌,
}
use collabor_ative_schedule.Log.Defines.{AppenderDefine, LogDefine, same_define}
use collabor_ative_schedule.Log.Logger.{Logs, get_logger}
use collabor_ative_schedule.Log.Listener.{
  find, make_defined, add_defined, add_each_defined, configure, change_one,
}
use collabor_ative_schedule.Log.Listener.Adding.{all_usable, usable, one_more, add_defined_lem}

-- The definition is in the old set as it is.
abbrev pub unchanged : List LogDefine → LogDefine → Bool
unchanged old d = elim (find d old) [ none ↦ false | some it ↦ same_define d it ]

-- The definition is new or changed, and has appenders of types that there are.
abbrev pub good : List LogDefine → LogDefine → Bool
good old d = not (unchanged old d) && all_usable d.appenders

abbrev pub all_good : List LogDefine → List LogDefine → Bool
all_good old [] = true
all_good old (d ∷ ds) = good old d && all_good old ds

pub change_one_lem :
    (old : List LogDefine) (d : LogDefine) (s : Logs)
    → unchanged old d ≡ false
    → change_one old d s ≡ configure d (get_logger d.name s)
unfolding change_one
change_one_lem old d s e = elim (Option-cases (find d old)) [
  | inl x ↦ rw (change_one, x) refl
  | inr (it, x) ↦
      let y : same_define d it ≡ false =
        ap (λ (o : Option LogDefine). elim o [ none ↦ false | some i ↦ same_define d i ]) (sym x)
        ∙ e in
      rw (change_one, x, y) refl
]

change_one_null :
    (old : List LogDefine) (d : LogDefine) (s : Logs)
    → unchanged old d ≡ true
    → change_one old d s ≡ fault null_pointer
unfolding change_one
change_one_null old d s e = elim (Option-cases (find d old)) [
  | inl x ↦
      let y : false ≡ true =
        ap (λ (o : Option LogDefine). elim o [ none ↦ false | some i ↦ same_define d i ]) (sym x)
        ∙ e in
      cc
  | inr (it, x) ↦
      let y : same_define d it ≡ true =
        ap (λ (o : Option LogDefine). elim o [ none ↦ false | some i ↦ same_define d i ]) (sym x)
        ∙ e in
      rw (change_one, x, y) refl
]

add_each_null :
    (l : ℕ) (xs : List AppenderDefine) (s : Logs)
    → all_usable xs ≡ false
    → add_each_defined l xs s ≡ fault null_pointer
unfolding add_each_defined add_defined make_defined
add_each_null l [] s e = cc
add_each_null l (a ∷ xs) s e = elim (Bool-cases (usable a)) [
  | inl x ↦
      let file = if a.type == 1 then some a.file else none in
      rw (add_each_defined, add_defined_lem l a s x)
        (add_each_null l xs (one_more l file a.level a.formatter s) (ground (arith, e, x)))
  | inr x ↦
      let p : (a.type == 1) ≡ false = ground (arith, x) in
      let q : (a.type == 2) ≡ false = ground (arith, x) in
      rw (add_each_defined, add_defined, make_defined, p, q) refl
]

pub change_one_fault :
    (old : List LogDefine) (d : LogDefine) (s : Logs)
    → good old d ≡ false
    → change_one old d s ≡ fault null_pointer
unfolding configure
change_one_fault old d s e = elim (Bool-cases (unchanged old d)) [
  | inl x ↦ change_one_null old d s x
  | inr x ↦ change_one_lem old d s x ∙ add_each_null _ d.appenders _ (ground (arith, e, x))
]
