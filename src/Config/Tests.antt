-- ===== src/Config/Tests.antt =====
-- A configuration with one variable, and a file whose nodes are numbers: the root 0 is a map with
-- the keys "a" and "B".
use mathlib.Core.List.{Memᴰ}
use mathlib.Core.List.Memᴰ
use collabor_ative_schedule.Base.{
  ℕ, ◌≡◌, ◌≢◌, refl, ap, subst, ==_iff, inl, inr, true, false, List, [], ◌∷◌, none, some, arith, ok,
  fault, invalid_argument, Str, if◌then◌else◌, ◌==◌,
}
use collabor_ative_schedule.Config.{
  Conversions, Var, Config, new_config, find_name, lookup, set_value, get_value, add_listener,
  get_listener,
}
use collabor_ative_schedule.Config.Yaml.{Yaml, list_all_member, load_from_yaml}
use collabor_ative_schedule.Config.Members.{Listed, IsFinite, list_all_member-Listed}
use collabor_ative_schedule.Config.Loading.{Inv, Loads}
use collabor_ative_schedule.Config.Ordered.{InOrder, whole}
use collabor_ative_schedule.Config.Files.{load_from_yaml-Loads}
use collabor_ative_schedule.Config.Reachable.{
  Reach, here, next, looks_up, adds_listener, Reach-Inv, Reach-silent,
}

-- A value is the code of a single character.
abbrev casts : Conversions ℕ
casts = record {
  from_str = λ kind s. elim s [ [] ↦ none | c ∷ _ ↦ some c ];
  to_str = λ kind v. some (v ∷ []);
  equal = λ a b. a == b;
}

abbrev yaml : Yaml ℕ
yaml = record {
  is_map = λ n. n == 0;
  is_scalar = λ n. if n == 0 then false else true;
  scalar = λ n. n ∷ [];
  emit = λ n. 123 ∷ [];
  pairs = λ n. if n == 0 then (97, 53) ∷ (66, 54) ∷ [] else [];
}

abbrev height : ℕ → ℕ
height n = if n == 0 then 1 else 0

yaml-IsFinite : IsFinite yaml height
yaml-IsFinite n q i m =
    let root : n ≡ 0 = (==_iff n 0).0 i in
    elim (Memᴰ.cases_cons (subst (λ k. Memᴰ q (yaml.pairs k)) root m)) [
      | inl e ↦ let d : q.1 ≡ 53 = ap (λ r. r.1) e in ground (arith, d, i)
      | inr j ↦ let d : q.1 ≡ 54 = ap (λ r. r.1) (Memᴰ.eq_of_singleton j) in ground (arith, d, i)
    ]

abbrev blank : ℕ → Var ℕ
blank a = record { name = []; description = []; kind = 0; val = 0; cbs = [] }

abbrev empty : Config ℕ
empty = new_config blank

empty-Inv : Inv empty
empty-Inv = record {
  named = λ n a e. absurd cc;
  valid = λ n a e. absurd cc;
  quiet = λ n a e. absurd cc;
}

-- The variable "a", at 7.
abbrev one : Config ℕ
one = record {
  vars = λ b.
      if b == 7
      then record { name = 97 ∷ []; description = []; kind = 1; val = 48; cbs = [] }
      else blank b;
  datas = (97 ∷ [], 7) ∷ [];
  fun_ids = λ k. 0;
}

registers_one : lookup 1 (97 ∷ []) 48 [] 7 empty ≡ ok (some 7, one)
unfolding lookup
registers_one = refl

rejects_9 : lookup 1 (57 ∷ []) 48 [] 7 empty ≡ fault invalid_argument
unfolding lookup
rejects_9 = refl

-- The key "B" is passed over.
lists_a : list_all_member yaml 2 [] 0 ≡ some (([], 0) ∷ (97 ∷ [], 53) ∷ [])
unfolding list_all_member
lists_a = refl

unfound : (n : Str) → find_name n empty.datas ≢ some 7
unfound n e = cc

one-Reach : Reach casts yaml blank one
unfolding lookup
one-Reach = next here (looks_up 1 (97 ∷ []) 48 [] 7 unfound (some 7) refl)

listening : Reach casts yaml blank (add_listener 7 3 one).1
listening = next one-Reach (adds_listener 7 3)

abbrev listened : Config ℕ
listened = (add_listener 7 3 one).1

-- The variable has been given a listener.
Reach-silent_example :
    (get_listener 1 (listened.vars 7) ≡ none)
    × ((set_value casts 50 (listened.vars 7)).0 ≡ [])
    × (get_value (set_value casts 50 (listened.vars 7)).1
        ≡ (if casts.equal 50 (listened.vars 7).val then (listened.vars 7).val else 50))
unfolding add_listener
Reach-silent_example = Reach-silent casts yaml listening (97 ∷ []) 7 refl 1 50

one-Inv : Inv one
one-Inv = Reach-Inv casts yaml one-Reach

list_all_member-Listed_example :
    (out : List (Str × ℕ)) × (list_all_member yaml 2 [] 0 ≡ some out)
    × ((x : Str × ℕ) → (Memᴰ x out → Listed yaml [] 0 x) × (Listed yaml [] 0 x → Memᴰ x out))
list_all_member-Listed_example =
    list_all_member-Listed yaml height yaml-IsFinite 2 [] 0 (omega arith)

load_from_yaml-Loads_example :
    (pairs : List (Str × ℕ)) × (c' : Config ℕ) × (load_from_yaml yaml casts 2 0 one ≡ some ([], c'))
    × Loads casts yaml pairs one c'
    × ((x : Str × ℕ) → (Memᴰ x pairs → Listed yaml [] 0 x) × (Listed yaml [] 0 x → Memᴰ x pairs))
    × InOrder yaml (whole [] 0) pairs
load_from_yaml-Loads_example =
    load_from_yaml-Loads yaml casts height yaml-IsFinite 2 0 one (omega arith) one-Inv
