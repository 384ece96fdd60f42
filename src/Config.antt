-- ===== src/Config.antt =====
-- hps_sf/config.h and hps_sf/config.cpp: the variables, their listeners, and the map of the names.
-- A variable is an object at an address, shared by the map and by the callers of `Lookup`. The
-- values of all types are one type `V`; `kind` is the type that a variable is made with, which
-- `dynamic_pointer_cast` asks for.
pub mod Tests
pub mod Yaml
pub mod Casts
pub mod Members
pub mod Ordered
pub mod Files
pub mod Reachable
pub mod Lookups
pub mod Loading
use collabor_ative_schedule.Base.{
  ℕ, Bool, true, false, not, ◌&&◌, ◌||◌, List, [], ◌∷◌, ◌++◌, map, Option, none, some, leb, ◌==◌,
  if◌then◌else◌, add64, Outcome, ok, fault, invalid_argument, ◌>>=◌, Str, same_str, less_str,
  to_lower,
}
use collabor_ative_schedule.Fiber.{put}

-- `FromStr`, `ToStr` and `==` of each type; `none` is an exception.
pub record Conversions (V : Type 0) : Type 0 where
  pub from_str : ℕ → Str → Option V
  pub to_str : ℕ → V → Option Str
  pub equal : V → V → Bool

-- `hps_ConfigVar`; a listener is a number, at its key.
pub record Var (V : Type 0) : Type 0 where
  pub name : Str
  pub description : Str
  pub kind : ℕ
  pub val : V
  pub cbs : List (ℕ × ℕ)

-- The call of a listener with the old and the new value.
pub record Call (V : Type 0) : Type 0 where
  pub listener : ℕ
  pub old_value : V
  pub new_value : V

-- `datas` is the map in the order of its keys, `fun_ids` the static counter of each type.
pub record Config (V : Type 0) : Type 0 where
  pub vars : ℕ → Var V
  pub datas : List (Str × ℕ)
  pub fun_ids : ℕ → ℕ

-- The constructor, with that of the base.
unfoldable pub new_var : {V : Type 0} → ℕ → Str → V → Str → Var V
new_var kind name default_value description = record {
  name = map to_lower name;
  description = description;
  kind = kind;
  val = default_value;
  cbs = [];
}

-- `toString`, which answers "" to an exception.
unfoldable pub to_string : {V : Type 0} → Conversions V → Var V → Str
to_string casts v = elim (casts.to_str v.kind v.val) [ none ↦ [] | some s ↦ s ]

unfoldable pub get_value : {V : Type 0} → Var V → V
get_value v = v.val

-- `setValue`, with the calls that it makes, of listeners that return.
unfoldable pub set_value : {V : Type 0} → Conversions V → V → Var V → List (Call V) × Var V
set_value casts v x = if casts.equal v x.val then ([], x) else (
  map (λ c. record { listener = c.1; old_value = x.val; new_value = v }) x.cbs,
  record x { val = v },
)

-- `fromString`: its result, the calls and the variable.
unfoldable pub from_string :
    {V : Type 0} → Conversions V → Str → Var V → Bool × List (Call V) × Var V
unfolding set_value
from_string casts s x = elim (casts.from_str x.kind s) [
  | none ↦ (false, [], x)
  | some v ↦ let r = set_value casts v x in (false, r.0, r.1)
]

abbrev pub set_var : {V : Type 0} → ℕ → Var V → Config V → Config V
set_var a x c = record c { vars = put c.vars a x }

-- `addListener`, which does not store the function.
unfoldable pub add_listener : {V : Type 0} → ℕ → ℕ → Config V → ℕ × Config V
add_listener a cb c =
    let kind = (c.vars a).kind in
    let id = add64 (c.fun_ids kind) 1 in (id, record c { fun_ids = put c.fun_ids kind id })

abbrev pub without : ℕ → List (ℕ × ℕ) → List (ℕ × ℕ)
without key [] = []
without key (c ∷ cs) = let rest = without key cs in if c.0 == key then rest else c ∷ rest

abbrev pub at_key : ℕ → List (ℕ × ℕ) → Option ℕ
at_key key [] = none
at_key key (c ∷ cs) = let rest = at_key key cs in if c.0 == key then some c.1 else rest

unfoldable pub del_listener : {V : Type 0} → ℕ → Var V → Var V
del_listener key x = record x { cbs = without key x.cbs }

unfoldable pub get_listener : {V : Type 0} → ℕ → Var V → Option ℕ
get_listener key x = at_key key x.cbs

unfoldable pub clear_listener : {V : Type 0} → Var V → Var V
clear_listener x = record x { cbs = [] }

-- The characters of "abcdefghijklmnopqrstuvwxyz._012345678".
abbrev pub in_name : ℕ → Bool
in_name c = leb 97 c && leb c 122 || c == 46 || c == 95 || leb 48 c && leb c 56

-- `find_first_not_of(...) == npos`.
abbrev pub valid_name : Str → Bool
valid_name [] = true
valid_name (c ∷ s) = in_name c && valid_name s

-- `std::map::find`, and the insertion of a key that is not there.
abbrev pub find_name : Str → List (Str × ℕ) → Option ℕ
find_name n [] = none
find_name n (e ∷ es) = let rest = find_name n es in if same_str n e.0 then some e.1 else rest

abbrev pub insert_name : Str → ℕ → List (Str × ℕ) → List (Str × ℕ)
insert_name n a [] = (n, a) ∷ []
insert_name n a (e ∷ es) =
    let rest = insert_name n a es in if less_str n e.0 then (n, a) ∷ e ∷ es else e ∷ rest

-- `LookupBase`.
unfoldable pub lookup_base : {V : Type 0} → Str → Config V → Option ℕ
lookup_base name c = find_name name c.datas

-- The result of `dynamic_pointer_cast` to a type.
abbrev pub cast_to : {V : Type 0} → ℕ → Config V → ℕ → Option ℕ
cast_to kind c a = if (c.vars a).kind == kind then some a else none

-- `Lookup(name, default_value, description)`; `new` is the address of a new variable, and `none` is
-- the null pointer.
unfoldable pub lookup :
    {V : Type 0} → ℕ → Str → V → Str → ℕ → Config V → Outcome (Option ℕ × Config V)
unfolding new_var
lookup kind name default_value description new c = elim (find_name name c.datas) [
  | some a ↦ ok (cast_to kind c a, c)
  | none ↦
      if not (valid_name name)
      then fault invalid_argument
      else ok (
        some new,
        record c {
          vars = put c.vars new (new_var kind name default_value description);
          datas = insert_name name new c.datas;
        },
      )
]

-- `Lookup(name)`.
unfoldable pub lookup_only : {V : Type 0} → ℕ → Str → Config V → Option ℕ
lookup_only kind name c = elim (find_name name c.datas) [ none ↦ none | some a ↦ cast_to kind c a ]

-- `Visit`: the variables that the function is called with, in order.
unfoldable pub visit : {V : Type 0} → Config V → List ℕ
visit c = map (λ e. e.1) c.datas

abbrev pub new_config : {V : Type 0} → (ℕ → Var V) → Config V
new_config vars = record { vars = vars; datas = []; fun_ids = λ k. 0 }
