-- ===== src/Config/Yaml.antt =====
-- `ListAllMember` and `LoadFromYaml` of hps_sf/config.cpp. The nodes of yaml-cpp are a parameter.
-- The recursion is on fuel, for the depth of the node.
use mathlib.Core.Option
use collabor_ative_schedule.Base.{
  ℕ, zero, suc, Bool, true, false, not, List, [], ◌∷◌, ◌++◌, map, Option, none, some, if◌then◌else◌,
  Str, to_lower,
}
use collabor_ative_schedule.Config.{
  Conversions, Call, Config, from_string, set_var, valid_name, lookup_base,
}

-- What the source uses of `YAML::Node`: `Scalar`, the text that `<<` writes, and the pairs of a
-- map.
pub record Yaml (Node : Type 0) : Type 0 where
  pub is_map : Node → Bool
  pub is_scalar : Node → Bool
  pub scalar : Node → Str
  pub emit : Node → Str
  pub pairs : Node → List (Node × Node)

abbrev pub is_nil : Str → Bool
is_nil [] = true
is_nil (c ∷ s) = false

-- `prefix.empty() ? key : prefix + "." + key`.
abbrev pub join : Str → Str → Str
join prefix key = if is_nil prefix then key else prefix ++ 46 ∷ key

-- What one call and the calls after it append to `output`.
abbrev pub append_members : {A : Type 0} → Option (List A) → Option (List A) → Option (List A)
append_members none rest = none
append_members (some out) rest = Option.map (λ r. out ++ r) rest

-- The calls for the pairs of a map, in order.
unfoldable pub list_each : {A B : Type 0} → (A → Option (List B)) → List A → Option (List B)
list_each f [] = some []
list_each f (p ∷ ps) = append_members (f p) (list_each f ps)

module _ {Node : Type 0} (yaml : Yaml Node) where
  -- `none` is out of fuel.
  unfoldable pub list_all_member : ℕ → Str → Node → Option (List (Str × Node))
  unfolding list_each
  list_all_member zero prefix node = none
  list_all_member (suc fuel) prefix node =
      let rest =
        list_each (λ p. list_all_member fuel (join prefix (yaml.scalar p.0)) p.1)
          (yaml.pairs node) in
      if not (valid_name prefix)
      then some []
      else if yaml.is_map node
      then Option.map (λ out. (prefix, node) ∷ out) rest
      else some ((prefix, node) ∷ [])

  -- The text that a variable is set from.
  abbrev pub text_of : Node → Str
  text_of n = if yaml.is_scalar n then yaml.scalar n else yaml.emit n

  -- The body of the loop of `LoadFromYaml`.
  unfoldable pub load_member :
      {V : Type 0} → Conversions V → Str × Node → Config V → List (Call V) × Config V
  unfolding from_string lookup_base
  load_member casts i c = if is_nil i.0 then ([], c) else elim (lookup_base (map to_lower i.0) c) [
    | none ↦ ([], c)
    | some a ↦ let r = from_string casts (text_of i.1) (c.vars a) in (r.1, set_var a r.2 c)
  ]

  unfoldable pub load_members :
      {V : Type 0} → Conversions V → List (Str × Node) → Config V → List (Call V) × Config V
  unfolding load_member
  load_members casts [] c = ([], c)
  load_members casts (i ∷ is) c =
      let r = load_member casts i c in let s = load_members casts is r.1 in (r.0 ++ s.0, s.1)

  -- `LoadFromYaml`.
  unfoldable pub load_from_yaml :
      {V : Type 0} → Conversions V → ℕ → Node → Config V → Option (List (Call V) × Config V)
  unfolding list_all_member load_members
  load_from_yaml casts fuel root c =
      Option.map (λ all. load_members casts all c) (list_all_member fuel [] root)
