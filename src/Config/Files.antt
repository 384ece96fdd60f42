-- ===== src/Config/Files.antt =====
-- `LoadFromYaml` of hps_sf/config.cpp on a whole file.
use mathlib.Core.List.{Memᴰ}
use mathlib.Core.Option
use collabor_ative_schedule.Base.{
  ℕ, ◌<◌, ◌≡◌, ap, ◌∙◌, sym, subst, true, List, [], map, some, Str, to_lower,
}
use collabor_ative_schedule.Config.{Conversions, Config, valid_name}
use collabor_ative_schedule.Config.Yaml.{Yaml, load_members, load_from_yaml}
use collabor_ative_schedule.Config.Members.{Listed, IsFinite, list_all_member-Listed}
use collabor_ative_schedule.Config.Ordered.{InOrder, whole, list_all_member-InOrder}
use mathlib.Core.Option.{some-injective}
use collabor_ative_schedule.Config.Lookups.{to_lower-valid}
use collabor_ative_schedule.Config.Loading.{Inv, Loads, load_members-Loads}

module _ {Node : Type 0} (yaml : Yaml Node) where
  -- A name that is listed has only the characters of `a-z`, `.`, `_` and `0-8`, and `tolower`
  -- leaves it alone: a key with an upper-case letter or the digit 9, and all below it, is never
  -- loaded.
  pub Listed-lower :
      {prefix : Str} {node : Node} {x : Str × Node}
      → Listed yaml prefix node x
      → (valid_name x.0 ≡ true) × (map to_lower x.0 ≡ x.0)
  Listed-lower {prefix} {node} {x} (Listed.itself v) = (v, to_lower-valid x.0 v)
  Listed-lower (Listed.below v i q m l) = Listed-lower l

  -- In a configuration that satisfies the invariant, for a root that is finite in the sense that
  -- every value of a map has a smaller height, with fuel above the height of the root:
  -- `LoadFromYaml` ends and calls no listener. The variable registered with a name takes the texts
  -- that the pairs have for that name, in order, and no other variable and no name changes. The
  -- pairs of the file are exactly those reached from the root along keys while every name on the
  -- way has only the characters of `a-z`, `.`, `_` and `0-8`, and they are in the order of the
  -- file: a node before what is below it, and what is below a pair of a map before what is below
  -- the pairs behind it.
  pub load_from_yaml-Loads :
      {V : Type 0} (casts : Conversions V) (height : Node → ℕ)
      → IsFinite yaml height
      → (fuel : ℕ) (root : Node) (c : Config V) → height root < fuel
      → Inv c
      → (pairs : List (Str × Node)) × (c' : Config V) × (load_from_yaml yaml casts fuel root c
          ≡ some ([], c'))
        × Loads casts yaml pairs c c'
        × ((x : Str × Node)
            → (Memᴰ x pairs → Listed yaml [] root x) × (Listed yaml [] root x → Memᴰ x pairs))
        × InOrder yaml (whole [] root) pairs
  unfolding load_from_yaml
  load_from_yaml-Loads casts height finite fuel root c l inv =
      let (pairs, e, exact) = list_all_member-Listed yaml height finite fuel [] root l in
      let (_, e', ordered) = list_all_member-InOrder yaml height finite fuel [] root l in
      let (quiet, loads) = load_members-Loads casts yaml pairs c inv in
      let c' = (load_members yaml casts pairs c).1 in
      (
        pairs,
        c',
        ap (Option.map (λ all. load_members yaml casts all c)) e
            ∙ ap (λ calls. some (calls, c')) quiet,
        loads,
        exact,
        subst (InOrder yaml (whole [] root)) (some-injective _ _ (sym e' ∙ e)) ordered,
      )
