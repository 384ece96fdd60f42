-- ===== src/Config/Lookups.antt =====
-- The map of the names: `Lookup` on every branch.
use collabor_ative_schedule.Base.{
  ℕ, ◌≡◌, ◌≢◌, refl, sym, ap, ◌∙◌, ◌⊎◌, inl, inr, true, false, List, [], ◌∷◌, map, none, some,
  arith, Bool-cases, Option-cases, ok, fault, invalid_argument, Str, same_str, same_str_iff,
  same_str_refl, less_str, to_lower, if◌then◌else◌, ◌==◌, ==_iff,
}
use collabor_ative_schedule.Fiber.{put}
use collabor_ative_schedule.Config.{
  Var, Config, new_var, in_name, valid_name, find_name, insert_name, lookup,
}
use collabor_ative_schedule.Config.Loading.{Inv}

-- The characters of names have no other lower case.
lower_in_name : (c : ℕ) → in_name c ≡ true → to_lower c ≡ c
lower_in_name c h = ground (arith, h)

pub to_lower-valid : (s : Str) → valid_name s ≡ true → map to_lower s ≡ s
to_lower-valid [] h = refl
to_lower-valid (c ∷ s) h =
    rw (lower_in_name c (ground (arith, h)), to_lower-valid s (ground (arith, h))) refl

same_str_trans :
    (m n : Str) (e : Str) → same_str m e ≡ true → same_str n e ≡ false → same_str m n ≡ false
same_str_trans m n e h k = elim (Bool-cases (same_str m n)) [
  | inr d ↦ d
  | inl d ↦
      let p = (same_str_iff m n).0 d in
      let q = (same_str_iff m e).0 h in let r = (same_str_iff n e).1 (sym p ∙ q) in cc (r, k)
]

find_name-insert_name :
    (m n : Str) (a : ℕ) (es : List (Str × ℕ))
    → find_name n es ≡ none
    → find_name m (insert_name n a es) ≡ (if same_str m n then some a else find_name m es)
find_name-insert_name m n a [] h = refl
find_name-insert_name m n a (e ∷ es) h = elim (Bool-cases (same_str n e.0)) [
  | inl s ↦ let there : find_name n (e ∷ es) ≡ some e.1 = rw s refl in absurd cc
  | inr s ↦ elim (Bool-cases (less_str n e.0)) [
    | inl l ↦ rw l refl
    | inr l ↦
        let ih = find_name-insert_name m n a es (ground (arith, h, s)) in
        elim (Bool-cases (same_str m e.0)) [
          | inl t ↦ rw (l, t, same_str_trans m n e.0 t s) refl
          | inr t ↦ rw (l, t) ih
        ]
  ]
]

-- A registered name reads as before, and the new one as the new variable.
pub record Registers {V : Type 0} (name : Str) (x : Var V) (new : ℕ) (c c' : Config V)
    : Type 0 where
  pub valid : Inv c'
  pub found : find_name name c'.datas ≡ some new
  pub others : (m : Str) → same_str m name ≡ false → find_name m c'.datas ≡ find_name m c.datas
  pub made : c'.vars new ≡ x
  pub vars : (b : ℕ) → (b == new) ≡ false → c'.vars b ≡ c.vars b

module _ {V : Type 0} (kind : ℕ) (name : Str) (default_value : V) (description : Str) (new : ℕ)
    (c : Config V) where
  abbrev pub registered : Config V
  registered = record c {
    vars = put c.vars new (new_var kind name default_value description);
    datas = insert_name name new c.datas;
  }

  -- An entry afterwards is the new one, or another one from before.
  entry :
      ((n : Str) → find_name n c.datas ≢ some new)
      → find_name name c.datas ≡ none
      → (n : Str) (a : ℕ) → find_name n registered.datas ≡ some a
      → ((n ≡ name) × (a ≡ new)) ⊎ (find_name n c.datas ≡ some a) × ((a == new) ≡ false)
  entry fresh absent n a e =
      let found = find_name-insert_name n name new c.datas absent in
      elim (Bool-cases (same_str n name)) [
        | inl s ↦
            let at : find_name n registered.datas ≡ some new = found ∙ rw s refl in
            inl ((same_str_iff n name).0 s, cc)
        | inr s ↦
            let at : find_name n c.datas ≡ some a = sym (found ∙ rw s refl) ∙ e in
            inr (
              at,
              elim (Bool-cases (a == new)) [
                | inl g ↦ absurd (fresh n (at ∙ ap some ((==_iff a new).0 g)))
                | inr g ↦ g
              ],
            )
      ]

  registered-Registers :
      Inv c
      → ((n : Str) → find_name n c.datas ≢ some new)
      → find_name name c.datas ≡ none
      → valid_name name ≡ true
      → Registers name
          (record {
            name = name;
            description = description;
            kind = kind;
            val = default_value;
            cbs = [];
          })
          new
          c
          registered
  unfolding new_var
  registered-Registers inv fresh absent v =
      let find = λ (m : Str). find_name-insert_name m name new c.datas absent in
      let lower = to_lower-valid name v in
      let x = new_var kind name default_value description in
      let made : put c.vars new x new ≡ x = rw ((==_iff new new).1 refl) refl in
      record {
        valid = record {
          named = λ n a e. elim (entry fresh absent n a e) [
            | inl (p, q) ↦ ap (λ b. (put c.vars new x b).name) q ∙ ap Var.name made ∙ lower ∙ sym p
            | inr (at, g) ↦ rw g (inv.named n a at)
          ];
          valid = λ n a e. elim (entry fresh absent n a e) [
            | inl (p, q) ↦ ap valid_name p ∙ v
            | inr (at, g) ↦ inv.valid n a at
          ];
          quiet = λ n a e. elim (entry fresh absent n a e) [
            | inl (p, q) ↦ ap (λ b. (put c.vars new x b).cbs) q ∙ ap Var.cbs made
            | inr (at, g) ↦ rw g (inv.quiet n a at)
          ];
        };
        found = find name ∙ rw (same_str_refl name) refl;
        others = λ m d. find m ∙ rw d refl;
        made = made ∙ rw lower refl;
        vars = λ b n. rw n refl;
      }

  -- `Lookup` with a default value, where `new` is an address that no name has, in a configuration
  -- that satisfies the invariant: for a name that is registered, nothing changes, and the result is
  -- the variable when its type is the asked one, and a null pointer otherwise; for a name that is
  -- not registered and has a character outside `a-z`, `.`, `_` and `0-8`, `std::invalid_argument`
  -- is thrown; for any other the new variable is registered with the default value and no listener,
  -- its name is found afterwards, every other name and variable is as before, and the invariant
  -- holds again.
  pub lookup_cases :
      Inv c
      → ((n : Str) → find_name n c.datas ≢ some new)
      → let r = lookup kind name default_value description new c in
        ((a : ℕ) × (find_name name c.datas ≡ some a)
          × (((c.vars a).kind ≡ kind) × (r ≡ ok (some a, c))
              ⊎ ((c.vars a).kind ≢ kind) × (r ≡ ok (none, c))))
        ⊎ (find_name name c.datas ≡ none) × (valid_name name ≡ false) × (r ≡ fault invalid_argument)
        ⊎ (c' : Config V) × (find_name name c.datas ≡ none)
          × (valid_name name ≡ true)
          × (r ≡ ok (some new, c'))
          × Registers name
              (record {
                name = name;
                description = description;
                kind = kind;
                val = default_value;
                cbs = [];
              })
              new
              c
              c'
  unfolding lookup
  lookup_cases inv fresh = elim (Option-cases (find_name name c.datas)) [
    | inr (a, e) ↦ inl (
      a,
      e,
      elim (Bool-cases ((c.vars a).kind == kind)) [
        | inl k ↦ inl ((==_iff (c.vars a).kind kind).0 k, rw (lookup, e, k) refl)
        | inr k ↦ inr (λ p. cc ((==_iff (c.vars a).kind kind).1 p, k), rw (lookup, e, k) refl)
      ],
    )
    | inl e ↦ elim (Bool-cases (valid_name name)) [
      | inr v ↦ inr (inl (e, v, rw (lookup, e, v) refl))
      | inl v ↦
          inr (inr (registered, e, v, rw (lookup, e, v) refl, registered-Registers inv fresh e v))
    ]
  ]
