-- ===== src/Config/Reachable.antt =====
-- The calls on a configuration, in any order, and what becomes of listeners.
use collabor_ative_schedule.Base.{
  ℕ, ◌≡◌, ◌≢◌, refl, sym, ap, subst, ◌∙◌, inl, inr, List, [], Option, none, some, Bool-cases, ok,
  Str, if◌then◌else◌, ◌==◌, ==_iff,
}
use collabor_ative_schedule.Config.{
  Conversions, Var, Config, new_config, find_name, lookup, set_var, set_value, get_value,
  add_listener, del_listener, get_listener, clear_listener,
}
use collabor_ative_schedule.Config.Yaml.{Yaml, load_members}
use collabor_ative_schedule.Config.Lookups.{lookup_cases}
use collabor_ative_schedule.Config.Loading.{Inv, load_members-Loads}

module _ {V Node : Type 0} (casts : Conversions V) (yaml : Yaml Node) where
  -- One call. The allocator returns an address that no registered variable has.
  pub data Step (c : Config V) : Config V → Type 0 where
    looks_up :
        {c' : Config V} (kind : ℕ) (name : Str) (default_value : V) (description : Str) (new : ℕ)
        → ((n : Str) → find_name n c.datas ≢ some new)
        → (result : Option ℕ) → lookup kind name default_value description new c ≡ ok (result, c')
        → Step c c'
    sets : (a : ℕ) (v : V) → Step c (set_var a (set_value casts v (c.vars a)).1 c)
    adds_listener : (a cb : ℕ) → Step c (add_listener a cb c).1
    dels_listener : (a key : ℕ) → Step c (set_var a (del_listener key (c.vars a)) c)
    clears_listener : (a : ℕ) → Step c (set_var a (clear_listener (c.vars a)) c)
    loads : (pairs : List (Str × Node)) → Step c (load_members yaml casts pairs c).1

  pub data Reach (vars : ℕ → Var V) : Config V → Type 0 where
    here : Reach vars (new_config vars)
    next : {c c' : Config V} → Reach vars c → Step c c' → Reach vars c'

  set_var-Inv :
      (a : ℕ) (x : Var V) (c : Config V)
      → x.name ≡ (c.vars a).name
      → ((c.vars a).cbs ≡ [] → x.cbs ≡ [])
      → Inv c
      → Inv (set_var a x c)
  set_var-Inv a x c same quiet inv = record {
    named = λ n b e. elim (Bool-cases (b == a)) [
      | inl g ↦ rw g (same ∙ ap (λ d. (c.vars d).name) (sym ((==_iff b a).0 g)) ∙ inv.named n b e)
      | inr g ↦ rw g (inv.named n b e)
    ];
    valid = inv.valid;
    quiet = λ n b e. elim (Bool-cases (b == a)) [
      | inl g ↦ rw g (quiet (ap (λ d. (c.vars d).cbs) (sym ((==_iff b a).0 g)) ∙ inv.quiet n b e))
      | inr g ↦ rw g (inv.quiet n b e)
    ];
  }

  set_value_fields :
      (v : V) (x : Var V)
      → ((set_value casts v x).1.name ≡ x.name)
        × ((set_value casts v x).1.cbs ≡ x.cbs)
        × ((set_value casts v x).1.val ≡ (if casts.equal v x.val then x.val else v))
        × (x.cbs ≡ [] → (set_value casts v x).0 ≡ [])
  unfolding set_value
  set_value_fields v x = elim (Bool-cases (casts.equal v x.val)) [
    | inl e ↦ rw e (refl, refl, refl, λ h. refl)
    | inr e ↦ rw e (refl, refl, refl, λ h. rw h refl)
  ]

  Step-Inv : {c c' : Config V} → Inv c → Step c c' → Inv c'
  unfolding add_listener del_listener clear_listener
  Step-Inv {c} {c'} inv (looks_up kind name default_value description new fresh result e) =
      elim (lookup_cases kind name default_value description new c inv fresh) [
        | inl (a, _, inl (_, r)) ↦ let same : c ≡ c' = cc in subst Inv same inv
        | inl (a, _, inr (_, r)) ↦ let same : c ≡ c' = cc in subst Inv same inv
        | inr (inl (_, _, r)) ↦ absurd cc
        | inr (inr (c'', _, _, r, registers)) ↦
            let same : c'' ≡ c' = cc in subst Inv same registers.valid
      ]
  Step-Inv {c} inv (sets a v) =
      let fields = set_value_fields v (c.vars a) in
      set_var-Inv a _ c fields.0 (λ h. fields.1 ∙ h) inv
  Step-Inv {c} inv (adds_listener a cb) = record {
    named = inv.named;
    valid = inv.valid;
    quiet = inv.quiet;
  }
  Step-Inv {c} inv (dels_listener a key) = set_var-Inv a _ c refl (λ h. rw h refl) inv
  Step-Inv {c} inv (clears_listener a) = set_var-Inv a _ c refl (λ h. refl) inv
  Step-Inv {c} inv (loads pairs) = (load_members-Loads casts yaml pairs c inv).1.valid

  pub Reach-Inv : {vars : ℕ → Var V} {c : Config V} → Reach vars c → Inv c
  Reach-Inv here = record {
    named = λ n a e. absurd cc;
    valid = λ n a e. absurd cc;
    quiet = λ n a e. absurd cc;
  }
  Reach-Inv (next r s) = Step-Inv (Reach-Inv r) s

  -- After any calls from an empty configuration, in any order, `addListener` among them: no key of
  -- a registered variable has a listener, and `setValue` calls none; it keeps the value when the
  -- new one is equal to it, and stores the new one otherwise.
  pub Reach-silent :
      {vars : ℕ → Var V} {c : Config V}
      → Reach vars c
      → (n : Str) (a : ℕ) → find_name n c.datas ≡ some a
      → (key : ℕ) (v : V)
      → (get_listener key (c.vars a) ≡ none)
        × ((set_value casts v (c.vars a)).0 ≡ [])
        × (get_value (set_value casts v (c.vars a)).1
            ≡ (if casts.equal v (c.vars a).val then (c.vars a).val else v))
  unfolding get_listener get_value
  Reach-silent {vars} {c} r n a e key v =
      let quiet = (Reach-Inv r).quiet n a e in
      let fields = set_value_fields v (c.vars a) in (rw quiet refl, fields.3 quiet, fields.2)
