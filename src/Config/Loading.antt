-- ===== src/Config/Loading.antt =====
-- The loop of `LoadFromYaml` against the view of one variable, which takes texts one after the
-- other.
use collabor_ative_schedule.Base.{
  ℕ, ◌≡◌, ◌≢◌, refl, sym, ap, ◌∙◌, inl, inr, true, false, not, ◌&&◌, List, [], ◌∷◌, map, none, some,
  arith, Bool-cases, Option-cases, Str, same_str, same_str_iff, to_lower, if◌then◌else◌, ◌==◌,
  ==_iff,
}
use collabor_ative_schedule.Fiber.{put}
use collabor_ative_schedule.Config.{
  Conversions, Var, Config, set_value, from_string, set_var, valid_name, find_name, lookup_base,
}
use collabor_ative_schedule.Config.Yaml.{Yaml, is_nil, text_of, load_member, load_members}

-- A registered variable has the name that it is registered with, and no listener.
pub record Inv {V : Type 0} (c : Config V) : Type 0 where
  pub named : (n : Str) (a : ℕ) → find_name n c.datas ≡ some a → (c.vars a).name ≡ n
  pub valid : (n : Str) (a : ℕ) → find_name n c.datas ≡ some a → valid_name n ≡ true
  pub quiet : (n : Str) (a : ℕ) → find_name n c.datas ≡ some a → (c.vars a).cbs ≡ []

put_same : {A : Type 0} (f : ℕ → A) (g : A → A) (b a : ℕ) → b ≡ a → put f b (g (f b)) a ≡ g (f a)
put_same f g b a p = rw ((==_iff a b).1 (sym p)) (ap (λ x. g (f x)) p)

module _ {V : Type 0} (casts : Conversions V) where
  -- The value that a text leaves: the text's value, unless it is no value of the type or is equal
  -- to the old one.
  abbrev pub assign : ℕ → V → Str → V
  assign kind v s = elim (casts.from_str kind s) [
    | none ↦ v
    | some w ↦ if casts.equal w v then v else w
  ]

  abbrev pub assign_all : ℕ → V → List Str → V
  assign_all kind v [] = v
  assign_all kind v (s ∷ ss) = assign_all kind (assign kind v s) ss

  -- A variable that takes texts.
  abbrev pub take : List Str → Var V → Var V
  take ss x = record x { val = assign_all x.kind x.val ss }

  pub from_string_lem :
      (s : Str) (x : Var V)
      → x.cbs ≡ []
      → from_string casts s x ≡ (false, [], record x { val = assign x.kind x.val s })
  unfolding from_string set_value
  from_string_lem s x h = elim (Option-cases (casts.from_str x.kind s)) [
    | inl e ↦ rw (from_string, assign, e) refl
    | inr (w, e) ↦ elim (Bool-cases (casts.equal w x.val)) [
      | inl f ↦ rw (from_string, assign, e, f) refl
      | inr f ↦ rw (from_string, assign, e, f, h) refl
    ]
  ]

  module _ {Node : Type 0} (yaml : Yaml Node) where
    -- The texts that the pairs have for a name.
    abbrev pub texts : Str → List (Str × Node) → List Str
    texts n [] = []
    texts n (i ∷ is) =
        let rest = texts n is in
        if not (is_nil i.0) && same_str (map to_lower i.0) n then text_of yaml i.1 ∷ rest else rest

    -- What the pairs make of a configuration.
    pub record Loads (is : List (Str × Node)) (c c' : Config V) : Type 0 where
      pub valid : Inv c'
      pub datas : c'.datas ≡ c.datas
      pub fun_ids : c'.fun_ids ≡ c.fun_ids
      pub values :
          (n : Str) (a : ℕ)
          → find_name n c.datas ≡ some a
          → c'.vars a ≡ take (texts n is) (c.vars a)
      pub others : (b : ℕ) → ((n : Str) → find_name n c.datas ≢ some b) → c'.vars b ≡ c.vars b

    unchanged :
        (i : Str × Node) (c : Config V)
        → Inv c
        → ((n : Str) (a : ℕ)
            → find_name n c.datas ≡ some a
            → (not (is_nil i.0) && same_str (map to_lower i.0) n) ≡ false)
        → Loads (i ∷ []) c c
    unchanged i c inv h = record {
      valid = inv;
      datas = refl;
      fun_ids = refl;
      values = λ n a e. rw (h n a e) refl;
      others = λ b n. refl;
    }

    -- Two names have two variables.
    apart :
        (c : Config V)
        → Inv c
        → (n m : Str) (a b : ℕ) → find_name n c.datas ≡ some a
        → find_name m c.datas ≡ some b
        → same_str m n ≡ false
        → (a == b) ≡ false
    apart c inv n m a b e f d = elim (Bool-cases (a == b)) [
      | inr g ↦ g
      | inl g ↦
          let p = (==_iff a b).0 g in
          let q : m ≡ n =
            sym (inv.named m b f) ∙ ap (λ x. (c.vars x).name) (sym p) ∙ inv.named n a e in
          cc ((same_str_iff m n).1 q, d)
    ]

    stored :
        (i : Str × Node) (c : Config V) (b : ℕ)
        → Inv c
        → is_nil i.0 ≡ false
        → find_name (map to_lower i.0) c.datas ≡ some b
        → Loads (i ∷ []) c (
            set_var b
              (record (c.vars b) { val = assign (c.vars b).kind (c.vars b).val (text_of yaml i.1) })
              c)
    stored i c b inv nil f =
        let key = map to_lower i.0 in
        let change = λ (x : Var V). record x { val = assign x.kind x.val (text_of yaml i.1) } in
        record {
          valid = record {
            named = λ n a e. ground (arith, inv.named n a e, ==_iff a b);
            valid = inv.valid;
            quiet = λ n a e. ground (arith, inv.quiet n a e, ==_iff a b);
          };
          datas = refl;
          fun_ids = refl;
          values = λ n a e. elim (Bool-cases (same_str key n)) [
            | inl s ↦
                let p = (same_str_iff key n).0 s in
                let q : b ≡ a = cc in put_same c.vars change b a q ∙ rw (nil, s) refl
            | inr s ↦ rw (apart c inv n key a b e f s, nil, s) refl
          ];
          others = λ d n. elim (Bool-cases (d == b)) [
            | inl g ↦ absurd (n key (f ∙ ap some (sym ((==_iff d b).0 g))))
            | inr g ↦ rw g refl
          ];
        }

    load_member-Loads :
        (i : Str × Node) (c : Config V)
        → Inv c
        → ((load_member yaml casts i c).0 ≡ []) × Loads (i ∷ []) c (load_member yaml casts i c).1
    unfolding load_member lookup_base
    load_member-Loads i c inv = elim (Bool-cases (is_nil i.0)) [
      | inl nil ↦ rw nil (refl, unchanged i c inv (λ n a e. rw nil refl))
      | inr nil ↦ elim (Option-cases (find_name (map to_lower i.0) c.datas)) [
        | inl f ↦
            rw (nil, f)
              (
                refl,
                unchanged i c inv (λ n a e. elim (Bool-cases (same_str (map to_lower i.0) n)) [
                  | inl s ↦ let p = (same_str_iff (map to_lower i.0) n).0 s in absurd cc
                  | inr s ↦ rw (nil, s) refl
                ]),
              )
        | inr (b, f) ↦
            rw (nil, f, from_string_lem (text_of yaml i.1) (c.vars b) (inv.quiet _ b f))
              (refl, stored i c b inv nil f)
      ]
    ]

    take-texts :
        (n : Str) (i : Str × Node) (is : List (Str × Node)) (x : Var V)
        → take (texts n is) (take (texts n (i ∷ [])) x) ≡ take (texts n (i ∷ is)) x
    take-texts n i is x = elim (Bool-cases (not (is_nil i.0) && same_str (map to_lower i.0) n)) [
      | inl e ↦ rw e refl
      | inr e ↦ rw e refl
    ]

    both :
        (i : Str × Node) (is : List (Str × Node)) (c c₁ c₂ : Config V)
        → Loads (i ∷ []) c c₁
        → Loads is c₁ c₂
        → Loads (i ∷ is) c c₂
    both i is c c₁ c₂ one rest =
        let same =
          λ (n : Str) (a : ℕ) (e : find_name n c.datas ≡ some a). ap (find_name n) one.datas ∙ e in
        record {
          valid = rest.valid;
          datas = rest.datas ∙ one.datas;
          fun_ids = rest.fun_ids ∙ one.fun_ids;
          values = λ n a e.
              rest.values n a (same n a e)
              ∙ ap (take (texts n is)) (one.values n a e)
              ∙ take-texts n i is (c.vars a);
          others = λ b h.
              rest.others b (λ n e. h n (sym (ap (find_name n) one.datas) ∙ e)) ∙ one.others b h;
        }

    -- For a configuration that satisfies the invariant, and any list of pairs of a name and a node:
    -- the loop of `LoadFromYaml` calls no listener, keeps the map of names and the invariant, and
    -- changes no variable that is not registered; and the variable registered with a name takes the
    -- texts of the pairs whose name, in lower case, is that name, in order: it keeps its value for
    -- a text that is no value of its type, and has the text's value otherwise.
    pub load_members-Loads :
        (is : List (Str × Node)) (c : Config V)
        → Inv c
        → ((load_members yaml casts is c).0 ≡ []) × Loads is c (load_members yaml casts is c).1
    unfolding load_members
    load_members-Loads [] c inv = (
      refl,
      record {
        valid = inv;
        datas = refl;
        fun_ids = refl;
        values = λ n a e. refl;
        others = λ b h. refl;
      },
    )
    load_members-Loads (i ∷ is) c inv =
        let one = load_member-Loads i c inv in
        let rest = load_members-Loads is (load_member yaml casts i c).1 one.1.valid in
        (rw (one.0, rest.0) refl, both i is c _ _ one.1 rest.1)
