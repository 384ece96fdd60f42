-- ===== src/Config/Casts/Tests.antt =====
-- A document format that keeps its promises: a node is a string, and a sequence is the strings of
-- its elements, each after its length.
use mathlib.Core.List.{append-nil, append_assoc}
use collabor_ative_schedule.Base.{
  ℕ, zero, suc, ◌≤◌, ◌≡◌, refl, sym, ap, ◌∙◌, List, [], ◌∷◌, ◌++◌, Option, none, some, arith, Str,
  length, get_elem?, length-append, ltb,
}
use collabor_ative_schedule.Config.Casts.{
  Doc, vector_to_string, vector_from_string, list_to_string, list_from_string, set_to_string,
  set_from_string, map_to_string, map_from_string,
}
use collabor_ative_schedule.Config.Casts.RoundTrip.{pushes, puts, Laws}
use collabor_ative_schedule.Config.Casts.Containers.{containers_round_trip}

abbrev take : ℕ → Str → Str
take zero s = []
take (suc n) [] = []
take (suc n) (c ∷ s) = c ∷ take n s

abbrev drop : ℕ → Str → Str
drop zero s = s
drop (suc n) [] = []
drop (suc n) (c ∷ s) = drop n s

abbrev decode : ℕ → Str → List Str
decode zero s = []
decode (suc f) [] = []
decode (suc f) (l ∷ s) = take l s ∷ decode f (drop l s)

abbrev pub decoded : Str → List Str
decoded s = decode (length s) s

abbrev pub pair_up : List Str → List (Str × Str)
pair_up (k ∷ v ∷ rest) = (k, v) ∷ pair_up rest
pair_up _ = []

abbrev pub nth : List Str → ℕ → Str
nth [] i = []
nth (s ∷ ss) zero = s
nth (s ∷ ss) (suc i) = nth ss i

abbrev pub chunk : Str → Str
chunk s = length s ∷ s

abbrev doc : Doc Str
doc = record {
  load = λ s. some s;
  emit = λ n. n;
  size = λ n. length (decoded n);
  at = λ n i. nth (decoded n) i;
  pairs = λ n. pair_up (decoded n);
  null = [];
  push_back = λ n x. n ++ chunk x;
  put = λ n k v. (n ++ chunk k) ++ chunk v;
}

abbrev pub encode : List Str → Str
encode [] = []
encode (s ∷ ss) = chunk s ++ encode ss

take-length : (s t : Str) → take (length s) (s ++ t) ≡ s
take-length [] t = refl
take-length (c ∷ s) t = ap (◌∷◌ c) (take-length s t)

drop-length : (s t : Str) → drop (length s) (s ++ t) ≡ t
drop-length [] t = refl
drop-length (c ∷ s) t = drop-length s t

decode-encode : (f : ℕ) (ss : List Str) → length ss ≤ f → decode f (encode ss) ≡ ss
decode-encode zero [] l = refl
decode-encode (suc f) [] l = refl
decode-encode zero (s ∷ ss) l = absurd (omega (arith, l))
decode-encode (suc f) (s ∷ ss) l =
    rw (take-length s (encode ss), drop-length s (encode ss), decode-encode f ss (omega (arith, l)))
      refl

length-encode : (ss : List Str) → length ss ≤ length (encode ss)
length-encode [] = omega arith
length-encode (s ∷ ss) = omega (arith, length-encode ss, length-append s (encode ss))

pub decoded-encode : (ss : List Str) → decoded (encode ss) ≡ ss
decoded-encode ss = decode-encode (length (encode ss)) ss (length-encode ss)

pushes-encode : (m : Str) (ns : List Str) → pushes doc m ns ≡ m ++ encode ns
pushes-encode m [] = sym (append-nil m)
pushes-encode m (n ∷ ns) = pushes-encode (m ++ chunk n) ns ∙ append_assoc m (chunk n) (encode ns)

abbrev pub flat : List (Str × Str) → List Str
flat [] = []
flat (p ∷ ps) = p.0 ∷ p.1 ∷ flat ps

puts-encode : (m : Str) (ps : List (Str × Str)) → puts doc m ps ≡ m ++ encode (flat ps)
puts-encode m [] = sym (append-nil m)
puts-encode m (p ∷ ps) =
    puts-encode ((m ++ chunk p.0) ++ chunk p.1) ps
    ∙ append_assoc (m ++ chunk p.0) (chunk p.1) (encode (flat ps))
    ∙ append_assoc m (chunk p.0) (chunk p.1 ++ encode (flat ps))

pub pair_up-flat : (ps : List (Str × Str)) → pair_up (flat ps) ≡ ps
pair_up-flat [] = refl
pair_up-flat (p ∷ ps) = ap (◌∷◌ p) (pair_up-flat ps)

pub nth_get_elem : (ns : List Str) (i : ℕ) (n : Str) → get_elem? ns i ≡ some n → nth ns i ≡ n
nth_get_elem (m ∷ ns) zero n e = cc
nth_get_elem (m ∷ ns) (suc i) n e = nth_get_elem ns i n e
nth_get_elem [] i n e = cc

doc-Laws : Laws doc
doc-Laws = record {
  sequence_size =
      λ ns. ap (λ s. length (decoded s)) (pushes-encode [] ns) ∙ ap length (decoded-encode ns);
  sequence_at = λ ns i n e.
      ap (λ s. nth (decoded s) i) (pushes-encode [] ns)
      ∙ ap (λ ss. nth ss i) (decoded-encode ns)
      ∙ nth_get_elem ns i n e;
  sequence_read = λ ns. refl;
  map_pairs = λ ps order.
      ap (λ s. pair_up (decoded s)) (puts-encode [] ps)
      ∙ ap pair_up (decoded-encode (flat ps))
      ∙ pair_up-flat ps;
  map_read = λ ps. refl;
}

-- An element is written as a string of one character.
abbrev from : Str → Option ℕ
from s = elim s [ [] ↦ none | c ∷ _ ↦ some c ]

abbrev to : ℕ → Option Str
to x = some (x ∷ [])

written : vector_to_string doc to (5 ∷ 8 ∷ []) ≡ some (1 ∷ 5 ∷ 1 ∷ 8 ∷ [])
unfolding vector_to_string
written = refl

containers_round_trip_example :
    let xs : List ℕ = 5 ∷ 8 ∷ [] in
    let ps : List (Str × ℕ) = (97 ∷ [], 5) ∷ (98 ∷ [], 8) ∷ [] in
    ((s : Str) × (vector_to_string doc to xs ≡ some s) × (vector_from_string doc from s ≡ some xs))
    × ((s : Str) × (list_to_string doc to xs ≡ some s) × (list_from_string doc from s ≡ some xs))
    × ((s : Str) × (set_to_string doc to xs ≡ some s) × (set_from_string doc from ltb s ≡ some xs))
    × ((s : Str) × (map_to_string doc to ps ≡ some s) × (map_from_string doc from s ≡ some ps))
containers_round_trip_example =
    containers_round_trip doc from to doc-Laws ltb (5 ∷ 8 ∷ []) ((97 ∷ [], 5) ∷ (98 ∷ [], 8) ∷ [])
      ((5 ∷ [], refl, refl), ((8 ∷ [], refl, refl), tt)) (((refl, refl), tt), (tt, tt))
      ((5 ∷ [], refl, refl), ((8 ∷ [], refl, refl), tt)) (((refl, refl), tt), (tt, tt))
