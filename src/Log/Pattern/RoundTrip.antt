-- ===== src/Log/Pattern/RoundTrip.antt =====
-- A pattern of texts and directives is read back piece by piece.
use collabor_ative_schedule.Base.{
  ℕ, ◌+◌, ◌≡◌, refl, sym, ap, ◌∙◌, true, false, List, [], ◌∷◌, ◌++◌, ◌==◌, arith, All, length,
  length-append,
}
use mathlib.Core.List.{append_assoc, append-nil}
use collabor_ative_schedule.Log.Pattern.{
  percent, open_brace, close_brace, is_alpha, ends_name, is_nil, Scan, scan, Piece, text, directive,
  parse, prepend, flush, starts_percent,
}
use collabor_ative_schedule.Log.Pattern.Escapes.{IsPlain, parse-plain}

-- The pattern that a list of pieces is written as.
unfoldable pub render : List Piece → List ℕ
render [] = []
render (text s ∷ ps) = s ++ render ps
render (directive n [] ∷ ps) = percent ∷ n ++ render ps
render (directive n (c ∷ fmt) ∷ ps) =
    percent ∷ n ++ (open_brace ∷ (c ∷ fmt) ++ close_brace ∷ render ps)

-- The pattern ends here, or goes on with a character that ends a name.
abbrev pub Ends : List ℕ → Type 0
Ends [] = Unit
Ends (c ∷ cs) = ends_name c ≡ true

abbrev pub IsName : List ℕ → Type 0
IsName n = (is_nil n ≡ false) × All (λ c. is_alpha c ≡ true) n

-- No two texts in a row, and after a directive without a format a character that ends its name.
abbrev pub Separate : List Piece → Type 0
Separate [] = Unit
Separate (text s ∷ []) = (is_nil s ≡ false) × IsPlain s
Separate (text s ∷ text s' ∷ ps) = ⊥
Separate (text s ∷ directive n fmt ∷ ps) =
    ((is_nil s ≡ false) × IsPlain s) × Separate (directive n fmt ∷ ps)
Separate (directive n fmt ∷ ps) =
    IsName n
    × All (λ c. (c == close_brace) ≡ false) fmt
    × (is_nil fmt ≡ true → Ends (render ps))
    × Separate ps

not_nil : (xs : List ℕ) (y : ℕ) (ys : List ℕ) → is_nil (xs ++ y ∷ ys) ≡ false
not_nil [] y ys = refl
not_nil (x ∷ xs) y ys = refl

alpha_in_name :
    (c : ℕ)
    → is_alpha c ≡ true
    → (ends_name c ≡ false) × ((c == open_brace) ≡ false) × ((c == percent) ≡ false)
alpha_in_name c e = (ground arith, ground arith, ground arith)

-- A name before more of the pattern.
scan-name :
    (n seen inner : List ℕ) (y : ℕ) (ys : List ℕ)
    → All (λ c. is_alpha c ≡ true) n
    → scan false seen inner [] (n ++ y ∷ ys) ≡ scan false (seen ++ n) inner [] (y ∷ ys)
unfolding scan
scan-name [] seen inner y ys a = ap (λ x. scan false x inner [] (y ∷ ys)) (sym (append-nil seen))
scan-name (c ∷ n) seen inner y ys a =
    let letter = alpha_in_name c a.0 in
    rw (scan, letter.0, letter.1, not_nil n y ys)
      (scan-name n (seen ++ c ∷ []) inner y ys a.1
        ∙ ap (λ x. scan false x inner [] (y ∷ ys)) (append_assoc seen (c ∷ []) n))

-- A name at the end of the pattern.
scan-last :
    (n seen inner : List ℕ)
    → is_nil n ≡ false
    → All (λ c. is_alpha c ≡ true) n
    → scan false seen inner [] n
      ≡ record { in_braces = false; str = seen ++ n; fmt = []; taken = length (seen ++ n) }
unfolding scan
scan-last [] seen inner e a = cc
scan-last (c ∷ []) seen inner e a =
    let letter = alpha_in_name c a.0 in rw (scan, letter.0, letter.1) refl
scan-last (c ∷ d ∷ n) seen inner e a =
    let letter = alpha_in_name c a.0 in
    rw (scan, letter.0, letter.1)
      (scan-last (d ∷ n) (seen ++ c ∷ []) inner refl a.1
        ∙ ap {A = List ℕ} (λ x. record { in_braces = false; str = x; fmt = []; taken = length x })
            (append_assoc seen (c ∷ []) (d ∷ n)))

-- A format up to its brace.
scan-format :
    (fmt seen inner str ys : List ℕ)
    → All (λ c. (c == close_brace) ≡ false) fmt
    → scan true seen inner str (fmt ++ close_brace ∷ ys) ≡ record {
      in_braces = false;
      str = str;
      fmt = inner ++ fmt;
      taken = length seen + length fmt + 1;
    }
unfolding scan
scan-format [] seen inner str ys p =
    ap {A = List ℕ × ℕ} (λ x. record { in_braces = false; str = str; fmt = x.0; taken = x.1 })
      (pair_eq (sym (append-nil inner)) (omega arith))
  where
    pair_eq : {a b : List ℕ} {m n : ℕ} → a ≡ b → m ≡ n → Path (List ℕ × ℕ) (a, m) (b, n)
    pair_eq p q = cc
scan-format (c ∷ fmt) seen inner str ys p =
    rw (scan, p.0, not_nil fmt close_brace ys)
      (scan-format fmt (seen ++ c ∷ []) (inner ++ c ∷ []) str ys p.1
        ∙ rw (append_assoc inner (c ∷ []) fmt) (
            ap (λ t. record { in_braces = false; str = str; fmt = inner ++ c ∷ fmt; taken = t })
              (omega (arith, length-append seen (c ∷ [])))))

parse-skip : (xs nstr ys : List ℕ) → parse (length xs) nstr (xs ++ ys) ≡ parse 0 nstr ys
unfolding parse
parse-skip [] nstr ys = refl
parse-skip (x ∷ xs) nstr ys = parse-skip xs nstr ys

-- A name without a format.
scan-bare :
    (n ys : List ℕ)
    → IsName n
    → Ends ys
    → scan false [] [] [] (n ++ ys)
      ≡ record { in_braces = false; str = n; fmt = []; taken = length n }
unfolding scan
scan-bare n [] name e = ap (scan false [] [] []) (append-nil n) ∙ scan-last n [] [] name.0 name.1
scan-bare n (y ∷ ys) name e = scan-name n [] [] y ys name.1 ∙ rw (scan, e) refl

-- A name with a format.
scan-formatted :
    (n fmt ys : List ℕ)
    → IsName n
    → All (λ c. (c == close_brace) ≡ false) fmt
    → scan false [] [] [] (n ++ (open_brace ∷ fmt ++ close_brace ∷ ys)) ≡ record {
      in_braces = false;
      str = n;
      fmt = fmt;
      taken = length (n ++ open_brace ∷ []) + length fmt + 1;
    }
unfolding scan
scan-formatted n fmt ys name p =
    scan-name n [] [] open_brace (fmt ++ close_brace ∷ ys) name.1
    ∙ scan-format fmt (n ++ open_brace ∷ []) [] n ys p

-- What a `%` before a name leads to.
parse-percent :
    (nstr cs : List ℕ) (s : Scan)
    → starts_percent cs ≡ false
    → scan false [] [] [] cs ≡ s
    → s.in_braces ≡ false
    → parse 0 nstr (percent ∷ cs)
      ≡ prepend (flush nstr (directive s.str s.fmt ∷ [])) (parse s.taken [] cs)
unfolding parse
parse-percent nstr cs s e q b = rw (sym q) (rw (parse, e, ap (λ x. x.in_braces) q ∙ b) refl)

name_starts : (n ys : List ℕ) → IsName n → starts_percent (n ++ ys) ≡ false
name_starts [] ys name = cc (name.0)
name_starts (c ∷ n) ys name = (alpha_in_name c name.1.0).2

skip-to :
    (k : ℕ) (xs ys zs : List ℕ) → k ≡ length xs → zs ≡ xs ++ ys → parse k [] zs ≡ parse 0 [] ys
skip-to k xs ys zs e q = rw (e, q) (parse-skip xs [] ys)

parse-directive :
    (nstr n fmt : List ℕ) (ps : List Piece)
    → Separate (directive n fmt ∷ ps)
    → parse 0 nstr (render (directive n fmt ∷ ps))
      ≡ prepend (flush nstr (directive n fmt ∷ [])) (parse 0 [] (render ps))
unfolding render
parse-directive nstr n [] ps (name, _, ends, _) =
    parse-percent nstr (n ++ render ps) _ (name_starts n (render ps) name)
      (scan-bare n (render ps) name (ends refl)) refl
    ∙ ap (prepend (flush nstr (directive n [] ∷ [])))
        (skip-to (length n) n (render ps) (n ++ render ps) refl refl)
parse-directive nstr n (c ∷ f) ps (name, p, _, _) =
    let R = render ps in
    let fmt = c ∷ f in
    parse-percent nstr (n ++ (open_brace ∷ fmt ++ close_brace ∷ R)) _
      (name_starts n (open_brace ∷ fmt ++ close_brace ∷ R) name) (scan-formatted n fmt R name p)
      refl
    ∙ ap (prepend (flush nstr (directive n fmt ∷ []))) (
        skip-to (length (n ++ open_brace ∷ []) + length fmt + 1)
          (n ++ (open_brace ∷ fmt ++ close_brace ∷ [])) R
          (n ++ (open_brace ∷ fmt ++ close_brace ∷ R))
          (omega (
            arith,
            length-append n (open_brace ∷ []),
            length-append n (open_brace ∷ fmt ++ close_brace ∷ []),
            length-append fmt (close_brace ∷ []),
          ))
          (ap (λ x. n ++ open_brace ∷ x) (sym (append_assoc fmt (close_brace ∷ []) R))
            ∙ sym (append_assoc n (open_brace ∷ fmt ++ close_brace ∷ []) R)))

-- Reading what pieces are written as gives the pieces, without an error, when no two texts
-- stand in a row, texts are not empty and have no `%`, names are letters and not none, formats have
-- no `}`, and behind a directive without a format comes the end or a character that ends its name.
pub parse-render :
    (ps : List Piece) → Separate ps → parse 0 [] (render ps) ≡ record { pieces = ps; error = false }
unfolding render parse
parse-render [] w = refl
parse-render (text s ∷ []) w = parse-plain s [] [] w.1 ∙ rw (w.0) refl
parse-render (text s ∷ text s' ∷ ps) w = absurd w
parse-render (text s ∷ directive n fmt ∷ ps) w =
    parse-plain s [] (render (directive n fmt ∷ ps)) w.0.1
    ∙ parse-directive s n fmt ps w.1
    ∙ rw (w.0.0, parse-render ps w.1.3) refl
parse-render (directive n fmt ∷ ps) w =
    parse-directive [] n fmt ps w ∙ rw (parse-render ps w.3) refl
