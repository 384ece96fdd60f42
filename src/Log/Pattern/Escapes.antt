-- ===== src/Log/Pattern/Escapes.antt =====
-- Texts in a pattern, and the escape `%%`.
use collabor_ative_schedule.Base.{
  ℕ, ◌≡◌, refl, sym, ap, ◌∙◌, true, false, ◌||◌, List, [], ◌∷◌, ◌++◌, ◌==◌, All,
}
use mathlib.Core.List.{append_assoc, append-nil}
use collabor_ative_schedule.Log.Pattern.{percent, scan, parse, resolve, init, is_nil}

-- A text without `%`.
abbrev pub IsPlain : List ℕ → Type 0
IsPlain = All (λ c. (c == percent) ≡ false)

-- A plain text is collected.
pub parse-plain : (s nstr ys : List ℕ) → IsPlain s → parse 0 nstr (s ++ ys) ≡ parse 0 (nstr ++ s) ys
unfolding parse
parse-plain [] nstr ys p = ap (λ x. parse 0 x ys) (sym (append-nil nstr))
parse-plain (c ∷ s) nstr ys p =
    rw (parse, p.0)
      (parse-plain s (nstr ++ c ∷ []) ys p.1
        ∙ ap (λ x. parse 0 x ys) (append_assoc nstr (c ∷ []) s))

nonempty_snoc : (s : List ℕ) (c : ℕ) → is_nil (s ++ c ∷ []) ≡ false
nonempty_snoc [] c = refl
nonempty_snoc (x ∷ s) c = refl

-- `%%` at the end of a plain text makes the pattern an error: the second `%` is not passed over,
-- but starts a directive without a name.
pub escape_is_error : (s : List ℕ) → IsPlain s → (init (s ++ percent ∷ percent ∷ [])).error ≡ true
unfolding init parse scan resolve
escape_is_error s p =
    ap (λ q. (q.error || (resolve q.pieces).error)) (parse-plain s [] (percent ∷ percent ∷ []) p)
    ∙ rw (nonempty_snoc s percent) refl
