-- ===== src/Log/Formatting/Rendered.antt =====
-- What a formatter made from a pattern writes.
use collabor_ative_schedule.Base.{
  ℕ, ◌≡◌, refl, ap, inl, inr, Bool, true, false, ◌||◌, List, [], ◌∷◌, ◌++◌, none, some, Str,
  Option-cases,
}
use collabor_ative_schedule.Log.Level.{Level}
use collabor_ative_schedule.Log.Pattern.{
  Piece, text, directive, format_item, error_format, resolve, init,
}
use collabor_ative_schedule.Log.Pattern.RoundTrip.{Separate, render, parse-render}
use collabor_ative_schedule.Log.Formatting.{Event, format_one, format}

-- Whether a directive is one that formats know.
abbrev pub unknown : Piece → Bool
unknown (text s) = false
unknown (directive n fmt) = elim (format_item n fmt) [ none ↦ true | some i ↦ false ]

abbrev pub any_unknown : List Piece → Bool
any_unknown [] = false
any_unknown (p ∷ ps) = unknown p || any_unknown ps

module _ (strftime : Str → ℕ → Str) (lvl : Level) (e : Event) where
  -- What each piece of a pattern stands for.
  abbrev pub shown : Piece → Str
  shown (text s) = s
  shown (directive n fmt) = elim (format_item n fmt) [
    | none ↦ error_format n
    | some i ↦ format_one strftime lvl e i
  ]

  abbrev pub shown_all : List Piece → Str
  shown_all [] = []
  shown_all (p ∷ ps) = shown p ++ shown_all ps

  resolve_lem :
      (ps : List Piece)
      → (format strftime lvl e (resolve ps).items ≡ shown_all ps)
        × ((resolve ps).error ≡ any_unknown ps)
  unfolding resolve format format_one
  resolve_lem [] = (refl, refl)
  resolve_lem (text s ∷ ps) = let ih = resolve_lem ps in (ap (λ t. s ++ t) ih.0, ih.1)
  resolve_lem (directive n fmt ∷ ps) =
      let ih = resolve_lem ps in
      elim (Option-cases (format_item n fmt)) [
        | inl f ↦ rw (resolve, shown, unknown, f) (ap (λ t. error_format n ++ t) ih.0, refl)
        | inr (i, f) ↦
            rw (resolve, shown, unknown, f) (ap (λ t. format_one strftime lvl e i ++ t) ih.0, ih.1)
      ]

  -- For a pattern that is written from pieces, no two texts in a row, texts not empty and without
  -- `%`, names letters and not none, formats without `}`, and behind a directive without a format
  -- the end or a character that ends its name: the formatter that `init` makes of it writes, for
  -- every event, each text as it is, for each known directive what its item writes of the event,
  -- and "<<error_format %...>>" for any other, in the order of the pieces; and it is an error
  -- exactly when some directive is not known.
  pub format-init :
      (ps : List Piece)
      → Separate ps
      → (format strftime lvl e (init (render ps)).items ≡ shown_all ps)
        × ((init (render ps)).error ≡ any_unknown ps)
  unfolding init
  format-init ps w = let p = parse-render ps w in let r = resolve_lem ps in rw p r
