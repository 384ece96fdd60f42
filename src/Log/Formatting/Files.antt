-- ===== src/Log/Formatting/Files.antt =====
-- A file appender of hps_sf/log.cpp over any sequence of events.
use mathlib.Core.List.{append-nil, append_assoc}
use collabor_ative_schedule.Base.{
  ℕ, ◌+◌, ◌≡◌, refl, sym, ap, ◌∙◌, Bool, true, not, List, [], ◌∷◌, ◌++◌, Option, none, some, ◌==◌,
  ==_iff, fault, null_pointer, if◌then◌else◌, Outcome, ok, ◌>>=◌, Str, Bool-cases, inl, inr, length,
  arith,
}
use collabor_ative_schedule.Log.Level.{Level, at_least}
use collabor_ative_schedule.Log.Pattern.{Item}
use collabor_ative_schedule.Log.Formatting.{Event, FileAppender, format, file_log, reopen}

-- A call of `log`: whether the file could be opened then, the second, the level and the event.
pub record Call : Type 0 where
  pub opens : Bool
  pub now : ℕ
  pub level : Level
  pub event : Event

module _ (strftime : Str → ℕ → Str) where
  unfoldable pub file_logs : List Call → FileAppender strftime → Outcome (FileAppender strftime)
  unfolding file_log
  file_logs [] a = ok a
  file_logs (c ∷ cs) a = do b ← file_log strftime c.opens c.now c.level c.event a; file_logs cs b

  -- The texts of the events whose level reaches the appender's, while the file is open; the file is
  -- opened again by the first of them in each second.
  abbrev pub kept : Level → List Item → List Call → Bool → ℕ → List Str
  kept threshold items [] is_open last = []
  kept threshold items (c ∷ cs) is_open last =
      let now_open = if c.now == last then is_open else c.opens in
      let skipped = kept threshold items cs is_open last in
      let rest = kept threshold items cs now_open c.now in
      if not (at_least c.level threshold)
      then skipped
      else if now_open
      then format strftime c.level c.event items ∷ rest
      else rest

  -- The appender after it has looked at the second.
  abbrev opened : Call → FileAppender strftime → FileAppender strftime
  opened c a = record a {
    is_open = if c.now == a.last_time then a.is_open else c.opens;
    last_time = c.now;
  }

  abbrev written : Call → List Item → FileAppender strftime → FileAppender strftime
  written c items b = record b {
    written = b.written ++ format strftime c.level c.event items ∷ [];
    complaints = b.complaints + 1;
  }

  abbrev at_second : FileAppender strftime → ℕ → FileAppender strftime
  at_second a n = record a { last_time = n }

  abbrev write_with :
      Call → FileAppender strftime → Option (List Item) → Outcome (FileAppender strftime)
  write_with c b none = fault null_pointer
  write_with c b (some items) = if b.is_open then ok (written c items b) else ok b

  abbrev write_out : Call → FileAppender strftime → Outcome (FileAppender strftime)
  write_out c b = write_with c b b.formatter

  opened_lem :
      (c : Call) (a : FileAppender strftime)
      → (if c.now == a.last_time then a else record a { is_open = c.opens; last_time = c.now })
        ≡ opened c a
  opened_lem c a = elim (Bool-cases (c.now == a.last_time)) [
    | inl x ↦ rw x (ap (at_second a) (sym ((==_iff c.now a.last_time).0 x)))
    | inr x ↦ rw x refl
  ]

  file_log_lem :
      (c : Call) (items : List Item) (a : FileAppender strftime)
      → a.formatter ≡ some items
      → at_least c.level a.threshold ≡ true
      → file_log strftime c.opens c.now c.level c.event a
        ≡ (if (opened c a).is_open then ok (written c items (opened c a)) else ok (opened c a))
  unfolding file_log reopen
  file_log_lem c items a f e =
      rw (file_log, e) (ap (write_out c) (opened_lem c a) ∙ ap (write_with c (opened c a)) f)

  -- For an appender with a formatter, any sequence of events comes to its end. The file holds what
  -- it held, and behind it the events that reach the appender's level in the seconds in which the
  -- file could be opened; and the console has one line "LogFile error" more for each event that was
  -- written, and none for one that was lost.
  pub file_logs-kept :
      (cs : List Call) (items : List Item) (a : FileAppender strftime)
      → a.formatter ≡ some items
      → let texts = kept a.threshold items cs a.is_open a.last_time in
        (b : FileAppender strftime) × (file_logs cs a ≡ ok b)
        × (b.written ≡ a.written ++ texts)
        × (b.complaints ≡ a.complaints + length texts)
  unfolding file_logs file_log
  file_logs-kept [] items a f = (a, refl, sym (append-nil a.written), omega arith)
  file_logs-kept (c ∷ cs) items a f = elim (Bool-cases (at_least c.level a.threshold)) [
    | inr e ↦
        let (b, p, q, r) = file_logs-kept cs items a f in rw (file_logs, file_log, e) (b, p, q, r)
    | inl e ↦
        let b = opened c a in
        elim (Bool-cases b.is_open) [
          | inl x ↦
              let (z, p, q, r) = file_logs-kept cs items (written c items b) f in
              let text = format strftime c.level c.event items in
              let rest = kept a.threshold items cs b.is_open c.now in
              let same : kept a.threshold items (c ∷ cs) a.is_open a.last_time ≡ text ∷ rest =
                rw (e, x) refl in
              let step : file_log strftime c.opens c.now c.level c.event a
                  ≡ ok (written c items b) =
                file_log_lem c items a f e
                ∙ ap (λ i. if i then ok (written c items b) else ok b) x in
              let more = ap length same in
              (
                z,
                ap (λ u. u >>= file_logs cs) step ∙ p,
                q ∙ append_assoc a.written (text ∷ []) rest ∙ ap (λ ts. a.written ++ ts) (sym same),
                omega (arith, r, more),
              )
          | inr x ↦
              let (z, p, q, r) = file_logs-kept cs items b f in
              let rest = kept a.threshold items cs b.is_open c.now in
              let same : kept a.threshold items (c ∷ cs) a.is_open a.last_time ≡ rest =
                rw (e, x) refl in
              let step : file_log strftime c.opens c.now c.level c.event a ≡ ok b =
                file_log_lem c items a f e
                ∙ ap (λ i. if i then ok (written c items b) else ok b) x in
              let more = ap length same in
              (
                z,
                ap (λ u. u >>= file_logs cs) step ∙ p,
                q ∙ ap (λ ts. a.written ++ ts) (sym same),
                omega (arith, r, more),
              )
        ]
  ]
