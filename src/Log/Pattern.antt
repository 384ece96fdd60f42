-- ===== src/Log/Pattern.antt =====
-- hps_LogFormatter::init of hps_sf/log.cpp: how a pattern becomes the items of a formatter. A
-- string is the list of its character codes.
pub mod Escapes
pub mod RoundTrip
use collabor_ative_schedule.Base.{
  ℕ, zero, suc, ◌+◌, Bool, true, false, not, ◌&&◌, ◌||◌, List, [], ◌∷◌, ◌++◌, Option, none, some,
  leb, ◌==◌, if◌then◌else◌, length,
}

-- The characters `%`, `{` and `}`.
abbrev pub percent : ℕ
percent = 37

abbrev pub open_brace : ℕ
open_brace = 123

abbrev pub close_brace : ℕ
close_brace = 125

-- `isalpha`, in the C locale.
abbrev pub is_alpha : ℕ → Bool
is_alpha c = leb 65 c && leb c 90 || leb 97 c && leb c 122

-- What ends the name of a directive.
abbrev pub ends_name : ℕ → Bool
ends_name c = not (is_alpha c) && not (c == open_brace) && not (c == close_brace)

abbrev pub is_nil : List ℕ → Bool
is_nil [] = true
is_nil (c ∷ cs) = false

-- An element of `vec`: of type 0, a text, or of type 1, a directive with its format.
pub data Piece : Type 0 where
  text : List ℕ → Piece
  directive : List ℕ → List ℕ → Piece

-- How the inner loop leaves `fmt_status`, `str`, `fmt`, and how far behind the `%` the index `n`
-- is.
pub record Scan : Type 0 where
  pub in_braces : Bool
  pub str : List ℕ
  pub fmt : List ℕ
  pub taken : ℕ

-- `if (n == m_pattern.size() && str.empty()) str = m_pattern.substr(i + 1);`
abbrev pub at_end : List ℕ → ℕ → List ℕ → List ℕ → List ℕ
at_end seen c str rest = if is_nil rest && is_nil str then seen ++ c ∷ [] else str

-- The inner loop; `seen` is the pattern from behind the `%` up to `n`, and `inner` from behind the
-- `{`.
unfoldable pub scan : Bool → List ℕ → List ℕ → List ℕ → List ℕ → Scan
scan b seen inner str [] = record { in_braces = b; str = str; fmt = []; taken = length seen }
scan false seen inner str (c ∷ cs) = elim (ends_name c) [
  | true ↦ record { in_braces = false; str = seen; fmt = []; taken = length seen }
  | false ↦ elim (c == open_brace) [
    | true ↦ scan true (seen ++ c ∷ []) [] seen cs
    | false ↦ scan false (seen ++ c ∷ []) inner (at_end seen c str cs) cs
  ]
]
scan true seen inner str (c ∷ cs) = elim (c == close_brace) [
  | true ↦ record { in_braces = false; str = str; fmt = inner; taken = length seen + 1 }
  | false ↦ scan true (seen ++ c ∷ []) (inner ++ c ∷ []) (at_end seen c str cs) cs
]

pub record Parsed : Type 0 where
  pub pieces : List Piece
  pub error : Bool

abbrev pub flush : List ℕ → List Piece → List Piece
flush nstr ps = if is_nil nstr then ps else text nstr ∷ ps

abbrev pub prepend : List Piece → Parsed → Parsed
prepend ps p = record p { pieces = ps ++ p.pieces }

abbrev pub starts_percent : List ℕ → Bool
starts_percent [] = false
starts_percent (c ∷ cs) = c == percent

-- "<<pattern_error>>"
abbrev pub pattern_error : List ℕ
pattern_error =
    60 ∷ 60 ∷ 112 ∷ 97 ∷ 116 ∷ 116 ∷ 101 ∷ 114 ∷ 110 ∷ 95 ∷ 101 ∷ 114 ∷ 114 ∷ 111 ∷ 114 ∷ 62 ∷ 62
    ∷ []

-- The outer loop: the first argument counts the characters that `i = n - 1` passes over.
unfoldable pub parse : ℕ → List ℕ → List ℕ → Parsed
unfolding scan
parse k nstr [] = record { pieces = flush nstr []; error = false }
parse (suc k) nstr (c ∷ cs) = parse k nstr cs
parse zero nstr (c ∷ cs) = elim (c == percent) [
  | false ↦ parse zero (nstr ++ c ∷ []) cs
  | true ↦ elim (starts_percent cs) [
    | true ↦ parse zero (nstr ++ percent ∷ []) cs
    | false ↦
        let s = scan false [] [] [] cs in
        elim s.in_braces [
          | false ↦ prepend (flush nstr (directive s.str s.fmt ∷ [])) (parse s.taken [] cs)
          | true ↦ record (prepend (text pattern_error ∷ []) (parse zero nstr cs)) { error = true }
        ]
  ]
]

-- The items of a formatter; only the time item uses its format.
pub data Item : Type 0 where
  string : List ℕ → Item
  message level elapse name thread_id new_line filename line tab fiber_id thread_name : Item
  date_time : List ℕ → Item

-- `s_format_items`.
abbrev pub format_item : List ℕ → List ℕ → Option Item
format_item (c ∷ []) fmt =
    if c == 109
    then some message
    else if c == 112
    then some level
    else if c == 114
    then some elapse
    else if c == 99
    then some name
    else if c == 116
    then some thread_id
    else if c == 110
    then some new_line
    else if c == 100
    then some (date_time fmt)
    else if c == 102
    then some filename
    else if c == 108
    then some line
    else if c == 84
    then some tab
    else if c == 70
    then some fiber_id
    else if c == 78
    then some thread_name
    else none
format_item _ fmt = none

-- "<<error_format %" and ">>" around the name.
abbrev pub error_format : List ℕ → List ℕ
error_format str =
    (60 ∷ 60 ∷ 101 ∷ 114 ∷ 114 ∷ 111 ∷ 114 ∷ 95 ∷ 102 ∷ 111 ∷ 114 ∷ 109 ∷ 97 ∷ 116 ∷ 32 ∷ 37 ∷ [])
    ++ str
    ++ 62 ∷ 62 ∷ []

pub record Formatter : Type 0 where
  pub items : List Item
  pub error : Bool

-- The loop over `vec`.
unfoldable pub resolve : List Piece → Formatter
resolve [] = record { items = []; error = false }
resolve (text s ∷ ps) = let rest = resolve ps in record rest { items = string s ∷ rest.items }
resolve (directive str fmt ∷ ps) =
    let rest = resolve ps in
    elim (format_item str fmt) [
      | none ↦ record { items = string (error_format str) ∷ rest.items; error = true }
      | some item ↦ record rest { items = item ∷ rest.items }
    ]

-- `init`.
unfoldable pub init : List ℕ → Formatter
unfolding parse resolve
init pattern =
    let p = parse 0 [] pattern in
    let f = resolve p.pieces in record f { error = p.error || f.error }
