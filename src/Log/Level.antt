-- ===== src/Log/Level.antt =====
-- hps_LogLevel of hps_sf/log.h and hps_sf/log.cpp. A string is the list of its character codes.
use collabor_ative_schedule.Base.{
  ℕ, ◌≡◌, refl, Bool, true, false, ◌&&◌, List, [], ◌∷◌, ◌==◌, leb, if◌then◌else◌,
}

-- The enumerators, and the value 100 that the listener of the configuration casts to a level.
pub data Level : Type 0 where
  unknow debug info warn error fatal removed : Level

-- The value of the enumerator.
abbrev pub value : Level → ℕ
value unknow = 0
value debug = 1
value info = 2
value warn = 3
value error = 4
value fatal = 5
value removed = 100

-- `a >= b`.
abbrev pub at_least : Level → Level → Bool
at_least a b = leb (value b) (value a)

abbrev pub same_string : List ℕ → List ℕ → Bool
same_string [] [] = true
same_string (c ∷ cs) (d ∷ ds) = c == d && same_string cs ds
same_string _ _ = false

-- `ToString`: "DEBUG", "INFO", "WARN", "ERROR", "FATAL", and "UNKNOW" for any other level.
unfoldable pub to_string : Level → List ℕ
to_string debug = 68 ∷ 69 ∷ 66 ∷ 85 ∷ 71 ∷ []
to_string info = 73 ∷ 78 ∷ 70 ∷ 79 ∷ []
to_string warn = 87 ∷ 65 ∷ 82 ∷ 78 ∷ []
to_string error = 69 ∷ 82 ∷ 82 ∷ 79 ∷ 82 ∷ []
to_string fatal = 70 ∷ 65 ∷ 84 ∷ 65 ∷ 76 ∷ []
to_string unknow = 85 ∷ 78 ∷ 75 ∷ 78 ∷ 79 ∷ 87 ∷ []
to_string removed = 85 ∷ 78 ∷ 75 ∷ 78 ∷ 79 ∷ 87 ∷ []

-- `FromString`: the names in small letters and then in capital letters.
unfoldable pub from_string : List ℕ → Level
unfolding to_string
from_string str =
    if same_string str (100 ∷ 101 ∷ 98 ∷ 117 ∷ 103 ∷ [])
    then debug
    else if same_string str (105 ∷ 110 ∷ 102 ∷ 111 ∷ [])
    then info
    else if same_string str (119 ∷ 97 ∷ 114 ∷ 110 ∷ [])
    then warn
    else if same_string str (101 ∷ 114 ∷ 114 ∷ 111 ∷ 114 ∷ [])
    then error
    else if same_string str (102 ∷ 97 ∷ 116 ∷ 97 ∷ 108 ∷ [])
    then fatal
    else if same_string str (to_string debug)
    then debug
    else if same_string str (to_string info)
    then info
    else if same_string str (to_string warn)
    then warn
    else if same_string str (to_string error)
    then error
    else if same_string str (to_string fatal)
    then fatal
    else unknow

-- What a level is after its name is read.
abbrev pub named : Level → Level
named removed = unknow
named unknow = unknow
named debug = debug
named info = info
named warn = warn
named error = error
named fatal = fatal

-- `FromString` reads back what `ToString` gives, for every level but the cast one, which has the
-- name of UNKNOW.
pub from_string-to_string : (l : Level) → from_string (to_string l) ≡ named l
unfolding from_string to_string
from_string-to_string unknow = refl
from_string-to_string debug = refl
from_string-to_string info = refl
from_string-to_string warn = refl
from_string-to_string error = refl
from_string-to_string fatal = refl
from_string-to_string removed = refl
