-- ===== src/Base/Strings.antt =====
-- Strings as lists of character codes, and `tolower`.
use Prim.Native.Nat.{ℕ, ◌+◌}
use mathlib.Core.Path.{◌≡◌, refl}
use mathlib.Core.Logic.{◌↔◌}
use mathlib.Core.Bool.{Bool, true, false, ◌&&◌}
use mathlib.Core.List.{List, [], ◌∷◌}
use native.Mathlib.Omega.{arith}
use collabor_ative_schedule.Base.Tests.{ltb, leb, ◌==◌, if◌then◌else◌, ==_iff}

abbrev pub Str : Type 0
Str = List ℕ

abbrev pub same_str : Str → Str → Bool
same_str [] [] = true
same_str (a ∷ s) (b ∷ t) = a == b && same_str s t
same_str _ _ = false

-- `operator<` of std::string.
abbrev pub less_str : Str → Str → Bool
less_str [] [] = false
less_str [] (b ∷ t) = true
less_str (a ∷ s) [] = false
less_str (a ∷ s) (b ∷ t) =
    let rest = less_str s t in if ltb a b then true else if ltb b a then false else rest

-- In the C locale.
abbrev pub to_lower : ℕ → ℕ
to_lower c = if leb 65 c && leb c 90 then c + 32 else c

pub same_str_iff : (s t : Str) → (same_str s t ≡ true) ↔ (s ≡ t)
same_str_iff [] [] = (λ h. refl, λ h. refl)
same_str_iff [] (b ∷ t) = (λ h. cc, λ h. cc)
same_str_iff (a ∷ s) [] = (λ h. cc, λ h. cc)
same_str_iff (a ∷ s) (b ∷ t) =
    let head = ==_iff a b in
    let tail = same_str_iff s t in
    (
      λ h. let p = head.0 (ground (arith, h)) in let q = tail.0 (ground (arith, h)) in cc,
      λ h. let p : a ≡ b = cc in let q : s ≡ t = cc in ground (arith, head.1 p, tail.1 q),
    )

pub same_str_refl : (s : Str) → same_str s s ≡ true
same_str_refl s = (same_str_iff s s).1 refl

-- What a comparison of strings says.
pub same_str-eq : (s t : Str) → same_str s t ≡ true → s ≡ t
same_str-eq s t h = (same_str_iff s t).0 h
