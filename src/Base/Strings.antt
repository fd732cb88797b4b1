-- ===== src/Base/Strings.antt =====
-- Strings as lists of UTF-16 code units, with the standard functions that the source calls.
use Prim.Native.Nat.{ℕ, ◌+◌, ◌-◌}
use Prim.Native.Char.{code}
use Prim.Native.String.{String}
use mathlib.Core.Path.{◌≡◌, refl}
use mathlib.Core.Logic.{◌↔◌}
use mathlib.Core.Bool.{Bool, true, false, ◌&&◌, ◌||◌}
use mathlib.Core.Option.{Option, none, some}
use mathlib.Core.List.{List, [], ◌∷◌, ◌++◌, reverse, map}
use native.Mathlib.Omega.{arith}
use nyx_darkpool.Base.Tests.{leb, ◌==◌, if◌then◌else◌}
use nyx_darkpool.Base.Lists.{length, drop, replicate}

abbrev pub Text : Type 0
Text = List ℕ

-- The code units of a literal, whose characters are all of the basic plane.
abbrev pub codes : String → Text
codes String.[] = []
codes (String.◌∷◌ c s) = code c ∷ codes s

-- `===` on strings.
infix 50 ◌===◌
unfoldable pub ◌===◌ : Text → Text → Bool
[] === [] = true
[] === (d ∷ t) = false
(c ∷ s) === [] = false
(c ∷ s) === (d ∷ t) = (c == d) && (s === t)

pub ===_iff : (s t : Text) → ((s === t) ≡ true) ↔ (s ≡ t)
unfolding ◌===◌
===_iff [] [] = (λ h. refl, λ h. refl)
===_iff [] (d ∷ t) = (λ h. cc, λ h. cc)
===_iff (c ∷ s) [] = (λ h. cc, λ h. cc)
===_iff (c ∷ s) (d ∷ t) = ground (arith, ===_iff s t)

pub ===_refl : (s : Text) → (s === s) ≡ true
===_refl s = (===_iff s s).1 refl

abbrev pub is_empty : Text → Bool
is_empty [] = true
is_empty (c ∷ s) = false

-- White space of `trim` and of `\s`.
unfoldable pub is_space : ℕ → Bool
is_space c =
    (leb 9 c && leb c 13)
    || c == 32
    || c == 160
    || c == 0x1680
    || (leb 0x2000 c && leb c 0x200a)
    || c == 0x2028
    || c == 0x2029
    || c == 0x202f
    || c == 0x205f
    || c == 0x3000
    || c == 0xfeff

unfoldable pub trim_start : Text → Text
trim_start [] = []
trim_start (c ∷ s) = if is_space c then trim_start s else c ∷ s

unfoldable pub trim : Text → Text
unfolding trim_start is_space
trim s = reverse (trim_start (reverse (trim_start s)))

-- `s.replace(/[…]/g, "")` for a class of characters.
unfoldable pub remove : (ℕ → Bool) → Text → Text
remove p [] = []
remove p (c ∷ s) = if p c then remove p s else c ∷ remove p s

-- `s.padEnd(n, fill)` for a one-unit filler.
unfoldable pub pad_end : ℕ → ℕ → Text → Text
pad_end n fill s = s ++ replicate (n - length s) fill

-- `s.slice(-n)`.
abbrev pub last_units : ℕ → Text → Text
last_units n s = drop (length s - n) s

unfoldable pub starts_with : Text → Text → Bool
starts_with s [] = true
starts_with [] (d ∷ t) = false
starts_with (c ∷ s) (d ∷ t) = (c == d) && starts_with s t

unfoldable pub contains : Text → Text → Bool
unfolding starts_with
contains t [] = starts_with [] t
contains t (c ∷ s) = starts_with (c ∷ s) t || contains t s

-- Letters change case within ASCII; the source folds the case of ASCII words only.
unfoldable pub to_lower : Text → Text
to_lower = map (λ c. if leb b'A' c && leb c b'Z' then c + 32 else c)

unfoldable pub to_upper : Text → Text
to_upper = map (λ c. if leb b'a' c && leb c b'z' then c - 32 else c)

abbrev pub is_digit : ℕ → Bool
is_digit c = leb b'0' c && leb c b'9'

-- The truth value of a string that may be null.
unfoldable pub is_set : Option Text → Bool
is_set none = false
is_set (some []) = false
is_set (some (c ∷ t)) = true
