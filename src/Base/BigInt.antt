-- ===== src/Base/BigInt.antt =====
-- `BigInt(text)`: signed decimal, unsigned hexadecimal, octal and binary numerals, with white space
-- around them; the empty text is 0.
use Prim.Native.Nat.{ℕ, zero, suc, ◌+◌, ◌-◌, ◌*◌}
use mathlib.Core.Path.{◌≡◌, refl}
use mathlib.Core.Logic.{◌≢◌}
use mathlib.Core.Bool.{true, false, ◌&&◌, ◌||◌}
use mathlib.Core.Option.{Option, none, some}
use mathlib.Core.List.{[], ◌∷◌, ◌++◌, reverse, reverse-cons, reverse-reverse}
use native.Mathlib.Omega.{arith}
use nyx_darkpool.Base.Tests.{leb, ltb, ◌==◌, if◌then◌else◌, Outcome, returned, threw}
use nyx_darkpool.Base.Lists.{all, All, All-append}
use nyx_darkpool.Base.Strings.{Text, codes, is_digit, is_empty, is_space, trim, trim_start}
use nyx_darkpool.Base.Decimal.{
  IsDigit, IsDigits, value, to_decimal, value-to_decimal, to_decimal-IsDigits, to_decimal-ne-nil,
  all_of_IsDigits,
}

-- `negsuc n` is -(n + 1).
pub data ℤ : Type 0 where
  pos : ℕ → ℤ
  negsuc : ℕ → ℤ

abbrev neg : ℕ → ℤ
neg zero = pos 0
neg (suc n) = negsuc n

-- What a character is worth as a digit; 99 stands for no digit.
abbrev pub digit_worth : ℕ → ℕ
digit_worth c =
    if is_digit c
    then c - b'0'
    else if leb b'a' c && leb c b'f'
    then c - b'a' + 10
    else if leb b'A' c && leb c b'F'
    then c - b'A' + 10
    else 99

radix_from : ℕ → ℕ → Text → Option ℕ
radix_from base n [] = some n
radix_from base n (c ∷ s) =
    if ltb (digit_worth c) base then radix_from base (n * base + digit_worth c) s else none

pub syntax_error : Text → Text
syntax_error t = codes "Cannot convert " ++ t ++ codes " to a BigInt"

or_syntax_error : Text → Option ℕ → Outcome ℤ
or_syntax_error t none = threw (syntax_error t)
or_syntax_error t (some n) = returned (pos n)

in_radix : Text → ℕ → Text → Outcome ℤ
unfolding radix_from or_syntax_error
in_radix t base s =
    if is_empty s then threw (syntax_error t) else or_syntax_error t (radix_from base 0 s)

in_decimal : Text → (ℕ → ℤ) → Text → Outcome ℤ
in_decimal t sign s =
    if is_empty s
    then threw (syntax_error t)
    else if all is_digit s
    then returned (sign (value s))
    else threw (syntax_error t)

-- What follows a leading `0`.
behind_zero : Text → Text → Outcome ℤ
unfolding in_radix in_decimal
behind_zero t [] = returned (pos 0)
behind_zero t (p ∷ s) =
    if p == b'x' || p == b'X'
    then in_radix t 16 s
    else if p == b'o' || p == b'O'
    then in_radix t 8 s
    else if p == b'b' || p == b'B'
    then in_radix t 2 s
    else in_decimal t pos (b'0' ∷ p ∷ s)

numeral : Text → Text → Outcome ℤ
unfolding behind_zero in_decimal
numeral t [] = returned (pos 0)
numeral t (c ∷ s) =
    if c == b'-'
    then in_decimal t neg s
    else if c == b'+'
    then in_decimal t pos s
    else if c == b'0'
    then behind_zero t s
    else in_decimal t pos (c ∷ s)

unfoldable pub big_int : Text → Outcome ℤ
unfolding numeral trim
big_int t = numeral t (trim t)

numeral_of_IsDigits : (t s : Text) → IsDigits s → s ≢ [] → numeral t s ≡ returned (pos (value s))
unfolding numeral behind_zero
numeral_of_IsDigits t [] h k = absurd (k refl)
numeral_of_IsDigits t (c ∷ []) h k = ground arith
numeral_of_IsDigits t (c ∷ d ∷ s) h k = ground (arith, all_of_IsDigits s)

trim_start_of_IsDigits : (s : Text) → IsDigits s → trim_start s ≡ s
unfolding trim_start is_space
trim_start_of_IsDigits [] h = refl
trim_start_of_IsDigits (c ∷ s) h = ground arith

IsDigits-reverse : (s : Text) → IsDigits s → IsDigits (reverse s)
IsDigits-reverse [] h = tt
IsDigits-reverse (c ∷ s) h =
    rw (reverse-cons c s)
      (All-append IsDigit (reverse s) (c ∷ []) (IsDigits-reverse s h.1) (h.0, tt))

pub trim_of_IsDigits : (s : Text) → IsDigits s → trim s ≡ s
unfolding trim
trim_of_IsDigits s h =
    rw (trim_start_of_IsDigits s h, trim_start_of_IsDigits (reverse s) (IsDigits-reverse s h))
      (reverse-reverse s)

-- A digit string is read as its value.
pub big_int_of_IsDigits : (s : Text) → IsDigits s → s ≢ [] → big_int s ≡ returned (pos (value s))
unfolding big_int
big_int_of_IsDigits s h k = rw (trim_of_IsDigits s h) (numeral_of_IsDigits s s h k)

-- What `toString` prints is read back.
pub big_int-to_decimal : (n : ℕ) → big_int (to_decimal n) ≡ returned (pos n)
big_int-to_decimal n = rw (
  big_int_of_IsDigits (to_decimal n) (to_decimal-IsDigits n) (to_decimal-ne-nil n),
  value-to_decimal n,
)

-- A lower-case hexadecimal digit.
abbrev pub IsHexDigit : ℕ → Type 0
IsHexDigit c = (ltb (digit_worth c) 16 ≡ true) × (is_space c ≡ false)

radix_from_total : (n : ℕ) (s : Text) → All IsHexDigit s → (m : ℕ) × (radix_from 16 n s ≡ some m)
unfolding radix_from
radix_from_total n [] h = (n, refl)
radix_from_total n (c ∷ s) ((worth, _), h) =
    rw worth (radix_from_total (n * 16 + digit_worth c) s h)

trim_start_of_solid : (s : Text) → All (λ c. is_space c ≡ false) s → trim_start s ≡ s
unfolding trim_start
trim_start_of_solid [] h = refl
trim_start_of_solid (c ∷ s) (solid, h) = rw solid refl

All-reverse : (P : ℕ → Type 0) (s : Text) → All P s → All P (reverse s)
All-reverse P [] h = tt
All-reverse P (c ∷ s) (p, h) =
    rw (reverse-cons c s) (All-append P (reverse s) (c ∷ []) (All-reverse P s h) (p, tt))

trim_of_solid : (s : Text) → All (λ c. is_space c ≡ false) s → trim s ≡ s
unfolding trim
trim_of_solid s h =
    rw
      (
        trim_start_of_solid s h,
        trim_start_of_solid (reverse s) (All-reverse (λ c. is_space c ≡ false) s h),
      )
      (reverse-reverse s)

solid_of_hex : (s : Text) → All IsHexDigit s → All (λ c. is_space c ≡ false) s
solid_of_hex [] h = tt
solid_of_hex (c ∷ s) ((_, solid), h) = (solid, solid_of_hex s h)

in_radix_total :
    (t s : Text) → All IsHexDigit s → s ≢ [] → (m : ℕ) × (in_radix t 16 s ≡ returned (pos m))
unfolding in_radix or_syntax_error
in_radix_total t [] h k = absurd (k refl)
in_radix_total t (c ∷ s) h k = let (m, e) = radix_from_total 0 (c ∷ s) h in (m, rw e refl)

-- Hexadecimal digits behind `0x` are read.
pub big_int_of_hex :
    (s : Text)
    → All IsHexDigit s
    → s ≢ []
    → (m : ℕ) × (big_int (codes "0x" ++ s) ≡ returned (pos m))
unfolding big_int numeral behind_zero is_space
big_int_of_hex s h k =
    let (m, e) = in_radix_total (codes "0x" ++ s) s h k in
    (m, rw (trim_of_solid (codes "0x" ++ s) (refl, (refl, solid_of_hex s h))) e)
