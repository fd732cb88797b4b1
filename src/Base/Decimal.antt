-- ===== src/Base/Decimal.antt =====
-- Decimal numerals: the value of a digit string, and `BigInt.prototype.toString`.
use Prim.Native.Nat.{ℕ, zero, suc, ◌+◌, ◌-◌, ◌*◌, ◌/◌, ◌%◌, ◌≤◌, ◌<◌}
use mathlib.Core.Path.{◌≡◌, refl}
use mathlib.Core.Logic.{◌≢◌}
use mathlib.Core.Bool.{true, false}
use mathlib.Core.List.{[], ◌∷◌, ◌++◌}
use native.Mathlib.Omega.{arith}
use nyx_darkpool.Base.Tests.{ltb, if◌then◌else◌}
use nyx_darkpool.Base.Lists.{All, all}
use nyx_darkpool.Base.Strings.{Text, is_digit, is_empty}

abbrev pub IsDigit : ℕ → Type 0
IsDigit c = (b'0' ≤ c) × (c ≤ b'9')

abbrev pub IsDigits : Text → Type 0
IsDigits = All IsDigit

-- The number that digits spell behind `n`.
abbrev pub value_from : ℕ → Text → ℕ
value_from n [] = n
value_from n (c ∷ s) = value_from (n * 10 + (c - b'0')) s

abbrev pub value : Text → ℕ
value = value_from 0

emit : ℕ → ℕ → Text → Text
emit zero n out = out
emit (suc fuel) n out =
    let rest = emit fuel (n / 10) ((b'0' + n % 10) ∷ out) in
    if ltb n 10 then (b'0' + n) ∷ out else rest

-- The decimal numeral of a number, with no leading zero. A number has fewer digits than fuel.
unfoldable pub to_decimal : ℕ → Text
unfolding emit
to_decimal n = emit (suc n) n []

value_from-emit : (fuel n : ℕ) (out : Text) → n < fuel → value (emit fuel n out) ≡ value_from n out
unfolding emit
value_from-emit zero n out h = absurd (omega arith)
value_from-emit (suc fuel) n out h =
    ground (arith, value_from-emit fuel (n / 10) ((b'0' + n % 10) ∷ out))

pub value-to_decimal : (n : ℕ) → value (to_decimal n) ≡ n
unfolding to_decimal
value-to_decimal n = value_from-emit (suc n) n [] (omega arith)

emit-IsDigits : (fuel n : ℕ) (out : Text) → IsDigits out → IsDigits (emit fuel n out)
unfolding emit
emit-IsDigits zero n out h = h
emit-IsDigits (suc fuel) n out h =
    ground (arith, emit-IsDigits fuel (n / 10) ((b'0' + n % 10) ∷ out))

pub to_decimal-IsDigits : (n : ℕ) → IsDigits (to_decimal n)
unfolding to_decimal
to_decimal-IsDigits n = emit-IsDigits (suc n) n [] tt

emit-ne-nil : (fuel n : ℕ) (out : Text) → out ≢ [] → emit fuel n out ≢ []
unfolding emit
emit-ne-nil zero n out h = h
emit-ne-nil (suc fuel) n out h = ground (arith, emit-ne-nil fuel (n / 10) ((b'0' + n % 10) ∷ out))

pub to_decimal-ne-nil : (n : ℕ) → to_decimal n ≢ []
unfolding to_decimal emit
to_decimal-ne-nil n = ground (arith, emit-ne-nil n (n / 10) ((b'0' + n % 10) ∷ []))

pub value_from-append : (n : ℕ) (s t : Text) → value_from n (s ++ t) ≡ value_from (value_from n s) t
value_from-append n [] t = refl
value_from-append n (c ∷ s) t = value_from-append (n * 10 + (c - b'0')) s t

pub all_of_IsDigits : (s : Text) → IsDigits s → all is_digit s ≡ true
all_of_IsDigits [] h = refl
all_of_IsDigits (c ∷ s) h = ground (arith, all_of_IsDigits s)

pub IsDigits-of_all : (s : Text) → all is_digit s ≡ true → IsDigits s
IsDigits-of_all [] h = tt
IsDigits-of_all (c ∷ s) h = ground (arith, IsDigits-of_all s)

-- Numbers are told apart by their numerals.
pub to_decimal_inj : (m n : ℕ) → to_decimal m ≡ to_decimal n → m ≡ n
to_decimal_inj m n e = ground (arith, value-to_decimal m, value-to_decimal n)

pub numeral-nonempty : (n : ℕ) → is_empty (to_decimal n) ≡ false
numeral-nonempty n = go (to_decimal n) (to_decimal-ne-nil n)
  where
    go : (t : Text) → t ≢ [] → is_empty t ≡ false
    go [] h = absurd (h refl)
    go (c ∷ t) h = refl
