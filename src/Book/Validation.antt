-- ===== src/Book/Validation.antt =====
-- `Payload.Validate` of engine/internal/order/order.go, and the payloads of the orders that the
-- application sends.
use nyx_darkpool.Base.{
  ℕ, ◌<◌, ◌≡◌, ◌≢◌, ◌↔◌, refl, true, Option, none, some, [], ◌∷◌, Text, arith, Bool-cases, inl, inr,
  ap, ◌∙◌,
}
use nyx_darkpool.Base.Decimal.{
  IsDigits, value, to_decimal, value-to_decimal, to_decimal-IsDigits, to_decimal-ne-nil,
  all_of_IsDigits,
}
use nyx_darkpool.Base.BigInt.{ℤ, pos, negsuc}
use nyx_darkpool.Seal.{Hash, Sealed}
use nyx_darkpool.Seal.Opening.{IsOpening, IsProvable}
use nyx_darkpool.Engine.{CreateOrderBody}
use nyx_darkpool.Compose.Sending.{IsOrderOf}
use nyx_darkpool.Book.{
  Payload, set_string, validate, max, check_price, check_volume, check_salt, Invalid, in_range,
}

set_string_of_IsDigits : (s : Text) → IsDigits s → s ≢ [] → set_string s ≡ some (pos (value s))
unfolding set_string
set_string_of_IsDigits [] h k = absurd (k refl)
set_string_of_IsDigits (c ∷ s) h k = ground (arith, all_of_IsDigits (c ∷ s) h)

-- The engine reads what the application prints.
pub set_string-to_decimal : (n : ℕ) → set_string (to_decimal n) ≡ some (pos n)
set_string-to_decimal n = rw (
  set_string_of_IsDigits (to_decimal n) (to_decimal-IsDigits n) (to_decimal-ne-nil n),
  value-to_decimal n,
)

-- The text is a numeral, perhaps signed, of a number that the circuit can hold.
abbrev pub IsAmount : Text → Type 0
IsAmount s = (n : ℕ) × (set_string s ≡ some (pos n)) × (0 < n) × (n < max)

pub record IsWellFormed (p : Payload) : Type 0 where
  pub price : IsAmount p.price
  pub volume : IsAmount p.volume
  pub salt : (n : ℤ) × (set_string p.salt ≡ some n)

validate_admits : (p : Payload) → IsWellFormed p → validate p ≡ none
unfolding validate
validate_admits p h =
    let (price, ep, plo, phi) = h.price in
    let (volume, ev, vlo, vhi) = h.volume in let (salt, es) = h.salt in ground arith

-- A number that a check lets through.
abbrev InRange : Option ℤ → Type 0
InRange o = (n : ℕ) × (o ≡ some (pos n)) × (0 < n) × (n < max)

in_range-pos : (n : ℕ) → in_range (pos n) ≡ true → (0 < n) × (n < max)
in_range-pos n h = ground arith

check_price-none :
    (o : Option ℤ) (rest : Option Invalid) → check_price o rest ≡ none → InRange o × (rest ≡ none)
check_price-none none rest h = cc
check_price-none (some (negsuc n)) rest h = cc
check_price-none (some (pos n)) rest h = elim (Bool-cases (in_range (pos n))) [
  | inl e ↦ let (lo, hi) = in_range-pos n e in ((n, refl, lo, hi), ground arith)
  | inr e ↦ absurd (ground arith)
]

check_volume-none :
    (o : Option ℤ) (rest : Option Invalid) → check_volume o rest ≡ none → InRange o × (rest ≡ none)
check_volume-none none rest h = cc
check_volume-none (some (negsuc n)) rest h = cc
check_volume-none (some (pos n)) rest h = elim (Bool-cases (in_range (pos n))) [
  | inl e ↦ let (lo, hi) = in_range-pos n e in ((n, refl, lo, hi), ground arith)
  | inr e ↦ absurd (ground arith)
]

check_salt-none : (o : Option ℤ) → check_salt o ≡ none → (n : ℤ) × (o ≡ some n)
check_salt-none none h = cc
check_salt-none (some n) h = (n, refl)

validate_sound : (p : Payload) → validate p ≡ none → IsWellFormed p
unfolding validate
validate_sound p h =
    let (price, h') =
      check_price-none (set_string p.price)
        (check_volume (set_string p.volume) (check_salt (set_string p.salt))) h in
    let (volume, h'') =
      check_volume-none (set_string p.volume) (check_salt (set_string p.salt)) h' in
    record { price = price; volume = volume; salt = check_salt-none (set_string p.salt) h'' }

-- The engine's checks let a payload through exactly when price and volume are numerals of positive
-- numbers below 2 ^ 64 and the salt is an integer numeral.
pub validate-none_iff : (p : Payload) → (validate p ≡ none) ↔ IsWellFormed p
validate-none_iff p = (validate_sound p, validate_admits p)

-- The private values of a body, as the engine decodes them.
abbrev pub payload_of : CreateOrderBody → Payload
payload_of b = record { price = b.price; volume = b.volume; salt = b.salt }

-- A seal of numbers that the circuit can prove.
abbrev pub Opens : Hash → Sealed → Type 0
Opens hash s =
    (price volume salt : ℕ) × IsOpening hash s price volume salt × IsProvable price volume salt

IsAmount-to_decimal : (n : ℕ) (s : Text) → s ≡ to_decimal n → 0 < n → n < max → IsAmount s
IsAmount-to_decimal n s e lo hi = (n, ap set_string e ∙ set_string-to_decimal n, lo, hi)

pub order_validates :
    (hash : Hash) (s : Sealed) (b : CreateOrderBody)
    → Opens hash s
    → IsOrderOf s b
    → validate (payload_of b) ≡ none
order_validates hash s b (price, volume, salt, opening, fits) same =
    validate_admits (payload_of b) (record {
      price =
          IsAmount-to_decimal price b.price (same.price ∙ opening.price_text) fits.price_pos
            fits.price_fits;
      volume =
          IsAmount-to_decimal volume b.volume (same.volume ∙ opening.volume_text) fits.volume_pos
            fits.volume_fits;
      salt = (pos salt, ap set_string (same.salt ∙ opening.salt_text) ∙ set_string-to_decimal salt);
    })
