-- ===== src/Seal/Size.antt =====
-- What `sizeToInt` accepts, and the number that it returns.
use nyx_darkpool.Base.{
  ◌<◌, ◌≡◌, ◌≢◌, ◌↔◌, refl, [], ◌∷◌, ◌++◌, arith, Text, if◌then◌else◌, all, is_digit, Outcome,
  returned, threw, codes, cons-ne-nil, Bool-cases, inl, inr,
}
use nyx_darkpool.Base.Decimal.{IsDigits, value, to_decimal, all_of_IsDigits, IsDigits-of_all}
use nyx_darkpool.Seal.Price.{checked_sound}
use nyx_darkpool.Seal.{
  field_max, clean_size, quoted, size_too_small, size_too_large, checked, is_size_text, size_to_int,
}

-- The test and the range checks, on a cleaned text.
abbrev after_cleaning : Text → Text → Outcome Text
after_cleaning refusal s =
    if is_size_text s then checked size_too_small size_too_large s else threw refusal

size_sound :
    (refusal s r : Text)
    → after_cleaning refusal s ≡ returned r
    → (s ≢ []) × IsDigits s × (0 < value s) × (value s < field_max) × (r ≡ to_decimal (value s))
unfolding is_size_text
size_sound refusal [] r h = cc
size_sound refusal (c ∷ s) r h = elim (Bool-cases (all is_digit (c ∷ s))) [
  | inl good ↦
      let (lo, hi, same) = checked_sound size_too_small size_too_large (c ∷ s) r (rw good at h) in
      (cons-ne-nil c s, IsDigits-of_all (c ∷ s) good, lo, hi, same)
  | inr bad ↦ cc (rw bad at h)
]

size_complete :
    (refusal s : Text)
    → s ≢ []
    → IsDigits s
    → 0 < value s
    → value s < field_max
    → after_cleaning refusal s ≡ returned (to_decimal (value s))
unfolding is_size_text checked
size_complete refusal [] some_digit h lo hi = absurd (some_digit refl)
size_complete refusal (c ∷ s) some_digit h lo hi = rw (all_of_IsDigits (c ∷ s) h) (ground arith)

-- Once commas and white space are gone, a size is accepted exactly when one or more digits are left
-- whose number is above 0 and below 2 ^ 64; the result is the numeral of that number.
pub size_to_int-accepts_iff :
    (human r : Text)
    → (size_to_int human ≡ returned r) ↔ (
        (clean_size human ≢ [])
        × IsDigits (clean_size human)
        × (0 < value (clean_size human))
        × (value (clean_size human) < field_max)
        × (r ≡ to_decimal (value (clean_size human))))
unfolding size_to_int
size_to_int-accepts_iff human r = (
  size_sound (codes "invalid size " ++ quoted human) (clean_size human) r,
  λ (some_digit, digits, lo, hi, same). rw same (
      size_complete (codes "invalid size " ++ quoted human) (clean_size human) some_digit digits lo
        hi),
)
