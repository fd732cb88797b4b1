-- ===== src/Seal/Price.antt =====
-- What `priceToInt` accepts, and the number of cents that it returns.
use nyx_darkpool.Base.{
  ℕ, ◌+◌, ◌-◌, ◌*◌, ◌≤◌, ◌<◌, ◌≡◌, ◌≢◌, refl, [], ◌∷◌, ◌++◌, true, false, ◌↔◌, arith, Text, ltb,
  ◌==◌, if◌then◌else◌, length, pad_end, Outcome, returned, threw, Bool-cases, codes, inl, inr,
  cons-ne-nil, sym, ◌∙◌,
}
use nyx_darkpool.Base.Decimal.{
  IsDigits, value, value_from-append, to_decimal, all_of_IsDigits, IsDigits-of_all,
}
use nyx_darkpool.Seal.{
  price_scale, field_max, dot, whole_rest, is_price_text, prepend, split, whole_and_frac,
  clean_price, quoted, too_fine, price_too_small, price_too_large, checked, scaled_price,
  price_to_int,
}

-- How a whole part and a fraction are written; there is no dot without a fraction.
abbrev pub spelled : Text → Text → Text
spelled whole [] = whole
spelled whole (c ∷ frac) = whole ++ dot ∷ c ∷ frac

-- Hundredths that a fraction of at most two digits stands for.
abbrev pub hundredths : Text → ℕ
hundredths [] = 0
hundredths (c ∷ []) = (c - b'0') * 10
hundredths (c ∷ d ∷ _) = (c - b'0') * 10 + (d - b'0')

abbrev pub cents : Text → Text → ℕ
cents whole frac = value whole * 100 + hundredths frac

-- `s` is a decimal numeral with this whole part and fraction.
pub record IsSpelling (s whole frac : Text) : Type 0 where
  pub text : s ≡ spelled whole frac
  pub some_digit : whole ≢ []
  pub whole_digits : IsDigits whole
  pub frac_digits : IsDigits frac

spelled-cons : (c : ℕ) (whole frac : Text) → c ∷ spelled whole frac ≡ spelled (c ∷ whole) frac
spelled-cons c whole [] = refl
spelled-cons c whole (d ∷ frac) = refl

whole_rest_sound :
    (s : Text)
    → whole_rest s ≡ true
    → (whole frac : Text) × (s ≡ spelled whole frac) × IsDigits whole × IsDigits frac
unfolding whole_rest
whole_rest_sound [] h = ([], [], refl, tt, tt)
whole_rest_sound (c ∷ []) h = (c ∷ [], [], refl, ground arith, tt)
whole_rest_sound (c ∷ d ∷ s) h = elim (Bool-cases (c == dot)) [
  | inl e ↦ ([], d ∷ s, ground arith, tt, IsDigits-of_all (d ∷ s) (ground arith))
  | inr e ↦
      let (whole, frac, same, hw, hf) = whole_rest_sound (d ∷ s) (ground arith) in
      (c ∷ whole, frac, rw same (spelled-cons c whole frac), ground arith, hf)
]

whole_rest_complete :
    (whole frac : Text) → IsDigits whole → IsDigits frac → whole_rest (spelled whole frac) ≡ true
unfolding whole_rest
whole_rest_complete [] [] hw hf = refl
whole_rest_complete [] (c ∷ frac) hw hf = ground (arith, all_of_IsDigits (c ∷ frac) hf)
whole_rest_complete (d ∷ whole) [] hw hf = ground (arith, whole_rest_complete whole [] hw.1 hf)
whole_rest_complete (d ∷ whole) (c ∷ frac) hw hf =
    ground (arith, whole_rest_complete whole (c ∷ frac) hw.1 hf)

split_digits : (s : Text) → IsDigits s → split dot s ≡ s ∷ []
unfolding split prepend
split_digits [] h = refl
split_digits (c ∷ s) h = ground (arith, split_digits s h.1)

split_spelled :
    (whole frac : Text) (c : ℕ)
    → IsDigits whole
    → IsDigits (c ∷ frac)
    → split dot (whole ++ dot ∷ c ∷ frac) ≡ whole ∷ (c ∷ frac) ∷ []
unfolding split prepend
split_spelled [] frac c hw hf = ground (arith, split_digits (c ∷ frac) hf)
split_spelled (d ∷ whole) frac c hw hf = ground (arith, split_spelled whole frac c hw.1 hf)

parts_of_spelled :
    (whole frac : Text)
    → IsDigits whole
    → IsDigits frac
    → whole_and_frac (split dot (spelled whole frac)) ≡ (whole, frac)
unfolding whole_and_frac
parts_of_spelled whole [] hw hf = rw (split_digits whole hw)
parts_of_spelled whole (c ∷ frac) hw hf = rw (split_spelled whole frac c hw hf)

-- Padding the fraction to two digits scales by 100.
value-scaled :
    (whole frac : Text)
    → length frac ≤ 2
    → value (whole ++ pad_end price_scale b'0' frac) ≡ cents whole frac
unfolding pad_end
value-scaled whole [] h = omega (arith, value_from-append 0 whole (b'0' ∷ b'0' ∷ []))
value-scaled whole (c ∷ []) h = omega (arith, value_from-append 0 whole (c ∷ b'0' ∷ []))
value-scaled whole (c ∷ d ∷ []) h = omega (arith, value_from-append 0 whole (c ∷ d ∷ []))
value-scaled whole (c ∷ d ∷ e ∷ s) h = absurd (omega arith)

-- The grammar of the form's price is that of a decimal numeral.
is_price_text_sound :
    (s : Text) → is_price_text s ≡ true → (whole frac : Text) × IsSpelling s whole frac
unfolding is_price_text
is_price_text_sound [] h = cc
is_price_text_sound (c ∷ s) h =
    let (whole, frac, same, hw, hf) = whole_rest_sound s (ground arith) in
    (
      c ∷ whole,
      frac,
      record {
        text = rw same (spelled-cons c whole frac);
        some_digit = cons-ne-nil c whole;
        whole_digits = ground arith;
        frac_digits = hf;
      },
    )

is_price_text_complete : (s whole frac : Text) → IsSpelling s whole frac → is_price_text s ≡ true
unfolding is_price_text
is_price_text_complete s [] frac h = absurd (h.some_digit refl)
is_price_text_complete s (c ∷ whole) frac h =
    rw (h.text, ← spelled-cons c whole frac)
      (ground
        (arith, h.whole_digits.0, whole_rest_complete whole frac h.whole_digits.1 h.frac_digits))

-- On a decimal numeral the code goes on with its whole part and its fraction.
price_to_int_of_spelling :
    (human whole frac : Text)
    → IsSpelling (clean_price human) whole frac
    → price_to_int human ≡ scaled_price (whole, frac)
unfolding price_to_int
price_to_int_of_spelling human whole frac h = rw (
  is_price_text_complete (clean_price human) whole frac h,
  h.text,
  parts_of_spelled whole frac h.whole_digits h.frac_digits,
)

pub checked_sound :
    (small large digits r : Text)
    → checked small large digits ≡ returned r
    → (0 < value digits) × (value digits < field_max) × (r ≡ to_decimal (value digits))
unfolding checked
checked_sound small large digits r h = ground arith

price_to_int_of_bad :
    (human : Text)
    → is_price_text (clean_price human) ≡ false
    → price_to_int human ≡ threw (codes "invalid price " ++ quoted human)
unfolding price_to_int
price_to_int_of_bad human bad = rw bad

scaled_price_sound :
    (whole frac r : Text)
    → scaled_price (whole, frac) ≡ returned r
    → (length frac ≤ price_scale)
      × (0 < cents whole frac)
      × (cents whole frac < field_max)
      × (r ≡ to_decimal (cents whole frac))
unfolding scaled_price
scaled_price_sound whole frac r h = ground (
  arith,
  value-scaled whole frac,
  checked_sound price_too_small price_too_large (whole ++ pad_end price_scale b'0' frac) r,
)

-- A price that is accepted is, but for commas and the white space around it, a decimal numeral with
-- at most two digits behind the dot; the result is the numeral of its cents, a number above 0 and
-- below 2 ^ 64.
pub price_to_int_sound :
    (human r : Text)
    → price_to_int human ≡ returned r
    → (whole frac : Text) × IsSpelling (clean_price human) whole frac
      × (length frac ≤ price_scale)
      × (0 < cents whole frac)
      × (cents whole frac < field_max)
      × (r ≡ to_decimal (cents whole frac))
price_to_int_sound human r h = elim (Bool-cases (is_price_text (clean_price human))) [
  | inl good ↦
      let (whole, frac, spelling) = is_price_text_sound (clean_price human) good in
      let (short, lo, hi, same) =
        scaled_price_sound whole frac r
          (sym (price_to_int_of_spelling human whole frac spelling) ∙ h) in
      (whole, frac, spelling, short, lo, hi, same)
  | inr bad ↦ cc (price_to_int_of_bad human bad)
]

-- What becomes of a numeral, told from its cents and the number of its decimals.
abbrev pub price_verdict : Text → Text → Outcome Text
price_verdict whole frac =
    if ltb price_scale (length frac)
    then threw too_fine
    else if cents whole frac == 0
    then threw price_too_small
    else if ltb (cents whole frac) field_max
    then returned (to_decimal (cents whole frac))
    else threw price_too_large

scaled_price-verdict : (whole frac : Text) → scaled_price (whole, frac) ≡ price_verdict whole frac
unfolding scaled_price checked
scaled_price-verdict whole frac = ground (arith, value-scaled whole frac)

-- On a decimal numeral every branch is told by its cents: more than two decimals are refused first,
-- then 0, then 2 ^ 64 cents and more; any other is returned as the numeral of its cents.
pub price_to_int-verdict :
    (human whole frac : Text)
    → IsSpelling (clean_price human) whole frac
    → price_to_int human ≡ price_verdict whole frac
price_to_int-verdict human whole frac spelling =
    price_to_int_of_spelling human whole frac spelling ∙ scaled_price-verdict whole frac

verdict-ne-invalid :
    (whole frac quote : Text) → price_verdict whole frac ≢ threw (codes "invalid price " ++ quote)
verdict-ne-invalid whole frac quote = ground arith

-- The text is quoted back as invalid exactly when, cleaned, it is no decimal numeral.
pub price_to_int-invalid_iff :
    (human : Text)
    → (price_to_int human ≡ threw (codes "invalid price " ++ quoted human))
      ↔ ((whole frac : Text) → ¬ IsSpelling (clean_price human) whole frac)
price_to_int-invalid_iff human = (
  λ invalid whole frac spelling.
      verdict-ne-invalid whole frac (quoted human)
        (sym (price_to_int-verdict human whole frac spelling) ∙ invalid),
  λ none_fits. elim (Bool-cases (is_price_text (clean_price human))) [
    | inl good ↦
        let (whole, frac, spelling) = is_price_text_sound (clean_price human) good in
        absurd (none_fits whole frac spelling)
    | inr bad ↦ price_to_int_of_bad human bad
  ],
)
