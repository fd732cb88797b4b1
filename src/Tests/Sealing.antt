-- ===== src/Tests/Sealing.antt =====
-- Runs of web/app/_lib/seal.ts.
use nyx_darkpool.Base.{
  ℕ, ◌+◌, ◌<◌, ◌≡◌, ◌≢◌, ◌↔◌, refl, List, [], ◌∷◌, ◌++◌, none, some, Text, codes, returned, threw,
  length, arith, remove, cons-ne-nil, ◌≤◌, trim, is_space,
}
use nyx_darkpool.Base.Decimal.{to_decimal, value, IsDigits}
use nyx_darkpool.Seal.{
  price_scale, field_max, clean_price, clean_size, price_to_int, size_to_int, Hash, Sealed, seal,
  seal_ints, random_salt, get_poseidon, salt_from, quoted,
}
use nyx_darkpool.Seal.Price.{
  IsSpelling, cents, price_verdict, price_to_int_sound, price_to_int-verdict,
  price_to_int-invalid_iff,
}
use nyx_darkpool.Seal.Size.{size_to_int-accepts_iff}
use nyx_darkpool.Seal.Salt.{random_salt-lt, random_salt_inj}
use nyx_darkpool.Seal.Memo.{seal_ints-failed_load}
use nyx_darkpool.Seal.Opening.{IsOpening, IsProvable, seal_ints-IsOpening, seal_sound}

abbrev price_text : Text
price_text = codes "1,099.8"

price_run : price_to_int price_text ≡ returned (codes "109980")
unfolding price_to_int remove trim is_space to_decimal
price_run = refl

size_run : size_to_int (codes "5,000,000") ≡ returned (codes "5000000")
unfolding size_to_int remove trim is_space to_decimal
size_run = refl

too_fine_run : price_to_int (codes "99.845") ≡ threw (codes "price supports at most 2 decimals")
unfolding price_to_int remove trim is_space to_decimal
too_fine_run = refl

bad_price_run : price_to_int (codes "1.") ≡ threw (codes "invalid price \"1.\"")
unfolding price_to_int remove trim is_space to_decimal
bad_price_run = refl

zero_size_run : size_to_int (codes " 0 ") ≡ threw (codes "size must be greater than 0")
unfolding size_to_int remove trim is_space to_decimal
zero_size_run = refl

price_to_int_sound_case :
    (whole frac : Text) × IsSpelling (clean_price price_text) whole frac
    × (length frac ≤ price_scale)
    × (0 < cents whole frac)
    × (cents whole frac < field_max)
    × (codes "109980" ≡ to_decimal (cents whole frac))
price_to_int_sound_case = price_to_int_sound price_text (codes "109980") price_run

price_to_int-verdict_case : price_to_int price_text ≡ price_verdict (codes "1099") (codes "8")
unfolding remove trim is_space
price_to_int-verdict_case = price_to_int-verdict price_text (codes "1099") (codes "8") (record {
  text = refl;
  some_digit = cons-ne-nil _ _;
  whole_digits = omega arith;
  frac_digits = omega arith;
})

price_to_int-invalid_iff_case :
    (price_to_int (codes "1.") ≡ threw (codes "invalid price " ++ quoted (codes "1.")))
    ↔ ((whole frac : Text) → ¬ IsSpelling (clean_price (codes "1.")) whole frac)
price_to_int-invalid_iff_case = price_to_int-invalid_iff (codes "1.")

size_to_int-accepts_iff_case : (size_to_int (codes "5,000,000") ≡ returned (codes "5000000")) ↔ (
    (clean_size (codes "5,000,000") ≢ [])
    × IsDigits (clean_size (codes "5,000,000"))
    × (0 < value (clean_size (codes "5,000,000")))
    × (value (clean_size (codes "5,000,000")) < field_max)
    × (codes "5000000" ≡ to_decimal (value (clean_size (codes "5,000,000")))))
size_to_int-accepts_iff_case = size_to_int-accepts_iff (codes "5,000,000") (codes "5000000")

abbrev bytes : List ℕ
bytes = 1 ∷ 2 ∷ 3 ∷ 4 ∷ 5 ∷ 6 ∷ 7 ∷ 255 ∷ []

random_salt-lt_case : value (random_salt bytes) < field_max
random_salt-lt_case = random_salt-lt bytes (omega arith) refl

random_salt_inj_case : bytes ≡ bytes
random_salt_inj_case = random_salt_inj bytes bytes (omega arith) (omega arith) refl refl refl

-- A stand-in for the hash, and for an import that has failed.
abbrev hash : Hash
hash inputs = 1000 + length inputs

abbrev offline : Text
offline = codes "ChunkLoadError"

seal_ints-failed_load_example :
    seal_ints
      (returned hash)
      bytes
      (codes "9984")
      (codes "5")
      (seal_ints (threw offline) bytes (codes "9984") (codes "5") none).1
    ≡ (threw offline, some (threw offline))
seal_ints-failed_load_example =
    seal_ints-failed_load offline (threw offline) (returned hash) bytes bytes (codes "9984")
      (codes "5") (codes "9984") (codes "5") refl

seal_ints-IsOpening_case :
    (s : Sealed) × ((seal_ints (returned hash) bytes (to_decimal 109980) (to_decimal 5) none).0
      ≡ returned s)
    × IsOpening hash s 109980 5 (salt_from 0 bytes)
unfolding get_poseidon
seal_ints-IsOpening_case = seal_ints-IsOpening (returned hash) bytes none hash refl 109980 5

seal_sound_example :
    (s : Sealed) × (price volume : ℕ) × ((seal
        (returned hash)
        bytes
        price_text
        (codes "5,000,000")
        none).0
      ≡ returned s)
    × (codes "109980" ≡ to_decimal price)
    × (codes "5000000" ≡ to_decimal volume)
    × IsOpening hash s price volume (salt_from 0 bytes)
    × IsProvable price volume (salt_from 0 bytes)
unfolding get_poseidon
seal_sound_example =
    seal_sound (returned hash) bytes none hash refl price_text (codes "5,000,000") (codes "109980")
      (codes "5000000") (omega arith) refl price_run size_run
