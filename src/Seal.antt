-- ===== src/Seal.antt =====
-- web/app/_lib/seal.ts: parsing of the form's price and size, the salt, the Poseidon seal.
-- `circomlibjs` is a parameter: `Hash` is `F.toObject(poseidon(inputs))`, and `load` is what the
-- dynamic import comes back with. `bytes` is what `crypto.getRandomValues` has filled in.
pub mod Price
pub mod Size
pub mod Salt
pub mod Memo
pub mod Opening
use Prim.Native.Nat.{bit_or}
use nyx_darkpool.Base.{
  ℕ, zero, suc, ◌+◌, ◌*◌, ◌^◌, ◌-◌, List, [], ◌∷◌, ◌++◌, Bool, true, false, ◌&&◌, ◌||◌, Option,
  none, some, Text, codes, ltb, leb, ◌==◌, if◌then◌else◌, all, any, length, trim, remove, pad_end,
  is_digit, is_space, is_empty, Outcome, returned, threw, ◌>>=◌,
}
use nyx_darkpool.Base.Decimal.{value, to_decimal}
use nyx_darkpool.Base.BigInt.{ℤ, pos, big_int}

abbrev pub price_scale : ℕ
price_scale = 2

abbrev pub field_max : ℕ
field_max = 2 ^ 64

abbrev pub dot : ℕ
dot = b'.'

-- `/^\d+(\.\d+)?$/` read from left to right: at the first digit, behind a digit of the whole part,
-- behind the dot.
whole_rest : Text → Bool
whole_rest [] = true
whole_rest (c ∷ s) =
    if c == dot then (if is_empty s then false else all is_digit s) else is_digit c && whole_rest s

pub is_price_text : Text → Bool
unfolding whole_rest
is_price_text [] = false
is_price_text (c ∷ s) = is_digit c && whole_rest s

-- `s.split(sep)` for a one-unit separator.
prepend : ℕ → List Text → List Text
prepend c [] = (c ∷ []) ∷ []
prepend c (p ∷ ps) = (c ∷ p) ∷ ps

pub split : ℕ → Text → List Text
unfolding prepend
split sep [] = [] ∷ []
split sep (c ∷ s) = let parts = split sep s in if c == sep then [] ∷ parts else prepend c parts

-- `const [whole, frac = ""] = parts`.
pub whole_and_frac : List Text → Text × Text
whole_and_frac [] = ([], [])
whole_and_frac (whole ∷ []) = (whole, [])
whole_and_frac (whole ∷ frac ∷ _) = (whole, frac)

abbrev pub clean_price : Text → Text
clean_price human = remove (λ c. c == b',') (trim human)

abbrev pub quoted : Text → Text
quoted human = codes "\"" ++ human ++ codes "\""

abbrev pub too_fine : Text
too_fine = codes "price supports at most " ++ to_decimal price_scale ++ codes " decimals"

abbrev pub price_too_small : Text
price_too_small = codes "price must be greater than 0"

abbrev pub price_too_large : Text
price_too_large = codes "price is too large"

-- The two range tests and `v.toString()`, on a digit string.
pub checked : Text → Text → Text → Outcome Text
checked small large digits =
    let v = value digits in
    if leb v 0
    then threw small
    else if leb field_max v
    then threw large
    else returned (to_decimal v)

scaled_price : Text × Text → Outcome Text
scaled_price parts =
    if ltb price_scale (length parts.1)
    then threw too_fine
    else checked price_too_small price_too_large (parts.0 ++ pad_end price_scale b'0' parts.1)

unfoldable pub price_to_int : Text → Outcome Text
unfolding is_price_text split whole_and_frac checked scaled_price pad_end
price_to_int human =
    let s = clean_price human in
    if is_price_text s
    then scaled_price (whole_and_frac (split dot s))
    else threw (codes "invalid price " ++ quoted human)

abbrev pub clean_size : Text → Text
clean_size human = remove (λ c. c == b',' || is_space c) (trim human)

abbrev pub size_too_small : Text
size_too_small = codes "size must be greater than 0"

abbrev pub size_too_large : Text
size_too_large = codes "size is too large"

-- `/^\d+$/`.
pub is_size_text : Text → Bool
is_size_text s = if is_empty s then false else all is_digit s

unfoldable pub size_to_int : Text → Outcome Text
unfolding is_size_text checked
size_to_int human =
    let s = clean_size human in
    if is_size_text s
    then checked size_too_small size_too_large s
    else threw (codes "invalid size " ++ quoted human)

-- `for (const b of buf) v = (v << 8n) | BigInt(b)`.
pub salt_from : ℕ → List ℕ → ℕ
salt_from v [] = v
salt_from v (b ∷ buf) = salt_from (bit_or (v * 2 ^ 8) b) buf

unfoldable pub random_salt : List ℕ → Text
unfolding salt_from
random_salt buf = to_decimal (salt_from 0 buf)

pub record Sealed : Type 0 where
  pub price_int : Text
  pub volume_int : Text
  pub salt : Text
  pub commitment : Text
  pub nullifier : Text

abbrev pub Hash : Type 0
Hash = List ℤ → ℕ

-- `poseidonPromise`: the memo is written by the first call, whatever the import comes back with.
unfoldable pub get_poseidon :
    Outcome Hash → Option (Outcome Hash) → Outcome Hash × Option (Outcome Hash)
get_poseidon load none = (load, some load)
get_poseidon load (some promise) = (promise, some promise)

-- The body of `sealInts` behind the awaited instance; `BigInt` throws on a text that is no numeral.
unfoldable pub seal_with : Hash → Text → Text → Text → Outcome Sealed
seal_with hash salt price_int volume_int = do
  price ← big_int price_int
  volume ← big_int volume_int
  salt_value ← big_int salt
  let commitment = to_decimal (hash (price ∷ volume ∷ salt_value ∷ []))
  committed ← big_int commitment
  let nullifier = to_decimal (hash (committed ∷ salt_value ∷ []))
  returned (record {
    price_int = price_int;
    volume_int = volume_int;
    salt = salt;
    commitment = commitment;
    nullifier = nullifier;
  })

abbrev pub Memo : Type 0
Memo = Option (Outcome Hash)

unfoldable pub seal_ints : Outcome Hash → List ℕ → Text → Text → Memo → Outcome Sealed × Memo
unfolding get_poseidon
seal_ints load bytes price_int volume_int memo =
    let salt = random_salt bytes in
    let (promise, memo') = get_poseidon load memo in
    (promise >>= λ hash. seal_with hash salt price_int volume_int, memo')

-- The arguments of `sealInts` are computed first, so a refused price or size loads nothing.
unfoldable pub seal : Outcome Hash → List ℕ → Text → Text → Memo → Outcome Sealed × Memo
seal load bytes price_human size_human memo = elim (price_to_int price_human) [
  | threw e ↦ (threw e, memo)
  | returned price_int ↦ elim (size_to_int size_human) [
    | threw e ↦ (threw e, memo)
    | returned volume_int ↦ seal_ints load bytes price_int volume_int memo
  ]
]
