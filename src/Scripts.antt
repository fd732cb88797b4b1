-- ===== src/Scripts.antt =====
-- The scripts that make orders: circuits/scripts/gen_input.js, a witness input for the circuit, and
-- scripts/seed_demo_orders.js, a crossing pair for a running engine. `hash` is circomlibjs's Poseidon,
-- `bytes` what `crypto.randomBytes(8)` gives. The requests of the seeding script are what it would post.
pub mod Input
pub mod Pair
use nyx_darkpool.Base.{
  ℕ, ◌+◌, ◌≡◌, Bool, true, false, Option, none, some, List, [], ◌∷◌, ◌++◌, Text, codes, ◌===◌,
  is_empty, if◌then◌else◌, Outcome, returned, threw, ◌>>=◌,
}
use nyx_darkpool.Base.Decimal.{to_decimal}
use nyx_darkpool.Base.BigInt.{ℤ, pos, negsuc, big_int}
use nyx_darkpool.Seal.{Hash}
use nyx_darkpool.Engine.{CreateOrderBody}
use nyx_darkpool.Book.{Order}
use nyx_darkpool.Circuit as Circuit
use nyx_darkpool.ProofBytes.{Bytes, hex_of}

-- One side of a sample order book.
pub record Sample : Type 0 where
  pub price : ℕ
  pub volume : ℕ
  pub salt : ℕ

abbrev sample : ℕ → ℕ → ℕ → Sample
sample price volume salt = record { price = price; volume = volume; salt = salt }

-- `MODES[mode]`, of its own keys.
unfoldable pub book_of : Text → Option (Sample × Sample)
book_of mode =
    if mode === codes "valid"
    then some (sample 100 50 111111, sample 105 50 222222)
    else if mode === codes "bad-cross"
    then some (sample 110 50 111111, sample 105 50 222222)
    else if mode === codes "bad-volume"
    then some (sample 100 50 111111, sample 105 60 222222)
    else none

-- `process.argv[2] || "valid"`.
abbrev pub mode_of : Option Text → Text
mode_of none = codes "valid"
mode_of (some s) = if is_empty s then codes "valid" else s

abbrev commit : Hash → Sample → Text
commit hash o = to_decimal (hash (pos o.price ∷ pos o.volume ∷ pos o.salt ∷ []))

abbrev pub input_of : Hash → Sample × Sample → Circuit.Input
input_of hash (maker, taker) = record {
  maker_hash = commit hash maker;
  taker_hash = commit hash taker;
  maker_price = to_decimal maker.price;
  taker_price = to_decimal taker.price;
  maker_volume = to_decimal maker.volume;
  taker_volume = to_decimal taker.volume;
  maker_salt = to_decimal maker.salt;
  taker_salt = to_decimal taker.salt;
}

abbrev pub unknown_mode : Text → Text
unknown_mode mode =
    codes "gen_input: unknown mode \""
    ++ mode
    ++ codes "\" (expected: valid, bad-cross, bad-volume)"

abbrev pub input_of_book : Hash → Text → Option (Sample × Sample) → Outcome Circuit.Input
input_of_book hash mode none = threw (unknown_mode mode)
input_of_book hash mode (some book) = returned (input_of hash book)

-- `main` of gen_input.js: the object that it prints, or the message with which it exits.
unfoldable pub gen_input : Hash → Option Text → Outcome Circuit.Input
gen_input hash argv = input_of_book hash (mode_of argv) (book_of (mode_of argv))

abbrev to_text : ℤ → Text
to_text (pos n) = to_decimal n
to_text (negsuc n) = codes "-" ++ to_decimal (n + 1)

-- `randomSalt` of seed_demo_orders.js.
unfoldable pub random_salt : Bytes → Outcome Text
random_salt bytes = big_int (codes "0x" ++ hex_of bytes) >>= λ n. returned (to_text n)

-- `mkOrder`, with the pair of the environment.
unfoldable pub mk_order : Hash → Text → Text → ℕ → ℕ → Bytes → Outcome CreateOrderBody
mk_order hash asset_pair side price volume bytes = do
  salt ← random_salt bytes
  salt_value ← big_int salt
  let commitment = to_decimal (hash (pos price ∷ pos volume ∷ salt_value ∷ []))
  committed ← big_int commitment
  returned (record {
    pubkey = codes "GSEED-DEMO-DESK";
    asset_pair = asset_pair;
    side = side;
    price = to_decimal price;
    volume = to_decimal volume;
    salt = salt;
    commitment = commitment;
    nullifier = to_decimal (hash (committed ∷ salt_value ∷ []));
    signature = none;
  })

-- `process.env.NYX_DEMO_PAIR || …`.
abbrev pub pair_of : Option Text → Text
pair_of none = codes "US-TBILL-26/USDC"
pair_of (some s) = if is_empty s then codes "US-TBILL-26/USDC" else s

-- The two orders of `main`.
unfoldable pub seed_orders :
    Hash → Option Text → Bytes → Bytes → Outcome (CreateOrderBody × CreateOrderBody)
seed_orders hash env bytes bytes' = do
  ask ← mk_order hash (pair_of env) (codes "ask") 100 50 bytes
  bid ← mk_order hash (pair_of env) (codes "bid") 105 50 bytes'
  returned (ask, bid)
