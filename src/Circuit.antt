-- ===== src/Circuit.antt =====
-- circuits/darkpool_match.circom: the constraints of the matching circuit as a relation on its signals;
-- and `InputFor` of engine/internal/prove/prove.go, which gives the prover its signals.
-- circomlib is not in the repository: `Circomlib` is what the circuit takes from it, with what its
-- documentation says of the templates. A signal is a field element, given by its representative.
pub mod Statement
pub mod Agreement
use nyx_darkpool.Base.{
  ℕ, ◌^◌, ◌≤◌, ◌<◌, ◌≡◌, ◌↔◌, Bool, List, [], ◌∷◌, Text, leb, if◌then◌else◌, arith,
}
use nyx_darkpool.Base.BigInt.{pos}
use nyx_darkpool.Seal.{Hash}
use nyx_darkpool.Book.{Order}

abbrev pub bit : Bool → ℕ
bit b = if b then 1 else 0

-- `Num2Bits(n)` can be given its input exactly where that has n bits; `LessEqThan(n)` compares inputs
-- of n bits, and says nothing of others. The bound on n keeps both inside the field.
pub record Circomlib : Type 1 where
  pub Num2Bits : ℕ → ℕ → Type 0
  pub LessEqThan : ℕ → ℕ → ℕ → ℕ → Type 0
  pub Num2Bits_iff : (n x : ℕ) → n ≤ 252 → Num2Bits n x ↔ (x < 2 ^ n)
  pub LessEqThan_iff :
      (n a b out : ℕ)
      → n ≤ 252
      → a < 2 ^ n
      → b < 2 ^ n
      → LessEqThan n a b out ↔ (out ≡ bit (leb a b))

pub record Signals : Type 0 where
  pub maker_hash : ℕ
  pub taker_hash : ℕ
  pub maker_price : ℕ
  pub taker_price : ℕ
  pub maker_volume : ℕ
  pub taker_volume : ℕ
  pub maker_salt : ℕ
  pub taker_salt : ℕ

-- The template: a field for each constraint, in the order of the source. `hash` is Poseidon.
pub record DarkpoolMatch (lib : Circomlib) (hash : Hash) (n_bits : ℕ) (w : Signals) : Type 0 where
  pub rc_maker_price : lib.Num2Bits n_bits w.maker_price
  pub rc_taker_price : lib.Num2Bits n_bits w.taker_price
  pub rc_maker_volume : lib.Num2Bits n_bits w.maker_volume
  pub rc_taker_volume : lib.Num2Bits n_bits w.taker_volume
  pub le_price : lib.LessEqThan n_bits w.maker_price w.taker_price 1
  pub same_volume : w.maker_volume ≡ w.taker_volume
  pub h_maker : w.maker_hash ≡ hash (pos w.maker_price ∷ pos w.maker_volume ∷ pos w.maker_salt ∷ [])
  pub h_taker : w.taker_hash ≡ hash (pos w.taker_price ∷ pos w.taker_volume ∷ pos w.taker_salt ∷ [])

-- `component main`.
abbrev pub Main : Circomlib → Hash → Signals → Type 0
Main lib hash w = DarkpoolMatch lib hash 64 w

pub record Input : Type 0 where
  pub maker_hash : Text
  pub taker_hash : Text
  pub maker_price : Text
  pub taker_price : Text
  pub maker_volume : Text
  pub taker_volume : Text
  pub maker_salt : Text
  pub taker_salt : Text

unfoldable pub input_for : Order → Order → Input
input_for maker taker = record {
  maker_hash = maker.commitment;
  taker_hash = taker.commitment;
  maker_price = maker.payload.price;
  taker_price = taker.payload.price;
  maker_volume = maker.payload.volume;
  taker_volume = taker.payload.volume;
  maker_salt = maker.payload.salt;
  taker_salt = taker.payload.salt;
}

-- The signals that snarkjs reads from the texts of an input, with its reader of a numeral.
abbrev pub signals_of : (Text → ℕ) → Input → Signals
signals_of read i = record {
  maker_hash = read i.maker_hash;
  taker_hash = read i.taker_hash;
  maker_price = read i.maker_price;
  taker_price = read i.taker_price;
  maker_volume = read i.maker_volume;
  taker_volume = read i.taker_volume;
  maker_salt = read i.maker_salt;
  taker_salt = read i.taker_salt;
}
