-- ===== src/Seal/Opening.antt =====
-- What a sealed order commits to.
use nyx_darkpool.Base.{ℕ, ◌<◌, ◌≡◌, refl, List, [], ◌∷◌, Text, Outcome, returned, length}
use nyx_darkpool.Base.Decimal.{to_decimal, value, value-to_decimal}
use nyx_darkpool.Base.BigInt.{pos, big_int-to_decimal}
use nyx_darkpool.Seal.Price.{price_to_int_sound, cents}
use nyx_darkpool.Seal.Size.{size_to_int-accepts_iff}
use nyx_darkpool.Seal.Salt.{AreBytes, random_salt-lt}
use nyx_darkpool.Seal.{
  field_max, Hash, Memo, Sealed, get_poseidon, seal_with, seal_ints, price_to_int, size_to_int,
  clean_size, random_salt, salt_from, seal,
}

-- The sealed texts are numerals of these three numbers, which the circuit's range checks admit; the
-- commitment is their hash, and the nullifier the hash of commitment and salt.
pub record IsOpening (hash : Hash) (s : Sealed) (price volume salt : ℕ) : Type 0 where
  pub price_text : s.price_int ≡ to_decimal price
  pub volume_text : s.volume_int ≡ to_decimal volume
  pub salt_text : s.salt ≡ to_decimal salt
  pub committed : s.commitment ≡ to_decimal (hash (pos price ∷ pos volume ∷ pos salt ∷ []))
  pub nullified :
      s.nullifier
      ≡ to_decimal (hash (pos (hash (pos price ∷ pos volume ∷ pos salt ∷ [])) ∷ pos salt ∷ []))

pub record IsProvable (price volume salt : ℕ) : Type 0 where
  pub price_pos : 0 < price
  pub price_fits : price < field_max
  pub volume_pos : 0 < volume
  pub volume_fits : volume < field_max
  pub salt_fits : salt < field_max

seal_with_numerals :
    (hash : Hash) (price volume salt : ℕ)
    → (s : Sealed) × (seal_with hash (to_decimal salt) (to_decimal price) (to_decimal volume)
        ≡ returned s)
      × IsOpening hash s price volume salt
unfolding seal_with
seal_with_numerals hash price volume salt = (
  record {
    price_int = to_decimal price;
    volume_int = to_decimal volume;
    salt = to_decimal salt;
    commitment = to_decimal (hash (pos price ∷ pos volume ∷ pos salt ∷ []));
    nullifier =
        to_decimal (hash (pos (hash (pos price ∷ pos volume ∷ pos salt ∷ [])) ∷ pos salt ∷ []));
  },
  simp big_int-to_decimal,
  record {
    price_text = refl;
    volume_text = refl;
    salt_text = refl;
    committed = refl;
    nullified = refl;
  },
)

seal_of_accepted :
    (load : Outcome Hash) (bytes : List ℕ) (memo : Memo)
    (price_human size_human price_int volume_int : Text)
    → price_to_int price_human ≡ returned price_int
    → size_to_int size_human ≡ returned volume_int
    → seal load bytes price_human size_human memo ≡ seal_ints load bytes price_int volume_int memo
unfolding seal
seal_of_accepted load bytes memo price_human size_human price_int volume_int hp hv =
    rw (hp, hv, seal)

random_salt-value :
    (bytes : List ℕ)
    → AreBytes bytes
    → length bytes ≡ 8
    → value (to_decimal (salt_from 0 bytes)) < field_max
unfolding random_salt
random_salt-value bytes are_bytes eight = random_salt-lt bytes are_bytes eight

module _ (load : Outcome Hash) (bytes : List ℕ) (memo : Memo) (hash : Hash)
    (loaded : (get_poseidon load memo).0 ≡ returned hash) where
  -- Where the hash has loaded, integers that are numerals are always sealed, and the seal opens to
  -- them.
  pub seal_ints-IsOpening :
      (price volume : ℕ)
      → (s : Sealed) × ((seal_ints load bytes (to_decimal price) (to_decimal volume) memo).0
          ≡ returned s)
        × IsOpening hash s price volume (salt_from 0 bytes)
  unfolding seal_ints random_salt
  seal_ints-IsOpening price volume =
      let (s, sealed, opening) = seal_with_numerals hash price volume (salt_from 0 bytes) in
      (s, rw loaded sealed, opening)

  -- Where the hash has loaded and eight random bytes were drawn, an accepted price and size are
  -- sealed to a commitment of numbers that the circuit can prove.
  pub seal_sound :
      (price_human size_human price_int volume_int : Text)
      → AreBytes bytes
      → length bytes ≡ 8
      → price_to_int price_human ≡ returned price_int
      → size_to_int size_human ≡ returned volume_int
      → (s : Sealed) × (price volume : ℕ) × ((seal load bytes price_human size_human memo).0
          ≡ returned s)
        × (price_int ≡ to_decimal price)
        × (volume_int ≡ to_decimal volume)
        × IsOpening hash s price volume (salt_from 0 bytes)
        × IsProvable price volume (salt_from 0 bytes)
  seal_sound price_human size_human price_int volume_int are_bytes eight hp hv =
      let (whole, frac, _, _, plo, phi, p_text) = price_to_int_sound price_human price_int hp in
      let (_, _, vlo, vhi, v_text) = (size_to_int-accepts_iff size_human volume_int).0 hv in
      let price : ℕ = cents whole frac in
      let volume : ℕ = value (clean_size size_human) in
      let (s, sealed, opening) = seal_ints-IsOpening price volume in
      let on_texts =
        seal_of_accepted load bytes memo price_human size_human price_int volume_int hp hv in
      (
        s,
        price,
        volume,
        rw (on_texts, p_text, v_text) sealed,
        p_text,
        v_text,
        opening,
        record {
          price_pos = plo;
          price_fits = phi;
          volume_pos = vlo;
          volume_fits = vhi;
          salt_fits =
              rw (value-to_decimal (salt_from 0 bytes)) at
                (random_salt-value bytes are_bytes eight);
        },
      )
