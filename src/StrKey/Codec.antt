-- ===== src/StrKey/Codec.antt =====
-- Addresses written and read back.
use Prim.Native.Nat.{bit_and, bit_or, bit_xor}
use nyx_darkpool.Base.{
  ℕ, zero, suc, ◌+◌, ◌*◌, ◌/◌, ◌%◌, ◌^◌, ◌<◌, ◌≤◌, ◌≡◌, ◌↔◌, refl, sym, ap, ◌∙◌, true, some, [],
  ◌∷◌, ◌++◌, Text, ◌==◌, ==_iff, length, length-append, take, drop, All, arith, Bool-cases,
  Option-cases, inl, inr,
}
use nyx_darkpool.Base.Shift.{bit_or-shift_byte}
use nyx_darkpool.StrKey.{
  Bytes, GoCodecs, KeyError, decoded, refused, version_byte_account_id, u16, crc_bit, crc_bits,
  crc_from, crc16_xmodem, byte_at, stored_checksum, decode_raw, decode, raw_of, encode,
}

-- Numbers that are bytes.
abbrev pub AreBytes : Bytes → Type 0
AreBytes = All (λ b. b < 256)

crc_bit-lt : (crc : ℕ) → crc_bit crc < u16
unfolding crc_bit
crc_bit-lt crc = elim (Bool-cases (bit_and crc 0x8000 == 0)) [
  | inl e ↦ rw e (omega arith)
  | inr e ↦ rw e (omega arith)
]

crc_bits-lt : (rounds crc : ℕ) → crc < u16 → crc_bits rounds crc < u16
crc_bits-lt zero crc h = h
crc_bits-lt (suc rounds) crc h = crc_bits-lt rounds (crc_bit crc) (crc_bit-lt crc)

crc_from-lt : (bytes : Bytes) (crc : ℕ) → crc < u16 → crc_from crc bytes < u16
crc_from-lt [] crc h = h
crc_from-lt (b ∷ bytes) crc h =
    let mixed = bit_xor crc (b * 2 ^ 8 % u16) % u16 in
    crc_from-lt bytes (crc_bits 8 mixed) (crc_bits-lt 8 mixed (omega arith))

pub crc16_xmodem-lt : (bytes : Bytes) → crc16_xmodem bytes < u16
unfolding crc16_xmodem
crc16_xmodem-lt bytes = crc_from-lt bytes 0 (omega arith)

-- The two checksum bytes give the checksum back.
halves : (sum : ℕ) → sum < u16 → bit_or (sum / 2 ^ 8 % 256 * 2 ^ 8 % u16) (sum % 256) ≡ sum
halves sum h =
    let no_wrap : sum / 2 ^ 8 % 256 * 2 ^ 8 % u16 ≡ sum / 2 ^ 8 * 2 ^ 8 = omega (arith, h) in
    rw no_wrap (omega (arith, bit_or-shift_byte (sum / 2 ^ 8) (sum % 256) (omega arith)))

take-all : (xs ys : Bytes) (n : ℕ) → length xs ≡ n → take n (xs ++ ys) ≡ xs
take-all [] ys zero h = refl
take-all [] ys (suc n) h = absurd (omega (arith, h))
take-all (x ∷ xs) ys zero h = absurd (omega (arith, h))
take-all (x ∷ xs) ys (suc n) h = ap (λ l. x ∷ l) (take-all xs ys n (omega (arith, h)))

byte_at-behind :
    (xs ys : Bytes) (n i : ℕ) → length xs ≡ n → byte_at (n + i) (xs ++ ys) ≡ byte_at i ys
byte_at-behind [] ys zero i h = ap (λ j. byte_at j ys) (omega arith)
byte_at-behind [] ys (suc n) i h = absurd (omega (arith, h))
byte_at-behind (x ∷ xs) ys zero i h = absurd (omega (arith, h))
byte_at-behind (x ∷ xs) ys (suc n) i h =
    let next : suc n + i ≡ suc (n + i) = omega arith in
    ap (λ j. byte_at j (x ∷ xs ++ ys)) next ∙ byte_at-behind xs ys n i (omega (arith, h))

byte_at-lt : (i : ℕ) (bs : Bytes) → AreBytes bs → byte_at i bs < 256
byte_at-lt i [] h = omega arith
byte_at-lt zero (b ∷ bs) (hb, h) = hb
byte_at-lt (suc i) (b ∷ bs) (hb, h) = byte_at-lt i bs h

-- A list by its last two items.
last_two :
    (n : ℕ) (xs : Bytes)
    → length xs ≡ n + 2
    → xs ≡ take n xs ++ byte_at n xs ∷ byte_at (suc n) xs ∷ []
last_two zero [] h = absurd (omega (arith, h))
last_two zero (a ∷ []) h = absurd (omega (arith, h))
last_two zero (a ∷ b ∷ []) h = refl
last_two zero (a ∷ b ∷ c ∷ xs) h = absurd (omega (arith, h))
last_two (suc n) [] h = absurd (omega (arith, h))
last_two (suc n) (x ∷ xs) h = ap (λ l. x ∷ l) (last_two n xs (omega (arith, h)))

stored-bytes :
    (raw : Bytes) → AreBytes raw → stored_checksum raw ≡ byte_at 34 raw * 256 + byte_at 33 raw
stored-bytes raw h =
    let lo = byte_at-lt 33 raw h in
    let hi = byte_at-lt 34 raw h in
    let no_wrap : byte_at 34 raw * 2 ^ 8 % u16 ≡ byte_at 34 raw * 2 ^ 8 = omega (arith, hi) in
    rw no_wrap (bit_or-shift_byte (byte_at 34 raw) (byte_at 33 raw) lo)

decode_raw-raw_of : (k : Bytes) → length k ≡ 32 → decode_raw (raw_of k) ≡ decoded k
unfolding decode_raw raw_of
decode_raw-raw_of k h =
    let sum = crc16_xmodem (version_byte_account_id ∷ k) in
    let tail = sum % 256 ∷ sum / 2 ^ 8 % 256 ∷ [] in
    let size : length (k ++ tail) ≡ 34 = omega (arith, length-append k tail, h) in
    let counted : (suc (length (k ++ tail)) == 35) ≡ true =
      (==_iff (suc (length (k ++ tail))) 35).1 (omega (arith, size)) in
    let key : take 32 (k ++ tail) ≡ k = take-all k tail 32 h in
    let lo : byte_at 32 (k ++ tail) ≡ sum % 256 = byte_at-behind k tail 32 0 h in
    let hi : byte_at 33 (k ++ tail) ≡ sum / 2 ^ 8 % 256 = byte_at-behind k tail 32 1 h in
    let same : (sum == sum) ≡ true = (==_iff sum sum).1 refl in
    rw (counted, key, lo, hi, halves sum (crc16_xmodem-lt (version_byte_account_id ∷ k)), same) refl

-- What `decode_raw` lets through.
record IsRaw (raw k : Bytes) : Type 0 where
  size : length raw ≡ 35
  version : byte_at 0 raw ≡ version_byte_account_id
  sum : crc16_xmodem (take 33 raw) ≡ stored_checksum raw
  key : take 32 (drop 1 raw) ≡ k

decode_raw-IsRaw : (raw k : Bytes) → decode_raw raw ≡ decoded k → IsRaw raw k
unfolding decode_raw
decode_raw-IsRaw raw k h = elim (Bool-cases (length raw == 35)) [
  | inr e ↦ absurd (ground arith)
  | inl e ↦ elim (Bool-cases (byte_at 0 raw == version_byte_account_id)) [
    | inr e' ↦ absurd (ground arith)
    | inl e' ↦ elim (Bool-cases (crc16_xmodem (take 33 raw) == stored_checksum raw)) [
      | inr e'' ↦ absurd (ground arith)
      | inl e'' ↦ record {
        size = (==_iff (length raw) 35).0 e;
        version = (==_iff (byte_at 0 raw) version_byte_account_id).0 e';
        sum = (==_iff (crc16_xmodem (take 33 raw)) (stored_checksum raw)).0 e'';
        key = inner _ k (rw (e, e', e'') at h);
      }
    ]
  ]
]
  where
    inner : (a b : Bytes) → decoded a ≡ decoded b → a ≡ b
    inner a b q = cc

take-length : (n : ℕ) (xs : Bytes) → n ≤ length xs → length (take n xs) ≡ n
take-length zero xs h = refl
take-length (suc n) [] h = absurd (omega (arith, h))
take-length (suc n) (x ∷ xs) h = omega (arith, take-length n xs (omega (arith, h)))

raw_of-IsRaw : (raw k : Bytes) → AreBytes raw → IsRaw raw k → (length k ≡ 32) × (raw ≡ raw_of k)
unfolding raw_of
raw_of-IsRaw [] k bytes h = absurd (omega (arith, h.size))
raw_of-IsRaw (v ∷ raw) k (hv, bytes) h =
    let a = byte_at 32 raw in
    let b = byte_at 33 raw in
    let long : length raw ≡ 34 = omega (arith, h.size) in
    let ha : a < 256 = byte_at-lt 32 raw bytes in
    let hb : b < 256 = byte_at-lt 33 raw bytes in
    let start : ◌≡◌ {A = Bytes} (v ∷ take 32 raw) (version_byte_account_id ∷ k) =
      rw (h.version, h.key) refl in
    let sum : crc16_xmodem (version_byte_account_id ∷ k) ≡ b * 256 + a =
      ap crc16_xmodem (sym start) ∙ h.sum ∙ stored-bytes (v ∷ raw) (hv, bytes) in
    let lo : crc16_xmodem (version_byte_account_id ∷ k) % 256 ≡ a = omega (arith, sum, ha) in
    let hi : crc16_xmodem (version_byte_account_id ∷ k) / 256 % 256 ≡ b =
      omega (arith, sum, ha, hb) in
    let whole : raw ≡ k ++ a ∷ b ∷ [] = last_two 32 raw long ∙ ap (λ l. l ++ a ∷ b ∷ []) h.key in
    (
      ap length (sym h.key) ∙ take-length 32 raw (omega (arith, long)),
      rw (lo, hi, h.version) (ap (λ l. version_byte_account_id ∷ l) whole),
    )

module _ (go : GoCodecs)
    (are_bytes : (addr : Text) (raw : Bytes) → go.b32_decode addr ≡ some raw → AreBytes raw) where
  -- An address is decoded to a key exactly when it spells, in base32, the version byte, the key, of 32
  -- bytes, and the checksum of the two with the low byte first.
  pub decode-raw_iff :
      (addr : Text) (k : Bytes)
      → (decode go addr ≡ decoded k) ↔ ((length k ≡ 32) × (go.b32_decode addr ≡ some (raw_of k)))
  unfolding decode
  decode-raw_iff addr k = (
    λ h. elim (Option-cases (go.b32_decode addr)) [
      | inl e ↦ absurd (not_decoded (rw e at h))
      | inr (raw, e) ↦
          let (size, same) =
            raw_of-IsRaw raw k (are_bytes addr raw e) (decode_raw-IsRaw raw k (rw e at h)) in
          (size, e ∙ ap some same)
    ],
    λ (size, e). rw e (decode_raw-raw_of k size),
  )
    where
      not_decoded : refused KeyError.bad_base32 ≡ decoded k → ⊥
      not_decoded q = cc

  -- With a base32 that reads what it has written, every key of 32 bytes has an address, and the address
  -- is decoded to the key.
  pub decode-encode :
      (k : Bytes)
      → go.b32_decode (go.b32_encode (raw_of k)) ≡ some (raw_of k)
      → length k ≡ 32
      → (addr : Text) × (encode go k ≡ some addr) × (decode go addr ≡ decoded k)
  unfolding encode
  decode-encode k reads size =
      let counted : (length k == 32) ≡ true = (==_iff (length k) 32).1 size in
      let addr = go.b32_encode (raw_of k) in
      (addr, rw counted refl, (decode-raw_iff addr k).1 (size, reads))
