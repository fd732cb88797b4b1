-- ===== src/StrKey.antt =====
-- engine/internal/stellarkey/stellarkey.go: the addresses of Stellar accounts, and the check of an
-- order's signature. Go's base32, base64 and ed25519 are a record of functions; bytes are numbers below
-- 256, and a uint16 keeps its wrap-around written out.
pub mod Codec
pub mod Signed
use Prim.Native.Nat.{bit_and, bit_or, bit_xor}
use nyx_darkpool.Base.{
  ℕ, zero, suc, ◌*◌, ◌/◌, ◌%◌, ◌^◌, Bool, true, false, Option, none, some, List, [], ◌∷◌, ◌++◌,
  Text, ◌==◌, if◌then◌else◌, length, take, drop,
}

abbrev pub Bytes : Type 0
Bytes = List ℕ

-- What the standard library does.
pub record GoCodecs : Type 0 where
  pub b32_decode : Text → Option Bytes
  pub b32_encode : Bytes → Text
  pub b64_decode : Text → Option Bytes
  pub verify : Bytes → Text → Bytes → Bool

pub data KeyError : Type 0 where
  bad_base32 bad_length bad_version bad_checksum bad_base64 bad_signature_length not_verified :
      KeyError

pub data Decoded : Type 0 where
  decoded : Bytes → Decoded
  refused : KeyError → Decoded

abbrev pub version_byte_account_id : ℕ
version_byte_account_id = 6 * 2 ^ 3

abbrev pub u16 : ℕ
u16 = 2 ^ 16

-- One round of the inner loop.
unfoldable pub crc_bit : ℕ → ℕ
crc_bit crc =
    if bit_and crc 0x8000 == 0 then crc * 2 % u16 else bit_xor (crc * 2 % u16) 0x1021 % u16

abbrev pub crc_bits : ℕ → ℕ → ℕ
crc_bits zero crc = crc
crc_bits (suc rounds) crc = crc_bits rounds (crc_bit crc)

abbrev pub crc_from : ℕ → Bytes → ℕ
crc_from crc [] = crc
crc_from crc (b ∷ bytes) = crc_from (crc_bits 8 (bit_xor crc (b * 2 ^ 8 % u16) % u16)) bytes

unfoldable pub crc16_xmodem : Bytes → ℕ
crc16_xmodem bytes = crc_from 0 bytes

-- `raw[i]`; the length is checked before.
abbrev pub byte_at : ℕ → Bytes → ℕ
byte_at i [] = 0
byte_at zero (b ∷ bs) = b
byte_at (suc i) (b ∷ bs) = byte_at i bs

-- `uint16(raw[33]) | uint16(raw[34])<<8`.
abbrev pub stored_checksum : Bytes → ℕ
stored_checksum raw = bit_or (byte_at 34 raw * 2 ^ 8 % u16) (byte_at 33 raw)

unfoldable pub decode_raw : Bytes → Decoded
decode_raw raw =
    if length raw == 35
    then if byte_at 0 raw == version_byte_account_id
      then if crc16_xmodem (take 33 raw) == stored_checksum raw
        then decoded (take 32 (drop 1 raw))
        else refused bad_checksum
      else refused bad_version
    else refused bad_length

abbrev pub decode_option : Option Bytes → Decoded
decode_option none = refused bad_base32
decode_option (some raw) = decode_raw raw

-- `Decode`.
unfoldable pub decode : GoCodecs → Text → Decoded
decode go addr = decode_option (go.b32_decode addr)

-- The bytes of an address: `byte(sum)` and `byte(sum>>8)` behind the payload.
unfoldable pub raw_of : Bytes → Bytes
raw_of pub_key =
    let payload = version_byte_account_id ∷ pub_key in
    let sum = crc16_xmodem payload in payload ++ sum % 256 ∷ sum / 2 ^ 8 % 256 ∷ []

-- `Encode`; `none` is the error of a key that is not 32 bytes long.
unfoldable pub encode : GoCodecs → Bytes → Option Text
encode go pub_key = if length pub_key == 32 then some (go.b32_encode (raw_of pub_key)) else none

abbrev pub check_bytes : GoCodecs → Bytes → Text → Bytes → Option KeyError
check_bytes go pub_key message sig =
    if length sig == 64
    then if go.verify pub_key message sig then none else some not_verified
    else some bad_signature_length

abbrev pub check_base64 : GoCodecs → Bytes → Text → Option Bytes → Option KeyError
check_base64 go pub_key message none = some bad_base64
check_base64 go pub_key message (some sig) = check_bytes go pub_key message sig

abbrev pub check_key : GoCodecs → Decoded → Text → Text → Option KeyError
check_key go (refused e) message sig = some e
check_key go (decoded pub_key) message sig = check_base64 go pub_key message (go.b64_decode sig)

-- `Verify`; `none` is a nil error.
unfoldable pub verify : GoCodecs → Text → Text → Text → Option KeyError
verify go addr message sig = check_key go (decode go addr) message sig

-- What the handler of orders asks: whether `Verify` returns a nil error.
unfoldable pub is_verified : GoCodecs → Text → Text → Text → Bool
is_verified go addr message sig = elim (verify go addr message sig) [ none ↦ true | some e ↦ false ]
