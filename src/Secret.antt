-- ===== src/Secret.antt =====
-- engine/internal/secret/secret.go: Seal and Open of the blobs at rest; and how store.go and order.go make
-- a blob of a payload and read it back. AES-GCM under the engine's key and Go's JSON are records of
-- functions; the nonce is an argument. Bytes are numbers.
pub mod Reading
use nyx_darkpool.Base.{
  ℕ, zero, suc, Bool, true, false, ◌&&◌, Option, none, some, List, [], ◌∷◌, ◌++◌, Text, codes, ltb,
  ◌==◌, if◌then◌else◌, length, take, drop, starts_with,
}
use nyx_darkpool.Book.{Payload, Invalid, validate}

-- `cipher.AEAD`: `open` fails on a ciphertext that is not authentic.
pub record Aead : Type 0 where
  pub seal : Text → Text → Text
  pub unseal : Text → Text → Option Text

abbrev pub nonce_size : ℕ
nonce_size = 12

abbrev pub magic : Text
magic = codes "NYX1"

unfoldable pub has_magic : Text → Bool
has_magic b = starts_with b magic

-- `none` is a nil Cipher.
unfoldable pub seal : Option Aead → Text → Text → Text
seal none nonce plaintext = plaintext
seal (some aead) nonce plaintext = magic ++ nonce ++ aead.seal nonce plaintext

abbrev pub open_body : Aead → Text → Option Text
open_body aead body =
    if ltb (length body) nonce_size
    then none
    else aead.unseal (take nonce_size body) (drop nonce_size body)

-- `Open`; `none` is an error.
unfoldable pub open_blob : Option Aead → Text → Option Text
open_blob none b = some b
open_blob (some aead) b = if has_magic b then open_body aead (drop (length magic) b) else some b

-- `json.Marshal` and `json.Unmarshal` on a payload.
pub record GoJson : Type 0 where
  pub marshal : Payload → Text
  pub unmarshal : Text → Option Payload

abbrev pub checked : GoJson → Payload → Option Invalid → Option Text
checked json p (some e) = none
checked json p none = some (json.marshal p)

-- `Encode` of order.go: a payload that is not valid is an error.
unfoldable pub encode_payload : GoJson → Payload → Option Text
encode_payload json p = checked json p (validate p)

-- `InsertOrder`'s blob of a payload.
abbrev pub sealed_option : Option Aead → Text → Option Text → Option Text
sealed_option aead nonce none = none
sealed_option aead nonce (some plain) = some (seal aead nonce plain)

unfoldable pub encode_blob : GoJson → Option Aead → Text → Payload → Option Text
encode_blob json aead nonce p = sealed_option aead nonce (encode_payload json p)

abbrev pub unmarshal_option : GoJson → Option Text → Option Payload
unmarshal_option json none = none
unmarshal_option json (some plain) = json.unmarshal plain

-- `decodeBlob`.
unfoldable pub decode_blob : GoJson → Option Aead → Text → Option Payload
decode_blob json aead blob = unmarshal_option json (open_blob aead blob)
