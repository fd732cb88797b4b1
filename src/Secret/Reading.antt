-- ===== src/Secret/Reading.antt =====
-- Blobs that are read back.
use nyx_darkpool.Base.{
  ℕ, zero, suc, ◌≡◌, refl, ap, false, Option, none, some, [], ◌∷◌, ◌++◌, Text, ltb, length,
  length-append, take, drop, starts_with, arith,
}
use nyx_darkpool.Book.{Payload, validate}
use nyx_darkpool.Secret.{
  Aead, GoJson, nonce_size, has_magic, seal, open_blob, encode_payload, encode_blob, decode_blob,
}

take-front : (n : ℕ) (s t : Text) → length s ≡ n → take n (s ++ t) ≡ s
take-front zero [] t h = refl
take-front zero (c ∷ s) t h = absurd (omega (arith, h))
take-front (suc n) [] t h = absurd (omega (arith, h))
take-front (suc n) (c ∷ s) t h = ap (λ l. c ∷ l) (take-front n s t (omega (arith, h)))

drop-front : (n : ℕ) (s t : Text) → length s ≡ n → drop n (s ++ t) ≡ t
drop-front zero [] t h = refl
drop-front zero (c ∷ s) t h = absurd (omega (arith, h))
drop-front (suc n) [] t h = absurd (omega (arith, h))
drop-front (suc n) (c ∷ s) t h = drop-front n s t (omega (arith, h))

-- What a cipher promises: it opens what it has sealed under the same nonce.
abbrev pub OpensSealed : Option Aead → Type 0
OpensSealed none = Unit
OpensSealed (some aead) =
    (nonce plaintext : Text) → aead.unseal nonce (aead.seal nonce plaintext) ≡ some plaintext

open_blob-seal :
    (c : Option Aead) (nonce plaintext : Text)
    → OpensSealed c
    → length nonce ≡ nonce_size
    → open_blob c (seal c nonce plaintext) ≡ some plaintext
unfolding open_blob seal has_magic starts_with
open_blob-seal none nonce plaintext opens size = refl
open_blob-seal (some aead) nonce plaintext opens size =
    let ct = aead.seal nonce plaintext in
    let long : ltb (length (nonce ++ ct)) nonce_size ≡ false =
      ground (arith, length-append nonce ct, size) in
    rw (long, take-front nonce_size nonce ct size, drop-front nonce_size nonce ct size)
      (opens nonce plaintext)

open_blob-legacy : (c : Option Aead) (b : Text) → has_magic b ≡ false → open_blob c b ≡ some b
unfolding open_blob
open_blob-legacy none b h = refl
open_blob-legacy (some aead) b h = rw h refl

-- A valid payload is stored as a blob, and the blob is read back, with a cipher or without. A payload
-- that was stored without a cipher is read with one too, where its JSON does not begin like a sealed
-- blob.
pub decode_blob-encode_blob :
    (json : GoJson) (c : Option Aead) (nonce : Text) (p : Payload)
    → json.unmarshal (json.marshal p) ≡ some p
    → OpensSealed c
    → length nonce ≡ nonce_size
    → validate p ≡ none
    → has_magic (json.marshal p) ≡ false
    → (blob plain : Text) × (encode_blob json c nonce p ≡ some blob)
      × (decode_blob json c blob ≡ some p)
      × (encode_blob json none nonce p ≡ some plain)
      × (decode_blob json c plain ≡ some p)
unfolding decode_blob encode_blob encode_payload seal
decode_blob-encode_blob json c nonce p reads opens size valid unlike = (
  seal c nonce (json.marshal p),
  json.marshal p,
  rw valid refl,
  rw (open_blob-seal c nonce (json.marshal p) opens size) reads,
  rw valid refl,
  rw (open_blob-legacy c (json.marshal p) unlike) reads,
)
