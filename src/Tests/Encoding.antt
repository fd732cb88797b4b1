-- ===== src/Tests/Encoding.antt =====
-- Runs of scripts/proof_to_bytes.js.
use nyx_darkpool.Base.{
  ◌%◌, ◌↔◌, Option, map, drop, length, ap, subst, arith, codes, true, starts_with, ℕ, ◌≡◌, refl,
  none, some, List, [], ◌∷◌, ◌++◌, Text, All, replicate, returned, ◌===◌,
}
use nyx_darkpool.Base.Decimal.{to_decimal}
use nyx_darkpool.Base.BigInt.{big_int-to_decimal}
use nyx_darkpool.ProofBytes.{
  Env, Bytes, Proof, VerifyingKey, HexProof, item, fill, fe, g1, g2, h, hex, hex_each, fixtures,
}
use nyx_darkpool.ProofBytes.Mode.{program, exits, usage}
use nyx_darkpool.Book.{Payload, validate, set_string}
use nyx_darkpool.StrKey as StrKey
use nyx_darkpool.StrKey.{GoCodecs, decoded, raw_of, crc16_xmodem, crc_bit}
use nyx_darkpool.StrKey.Codec.{AreBytes, decode-raw_iff}
use nyx_darkpool.Secret.{Aead, GoJson, has_magic, encode_blob, decode_blob}
use nyx_darkpool.Secret.Reading.{decode_blob-encode_blob}
use nyx_darkpool.ProofBytes.Element.{Verdict, fe-Verdict}
use nyx_darkpool.ProofBytes.Point.{IsFp2, g2_sound}
use nyx_darkpool.ProofBytes.Hex.{unhex, Reads, hex_sound}
use nyx_darkpool.ProofBytes.Fixtures.{IsFixture, fixtures-IsFixture}

abbrev env : Env
env = record { g2_ordering = none; fe_endian = some [] }

abbrev word : ℕ → Bytes
word n = replicate 31 0 ++ n ∷ []

abbrev little_env : Env
little_env = record { g2_ordering = none; fe_endian = some (codes "little") }

-- 300 is 1 * 256 + 44.
fe_big : fe env (to_decimal 300) ≡ returned (replicate 30 0 ++ 1 ∷ 44 ∷ [])
unfolding fe fill ◌===◌
fe_big = rw (big_int-to_decimal 300) refl

fe_little : fe little_env (to_decimal 300) ≡ returned (44 ∷ 1 ∷ replicate 30 0)
unfolding fe fill ◌===◌
fe_little = rw (big_int-to_decimal 300) refl

fe-Verdict_example : Verdict little_env (to_decimal 300) 300
fe-Verdict_example = fe-Verdict little_env (to_decimal 300) 300 (big_int-to_decimal 300)

abbrev g2_point : List (List Text)
g2_point =
    (to_decimal 1 ∷ to_decimal 2 ∷ [])
    ∷ (to_decimal 3 ∷ to_decimal 4 ∷ [])
    ∷ (to_decimal 1 ∷ to_decimal 0 ∷ [])
    ∷ []

abbrev g2_bytes : Bytes
g2_bytes = (word 2 ++ word 1) ++ word 4 ++ word 3

-- Limb 1 of each coordinate comes first.
g2_run : g2 env g2_point ≡ returned g2_bytes
unfolding g2 fe fill ◌===◌
g2_run =
    rw (big_int-to_decimal 1, big_int-to_decimal 2, big_int-to_decimal 3, big_int-to_decimal 4) refl

g2_sound_example :
    (x y : Bytes) × (g2_bytes ≡ x ++ y)
    × IsFp2 env (item g2_point 0) x
    × IsFp2 env (item g2_point 1) y
g2_sound_example = g2_sound env g2_point g2_bytes g2_run

abbrev g1_point : List Text
g1_point = to_decimal 17 ∷ to_decimal 255 ∷ to_decimal 1 ∷ []

g1_run : g1 env g1_point ≡ returned (word 17 ++ word 255)
unfolding g1 fe fill ◌===◌
g1_run = rw (big_int-to_decimal 17, big_int-to_decimal 255) refl

abbrev proof : Proof
proof = record { pi_a = g1_point; pi_b = g2_point; pi_c = g1_point }

abbrev signals : List Text
signals = to_decimal 9 ∷ []

abbrev hex_proof : HexProof
hex_proof = record {
  proof_a = h (word 17 ++ word 255);
  proof_b = h g2_bytes;
  proof_c = h (word 17 ++ word 255);
  public = h (word 9) ∷ [];
}

signals_run : hex_each env signals ≡ returned (h (word 9) ∷ [])
unfolding hex_each fe fill ◌===◌
signals_run = rw (big_int-to_decimal 9) refl

hex_run : hex env proof signals ≡ returned hex_proof
unfolding hex
hex_run = rw (g1_run, g2_run, signals_run) refl

hex_sound_case :
    (g1 env proof.pi_a ≡ returned (unhex hex_proof.proof_a))
    × (g2 env proof.pi_b ≡ returned (unhex hex_proof.proof_b))
    × (g1 env proof.pi_c ≡ returned (unhex hex_proof.proof_c))
    × Reads env signals hex_proof.public
hex_sound_case = hex_sound env proof signals hex_proof hex_run

abbrev key : VerifyingKey
key = record {
  vk_alpha_1 = g1_point;
  vk_beta_2 = g2_point;
  vk_gamma_2 = g2_point;
  vk_delta_2 = g2_point;
  ic = g1_point ∷ g1_point ∷ g1_point ∷ [];
}

fixtures-IsFixture_case : All IsFixture (fixtures env proof signals key).files
fixtures-IsFixture_case = fixtures-IsFixture env proof signals key

-- Addresses of accounts, sealed blobs, and the modes of the script.
abbrev go : GoCodecs
go = record {
  b32_decode = λ t. some t;
  b32_encode = λ bytes. bytes;
  b64_decode = λ t. some t;
  verify = λ k message sig. true;
}

abbrev account : StrKey.Bytes
account = replicate 32 7

address_run : StrKey.encode go account ≡ some (raw_of account)
unfolding StrKey.encode
address_run = refl

crc_run : crc16_xmodem (b'1' ∷ b'2' ∷ b'3' ∷ b'4' ∷ b'5' ∷ b'6' ∷ b'7' ∷ b'8' ∷ b'9' ∷ []) ≡ 0x31c3
unfolding crc16_xmodem crc_bit
crc_run = refl

mode_run : program (codes "hex" ∷ codes "p.json" ∷ []) ≡ exits usage
unfolding program ◌===◌
mode_run = refl

abbrev marshal : Payload → Text
marshal p = codes "{" ++ p.price

abbrev json : GoJson
json = record {
  marshal = marshal;
  unmarshal = λ t. some (record { price = drop 1 t; volume = codes "5"; salt = codes "7" });
}

abbrev aead : Aead
aead = record {
  seal = λ nonce plain. nonce ++ plain;
  unseal = λ nonce sealed. some (drop (length nonce) sealed);
}

drop-all : (nonce plain : Text) → drop (length nonce) (nonce ++ plain) ≡ plain
drop-all [] plain = refl
drop-all (c ∷ nonce) plain = drop-all nonce plain

abbrev payload : Payload
payload = record { price = codes "9984"; volume = codes "5"; salt = codes "7" }

decode_blob-encode_blob_example :
    (blob plain : Text) × (encode_blob json (some aead) (replicate 12 9) payload ≡ some blob)
    × (decode_blob json (some aead) blob ≡ some payload)
    × (encode_blob json none (replicate 12 9) payload ≡ some plain)
    × (decode_blob json (some aead) plain ≡ some payload)
unfolding validate set_string has_magic starts_with
decode_blob-encode_blob_example =
    decode_blob-encode_blob json (some aead) (replicate 12 9) payload refl
      (λ nonce plain. ap some (drop-all nonce plain)) refl refl refl

-- A base32 of one letter per byte, whose letters are read as bytes.
abbrev go_small : GoCodecs
go_small = record go { b32_decode = λ t. some (map (λ c. c % 256) t) }

map-AreBytes : (t : Text) → AreBytes (map (λ c. c % 256) t)
map-AreBytes [] = tt
map-AreBytes (c ∷ t) = (omega arith, map-AreBytes t)

small-AreBytes :
    (addr : Text) (raw : StrKey.Bytes) → go_small.b32_decode addr ≡ some raw → AreBytes raw
small-AreBytes addr raw h = subst AreBytes (inner h) (map-AreBytes addr)
  where
    inner :
        ◌≡◌ {A = Option Text} (some (map (λ c. c % 256) addr)) (some raw)
        → map (λ c. c % 256) addr ≡ raw
    inner q = cc

decode-raw_iff_example :
    (StrKey.decode go_small (raw_of account) ≡ decoded account)
    ↔ ((length account ≡ 32) × (go_small.b32_decode (raw_of account) ≡ some (raw_of account)))
decode-raw_iff_example = decode-raw_iff go_small small-AreBytes (raw_of account) account
