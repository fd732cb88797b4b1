-- ===== src/StrKey/Signed.antt =====
-- The signatures of the orders that the engine takes in.
use nyx_darkpool.Base.{
  ◌≡◌, refl, true, false, Option, none, some, Text, ◌==◌, ==_iff, length, arith, Bool-cases,
  Option-cases, inl, inr,
}
use nyx_darkpool.Engine.{CreateOrderBody}
use nyx_darkpool.Book.{Payload}
use nyx_darkpool.Ledger.{Db}
use nyx_darkpool.Intake.{Server, handle_create_order, signature_of}
use nyx_darkpool.Intake.Laws.{handle_create_order-created}
use nyx_darkpool.StrKey.{
  Bytes, GoCodecs, KeyError, Decoded, decoded, refused, decode, verify, is_verified, check_key,
  check_bytes,
}

-- The account behind the address has signed the message.
pub record IsSignedBy (go : GoCodecs) (addr message sig : Text) : Type 0 where
  pub key : Bytes
  pub signature : Bytes
  pub account : decode go addr ≡ decoded key
  pub spelled : go.b64_decode sig ≡ some signature
  pub size : length signature ≡ 64
  pub verifies : go.verify key message signature ≡ true

module _ (go : GoCodecs) (message sig : Text) where
  check_bytes-none :
      (key signature : Bytes)
      → check_bytes go key message signature ≡ none
      → (length signature ≡ 64) × (go.verify key message signature ≡ true)
  check_bytes-none key signature h = elim (Bool-cases (length signature == 64)) [
    | inr e ↦ absurd (ground arith)
    | inl e ↦ elim (Bool-cases (go.verify key message signature)) [
      | inr e' ↦ absurd (ground arith)
      | inl e' ↦ ((==_iff (length signature) 64).0 e, e')
    ]
  ]

  check_key-none :
      (addr : Text) (d : Decoded)
      → decode go addr ≡ d
      → check_key go d message sig ≡ none
      → IsSignedBy go addr message sig
  check_key-none addr (refused e) same h = absurd (cc)
  check_key-none addr (decoded key) same h = elim (Option-cases (go.b64_decode sig)) [
    | inl e ↦ absurd (closed (rw e at h))
    | inr (signature, e) ↦
        let (size, verifies) = check_bytes-none key signature (rw e at h) in
        record {
          key = key;
          signature = signature;
          account = same;
          spelled = e;
          size = size;
          verifies = verifies;
        }
  ]
    where
      closed : ◌≡◌ {A = Option KeyError} (some KeyError.bad_base64) none → ⊥
      closed q = cc

  is_verified-IsSignedBy :
      (addr : Text) → is_verified go addr message sig ≡ true → IsSignedBy go addr message sig
  unfolding is_verified verify
  is_verified-IsSignedBy addr h = elim (Option-cases (check_key go (decode go addr) message sig)) [
    | inl e ↦ check_key-none addr (decode go addr) refl e
    | inr (x, e) ↦ absurd (closed (rw (is_verified, verify, e) at h))
  ]
    where
      closed : false ≡ true → ⊥
      closed q = cc

-- On an engine that asks for signatures, an order is taken in only if its address spells an account whose
-- key verifies the signature, of 64 bytes, over the order's commitment.
pub created-IsSignedBy :
    (go : GoCodecs) (encode : Payload → Text) (s : Server) (id : Option Text) (b : CreateOrderBody)
    (db : Db)
    → s.require_order_sig ≡ true
    → (handle_create_order (is_verified go) encode s id (some b) db).code ≡ 201
    → IsSignedBy go b.pubkey b.commitment (signature_of b)
created-IsSignedBy go encode s id b db strict h =
    let (accepted, added) = handle_create_order-created (is_verified go) encode s id b db h in
    elim accepted.signed [
      | inl v ↦ is_verified-IsSignedBy go b.commitment (signature_of b) b.pubkey v
      | inr (unsigned, lax) ↦ absurd (cc)
    ]
