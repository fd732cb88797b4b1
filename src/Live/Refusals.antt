-- ===== src/Live/Refusals.antt =====
-- The tests of requests that the engine is to refuse.
use nyx_darkpool.Base.{
  ℕ, ◌<◌, ◌≡◌, refl, true, false, none, List, Text, codes, ◌===◌, ◌==◌, ==_iff, is_empty, any,
  arith, returned, some,
}
use nyx_darkpool.Base.Decimal.{to_decimal, numeral-nonempty}
use nyx_darkpool.Seal.{Hash}
use nyx_darkpool.Engine.{CreateOrderBody}
use nyx_darkpool.Book.{validate, max, is_valid_side}
use nyx_darkpool.Book.Validation.{set_string-to_decimal}
use nyx_darkpool.Intake.{handle_create_order, decoded, authenticated, params_of, signature_of}
use nyx_darkpool.Ledger.{insert_order, row_of, is_admitted, is_order, is_nullifier}
use nyx_darkpool.Settling.{World}
use nyx_darkpool.Pipeline.{Setup, Event}
use nyx_darkpool.Pipeline.Replay.{replay-refused}
use nyx_darkpool.Live.{
  Desk, sealed, order_body, unsigned_body, duplicate_body, post, done, assert, empty_body,
  real_pair, unsigned_test, bad_side_test, empty_test, duplicate_test,
}

validate-numbers :
    (price volume salt : ℕ)
    → 0 < price
    → price < max
    → 0 < volume
    → volume < max
    → validate
        (record { price = to_decimal price; volume = to_decimal volume; salt = to_decimal salt })
      ≡ none
unfolding validate
validate-numbers price volume salt plo phi vlo vhi =
    rw (set_string-to_decimal price, set_string-to_decimal volume, set_string-to_decimal salt)
      (ground arith)

-- An engine that stores orders and asks for signatures.
pub record IsStrict (s : Setup) : Type 0 where
  pub has_store : s.server.has_store ≡ true
  pub requires : s.server.require_order_sig ≡ true

unsigned-code :
    (s : Setup) (hash : Hash) (desk : Desk) (bytes : List ℕ) (id : Text) (w : World)
    → IsStrict s
    → is_empty desk.public_key ≡ false
    → (post s id (unsigned_body desk (sealed hash bytes 9984 5_000_000)) w).status ≡ 401
unfolding post unsigned_body sealed handle_create_order decoded authenticated is_valid_side ◌===◌
unsigned-code s hash desk bytes id w strict key =
    rw
      (
        strict.has_store,
        key,
        numeral-nonempty _,
        numeral-nonempty _,
        validate-numbers 9984 5_000_000 _ (ground arith) (ground arith) (ground arith)
            (ground arith),
        strict.requires,
      )
      refl

bad_side-code :
    (s : Setup) (hash : Hash) (desk : Desk) (bytes : List ℕ) (id : Text) (w : World)
    → IsStrict s
    → is_empty desk.public_key ≡ false
    → (post s id (order_body desk real_pair (codes "buy") (sealed hash bytes 1 1)) w).status ≡ 400
unfolding post order_body handle_create_order decoded is_valid_side ◌===◌
bad_side-code s hash desk bytes id w strict key = rw (strict.has_store, key) refl

empty-code :
    (s : Setup) (id : Text) (w : World) → IsStrict s → (post s id empty_body w).status ≡ 400
unfolding post handle_create_order decoded
empty-code s id w strict = rw strict.has_store refl

assert-done : (code : ℕ) (n : ℕ) (msg : Text) → code ≡ n → assert (code == n) msg ≡ returned done
assert-done code n msg e = rw ((==_iff code n).1 e) refl

-- On an engine that stores orders and asks for signatures, whatever is in its tables, the three tests of
-- malformed requests pass: an unsigned order is refused with 401, and a side that is no side and a
-- body without fields with 400.
pub refusals-pass :
    (s : Setup) (hash : Hash) (desk : Desk) (bytes : List ℕ) (id : Text) (w : World)
    → IsStrict s
    → is_empty desk.public_key ≡ false
    → (unsigned_test s hash desk bytes id w ≡ returned done)
      × (bad_side_test s hash desk bytes id w ≡ returned done)
      × (empty_test s id w ≡ returned done)
unfolding unsigned_test bad_side_test empty_test
refusals-pass s hash desk bytes id w strict key = (
  assert-done _ 401 _ (unsigned-code s hash desk bytes id w strict key),
  assert-done _ 400 _ (bad_side-code s hash desk bytes id w strict key),
  assert-done _ 400 _ (empty-code s id w strict),
)

-- What an engine takes in: a signature that verifies, columns that are wide enough, and an id and a
-- nullifier that no order has.
pub record IsTaken (s : Setup) (id : Text) (b : CreateOrderBody) (w : World) : Type 0 where
  pub has_store : s.server.has_store ≡ true
  pub key : is_empty b.pubkey ≡ false
  pub signed : is_empty (signature_of b) ≡ false
  pub verified : s.check_signature b.pubkey b.commitment (signature_of b) ≡ true
  pub admitted : is_admitted (row_of id (params_of s.encode b)) ≡ true
  pub new_id : any (is_order id) w.db.orders ≡ false
  pub new_nullifier : any (is_nullifier b.nullifier) w.db.orders ≡ false

duplicate-first :
    (s : Setup) (hash : Hash) (desk : Desk) (bytes : List ℕ) (id : Text) (w : World)
    → IsTaken s id (duplicate_body hash desk bytes) w
    → (post s id (duplicate_body hash desk bytes) w).status ≡ 201
unfolding post sealed order_body handle_create_order decoded authenticated is_valid_side
    insert_order ◌===◌
duplicate-first s hash desk bytes id w h =
    rw
      (
        h.has_store,
        h.key,
        numeral-nonempty _,
        numeral-nonempty _,
        validate-numbers 7777 12345 _ (ground arith) (ground arith) (ground arith) (ground arith),
        h.signed,
        h.verified,
        h.admitted,
        h.new_id,
        h.new_nullifier,
      )
      refl

-- The test of a replayed order passes, whatever happens between the two requests, where the engine can
-- take the order in: it answers 201, and then 409.
pub duplicate_test-passes :
    (s : Setup) (hash : Hash) (desk : Desk) (bytes : List ℕ) (id id' : Text) (es : List Event)
    (w : World)
    → IsTaken s id (duplicate_body hash desk bytes) w
    → duplicate_test s hash desk bytes id id' es w ≡ returned done
unfolding duplicate_test post
duplicate_test-passes s hash desk bytes id id' es w h =
    let b = duplicate_body hash desk bytes in
    let first = duplicate-first s hash desk bytes id w h in
    let (second, same) = replay-refused s es w (some id) id' b first in
    rw ((==_iff _ 201).1 first) (assert-done _ 409 _ second)
