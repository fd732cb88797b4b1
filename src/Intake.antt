-- ===== src/Intake.antt =====
-- engine/internal/api/api.go: handleCreateOrder, over the tables of Ledger. `verify` is
-- stellarkey.Verify on pubkey, commitment and signature; `encode` is how a payload becomes the blob of
-- its row. `id` is the id that the database draws; it is `none` where the database cannot be reached.
pub mod Laws
pub mod Sent
use nyx_darkpool.Base.{
  ℕ, Bool, true, false, ◌||◌, not, Option, none, some, List, [], Text, codes, is_empty,
  if◌then◌else◌,
}
use nyx_darkpool.Engine.{CreateOrderBody}
use nyx_darkpool.Book.{Payload, Invalid, is_valid_side, validate}
use nyx_darkpool.Book.Validation.{payload_of}
use nyx_darkpool.Ledger.{
  Db, InsertParams, Result, ok, err, StoreError, duplicate, already_matched, serialization, other,
  insert_order,
}

-- The server: whether it has a store, and `requireOrderSig`.
pub record Server : Type 0 where
  pub has_store : Bool
  pub require_order_sig : Bool

-- The status code, the id of a created order, and the tables.
pub record Response : Type 0 where
  pub code : ℕ
  pub id : Option Text
  pub db : Db

abbrev pub refuse : ℕ → Db → Response
refuse code db = record { code = code; id = none; db = db }

-- A field that is missing is the empty text.
abbrev pub signature_of : CreateOrderBody → Text
signature_of b = elim b.signature [ none ↦ [] | some s ↦ s ]

abbrev pub params_of : (Payload → Text) → CreateOrderBody → InsertParams
params_of encode b = record {
  pubkey = b.pubkey;
  asset_pair = b.asset_pair;
  side = b.side;
  blob = encode (payload_of b);
  commitment = b.commitment;
  nullifier = b.nullifier;
  price_hash = [];
  volume_hash = [];
}

abbrev pub inserted : Result × Db → Response
inserted (ok id, db) = record { code = 201; id = some id; db = db }
inserted (err duplicate, db) = refuse 409 db
inserted (err already_matched, db) = refuse 500 db
inserted (err serialization, db) = refuse 500 db
inserted (err other, db) = refuse 500 db

module _ (verify : Text → Text → Text → Bool) (encode : Payload → Text) (s : Server)
    (id : Option Text) where
  -- The second `switch`, and the insertion.
  unfoldable pub authenticated : CreateOrderBody → Db → Response
  authenticated b db =
      if is_empty (signature_of b)
      then if s.require_order_sig
        then refuse 401 db
        else inserted (insert_order id (params_of encode b) db)
      else if verify b.pubkey b.commitment (signature_of b)
      then inserted (insert_order id (params_of encode b) db)
      else refuse 401 db

  abbrev pub validated : CreateOrderBody → Db → Option Invalid → Response
  validated b db (some e) = refuse 400 db
  validated b db none = authenticated b db

  unfoldable pub decoded : CreateOrderBody → Db → Response
  decoded b db =
      if is_empty b.pubkey || is_empty b.asset_pair
      then refuse 400 db
      else if not (is_valid_side b.side)
      then refuse 400 db
      else if is_empty b.commitment || is_empty b.nullifier
      then refuse 400 db
      else validated b db (validate (payload_of b))

  -- `none` is a body that is no JSON of this shape.
  unfoldable pub handle_create_order : Option CreateOrderBody → Db → Response
  handle_create_order none db = if s.has_store then refuse 400 db else refuse 503 db
  handle_create_order (some b) db = if s.has_store then decoded b db else refuse 503 db
