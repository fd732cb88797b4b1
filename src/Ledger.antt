-- ===== src/Ledger.antt =====
-- engine/internal/store/store.go over the tables of engine/db/migrations: the order book and the
-- settlement records, and the statements that change them. A statement is one step; a transaction that
-- fails leaves the tables as they are. `blob` is the sealed payload, which the tables only keep; the
-- cipher and the JSON behind it are `decode`. The ids that the database draws are arguments. Rows stand
-- in the order of their insertion, which is that of `created_at`.
pub mod Counts
pub mod Once
pub mod Forward
pub mod Final
pub mod Unique
pub mod Won
pub mod Backed
use nyx_darkpool.Base.{
  ℕ, zero, suc, ◌+◌, Bool, true, false, ◌&&◌, ◌||◌, not, Option, none, some, List, [], ◌∷◌, ◌++◌,
  Text, codes, ◌===◌, ◌==◌, leb, if◌then◌else◌, is_empty, any, length, take, filter, map,
}
use nyx_darkpool.Book.{Payload, Order, is_valid_side}

-- `order_status`; `opened` is the source's `open`.
pub data OrderStatus : Type 0 where
  opened matched settled cancelled : OrderStatus

pub data OnchainStatus : Type 0 where
  pending submitted confirmed failed : OnchainStatus

-- A row of `orders`.
pub record OrderRow : Type 0 where
  pub id : Text
  pub pubkey : Text
  pub asset_pair : Text
  pub side : Text
  pub blob : Text
  pub price_hash : Text
  pub volume_hash : Text
  pub nullifier : Text
  pub commitment : Text
  pub status : OrderStatus

-- A row of `matches`.
pub record MatchRow : Type 0 where
  pub id : Text
  pub maker_order_id : Text
  pub taker_order_id : Text
  pub proof_blob : Option Text
  pub onchain_status : OnchainStatus
  pub settlement_tx : Option Text

pub record Db : Type 0 where
  pub orders : List OrderRow
  pub matches : List MatchRow

unfoldable pub empty_db : Db
empty_db = record { orders = []; matches = [] }

-- `InsertParams`, with the payload as the blob that it is stored as.
pub record InsertParams : Type 0 where
  pub pubkey : Text
  pub asset_pair : Text
  pub side : Text
  pub blob : Text
  pub commitment : Text
  pub nullifier : Text
  pub price_hash : Text
  pub volume_hash : Text

pub data StoreError : Type 0 where
  already_matched serialization duplicate other : StoreError

-- What an operation returns: an id, or an error.
pub data Result : Type 0 where
  ok : Text → Result
  err : StoreError → Result

abbrev pub or_default : Text → Text → Text
or_default v d = if is_empty v then d else v

-- `VARCHAR(n)`.
abbrev pub fits : ℕ → Text → Bool
fits n s = leb (length s) n

abbrev pub row_of : Text → InsertParams → OrderRow
row_of id p = record {
  id = id;
  pubkey = p.pubkey;
  asset_pair = p.asset_pair;
  side = p.side;
  blob = p.blob;
  price_hash = or_default p.price_hash p.commitment;
  volume_hash = or_default p.volume_hash p.commitment;
  nullifier = p.nullifier;
  commitment = p.commitment;
  status = opened;
}

-- The enumeration, the widths and the CHECKs of the columns.
abbrev pub is_admitted : OrderRow → Bool
is_admitted o =
    is_valid_side o.side
    && fits 56 o.pubkey
    && fits 64 o.asset_pair
    && fits 80 o.price_hash
    && fits 80 o.volume_hash
    && fits 80 o.nullifier
    && fits 80 o.commitment
    && not (is_empty o.price_hash)
    && not (is_empty o.volume_hash)

abbrev pub is_order : Text → OrderRow → Bool
is_order id o = o.id === id

abbrev pub is_nullifier : Text → OrderRow → Bool
is_nullifier n o = o.nullifier === n

-- `InsertOrder`; the database answers with the id that it draws, or, with `none`, not at all.
unfoldable pub insert_order : Option Text → InsertParams → Db → Result × Db
insert_order none p db = (err other, db)
insert_order (some id) p db =
    let row = row_of id p in
    if is_admitted row
    then if any (is_order id) db.orders || any (is_nullifier p.nullifier) db.orders
      then (err duplicate, db)
      else (ok id, record db { orders = db.orders ++ row ∷ [] })
    else (err other, db)

abbrev pub is_open : OrderRow → Bool
is_open o = elim o.status [ opened ↦ true | _ ↦ false ]

-- `WHERE id = ANY($1) AND status='open'`.
abbrev pub is_wanted : Text → Text → OrderRow → Bool
is_wanted maker taker o = (is_order maker o || is_order taker o) && is_open o

abbrev pub set_status : OrderStatus → OrderRow → OrderRow
set_status s o = record o { status = s }

-- `UPDATE orders SET status = s WHERE p`.
abbrev pub update_orders : (OrderRow → Bool) → OrderStatus → List OrderRow → List OrderRow
update_orders p s [] = []
update_orders p s (o ∷ os) = (if p o then set_status s o else o) ∷ update_orders p s os

abbrev pub is_match : Text → MatchRow → Bool
is_match id m = m.id === id

abbrev pub new_match : Text → Text → Text → MatchRow
new_match id maker taker = record {
  id = id;
  maker_order_id = maker;
  taker_order_id = taker;
  proof_blob = none;
  onchain_status = pending;
  settlement_tx = none;
}

-- `INSERT INTO matches`: its CHECK, and then its UNIQUE constraints, whose violation the caller reads
-- as a lost race.
abbrev pub insert_match : Text → Text → Text → Db → Db → Result × Db
insert_match id maker taker before db =
    if maker === taker
    then (err other, before)
    else if any (λ m. m.id === id || m.maker_order_id === maker || m.taker_order_id === taker)
        db.matches
    then (err already_matched, before)
    else (ok id, record db { matches = db.matches ++ new_match id maker taker ∷ [] })

-- `CreateMatch`; `conflict` says that the database refuses to serialize the transaction.
unfoldable pub create_match : Bool → Text → Text → Text → Db → Result × Db
create_match conflict id maker taker db =
    if conflict
    then (err serialization, db)
    else if length (filter (is_wanted maker taker) db.orders) == 2
    then insert_match id maker taker db
        (record db { orders = update_orders (is_wanted maker taker) matched db.orders })
    else (err already_matched, db)

-- `UPDATE matches SET … WHERE p`.
abbrev pub update_matches :
    (MatchRow → Bool) → (MatchRow → MatchRow) → List MatchRow → List MatchRow
update_matches p f [] = []
update_matches p f (m ∷ ms) = (if p m then f m else m) ∷ update_matches p f ms

abbrev pub with_proof : Text → MatchRow → MatchRow
with_proof proof m = record m { proof_blob = some proof }

-- `SetProof`.
unfoldable pub set_proof : Text → Text → Db → Db
set_proof id proof db = record db {
  matches = update_matches (is_match id) (with_proof proof) db.matches;
}

abbrev pub is_confirmed : MatchRow → Bool
is_confirmed m = elim m.onchain_status [ confirmed ↦ true | _ ↦ false ]

abbrev pub null_if_empty : Text → Option Text
null_if_empty s = if is_empty s then none else some s

-- `tx[:64]`, and `NULLIF`.
abbrev pub stored_tx : Text → Option Text
stored_tx tx = null_if_empty (take 64 tx)

-- `WHERE id=$3 AND onchain_status <> 'confirmed'`.
abbrev pub is_unconfirmed : Text → MatchRow → Bool
is_unconfirmed id m = is_match id m && not (is_confirmed m)

abbrev pub with_outcome : OnchainStatus → Text → MatchRow → MatchRow
with_outcome status tx m = record m { onchain_status = status; settlement_tx = stored_tx tx }

abbrev pub record_outcome : Text → OnchainStatus → Text → List MatchRow → List MatchRow
record_outcome id status tx ms = update_matches (is_unconfirmed id) (with_outcome status tx) ms

-- `SetOnchain`.
unfoldable pub set_onchain : Text → OnchainStatus → Text → Db → Db
set_onchain id status tx db = record db { matches = record_outcome id status tx db.matches }

-- `id IN (SELECT maker_order_id … UNION SELECT taker_order_id …)`.
abbrev pub is_party : Text → List MatchRow → OrderRow → Bool
is_party id ms o =
    any (λ m. is_match id m && (m.maker_order_id === o.id || m.taker_order_id === o.id)) ms

-- `MarkSettled`.
unfoldable pub mark_settled : Text → Text → Db → Db
mark_settled id tx db =
    let ms = record_outcome id confirmed tx db.matches in
    record { orders = update_orders (is_party id ms) settled db.orders; matches = ms }

-- `OpenOrdersByPair`: rows without a commitment, or with a blob that cannot be read, are skipped.
unfoldable pub open_orders : (Text → Option Payload) → Text → List OrderRow → List Order
open_orders decode pair [] = []
open_orders decode pair (o ∷ os) =
    let rest = open_orders decode pair os in
    if o.asset_pair === pair && is_open o
    then if is_empty o.commitment then rest else elim (decode o.blob) [
      | none ↦ rest
      | some payload ↦
          record {
            id = o.id;
            pubkey = o.pubkey;
            asset_pair = o.asset_pair;
            side = o.side;
            commitment = o.commitment;
            payload = payload;
          }
          ∷ rest
    ]
    else rest

-- `UnprovenMatchIDs` and `UnsettledMatchIDs`.
abbrev pub is_unproven : MatchRow → Bool
is_unproven m = elim m.proof_blob [ none ↦ true | some _ ↦ false ]

abbrev pub match_id : MatchRow → Text
match_id m = m.id

unfoldable pub unproven_ids : ℕ → List MatchRow → List Text
unproven_ids limit ms = take limit (map match_id (filter is_unproven ms))

unfoldable pub unsettled_ids : ℕ → List MatchRow → List Text
unsettled_ids limit ms = take limit (map match_id (filter (λ m. not (is_confirmed m)) ms))

-- The operations that change the tables, in any order, by any process.
pub data Op : Type 0 where
  insert : Option Text → InsertParams → Op
  create : Bool → Text → Text → Text → Op
  prove : Text → Text → Op
  report : Text → OnchainStatus → Text → Op
  settle : Text → Text → Op

unfoldable pub step : Op → Db → Db
step (insert id p) db = (insert_order id p db).1
step (create conflict id maker taker) db = (create_match conflict id maker taker db).1
step (prove id proof) db = set_proof id proof db
step (report id status tx) db = set_onchain id status tx db
step (settle id tx) db = mark_settled id tx db

unfoldable pub run : List Op → Db → Db
run [] db = db
run (op ∷ ops) db = run ops (step op db)
