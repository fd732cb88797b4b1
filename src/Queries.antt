-- ===== src/Queries.antt =====
-- engine/internal/store/store.go: OpenPairs, MatchOrders, GetMatch and ListOrders, the statements that
-- only read; and engine/internal/api/api.go: the handlers of GET requests. Rows stand in the order of
-- `created_at`, so that the latest orders are the last rows; times are left out of what is returned.
-- `is_read` says that the database answers, `atoi` is strconv.Atoi.
pub mod Listing
pub mod Loading
pub mod Pairs
use nyx_darkpool.Base.{
  ℕ, Bool, true, false, ◌&&◌, ◌||◌, not, Option, none, some, List, [], ◌∷◌, ◌++◌, Text, codes,
  ◌===◌, if◌then◌else◌, any, find, filter, map, reverse, take, leb, ltb, is_empty,
}
use nyx_darkpool.Base.BigInt.{ℤ, pos, negsuc}
use nyx_darkpool.Book.{Payload, Order}
use nyx_darkpool.Ledger.{
  Db, OrderRow, MatchRow, OrderStatus, opened, matched, settled, cancelled, OnchainStatus, pending,
  submitted, confirmed, failed, is_order, is_match, is_open, match_id,
}
use nyx_darkpool.Ledger.Backed.{has_party}
use nyx_darkpool.Intake.{Server}

-- `OpenPairs`. The source leaves the order of distinct pairs open; here it is that of the last rows.
unfoldable pub open_pairs : List OrderRow → List Text
open_pairs [] = []
open_pairs (o ∷ os) =
    let rest = open_pairs os in
    if is_open o
    then if any (λ p. p === o.asset_pair) rest then rest else o.asset_pair ∷ rest
    else rest

-- `orderByID`: no such row, or a blob that cannot be read, is an error.
unfoldable pub order_of : (Text → Option Payload) → OrderRow → Option Order
order_of decode o = elim (decode o.blob) [
  | none ↦ none
  | some payload ↦ some (record {
    id = o.id;
    pubkey = o.pubkey;
    asset_pair = o.asset_pair;
    side = o.side;
    commitment = o.commitment;
    payload = payload;
  })
]

unfoldable pub order_by_id : (Text → Option Payload) → Text → List OrderRow → Option Order
order_by_id decode id os = elim (find (is_order id) os) [ none ↦ none | some o ↦ order_of decode o ]

abbrev pub both : Option Order → Option Order → Option (Order × Order)
both none taker = none
both (some maker) none = none
both (some maker) (some taker) = some (maker, taker)

-- The orders behind a row of `matches`.
unfoldable pub parties_of :
    (Text → Option Payload) → List OrderRow → MatchRow → Option (Order × Order)
parties_of decode os m =
    both (order_by_id decode m.maker_order_id os) (order_by_id decode m.taker_order_id os)

-- `MatchOrders`.
unfoldable pub match_orders : (Text → Option Payload) → Text → Db → Option (Order × Order)
match_orders decode id db = elim (find (is_match id) db.matches) [
  | none ↦ none
  | some m ↦ parties_of decode db.orders m
]

-- The values of `order_status` and `onchain_status`.
abbrev pub order_status_text : OrderStatus → Text
order_status_text opened = codes "open"
order_status_text matched = codes "matched"
order_status_text settled = codes "settled"
order_status_text cancelled = codes "cancelled"

abbrev pub onchain_status_text : OnchainStatus → Text
onchain_status_text pending = codes "pending"
onchain_status_text submitted = codes "submitted"
onchain_status_text confirmed = codes "confirmed"
onchain_status_text failed = codes "failed"

-- `Match`; an empty `settlement_tx` is left out of the JSON.
pub record MatchView : Type 0 where
  pub id : Text
  pub maker_order_id : Text
  pub taker_order_id : Text
  pub has_proof : Bool
  pub onchain_status : Text
  pub settlement_tx : Text

abbrev pub view_of : MatchRow → MatchView
view_of m = record {
  id = m.id;
  maker_order_id = m.maker_order_id;
  taker_order_id = m.taker_order_id;
  has_proof = elim m.proof_blob [ none ↦ false | some _ ↦ true ];
  onchain_status = onchain_status_text m.onchain_status;
  settlement_tx = elim m.settlement_tx [ none ↦ [] | some tx ↦ tx ];
}

-- `GetMatch`; `none` is `pgx.ErrNoRows`.
unfoldable pub get_match : Text → Db → Option MatchView
get_match id db = elim (find (is_match id) db.matches) [ none ↦ none | some m ↦ some (view_of m) ]

-- `OrderSummary`; an empty `match_id` is left out of the JSON.
pub record Summary : Type 0 where
  pub id : Text
  pub pubkey : Text
  pub asset_pair : Text
  pub side : Text
  pub commitment : Text
  pub status : Text
  pub match_id : Text

abbrev pub summary : OrderRow → Text → Summary
summary o m = record {
  id = o.id;
  pubkey = o.pubkey;
  asset_pair = o.asset_pair;
  side = o.side;
  commitment = o.commitment;
  status = order_status_text o.status;
  match_id = m;
}

-- The rows of `LEFT JOIN matches` for one order.
abbrev pub joined_rows : OrderRow → List MatchRow → List Summary
joined_rows o [] = summary o [] ∷ []
joined_rows o (m ∷ ms) = map (λ n. summary o (match_id n)) (m ∷ ms)

abbrev pub joined : List MatchRow → OrderRow → List Summary
joined ms o = joined_rows o (filter (has_party o.id) ms)

abbrev pub join : List MatchRow → List OrderRow → List Summary
join ms [] = []
join ms (o ∷ os) = joined ms o ++ join ms os

-- `ListOrders`.
unfoldable pub list_orders : ℕ → Db → List Summary
list_orders limit db = take limit (join db.matches (reverse db.orders))

-- The limit of handleListOrders: 100, unless the query has a number from 1 to 1000.
abbrev pub in_limit : ℤ → ℕ
in_limit (pos n) = if ltb 0 n && leb n 1000 then n else 100
in_limit (negsuc n) = 100

unfoldable pub limit_of : (Text → Option ℤ) → Text → ℕ
limit_of atoi v = if is_empty v then 100 else elim (atoi v) [ none ↦ 100 | some n ↦ in_limit n ]

-- What a handler of a GET request answers with: a status code and, at 200, what it has read.
pub record Answer (A : Type 0) : Type 0 where
  pub code : ℕ
  pub content : Option A

abbrev pub refusal : {A : Type 0} → ℕ → Answer A
refusal code = record { code = code; content = none }

abbrev pub success : {A : Type 0} → A → Answer A
success a = record { code = 200; content = some a }

unfoldable pub handle_list_orders :
    (Text → Option ℤ) → Server → Bool → Text → Db → Answer (List Summary)
handle_list_orders atoi s is_read v db =
    if s.has_store
    then if is_read then success (list_orders (limit_of atoi v) db) else refusal 500
    else refusal 503

unfoldable pub handle_get_match : Server → Bool → Text → Db → Answer MatchView
handle_get_match s is_read id db =
    if s.has_store
    then if is_read
      then elim (get_match id db) [ none ↦ refusal 404 | some m ↦ success m ]
      else refusal 500
    else refusal 503

-- `handleHealth`: the code, and the body's `status` and `db`.
unfoldable pub handle_health : Bool → ℕ × Text × Text
handle_health is_up =
    if is_up then (200, codes "ok", codes "up") else (503, codes "degraded", codes "down")
