-- ===== src/Engine.antt =====
-- web/app/_lib/engine.ts: the typed client of the engine's HTTP API. The network is a parameter: a
-- request goes out, and what `fetch` comes back with is an argument. The casts of the source check
-- nothing, so a parsed body is any JSON value here; the records below are the interfaces that the
-- screens work with.
pub mod Laws
use nyx_darkpool.Base.{
  ℕ, Bool, true, false, ◌&&◌, not, Option, none, some, List, [], ◌∷◌, ◌++◌, Text, codes, leb, ◌==◌,
  if◌then◌else◌, is_empty, Outcome, returned, threw, ◌>>=◌,
}
use nyx_darkpool.Base.Decimal.{to_decimal}
use nyx_darkpool.Base.Json.{
  Json, null, bool, num, str, arr, obj, Items, nil, Fields, end, field, stringify,
}
use nyx_darkpool.Base.Json.Parse.{parse}
use nyx_darkpool.Base.Uri.{encode_uri_component}
use nyx_darkpool.Browser.{prop, truthy}

pub record CreateOrderBody : Type 0 where
  pub pubkey : Text
  pub asset_pair : Text
  pub side : Text
  pub price : Text
  pub volume : Text
  pub salt : Text
  pub commitment : Text
  pub nullifier : Text
  pub signature : Option Text

pub record OrderSummary : Type 0 where
  pub id : Text
  pub pubkey : Text
  pub asset_pair : Text
  pub side : Text
  pub commitment : Text
  pub status : Text
  pub created_at : Text
  pub match_id : Option Text

pub record Match : Type 0 where
  pub id : Text
  pub maker_order_id : Text
  pub taker_order_id : Text
  pub has_proof : Bool
  pub onchain_status : Text
  pub settlement_tx : Option Text
  pub created_at : Text

-- `body` is what `res.text()` comes back with.
pub record Response : Type 0 where
  pub status : ℕ
  pub status_text : Text
  pub body : Outcome Text

pub record Request : Type 0 where
  pub method : Text
  pub url : Text
  pub content_type : Option Text
  pub no_store : Bool
  pub body : Option Text

abbrev pub base : Text
base = codes "/api/engine"

-- `res.ok`.
abbrev pub is_ok : Response → Bool
is_ok res = leb 200 res.status && leb res.status 299

abbrev pub syntax_error : Text
syntax_error = codes "SyntaxError"

abbrev pub type_error : Text
type_error = codes "TypeError"

unfoldable pub body_of : Text → Outcome Json
body_of text =
    if is_empty text
    then returned (obj end)
    else elim (parse text) [ some v ↦ returned v | none ↦ threw syntax_error ]

abbrev pub status_line : Response → Text
status_line res = codes "engine: " ++ to_decimal res.status ++ codes " " ++ res.status_text

-- `new Error(v).message`; `shown` is `String(v)` for a value that is no string.
unfoldable pub message_of : (Json → Text) → Json → Text
message_of shown (str s) = s
message_of shown v = shown v

-- `(body && body.error) || status line`. A falsy body has no error, nor has one without the field.
unfoldable pub error_message : (Json → Text) → Response → Json → Text
error_message shown res v = elim (prop (codes "error") v) [
  | none ↦ status_line res
  | some e ↦ if truthy (some e) then message_of shown e else status_line res
]

unfoldable pub json_or_throw : (Json → Text) → Response → Outcome Json
json_or_throw shown res = do
  text ← res.body
  v ← body_of text
  if is_ok res then returned v else threw (error_message shown res v)

-- `JSON.stringify` leaves out a signature that is undefined.
abbrev pub order_fields : CreateOrderBody → Fields
order_fields b = field (codes "pubkey") (str b.pubkey) (
    field (codes "asset_pair") (str b.asset_pair) (
      field (codes "side") (str b.side) (
        field (codes "price") (str b.price) (
          field (codes "volume") (str b.volume) (
            field (codes "salt") (str b.salt) (
              field (codes "commitment") (str b.commitment) (
                field (codes "nullifier") (str b.nullifier) (elim b.signature [
                  | none ↦ end
                  | some sig ↦ field (codes "signature") (str sig) end
                ]))))))))

unfoldable pub create_order_request : CreateOrderBody → Request
create_order_request b = record {
  method = codes "POST";
  url = base ++ codes "/orders";
  content_type = some (codes "application/json");
  no_store = false;
  body = some (stringify (obj (order_fields b)));
}

unfoldable pub create_order : (Json → Text) → Outcome Response → Outcome Json
create_order shown reply = do res ← reply; json_or_throw shown res

abbrev get_request : Text → Request
get_request url = record {
  method = codes "GET";
  url = url;
  content_type = none;
  no_store = true;
  body = none;
}

unfoldable pub list_orders_request : ℕ → Request
list_orders_request limit = get_request (base ++ codes "/orders?limit=" ++ to_decimal limit)

-- `body.orders ?? []`; the access throws on null.
unfoldable pub orders_of : Json → Outcome Json
orders_of null = threw type_error
orders_of v = elim (prop (codes "orders") v) [
  | none ↦ returned (arr nil)
  | some null ↦ returned (arr nil)
  | some orders ↦ returned orders
]

unfoldable pub list_orders : (Json → Text) → Outcome Response → Outcome Json
list_orders shown reply = do res ← reply; v ← json_or_throw shown res; orders_of v

-- `encodeURIComponent` throws on a lone surrogate, before anything is sent.
unfoldable pub get_match_request : Text → Outcome Request
get_match_request id = do
  part ← encode_uri_component id
  returned (get_request (base ++ codes "/matches/" ++ part))

abbrev present : Json → Outcome (Option Json)
present v = returned (some v)

-- `none` is null: there is no such match.
unfoldable pub get_match : (Json → Text) → Outcome Response → Outcome (Option Json)
get_match shown reply = do
  res ← reply
  if res.status == 404 then returned none else json_or_throw shown res >>= present
