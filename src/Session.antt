-- ===== src/Session.antt =====
-- web/app/_lib/ui.ts: what the product screens keep in local storage: the active order, the
-- demo-mode switch and the draft of the Compose form. What is read back is any JSON value, as the
-- source's casts leave it; `none` is null.
pub mod Laws
use Prim.Native.String.{String}
use nyx_darkpool.Base.{
  Bool, true, false, ◌&&◌, not, Option, none, some, [], ◌∷◌, Text, codes, ◌===◌, if◌then◌else◌,
  is_empty, Outcome, returned, threw,
}
use nyx_darkpool.Base.Json.{Json, null, bool, num, str, arr, obj, Fields, end, field, stringify}
use nyx_darkpool.Base.Json.Parse.{parse}
use nyx_darkpool.Browser.{Storage, get_item, set_item, prop, truthy, text_of, read_json}

pub record ActiveOrder : Type 0 where
  pub id : Text
  pub side : Text
  pub pair : Text
  pub price_int : Text
  pub volume_int : Text

abbrev pub active_key : String
active_key = "nyx.activeOrder"

abbrev pub active_fields : ActiveOrder → Fields
active_fields o = field (codes "id") (str o.id) (
    field (codes "side") (str o.side) (
      field (codes "pair") (str o.pair) (
        field (codes "priceInt") (str o.price_int)
          (field (codes "volumeInt") (str o.volume_int) end))))

-- A write that throws is ignored.
unfoldable pub set_active_order : ActiveOrder → Storage → Storage
set_active_order o s = (set_item active_key (stringify (obj (active_fields o))) s).0

unfoldable pub active_order_meta : Storage → Option Json
active_order_meta s = if not s.present then none else elim (read_json active_key s) [
  | none ↦ none
  | some o ↦ if truthy (prop (codes "id") o) then some o else none
]

-- A bare id of an older version: whatever text stands under the key.
unfoldable pub legacy_id : Storage → Option Json
legacy_id s = elim (get_item active_key s) [
  | returned (some raw) ↦ some (str raw)
  | returned none ↦ none
  | threw e ↦ none
]

-- `from_url` is the query parameter `order`, if there is one.
unfoldable pub active_order_id : Option Text → Storage → Option Json
active_order_id from_url s =
    let stored : Option Json = elim (active_order_meta s) [
      | some o ↦ prop (codes "id") o
      | none ↦ legacy_id s
    ] in
    if not s.present
    then none
    else elim from_url [ some id ↦ if is_empty id then stored else some (str id) | none ↦ stored ]

abbrev pub demo_key : String
demo_key = "nyx.demoMode"

unfoldable pub demo_mode : Storage → Bool
demo_mode s = if not s.present then false else elim (get_item demo_key s) [
  | returned none ↦ true
  | returned (some v) ↦ v === codes "1"
  | threw e ↦ false
]

unfoldable pub set_demo_mode : Bool → Storage → Storage
set_demo_mode on s = (set_item demo_key (if on then codes "1" else codes "0") s).0

pub record ComposeDraft : Type 0 where
  pub pair : Text
  pub side : Text
  pub tif : Text
  pub price : Text
  pub size : Text

abbrev pub draft_key : String
draft_key = "nyx.composeDraft"

abbrev pub draft_fields : ComposeDraft → Fields
draft_fields d = field (codes "pair") (str d.pair) (
    field (codes "side") (str d.side) (
      field (codes "tif") (str d.tif)
        (field (codes "price") (str d.price) (field (codes "size") (str d.size) end))))

unfoldable pub save_compose_draft : ComposeDraft → Storage → Storage
save_compose_draft d s = (set_item draft_key (stringify (obj (draft_fields d))) s).0

unfoldable pub load_compose_draft : Storage → Option Json
load_compose_draft s = if not s.present then none else elim (read_json draft_key s) [
  | none ↦ none
  | some d ↦ elim (text_of (prop (codes "pair") d)) [ some p ↦ some d | none ↦ none ]
]
