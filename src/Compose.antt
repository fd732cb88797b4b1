-- ===== src/Compose.antt =====
-- web/app/app/_components/ComposeForm.tsx: the form's state, its live seal, and the broadcast of an
-- order. What waits on the network is cut at each `await`: a click sends a request and leaves a
-- `Pending` broadcast, and the reply finishes it. `sign` is `signCommitment`, which may throw.
pub mod Guard
pub mod Sending
pub mod Stale
pub mod View
pub mod Draft
use nyx_darkpool.Base.{
  ℕ, zero, suc, ◌+◌, ◌-◌, Bool, true, false, ◌&&◌, ◌||◌, not, Option, none, some, List, [], ◌∷◌,
  ◌++◌, Text, codes, ◌===◌, ◌==◌, if◌then◌else◌, is_empty, length, take, drop, leb, any, contains,
  to_lower, Outcome, returned, threw,
}
use nyx_darkpool.Base.Json.{Json, str}
use nyx_darkpool.Browser.{Storage, prop, text_of}
use nyx_darkpool.Session.{
  ActiveOrder, set_active_order, ComposeDraft, save_compose_draft, load_compose_draft,
}
use nyx_darkpool.Identity.{LoadedDesk}
use nyx_darkpool.Seal.{Sealed}
use nyx_darkpool.Engine.{CreateOrderBody}
use nyx_darkpool.Ui.{ellipsis}

abbrev pub pairs : List Text
pairs =
    codes "US-TBILL-26/USDC"
    ∷ codes "US-TBILL-27/USDC"
    ∷ codes "EU-BUND-30/USDC"
    ∷ codes "GOLD-RWA/USDC"
    ∷ []

pub data Side : Type 0 where
  bid ask : Side

pub data Tif : Type 0 where
  gtc ioc one_hour : Tif

-- The spellings on the form and in the draft, and those of the engine.
abbrev pub side_text : Side → Text
side_text bid = codes "BID"
side_text ask = codes "ASK"

abbrev pub tif_text : Tif → Text
tif_text gtc = codes "GTC"
tif_text ioc = codes "IOC"
tif_text one_hour = codes "1H"

abbrev pub wire_side : Side → Text
wire_side bid = codes "bid"
wire_side ask = codes "ask"

-- A broadcast that waits for the engine: the request's values are those of the render that was
-- clicked, whatever is typed meanwhile.
pub record Pending : Type 0 where
  pub sealed : Sealed
  pub pair : Text
  pub side : Side

-- `epoch` counts the seals that were started; only the last is alive. `posted` lists the bodies that
-- were sent, the last first, and `pushed` is the page that the router was sent to.
pub record Form : Type 0 where
  pub pair : Text
  pub side : Side
  pub tif : Tif
  pub price : Text
  pub size : Text
  pub epoch : ℕ
  pub sealed : Option Sealed
  pub seal_err : Option Text
  pub busy : Bool
  pub submit_err : Option Text
  pub busy_ref : Bool
  pub pending : Option Pending
  pub posted : List CreateOrderBody
  pub pushed : Option Text

abbrev pub first_pair : Text
first_pair = codes "US-TBILL-26/USDC"

unfoldable pub mounted : Form
mounted = record {
  pair = first_pair;
  side = bid;
  tif = gtc;
  price = codes "99.84";
  size = codes "5,000,000";
  epoch = 0;
  sealed = none;
  seal_err = none;
  busy = false;
  submit_err = none;
  busy_ref = false;
  pending = none;
  posted = [];
  pushed = none;
}

-- Where the price or the size is another than before, a new seal starts and the old one is disowned.
unfoldable pub with_amounts : Text → Text → Form → Form
with_amounts price size f = record f {
  price = price;
  size = size;
  epoch = if price === f.price && size === f.size then f.epoch else f.epoch + 1;
}

abbrev pub set_price : Text → Form → Form
set_price price f = with_amounts price f.size f

abbrev pub set_size : Text → Form → Form
set_size size f = with_amounts f.price size f

-- A seal of epoch `e` comes back.
unfoldable pub seal_settled : ℕ → Outcome Sealed → Form → Form
seal_settled e outcome f =
    if e == f.epoch
    then elim outcome [
      | returned s ↦ record f { sealed = some s; seal_err = none }
      | threw message ↦ record f { sealed = none; seal_err = some message }
    ]
    else f

abbrev pub no_desk : Text
no_desk = codes "no desk identity, re-authenticate"

abbrev pub already_broadcast : Text
already_broadcast = codes "already broadcast, view it in the pool"

-- `/nullifier/i.test(msg)`.
unfoldable pub submit_message : Text → Text
submit_message message =
    if contains (codes "nullifier") (to_lower message) then already_broadcast else message

-- The `catch` of `broadcast`.
unfoldable pub broadcast_failed : Text → Form → Form
broadcast_failed message f = record f {
  submit_err = some (submit_message message);
  busy = false;
  busy_ref = false;
  pending = none;
}

abbrev pub order_body : LoadedDesk → Sealed → Text → Side → Text → CreateOrderBody
order_body desk sealed pair side signature = record {
  pubkey = desk.public_key;
  asset_pair = pair;
  side = wire_side side;
  price = sealed.price_int;
  volume = sealed.volume_int;
  salt = sealed.salt;
  commitment = sealed.commitment;
  nullifier = sealed.nullifier;
  signature = some signature;
}

-- Behind the guards: the order is signed and sent.
unfoldable pub send : (Text → Text → Outcome Text) → LoadedDesk → Sealed → Form → Form
send sign desk sealed f = elim (sign desk.secret sealed.commitment) [
  | threw message ↦ broadcast_failed message f
  | returned signature ↦ record f {
    busy_ref = true;
    busy = true;
    submit_err = none;
    pending = some (record { sealed = sealed; pair = f.pair; side = f.side });
    posted = order_body desk sealed f.pair f.side signature ∷ f.posted;
  }
]

-- A click on "Seal & broadcast"; `desk` is what `loadDesk()` returns.
unfoldable pub broadcast : (Text → Text → Outcome Text) → Option LoadedDesk → Form → Form
broadcast sign desk f = elim f.sealed [
  | none ↦ f
  | some sealed ↦ if f.busy_ref then f else elim desk [
    | none ↦ record f { busy_ref = false; submit_err = some no_desk }
    | some d ↦ send sign d sealed f
  ]
]

abbrev pub active_of : Pending → Text → ActiveOrder
active_of p id = record {
  id = id;
  side = wire_side p.side;
  pair = p.pair;
  price_int = p.sealed.price_int;
  volume_int = p.sealed.volume_int;
}

-- The engine's reply to a pending broadcast: the new order's id, or an error. `encode` is
-- `encodeURIComponent`; where it throws, the `catch` runs with the active order already stored.
unfoldable pub replied : (Text → Outcome Text) → Outcome Text → Form → Storage → Form × Storage
replied encode reply f s = elim f.pending [
  | none ↦ (f, s)
  | some p ↦ elim reply [
    | threw message ↦ (broadcast_failed message f, s)
    | returned id ↦ elim (encode id) [
      | threw message ↦ (broadcast_failed message f, set_active_order (active_of p id) s)
      | returned part ↦ (
        record f { pending = none; pushed = some (codes "/app/pool?order=" ++ part) },
        set_active_order (active_of p id) s,
      )
    ]
  ]
]

-- What can happen to a mounted form. `desk` is what local storage holds at the click.
pub data Event : Type 0 where
  pick_pair : Text → Event
  pick_side : Side → Event
  pick_tif : Tif → Event
  type_price type_size : Text → Event
  settle : ℕ → Outcome Sealed → Event
  click : (desk : Option LoadedDesk) → Event
  answer : Outcome Text → Event

module _ (sign : Text → Text → Outcome Text) (encode : Text → Outcome Text) where
  unfoldable pub step : Event → Form × Storage → Form × Storage
  step (pick_pair p) (f, s) = (record f { pair = p }, s)
  step (pick_side d) (f, s) = (record f { side = d }, s)
  step (pick_tif t) (f, s) = (record f { tif = t }, s)
  step (type_price p) (f, s) = (set_price p f, s)
  step (type_size z) (f, s) = (set_size z f, s)
  step (settle e o) (f, s) = (seal_settled e o f, s)
  step (click desk) (f, s) = (broadcast sign desk f, s)
  step (answer reply) (f, s) = replied encode reply f s

  unfoldable pub run : List Event → Form × Storage → Form × Storage
  run [] st = st
  run (e ∷ es) st = run es (step e st)
