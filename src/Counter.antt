-- ===== src/Counter.antt =====
-- web/app/app/_components/PoolBody.tsx, the second effect: in demo mode the pool screen posts an order
-- that crosses one's own. The asynchronous `tick` is cut at each `await`, so that a reply is an event;
-- `sign` is `signCommitment`. The engine's list is taken at the type that the code gives it.
pub mod Once
pub mod Cross
use nyx_darkpool.Base.{
  ℕ, zero, ◌+◌, Bool, true, false, ◌&&◌, ◌||◌, not, Option, none, some, List, [], ◌∷◌, Text, codes,
  ◌===◌, if◌then◌else◌, ltb, find, any, Outcome, returned, threw,
}
use nyx_darkpool.Session.{ActiveOrder}
use nyx_darkpool.Identity.{LoadedDesk}
use nyx_darkpool.Seal.{Sealed}
use nyx_darkpool.Engine.{CreateOrderBody, OrderSummary}

-- What `tick` waits for: nothing, the list of orders, the new seal, or the engine's receipt.
pub data Awaiting : Type 0 where
  idle listing sealing sending : Awaiting

-- `timer` says that a call of `tick` is scheduled; `posted` lists the bodies that were sent.
pub record Counter : Type 0 where
  pub filled : Bool
  pub cancelled : Bool
  pub deferrals : ℕ
  pub timer : Bool
  pub awaiting : Awaiting
  pub posted : List CreateOrderBody

abbrev pub max_deferrals : ℕ
max_deferrals = 2

-- The effect has run: the first call is scheduled. Without demo mode, an active order and a desk it
-- does not.
abbrev pub armed : Counter
armed = record {
  filled = false;
  cancelled = false;
  deferrals = 0;
  timer = true;
  awaiting = idle;
  posted = [];
}

abbrev pub dormant : Counter
dormant = record armed { timer = false }

unfoldable pub mounted : Bool → Option ActiveOrder → Option LoadedDesk → Counter
mounted false meta desk = dormant
mounted true (some meta) (some desk) = armed
mounted true _ _ = dormant

abbrev pub open_status : Text
open_status = codes "open"

unfoldable pub is_open : OrderSummary → Bool
is_open o = o.status === open_status

unfoldable pub opposes : ActiveOrder → OrderSummary → Bool
opposes meta o =
    not (o.id === meta.id) && is_open o && o.asset_pair === meta.pair && not (o.side === meta.side)

unfoldable pub my_order : ActiveOrder → List OrderSummary → Option OrderSummary
my_order meta all = find (λ o. o.id === meta.id) all

-- The order is in the list, and open.
unfoldable pub is_mine_open : ActiveOrder → List OrderSummary → Bool
is_mine_open meta all = elim (my_order meta all) [ none ↦ false | some o ↦ is_open o ]

unfoldable pub opposing_rests : ActiveOrder → List OrderSummary → Bool
opposing_rests meta all = any (opposes meta) all

unfoldable pub opposite : Text → Text
opposite side = if side === codes "bid" then codes "ask" else codes "bid"

unfoldable pub counter_body : ActiveOrder → LoadedDesk → Sealed → Text → CreateOrderBody
counter_body meta desk counter signature = record {
  pubkey = desk.public_key;
  asset_pair = meta.pair;
  side = opposite meta.side;
  price = counter.price_int;
  volume = counter.volume_int;
  salt = counter.salt;
  commitment = counter.commitment;
  nullifier = counter.nullifier;
  signature = some signature;
}

-- The `catch`.
unfoldable pub failed : Counter → Counter
failed c = record c { filled = false; awaiting = idle }

-- The timer fires.
unfoldable pub on_fire : Counter → Counter
on_fire c =
    if c.timer
    then (if c.cancelled || c.filled
        then record c { timer = false }
        else record c { timer = false; awaiting = listing })
    else c

-- The list is there.
unfoldable pub on_orders : ActiveOrder → List OrderSummary → Counter → Counter
on_orders meta all c =
    if is_mine_open meta all
    then (if opposing_rests meta all && ltb c.deferrals max_deferrals
        then record c { deferrals = c.deferrals + 1; timer = true; awaiting = idle }
        else record c { filled = true; awaiting = sealing })
    else record c { awaiting = idle }

-- The seal is there: the order is signed and sent.
unfoldable pub on_seal :
    (Text → Text → Outcome Text) → ActiveOrder → LoadedDesk → Sealed → Counter → Counter
on_seal sign meta desk counter c = elim (sign desk.secret counter.commitment) [
  | threw message ↦ failed c
  | returned signature ↦ record c {
    awaiting = sending;
    posted = counter_body meta desk counter signature ∷ c.posted;
  }
]

unfoldable pub unmounted : Counter → Counter
unmounted c = record c { cancelled = true; timer = false }

pub data Event : Type 0 where
  fire leave : Event
  listed : Outcome (List OrderSummary) → Event
  sealed : Outcome Sealed → Event
  created : Outcome Text → Event

-- A reply that nobody waits for does nothing.
module _ (sign : Text → Text → Outcome Text) (meta : ActiveOrder) (desk : LoadedDesk) where
  abbrev pub on_reply : Awaiting → Event → Counter → Counter
  on_reply listing (listed (returned all)) c = on_orders meta all c
  on_reply listing (listed (threw m)) c = failed c
  on_reply sealing (sealed (returned s)) c = on_seal sign meta desk s c
  on_reply sealing (sealed (threw m)) c = failed c
  on_reply sending (created (returned u)) c = record c { awaiting = idle }
  on_reply sending (created (threw m)) c = failed c
  on_reply _ _ c = c

  unfoldable pub step : Event → Counter → Counter
  step fire c = on_fire c
  step leave c = unmounted c
  step e c = on_reply c.awaiting e c

  unfoldable pub run : List Event → Counter → Counter
  run [] c = c
  run (e ∷ es) c = run es (step e c)
