-- ===== src/Tests/Trading.antt =====
-- The Compose form.
use nyx_darkpool.Base.{
  ◌+◌, ◌≤◌, ◌≡◌, inl, refl, true, List, [], ◌∷◌, none, some, Text, codes, Outcome, returned, All,
  arith, length,
}
use nyx_darkpool.Browser.{Storage}
use nyx_darkpool.Session.{set_active_order}
use nyx_darkpool.Identity.{LoadedDesk}
use nyx_darkpool.Seal.{Sealed}
use nyx_darkpool.Engine.{CreateOrderBody}
use nyx_darkpool.Compose.View.{is_disabled}
use nyx_darkpool.Compose.{
  Form, Event, Pending, bid, settle, click, answer, mounted, with_amounts, seal_settled, broadcast,
  send, run, step, order_body, first_pair,
}
use nyx_darkpool.Compose.Guard.{posted-le}
use nyx_darkpool.Compose.Sending.{IsSent, posted-IsSent, meta_of, stored-posted}
use nyx_darkpool.Compose.Stale.{seal_settled-stale, broadcast-stale}

abbrev browser : Storage
browser = record { items = λ k. none; present = true; readable = true; accepts = λ k v. true }

abbrev sign : Text → Text → Outcome Text
sign secret commitment = returned secret

abbrev encode : Text → Outcome Text
encode id = returned id

abbrev desk : LoadedDesk
desk = record { label = none; public_key = codes "GSAB"; secret = codes "SAB" }

abbrev sealed : Sealed
sealed = record {
  price_int = codes "9984";
  volume_int = codes "5000000";
  salt = codes "77";
  commitment = codes "1003";
  nullifier = codes "1002";
}

-- A seal comes back, and the button is clicked twice.
abbrev double_click : List Event
double_click = settle 0 (returned sealed) ∷ click (some desk) ∷ click (some desk) ∷ []

posted-le_example : length (run sign encode double_click (mounted, browser)).0.posted ≤ 1 + 0
posted-le_example = posted-le sign encode double_click browser

-- A commitment that is named as the one above.
abbrev IsNamed : Sealed → Type 0
IsNamed s = s.commitment ≡ codes "1003"

posted-IsSent_example :
    All (IsSent sign encode IsNamed) (run sign encode double_click (mounted, browser)).0.posted
posted-IsSent_example =
    posted-IsSent sign encode IsNamed double_click browser (refl, (tt, (tt, tt)))

abbrev pending : Pending
pending = record { sealed = sealed; pair = first_pair; side = bid }

abbrev sent : CreateOrderBody
sent = order_body desk sealed first_pair bid (codes "SAB")

stored-posted_case :
    (step sign encode
      (answer (returned (codes "0f3a")))
      (run sign encode double_click (mounted, browser))).1
    ≡ set_active_order
        (meta_of (codes "0f3a") sent)
        (run sign encode double_click (mounted, browser)).1
unfolding run step mounted seal_settled broadcast send
stored-posted_case =
    stored-posted sign encode double_click browser pending sent [] (codes "0f3a") refl refl

seal_settled-stale_case :
    seal_settled mounted.epoch (returned sealed) (with_amounts (codes "1") (codes "2") mounted)
    ≡ with_amounts (codes "1") (codes "2") mounted
unfolding mounted
seal_settled-stale_case =
    seal_settled-stale (codes "1") (codes "2") mounted (returned sealed) (inl (λ e. ground arith))

abbrev ready : Form
ready = seal_settled 0 (returned sealed) mounted

broadcast-stale_example :
    (is_disabled (with_amounts (codes "1") (codes "2") ready) ≡ is_disabled ready)
    × ((broadcast sign (some desk) (with_amounts (codes "1") (codes "2") ready)).posted
        ≡ (broadcast sign (some desk) ready).posted)
broadcast-stale_example = broadcast-stale sign (some desk) (codes "1") (codes "2") ready

-- Before the change of the amounts is sealed, a click sends the order of the old ones.
stale_run :
    (broadcast sign (some desk) (with_amounts (codes "1") (codes "2") ready)).posted ≡ sent ∷ []
unfolding broadcast send with_amounts seal_settled mounted
stale_run = refl
