-- ===== src/Compose/Stale.antt =====
-- What the form broadcasts while a new seal is on its way.
use nyx_darkpool.Base.{◌+◌, ◌≡◌, ◌≢◌, Option, Text, arith, Outcome, refl, ◌⊎◌, ===_iff}
use nyx_darkpool.Identity.{LoadedDesk}
use nyx_darkpool.Seal.{Sealed}
use nyx_darkpool.Compose.View.{is_disabled}
use nyx_darkpool.Compose.{Form, with_amounts, seal_settled, send, broadcast, broadcast_failed}

moved :
    (price size : Text) (f : Form)
    → price ≢ f.price ⊎ size ≢ f.size
    → (with_amounts price size f).epoch ≡ f.epoch + 1
unfolding with_amounts
moved price size f h = ground (arith, ===_iff price f.price, ===_iff size f.size)

-- A seal of an earlier epoch changes nothing: after the price or the size has been changed, what was
-- started for the old ones is dropped when it comes back, whether it is a seal or an error.
pub seal_settled-stale :
    (price size : Text) (f : Form) (outcome : Outcome Sealed)
    → price ≢ f.price ⊎ size ≢ f.size
    → seal_settled f.epoch outcome (with_amounts price size f) ≡ with_amounts price size f
unfolding seal_settled
seal_settled-stale price size f outcome h = ground (arith, moved price size f h)

-- A change of the price and the size does not touch the button, and until the new seal is there a
-- click sends exactly what it would have sent before the change.
pub broadcast-stale :
    (sign : Text → Text → Outcome Text) (desk : Option LoadedDesk) (price size : Text) (f : Form)
    → (is_disabled (with_amounts price size f) ≡ is_disabled f)
      × ((broadcast sign desk (with_amounts price size f)).posted ≡ (broadcast sign desk f).posted)
unfolding broadcast with_amounts send broadcast_failed is_disabled
broadcast-stale sign desk price size f = (refl, ground arith)
