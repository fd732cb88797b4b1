-- ===== src/Shell.antt =====
-- The product shell: web/app/app/_components/AuthGate.tsx, DeskFooter.tsx and SideNav.tsx. The router is
-- a field that holds the page it was last sent to.
pub mod Laws
pub mod Navigation
use nyx_darkpool.Base.{
  Bool, true, false, not, Option, none, some, List, [], ◌∷◌, ◌++◌, Text, codes, ◌===◌,
  if◌then◌else◌, starts_with, to_upper, Outcome, returned, threw,
}
use nyx_darkpool.Browser.{Storage, text_of}
use nyx_darkpool.Session.{demo_mode, set_demo_mode}
use nyx_darkpool.Identity.{LoadedDesk, Stellar, load_desk, clear_desk}
use nyx_darkpool.Engine.{type_error}

abbrev pub access_page : Text
access_page = codes "/app/access"

-- `AuthGate`: the children are shown once `ok` is set.
pub record Gate : Type 0 where
  pub ok : Bool
  pub replaced : Option Text

abbrev pub closed : Gate
closed = record { ok = false; replaced = none }

unfoldable pub opened : Option LoadedDesk → Gate → Gate
opened (some d) g = record g { ok = true }
opened none g = record g { replaced = some access_page }

-- The gate's effect on the storage that it finds.
unfoldable pub mount_gate : Stellar → Storage → Gate
mount_gate stellar s = opened (load_desk stellar s) closed

-- `DeskFooter`.
pub record Footer : Type 0 where
  pub desk : Option LoadedDesk
  pub demo : Bool
  pub pushed : Option Text

abbrev pub first_footer : Footer
first_footer = record { desk = none; demo = true; pushed = none }

unfoldable pub mount_footer : Stellar → Storage → Footer
mount_footer stellar s = record first_footer { desk = load_desk stellar s; demo = demo_mode s }

unfoldable pub sign_out : Footer × Storage → Footer × Storage
sign_out (f, s) = (record f { pushed = some access_page }, clear_desk s)

unfoldable pub toggle_demo : Footer × Storage → Footer × Storage
toggle_demo (f, s) = (record f { demo = not f.demo }, set_demo_mode (not f.demo) s)

-- `desk.label.toUpperCase()`, which throws on a label that is no text.
unfoldable pub heading : Footer → Outcome Text
heading f = elim f.desk [
  | none ↦ returned (codes "DESK")
  | some d ↦ elim d.label [
    | none ↦ threw type_error
    | some v ↦ elim (text_of (some v)) [ none ↦ threw type_error | some t ↦ returned (to_upper t) ]
  ]
]

-- `SideNav`.
pub record Item : Type 0 where
  pub label : Text
  pub href : Text

abbrev pub home : Text
home = codes "/app"

abbrev pub items : List Item
items =
    record { label = codes "Desk"; href = home }
    ∷ record { label = codes "Compose"; href = codes "/app/compose" }
    ∷ record { label = codes "Pool"; href = codes "/app/pool" }
    ∷ record { label = codes "Proofs"; href = codes "/app/proofs" }
    ∷ record { label = codes "Settled"; href = codes "/app/settled" }
    ∷ record { label = codes "Positions"; href = codes "/app/positions" }
    ∷ []

unfoldable pub is_active : Text → Item → Bool
is_active pathname it = if it.href === home then pathname === home else starts_with pathname it.href
