-- ===== src/Access.antt =====
-- web/app/app/_components/AccessForm.tsx: the sign-in form. A desk that is found in the storage is taken
-- at the type that the code gives it. Each draw of `Keypair.random()` is an argument of its event.
pub mod SignIn
pub mod Blocked
use nyx_darkpool.Base.{
  Bool, true, false, not, Option, none, some, List, [], ◌∷◌, Text, codes, if◌then◌else◌, is_empty,
  trim, Outcome, returned, threw,
}
use nyx_darkpool.Browser.{Storage}
use nyx_darkpool.Identity.{Keypair, Stellar, Desk, create_desk, import_desk, save_desk, clear_desk}

pub data Mode : Type 0 where
  generate import : Mode

pub record Form : Type 0 where
  pub existing : Option Desk
  pub mode : Mode
  pub generated : Option Desk
  pub secret : Text
  pub err : Option Text
  pub pushed : Option Text

abbrev pub blank : Form
blank = record {
  existing = none;
  mode = generate;
  generated = none;
  secret = [];
  err = none;
  pushed = none;
}

abbrev pub desk_label : Text
desk_label = codes "Desk"

abbrev pub blocked : Text
blocked = codes "Storage is blocked. Enable cookies / site data for this site to sign in."

abbrev pub desk_page : Text
desk_page = codes "/app"

unfoldable pub authenticate : Desk → Form × Storage → Form × Storage
authenticate d (f, s) =
    let (s', is_saved) = save_desk d s in
    if is_saved
    then (record f { pushed = some desk_page }, s')
    else (record f { err = some blocked }, s')

pub data Event : Type 0 where
  continue_as authenticate_new authenticate_import : Event
  switch_key regenerate : Keypair → Event
  pick_mode : Mode → Event
  type_secret : Text → Event

module _ (stellar : Stellar) where
  -- The effect on mount: a desk that exists is offered, or a new one is drawn.
  unfoldable pub mounted : Option Desk → Keypair → Form
  mounted (some d) kp = record blank { existing = some d }
  mounted none kp = record blank { generated = some (create_desk stellar kp desk_label) }

  unfoldable pub import_clicked : Form × Storage → Form × Storage
  import_clicked (f, s) = elim (import_desk stellar desk_label f.secret) [
    | threw message ↦ (record f { err = some message }, s)
    | returned d ↦ authenticate d (f, s)
  ]

  -- What the three faces of the form can do: of a desk that exists, and of the two modes.
  abbrev pub on_existing : Desk → Event → Form × Storage → Form × Storage
  on_existing d continue_as st = authenticate d st
  on_existing d (switch_key kp) (f, s) = (
    record f {
      existing = none;
      generated = some (create_desk stellar kp desk_label);
      mode = generate;
    },
    clear_desk s,
  )
  on_existing d _ st = st

  abbrev pub on_generate : Event → Form × Storage → Form × Storage
  on_generate authenticate_new (f, s) = elim f.generated [
    | none ↦ (f, s)
    | some d ↦ authenticate d (f, s)
  ]
  on_generate (regenerate kp) (f, s) =
      (record f { generated = some (create_desk stellar kp desk_label); err = none }, s)
  on_generate (pick_mode m) (f, s) = (record f { mode = m; err = none }, s)
  on_generate _ st = st

  abbrev pub on_import : Event → Form × Storage → Form × Storage
  on_import authenticate_import (f, s) =
      if is_empty (trim f.secret) then (f, s) else import_clicked (f, s)
  on_import (type_secret t) (f, s) = (record f { secret = t; err = none }, s)
  on_import (pick_mode m) (f, s) = (record f { mode = m; err = none }, s)
  on_import _ st = st

  abbrev pub on_mode : Mode → Event → Form × Storage → Form × Storage
  on_mode generate e st = on_generate e st
  on_mode import e st = on_import e st

  unfoldable pub step : Event → Form × Storage → Form × Storage
  step e (f, s) = elim f.existing [
    | some d ↦ on_existing d e (f, s)
    | none ↦ on_mode f.mode e (f, s)
  ]

  unfoldable pub run : List Event → Form × Storage → Form × Storage
  run [] st = st
  run (e ∷ es) st = run es (step e st)
