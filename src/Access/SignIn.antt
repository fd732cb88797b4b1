-- ===== src/Access/SignIn.antt =====
-- Whoever the form lets in, the gate lets in.
use nyx_darkpool.Base.{◌≡◌, true, false, some, trim, arith}
use nyx_darkpool.Base.Json.{obj, stringify}
use nyx_darkpool.Base.Json.Parse.RoundTrip.{IsFlat}
use nyx_darkpool.Browser.{Storage}
use nyx_darkpool.Browser.Laws.{MayWrite}
use nyx_darkpool.Identity.{
  Stellar, Desk, desk_key, desk_fields, save_desk, import_desk, not_a_secret,
}
use nyx_darkpool.Identity.Laws.{IsStellar, IsValidDesk, load_of_valid, save_desk-refused}
use nyx_darkpool.Shell.{closed, opened, mount_gate}
use nyx_darkpool.Access.{Form, authenticate, desk_page, blocked, import_clicked}

authenticate-saved :
    (d : Desk) (f : Form) (s : Storage)
    → (save_desk d s).1 ≡ true
    → authenticate d (f, s) ≡ (record f { pushed = some desk_page }, (save_desk d s).0)
unfolding authenticate
authenticate-saved d f s e = ground arith

-- In a browser that allows the write, a desk whose keys pass the library's checks is signed in: the
-- router goes to the desk's page, and the gate in front of that page opens.
pub mount_gate-authenticate :
    (stellar : Stellar) (d : Desk) (f : Form) (s : Storage)
    → IsStellar stellar
    → IsValidDesk stellar d
    → IsFlat (desk_fields d)
    → MayWrite desk_key (stringify (obj (desk_fields d))) s
    → ((authenticate d (f, s)).0.pushed ≡ some desk_page)
      × (mount_gate stellar (authenticate d (f, s)).1 ≡ record closed { ok = true })
unfolding mount_gate opened
mount_gate-authenticate stellar d f s laws valid flat may =
    let (kept, found) = load_of_valid stellar d s laws valid flat may in
    ground (arith, authenticate-saved d f s kept, found)

-- Where the write is refused, the form stays where it is and says so, and the storage is as before.
pub authenticate-refused :
    (d : Desk) (f : Form) (s : Storage)
    → (save_desk d s).1 ≡ false
    → authenticate d (f, s) ≡ (record f { err = some blocked }, s)
unfolding authenticate
authenticate-refused d f s e = ground (arith, save_desk-refused d s e)

-- A secret that fails the library's check once it is trimmed is not imported: the form says so, and
-- neither the storage nor the router is touched.
pub import_clicked-invalid :
    (stellar : Stellar) (f : Form) (s : Storage)
    → stellar.is_valid_seed (trim f.secret) ≡ false
    → import_clicked stellar (f, s) ≡ (record f { err = some (not_a_secret stellar) }, s)
unfolding import_clicked import_desk
import_clicked-invalid stellar f s bad = ground arith
