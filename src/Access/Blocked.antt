-- ===== src/Access/Blocked.antt =====
-- The form where the browser refuses every write.
use nyx_darkpool.Base.{
  ◌≡◌, refl, sym, subst, Bool, true, false, Option, none, some, List, [], ◌∷◌, Text, if◌then◌else◌,
  is_empty, trim, Outcome, returned, threw, arith,
}
use Prim.Native.String.{String}
use nyx_darkpool.Base.Json.{obj, stringify}
use nyx_darkpool.Browser.{Storage, set_item, remove_item}
use nyx_darkpool.Identity.{
  desk_key, desk_fields, Stellar, Keypair, Desk, save_desk, clear_desk, import_desk,
}
use nyx_darkpool.Access.SignIn.{authenticate-refused}
use nyx_darkpool.Access.{
  Form, Mode, generate, import, Event, continue_as, authenticate_new, authenticate_import,
  switch_key, regenerate, pick_mode, type_secret, authenticate, import_clicked, mounted, step, run,
  on_existing, on_mode, desk_label,
}

abbrev pub Refuses : Storage → Type 0
Refuses s = (key : String) (v : Text) → s.accepts key v ≡ false

abbrev IsStuck : Form × Storage → Type 0
IsStuck st = (st.0.pushed ≡ none) × Refuses st.1

save_desk-Refuses : (d : Desk) (s : Storage) → Refuses s → (save_desk d s).1 ≡ false
unfolding save_desk set_item
save_desk-Refuses d s denied = ground (arith, denied desk_key (stringify (obj (desk_fields d))))

clear_desk-accepts : (s : Storage) → (clear_desk s).accepts ≡ s.accepts
unfolding clear_desk remove_item
clear_desk-accepts s = ground arith

clear_desk-Refuses : (s : Storage) → Refuses s → Refuses (clear_desk s)
clear_desk-Refuses s denied key v = rw (clear_desk-accepts s) (denied key v)

authenticate-IsStuck :
    (d : Desk) (f : Form) (s : Storage) → IsStuck (f, s) → IsStuck (authenticate d (f, s))
authenticate-IsStuck d f s (still, denied) =
    subst IsStuck (sym (authenticate-refused d f s (save_desk-Refuses d s denied))) (still, denied)

module _ (stellar : Stellar) where
  imported :
      (o : Outcome Desk) (f : Form) (s : Storage)
      → IsStuck (f, s)
      → IsStuck (elim o [
        | threw message ↦ (record f { err = some message }, s)
        | returned d ↦ authenticate d (f, s)
      ])
  imported (threw message) f s h = h
  imported (returned d) f s h = authenticate-IsStuck d f s h

  import_clicked-IsStuck :
      (f : Form) (s : Storage) → IsStuck (f, s) → IsStuck (import_clicked stellar (f, s))
  unfolding import_clicked
  import_clicked-IsStuck f s h = imported (import_desk stellar desk_label f.secret) f s h

  unless_empty :
      (b : Bool) (f : Form) (s : Storage)
      → IsStuck (f, s)
      → IsStuck (if b then (f, s) else import_clicked stellar (f, s))
  unless_empty true f s h = h
  unless_empty false f s h = import_clicked-IsStuck f s h

  on_existing-IsStuck :
      (d : Desk) (e : Event) (f : Form) (s : Storage)
      → IsStuck (f, s)
      → IsStuck (on_existing stellar d e (f, s))
  on_existing-IsStuck d continue_as f s h = authenticate-IsStuck d f s h
  on_existing-IsStuck d (switch_key kp) f s (still, denied) = (still, clear_desk-Refuses s denied)
  on_existing-IsStuck d authenticate_new f s h = h
  on_existing-IsStuck d authenticate_import f s h = h
  on_existing-IsStuck d (regenerate kp) f s h = h
  on_existing-IsStuck d (pick_mode m) f s h = h
  on_existing-IsStuck d (type_secret t) f s h = h

  generated_new :
      (g : Option Desk) (f : Form) (s : Storage)
      → IsStuck (f, s)
      → IsStuck (elim g [ none ↦ (f, s) | some d ↦ authenticate d (f, s) ])
  generated_new none f s h = h
  generated_new (some d) f s h = authenticate-IsStuck d f s h

  on_mode-IsStuck :
      (m : Mode) (e : Event) (f : Form) (s : Storage)
      → IsStuck (f, s)
      → IsStuck (on_mode stellar m e (f, s))
  on_mode-IsStuck generate authenticate_new f s h = generated_new f.generated f s h
  on_mode-IsStuck import authenticate_import f s h = unless_empty (is_empty (trim f.secret)) f s h
  on_mode-IsStuck generate continue_as f s h = h
  on_mode-IsStuck generate authenticate_import f s h = h
  on_mode-IsStuck generate (switch_key kp) f s h = h
  on_mode-IsStuck generate (regenerate kp) f s h = h
  on_mode-IsStuck generate (pick_mode m) f s h = h
  on_mode-IsStuck generate (type_secret t) f s h = h
  on_mode-IsStuck import continue_as f s h = h
  on_mode-IsStuck import authenticate_new f s h = h
  on_mode-IsStuck import (switch_key kp) f s h = h
  on_mode-IsStuck import (regenerate kp) f s h = h
  on_mode-IsStuck import (pick_mode m) f s h = h
  on_mode-IsStuck import (type_secret t) f s h = h

  by_face :
      (x : Option Desk) (e : Event) (f : Form) (s : Storage)
      → IsStuck (f, s)
      → IsStuck (elim x [
        | some d ↦ on_existing stellar d e (f, s)
        | none ↦ on_mode stellar f.mode e (f, s)
      ])
  by_face none e f s h = on_mode-IsStuck f.mode e f s h
  by_face (some d) e f s h = on_existing-IsStuck d e f s h

  step-IsStuck :
      (e : Event) (f : Form) (s : Storage) → IsStuck (f, s) → IsStuck (step stellar e (f, s))
  unfolding step
  step-IsStuck e f s h = by_face f.existing e f s h

  run-IsStuck :
      (es : List Event) (f : Form) (s : Storage) → IsStuck (f, s) → IsStuck (run stellar es (f, s))
  unfolding run
  run-IsStuck [] f s h = h
  run-IsStuck (e ∷ es) f s h =
      let (f', s') = step stellar e (f, s) in run-IsStuck es f' s' (step-IsStuck e f s h)

  mounted-pushed : (x : Option Desk) (kp : Keypair) → (mounted stellar x kp).pushed ≡ none
  unfolding mounted
  mounted-pushed none kp = refl
  mounted-pushed (some d) kp = refl

  -- In a browser that refuses every write nobody is let through: whatever is typed and clicked, the
  -- router is sent nowhere.
  pub run-blocked :
      (es : List Event) (found : Option Desk) (kp : Keypair) (s : Storage)
      → Refuses s
      → (run stellar es (mounted stellar found kp, s)).0.pushed ≡ none
  run-blocked es found kp s denied =
      (run-IsStuck es (mounted stellar found kp) s (mounted-pushed found kp, denied)).0
