-- ===== src/Tests/Storing.antt =====
-- The stored session and identity, the form that signs in and the gate.
use Prim.Native.String.{String}
use nyx_darkpool.Base.{
  ◌∷◌, List, ◌≤◌, ◌≡◌, refl, true, false, [], ◌++◌, none, some, Text, codes, returned, length,
  arith, cons-ne-nil, trim, is_space, starts_with, filter,
}
use nyx_darkpool.Base.Json.{str, obj, stringify}
use nyx_darkpool.Browser.{remove_item, Storage, set_item}
use nyx_darkpool.Browser.Laws.{MayWrite}
use nyx_darkpool.Session.{
  ActiveOrder, active_key, active_fields, set_active_order, active_order_meta, active_order_id,
  demo_key, demo_mode, ComposeDraft, draft_key, draft_fields, save_compose_draft,
  load_compose_draft,
}
use nyx_darkpool.Session.Laws.{active_order-set, draft-saved}
use nyx_darkpool.Identity.{
  clear_desk, Keypair, Stellar, Desk, desk_key, desk_fields, loaded, load_desk, save_desk,
  import_desk, sign_commitment,
}
use nyx_darkpool.Identity.Laws.{IsStellar, sign_commitment_of_load_desk, load_desk-save_desk}
use nyx_darkpool.Shell.{
  closed, access_page, first_footer, sign_out, toggle_demo, mount_gate, items, is_active,
}
use nyx_darkpool.Shell.Laws.{mount_gate-sign_out, demo_mode-toggle_demo}
use nyx_darkpool.Shell.Navigation.{active-le}
use nyx_darkpool.Access.{
  blank, authenticate, desk_page, Event, authenticate_new, authenticate_import, pick_mode,
  type_secret, switch_key, import, run, step, mounted, import_clicked,
}
use nyx_darkpool.Access.SignIn.{mount_gate-authenticate}
use nyx_darkpool.Access.Blocked.{run-blocked}

-- An empty storage that allows every write, and one that refuses every write.
abbrev browser : Storage
browser = record { items = λ k. none; present = true; readable = true; accepts = λ k v. true }

abbrev private_mode : Storage
private_mode = record browser { accepts = λ k v. false }

abbrev order : ActiveOrder
order = record {
  id = codes "0f3a";
  side = codes "bid";
  pair = codes "GOLD-RWA/USDC";
  price_int = codes "9984";
  volume_int = codes "5000000";
}

writable : (key : String) (v : Text) → MayWrite key v browser
writable key v = record { in_browser = refl; can_read = refl; can_write = refl }

active_order-set_case :
    (active_order_meta (set_active_order order browser) ≡ some (obj (active_fields order)))
    × (active_order_id none (set_active_order order browser) ≡ some (str (codes "0f3a")))
active_order-set_case =
    active_order-set order browser (omega arith) (cons-ne-nil _ _)
      (writable active_key (stringify (obj (active_fields order))))

abbrev draft : ComposeDraft
draft = record {
  pair = codes "GOLD-RWA/USDC";
  side = codes "ASK";
  tif = codes "GTC";
  price = codes "99.";
  size = [];
}

draft-saved_case :
    (load_compose_draft (save_compose_draft draft browser) ≡ some (obj (draft_fields draft)))
    × (active_order_meta (save_compose_draft draft browser) ≡ active_order_meta browser)
    × (demo_mode (save_compose_draft draft browser) ≡ demo_mode browser)
draft-saved_case =
    draft-saved draft browser (omega arith)
      (writable draft_key (stringify (obj (draft_fields draft))))

-- A stand-in for the Stellar library: seeds start with S, and the address of S… is GS….
abbrev stellar : Stellar
stellar = record {
  is_valid_seed = λ s. starts_with s (codes "S");
  is_valid_public = λ p. starts_with p (codes "G");
  from_secret = λ s. returned (record { public_key = codes "G" ++ s; secret = s });
  sign = λ kp bytes. kp.public_key;
}

stellar_laws : IsStellar stellar
unfolding starts_with
stellar_laws = record {
  opens = λ s h. (record { public_key = codes "G" ++ s; secret = s }, refl, refl);
  no_empty_seed = refl;
  no_empty_public = refl;
}

abbrev desk : Desk
desk = record { label = codes "Desk"; public_key = codes "GSAB"; secret = codes "SAB" }

import_run : import_desk stellar (codes "Desk") (codes " SAB ") ≡ returned desk
unfolding import_desk trim is_space starts_with
import_run = refl

saved_run :
    ((save_desk desk browser).1 ≡ true)
    × (load_desk stellar (save_desk desk browser).0 ≡ some (loaded desk))
saved_run =
    load_desk-save_desk stellar (codes "Desk") (codes " SAB ") desk browser stellar_laws import_run
      (omega arith) (writable desk_key (stringify (obj (desk_fields desk))))

sign_commitment_of_load_desk_case :
    (signature : Text) × (sign_commitment stellar (codes "SAB") (codes "123") ≡ returned signature)
sign_commitment_of_load_desk_case =
    sign_commitment_of_load_desk stellar stellar_laws (save_desk desk browser).0 (loaded desk)
      (codes "123") saved_run.1

mount_gate-sign_out_case :
    mount_gate stellar (sign_out (first_footer, browser)).1
    ≡ record { ok = false; replaced = some access_page }
mount_gate-sign_out_case = mount_gate-sign_out stellar first_footer browser refl

demo_mode-toggle_demo_case :
    ((toggle_demo (first_footer, browser)).0.demo ≡ false)
    × (demo_mode (toggle_demo (first_footer, browser)).1
        ≡ (toggle_demo (first_footer, browser)).0.demo)
demo_mode-toggle_demo_case =
    demo_mode-toggle_demo first_footer browser (writable demo_key (codes "0"))

active-le_case : length (filter (is_active (codes "/app/pool")) items) ≤ 1
active-le_case = active-le (codes "/app/pool")

mount_gate-authenticate_case :
    ((authenticate desk (blank, browser)).0.pushed ≡ some desk_page)
    × (mount_gate stellar (authenticate desk (blank, browser)).1 ≡ record closed { ok = true })
unfolding starts_with
mount_gate-authenticate_case =
    mount_gate-authenticate stellar desk blank browser stellar_laws
      (record { seed = refl; public = refl }) (omega arith)
      (writable desk_key (stringify (obj (desk_fields desk))))

abbrev clicks : List Event
clicks = authenticate_new ∷ pick_mode import ∷ type_secret (codes "SAB") ∷ authenticate_import ∷ []

abbrev drawn : Keypair
drawn = record { public_key = codes "GSXY"; secret = codes "SXY" }

run-blocked_case : (run stellar clicks (mounted stellar none drawn, private_mode)).0.pushed ≡ none
run-blocked_case = run-blocked stellar clicks none drawn private_mode (λ key v. refl)

-- After the key was switched, the new desk is let in by a browser that allows the write.
admitted_run :
    (run stellar (switch_key drawn ∷ clicks) (mounted stellar (some desk) drawn, browser)).0.pushed
    ≡ some desk_page
unfolding run step mounted authenticate import_clicked import_desk save_desk set_item clear_desk
    remove_item trim is_space starts_with
admitted_run = refl
