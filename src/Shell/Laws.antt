-- ===== src/Shell/Laws.antt =====
-- The gate and the footer.
use nyx_darkpool.Base.{◌≡◌, refl, true, false, not, some, codes, if◌then◌else◌}
use nyx_darkpool.Browser.{Storage}
use nyx_darkpool.Browser.Laws.{MayWrite}
use nyx_darkpool.Session.{demo_key, demo_mode}
use nyx_darkpool.Session.Laws.{demo_mode-set}
use nyx_darkpool.Identity.{Stellar}
use nyx_darkpool.Identity.Laws.{load_desk-clear_desk}
use nyx_darkpool.Shell.{opened, mount_gate, Footer, sign_out, toggle_demo, access_page}

-- After signing out the gate shows nothing and sends the router to the access page, wherever the
-- storage can be read.
pub mount_gate-sign_out :
    (stellar : Stellar) (f : Footer) (s : Storage)
    → s.readable ≡ true
    → mount_gate stellar (sign_out (f, s)).1 ≡ record { ok = false; replaced = some access_page }
unfolding mount_gate sign_out opened
mount_gate-sign_out stellar f s can_read = rw (load_desk-clear_desk stellar s can_read)

-- A click on the demo switch turns it over, and the storage then holds what the switch shows, in a
-- browser that allows the write.
pub demo_mode-toggle_demo :
    (f : Footer) (s : Storage)
    → MayWrite demo_key (if not f.demo then codes "1" else codes "0") s
    → ((toggle_demo (f, s)).0.demo ≡ not f.demo)
      × (demo_mode (toggle_demo (f, s)).1 ≡ (toggle_demo (f, s)).0.demo)
unfolding toggle_demo
demo_mode-toggle_demo f s may = (refl, demo_mode-set (not f.demo) s may)
