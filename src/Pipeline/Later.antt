-- ===== src/Pipeline/Later.antt =====
-- The book of orders under the events of the whole engine.
use nyx_darkpool.Base.{List, [], ◌∷◌}
use nyx_darkpool.Ledger as Ledger
use nyx_darkpool.Ledger.{Db, insert, prove, report, settle}
use nyx_darkpool.Ledger.Forward.{IsLater, IsLater-refl, IsLater-trans, step-IsLater}
use nyx_darkpool.Settling.{World}
use nyx_darkpool.Pipeline.{Setup, Event, post, cycle, job, step, run}
use nyx_darkpool.Pipeline.Jobs.{dispatch-P, handle-P}
use nyx_darkpool.Pipeline.Paired.{match_once-IsLater}

-- A table whose book is later than this one's.
abbrev Follows : Db → Db → Type 0
Follows db db' = IsLater db.orders db'.orders

op-Follows :
    (db : Db) (op : Ledger.Op) (db' : Db) → Follows db db' → Follows db (Ledger.step op db')
op-Follows db op db' h =
    IsLater-trans db.orders db'.orders (Ledger.step op db').orders h (step-IsLater op db')

step-Follows : (s : Setup) (e : Event) (w : World) → Follows w.db (step s e w).db
unfolding step Ledger.step
step-Follows s (post id body) w =
    handle-P (Follows w.db) (λ new p db. op-Follows w.db (insert new p) db) s.check_signature
      s.encode s.server id w.db (IsLater-refl w.db.orders) body
step-Follows s (cycle draw pairs) w = match_once-IsLater s.decode draw pairs w.db
step-Follows s (job id a) w =
    dispatch-P (Follows w.db) (λ i proof db. op-Follows w.db (prove i proof) db)
      (λ i status tx db. op-Follows w.db (report i status tx) db)
      (λ i tx db. op-Follows w.db (settle i tx) db) id a s.verify s.config w
      (IsLater-refl w.db.orders)

-- Whatever requests, cycles and jobs follow, the rows of the book stay at their places, with what was
-- sent, and their status never goes back.
pub run-Follows :
    (s : Setup) (es : List Event) (w : World) → IsLater w.db.orders (run s es w).db.orders
unfolding run
run-Follows s [] w = IsLater-refl w.db.orders
run-Follows s (e ∷ es) w =
    IsLater-trans w.db.orders (step s e w).db.orders (run s es (step s e w)).db.orders
      (step-Follows s e w) (run-Follows s es (step s e w))
