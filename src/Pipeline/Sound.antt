-- ===== src/Pipeline/Sound.antt =====
-- The places of an order, in the tables of the whole engine.
use nyx_darkpool.Base.{◌≡◌, sym, subst, Option, List, [], ◌∷◌, Text, arith}
use nyx_darkpool.Book.{Payload, MatchPair, pair_orders}
use nyx_darkpool.Ledger as Ledger
use nyx_darkpool.Ledger.{
  Db, OnchainStatus, InsertParams, insert, create, prove, report, settle, empty_db, insert_order,
  set_proof, set_onchain, mark_settled, open_orders,
}
use nyx_darkpool.Ledger.Once.{IsSound, step-IsSound}
use nyx_darkpool.Cycle.{Draw, match_pairs, match_once, try_match}
use nyx_darkpool.Settling.{World}
use nyx_darkpool.Pipeline.{Setup, Event, post, cycle, job, step, run}
use nyx_darkpool.Pipeline.Jobs.{dispatch-P, handle-P}

match_pairs-IsSound :
    (draw : Draw) (ps : List MatchPair) (db : Db) → IsSound db → IsSound (match_pairs draw ps db).1
unfolding match_pairs Ledger.step
match_pairs-IsSound draw [] db h = h
match_pairs-IsSound draw (p ∷ ps) db h =
    match_pairs-IsSound draw ps (try_match draw p db).1
      (step-IsSound (create (draw p).0 (draw p).1 p.maker_id p.taker_id) db h)

match_once-IsSound :
    (decode : Text → Option Payload) (draw : Draw) (pairs : List Text) (db : Db)
    → IsSound db
    → IsSound (match_once decode draw pairs db).1
unfolding match_once
match_once-IsSound decode draw [] db h = h
match_once-IsSound decode draw (pair ∷ pairs) db h =
    let ps = pair_orders (open_orders decode pair db.orders) in
    match_once-IsSound decode draw pairs (match_pairs draw ps db).1
      (match_pairs-IsSound draw ps db h)

pub step-IsSound_world :
    (s : Setup) (e : Event) (w : World) → IsSound w.db → IsSound (step s e w).db
unfolding step Ledger.step
step-IsSound_world s (post id body) w h =
    handle-P IsSound (λ new p db. step-IsSound (insert new p) db) s.check_signature s.encode
      s.server id w.db h body
step-IsSound_world s (cycle draw pairs) w h = match_once-IsSound s.decode draw pairs w.db h
step-IsSound_world s (job id a) w h =
    dispatch-P IsSound (λ i proof db. step-IsSound (prove i proof) db)
      (λ i status tx db. step-IsSound (report i status tx) db)
      (λ i tx db. step-IsSound (settle i tx) db) id a s.verify s.config w h

-- From tables that are sound.
pub keep-IsSound_world :
    (s : Setup) (es : List Event) (w : World) → IsSound w.db → IsSound (run s es w).db
unfolding run
keep-IsSound_world s [] w h = h
keep-IsSound_world s (e ∷ es) w h =
    keep-IsSound_world s es (step s e w) (step-IsSound_world s e w h)

-- Whatever requests, cycles and jobs follow each other from empty tables: no two orders have one id, and
-- the places that an order has in the matches, together with its being open, are at most its row.
pub run-IsSound_world :
    (s : Setup) (es : List Event) (w : World) → w.db ≡ empty_db → IsSound (run s es w).db
unfolding empty_db
run-IsSound_world s es w e = keep-IsSound_world s es w (subst IsSound (sym e) start)
  where
    start : IsSound empty_db
    start x = (omega arith, omega arith)
