-- ===== src/Cycle.antt =====
-- engine/internal/matcher/matcher.go: matchOnce, which pairs the open orders of each asset pair and
-- creates the matches. `pairs` is what OpenPairs returns, in any order,
-- less the pairs whose orders cannot be loaded; `draw` gives, for each pair, whether
-- the database refuses to serialize its transaction, and the id that it draws otherwise.
pub mod Reading
pub mod Crossing
pub mod Complete
pub mod Quiet
pub mod Unused
use nyx_darkpool.Base.{
  ℕ, suc, ◌+◌, Bool, true, false, Option, none, some, List, [], ◌∷◌, Text, if◌then◌else◌,
}
use nyx_darkpool.Book.{Payload, Order, MatchPair, pair_orders}
use nyx_darkpool.Ledger.{Db, Result, ok, err, create_match, open_orders}

abbrev pub Draw : Type 0
Draw = MatchPair → Bool × Text

-- `created++`, where there is no error.
abbrev pub tally : Result → ℕ
tally (ok id) = 1
tally (err e) = 0

abbrev pub try_match : Draw → MatchPair → Db → Result × Db
try_match draw p db = create_match (draw p).0 (draw p).1 p.maker_id p.taker_id db

-- The inner loop: an error, whatever it is, goes on with the next pair.
unfoldable pub match_pairs : Draw → List MatchPair → Db → ℕ × Db
match_pairs draw [] db = (0, db)
match_pairs draw (p ∷ ps) db =
    let (result, db') = try_match draw p db in
    let (created, db'') = match_pairs draw ps db' in (tally result + created, db'')

-- The outer loop, which reads the open orders of each pair when its turn comes.
unfoldable pub match_once : (Text → Option Payload) → Draw → List Text → Db → ℕ × Db
match_once decode draw [] db = (0, db)
match_once decode draw (pair ∷ pairs) db =
    let (created, db') = match_pairs draw (pair_orders (open_orders decode pair db.orders)) db in
    let (more, db'') = match_once decode draw pairs db' in (created + more, db'')
