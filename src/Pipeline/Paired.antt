-- ===== src/Pipeline/Paired.antt =====
-- The two orders behind each match of the tables.
use nyx_darkpool.Base.{
  ◌≡◌, refl, ◌∙◌, Bool, true, Option, some, List, [], ◌∷◌, ◌++◌, Text, codes, ◌⊎◌, inl, inr, All,
  All-append, All-map, Bool-cases, subst, sym, arith, none,
}
use nyx_darkpool.Book.{Payload, Order, MatchPair, pair_orders}
use nyx_darkpool.Book.Reference.{cross}
use nyx_darkpool.Ledger as Ledger
use nyx_darkpool.Ledger.{
  Db, OrderRow, MatchRow, OnchainStatus, InsertParams, insert, create, prove, report, settle,
  insert_order, set_proof, set_onchain, mark_settled, update_matches, is_match, with_proof,
  is_unconfirmed, with_outcome, confirmed, open_orders,
}
use nyx_darkpool.Ledger.Forward.{IsLater, IsLaterRow, IsLater-refl, IsLater-trans, step-IsLater}
use nyx_darkpool.Cycle.{Draw, match_pairs, match_once, try_match}
use nyx_darkpool.Cycle.Reading.{IsRead, Crosses}
use nyx_darkpool.Cycle.Crossing.{parties, match_once-Adds}
use nyx_darkpool.Settling.{World}
use nyx_darkpool.Pipeline.{Setup, Event, post, cycle, job, step, run}
use nyx_darkpool.Pipeline.Jobs.{dispatch-P, handle-P}

-- The order that stands in this row, whatever its status.
pub record IsHeldBy (decode : Text → Option Payload) (o : OrderRow) (a : Order) : Type 0 where
  pub same_id : a.id ≡ o.id
  pub same_pubkey : a.pubkey ≡ o.pubkey
  pub same_pair : a.asset_pair ≡ o.asset_pair
  pub same_side : a.side ≡ o.side
  pub same_commitment : a.commitment ≡ o.commitment
  pub payload : decode o.blob ≡ some a.payload

abbrev pub IsHeld : (Text → Option Payload) → List OrderRow → Order → Type 0
IsHeld decode [] a = ⊥
IsHeld decode (o ∷ os) a = IsHeldBy decode o a ⊎ IsHeld decode os a

-- The parties of a match: an ask and a bid of the book, of one asset pair, that cross.
pub record IsPaired (decode : Text → Option Payload) (os : List OrderRow) (m : MatchRow)
    : Type 0 where
  pub ask : Order
  pub bid : Order
  pub maker_same : m.maker_order_id ≡ ask.id
  pub taker_same : m.taker_order_id ≡ bid.id
  pub ask_held : IsHeld decode os ask
  pub bid_held : IsHeld decode os bid
  pub same_pair : ask.asset_pair ≡ bid.asset_pair
  pub ask_side : ask.side ≡ codes "ask"
  pub bid_side : bid.side ≡ codes "bid"
  pub fits : cross ask bid ≡ true

module _ (decode : Text → Option Payload) where
  abbrev pub ArePaired : Db → Type 0
  ArePaired db = All (IsPaired decode db.orders) db.matches

  IsHeld-IsRead : (os : List OrderRow) (a : Order) → IsRead decode os a → IsHeld decode os a
  IsHeld-IsRead [] a h = h
  IsHeld-IsRead (o ∷ os) a (inl r) = inl (record {
    same_id = r.same_id;
    same_pubkey = r.same_pubkey;
    same_pair = r.same_pair;
    same_side = r.same_side;
    same_commitment = r.same_commitment;
    payload = r.payload;
  })
  IsHeld-IsRead (o ∷ os) a (inr h) = inr (IsHeld-IsRead os a h)

  IsHeldBy-later :
      (o o' : OrderRow) (a : Order) → IsLaterRow o o' → IsHeldBy decode o a → IsHeldBy decode o' a
  IsHeldBy-later o o' a l h = record {
    same_id = h.same_id ∙ sym l.same_id;
    same_pubkey = h.same_pubkey ∙ sym l.same_pubkey;
    same_pair = h.same_pair ∙ sym l.same_pair;
    same_side = h.same_side ∙ sym l.same_side;
    same_commitment = h.same_commitment ∙ sym l.same_commitment;
    payload = subst (λ b. decode b ≡ some a.payload) (sym l.same_blob) h.payload;
  }

  IsHeld-later :
      (os os' : List OrderRow) (a : Order)
      → IsLater os os'
      → IsHeld decode os a
      → IsHeld decode os' a
  IsHeld-later [] os' a l h = absurd h
  IsHeld-later (o ∷ os) [] a l h = absurd l
  IsHeld-later (o ∷ os) (o' ∷ os') a (l, ls) (inl h) = inl (IsHeldBy-later o o' a l h)
  IsHeld-later (o ∷ os) (o' ∷ os') a (l, ls) (inr h) = inr (IsHeld-later os os' a ls h)

  IsPaired-later :
      (os os' : List OrderRow) (m m' : MatchRow)
      → IsLater os os'
      → m'.maker_order_id ≡ m.maker_order_id
      → m'.taker_order_id ≡ m.taker_order_id
      → IsPaired decode os m
      → IsPaired decode os' m'
  IsPaired-later os os' m m' l maker taker h = record {
    ask = h.ask;
    bid = h.bid;
    maker_same = maker ∙ h.maker_same;
    taker_same = taker ∙ h.taker_same;
    ask_held = IsHeld-later os os' h.ask l h.ask_held;
    bid_held = IsHeld-later os os' h.bid l h.bid_held;
    same_pair = h.same_pair;
    ask_side = h.ask_side;
    bid_side = h.bid_side;
    fits = h.fits;
  }

  AllPaired-later :
      (os os' : List OrderRow) (ms : List MatchRow)
      → IsLater os os'
      → All (IsPaired decode os) ms
      → All (IsPaired decode os') ms
  AllPaired-later os os' ms l h =
      All-map (IsPaired decode os) (IsPaired decode os')
        (λ m h'. IsPaired-later os os' m m l refl refl h') ms h

  -- An update of matches that keeps their parties.
  update-AllPaired :
      (os : List OrderRow) (p : MatchRow → Bool) (f : MatchRow → MatchRow) (ms : List MatchRow)
      → ((m : MatchRow)
          → ((f m).maker_order_id ≡ m.maker_order_id) × ((f m).taker_order_id ≡ m.taker_order_id))
      → All (IsPaired decode os) ms
      → All (IsPaired decode os) (update_matches p f ms)
  update-AllPaired os p f [] keeps h = h
  update-AllPaired os p f (m ∷ ms) keeps (hm, h) = elim (Bool-cases (p m)) [
    | inl e ↦
        let (maker, taker) = keeps m in
        rw e (
          IsPaired-later os os m (f m) (IsLater-refl os) maker taker hm,
          update-AllPaired os p f ms keeps h,
        )
    | inr e ↦ rw e (hm, update-AllPaired os p f ms keeps h)
  ]

  insert-matches :
      (id : Option Text) (p : InsertParams) (db : Db)
      → (insert_order id p db).1.matches ≡ db.matches
  unfolding insert_order
  insert-matches none p db = refl
  insert-matches (some id) p db = ground arith

  insert-ArePaired :
      (id : Option Text) (p : InsertParams) (db : Db)
      → ArePaired db
      → ArePaired (insert_order id p db).1
  unfolding Ledger.step
  insert-ArePaired id p db h =
      let db' = (insert_order id p db).1 in
      subst (All (IsPaired decode db'.orders)) (sym (insert-matches id p db))
        (AllPaired-later db.orders db'.orders db.matches (step-IsLater (insert id p) db) h)

  prove-ArePaired : (id proof : Text) (db : Db) → ArePaired db → ArePaired (set_proof id proof db)
  unfolding set_proof
  prove-ArePaired id proof db h =
      update-AllPaired db.orders (is_match id) (with_proof proof) db.matches (λ m. (refl, refl)) h

  report-ArePaired :
      (id : Text) (status : OnchainStatus) (tx : Text) (db : Db)
      → ArePaired db
      → ArePaired (set_onchain id status tx db)
  unfolding set_onchain
  report-ArePaired id status tx db h =
      update-AllPaired db.orders (is_unconfirmed id) (with_outcome status tx) db.matches
        (λ m. (refl, refl)) h

  settle-ArePaired : (id tx : Text) (db : Db) → ArePaired db → ArePaired (mark_settled id tx db)
  unfolding mark_settled Ledger.step
  settle-ArePaired id tx db h =
      update-AllPaired (mark_settled id tx db).orders (is_unconfirmed id)
        (with_outcome confirmed tx) db.matches (λ m. (refl, refl))
        (AllPaired-later db.orders (mark_settled id tx db).orders db.matches
          (step-IsLater (settle id tx) db) h)

  match_pairs-IsLater :
      (draw : Draw) (ps : List MatchPair) (db : Db)
      → IsLater db.orders (match_pairs draw ps db).1.orders
  unfolding match_pairs Ledger.step
  match_pairs-IsLater draw [] db = IsLater-refl db.orders
  match_pairs-IsLater draw (p ∷ ps) db =
      let db' = (try_match draw p db).1 in
      IsLater-trans db.orders db'.orders (match_pairs draw ps db').1.orders
        (step-IsLater (create (draw p).0 (draw p).1 p.maker_id p.taker_id) db)
        (match_pairs-IsLater draw ps db')

  pub match_once-IsLater :
      (draw : Draw) (pairs : List Text) (db : Db)
      → IsLater db.orders (match_once decode draw pairs db).1.orders
  unfolding match_once
  match_once-IsLater draw [] db = IsLater-refl db.orders
  match_once-IsLater draw (pair ∷ pairs) db =
      let ps = pair_orders (open_orders decode pair db.orders) in
      let db' = (match_pairs draw ps db).1 in
      IsLater-trans db.orders db'.orders (match_once decode draw pairs db').1.orders
        (match_pairs-IsLater draw ps db) (match_once-IsLater draw pairs db')

  IsPaired-Crosses :
      (os : List OrderRow) (m : MatchRow) → Crosses decode os (parties m) → IsPaired decode os m
  IsPaired-Crosses os m c = record {
    ask = c.ask;
    bid = c.bid;
    maker_same = c.maker_same;
    taker_same = c.taker_same;
    ask_held = IsHeld-IsRead os c.ask c.ask_open;
    bid_held = IsHeld-IsRead os c.bid c.bid_open;
    same_pair = c.same_pair;
    ask_side = c.ask_side;
    bid_side = c.bid_side;
    fits = c.fits;
  }

  cycle-ArePaired :
      (draw : Draw) (pairs : List Text) (db : Db)
      → ArePaired db
      → ArePaired (match_once decode draw pairs db).1
  cycle-ArePaired draw pairs db h =
      let db' = (match_once decode draw pairs db).1 in
      let (added, same, size, all) = match_once-Adds decode draw pairs db in
      let paired : All (IsPaired decode db.orders) (db.matches ++ added) =
        All-append (IsPaired decode db.orders) db.matches added h (
          All-map (λ m. Crosses decode db.orders (parties m)) (IsPaired decode db.orders)
            (IsPaired-Crosses db.orders) added all) in
      subst (All (IsPaired decode db'.orders)) (sym same) (
        AllPaired-later db.orders db'.orders (db.matches ++ added)
          (match_once-IsLater draw pairs db) paired)

pub step-ArePaired :
    (s : Setup) (e : Event) (w : World)
    → ArePaired s.decode w.db
    → ArePaired s.decode (step s e w).db
unfolding step
step-ArePaired s (post id body) w h =
    handle-P (ArePaired s.decode) (insert-ArePaired s.decode) s.check_signature s.encode s.server id
      w.db h body
step-ArePaired s (cycle draw pairs) w h = cycle-ArePaired s.decode draw pairs w.db h
step-ArePaired s (job id a) w h =
    dispatch-P (ArePaired s.decode) (prove-ArePaired s.decode) (report-ArePaired s.decode)
      (settle-ArePaired s.decode) id a s.verify s.config w h

-- From tables that are paired.
pub keep-ArePaired :
    (s : Setup) (es : List Event) (w : World)
    → ArePaired s.decode w.db
    → ArePaired s.decode (run s es w).db
unfolding run
keep-ArePaired s [] w h = h
keep-ArePaired s (e ∷ es) w h = keep-ArePaired s es (step s e w) (step-ArePaired s e w h)

-- Whatever requests, cycles and jobs follow each other in whatever order from tables without matches:
-- the maker of every match is an ask of the book and its taker a bid, of one asset pair, whose sealed
-- prices cross and whose sealed volumes are equal.
pub run-ArePaired :
    (s : Setup) (es : List Event) (w : World)
    → w.db.matches ≡ []
    → ArePaired s.decode (run s es w).db
run-ArePaired s es w e =
    keep-ArePaired s es w (subst (All (IsPaired s.decode w.db.orders)) (sym e) tt)
