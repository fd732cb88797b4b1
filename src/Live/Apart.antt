-- ===== src/Live/Apart.antt =====
-- The tests of orders that are never to be matched.
use nyx_darkpool.Base.{
  ℕ, ◌≡◌, refl, sym, ap, subst, ◌∙◌, Bool, true, ◌&&◌, ◌||◌, not, Option, none, some, List, [], ◌∷◌,
  Text, codes, ◌===◌, ===_iff, ==_iff, any, find, find_sound, map, reverse, take, All, arith,
  Bool-cases, Option-cases, inl, inr, returned,
}
use nyx_darkpool.Engine.{CreateOrderBody}
use nyx_darkpool.Book.{Payload, Order}
use nyx_darkpool.Book.Reference.{cross}
use nyx_darkpool.Ledger.{Db, OrderRow, MatchRow, null_if_empty}
use nyx_darkpool.Ledger.Backed.{has_party}
use nyx_darkpool.Ledger.Once.{IsSound}
use nyx_darkpool.Settling.{World}
use nyx_darkpool.Queries.{list_orders, order_of}
use nyx_darkpool.Queries.Listing.{looked_up, id_or_empty, list_orders-lookup, find-looked_up}
use nyx_darkpool.Queries.Loading.{order_of-held}
use nyx_darkpool.Pipeline as Pipeline
use nyx_darkpool.Pipeline.{Setup, Event, step}
use nyx_darkpool.Pipeline.Paired.{IsHeld, IsPaired, ArePaired, step-ArePaired, keep-ArePaired}
use nyx_darkpool.Pipeline.Sound.{step-IsSound_world, keep-IsSound_world}
use nyx_darkpool.Live.{match_id_of, find_match_id, post, after_post, waited, done, apart_test}

All-find :
    (P : MatchRow → Type 0) (p : MatchRow → Bool) (ms : List MatchRow) (m : MatchRow)
    → All P ms
    → find p ms ≡ some m
    → P m
All-find P p [] m h e = absurd (cc)
All-find P p (n ∷ ms) m (hn, h) e = elim (Bool-cases (p n)) [
  | inl e' ↦ subst P (same (rw e' at e)) hn
  | inr e' ↦ All-find P p ms m h (rw e' at e)
]
  where
    same : ◌≡◌ {A = Option MatchRow} (some n) (some m) → n ≡ m
    same q = cc

-- The match that an order is listed with.
pub record IsListed (decode : Text → Option Payload) (x mid : Text) (db : Db) : Type 0 where
  pub match : MatchRow
  pub same_id : match.id ≡ mid
  pub party : has_party x match ≡ true
  pub paired : IsPaired decode db.orders match

looked_up-IsListed :
    (decode : Text → Option Payload) (x mid : Text) (db : Db) (o : OrderRow)
    → ArePaired decode db
    → o.id ≡ x
    → null_if_empty (id_or_empty (find (has_party o.id) db.matches)) ≡ some mid
    → IsListed decode x mid db
looked_up-IsListed decode x mid db o paired same h =
    elim (Option-cases (find (has_party o.id) db.matches)) [
      | inl e ↦ absurd (closed (rw e at h))
      | inr (m, e) ↦ record {
        match = m;
        same_id = named m.id (rw e at h);
        party = subst (λ y. has_party y m ≡ true) same (find_sound (has_party o.id) db.matches m e);
        paired = All-find (IsPaired decode db.orders) (has_party o.id) db.matches m paired e;
      }
    ]
  where
    closed : ◌≡◌ {A = Option Text} none (some mid) → ⊥
    closed q = cc

    named : (t : Text) → null_if_empty t ≡ some mid → t ≡ mid
    named [] q = absurd (cc)
    named (c ∷ t) q = cc

-- In sound tables whose matches are paired, an order that is listed with a match is a party of the match
-- with that id.
pub find_match_id-IsListed :
    (decode : Text → Option Payload) (x mid : Text) (limit : ℕ) (db : Db)
    → IsSound db
    → ArePaired decode db
    → find_match_id x (list_orders limit db) ≡ some mid
    → IsListed decode x mid db
unfolding find_match_id
find_match_id-IsListed decode x mid limit db sound paired h =
    let l = take limit (map (looked_up db.matches) (reverse db.orders)) in
    let h' : match_id_of (find (λ o. o.id === x) l) ≡ some mid =
      rw (← list_orders-lookup limit db sound) h in
    elim (Option-cases (find (λ o. o.id === x) l)) [
      | inl e ↦ absurd (closed (rw e at h'))
      | inr (s, e) ↦
          let (o, same) =
            find-looked_up db.matches (λ o. o.id === x) limit (reverse db.orders) s e in
          let is_x : s.id ≡ x = (===_iff s.id x).0 (find_sound (λ o. o.id === x) l s e) in
          let listed_id : null_if_empty s.match_id ≡ some mid = rw e at h' in
          looked_up-IsListed decode x mid db o paired (ap (λ r. r.id) (sym same) ∙ is_x)
            (ap (λ r. null_if_empty r.match_id) (sym same) ∙ listed_id)
    ]
  where
    closed : ◌≡◌ {A = Option Text} none (some mid) → ⊥
    closed q = cc

-- The orders of the book that can be read.
abbrev pub held : (Text → Option Payload) → List OrderRow → List Order
held decode [] = []
held decode (o ∷ os) = elim (order_of decode o) [
  | none ↦ held decode os
  | some a ↦ a ∷ held decode os
]

-- An ask and a bid of one asset pair that cross, and of which one is this order.
abbrev pub meet : Text → Order → Order → Bool
meet x a b =
    (a.id === x || b.id === x)
    && a.side === codes "ask"
    && b.side === codes "bid"
    && a.asset_pair === b.asset_pair
    && cross a b

-- No order of the book meets this one.
abbrev pub is_apart : (Text → Option Payload) → Text → Db → Bool
is_apart decode x db =
    not (any (λ a. any (meet x a) (held decode db.orders)) (held decode db.orders))

any-held :
    (decode : Text → Option Payload) (p : Order → Bool) (os : List OrderRow) (a : Order)
    → IsHeld decode os a
    → p a ≡ true
    → any p (held decode os) ≡ true
any-held decode p [] a h e = absurd h
any-held decode p (o ∷ os) a (inl h) e = rw (held, order_of-held decode o a h, e) refl
any-held decode p (o ∷ os) a (inr h) e = elim (Option-cases (order_of decode o)) [
  | inl e' ↦ rw (held, e') (any-held decode p os a h e)
  | inr (c, e') ↦ rw (held, e') (ground (arith, any-held decode p os a h e))
]

meet-true :
    (decode : Text → Option Payload) (os : List OrderRow) (x : Text) (m : MatchRow)
    (h : IsPaired decode os m)
    → has_party x m ≡ true
    → meet x h.ask h.bid ≡ true
meet-true decode os x m h e =
    let e' : (h.ask.id === x || h.bid.id === x) ≡ true = rw (← h.maker_same, ← h.taker_same) e in
    let ask = (===_iff h.ask.side (codes "ask")).1 h.ask_side in
    let bid = (===_iff h.bid.side (codes "bid")).1 h.bid_side in
    let pair = (===_iff h.ask.asset_pair h.bid.asset_pair).1 h.same_pair in
    rw (e', ask, bid, pair, h.fits) refl

-- An order that no other order of the book meets is listed without a match.
pub find_match_id-apart :
    (decode : Text → Option Payload) (x : Text) (limit : ℕ) (db : Db)
    → IsSound db
    → ArePaired decode db
    → is_apart decode x db ≡ true
    → find_match_id x (list_orders limit db) ≡ none
find_match_id-apart decode x limit db sound paired apart =
    elim (Option-cases (find_match_id x (list_orders limit db))) [
      | inl e ↦ e
      | inr (mid, e) ↦
          let l = find_match_id-IsListed decode x mid limit db sound paired e in
          let hit = meet-true decode db.orders x l.match l.paired l.party in
          let inner : any (meet x l.paired.ask) (held decode db.orders) ≡ true =
            any-held decode (meet x l.paired.ask) db.orders l.paired.bid l.paired.bid_held hit in
          let outer : any (λ a. any (meet x a) (held decode db.orders)) (held decode db.orders)
              ≡ true =
            any-held decode (λ a. any (meet x a) (held decode db.orders)) db.orders l.paired.ask
              l.paired.ask_held inner in
          absurd (ground arith)
    ]

module _ (s : Setup) (bid ask : CreateOrderBody) (id id' : Text) (es es' es'' : List Event) where
  waited-IsSound : (w : World) → IsSound w.db → IsSound (waited s bid ask id id' es es' w).db
  waited-IsSound w h =
      let w1 = after_post s id bid w in
      let w2 = Pipeline.run s es w1 in
      keep-IsSound_world s es' (after_post s id' ask w2) (
        step-IsSound_world s (Pipeline.post (some id') (some ask)) w2 (
          keep-IsSound_world s es w1
            (step-IsSound_world s (Pipeline.post (some id) (some bid)) w h)))

  waited-ArePaired :
      (w : World)
      → ArePaired s.decode w.db
      → ArePaired s.decode (waited s bid ask id id' es es' w).db
  waited-ArePaired w h =
      let w1 = after_post s id bid w in
      let w2 = Pipeline.run s es w1 in
      keep-ArePaired s es' (after_post s id' ask w2) (
        step-ArePaired s (Pipeline.post (some id') (some ask)) w2
          (keep-ArePaired s es w1 (step-ArePaired s (Pipeline.post (some id) (some bid)) w h)))

  -- The tests of isolation and of the full-fill rule pass, whatever requests, cycles and jobs come
  -- before, between and behind their two requests, where these are taken in, the tables were sound and
  -- paired before, and no order of the book meets the two when the lists are read.
  pub apart_test-passes :
      (w : World)
      → IsSound w.db
      → ArePaired s.decode w.db
      → (post s id bid w).status ≡ 201
      → (post s id' ask (Pipeline.run s es (after_post s id bid w))).status ≡ 201
      → is_apart s.decode id (waited s bid ask id id' es es' w).db ≡ true
      → is_apart s.decode id' (Pipeline.run s es'' (waited s bid ask id id' es es' w)).db ≡ true
      → apart_test s bid ask id id' es es' es'' w ≡ returned done
  unfolding apart_test
  apart_test-passes w sound paired first second apart apart' =
      let w2 = waited s bid ask id id' es es' w in
      let w3 = Pipeline.run s es'' w2 in
      let sound2 = waited-IsSound w sound in
      let paired2 = waited-ArePaired w paired in
      rw
        (
          (==_iff _ 201).1 first,
          (==_iff _ 201).1 second,
          find_match_id-apart s.decode id 200 w2.db sound2 paired2 apart,
          find_match_id-apart s.decode id' 200 w3.db (keep-IsSound_world s es'' w2 sound2)
              (keep-ArePaired s es'' w2 paired2) apart',
        )
        refl
