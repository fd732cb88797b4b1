-- ===== src/Cycle/Quiet.antt =====
-- The open orders behind a run of the matcher that no transaction disturbs.
use nyx_darkpool.Base.{
  ◌≡◌, refl, sym, ap, subst, ◌∙◌, Bool, true, false, ◌&&◌, ◌||◌, Option, some, List, [], ◌∷◌, Text,
  ◌===◌, is_empty, map, filter, All, All-map, arith, Bool-cases, Option-cases, inl, inr,
  if◌then◌else◌,
}
use nyx_darkpool.Book.{Payload, Order, MatchPair, pair_orders, is_ask, is_bid}
use nyx_darkpool.Book.Reference.{cross, ids, matching, pair_orders-matching}
use nyx_darkpool.Book.Fairness.{Passed, pair_orders-IsGreedy}
use nyx_darkpool.Ledger.{Db, OrderRow, open_orders, is_open, is_wanted, set_status, matched}
use nyx_darkpool.Ledger.Once.{IsSound}
use nyx_darkpool.Cycle.{Draw, match_pairs, match_once}
use nyx_darkpool.Cycle.Complete.{IsFresh, updated, updated_all, match_once_complete}
use nyx_darkpool.Cycle.Unused.{
  is_used, Apart, AllApart, IsGreedy-AllApart, All-unfilter, All-filter, match_asks-none,
}

module _ (decode : Text → Option Payload) (pair : Text) where
  abbrev open_of : List OrderRow → List Order
  open_of os = open_orders decode pair os

  abbrev read_as : OrderRow → Payload → Order
  read_as o payload = record {
    id = o.id;
    pubkey = o.pubkey;
    asset_pair = o.asset_pair;
    side = o.side;
    commitment = o.commitment;
    payload = payload;
  }

  -- A row is read or passed over.
  open_row :
      (Q : Order → Type 0) (o : OrderRow) (os : List OrderRow)
      → All Q (open_of (o ∷ os))
      → All Q (open_of os)
        × ((payload : Payload)
            → decode o.blob ≡ some payload
            → (o.asset_pair === pair && is_open o) ≡ true
            → is_empty o.commitment ≡ false
            → Q (read_as o payload))
  unfolding open_orders
  open_row Q o os h = elim (Bool-cases (o.asset_pair === pair && is_open o)) [
    | inr e ↦ (rw e at h, λ payload d e'. absurd (cc))
    | inl e ↦ elim (Bool-cases (is_empty o.commitment)) [
      | inl e' ↦ (rw (e, e') at h, λ payload d f f'. absurd (cc))
      | inr e' ↦ elim (Option-cases (decode o.blob)) [
        | inl e'' ↦ (rw (e, e', e'') at h, λ payload d. absurd (cc))
        | inr (payload, e'') ↦
            let (k, l) = parts _ _ (rw (e, e', e'') at h) in
            (
              l,
              λ payload' d f f'.
                  subst (λ q. Q (read_as o q)) (same payload payload' (sym e'' ∙ d)) k,
            )
      ]
    ]
  ]
    where
      parts : (a : Order) (l : List Order) → All Q (a ∷ l) → Q a × All Q l
      parts a l (k, t) = (k, t)

      same : (x y : Payload) → ◌≡◌ {A = Option Payload} (some x) (some y) → x ≡ y
      same x y q = cc

  open_cons :
      (Q : Order → Type 0) (o : OrderRow) (os : List OrderRow)
      → All Q (open_of os)
      → ((payload : Payload)
          → decode o.blob ≡ some payload
          → (o.asset_pair === pair && is_open o) ≡ true
          → is_empty o.commitment ≡ false
          → Q (read_as o payload))
      → All Q (open_of (o ∷ os))
  unfolding open_orders
  open_cons Q o os h k = elim (Bool-cases (o.asset_pair === pair && is_open o)) [
    | inr e ↦ rw e h
    | inl e ↦ elim (Bool-cases (is_empty o.commitment)) [
      | inl e' ↦ rw (e, e') h
      | inr e' ↦ elim (Option-cases (decode o.blob)) [
        | inl e'' ↦ rw (e, e', e'') h
        | inr (payload, e'') ↦ rw (e, e', e'') (k payload e'' e e', h)
      ]
    ]
  ]

  either :
      (Q : Order → Type 0) (b : Bool) (x y : OrderRow) (os : List OrderRow)
      → (b ≡ true → All Q (open_of (x ∷ os)))
      → (b ≡ false → All Q (open_of (y ∷ os)))
      → All Q (open_of ((if b then x else y) ∷ os))
  either Q true x y os hx hy = hx refl
  either Q false x y os hx hy = hy refl

  -- What the run over one pair leaves open.
  abbrev Left : (Order → Type 0) → MatchPair → Order → Type 0
  Left Q p a = Q a × ((a.id === p.maker_id || a.id === p.taker_id) ≡ false)

  updated-Left :
      (Q : Order → Type 0) (p : MatchPair) (os : List OrderRow)
      → All Q (open_of os)
      → All (Left Q p) (open_of (updated p os))
  unfolding open_orders
  updated-Left Q p [] h = tt
  updated-Left Q p (o ∷ os) h =
      let (behind, here) = open_row Q o os h in
      let rest = updated-Left Q p os behind in
      either (Left Q p) (is_wanted p.maker_id p.taker_id o) (set_status matched o) o (updated p os)
        (λ w.
          open_cons (Left Q p) (set_status matched o) (updated p os) rest
            (λ payload d e f. absurd (ground arith)))
        (λ w.
          open_cons (Left Q p) o (updated p os) rest
            (λ payload d e f. (here payload d e f, ground arith)))

  -- What a run over pairs that are all made matches leaves open.
  updated_all-unused :
      (Q : Order → Type 0) (ps : List MatchPair) (os : List OrderRow)
      → All Q (open_of os)
      → All (λ a. Q a × (is_used a.id ps ≡ false)) (open_of (updated_all ps os))
  updated_all-unused Q [] os h = All-map Q _ (λ a k. (k, refl)) (open_of os) h
  updated_all-unused Q (p ∷ ps) os h =
      All-map _ _ (λ a ((k, e), e'). (k, ground arith)) (open_of (updated_all ps (updated p os)))
        (updated_all-unused (Left Q p) ps (updated p os) (updated-Left Q p os h))

  -- No ask that is left crosses a bid that is left.
  left-Passed :
      (ps : List MatchPair) (os : List OrderRow)
      → AllApart ps (filter is_ask (open_of os)) (filter is_bid (open_of os))
      → All
          (λ a. Passed a (filter is_bid (open_of (updated_all ps os))))
          (filter is_ask (open_of (updated_all ps os)))
  left-Passed ps os h =
      let bids = filter is_bid (open_of os) in
      let asks_left =
        updated_all-unused (λ a. is_ask a ≡ true → is_used a.id ps ≡ false → Apart ps bids a) ps os
          (All-unfilter (λ a. is_used a.id ps ≡ false → Apart ps bids a) is_ask (open_of os) h) in
      All-filter _ _ is_ask (open_of (updated_all ps os))
        (λ a (apart, unused) side. passed a (apart side unused)) asks_left
    where
      passed :
          (a : Order)
          → Apart ps (filter is_bid (open_of os)) a
          → Passed a (filter is_bid (open_of (updated_all ps os)))
      passed a apart =
          All-filter _ _ is_bid (open_of (updated_all ps os))
            (λ b (miss, unused) side. miss side unused)
            (updated_all-unused (λ b. is_bid b ≡ true → is_used b.id ps ≡ false → cross a b ≡ false)
              ps os
              (All-unfilter (λ b. is_used b.id ps ≡ false → cross a b ≡ false) is_bid (open_of os)
                apart))

  -- A cycle that finds no pair does nothing.
  match_once_idle :
      (draw : Draw) (db : Db)
      → pair_orders (open_orders decode pair db.orders) ≡ []
      → match_once decode draw (pair ∷ []) db ≡ (0, db)
  unfolding match_once match_pairs
  match_once_idle draw db none_found = rw none_found refl

  -- A cycle over one asset pair, in sound tables, with no transaction refused and with ids that no match
  -- has, leaves no open ask that crosses an open bid: pairOrders finds nothing in what is left. A cycle
  -- that follows at once, whatever ids and refusals it would meet, makes no match and changes nothing.
  pub match_once_exhausts :
      (draw later : Draw) (db : Db)
      → IsSound db
      → IsFresh draw (pair_orders (open_orders decode pair db.orders)) db.matches
      → (pair_orders (open_orders decode pair (match_once decode draw (pair ∷ []) db).1.orders)
          ≡ [])
        × (match_once decode later (pair ∷ []) (match_once decode draw (pair ∷ []) db).1
            ≡ (0, (match_once decode draw (pair ∷ []) db).1))
  unfolding matching
  match_once_exhausts draw later db sound fresh =
      let orders = open_of db.orders in
      let (ps, same, greedy) = pair_orders-IsGreedy orders in
      let (counted, added, closed) = match_once_complete decode draw pair db sound fresh in
      let left : List Order = open_of (updated_all (map ids ps) db.orders) in
      let apart = left-Passed (map ids ps) db.orders (IsGreedy-AllApart greedy) in
      let none_found : pair_orders left ≡ [] =
        pair_orders-matching left
        ∙ ap (map ids) (match_asks-none (filter is_ask left) (filter is_bid left) apart) in
      let after : (match_once decode draw (pair ∷ []) db).1.orders
          ≡ updated_all (map ids ps) db.orders =
        closed ∙ ap (λ qs. updated_all qs db.orders) same in
      let rested = ap (λ os. pair_orders (open_of os)) after ∙ none_found in
      (rested, match_once_idle later (match_once decode draw (pair ∷ []) db).1 rested)
