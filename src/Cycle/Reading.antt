-- ===== src/Cycle/Reading.antt =====
-- The rows that a cycle of the matcher reads, and the pairs that it makes of them.
use nyx_darkpool.Base.{
  ◌≡◌, refl, sym, subst, ◌∙◌, Bool, true, false, ◌&&◌, ◌||◌, Option, some, List, [], ◌∷◌, Text,
  ◌===◌, ===_iff, codes, is_empty, map, filter, All, All-map, and-eq-true, length, Bool-cases,
  Option-cases, ◌⊎◌, inl, inr, ◌==◌, any,
}
use nyx_darkpool.Book.{Payload, Order, MatchPair, pair_orders}
use nyx_darkpool.Book.Reference.{cross, ids}
use nyx_darkpool.Book.Fairness.{pair_orders-IsGreedy}
use nyx_darkpool.Book.Maximal.{maker, taker, pairs-All}
use nyx_darkpool.Ledger.{
  Db, OrderRow, create_match, open_orders, is_open, is_wanted, update_orders, matched,
}
use nyx_darkpool.Cycle.{Draw, try_match, match_pairs}

-- The order is read from this row, which is open.
pub record IsReadFrom (decode : Text → Option Payload) (o : OrderRow) (a : Order) : Type 0 where
  pub same_id : a.id ≡ o.id
  pub same_pubkey : a.pubkey ≡ o.pubkey
  pub same_pair : a.asset_pair ≡ o.asset_pair
  pub same_side : a.side ≡ o.side
  pub same_commitment : a.commitment ≡ o.commitment
  pub payload : decode o.blob ≡ some a.payload
  pub still_open : is_open o ≡ true

abbrev pub IsRead : (Text → Option Payload) → List OrderRow → Order → Type 0
IsRead decode [] a = ⊥
IsRead decode (o ∷ os) a = IsReadFrom decode o a ⊎ IsRead decode os a

-- The parties of a match: an ask and a bid that stand open in this table, are of one asset pair, and
-- cross.
pub record Crosses (decode : Text → Option Payload) (os : List OrderRow) (p : MatchPair)
    : Type 0 where
  pub ask : Order
  pub bid : Order
  pub maker_same : p.maker_id ≡ ask.id
  pub taker_same : p.taker_id ≡ bid.id
  pub ask_open : IsRead decode os ask
  pub bid_open : IsRead decode os bid
  pub same_pair : ask.asset_pair ≡ bid.asset_pair
  pub ask_side : ask.side ≡ codes "ask"
  pub bid_side : bid.side ≡ codes "bid"
  pub fits : cross ask bid ≡ true

-- An order of this pair that is read from this table.
IsOwn : (Text → Option Payload) → List OrderRow → Text → Order → Type 0
IsOwn decode os pair a = (a.asset_pair ≡ pair) × IsRead decode os a

open_orders-AllOwn :
    (decode : Text → Option Payload) (pair : Text) (os : List OrderRow)
    → All (IsOwn decode os pair) (open_orders decode pair os)
unfolding open_orders IsOwn
open_orders-AllOwn decode pair [] = tt
open_orders-AllOwn decode pair (o ∷ os) =
    let behind =
      All-map (IsOwn decode os pair) (IsOwn decode (o ∷ os) pair) (λ a (p, h). (p, inr h))
        (open_orders decode pair os) (open_orders-AllOwn decode pair os) in
    elim (Bool-cases (o.asset_pair === pair && is_open o)) [
      | inr e ↦ rw e behind
      | inl e ↦ elim (Bool-cases (is_empty o.commitment)) [
        | inl e' ↦ rw (e, e') behind
        | inr e' ↦ elim (Option-cases (decode o.blob)) [
          | inl e'' ↦ rw (e, e', e'') behind
          | inr (payload, e'') ↦
              let (in_pair, is_live) = and-eq-true (o.asset_pair === pair) (is_open o) e in
              rw (e, e', e'')
                (
                  (
                    (===_iff o.asset_pair pair).0 in_pair,
                    inl (record {
                      same_id = refl;
                      same_pubkey = refl;
                      same_pair = refl;
                      same_side = refl;
                      same_commitment = refl;
                      payload = e'';
                      still_open = is_live;
                    }),
                  ),
                  behind,
                )
        ]
      ]
    ]

-- An order of this side besides.
OfSide : (Text → Option Payload) → List OrderRow → Text → Text → Order → Type 0
OfSide decode os pair side a = (a.asset_pair ≡ pair) × IsRead decode os a × (a.side ≡ side)

filter-OfSide :
    (decode : Text → Option Payload) (rows : List OrderRow) (pair side : Text) (os : List Order)
    → All (IsOwn decode rows pair) os
    → All (OfSide decode rows pair side) (filter (λ o. o.side === side) os)
unfolding IsOwn OfSide
filter-OfSide decode rows pair side [] h = tt
filter-OfSide decode rows pair side (o ∷ os) ((p, r), h) = elim (Bool-cases (o.side === side)) [
  | inl e ↦ rw e ((p, r, (===_iff o.side side).0 e), filter-OfSide decode rows pair side os h)
  | inr e ↦ rw e (filter-OfSide decode rows pair side os h)
]

Crosses-map :
    (decode : Text → Option Payload) (rows : List OrderRow) (pair : Text)
    (ps : List (Order × Order))
    → All
        (λ p.
          OfSide decode rows pair (codes "ask") (maker p)
          × OfSide decode rows pair (codes "bid") (taker p)
          × (cross (maker p) (taker p) ≡ true))
        ps
    → All (Crosses decode rows) (map ids ps)
unfolding OfSide
Crosses-map decode rows pair [] h = tt
Crosses-map decode rows pair ((a, b) ∷ ps) (((pa, ra, sa), (pb, rb, sb), hit), h) = (
  record {
    ask = a;
    bid = b;
    maker_same = refl;
    taker_same = refl;
    ask_open = ra;
    bid_open = rb;
    same_pair = pa ∙ sym pb;
    ask_side = sa;
    bid_side = sb;
    fits = hit;
  },
  Crosses-map decode rows pair ps h,
)

-- Whatever is read from the second table is read from the first.
abbrev pub Back : (Text → Option Payload) → List OrderRow → List OrderRow → Type 0
Back decode os os' = (a : Order) → IsRead decode os' a → IsRead decode os a

-- What pairOrders makes of the open orders of a pair.
pub pair_orders-Crosses :
    (decode : Text → Option Payload) (pair : Text) (rows os : List OrderRow)
    → Back decode rows os
    → All (Crosses decode rows) (pair_orders (open_orders decode pair os))
unfolding IsOwn
pair_orders-Crosses decode pair rows os back =
    let orders = open_orders decode pair os in
    let (ps, same, greedy) = pair_orders-IsGreedy orders in
    let own =
      All-map (IsOwn decode os pair) (IsOwn decode rows pair) (λ a (p, r). (p, back a r)) orders
        (open_orders-AllOwn decode pair os) in
    subst (All (Crosses decode rows)) (sym same) (
      Crosses-map decode rows pair ps (
        pairs-All (OfSide decode rows pair (codes "ask")) (OfSide decode rows pair (codes "bid"))
          greedy (filter-OfSide decode rows pair (codes "ask") orders own)
          (filter-OfSide decode rows pair (codes "bid") orders own)))

-- A row that is matched is not read any more.
update_orders-Back :
    (decode : Text → Option Payload) (p : OrderRow → Bool) (os : List OrderRow) (a : Order)
    → IsRead decode (update_orders p matched os) a
    → IsRead decode os a
update_orders-Back decode p [] a h = h
update_orders-Back decode p (o ∷ os) a h = elim (Bool-cases (p o)) [
  | inr e ↦ elim (rw e at h) [ inl r ↦ inl r | inr r ↦ inr (update_orders-Back decode p os a r) ]
  | inl e ↦ elim (rw e at h) [
    | inl r ↦ absurd (closed r.still_open)
    | inr r ↦ inr (update_orders-Back decode p os a r)
  ]
]
  where
    closed : false ≡ true → ⊥
    closed e = cc

create_match-Back :
    (decode : Text → Option Payload) (conflict : Bool) (id maker taker : Text) (db : Db) (a : Order)
    → IsRead decode (create_match conflict id maker taker db).1.orders a
    → IsRead decode db.orders a
unfolding create_match
create_match-Back decode true id maker taker db a h = h
create_match-Back decode false id maker taker db a h =
    elim (Bool-cases (length (filter (is_wanted maker taker) db.orders) == 2)) [
      | inr e ↦ rw e at h
      | inl e ↦ elim (Bool-cases (maker === taker)) [
        | inl e' ↦ rw (e, e') at h
        | inr e' ↦
            elim (Bool-cases (
              any (λ m. m.id === id || m.maker_order_id === maker || m.taker_order_id === taker)
                db.matches)) [
                  | inl e'' ↦ rw (e, e', e'') at h
                  | inr e'' ↦
                      update_orders-Back decode (is_wanted maker taker) db.orders a
                        (rw (e, e', e'') at h)
                ]
      ]
    ]

pub match_pairs-Back :
    (decode : Text → Option Payload) (draw : Draw) (ps : List MatchPair) (db : Db) (a : Order)
    → IsRead decode (match_pairs draw ps db).1.orders a
    → IsRead decode db.orders a
unfolding match_pairs
match_pairs-Back decode draw [] db a h = h
match_pairs-Back decode draw (p ∷ ps) db a h =
    create_match-Back decode (draw p).0 (draw p).1 p.maker_id p.taker_id db a
      (match_pairs-Back decode draw ps (try_match draw p db).1 a h)
