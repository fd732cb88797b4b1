-- ===== src/Queries/Loading.antt =====
-- The orders that the matcher loads to prove a match.
use nyx_darkpool.Base.{
  ◌≤◌, ◌≡◌, refl, sym, true, Option, none, some, List, [], ◌∷◌, Text, codes, ◌===◌, ===_iff, find,
  any, All, arith, Bool-cases, inl, inr,
}
use nyx_darkpool.Book.{Payload, Order}
use nyx_darkpool.Book.Reference.{cross}
use nyx_darkpool.Ledger.{Db, OrderRow, MatchRow, is_match}
use nyx_darkpool.Ledger.Counts.{rows}
use nyx_darkpool.Ledger.Once.{IsSound}
use nyx_darkpool.Pipeline.Paired.{IsHeldBy, IsHeld, IsPaired, ArePaired}
use nyx_darkpool.Queries.{order_of, order_by_id, parties_of, match_orders}

module _ (decode : Text → Option Payload) where
  pub order_of-held : (o : OrderRow) (a : Order) → IsHeldBy decode o a → order_of decode o ≡ some a
  unfolding order_of
  order_of-held o a h =
      rw
        (
          order_of,
          h.payload,
          ← h.same_id,
          ← h.same_pubkey,
          ← h.same_pair,
          ← h.same_side,
          ← h.same_commitment,
        )
        refl

  has_row : (os : List OrderRow) (a : Order) → IsHeld decode os a → 1 ≤ rows a.id os
  has_row [] a h = absurd h
  has_row (o ∷ os) a (inl h) =
      let same : (o.id === a.id) ≡ true = (===_iff o.id a.id).1 (sym h.same_id) in ground arith
  has_row (o ∷ os) a (inr h) = omega (arith, has_row os a h)

  pub order_by_id-held :
      (os : List OrderRow) (a : Order)
      → rows a.id os ≤ 1
      → IsHeld decode os a
      → order_by_id decode a.id os ≡ some a
  unfolding order_by_id
  order_by_id-held [] a once h = absurd h
  order_by_id-held (o ∷ os) a once (inl h) =
      let same : (o.id === a.id) ≡ true = (===_iff o.id a.id).1 (sym h.same_id) in
      rw (order_by_id, same) (order_of-held o a h)
  order_by_id-held (o ∷ os) a once (inr h) = elim (Bool-cases (o.id === a.id)) [
    | inl e ↦ absurd (ground (arith, has_row os a h))
    | inr e ↦ rw (order_by_id, e) (order_by_id-held os a (ground arith) h)
  ]

  -- The ask and the bid that are loaded for a match, and what holds of them.
  pub record IsLoaded (loaded : Option (Order × Order)) : Type 0 where
    pub ask : Order
    pub bid : Order
    pub is_loaded : loaded ≡ some (ask, bid)
    pub same_pair : ask.asset_pair ≡ bid.asset_pair
    pub ask_side : ask.side ≡ codes "ask"
    pub bid_side : bid.side ≡ codes "bid"
    pub fits : cross ask bid ≡ true

  parties_of-IsLoaded :
      (os : List OrderRow) (m : MatchRow)
      → ((x : Text) → rows x os ≤ 1)
      → IsPaired decode os m
      → IsLoaded (parties_of decode os m)
  unfolding parties_of
  parties_of-IsLoaded os m once h = record {
    ask = h.ask;
    bid = h.bid;
    is_loaded =
        rw
          (
            h.maker_same,
            h.taker_same,
            order_by_id-held os h.ask (once h.ask.id) h.ask_held,
            order_by_id-held os h.bid (once h.bid.id) h.bid_held,
          )
          refl;
    same_pair = h.same_pair;
    ask_side = h.ask_side;
    bid_side = h.bid_side;
    fits = h.fits;
  }

  -- In tables whose matches are paired, and where no two orders have one id, the orders of a match are
  -- always found and read.
  pub match_orders-IsLoaded :
      (id : Text) (db : Db)
      → IsSound db
      → ArePaired decode db
      → any (is_match id) db.matches ≡ true
      → IsLoaded (match_orders decode id db)
  unfolding match_orders
  match_orders-IsLoaded id db sound paired found = go db.matches paired found
    where
      go :
          (ms : List MatchRow)
          → All (IsPaired decode db.orders) ms
          → any (is_match id) ms ≡ true
          → IsLoaded (elim (find (is_match id) ms) [
            | none ↦ none
            | some m ↦ parties_of decode db.orders m
          ])
      go [] h e = absurd (cc)
      go (m ∷ ms) (hm, h) e = elim (Bool-cases (m.id === id)) [
        | inl e' ↦ rw e' (parties_of-IsLoaded db.orders m (λ x. (sound x).0) hm)
        | inr e' ↦ rw e' (go ms h (ground arith))
      ]
