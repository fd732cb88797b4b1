-- ===== src/Cycle/Complete.antt =====
-- A run of the matcher that no transaction disturbs.
use nyx_darkpool.Base.{
  ℕ, ◌+◌, ◌≤◌, ◌≡◌, refl, sym, ap, subst, ◌∙◌, Bool, true, false, ◌&&◌, Option, List, [], ◌∷◌, ◌++◌,
  append_assoc, append-nil, Text, codes, ◌===◌, ===_iff, ===_refl, is_empty, map, filter, any,
  length, arith, Bool-cases, Option-cases, inl, inr,
}
use nyx_darkpool.Book.{Payload, Order, MatchPair, pair_orders, is_ask, is_bid}
use nyx_darkpool.Book.Reference.{ids}
use nyx_darkpool.Book.Fairness.{IsGreedy, pair_orders-IsGreedy}
use nyx_darkpool.Ledger as Ledger
use nyx_darkpool.Ledger.{
  Db, OrderRow, MatchRow, Result, ok, create, create_match, open_orders, is_open, is_match,
  is_wanted, update_orders, matched, new_match,
}
use nyx_darkpool.Ledger.Counts.{bit, count, count-append, opens}
use nyx_darkpool.Ledger.Once.{IsSound, step-IsSound}
use nyx_darkpool.Ledger.Won.{create_match-won}
use nyx_darkpool.Cycle.{Draw, try_match, match_pairs, match_once}

-- The places of an order in pairs, and the orders of an id.
abbrev pub slots : Text → List MatchPair → ℕ
slots x [] = 0
slots x (p ∷ ps) = bit (p.maker_id === x) + bit (p.taker_id === x) + slots x ps

abbrev is_named : Text → Order → Bool
is_named x a = a.id === x

abbrev named : Text → List Order → ℕ
named x = count (is_named x)

IsGreedy-slots :
    (x : Text) {asks bids : List Order} {ps : List (Order × Order)}
    → IsGreedy asks bids ps
    → slots x (map ids ps) ≤ named x asks + named x bids
IsGreedy-slots x IsGreedy.done = omega arith
IsGreedy-slots x (IsGreedy.pass passed greedy) = omega (arith, IsGreedy-slots x greedy)
IsGreedy-slots x (IsGreedy.take {b = b} {bids = bids} before after same passed hit greedy) =
    let split : named x bids ≡ named x before + (bit (b.id === x) + named x after) =
      ap (named x) same ∙ count-append (is_named x) before (b ∷ after) in
    let joined : named x (before ++ after) ≡ named x before + named x after =
      count-append (is_named x) before after in
    omega (arith, split, joined, IsGreedy-slots x greedy)

ask-is_bid : (o : Order) → is_ask o ≡ true → is_bid o ≡ false
unfolding ◌===◌
ask-is_bid o e =
    let side : o.side ≡ codes "ask" = (===_iff o.side (codes "ask")).0 e in rw side refl

named-sides :
    (x : Text) (os : List Order)
    → named x (filter is_ask os) + named x (filter is_bid os) ≤ named x os
named-sides x [] = omega arith
named-sides x (o ∷ os) = elim (Bool-cases (is_ask o)) [
  | inl e ↦ rw (e, ask-is_bid o e) (omega (arith, named-sides x os))
  | inr e ↦ elim (Bool-cases (is_bid o)) [
    | inl e' ↦ rw (e, e') (omega (arith, named-sides x os))
    | inr e' ↦ rw (e, e') (omega (arith, named-sides x os))
  ]
]

named-open_orders :
    (decode : Text → Option Payload) (pair x : Text) (os : List OrderRow)
    → named x (open_orders decode pair os) ≤ opens x os
unfolding open_orders
named-open_orders decode pair x [] = omega arith
named-open_orders decode pair x (o ∷ os) =
    let rest = named-open_orders decode pair x os in
    elim (Bool-cases (o.asset_pair === pair && is_open o)) [
      | inr e ↦ rw e (omega (arith, rest))
      | inl e ↦ elim (Bool-cases (is_empty o.commitment)) [
        | inl e' ↦ rw (e, e') (omega (arith, rest))
        | inr e' ↦ elim (Option-cases (decode o.blob)) [
          | inl e'' ↦ rw (e, e', e'') (omega (arith, rest))
          | inr (payload, e'') ↦ rw (e, e', e'') (ground (arith, rest, e))
        ]
      ]
    ]

-- An order stands in the pairs only as often as it stands open.
pub slots-pair_orders :
    (decode : Text → Option Payload) (pair x : Text) (os : List OrderRow)
    → slots x (pair_orders (open_orders decode pair os)) ≤ opens x os
slots-pair_orders decode pair x os =
    let orders = open_orders decode pair os in
    let (ps, same, greedy) = pair_orders-IsGreedy orders in
    rw same (
      omega
        (arith, IsGreedy-slots x greedy, named-sides x orders, named-open_orders decode pair x os))

not_same : (s t : Text) → (s === t) ≡ false → (t === s) ≡ false
not_same s t h = elim (Bool-cases (t === s)) [
  | inr e ↦ e
  | inl e ↦ let same : (s === t) ≡ true = (===_iff s t).1 (sym ((===_iff t s).0 e)) in absurd (cc)
]

-- Any other order stays open.
opens-other :
    (x maker taker : Text) (os : List OrderRow)
    → (maker === x) ≡ false
    → (taker === x) ≡ false
    → opens x (update_orders (is_wanted maker taker) matched os) ≡ opens x os
opens-other x maker taker [] hm ht = refl
opens-other x maker taker (o ∷ os) hm ht = elim (Bool-cases (o.id === x)) [
  | inr e ↦ ground (arith, opens-other x maker taker os hm ht)
  | inl e ↦
      let is_x : o.id ≡ x = (===_iff o.id x).0 e in
      let not_maker : (o.id === maker) ≡ false = rw is_x (not_same maker x hm) in
      let not_taker : (o.id === taker) ≡ false = rw is_x (not_same taker x ht) in
      ground (arith, opens-other x maker taker os hm ht)
]

-- What the draws of a run without a conflict are: ids that no match has.
abbrev pub IsFresh : Draw → List MatchPair → List MatchRow → Type 0
IsFresh draw [] ms = Unit
IsFresh draw (p ∷ ps) ms =
    ((draw p).0 ≡ false)
    × (any (is_match (draw p).1) ms ≡ false)
    × IsFresh draw ps (ms ++ new_match (draw p).1 p.maker_id p.taker_id ∷ [])

-- The row of the match that is made of a pair.
abbrev pub made : Draw → MatchPair → MatchRow
made draw p = new_match (draw p).1 p.maker_id p.taker_id

opens-le_one : (x : Text) (db : Db) → IsSound db → opens x db.orders ≤ 1
opens-le_one x db sound = let (unique, within) = sound x in omega (arith, unique, within)

abbrev pub updated : MatchPair → List OrderRow → List OrderRow
updated p os = update_orders (is_wanted p.maker_id p.taker_id) matched os

-- The book behind a run over pairs that are all made matches.
abbrev pub updated_all : List MatchPair → List OrderRow → List OrderRow
updated_all [] os = os
updated_all (p ∷ ps) os = updated_all ps (updated p os)

-- The pairs behind the first one stand open still.
slots-rest :
    (p : MatchPair) (ps : List MatchPair) (db : Db)
    → IsSound db
    → ((x : Text) → slots x (p ∷ ps) ≤ opens x db.orders)
    → (x : Text) → slots x ps ≤ opens x (updated p db.orders)
slots-rest p ps db sound fits x = elim (Bool-cases (p.maker_id === x)) [
  | inl e ↦ ground (arith, fits x, opens-le_one x db sound)
  | inr e ↦ elim (Bool-cases (p.taker_id === x)) [
    | inl e' ↦ ground (arith, fits x, opens-le_one x db sound)
    | inr e' ↦
        let same = opens-other x p.maker_id p.taker_id db.orders e e' in omega (arith, same, fits x)
  ]
]

-- Both parties of the first pair stand open, and are two orders.
record IsOpenPair (p : MatchPair) (db : Db) : Type 0 where
  two : (p.maker_id === p.taker_id) ≡ false
  open_maker : opens p.maker_id db.orders ≡ 1
  open_taker : opens p.taker_id db.orders ≡ 1

first-IsOpenPair :
    (p : MatchPair) (ps : List MatchPair) (db : Db)
    → IsSound db
    → ((x : Text) → slots x (p ∷ ps) ≤ opens x db.orders)
    → IsOpenPair p db
first-IsOpenPair p ps db sound fits =
    let self = ===_refl p.maker_id in
    let self' = ===_refl p.taker_id in
    let fm : slots p.maker_id (p ∷ ps) ≤ opens p.maker_id db.orders = fits p.maker_id in
    let ft : slots p.taker_id (p ∷ ps) ≤ opens p.taker_id db.orders = fits p.taker_id in
    let lm = opens-le_one p.maker_id db sound in
    let lt = opens-le_one p.taker_id db sound in
    record {
      two = elim (Bool-cases (p.maker_id === p.taker_id)) [
        | inr e ↦ e
        | inl e ↦ absurd (ground (arith, self', ft, lt, e))
      ];
      open_maker = ground (arith, self, fm, lm);
      open_taker = ground (arith, self', ft, lt);
    }

try_match-won :
    (draw : Draw) (p : MatchPair) (db : Db)
    → IsSound db
    → IsOpenPair p db
    → (draw p).0 ≡ false
    → any (is_match (draw p).1) db.matches ≡ false
    → try_match draw p db ≡ (
      ok (draw p).1,
      record { orders = updated p db.orders; matches = db.matches ++ made draw p ∷ [] },
    )
try_match-won draw p db sound h e fresh = rw e (
    create_match-won (draw p).1 p.maker_id p.taker_id db (sound p.maker_id) (sound p.taker_id) h.two
      h.open_maker h.open_taker fresh)

-- A run over pairs of open orders that stand in no two pairs, with no transaction refused and with ids
-- that no match has, makes every pair a match, counts them all, and closes the orders of the pairs.
pub match_pairs_complete :
    (draw : Draw) (ps : List MatchPair) (db : Db)
    → IsSound db
    → ((x : Text) → slots x ps ≤ opens x db.orders)
    → IsFresh draw ps db.matches
    → ((match_pairs draw ps db).0 ≡ length ps)
      × ((match_pairs draw ps db).1.matches ≡ db.matches ++ map (made draw) ps)
      × ((match_pairs draw ps db).1.orders ≡ updated_all ps db.orders)
unfolding match_pairs Ledger.step
match_pairs_complete draw [] db sound fits fresh = (refl, sym (append-nil db.matches), refl)
match_pairs_complete draw (p ∷ ps) db sound fits (calm, new, fresh) =
    let won = try_match-won draw p db sound (first-IsOpenPair p ps db sound fits) calm new in
    let db' : Db = record {
      orders = updated p db.orders;
      matches = db.matches ++ made draw p ∷ [];
    } in
    let sound' : IsSound db' =
      subst (λ r. IsSound r.1) won
        (step-IsSound (create (draw p).0 (draw p).1 p.maker_id p.taker_id) db sound) in
    let (counted, added, closed) =
      match_pairs_complete draw ps db' sound' (slots-rest p ps db sound fits) fresh in
    rw won (
      omega (arith, counted),
      added ∙ append_assoc db.matches (made draw p ∷ []) (map (made draw) ps),
      closed,
    )

-- A cycle over one asset pair, in sound tables, with no transaction refused and with ids that no match
-- has, makes a match of every pair that pairOrders finds in the open orders, counts them all, and closes
-- the orders of these pairs and no others.
pub match_once_complete :
    (decode : Text → Option Payload) (draw : Draw) (pair : Text) (db : Db)
    → IsSound db
    → IsFresh draw (pair_orders (open_orders decode pair db.orders)) db.matches
    → ((match_once decode draw (pair ∷ []) db).0
        ≡ length (pair_orders (open_orders decode pair db.orders)))
      × ((match_once decode draw (pair ∷ []) db).1.matches
          ≡ db.matches ++ map (made draw) (pair_orders (open_orders decode pair db.orders)))
      × ((match_once decode draw (pair ∷ []) db).1.orders
          ≡ updated_all (pair_orders (open_orders decode pair db.orders)) db.orders)
unfolding match_once
match_once_complete decode draw pair db sound fresh =
    let ps = pair_orders (open_orders decode pair db.orders) in
    let (counted, added, closed) =
      match_pairs_complete draw ps db sound (λ x. slots-pair_orders decode pair x db.orders)
        fresh in
    (omega (arith, counted), added, closed)
