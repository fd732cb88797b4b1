-- ===== src/Ledger/Backed.antt =====
-- The matches behind the status of an order.
use nyx_darkpool.Base.{
  ◌≡◌, refl, Bool, true, false, ◌&&◌, ◌||◌, List, [], ◌∷◌, ◌++◌, Text, ◌===◌, ===_iff, any, All,
  All-append, arith, Bool-cases, inl, inr, if◌then◌else◌, ◌==◌, length, filter, Option, none, some,
}
use nyx_darkpool.Ledger.{
  Db, OrderRow, MatchRow, OrderStatus, OnchainStatus, matched, settled, confirmed, is_wanted,
  is_party, Result, is_admitted, is_order, is_nullifier, is_match, is_confirmed, is_unconfirmed,
  with_outcome, with_proof, update_orders, update_matches, record_outcome, set_status, new_match,
  InsertParams, row_of, insert_order, create_match, set_proof, set_onchain, mark_settled, Op,
  insert, create, prove, report, settle, step, run, empty_db,
}

-- The match has this order.
abbrev pub has_party : Text → MatchRow → Bool
has_party x m = m.maker_order_id === x || m.taker_order_id === x

abbrev pub has_confirmed : Text → MatchRow → Bool
has_confirmed x m = is_confirmed m && has_party x m

-- A matched order is in a match, and a settled one in a confirmed match.
abbrev pub is_backed : List MatchRow → OrderRow → Bool
is_backed ms o = elim o.status [
  | settled ↦ any (has_confirmed o.id) ms
  | matched ↦ any (has_party o.id) ms
  | _ ↦ true
]

abbrev pub AreBacked : Db → Type 0
AreBacked db = All (λ o. is_backed db.matches o ≡ true) db.orders

-- Matches that lose neither a party nor a confirmation.
record Grows (ms ms' : List MatchRow) : Type 0 where
  parties : (x : Text) → any (has_party x) ms ≡ true → any (has_party x) ms' ≡ true
  confirmations : (x : Text) → any (has_confirmed x) ms ≡ true → any (has_confirmed x) ms' ≡ true

any-append :
    (q : MatchRow → Bool) (ms ns : List MatchRow) → any q ms ≡ true → any q (ms ++ ns) ≡ true
any-append q [] ns h = cc
any-append q (m ∷ ms) ns h = ground (arith, any-append q ms ns)

any-append_last :
    (q : MatchRow → Bool) (ms : List MatchRow) (m : MatchRow)
    → q m ≡ true
    → any q (ms ++ m ∷ []) ≡ true
any-append_last q [] m h = ground arith
any-append_last q (n ∷ ms) m h = ground (arith, any-append_last q ms m h)

any-update_matches :
    (q p : MatchRow → Bool) (f : MatchRow → MatchRow) (ms : List MatchRow)
    → ((m : MatchRow) → q m ≡ true → q (if p m then f m else m) ≡ true)
    → any q ms ≡ true
    → any q (update_matches p f ms) ≡ true
any-update_matches q p f [] keeps h = cc
any-update_matches q p f (m ∷ ms) keeps h = elim (Bool-cases (q m)) [
  | inl e ↦ ground (arith, keeps m e)
  | inr e ↦ ground (arith, any-update_matches q p f ms keeps)
]

Grows-append : (ms ns : List MatchRow) → Grows ms (ms ++ ns)
Grows-append ms ns = record {
  parties = λ x h. any-append (has_party x) ms ns h;
  confirmations = λ x h. any-append (has_confirmed x) ms ns h;
}

has_party-with :
    (x : Text) (p : MatchRow → Bool) (f : MatchRow → MatchRow) (m : MatchRow)
    → has_party x (f m) ≡ has_party x m
    → has_party x m ≡ true
    → has_party x (if p m then f m else m) ≡ true
has_party-with x p f m same h = ground arith

Grows-with_proof :
    (id proof : Text) (ms : List MatchRow)
    → Grows ms (update_matches (is_match id) (with_proof proof) ms)
Grows-with_proof id proof ms = record {
  parties = λ x h.
      any-update_matches (has_party x) (is_match id) (with_proof proof) ms
        (λ m. has_party-with x (is_match id) (with_proof proof) m refl) h;
  confirmations = λ x h.
      any-update_matches (has_confirmed x) (is_match id) (with_proof proof) ms (λ m k. ground arith)
        h;
}

confirmed-stays :
    (x id : Text) (status : OnchainStatus) (tx : Text) (m : MatchRow)
    → has_confirmed x m ≡ true
    → has_confirmed x (if is_unconfirmed id m then with_outcome status tx m else m) ≡ true
confirmed-stays x id status tx m h =
    let kept : is_unconfirmed id m ≡ false = ground arith in rw kept h

Grows-record_outcome :
    (id : Text) (status : OnchainStatus) (tx : Text) (ms : List MatchRow)
    → Grows ms (record_outcome id status tx ms)
Grows-record_outcome id status tx ms = record {
  parties = λ x h.
      any-update_matches (has_party x) (is_unconfirmed id) (with_outcome status tx) ms
        (λ m. has_party-with x (is_unconfirmed id) (with_outcome status tx) m refl) h;
  confirmations = λ x h.
      any-update_matches (has_confirmed x) (is_unconfirmed id) (with_outcome status tx) ms
        (confirmed-stays x id status tx) h;
}

is_backed-Grows :
    (ms ms' : List MatchRow) (o : OrderRow)
    → Grows ms ms'
    → is_backed ms o ≡ true
    → is_backed ms' o ≡ true
is_backed-Grows ms ms' o g h =
    let parties = g.parties o.id in let confirmations = g.confirmations o.id in ground arith

All-backed :
    (ms ms' : List MatchRow) (p : OrderRow → Bool) (s : OrderStatus) (os : List OrderRow)
    → Grows ms ms'
    → ((o : OrderRow) → p o ≡ true → is_backed ms' (set_status s o) ≡ true)
    → All (λ o. is_backed ms o ≡ true) os
    → All (λ o. is_backed ms' o ≡ true) (update_orders p s os)
All-backed ms ms' p s [] g new h = tt
All-backed ms ms' p s (o ∷ os) g new (k, h) = elim (Bool-cases (p o)) [
  | inl e ↦ rw e (new o e, All-backed ms ms' p s os g new h)
  | inr e ↦ rw e (is_backed-Grows ms ms' o g k, All-backed ms ms' p s os g new h)
]

All-backed_same :
    (ms ms' : List MatchRow) (os : List OrderRow)
    → Grows ms ms'
    → All (λ o. is_backed ms o ≡ true) os
    → All (λ o. is_backed ms' o ≡ true) os
All-backed_same ms ms' [] g h = tt
All-backed_same ms ms' (o ∷ os) g (k, h) =
    (is_backed-Grows ms ms' o g k, All-backed_same ms ms' os g h)

-- The orders that a new match takes are its parties.
wanted-backed :
    (id maker taker : Text) (ms : List MatchRow) (o : OrderRow)
    → is_wanted maker taker o ≡ true
    → is_backed (ms ++ new_match id maker taker ∷ []) (set_status matched o) ≡ true
wanted-backed id maker taker ms o h =
    any-append_last (has_party o.id) ms (new_match id maker taker) (
      ground
        (arith, ===_iff o.id maker, ===_iff maker o.id, ===_iff o.id taker, ===_iff taker o.id, h))

-- Behind a settlement, every match of this id is confirmed.
settled-confirmed :
    (id tx x : Text) (ms : List MatchRow)
    → any (λ m. is_match id m && has_party x m) (record_outcome id confirmed tx ms) ≡ true
    → any (has_confirmed x) (record_outcome id confirmed tx ms) ≡ true
settled-confirmed id tx x [] h = cc
settled-confirmed id tx x (m ∷ ms) h = elim (Bool-cases (is_unconfirmed id m)) [
  | inl e ↦ ground (arith, settled-confirmed id tx x ms)
  | inr e ↦ ground (arith, settled-confirmed id tx x ms)
]

settle-AreBacked : (id tx : Text) (db : Db) → AreBacked db → AreBacked (mark_settled id tx db)
unfolding mark_settled
settle-AreBacked id tx db h =
    let ms = record_outcome id confirmed tx db.matches in
    All-backed db.matches ms (is_party id ms) settled db.orders
      (Grows-record_outcome id confirmed tx db.matches)
      (λ o party. settled-confirmed id tx o.id db.matches party) h

either :
    (b : Bool) (x y : Result × Db)
    → AreBacked x.1
    → AreBacked y.1
    → AreBacked (if b then x else y).1
either true x y hx hy = hx
either false x y hx hy = hy

create-AreBacked :
    (conflict : Bool) (id maker taker : Text) (db : Db)
    → AreBacked db
    → AreBacked (create_match conflict id maker taker db).1
unfolding create_match
create-AreBacked conflict id maker taker db h =
    let created =
      All-backed db.matches (db.matches ++ new_match id maker taker ∷ []) (is_wanted maker taker)
        matched db.orders (Grows-append db.matches (new_match id maker taker ∷ []))
        (wanted-backed id maker taker db.matches) h in
    either conflict _ _ h (
      either (length (filter (is_wanted maker taker) db.orders) == 2) _ _
        (either (maker === taker) _ _ h (
          either
            (any (λ m. m.id === id || m.maker_order_id === maker || m.taker_order_id === taker)
              db.matches)
            _ _ h created))
        h)

insert-AreBacked :
    (id : Option Text) (p : InsertParams) (db : Db)
    → AreBacked db
    → AreBacked (insert_order id p db).1
unfolding insert_order
insert-AreBacked none p db h = h
insert-AreBacked (some id) p db h =
    let added =
      All-append (λ o. is_backed db.matches o ≡ true) db.orders (row_of id p ∷ []) h (refl, tt) in
    either (is_admitted (row_of id p)) _ _
      (either (any (is_order id) db.orders || any (is_nullifier p.nullifier) db.orders) _ _ h added)
      h

step-AreBacked : (op : Op) (db : Db) → AreBacked db → AreBacked (step op db)
unfolding step set_proof set_onchain
step-AreBacked (insert id p) db h = insert-AreBacked id p db h
step-AreBacked (create conflict id maker taker) db h = create-AreBacked conflict id maker taker db h
step-AreBacked (prove id proof) db h =
    All-backed_same db.matches (update_matches (is_match id) (with_proof proof) db.matches)
      db.orders (Grows-with_proof id proof db.matches) h
step-AreBacked (report id status tx) db h =
    All-backed_same db.matches (record_outcome id status tx db.matches) db.orders
      (Grows-record_outcome id status tx db.matches) h
step-AreBacked (settle id tx) db h = settle-AreBacked id tx db h

run-AreBacked_from : (ops : List Op) (db : Db) → AreBacked db → AreBacked (run ops db)
unfolding run
run-AreBacked_from [] db h = h
run-AreBacked_from (op ∷ ops) db h = run-AreBacked_from ops (step op db) (step-AreBacked op db h)

-- Whatever operations run in whatever order from empty tables: every matched order is a party of a
-- match, and every settled order a party of a match whose settlement is confirmed.
pub run-AreBacked : (ops : List Op) → AreBacked (run ops empty_db)
unfolding empty_db
run-AreBacked ops = run-AreBacked_from ops empty_db tt
