-- ===== src/Cycle/Crossing.antt =====
-- The matches that a cycle of the matcher adds.
use nyx_darkpool.Base.{
  ℕ, ◌+◌, ◌≡◌, refl, sym, ap, subst, ◌∙◌, Bool, true, false, ◌||◌, Option, List, [], ◌∷◌, ◌++◌,
  append_assoc, append-nil, Text, ◌===◌, filter, All, All-append, length, length-append, arith,
  Bool-cases, ◌⊎◌, inl, inr, ◌==◌, any,
}
use nyx_darkpool.Book.{Payload, MatchPair, pair_orders}
use nyx_darkpool.Book.Maximal.{maker, taker}
use nyx_darkpool.Ledger.{Db, OrderRow, MatchRow, create_match, open_orders, is_wanted, new_match}
use nyx_darkpool.Cycle.{Draw, tally, try_match, match_pairs, match_once}
use nyx_darkpool.Cycle.Reading.{Crosses, Back, pair_orders-Crosses, match_pairs-Back}

abbrev pub parties : MatchRow → MatchPair
parties m = record { maker_id = m.maker_order_id; taker_id = m.taker_order_id }

-- The matches that a run has added: as many as it counts, and each of parties that cross.
abbrev pub Adds : (Text → Option Payload) → List OrderRow → ℕ → Db → Db → Type 0
Adds decode rows n db db' =
    (added : List MatchRow) × (db'.matches ≡ db.matches ++ added)
    × (length added ≡ n)
    × All (λ m. Crosses decode rows (parties m)) added

Adds-trans :
    (decode : Text → Option Payload) (rows : List OrderRow) (m n : ℕ) (a b c : Db)
    → Adds decode rows m a b
    → Adds decode rows n b c
    → Adds decode rows (m + n) a c
Adds-trans decode rows m n a b c (new, e, size, all) (new', e', size', all') = (
  new ++ new',
  e' ∙ ap (λ l. l ++ new') e ∙ append_assoc a.matches new new',
  omega (arith, length-append new new', size, size'),
  All-append (λ r. Crosses decode rows (parties r)) new new' all all',
)

Adds-none :
    (decode : Text → Option Payload) (rows : List OrderRow) (db db' : Db)
    → db'.matches ≡ db.matches
    → Adds decode rows 0 db db'
Adds-none decode rows db db' e = ([], e ∙ sym (append-nil db.matches), refl, tt)

create_match-cases :
    (conflict : Bool) (id maker taker : Text) (db : Db)
    → ((tally (create_match conflict id maker taker db).0 ≡ 0)
        × ((create_match conflict id maker taker db).1.matches ≡ db.matches))
      ⊎ ((tally (create_match conflict id maker taker db).0 ≡ 1)
          × ((create_match conflict id maker taker db).1.matches
              ≡ db.matches ++ new_match id maker taker ∷ []))
unfolding create_match
create_match-cases true id maker taker db = inl (refl, refl)
create_match-cases false id maker taker db =
    elim (Bool-cases (length (filter (is_wanted maker taker) db.orders) == 2)) [
      | inr e ↦ rw e (inl (refl, refl))
      | inl e ↦ elim (Bool-cases (maker === taker)) [
        | inl e' ↦ rw (e, e') (inl (refl, refl))
        | inr e' ↦
            elim (Bool-cases (
              any (λ m. m.id === id || m.maker_order_id === maker || m.taker_order_id === taker)
                db.matches)) [
                  | inl e'' ↦ rw (e, e', e'') (inl (refl, refl))
                  | inr e'' ↦ rw (e, e', e'') (inr (refl, refl))
                ]
      ]
    ]

try_match-Adds :
    (decode : Text → Option Payload) (rows : List OrderRow) (draw : Draw) (p : MatchPair) (db : Db)
    → Crosses decode rows p
    → Adds decode rows (tally (try_match draw p db).0) db (try_match draw p db).1
try_match-Adds decode rows draw p db h =
    elim (create_match-cases (draw p).0 (draw p).1 p.maker_id p.taker_id db) [
      | inl (none_new, same) ↦
          subst (λ n. Adds decode rows n db (try_match draw p db).1) (sym none_new)
            (Adds-none decode rows db (try_match draw p db).1 same)
      | inr (one, grown) ↦
          subst (λ n. Adds decode rows n db (try_match draw p db).1) (sym one)
            (new_match (draw p).1 p.maker_id p.taker_id ∷ [], grown, refl, (h, tt))
    ]

match_pairs-Adds :
    (decode : Text → Option Payload) (rows : List OrderRow) (draw : Draw) (ps : List MatchPair)
    (db : Db)
    → All (Crosses decode rows) ps
    → Adds decode rows (match_pairs draw ps db).0 db (match_pairs draw ps db).1
unfolding match_pairs
match_pairs-Adds decode rows draw [] db h = Adds-none decode rows db db refl
match_pairs-Adds decode rows draw (p ∷ ps) db (hp, h) =
    let db' = (try_match draw p db).1 in
    Adds-trans decode rows (tally (try_match draw p db).0) (match_pairs draw ps db').0 db db'
      (match_pairs draw ps db').1 (try_match-Adds decode rows draw p db hp)
      (match_pairs-Adds decode rows draw ps db' h)

match_once-Adds_from :
    (decode : Text → Option Payload) (rows : List OrderRow) (draw : Draw) (pairs : List Text)
    (db : Db)
    → Back decode rows db.orders
    → Adds decode rows (match_once decode draw pairs db).0 db (match_once decode draw pairs db).1
unfolding match_once
match_once-Adds_from decode rows draw [] db back = Adds-none decode rows db db refl
match_once-Adds_from decode rows draw (pair ∷ pairs) db back =
    let ps = pair_orders (open_orders decode pair db.orders) in
    let db' = (match_pairs draw ps db).1 in
    Adds-trans decode rows (match_pairs draw ps db).0 (match_once decode draw pairs db').0 db db'
      (match_once decode draw pairs db').1
      (match_pairs-Adds decode rows draw ps db
        (pair_orders-Crosses decode pair rows db.orders back))
      (match_once-Adds_from decode rows draw pairs db'
        (λ a h. back a (match_pairs-Back decode draw ps db a h)))

-- A cycle of the matcher only appends to the matches, and counts what it appends. Whatever the order of
-- the pairs and whatever transactions are refused, each new match is of an ask, as the maker, and a bid,
-- as the taker, that stood open in the book before the cycle, are of one asset pair, and cross.
pub match_once-Adds :
    (decode : Text → Option Payload) (draw : Draw) (pairs : List Text) (db : Db)
    → Adds decode db.orders
        (match_once decode draw pairs db).0
        db
        (match_once decode draw pairs db).1
match_once-Adds decode draw pairs db =
    match_once-Adds_from decode db.orders draw pairs db (λ a h. h)
