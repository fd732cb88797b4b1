-- ===== src/Ledger/Won.antt =====
-- The transaction of CreateMatch on two open orders.
use nyx_darkpool.Base.{
  ◌+◌, ◌≡◌, refl, Bool, true, false, ◌&&◌, ◌||◌, List, [], ◌∷◌, Text, ◌===◌, ===_iff, ◌==◌, ==_iff,
  any, length, filter, arith, ◌++◌,
}
use nyx_darkpool.Ledger.{
  Db, OrderRow, MatchRow, ok, is_match, is_wanted, matched, update_orders, new_match, create_match,
}
use nyx_darkpool.Ledger.Counts.{opens, uses}
use nyx_darkpool.Ledger.Once.{IsSoundAt}

one_id :
    (o : OrderRow) (maker taker : Text)
    → (maker === taker) ≡ false
    → (o.id === maker) && (o.id === taker) ≡ false
one_id o maker taker differ =
    ground (arith, ===_iff o.id maker, ===_iff o.id taker, ===_iff maker taker, differ)

wanted-opens :
    (maker taker : Text) (os : List OrderRow)
    → (maker === taker) ≡ false
    → length (filter (is_wanted maker taker) os) ≡ opens maker os + opens taker os
wanted-opens maker taker [] differ = refl
wanted-opens maker taker (o ∷ os) differ =
    ground (arith, one_id o maker taker differ, wanted-opens maker taker os differ)

-- The constraints that an insertion of a match would violate.
abbrev pub is_taken : Text → Text → Text → MatchRow → Bool
is_taken id maker taker m = m.id === id || m.maker_order_id === maker || m.taker_order_id === taker

untaken :
    (id maker taker : Text) (ms : List MatchRow)
    → any (is_match id) ms ≡ false
    → uses maker ms ≡ 0
    → uses taker ms ≡ 0
    → any (is_taken id maker taker) ms ≡ false
untaken id maker taker [] fresh hm ht = refl
untaken id maker taker (m ∷ ms) fresh hm ht = ground (arith, untaken id maker taker ms)

unused_of_open :
    (x : Text) (db : Db) → IsSoundAt x db → opens x db.orders ≡ 1 → uses x db.matches ≡ 0
unused_of_open x db (unique, within) open_once = omega (arith, unique, within, open_once)

-- In sound tables, a transaction that is not refused, on two different orders that are open, with an id
-- that no match has, creates the match and returns its id.
pub create_match-won :
    (id maker taker : Text) (db : Db)
    → IsSoundAt maker db
    → IsSoundAt taker db
    → (maker === taker) ≡ false
    → opens maker db.orders ≡ 1
    → opens taker db.orders ≡ 1
    → any (is_match id) db.matches ≡ false
    → create_match false id maker taker db ≡ (
      ok id,
      record {
        orders = update_orders (is_wanted maker taker) matched db.orders;
        matches = db.matches ++ new_match id maker taker ∷ [];
      },
    )
unfolding create_match
create_match-won id maker taker db sound sound' differ open_maker open_taker fresh =
    let two : length (filter (is_wanted maker taker) db.orders) ≡ 2 =
      omega (arith, wanted-opens maker taker db.orders differ, open_maker, open_taker) in
    let counted : (length (filter (is_wanted maker taker) db.orders) == 2) ≡ true =
      (==_iff (length (filter (is_wanted maker taker) db.orders)) 2).1 two in
    let free : any (is_taken id maker taker) db.matches ≡ false =
      untaken id maker taker db.matches fresh (unused_of_open maker db sound open_maker)
        (unused_of_open taker db sound' open_taker) in
    rw (counted, differ, free) refl
