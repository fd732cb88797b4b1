-- ===== src/Ledger/Once.antt =====
-- The places of an order in the book and in the matches, under every operation.
use nyx_darkpool.Base.{
  ℕ, ◌+◌, ◌≤◌, ◌≡◌, refl, sym, Bool, true, false, List, [], ◌∷◌, ◌++◌, Text, ◌===◌, ◌==◌, ==_iff,
  ===_iff, any, length, filter, arith, Bool-cases, inl, inr, subst, ap, Option, none, some,
}
use nyx_darkpool.Ledger.{
  Db, OrderRow, MatchRow, matched, settled, is_order, is_wanted, is_party, update_orders,
  update_matches, record_outcome, is_unconfirmed, with_outcome, with_proof, is_match, new_match,
  InsertParams, row_of, insert_order, create_match, insert_match, set_proof, set_onchain,
  mark_settled, OnchainStatus, confirmed, Op, insert, create, prove, report, settle, step, run,
  empty_db,
}
use nyx_darkpool.Ledger.Counts.{
  bit, rows, opens, uses, count-append, count_of_any, uses-append, rows-update_orders,
  opens-update_orders_le, opens-maker, opens-taker, wanted-le, wanted_same-le, is_open_order,
}

-- No two orders have this id, and the order is open or in one match, or neither.
abbrev pub IsSoundAt : Text → Db → Type 0
IsSoundAt x db = (rows x db.orders ≤ 1) × (uses x db.matches + opens x db.orders ≤ rows x db.orders)

abbrev pub IsSound : Db → Type 0
IsSound db = (x : Text) → IsSoundAt x db

-- Updates of matches that keep their parties.
uses-update_matches :
    (x : Text) (p : MatchRow → Bool) (f : MatchRow → MatchRow) (ms : List MatchRow)
    → ((m : MatchRow)
        → ((f m).maker_order_id ≡ m.maker_order_id) × ((f m).taker_order_id ≡ m.taker_order_id))
    → uses x (update_matches p f ms) ≡ uses x ms
uses-update_matches x p f [] keeps = refl
uses-update_matches x p f (m ∷ ms) keeps =
    let (maker, taker) = keeps m in
    elim (Bool-cases (p m)) [
      | inl e ↦
          rw (e, maker, taker)
            (ap (λ n. bit (m.maker_order_id === x) + bit (m.taker_order_id === x) + n)
              (uses-update_matches x p f ms keeps))
      | inr e ↦ rw e (
          ap (λ n. bit (m.maker_order_id === x) + bit (m.taker_order_id === x) + n)
            (uses-update_matches x p f ms keeps))
    ]

insert-IsSound :
    (id : Option Text) (p : InsertParams) (db : Db) → IsSound db → IsSound (insert_order id p db).1
unfolding insert_order
insert-IsSound none p db h x = h x
insert-IsSound (some id) p db h x =
    let (unique, within) = h x in
    let row = row_of id p in
    let added : rows x (db.orders ++ row ∷ []) ≡ rows x db.orders + (bit (id === x) + 0) =
      count-append (is_order x) db.orders (row ∷ []) in
    let open_added : opens x (db.orders ++ row ∷ [])
        ≡ opens x db.orders + (bit (is_open_order x row) + 0) =
      count-append (is_open_order x) db.orders (row ∷ []) in
    elim (Bool-cases (any (is_order id) db.orders)) [
      | inl taken ↦ ground arith
      | inr fresh ↦
          let none_yet : rows id db.orders ≡ 0 = count_of_any (is_order id) db.orders fresh in
          elim (Bool-cases (id === x)) [
            | inl e ↦
                let none_of_x : rows x db.orders ≡ 0 =
                  subst (λ y. rows y db.orders ≡ 0) ((===_iff id x).0 e) none_yet in
                ground arith
            | inr e ↦ ground arith
          ]
    ]

-- Both orders of a new match were open.
both-open : (a b n : ℕ) → n ≤ a + b → n ≡ 2 → a ≤ 1 → b ≤ 1 → (a ≡ 1) × (b ≡ 1)
both-open a b n le two ha hb = (omega arith, omega arith)

abbrev any_row : OrderRow
any_row = row_of [] (record {
  pubkey = [];
  asset_pair = [];
  side = [];
  blob = [];
  commitment = [];
  nullifier = [];
  price_hash = [];
  volume_hash = [];
})

module _ (id maker taker : Text) (db : Db) (h : IsSound db)
    (two : length (filter (is_wanted maker taker) db.orders) ≡ 2) where
  abbrev orders' : List OrderRow
  orders' = update_orders (is_wanted maker taker) matched db.orders

  abbrev matches' : List MatchRow
  matches' = db.matches ++ new_match id maker taker ∷ []

  opens-le_one : (x : Text) → opens x db.orders ≤ 1
  opens-le_one x = let (unique, within) = h x in omega arith

  -- A match of an order with itself would need two open orders of one id.
  parties-differ : (maker === taker) ≡ false
  parties-differ = elim (Bool-cases (maker === taker)) [
    | inl e ↦
        let two' : length (filter (is_wanted maker maker) db.orders) ≡ 2 =
          subst (λ t. length (filter (is_wanted maker t) db.orders) ≡ 2)
            (sym ((===_iff maker taker).0 e)) two in
        absurd (omega (arith, two', wanted_same-le maker db.orders, opens-le_one maker))
    | inr e ↦ e
  ]

  created-IsSoundAt : (x : Text) → IsSoundAt x (record { orders = orders'; matches = matches' })
  created-IsSoundAt x =
      let (unique, within) = h x in
      let (open_maker, open_taker) =
        both-open (opens maker db.orders) (opens taker db.orders)
          (length (filter (is_wanted maker taker) db.orders)) (wanted-le maker taker db.orders) two
          (opens-le_one maker) (opens-le_one taker) in
      let same_rows = rows-update_orders x (is_wanted maker taker) matched db.orders in
      let used : uses x matches' ≡ uses x db.matches + (bit (maker === x) + bit (taker === x) + 0) =
        uses-append x db.matches (new_match id maker taker ∷ []) in
      elim (Bool-cases (maker === x)) [
        | inl e ↦
            let same : maker ≡ x = (===_iff maker x).0 e in
            let none_open : opens x orders' ≡ 0 =
              subst (λ m. opens x (update_orders (is_wanted m taker) matched db.orders) ≡ 0)
                (sym same) (opens-maker x taker db.orders) in
            let was_open : opens x db.orders ≡ 1 =
              subst (λ y. opens y db.orders ≡ 1) same open_maker in
            let other : (taker === x) ≡ false =
              ground (arith, ===_iff maker taker, ===_iff taker x, parties-differ, same) in
            (
              omega (arith, same_rows, unique),
              ground (arith, used, e, other, none_open, was_open, same_rows, within),
            )
        | inr e ↦ elim (Bool-cases (taker === x)) [
          | inl e' ↦
              let same : taker ≡ x = (===_iff taker x).0 e' in
              let none_open : opens x orders' ≡ 0 =
                subst (λ t. opens x (update_orders (is_wanted maker t) matched db.orders) ≡ 0)
                  (sym same) (opens-taker x maker db.orders) in
              let was_open : opens x db.orders ≡ 1 =
                subst (λ y. opens y db.orders ≡ 1) same open_taker in
              (
                omega (arith, same_rows, unique),
                ground (arith, used, e, e', none_open, was_open, same_rows, within),
              )
          | inr e' ↦
              let fewer : opens x orders' ≤ opens x db.orders =
                opens-update_orders_le x (is_wanted maker taker) any_row matched db.orders refl in
              (
                omega (arith, same_rows, unique),
                ground (arith, used, e, e', fewer, same_rows, within),
              )
        ]
      ]

insert_match-IsSound :
    (id maker taker : Text) (db : Db)
    → IsSound db
    → length (filter (is_wanted maker taker) db.orders) ≡ 2
    → IsSound
        (insert_match id maker taker db
          (record db { orders = update_orders (is_wanted maker taker) matched db.orders })).1
insert_match-IsSound id maker taker db h two x =
    let kept = h x in let created = created-IsSoundAt id maker taker db h two x in ground arith

create-IsSound :
    (conflict : Bool) (id maker taker : Text) (db : Db)
    → IsSound db
    → IsSound (create_match conflict id maker taker db).1
unfolding create_match
create-IsSound true id maker taker db h x = h x
create-IsSound false id maker taker db h x =
    elim (Bool-cases (length (filter (is_wanted maker taker) db.orders) == 2)) [
      | inl e ↦ rw e (
          insert_match-IsSound id maker taker db h
            ((==_iff (length (filter (is_wanted maker taker) db.orders)) 2).0 e) x)
      | inr e ↦ rw e (h x)
    ]

report-IsSound :
    (id : Text) (status : OnchainStatus) (tx : Text) (db : Db)
    → IsSound db
    → IsSound (set_onchain id status tx db)
unfolding set_onchain
report-IsSound id status tx db h x =
    let (unique, within) = h x in
    let same : uses x (record_outcome id status tx db.matches) ≡ uses x db.matches =
      uses-update_matches x (is_unconfirmed id) (with_outcome status tx) db.matches
        (λ m. (refl, refl)) in
    (unique, omega (arith, within, same))

prove-IsSound : (id proof : Text) (db : Db) → IsSound db → IsSound (set_proof id proof db)
unfolding set_proof
prove-IsSound id proof db h x =
    let (unique, within) = h x in
    let same : uses x (set_proof id proof db).matches ≡ uses x db.matches =
      uses-update_matches x (is_match id) (with_proof proof) db.matches (λ m. (refl, refl)) in
    (unique, omega (arith, within, same))

settle-IsSound : (id tx : Text) (db : Db) → IsSound db → IsSound (mark_settled id tx db)
unfolding mark_settled
settle-IsSound id tx db h x =
    let (unique, within) = h x in
    let ms = record_outcome id confirmed tx db.matches in
    let same : uses x ms ≡ uses x db.matches =
      uses-update_matches x (is_unconfirmed id) (with_outcome confirmed tx) db.matches
        (λ m. (refl, refl)) in
    let same_rows = rows-update_orders x (is_party id ms) settled db.orders in
    let fewer = opens-update_orders_le x (is_party id ms) any_row settled db.orders refl in
    (omega (arith, unique, same_rows), omega (arith, within, same, same_rows, fewer))

pub step-IsSound : (op : Op) (db : Db) → IsSound db → IsSound (step op db)
unfolding step
step-IsSound (insert id p) db h = insert-IsSound id p db h
step-IsSound (create conflict id maker taker) db h = create-IsSound conflict id maker taker db h
step-IsSound (prove id proof) db h = prove-IsSound id proof db h
step-IsSound (report id status tx) db h = report-IsSound id status tx db h
step-IsSound (settle id tx) db h = settle-IsSound id tx db h

run-IsSound : (ops : List Op) (db : Db) → IsSound db → IsSound (run ops db)
unfolding run
run-IsSound [] db h = h
run-IsSound (op ∷ ops) db h = run-IsSound ops (step op db) (step-IsSound op db h)

-- Whatever operations run in whatever order from empty tables, with ids that may repeat and
-- transactions that may be refused: no two orders have one id, and an order that is open is in no
-- match, and no order is in two matches or twice in one.
pub run-IsSoundAt : (ops : List Op) (x : Text) → IsSoundAt x (run ops empty_db)
unfolding empty_db
run-IsSoundAt ops x = run-IsSound ops empty_db (λ y. (omega arith, omega arith)) x
