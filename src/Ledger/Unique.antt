-- ===== src/Ledger/Unique.antt =====
-- Nullifiers in the book of orders.
use nyx_darkpool.Base.{
  ℕ, ◌+◌, ◌≤◌, ◌≡◌, Bool, List, [], ◌∷◌, ◌++◌, Text, ◌===◌, ===_iff, any, arith, Bool-cases, inl,
  inr, subst, sym, Option, none, some,
}
use nyx_darkpool.Ledger.{
  Db, is_nullifier, is_wanted, is_party, InsertParams, row_of, insert_order, create_match,
  set_proof, set_onchain, mark_settled, matched, settled, confirmed, record_outcome, Op, insert,
  create, prove, report, settle, step, run, empty_db,
}
use nyx_darkpool.Ledger.Counts.{bit, count, count-append, count_of_any, nullifiers-update_orders}

abbrev nullified : Text → Db → ℕ
nullified n db = count (is_nullifier n) db.orders

insert-nullified :
    (id : Option Text) (p : InsertParams) (n : Text) (db : Db)
    → nullified n db ≤ 1
    → nullified n (insert_order id p db).1 ≤ 1
unfolding insert_order
insert-nullified none p n db h = h
insert-nullified (some id) p n db h =
    let row = row_of id p in
    let added : count (is_nullifier n) (db.orders ++ row ∷ [])
        ≡ count (is_nullifier n) db.orders + (bit (p.nullifier === n) + 0) =
      count-append (is_nullifier n) db.orders (row ∷ []) in
    elim (Bool-cases (any (is_nullifier p.nullifier) db.orders)) [
      | inl taken ↦ ground arith
      | inr fresh ↦
          let none_yet : count (is_nullifier p.nullifier) db.orders ≡ 0 =
            count_of_any (is_nullifier p.nullifier) db.orders fresh in
          elim (Bool-cases (p.nullifier === n)) [
            | inl e ↦
                let none_of_n : nullified n db ≡ 0 =
                  subst (λ y. nullified y db ≡ 0) ((===_iff p.nullifier n).0 e) none_yet in
                ground arith
            | inr e ↦ ground arith
          ]
    ]

create-nullified :
    (conflict : Bool) (id maker taker n : Text) (db : Db)
    → nullified n (create_match conflict id maker taker db).1 ≡ nullified n db
unfolding create_match
create-nullified conflict id maker taker n db =
    let same = nullifiers-update_orders n (is_wanted maker taker) matched db.orders in ground arith

step-nullified : (op : Op) (n : Text) (db : Db) → nullified n db ≤ 1 → nullified n (step op db) ≤ 1
unfolding step set_proof set_onchain mark_settled
step-nullified (insert id p) n db h = insert-nullified id p n db h
step-nullified (create conflict id maker taker) n db h =
    subst (λ k. k ≤ 1) (sym (create-nullified conflict id maker taker n db)) h
step-nullified (prove id proof) n db h = h
step-nullified (report id status tx) n db h = h
step-nullified (settle id tx) n db h = omega (
  arith,
  h,
  nullifiers-update_orders n (is_party id (record_outcome id confirmed tx db.matches)) settled
      db.orders,
)

run-nullified :
    (ops : List Op) (n : Text) (db : Db) → nullified n db ≤ 1 → nullified n (run ops db) ≤ 1
unfolding run
run-nullified [] n db h = h
run-nullified (op ∷ ops) n db h = run-nullified ops n (step op db) (step-nullified op n db h)

-- Whatever operations run in whatever order from empty tables, no nullifier stands on two orders, open,
-- matched or settled.
pub nullifier-once :
    (ops : List Op) (n : Text) → count (is_nullifier n) (run ops empty_db).orders ≤ 1
unfolding empty_db
nullifier-once ops n = run-nullified ops n empty_db (omega arith)
