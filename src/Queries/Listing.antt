-- ===== src/Queries/Listing.antt =====
-- The list of orders with their matches.
use nyx_darkpool.Base.{
  ℕ, zero, suc, ◌+◌, ◌≤◌, ◌≡◌, refl, ap, Bool, Option, none, some, List, [], ◌∷◌, Text, find,
  filter, map, reverse, take, length, arith, Bool-cases, inl, inr,
}
use nyx_darkpool.Ledger.{Db, OrderRow, MatchRow}
use nyx_darkpool.Ledger.Counts.{uses, opens, rows}
use nyx_darkpool.Ledger.Once.{IsSound}
use nyx_darkpool.Ledger.Backed.{has_party}
use nyx_darkpool.Queries.{Summary, summary, joined_rows, joined, join, list_orders}

-- The id of the first match that an order is in, or the empty text.
abbrev pub id_or_empty : Option MatchRow → Text
id_or_empty none = []
id_or_empty (some m) = m.id

abbrev pub looked_up : List MatchRow → OrderRow → Summary
looked_up ms o = summary o (id_or_empty (find (has_party o.id) ms))

has_party-le_uses : (x : Text) (ms : List MatchRow) → length (filter (has_party x) ms) ≤ uses x ms
has_party-le_uses x [] = omega arith
has_party-le_uses x (m ∷ ms) = ground (arith, has_party-le_uses x ms)

nil_of_length : (ms : List MatchRow) → length ms ≤ 0 → ms ≡ []
nil_of_length [] h = refl
nil_of_length (m ∷ ms) h = absurd (omega arith)

joined_rows-one :
    (o : OrderRow) (p : MatchRow → Bool) (ms : List MatchRow)
    → length (filter p ms) ≤ 1
    → joined_rows o (filter p ms) ≡ summary o (id_or_empty (find p ms)) ∷ []
joined_rows-one o p [] h = refl
joined_rows-one o p (m ∷ ms) h = elim (Bool-cases (p m)) [
  | inr e ↦ rw e (joined_rows-one o p ms (rw e at h))
  | inl e ↦
      let at_most : length (m ∷ filter p ms) ≤ 1 = rw e at h in
      let rest : filter p ms ≡ [] = nil_of_length (filter p ms) (omega (arith, at_most)) in
      rw (e, rest) refl
]

join-map :
    (ms : List MatchRow) (os : List OrderRow)
    → ((x : Text) → uses x ms ≤ 1)
    → join ms os ≡ map (looked_up ms) os
join-map ms [] once = refl
join-map ms (o ∷ os) once =
    let one : joined ms o ≡ looked_up ms o ∷ [] =
      joined_rows-one o (has_party o.id) ms (omega (arith, has_party-le_uses o.id ms, once o.id)) in
    rw one (ap (λ l. looked_up ms o ∷ l) (join-map ms os once))

-- In sound tables, the join with the matches lists each order once, the latest first, with the match
-- that has it, and the limit counts orders.
pub list_orders-lookup :
    (limit : ℕ) (db : Db)
    → IsSound db
    → list_orders limit db ≡ take limit (map (looked_up db.matches) (reverse db.orders))
unfolding list_orders
list_orders-lookup limit db sound =
    ap (take limit) (join-map db.matches (reverse db.orders) (λ x. once x (sound x)))
  where
    once :
        (x : Text)
        → (rows x db.orders ≤ 1) × (uses x db.matches + opens x db.orders ≤ rows x db.orders)
        → uses x db.matches ≤ 1
    once x (unique, within) = omega (arith, unique, within)

-- What is found in a list of looked-up orders.
pub find-looked_up :
    (ms : List MatchRow) (p : Summary → Bool) (limit : ℕ) (os : List OrderRow) (s : Summary)
    → find p (take limit (map (looked_up ms) os)) ≡ some s
    → (o : OrderRow) × (s ≡ looked_up ms o)
find-looked_up ms p zero os s h = absurd (cc)
find-looked_up ms p (suc limit) [] s h = absurd (cc)
find-looked_up ms p (suc limit) (o ∷ os) s h = elim (Bool-cases (p (looked_up ms o))) [
  | inl e ↦ (o, same s (rw e at h))
  | inr e ↦ find-looked_up ms p limit os s (rw e at h)
]
  where
    same :
        (s : Summary)
        → ◌≡◌ {A = Option Summary} (some (looked_up ms o)) (some s)
        → s ≡ looked_up ms o
    same s e = cc
