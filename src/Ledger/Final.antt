-- ===== src/Ledger/Final.antt =====
-- Confirmed settlements under later operations.
use nyx_darkpool.Base.{
  ◌≡◌, refl, Bool, true, false, Option, List, [], ◌∷◌, ◌++◌, Text, arith, ◌⊎◌, inl, inr, Bool-cases,
  if◌then◌else◌, none, some,
}
use nyx_darkpool.Ledger.{
  Db, MatchRow, confirmed, OnchainStatus, is_match, is_confirmed, is_unconfirmed, with_outcome,
  with_proof, update_matches, insert_order, create_match, new_match, set_proof, set_onchain,
  mark_settled, Op, insert, create, prove, report, settle, step, run,
}

module _ (P : MatchRow → Type 0) where
  abbrev pub Any : List MatchRow → Type 0
  Any [] = ⊥
  Any (m ∷ ms) = P m ⊎ Any ms

  Any-append : (ms ns : List MatchRow) → Any ms → Any (ms ++ ns)
  Any-append [] ns h = absurd h
  Any-append (m ∷ ms) ns (inl p) = inl p
  Any-append (m ∷ ms) ns (inr h) = inr (Any-append ms ns h)

  Any-update_matches :
      (p : MatchRow → Bool) (f : MatchRow → MatchRow) (ms : List MatchRow)
      → ((m : MatchRow) → P m → P (if p m then f m else m))
      → Any ms
      → Any (update_matches p f ms)
  Any-update_matches p f [] keeps h = h
  Any-update_matches p f (m ∷ ms) keeps (inl h) = inl (keeps m h)
  Any-update_matches p f (m ∷ ms) keeps (inr h) = inr (Any-update_matches p f ms keeps h)

-- The settlement of this match is confirmed, with this transaction.
pub record IsConfirmed (id : Text) (tx : Option Text) (m : MatchRow) : Type 0 where
  pub same_id : m.id ≡ id
  pub status : m.onchain_status ≡ confirmed
  pub same_tx : m.settlement_tx ≡ tx

is_confirmed-status : (m : MatchRow) → m.onchain_status ≡ confirmed → is_confirmed m ≡ true
is_confirmed-status m e = rw e refl

module _ (id : Text) (tx : Option Text) where
  IsConfirmed-with_outcome :
      (other : Text) (status : OnchainStatus) (t : Text) (m : MatchRow)
      → IsConfirmed id tx m
      → IsConfirmed id tx (if is_unconfirmed other m then with_outcome status t m else m)
  IsConfirmed-with_outcome other status t m h =
      let kept : is_unconfirmed other m ≡ false = ground (arith, is_confirmed-status m h.status) in
      rw kept h

  IsConfirmed-with_proof :
      (other proof : Text) (m : MatchRow)
      → IsConfirmed id tx m
      → IsConfirmed id tx (if is_match other m then with_proof proof m else m)
  IsConfirmed-with_proof other proof m h = elim (Bool-cases (is_match other m)) [
    | inl e ↦ rw e (record { same_id = h.same_id; status = h.status; same_tx = h.same_tx })
    | inr e ↦ rw e h
  ]

  create-Any :
      (conflict : Bool) (new maker taker : Text) (db : Db)
      → Any (IsConfirmed id tx) db.matches
      → Any (IsConfirmed id tx) (create_match conflict new maker taker db).1.matches
  unfolding create_match
  create-Any conflict new maker taker db h =
      let longer = Any-append (IsConfirmed id tx) db.matches (new_match new maker taker ∷ []) h in
      ground arith

  step-Any :
      (op : Op) (db : Db)
      → Any (IsConfirmed id tx) db.matches
      → Any (IsConfirmed id tx) (step op db).matches
  unfolding step insert_order set_proof set_onchain mark_settled
  step-Any (insert none p) db h = h
  step-Any (insert (some new) p) db h = ground arith
  step-Any (create conflict new maker taker) db h = create-Any conflict new maker taker db h
  step-Any (prove other proof) db h =
      Any-update_matches (IsConfirmed id tx) (is_match other) (with_proof proof) db.matches
        (IsConfirmed-with_proof other proof) h
  step-Any (report other status t) db h =
      Any-update_matches (IsConfirmed id tx) (is_unconfirmed other) (with_outcome status t)
        db.matches (IsConfirmed-with_outcome other status t) h
  step-Any (settle other t) db h =
      Any-update_matches (IsConfirmed id tx) (is_unconfirmed other) (with_outcome confirmed t)
        db.matches (IsConfirmed-with_outcome other confirmed t) h

  -- Once the settlement of a match is confirmed it stays confirmed, with the transaction that was
  -- recorded first, whatever operations follow, late reports of failure included.
  pub settlement-final :
      (ops : List Op) (db : Db)
      → Any (IsConfirmed id tx) db.matches
      → Any (IsConfirmed id tx) (run ops db).matches
  unfolding run
  settlement-final [] db h = h
  settlement-final (op ∷ ops) db h = settlement-final ops (step op db) (step-Any op db h)
