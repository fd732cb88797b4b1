-- ===== src/Pipeline/Provable.antt =====
-- The matches of the engine, as the matcher loads them and as the circuit is given them.
use nyx_darkpool.Base.{
  ℕ, ◌≡◌, ◌<◌, ◌≤◌, sym, ap, ◌∙◌, true, Option, none, some, List, [], ◌∷◌, Text, any, find,
  Bool-cases, inl, inr, refl,
}
use nyx_darkpool.Base.BigInt.{ℤ}
use nyx_darkpool.Base.Decimal.{to_decimal}
use nyx_darkpool.Seal.{Hash}
use nyx_darkpool.Book.{Payload, Order, max}
use nyx_darkpool.Book.Reference.{cross}
use nyx_darkpool.Circuit.{Circomlib, Main, signals_of, input_for}
use nyx_darkpool.Circuit.Agreement.{IsSealed, input_for-Main_iff}
use nyx_darkpool.Ledger.{empty_db, is_match, Db, MatchRow}
use nyx_darkpool.Settling.{World}
use nyx_darkpool.Queries.{match_orders, parties_of}
use nyx_darkpool.Queries.Loading.{IsLoaded, match_orders-IsLoaded}
use nyx_darkpool.Pipeline.{Setup, Event, run}
use nyx_darkpool.Pipeline.Paired.{run-ArePaired}
use nyx_darkpool.Pipeline.Sound.{run-IsSound_world}

-- Whatever requests, cycles and jobs follow each other from empty tables: for every match that there is,
-- the matcher finds and reads the two orders that it needs to prove the match, and they are an ask and
-- a bid of one asset pair that cross.
pub run-IsLoaded :
    (s : Setup) (es : List Event) (w : World) (id : Text)
    → w.db ≡ empty_db
    → any (is_match id) (run s es w).db.matches ≡ true
    → IsLoaded s.decode (match_orders s.decode id (run s es w).db)
unfolding empty_db
run-IsLoaded s es w id empty found =
    match_orders-IsLoaded s.decode id (run s es w).db (run-IsSound_world s es w empty)
      (run-ArePaired s es w (ap (λ db. db.matches) empty)) found

-- What is loaded is loaded for a match that there is.
found_of_loaded :
    (decode : Text → Option Payload) (id : Text) (db : Db) (p : Order × Order)
    → match_orders decode id db ≡ some p
    → any (is_match id) db.matches ≡ true
unfolding match_orders
found_of_loaded decode id db p e = go db.matches e
  where
    go :
        (ms : List MatchRow)
        → (elim (find (is_match id) ms) [ none ↦ none | some m ↦ parties_of decode db.orders m ])
          ≡ some p
        → any (is_match id) ms ≡ true
    go [] e = absurd (cc)
    go (m ∷ ms) e = elim (Bool-cases (is_match id m)) [
      | inl e' ↦ rw e' refl
      | inr e' ↦ rw e' (go ms (rw e' at e))
    ]

pair_of_some :
    (a b c d : Order)
    → ◌≡◌ {A = Option (Order × Order)} (some (a, b)) (some (c, d))
    → (a ≡ c) × (b ≡ d)
pair_of_some a b c d e = (cc, cc)

-- `read` is how snarkjs reads a numeral of a number below the modulus; hashes are below it.
module _ (lib : Circomlib) (hash : Hash) (read : Text → ℕ) (modulus : ℕ) (large : max ≤ modulus)
    (reads : (n : ℕ) → n < modulus → read (to_decimal n) ≡ n)
    (in_field : (inputs : List ℤ) → hash inputs < modulus) where
  -- Whatever requests, cycles and jobs follow each other from empty tables: where the two orders that the
  -- matcher loads for a match are sealed, that is, their texts are the numerals of a price, a volume and
  -- a salt below 2 ^ 64 and the commitment is that of the hash of these, the signals that it gives the
  -- prover satisfy the circuit.
  pub run-Main :
      (s : Setup) (es : List Event) (w : World) (id : Text) (maker taker : Order)
      → w.db ≡ empty_db
      → match_orders s.decode id (run s es w).db ≡ some (maker, taker)
      → IsSealed hash maker
      → IsSealed hash taker
      → Main lib hash (signals_of read (input_for maker taker))
  run-Main s es w id maker taker empty e sealed sealed' =
      let found = found_of_loaded s.decode id (run s es w).db (maker, taker) e in
      let h = run-IsLoaded s es w id empty found in
      let (same, same') = pair_of_some h.ask h.bid maker taker (sym h.is_loaded ∙ e) in
      let fits : cross maker taker ≡ true = rw (← same, ← same') h.fits in
      (input_for-Main_iff lib hash read modulus large reads in_field maker taker sealed sealed').1
        fits
