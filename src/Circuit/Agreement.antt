-- ===== src/Circuit/Agreement.antt =====
-- The signals of two sealed orders, as the prover is given them, against the rule of the matcher.
use nyx_darkpool.Base.{
  ℕ, ◌≤◌, ◌<◌, ◌≡◌, ◌↔◌, sym, ap, ◌∙◌, true, some, List, [], ◌∷◌, Text, map, filter, All, arith,
  Bool-cases, inl, inr, subst, Bool,
}
use nyx_darkpool.Base.Decimal.{to_decimal}
use nyx_darkpool.Base.BigInt.{ℤ, pos}
use nyx_darkpool.Seal.{Hash}
use nyx_darkpool.Book.{
  Order, set_string, max, is_ask, is_bid, pair_orders, takes, price_int, volume_int,
}
use nyx_darkpool.Book.Reference.{cross, ids}
use nyx_darkpool.Book.Validation.{set_string-to_decimal}
use nyx_darkpool.Book.Maximal.{maker, taker, pairs-All}
use nyx_darkpool.Book.Fairness.{pair_orders-IsGreedy}
use nyx_darkpool.Circuit.{Circomlib, Main, signals_of, input_for}
use nyx_darkpool.Circuit.Statement.{IsMatch, Main-IsMatch_iff}

-- An order whose payload opens its commitment, with numbers that the circuit can hold.
pub record IsSealed (hash : Hash) (o : Order) : Type 0 where
  pub price : ℕ
  pub volume : ℕ
  pub salt : ℕ
  pub price_text : o.payload.price ≡ to_decimal price
  pub volume_text : o.payload.volume ≡ to_decimal volume
  pub salt_text : o.payload.salt ≡ to_decimal salt
  pub commitment_text : o.commitment ≡ to_decimal (hash (pos price ∷ pos volume ∷ pos salt ∷ []))
  pub price_fits : price < max
  pub volume_fits : volume < max
  pub salt_fits : salt < max

takes_iff :
    (ap av bp bv : ℕ)
    → (takes (pos ap) (pos av) (some (pos bp)) (some (pos bv)) ≡ true) ↔ ((ap ≤ bp) × (av ≡ bv))
takes_iff ap av bp bv = ground arith

cross_iff :
    (hash : Hash) (a b : Order) (sa : IsSealed hash a) (sb : IsSealed hash b)
    → (cross a b ≡ true) ↔ ((sa.price ≤ sb.price) × (sa.volume ≡ sb.volume))
cross_iff hash a b sa sb =
    let pa : price_int a ≡ some (pos sa.price) =
      ap set_string sa.price_text ∙ set_string-to_decimal sa.price in
    let va : volume_int a ≡ some (pos sa.volume) =
      ap set_string sa.volume_text ∙ set_string-to_decimal sa.volume in
    let pb : price_int b ≡ some (pos sb.price) =
      ap set_string sb.price_text ∙ set_string-to_decimal sb.price in
    let vb : volume_int b ≡ some (pos sb.volume) =
      ap set_string sb.volume_text ∙ set_string-to_decimal sb.volume in
    rw (pa, va, pb, vb) (takes_iff sa.price sa.volume sb.price sb.volume)

All-filter :
    (P : Order → Type 0) (p : Order → Bool) (os : List Order) → All P os → All P (filter p os)
All-filter P p [] h = tt
All-filter P p (o ∷ os) (ho, h) = elim (Bool-cases (p o)) [
  | inl e ↦ rw e (ho, All-filter P p os h)
  | inr e ↦ rw e (All-filter P p os h)
]

-- `read` is how snarkjs reads a numeral of a number below the modulus; hashes are below it.
module _ (lib : Circomlib) (hash : Hash) (read : Text → ℕ) (modulus : ℕ) (large : max ≤ modulus)
    (reads : (n : ℕ) → n < modulus → read (to_decimal n) ≡ n)
    (in_field : (inputs : List ℤ) → hash inputs < modulus) where
  reads_text : (s : Text) (n : ℕ) → s ≡ to_decimal n → n < modulus → read s ≡ n
  reads_text s n e h = ap read e ∙ reads n h

  IsMatch-iff :
      (a b : Order) (sa : IsSealed hash a) (sb : IsSealed hash b)
      → IsMatch hash (signals_of read (input_for a b))
        ↔ ((sa.price ≤ sb.price) × (sa.volume ≡ sb.volume))
  unfolding input_for
  IsMatch-iff a b sa sb =
      let pa =
        reads_text a.payload.price sa.price sa.price_text (omega (arith, sa.price_fits, large)) in
      let va =
        reads_text a.payload.volume sa.volume sa.volume_text
          (omega (arith, sa.volume_fits, large)) in
      let ca =
        reads_text a.payload.salt sa.salt sa.salt_text (omega (arith, sa.salt_fits, large)) in
      let ha = reads_text a.commitment _ sa.commitment_text (in_field _) in
      let pb =
        reads_text b.payload.price sb.price sb.price_text (omega (arith, sb.price_fits, large)) in
      let vb =
        reads_text b.payload.volume sb.volume sb.volume_text
          (omega (arith, sb.volume_fits, large)) in
      let cb =
        reads_text b.payload.salt sb.salt sb.salt_text (omega (arith, sb.salt_fits, large)) in
      let hb = reads_text b.commitment _ sb.commitment_text (in_field _) in
      (
        λ m. (
          subst (λ n. n ≤ sb.price) pa (subst (λ n. read a.payload.price ≤ n) pb m.crosses),
          sym va ∙ m.same_volume ∙ vb,
        ),
        λ (le, same). record {
          maker_price_fits = rw pa sa.price_fits;
          taker_price_fits = rw pb sb.price_fits;
          volume_fits = rw vb sb.volume_fits;
          crosses = rw (pa, pb) le;
          same_volume = va ∙ same ∙ sym vb;
          maker_commits = rw (pa, va, ca) ha;
          taker_commits = rw (pb, vb, cb) hb;
        },
      )

  -- The signals that the prover is given for two sealed orders, whose texts are the numerals of numbers
  -- below 2 ^ 64 and whose commitments are the hashes of these, satisfy the circuit exactly when the
  -- matcher lets the two cross.
  pub input_for-Main_iff :
      (a b : Order)
      → IsSealed hash a
      → IsSealed hash b
      → Main lib hash (signals_of read (input_for a b)) ↔ (cross a b ≡ true)
  input_for-Main_iff a b sa sb =
      let w = signals_of read (input_for a b) in
      let main = Main-IsMatch_iff lib hash w in
      let match = IsMatch-iff a b sa sb in
      let hit = cross_iff hash a b sa sb in
      (λ m. hit.1 (match.0 (main.0 m)), λ h. main.1 (match.1 (hit.0 h)))

  All-Main :
      (ps : List (Order × Order))
      → All
          (λ p.
            IsSealed hash (maker p) × IsSealed hash (taker p) × (cross (maker p) (taker p) ≡ true))
          ps
      → All (λ p. Main lib hash (signals_of read (input_for (maker p) (taker p)))) ps
  All-Main [] h = tt
  All-Main ((a, b) ∷ ps) ((sa, sb, hit), h) = ((input_for-Main_iff a b sa sb).1 hit, All-Main ps h)

  -- Every pair that pairOrders makes of a book of sealed orders can be proved: what it returns are the
  -- ids of pairs whose signals satisfy the circuit.
  pub pair_orders-Main :
      (orders : List Order)
      → All (IsSealed hash) orders
      → (ps : List (Order × Order)) × (pair_orders orders ≡ map ids ps)
        × All (λ p. Main lib hash (signals_of read (input_for (maker p) (taker p)))) ps
  pair_orders-Main orders sealed =
      let (ps, same, greedy) = pair_orders-IsGreedy orders in
      let all =
        pairs-All (IsSealed hash) (IsSealed hash) greedy
          (All-filter (IsSealed hash) is_ask orders sealed)
          (All-filter (IsSealed hash) is_bid orders sealed) in
      (ps, same, All-Main ps all)
