-- ===== src/Book/Fairness.antt =====
-- The rule of pairOrders as a relation: asks in the order of arrival, the earliest bid first.
use nyx_darkpool.Base.{
  ◌≡◌, Bool, true, false, none, some, List, [], ◌∷◌, ◌++◌, filter, map, arith, Option-cases,
  Bool-cases, inl, inr, All, subst,
}
use nyx_darkpool.Book.{Order, is_ask, is_bid, pair_orders}
use nyx_darkpool.Book.Reference.{cross, take_first, match_asks, matching, ids, pair_orders-matching}

abbrev pub Passed : Order → List Order → Type 0
Passed a bs = All (λ b. cross a b ≡ false) bs

-- The rule in the words of the source: each ask, in the order of arrival, takes the earliest bid that
-- is left and crosses it.
pub data IsGreedy : List Order → List Order → List (Order × Order) → Type 0 where
  done : {bids : List Order} → IsGreedy [] bids []
  pass :
      {a : Order} {asks bids : List Order} {ps : List (Order × Order)}
      → Passed a bids
      → IsGreedy asks bids ps
      → IsGreedy (a ∷ asks) bids ps
  take :
      {a b : Order} {asks bids : List Order} {ps : List (Order × Order)} (before after : List Order)
      → bids ≡ before ++ b ∷ after
      → Passed a before
      → cross a b ≡ true
      → IsGreedy asks (before ++ after) ps
      → IsGreedy (a ∷ asks) bids ((a, b) ∷ ps)

take_first-none :
    (p : Order → Bool) (bs : List Order) → take_first p bs ≡ none → All (λ b. p b ≡ false) bs
unfolding take_first
take_first-none p [] h = tt
take_first-none p (b ∷ bs) h = ground (arith, take_first-none p bs)

-- The list falls into what stands before the first hit, the hit, and what stands behind it.
abbrev Splits : (Order → Bool) → List Order → Order → List Order → Type 0
Splits p bs b rest =
    (before after : List Order) × (bs ≡ before ++ b ∷ after)
    × (rest ≡ before ++ after)
    × All (λ c. p c ≡ false) before
    × (p b ≡ true)

take_first-some :
    (p : Order → Bool) (bs : List Order) (b : Order) (rest : List Order)
    → take_first p bs ≡ some (b, rest)
    → Splits p bs b rest
unfolding take_first
take_first-some p [] b rest h = cc
take_first-some p (c ∷ bs) b rest h = elim (Bool-cases (p c)) [
  | inl hit ↦ ([], bs, ground arith, ground arith, tt, ground arith)
  | inr miss ↦ elim (Option-cases (take_first p bs)) [
    | inl e ↦ absurd (ground arith)
    | inr ((d, ds), e) ↦
        let (before, after, same, rests, passed, hit) = take_first-some p bs d ds e in
        (c ∷ before, after, ground arith, ground arith, (miss, passed), ground arith)
  ]
]

match_asks-IsGreedy : (asks bids : List Order) → IsGreedy asks bids (match_asks asks bids)
unfolding match_asks
match_asks-IsGreedy [] bids = done
match_asks-IsGreedy (a ∷ asks) bids = elim (Option-cases (take_first (cross a) bids)) [
  | inl e ↦
      rw (e, match_asks) (pass (take_first-none (cross a) bids e) (match_asks-IsGreedy asks bids))
  | inr ((b, rest), e) ↦
      let (before, after, same, rests, passed, hit) = take_first-some (cross a) bids b rest e in
      rw (e, match_asks)
        (take before after same passed hit (
          subst (λ r. IsGreedy asks r (match_asks asks rest)) rests
            (match_asks-IsGreedy asks rest)))
]

-- pairOrders names the orders of a greedy run over the asks and the bids of the book: each ask, in the
-- order of arrival, takes the earliest bid that is left and crosses it, and an ask is passed over only
-- when no bid that is left crosses it.
pub pair_orders-IsGreedy :
    (orders : List Order)
    → (ps : List (Order × Order)) × (pair_orders orders ≡ map ids ps)
      × IsGreedy (filter is_ask orders) (filter is_bid orders) ps
unfolding matching
pair_orders-IsGreedy orders = (
  matching orders,
  pair_orders-matching orders,
  match_asks-IsGreedy (filter is_ask orders) (filter is_bid orders),
)
