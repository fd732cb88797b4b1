-- ===== src/Book/Reference.antt =====
-- pairOrders without flags: each ask, in the order of arrival, takes the first bid that crosses it and
-- is still there, and the bid is removed.
use nyx_darkpool.Base.{
  ◌≡◌, refl, Bool, true, false, Option, none, some, List, [], ◌∷◌, Text, if◌then◌else◌, filter, map,
  arith, Option-cases, inl, inr, ap, ◌∙◌,
}
use nyx_darkpool.Base.BigInt.{ℤ}
use nyx_darkpool.Book.{
  Order, MatchPair, Slots, takes, pick, pick_for, pair_asks, pair_orders, price_int, volume_int,
  is_ask, is_bid, unused,
}

-- An ask and a bid cross: the price fits, and the volumes are equal.
abbrev pub crosses : Option ℤ → Option ℤ → Order → Bool
crosses (some ap) (some av) b = takes ap av (price_int b) (volume_int b)
crosses _ _ b = false

abbrev pub cross : Order → Order → Bool
cross a b = crosses (price_int a) (volume_int a) b

-- The first bid that crosses, and the other bids.
unfoldable pub take_first : (Order → Bool) → List Order → Option (Order × List Order)
take_first p [] = none
take_first p (b ∷ bs) =
    let rest : Option (Order × List Order) = elim (take_first p bs) [
      | none ↦ none
      | some (c, cs) ↦ some (c, b ∷ cs)
    ] in
    if p b then some (b, bs) else rest

unfoldable pub match_asks : List Order → List Order → List (Order × Order)
match_asks [] bids = []
match_asks (a ∷ asks) bids = elim (take_first (cross a) bids) [
  | none ↦ match_asks asks bids
  | some (b, rest) ↦ (a, b) ∷ match_asks asks rest
]

unfoldable pub matching : List Order → List (Order × Order)
matching orders = match_asks (filter is_ask orders) (filter is_bid orders)

abbrev pub ids : Order × Order → MatchPair
ids (a, b) = record { maker_id = a.id; taker_id = b.id }

-- The bids whose flag is not set.
abbrev live : Slots → List Order
live [] = []
live ((b, true) ∷ slots) = live slots
live ((b, false) ∷ slots) = b ∷ live slots

live-unused : (bids : List Order) → live (map unused bids) ≡ bids
live-unused [] = refl
live-unused (b ∷ bids) = ap (λ bs. b ∷ bs) (live-unused bids)

-- What `pick` returns, seen through the flags.
abbrev seen : Option (Text × Slots) → Option (Text × List Order)
seen none = none
seen (some (id, slots)) = some (id, live slots)

abbrev named : Option (Order × List Order) → Option (Text × List Order)
named none = none
named (some (b, bs)) = some (b.id, bs)

pick-live :
    (ap av : ℤ) (slots : Slots)
    → seen (pick ap av slots) ≡ named (take_first (crosses (some ap) (some av)) (live slots))
unfolding pick take_first
pick-live ap av [] = refl
pick-live ap av ((b, true) ∷ slots) = ground (arith, pick-live ap av slots)
pick-live ap av ((b, false) ∷ slots) = ground (arith, pick-live ap av slots)

take_first-never :
    (p : Order → Bool) (bs : List Order) → ((b : Order) → p b ≡ false) → take_first p bs ≡ none
unfolding take_first
take_first-never p [] h = refl
take_first-never p (b ∷ bs) h = ground (arith, h b, take_first-never p bs h)

pick_for-live :
    (price volume : Option ℤ) (slots : Slots)
    → seen (pick_for price volume slots) ≡ named (take_first (crosses price volume) (live slots))
pick_for-live (some ap) (some av) slots = pick-live ap av slots
pick_for-live (some ap) none slots = rw (take_first-never _ (live slots) (λ b. refl))
pick_for-live none (some av) slots = rw (take_first-never _ (live slots) (λ b. refl))
pick_for-live none none slots = rw (take_first-never _ (live slots) (λ b. refl))

pair_asks-live :
    (asks : List Order) (slots : Slots)
    → pair_asks asks slots ≡ map ids (match_asks asks (live slots))
unfolding pair_asks match_asks
pair_asks-live [] slots = refl
pair_asks-live (a ∷ asks) slots =
    let same = pick_for-live (price_int a) (volume_int a) slots in
    elim (Option-cases (pick_for (price_int a) (volume_int a) slots)) [
      | inl e ↦ elim (Option-cases (take_first (cross a) (live slots))) [
        | inl e' ↦ ground (arith, pair_asks-live asks slots)
        | inr ((b, rest), e') ↦ ground (arith)
      ]
      | inr ((id, slots'), e) ↦ elim (Option-cases (take_first (cross a) (live slots))) [
        | inl e' ↦ ground (arith)
        | inr ((b, rest), e') ↦ ground (arith, pair_asks-live asks slots')
      ]
    ]

-- The flags are an optimisation: pairOrders returns the ids of the reference matching, in its order.
pub pair_orders-matching : (orders : List Order) → pair_orders orders ≡ map ids (matching orders)
unfolding pair_orders matching
pair_orders-matching orders =
    pair_asks-live (filter is_ask orders) (map unused (filter is_bid orders))
    ∙ ap (λ bs. map ids (match_asks (filter is_ask orders) bs)) (live-unused (filter is_bid orders))
