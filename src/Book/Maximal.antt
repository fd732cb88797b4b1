-- ===== src/Book/Maximal.antt =====
-- The pairs of a run of pairOrders against the orders of the book, up to their order.
use mathlib.Core.List.{Perm, Permᴰ}
use mathlib.Core.List.Permᴰ
use nyx_darkpool.Base.{◌≡◌, refl, sym, subst, true, false, List, [], ◌∷◌, ◌++◌, filter, map, All}
use nyx_darkpool.Book.{Order, is_ask, is_bid, pair_orders}
use nyx_darkpool.Book.Reference.{cross, ids}
use nyx_darkpool.Book.Fairness.{IsGreedy, Passed, pair_orders-IsGreedy}

module _ {ℓ} {A : Type ℓ} where
  middleᴰ :
      (before : List A) (b : A) (after : List A) → Permᴰ (before ++ b ∷ after) (b ∷ before ++ after)
  middleᴰ [] b after = Permᴰ.refl (b ∷ after)
  middleᴰ (c ∷ before) b after =
      Permᴰ.trans (Permᴰ.cons refl (middleᴰ before b after)) (Permᴰ.swap refl refl)

  All-Permᴰ {κ} : (P : A → Type κ) {xs ys : List A} → Permᴰ xs ys → All P xs → All P ys
  All-Permᴰ P Permᴰ.nil h = h
  All-Permᴰ P (Permᴰ.cons e d) (p, h) = (subst P e p, All-Permᴰ P d h)
  All-Permᴰ P (Permᴰ.swap e e') (p, (q, h)) = (subst P e' q, (subst P e p, h))
  All-Permᴰ P (Permᴰ.trans d d') h = All-Permᴰ P d' (All-Permᴰ P d h)

  All-append-right {κ} : (P : A → Type κ) (xs ys : List A) → All P (xs ++ ys) → All P ys
  All-append-right P [] ys h = h
  All-append-right P (x ∷ xs) ys (_, h) = All-append-right P xs ys h

abbrev pub maker : Order × Order → Order
maker (a, b) = a

abbrev pub taker : Order × Order → Order
taker (a, b) = b

-- What holds of the asks and what holds of the bids holds of the parties of each pair, and they cross.
pub pairs-All :
    (P Q : Order → Type 0) {asks bids : List Order} {ps : List (Order × Order)}
    → IsGreedy asks bids ps
    → All P asks
    → All Q bids
    → All (λ p. P (maker p) × Q (taker p) × (cross (maker p) (taker p) ≡ true)) ps
pairs-All P Q IsGreedy.done ha hb = tt
pairs-All P Q (IsGreedy.pass passed greedy) (h, ha) hb = pairs-All P Q greedy ha hb
pairs-All P Q (IsGreedy.take before after same passed hit greedy) (h, ha) hb =
    let (hb', h') = around before after (subst (All Q) same hb) in
    ((h, h', hit), pairs-All P Q greedy ha hb')
  where
    around :
        (before : List Order) {b : Order} (after : List Order)
        → All Q (before ++ b ∷ after)
        → All Q (before ++ after) × Q b
    around [] after (p, h) = (h, p)
    around (c ∷ before) after (p, h) = let (h', p') = around before after h in ((p, h'), p')

-- The orders that no pair has taken, the asks first.
abbrev pub Leaves : List Order → List Order → List (Order × Order) → Type 0
Leaves asks bids ps =
    (rest left : List Order) × Permᴰ asks (map maker ps ++ rest)
    × Permᴰ bids (map taker ps ++ left)
    × All (λ p. cross (maker p) (taker p) ≡ true) ps
    × All (λ a. Passed a left) rest

IsGreedy-Leaves :
    {asks bids : List Order} {ps : List (Order × Order)}
    → IsGreedy asks bids ps
    → Leaves asks bids ps
IsGreedy-Leaves (IsGreedy.done {bids = bids}) = ([], bids, Permᴰ.nil, Permᴰ.refl bids, tt, tt)
IsGreedy-Leaves (IsGreedy.pass {a = a} {bids = bids} {ps = ps} passed greedy) =
    let (rest, left, pa, pb, hits, misses) = IsGreedy-Leaves greedy in
    (
      a ∷ rest,
      left,
      Permᴰ.trans (Permᴰ.cons refl pa) (Permᴰ.symm (middleᴰ (map maker ps) a rest)),
      pb,
      hits,
      (
        All-append-right (λ b. cross a b ≡ false) (map taker ps) left
            (All-Permᴰ (λ b. cross a b ≡ false) pb passed),
        misses,
      ),
    )
IsGreedy-Leaves (IsGreedy.take {b = b} {ps = ps} before after same passed hit greedy) =
    let (rest, left, pa, pb, hits, misses) = IsGreedy-Leaves greedy in
    (
      rest,
      left,
      Permᴰ.cons refl pa,
      subst (λ l. Permᴰ l (b ∷ map taker ps ++ left)) (sym same)
          (Permᴰ.trans (middleᴰ before b after) (Permᴰ.cons refl pb)),
      (hit, hits),
      misses,
    )

-- In what pairOrders returns no order stands twice and every pair crosses: the makers with the asks
-- that are left are the asks of the book, the takers with the bids that are left are its bids, in some
-- order. And it is maximal: no ask that is left crosses a bid that is left.
pub pair_orders_maximal :
    (orders : List Order)
    → (ps : List (Order × Order)) × (rest left : List Order) × (pair_orders orders ≡ map ids ps)
      × Perm (filter is_ask orders) (map maker ps ++ rest)
      × Perm (filter is_bid orders) (map taker ps ++ left)
      × All (λ p. cross (maker p) (taker p) ≡ true) ps
      × All (λ a. Passed a left) rest
pair_orders_maximal orders =
    let (ps, same, greedy) = pair_orders-IsGreedy orders in
    let (rest, left, pa, pb, hits, misses) = IsGreedy-Leaves greedy in
    (ps, rest, left, same, ∣ pa ∣₁, ∣ pb ∣₁, hits, misses)
