-- ===== src/Ledger/Counts.antt =====
-- How often an id stands in the tables: as an order, as an open order, and in the matches.
use nyx_darkpool.Base.{
  ℕ, ◌+◌, ◌≤◌, ◌≡◌, refl, Bool, false, ◌&&◌, List, [], ◌∷◌, ◌++◌, Text, ◌===◌, any, length, filter,
  arith, if◌then◌else◌, Bool-cases, inl, inr,
}
use nyx_darkpool.Ledger.{
  OrderRow, MatchRow, OrderStatus, matched, is_open, is_order, is_wanted, update_orders, set_status,
  is_nullifier,
}

abbrev pub bit : Bool → ℕ
bit b = if b then 1 else 0

abbrev pub count {ℓ} : {A : Type ℓ} → (A → Bool) → List A → ℕ
count p [] = 0
count p (a ∷ l) = bit (p a) + count p l

-- Orders of this id, and those of them that are open.
abbrev pub rows : Text → List OrderRow → ℕ
rows x = count (is_order x)

abbrev pub is_open_order : Text → OrderRow → Bool
is_open_order x o = is_order x o && is_open o

abbrev pub opens : Text → List OrderRow → ℕ
opens x = count (is_open_order x)

-- The places of an order in the matches.
abbrev pub uses : Text → List MatchRow → ℕ
uses x [] = 0
uses x (m ∷ ms) = bit (m.maker_order_id === x) + bit (m.taker_order_id === x) + uses x ms

module _ {ℓ} {A : Type ℓ} where
  pub count-append : (p : A → Bool) (xs ys : List A) → count p (xs ++ ys) ≡ count p xs + count p ys
  count-append p [] ys = omega arith
  count-append p (x ∷ xs) ys = omega (arith, count-append p xs ys)

  pub count_of_any : (p : A → Bool) (xs : List A) → any p xs ≡ false → count p xs ≡ 0
  count_of_any p [] h = refl
  count_of_any p (x ∷ xs) h = ground (arith, count_of_any p xs)

pub uses-append : (x : Text) (ms ns : List MatchRow) → uses x (ms ++ ns) ≡ uses x ms + uses x ns
uses-append x [] ns = omega arith
uses-append x (m ∷ ms) ns = omega (arith, uses-append x ms ns)

-- An update of the status keeps the ids and the nullifiers.
pub rows-update_orders :
    (x : Text) (p : OrderRow → Bool) (s : OrderStatus) (os : List OrderRow)
    → rows x (update_orders p s os) ≡ rows x os
rows-update_orders x p s [] = refl
rows-update_orders x p s (o ∷ os) = ground (arith, rows-update_orders x p s os)

pub nullifiers-update_orders :
    (n : Text) (p : OrderRow → Bool) (s : OrderStatus) (os : List OrderRow)
    → count (is_nullifier n) (update_orders p s os) ≡ count (is_nullifier n) os
nullifiers-update_orders n p s [] = refl
nullifiers-update_orders n p s (o ∷ os) = ground (arith, nullifiers-update_orders n p s os)

-- An update to `matched` or to `settled` opens nothing.
pub opens-update_orders_le :
    (x : Text) (p : OrderRow → Bool) (o : OrderRow) (s : OrderStatus) (os : List OrderRow)
    → is_open (set_status s o) ≡ false
    → opens x (update_orders p s os) ≤ opens x os
opens-update_orders_le x p o s [] h = omega arith
opens-update_orders_le x p o s (a ∷ os) h = elim (Bool-cases (p a)) [
  | inl e ↦ ground (arith, opens-update_orders_le x p o s os h)
  | inr e ↦ ground (arith, opens-update_orders_le x p o s os h)
]

-- The orders that a match takes are open no more.
pub opens-maker :
    (x taker : Text) (os : List OrderRow)
    → opens x (update_orders (is_wanted x taker) matched os) ≡ 0
opens-maker x taker [] = refl
opens-maker x taker (o ∷ os) = ground (arith, opens-maker x taker os)

pub opens-taker :
    (x maker : Text) (os : List OrderRow)
    → opens x (update_orders (is_wanted maker x) matched os) ≡ 0
opens-taker x maker [] = refl
opens-taker x maker (o ∷ os) = ground (arith, opens-taker x maker os)

pub wanted-le :
    (maker taker : Text) (os : List OrderRow)
    → length (filter (is_wanted maker taker) os) ≤ opens maker os + opens taker os
wanted-le maker taker [] = omega arith
wanted-le maker taker (o ∷ os) = ground (arith, wanted-le maker taker os)

pub wanted_same-le :
    (x : Text) (os : List OrderRow) → length (filter (is_wanted x x) os) ≤ opens x os
wanted_same-le x [] = omega arith
wanted_same-le x (o ∷ os) = ground (arith, wanted_same-le x os)
