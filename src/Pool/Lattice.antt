-- ===== src/Pool/Lattice.antt =====
-- What the lattice shows.
use nyx_darkpool.Base.{
  ℕ, zero, suc, ◌+◌, ◌-◌, ◌≤◌, ◌≡◌, Bool, ◌&&◌, List, [], ◌∷◌, ◌==◌, arith, if◌then◌else◌, ltb, leb,
  length, refl,
}
use nyx_darkpool.Pool.{
  Pool, Cell, matched, resting, cell, cells_from, lattice, found, lit, cells, open_orders, min,
}

abbrev one_if : Bool → ℕ
one_if b = if b then 1 else 0

unfoldable pub matches : List Cell → ℕ
matches [] = 0
matches (matched ∷ cs) = 1 + matches cs
matches (_ ∷ cs) = matches cs

unfoldable pub restings : List Cell → ℕ
restings [] = 0
restings (resting ∷ cs) = 1 + restings cs
restings (_ ∷ cs) = restings cs

lit-le : (p : Pool) → lit p ≤ cells - 1
unfolding lit
lit-le p = ground arith

matches-cell :
    (p : Pool) (k : ℕ) (cs : List Cell)
    → matches (cell p k ∷ cs) ≡ one_if (found p && k == lit p) + matches cs
unfolding matches cell
matches-cell p k cs = ground (arith, lit-le p)

restings-cell :
    (p : Pool) (k : ℕ) (cs : List Cell)
    → restings (cell p k ∷ cs) ≡ one_if (ltb k (lit p)) + restings cs
unfolding restings cell
restings-cell p k cs = ground (arith, lit-le p)

matches-cells_from :
    (p : Pool) (k n : ℕ)
    → matches (cells_from p k n) ≡ one_if (found p && leb k (lit p) && ltb (lit p) (k + n))
unfolding matches cells_from
matches-cells_from p k zero = ground arith
matches-cells_from p k (suc n) =
    ground (arith, matches-cell p k (cells_from p (k + 1) n), matches-cells_from p (k + 1) n)

restings-cells_from : (p : Pool) (k n : ℕ) → restings (cells_from p k n) ≡ min (lit p - k) n
unfolding restings cells_from
restings-cells_from p k zero = ground arith
restings-cells_from p k (suc n) =
    ground (arith, restings-cell p k (cells_from p (k + 1) n), restings-cells_from p (k + 1) n)

length-cells_from : (p : Pool) (k n : ℕ) → length (cells_from p k n) ≡ n
unfolding cells_from
length-cells_from p k zero = refl
length-cells_from p k (suc n) = omega (arith, length-cells_from p (k + 1) n)

lit-min : (p : Pool) → lit p ≡ min (length (open_orders p)) (cells - 1)
unfolding lit
lit-min p = refl

-- Of the eighty cells as many are lit as there are open orders, at most seventy-nine, and one more
-- marks the match exactly if the active order is found to be no longer open.
pub lattice-counts :
    (p : Pool)
    → (length (lattice p) ≡ cells)
      × (restings (lattice p) ≡ min (length (open_orders p)) (cells - 1))
      × (matches (lattice p) ≡ (if found p then 1 else 0))
unfolding lattice
lattice-counts p = (
  length-cells_from p 0 cells,
  ground (arith, restings-cells_from p 0 cells, lit-min p),
  ground (arith, matches-cells_from p 0 cells, lit-le p),
)
