-- ===== src/Pool.antt =====
-- web/app/app/_components/PoolBody.tsx: what the pool screen shows of the list of orders. `none` for the
-- list stands for one that has not loaded. The styles and the layout are left out.
pub mod Lattice
use nyx_darkpool.Base.{
  ℕ, zero, suc, ◌+◌, ◌-◌, Bool, true, false, ◌&&◌, not, Option, none, some, List, [], ◌∷◌, ◌++◌,
  Text, codes, ◌===◌, ◌==◌, if◌then◌else◌, ltb, leb, find, filter, length, is_set, Outcome,
  returned, threw,
}
use nyx_darkpool.Base.Decimal.{to_decimal}
use nyx_darkpool.Engine.{OrderSummary}
use nyx_darkpool.Counter.{is_open}

abbrev pub cells : ℕ
cells = 80

-- The screen's state: the last list, and the active order's id.
pub record Pool : Type 0 where
  pub orders : Option (List OrderSummary)
  pub active_id : Option Text
  pub alive : Bool

-- `tick`: a list that fails to load leaves the last one, and one that comes late is dropped.
unfoldable pub tick : Outcome (List OrderSummary) → Pool → Pool
tick (returned os) p = if p.alive then record p { orders = some os } else p
tick (threw m) p = p

abbrev pub listed : Pool → List OrderSummary
listed p = elim p.orders [ none ↦ [] | some os ↦ os ]

unfoldable pub open_orders : Pool → List OrderSummary
open_orders p = filter is_open (listed p)

-- `o.id === activeId`, which no order satisfies where the id is null.
unfoldable pub has_id : Option Text → OrderSummary → Bool
has_id none o = false
has_id (some id) o = o.id === id

unfoldable pub active : Pool → Option OrderSummary
active p = find (has_id p.active_id) (listed p)

unfoldable pub found : Pool → Bool
found p = elim (active p) [ none ↦ false | some o ↦ not (is_open o) ]

abbrev pub min : ℕ → ℕ → ℕ
min a b = if leb a b then a else b

unfoldable pub lit : Pool → ℕ
lit p = min (length (open_orders p)) (cells - 1)

-- A cell of the lattice: the match, a resting commitment, or none.
pub data Cell : Type 0 where
  matched resting dark : Cell

unfoldable pub cell : Pool → ℕ → Cell
cell p i =
    if found p && i == min (lit p) (cells - 1)
    then matched
    else if ltb i (lit p)
    then resting
    else dark

-- `n` cells from the `k`-th on.
unfoldable pub cells_from : Pool → ℕ → ℕ → List Cell
cells_from p k zero = []
cells_from p k (suc n) = cell p k ∷ cells_from p (k + 1) n

unfoldable pub lattice : Pool → List Cell
lattice p = cells_from p 0 cells

unfoldable pub caption : Pool → Text
caption p = elim p.orders [
  | none ↦ codes "connecting…"
  | some os ↦
      to_decimal (length (open_orders p)) ++ codes " resting commitments · prices & sizes hidden"
]

-- The three faces of the detail column.
pub data Detail : Type 0 where
  order : OrderSummary → Detail
  loading no_order : Detail

unfoldable pub detail : Pool → Detail
detail p = elim (active p) [
  | some o ↦ order o
  | none ↦ elim p.orders [
    | none ↦ (if is_set p.active_id then loading else no_order)
    | some os ↦ no_order
  ]
]
