-- ===== src/DeskView.antt =====
-- web/app/app/_components/DeskBody.tsx: the desk's own orders, their counts, and the feed's state.
-- `none` for the orders stands for a list that has not loaded.
pub mod Scope
pub mod View
use nyx_darkpool.Base.{
  ℕ, zero, suc, ◌+◌, ◌-◌, Bool, true, false, ◌&&◌, not, Option, none, some, List, [], ◌∷◌, ◌++◌,
  Text, codes, ◌===◌, ◌==◌, if◌then◌else◌, ltb, leb, find, filter, take, length, is_empty, is_set,
  to_lower, to_upper, Outcome, returned, threw,
}
use nyx_darkpool.Engine.{OrderSummary}

-- `bullet` is the label's "● ".
abbrev pub bullet : Text
bullet = codes "● "

unfoldable pub status_label : Text → Text
status_label status =
    let s = to_lower status in
    if s === codes "open"
    then bullet ++ codes "SEALED"
    else if s === codes "matched"
    then bullet ++ codes "MATCHED"
    else if s === codes "settled"
    then bullet ++ codes "SETTLED"
    else if s === codes "cancelled"
    then bullet ++ codes "CANCELLED"
    else bullet ++ to_upper status

-- The state; `pubkey` is read once, when the screen mounts.
pub record Screen : Type 0 where
  pub orders : Option (List OrderSummary)
  pub err : Option Text
  pub pubkey : Option Text
  pub alive : Bool

abbrev pub mounted : Option Text → Screen
mounted key = record { orders = none; err = none; pubkey = key; alive = true }

unfoldable pub tick : Outcome (List OrderSummary) → Screen → Screen
tick (returned os) s = if s.alive then record s { orders = some os; err = none } else s
tick (threw m) s = if s.alive then record s { err = some m } else s

unfoldable pub own : Text → List OrderSummary → List OrderSummary
own key os = filter (λ o. o.pubkey === key) os

unfoldable pub mine : Screen → Option (List OrderSummary)
mine s = elim s.orders [
  | none ↦ none
  | some os ↦ elim s.pubkey [ none ↦ none | some key ↦ some (own key os) ]
]

abbrev pub rows : Screen → List OrderSummary
rows s = elim (mine s) [ none ↦ [] | some os ↦ os ]

unfoldable pub with_status : Text → List OrderSummary → ℕ
with_status status os = length (filter (λ o. o.status === status) os)

pub record Stats : Type 0 where
  pub open_orders : ℕ
  pub matched : ℕ
  pub settled : ℕ
  pub total : ℕ

unfoldable pub stats : Screen → Stats
stats s = record {
  open_orders = with_status (codes "open") (rows s);
  matched = with_status (codes "matched") (rows s);
  settled = with_status (codes "settled") (rows s);
  total = length (rows s);
}

-- The rows of the activity column.
unfoldable pub activity : Screen → List OrderSummary
activity s = take 6 (rows s)

-- The pill in the header is green, and the banner over the table is shown.
unfoldable pub is_live : Screen → Bool
is_live s = not (is_set s.err)

unfoldable pub is_stale : Screen → Bool
is_stale s = is_set s.err && elim (mine s) [ none ↦ false | some os ↦ true ]
