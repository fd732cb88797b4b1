-- ===== src/DeskView/Scope.antt =====
-- The desk screen is about this desk's orders only.
use nyx_darkpool.Base.{
  ℕ, zero, suc, ◌+◌, ◌≤◌, ◌≡◌, ◌≢◌, true, false, Option, none, some, List, [], ◌∷◌, arith, All,
  ◌===◌, codes, Text, if◌then◌else◌, refl, ===_iff, Option-cases, ◌⊎◌, subst, sym, inl, inr, take,
  length, returned, threw, is_set,
}
use nyx_darkpool.Engine.{OrderSummary}
use nyx_darkpool.DeskView.{Screen, tick, own, mine, rows, with_status, stats, activity, is_live}

-- An order is one of the desk whose screen this is.
abbrev pub IsOwn : Option Text → OrderSummary → Type 0
IsOwn none o = ⊥
IsOwn (some key) o = o.pubkey ≡ key

own-IsOwn : (key : Text) (os : List OrderSummary) → All (IsOwn (some key)) (own key os)
unfolding own
own-IsOwn key [] = tt
own-IsOwn key (o ∷ os) = ground (arith, own-IsOwn key os, ===_iff o.pubkey key)

rows-cases :
    (s : Screen)
    → (rows s ≡ [])
      ⊎ ((key : Text) × (os : List OrderSummary) × (s.pubkey ≡ some key) × (rows s ≡ own key os))
unfolding mine
rows-cases s = elim (Option-cases s.orders) [
  | inl e ↦ inl (ground arith)
  | inr (os, e) ↦ elim (Option-cases s.pubkey) [
    | inl e' ↦ inl (ground arith)
    | inr (key, e') ↦ inr (key, os, e', ground arith)
  ]
]

rows-IsOwn : (s : Screen) → All (IsOwn s.pubkey) (rows s)
rows-IsOwn s = elim (rows-cases s) [
  | inl e ↦ subst (All (IsOwn s.pubkey)) (sym e) tt
  | inr (key, os, k, e) ↦
      subst (All (IsOwn s.pubkey)) (sym e)
        (subst (λ o. All (IsOwn o) (own key os)) (sym k) (own-IsOwn key os))
]

take-All :
    (P : OrderSummary → Type 0) (n : ℕ) (os : List OrderSummary) → All P os → All P (take n os)
take-All P zero os h = tt
take-All P (suc n) [] h = tt
take-All P (suc n) (o ∷ os) (p, h) = (p, take-All P n os h)

-- Every order in the table and in the activity column is one of this desk; without a desk both are
-- empty.
pub shown-IsOwn : (s : Screen) → All (IsOwn s.pubkey) (rows s) × All (IsOwn s.pubkey) (activity s)
unfolding activity
shown-IsOwn s = (rows-IsOwn s, take-All (IsOwn s.pubkey) 6 (rows s) (rows-IsOwn s))

is_status : Text → OrderSummary → ℕ
is_status status o = if o.status === status then 1 else 0

with_status-cons :
    (status : Text) (o : OrderSummary) (os : List OrderSummary)
    → with_status status (o ∷ os) ≡ is_status status o + with_status status os
unfolding with_status is_status
with_status-cons status o os = ground arith

one_status :
    (status : Text)
    → (if status === codes "open" then 1 else 0)
        + (if status === codes "matched" then 1 else 0)
        + (if status === codes "settled" then 1 else 0)
      ≤ 1
unfolding ◌===◌
one_status [] = omega arith
one_status (c ∷ t) = ground arith

is_status-le :
    (o : OrderSummary)
    → is_status (codes "open") o + is_status (codes "matched") o + is_status (codes "settled") o ≤ 1
unfolding is_status
is_status-le o = one_status o.status

counts-le :
    (os : List OrderSummary)
    → with_status (codes "open") os
        + with_status (codes "matched") os
        + with_status (codes "settled") os
      ≤ length os
unfolding with_status
counts-le [] = omega arith
counts-le (o ∷ os) = omega (
  arith,
  counts-le os,
  is_status-le o,
  with_status-cons (codes "open") o os,
  with_status-cons (codes "matched") o os,
  with_status-cons (codes "settled") o os,
)

-- No order is counted twice: the three counts add up to the total at most.
pub stats-le :
    (s : Screen) → (stats s).open_orders + (stats s).matched + (stats s).settled ≤ (stats s).total
unfolding stats
stats-le s = counts-le (rows s)

-- A poll that fails keeps the rows and takes the pill off "LIVE", the next one that succeeds puts it
-- back; the message of the failure is not empty, and the screen is still there.
pub tick-stale :
    (s : Screen) (m : Text) (os : List OrderSummary)
    → m ≢ []
    → s.alive ≡ true
    → (rows (tick (threw m) s) ≡ rows s)
      × (is_live (tick (threw m) s) ≡ false)
      × (is_live (tick (returned os) (tick (threw m) s)) ≡ true)
unfolding tick is_live mine is_set
tick-stale s [] os ne alive = elim (ne refl) [ ]
tick-stale s (c ∷ m) os ne alive = ground arith
