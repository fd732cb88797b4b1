-- ===== src/Compose/Guard.antt =====
-- The in-flight guard: a click while an order is on its way sends nothing.
use nyx_darkpool.Base.{
  ℕ, ◌+◌, ◌≤◌, ◌≡◌, List, [], ◌∷◌, Text, arith, length, Outcome, returned, threw, if◌then◌else◌,
}
use nyx_darkpool.Browser.{Storage}
use nyx_darkpool.Compose.{
  Form, mounted, with_amounts, seal_settled, broadcast_failed, send, broadcast, replied, Event,
  answer, click, step, run,
}

module _ (sign : Text → Text → Outcome Text) (encode : Text → Outcome Text) where
  -- Replies that end in the `catch`: the engine's errors, and an id that cannot be encoded.
  abbrev pub failures : List Event → ℕ
  failures [] = 0
  failures (answer (threw m) ∷ es) = 1 + failures es
  failures (answer (returned id) ∷ es) =
      let rest = failures es in elim (encode id) [ threw m ↦ 1 + rest | returned p ↦ rest ]
  failures (_ ∷ es) = failures es

  -- Orders sent, and one that the guard would still let through.
  abbrev sendable : Form → ℕ
  sendable f = length f.posted + (if f.busy_ref then 0 else 1)

  step-sendable :
      (e : Event) (f : Form) (s : Storage)
      → sendable (step sign encode e (f, s)).0 ≤ sendable f + failures (e ∷ [])
  unfolding step with_amounts seal_settled broadcast send broadcast_failed replied
  step-sendable (answer (threw m)) f s = ground arith
  step-sendable (answer (returned id)) f s = ground arith
  step-sendable (click desk) f s = ground arith
  step-sendable _ f s = ground arith

  failures-cons :
      (e : Event) (es : List Event) → failures (e ∷ es) ≡ failures (e ∷ []) + failures es
  failures-cons (answer (threw m)) es = omega arith
  failures-cons (answer (returned id)) es = ground arith
  failures-cons (click desk) es = omega arith
  failures-cons _ es = omega arith

  run-sendable :
      (es : List Event) (f : Form) (s : Storage)
      → sendable (run sign encode es (f, s)).0 ≤ sendable f + failures es
  unfolding run
  run-sendable [] f s = omega arith
  run-sendable (e ∷ es) f s =
      let (f', s') = step sign encode e (f, s) in
      omega (arith, run-sendable es f' s', step-sendable e f s, failures-cons e es)

  -- Whatever is typed, clicked and answered, in any order: from a mounted form at most one order is
  -- sent, and one more for each answer that has failed.
  pub posted-le :
      (es : List Event) (s : Storage)
      → length (run sign encode es (mounted, s)).0.posted ≤ 1 + failures es
  unfolding mounted
  posted-le es s = omega (arith, run-sendable es mounted s)
