-- ===== src/Counter/Once.antt =====
-- How often the counterparty posts, and when it stops.
use nyx_darkpool.Base.{
  ℕ, ◌+◌, ◌≤◌, ◌≡◌, refl, Bool, true, false, Option, none, some, List, [], ◌∷◌, Text, arith, length,
  Outcome, returned, threw, if◌then◌else◌, ap,
}
use nyx_darkpool.Session.{ActiveOrder}
use nyx_darkpool.Identity.{LoadedDesk}
use nyx_darkpool.Engine.{OrderSummary, CreateOrderBody}
use nyx_darkpool.Counter.{
  Counter, Awaiting, idle, listing, sealing, sending, armed, dormant, mounted, Event, fire, leave,
  listed, sealed, created, step, run, on_fire, on_orders, on_seal, failed, unmounted, is_mine_open,
}

-- Calls of `tick` that are scheduled or have not yet sent anything.
abbrev waits : Awaiting → ℕ
waits idle = 0
waits listing = 1
waits sealing = 1
waits sending = 0

abbrev pub chances : Counter → ℕ
chances c = (if c.timer then 1 else 0) + waits c.awaiting

module _ (sign : Text → Text → Outcome Text) (meta : ActiveOrder) (desk : LoadedDesk) where
  step-chances :
      (e : Event) (c : Counter)
      → chances (step sign meta desk e c) + length (step sign meta desk e c).posted
        ≤ chances c + length c.posted
  unfolding step on_fire on_orders on_seal failed unmounted
  step-chances fire c = ground arith
  step-chances leave c = ground arith
  step-chances (listed (returned all)) c = ground arith
  step-chances (listed (threw m)) c = ground arith
  step-chances (sealed (returned s)) c = ground arith
  step-chances (sealed (threw m)) c = ground arith
  step-chances (created (returned u)) c = ground arith
  step-chances (created (threw m)) c = ground arith

  run-chances :
      (es : List Event) (c : Counter)
      → chances (run sign meta desk es c) + length (run sign meta desk es c).posted
        ≤ chances c + length c.posted
  unfolding run
  run-chances [] c = omega arith
  run-chances (e ∷ es) c =
      let c' = step sign meta desk e c in omega (arith, run-chances es c', step-chances e c)

  -- Whatever the timer, the engine and the user do, in any order: a screen posts at most one
  -- counter-order, and none if demo mode is off.
  pub countered-le :
      (demo : Bool) (own : Option ActiveOrder) (held : Option LoadedDesk) (es : List Event)
      → length (run sign meta desk es (mounted demo own held)).posted ≤ (if demo then 1 else 0)
  unfolding mounted
  countered-le false own held es = omega (arith, run-chances es dormant)
  countered-le true none held es = omega (arith, run-chances es dormant)
  countered-le true (some o) none es = omega (arith, run-chances es dormant)
  countered-le true (some o) (some d) es = omega (arith, run-chances es armed)

  step-failed :
      (m : Text) (c : Counter)
      → c.awaiting ≡ listing
      → chances (step sign meta desk (listed (threw m)) c) + 1 ≤ chances c
  unfolding step failed
  step-failed m c e = ground arith

  step-failed-posted :
      (m : Text) (c : Counter) → (step sign meta desk (listed (threw m)) c).posted ≡ c.posted
  unfolding step failed
  step-failed-posted m c = ground arith

  empty_of_length : (bs : List CreateOrderBody) → length bs ≤ 0 → bs ≡ []
  empty_of_length [] h = refl
  empty_of_length (b ∷ bs) h = ground arith

  -- Once the engine's list of orders has failed to load, no counter-order is ever posted on this
  -- screen, whatever came before and whatever follows: no other attempt is scheduled.
  pub failed-final :
      (before after : List Event) (message : Text)
      → (run sign meta desk before armed).awaiting ≡ listing
      → (run sign meta desk after
          (step sign meta desk (listed (threw message)) (run sign meta desk before armed))).posted
        ≡ []
  failed-final before after m e =
      let c = run sign meta desk before armed in
      empty_of_length _ (
        omega (
          arith,
          run-chances before armed,
          step-failed m c e,
          ap length (step-failed-posted m c),
          run-chances after (step sign meta desk (listed (threw m)) c),
        ))

  step-gone :
      (all : List OrderSummary) (c : Counter)
      → c.awaiting ≡ listing
      → is_mine_open meta all ≡ false
      → chances (step sign meta desk (listed (returned all)) c) + 1 ≤ chances c
  unfolding step on_orders
  step-gone all c e gone = ground arith

  step-gone-posted :
      (all : List OrderSummary) (c : Counter)
      → (step sign meta desk (listed (returned all)) c).posted ≡ c.posted
  unfolding step on_orders
  step-gone-posted all c = ground arith

  -- An order that is no longer listed as open gets no counter-order: after a list without it, or with
  -- it in another state, nothing is ever posted on this screen, whatever came before or follows.
  pub matched-final :
      (before after : List Event) (all : List OrderSummary)
      → (run sign meta desk before armed).awaiting ≡ listing
      → is_mine_open meta all ≡ false
      → (run sign meta desk after
          (step sign meta desk (listed (returned all)) (run sign meta desk before armed))).posted
        ≡ []
  matched-final before after all e gone =
      let c = run sign meta desk before armed in
      empty_of_length _ (
        omega (
          arith,
          run-chances before armed,
          step-gone all c e gone,
          ap length (step-gone-posted all c),
          run-chances after (step sign meta desk (listed (returned all)) c),
        ))
