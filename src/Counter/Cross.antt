-- ===== src/Counter/Cross.antt =====
-- What the counterparty posts.
use nyx_darkpool.Base.{
  ◌≡◌, ◌≢◌, refl, Bool, true, false, not, List, [], ◌∷◌, Text, arith, Outcome, returned, ap, sym,
  ◌∙◌, ◌⊎◌, inl, inr, All, codes, ◌===◌, Outcome-cases,
}
use nyx_darkpool.Session.{ActiveOrder}
use nyx_darkpool.Identity.{LoadedDesk}
use nyx_darkpool.Seal.{Sealed}
use nyx_darkpool.Engine.{OrderSummary, CreateOrderBody}
use nyx_darkpool.Counter.{
  Counter, Awaiting, idle, listing, sealing, sending, armed, Event, fire, listed, sealed, step,
  on_reply, run, on_fire, on_orders, on_seal, failed, unmounted, is_mine_open, counter_body,
  opposite,
}

-- The engine crosses two orders of one pair and of opposite sides, at crossing prices and equal
-- volumes; here the prices are equal too.
pub record IsCrossing (meta : ActiveOrder) (b : CreateOrderBody) : Type 0 where
  pub pair : b.asset_pair ≡ meta.pair
  pub side : b.side ≢ meta.side
  pub price : b.price ≡ meta.price_int
  pub volume : b.volume ≡ meta.volume_int

-- A seal of the order's own price and volume.
abbrev pub IsSealOf : ActiveOrder → Event → Type 0
IsSealOf meta (sealed (returned s)) =
    (s.price_int ≡ meta.price_int) × (s.volume_int ≡ meta.volume_int)
IsSealOf meta _ = Unit

is_bid : Text → Bool
is_bid side = side === codes "bid"

is_bid-opposite : (side : Text) → is_bid (opposite side) ≡ not (is_bid side)
unfolding is_bid opposite ◌===◌
is_bid-opposite side = ground arith

not-ne : (b : Bool) → not b ≢ b
not-ne true e = cc
not-ne false e = cc

opposite-ne : (side : Text) → opposite side ≢ side
opposite-ne side same = not-ne (is_bid side) (sym (is_bid-opposite side) ∙ ap is_bid same)

module _ (sign : Text → Text → Outcome Text) (meta : ActiveOrder) (desk : LoadedDesk) where
  -- While the engine keeps listing the order as open, the third list at the latest leads to a
  -- counter-order: after three rounds of the timer, a seal that comes back and can be signed is posted.
  pub three_rounds-posted :
      (l1 l2 l3 : List OrderSummary) (s : Sealed) (signature : Text)
      → is_mine_open meta l1 ≡ true
      → is_mine_open meta l2 ≡ true
      → is_mine_open meta l3 ≡ true
      → sign desk.secret s.commitment ≡ returned signature
      → (run sign meta desk
          (fire
            ∷ listed (returned l1)
            ∷ fire
            ∷ listed (returned l2)
            ∷ fire
            ∷ listed (returned l3)
            ∷ sealed (returned s)
            ∷ [])
          armed).posted
        ≡ counter_body meta desk s signature ∷ []
  unfolding run step on_fire on_orders on_seal
  three_rounds-posted l1 l2 l3 s signature h1 h2 h3 e = ground arith

  crossing :
      (s : Sealed) (signature : Text)
      → s.price_int ≡ meta.price_int
      → s.volume_int ≡ meta.volume_int
      → IsCrossing meta (counter_body meta desk s signature)
  unfolding counter_body
  crossing s signature price volume = record {
    pair = refl;
    side = opposite-ne meta.side;
    price = price;
    volume = volume;
  }

  on_seal-posted :
      (s : Sealed) (c : Counter)
      → ((on_seal sign meta desk s c).posted ≡ c.posted)
        ⊎ ((signature : Text) × ((on_seal sign meta desk s c).posted
              ≡ counter_body meta desk s signature ∷ c.posted))
  unfolding on_seal failed
  on_seal-posted s c = elim (Outcome-cases (sign desk.secret s.commitment)) [
    | inl (signature, e) ↦ inr (signature, ground arith)
    | inr (m, e) ↦ inl (ground arith)
  ]

  on_seal-AllCrossing :
      (s : Sealed) (c : Counter)
      → (s.price_int ≡ meta.price_int) × (s.volume_int ≡ meta.volume_int)
      → All (IsCrossing meta) c.posted
      → All (IsCrossing meta) (on_seal sign meta desk s c).posted
  on_seal-AllCrossing s c (price, volume) h = elim (on_seal-posted s c) [
    | inl same ↦ rw same h
    | inr (signature, same) ↦
        let both : All (IsCrossing meta) (counter_body meta desk s signature ∷ c.posted) =
          (crossing s signature price volume, h) in
        rw same both
  ]

  on_reply-AllCrossing :
      (a : Awaiting) (s : Sealed) (c : Counter)
      → (s.price_int ≡ meta.price_int) × (s.volume_int ≡ meta.volume_int)
      → All (IsCrossing meta) c.posted
      → All (IsCrossing meta) (on_reply sign meta desk a (sealed (returned s)) c).posted
  on_reply-AllCrossing sealing s c p h = on_seal-AllCrossing s c p h
  on_reply-AllCrossing idle s c p h = h
  on_reply-AllCrossing listing s c p h = h
  on_reply-AllCrossing sending s c p h = h

  step-AllCrossing :
      (e : Event) (c : Counter)
      → IsSealOf meta e
      → All (IsCrossing meta) c.posted
      → All (IsCrossing meta) (step sign meta desk e c).posted
  unfolding step on_fire on_orders failed unmounted
  step-AllCrossing (sealed (returned s)) c p h = on_reply-AllCrossing c.awaiting s c p h
  step-AllCrossing e c p h = ground arith

  run-AllCrossing :
      (es : List Event) (c : Counter)
      → All (IsSealOf meta) es
      → All (IsCrossing meta) c.posted
      → All (IsCrossing meta) (run sign meta desk es c).posted
  unfolding run
  run-AllCrossing [] c seals h = h
  run-AllCrossing (e ∷ es) c (p, seals) h =
      run-AllCrossing es (step sign meta desk e c) seals (step-AllCrossing e c p h)

  -- Whatever happens in whatever order, as long as the seals that come back are seals of the active
  -- order's price and volume: an order that is posted is of the active order's pair, of another side,
  -- and of the same price and volume.
  pub posted-IsCrossing :
      (es : List Event)
      → All (IsSealOf meta) es
      → All (IsCrossing meta) (run sign meta desk es armed).posted
  posted-IsCrossing es seals = run-AllCrossing es armed seals tt
