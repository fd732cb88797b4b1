-- ===== src/Compose/Sending.antt =====
-- What is sent, and what is remembered of it.
use nyx_darkpool.Base.{
  ◌≡◌, subst, refl, Option, none, some, List, [], ◌∷◌, Text, arith, All, ap, ◌∙◌, Outcome, returned,
  threw, Option-cases, Outcome-cases, Bool-cases, inl, inr, ◌⊎◌, sym,
}
use nyx_darkpool.Browser.{Storage}
use nyx_darkpool.Identity.{LoadedDesk}
use nyx_darkpool.Seal.{Sealed}
use nyx_darkpool.Session.{ActiveOrder, set_active_order}
use nyx_darkpool.Engine.{CreateOrderBody}
use nyx_darkpool.Compose.{
  Side, order_body, Form, Pending, mounted, with_amounts, seal_settled, broadcast_failed, send,
  broadcast, replied, Event, answer, click, settle, step, run, wire_side, active_of,
}

-- An order carries the texts of this seal.
pub record IsOrderOf (s : Sealed) (b : CreateOrderBody) : Type 0 where
  pub price : b.price ≡ s.price_int
  pub volume : b.volume ≡ s.volume_int
  pub salt : b.salt ≡ s.salt
  pub commitment : b.commitment ≡ s.commitment
  pub nullifier : b.nullifier ≡ s.nullifier

-- The pending broadcast is the order that was sent last.
abbrev pub IsLastSent : Option Pending → List CreateOrderBody → Type 0
IsLastSent none bs = Unit
IsLastSent (some p) [] = ⊥
IsLastSent (some p) (b ∷ bs) =
    IsOrderOf p.sealed b × (b.side ≡ wire_side p.side) × (b.asset_pair ≡ p.pair)

module _ (sign : Text → Text → Outcome Text) (encode : Text → Outcome Text) where
  step-IsLastSent :
      (e : Event) (f : Form) (s : Storage)
      → IsLastSent f.pending f.posted
      → IsLastSent (step sign encode e (f, s)).0.pending (step sign encode e (f, s)).0.posted
  unfolding step with_amounts seal_settled broadcast send broadcast_failed replied
  step-IsLastSent (answer (threw m)) f s h = ground arith
  step-IsLastSent (answer (returned id)) f s h = ground arith
  step-IsLastSent (click desk) f s h = ground arith
  step-IsLastSent _ f s h = ground arith

  pub send-posted :
      (d : LoadedDesk) (x : Sealed) (f : Form) (signature : Text)
      → sign d.secret x.commitment ≡ returned signature
      → (send sign d x f).posted ≡ order_body d x f.pair f.side signature ∷ f.posted
  unfolding send
  send-posted d x f signature e = ground arith

  pub send-refused :
      (d : LoadedDesk) (x : Sealed) (f : Form) (m : Text)
      → sign d.secret x.commitment ≡ threw m
      → (send sign d x f).posted ≡ f.posted
  unfolding send broadcast_failed
  send-refused d x f m e = ground arith

  broadcast-cases :
      (desk : Option LoadedDesk) (f : Form)
      → ((broadcast sign desk f).posted ≡ f.posted)
        ⊎ ((d : LoadedDesk) × (x : Sealed) × (f.sealed ≡ some x)
            × ((broadcast sign desk f).posted ≡ (send sign d x f).posted))
  unfolding broadcast
  broadcast-cases none f = inl (ground arith)
  broadcast-cases (some d) f = elim (Option-cases f.sealed) [
    | inl e ↦ inl (ground arith)
    | inr (x, e) ↦ elim (Bool-cases f.busy_ref) [
      | inl busy ↦ inl (ground arith)
      | inr idle ↦ inr (d, x, e, ground arith)
    ]
  ]

  -- Sealed objects that the form can hold all satisfy `P`.
  module _ (P : Sealed → Type 0) where
    abbrev pub Holds : Option Sealed → Type 0
    Holds none = Unit
    Holds (some s) = P s

    -- Every seal that comes back satisfies `P`.
    abbrev pub Settles : Event → Type 0
    Settles (settle e (returned s)) = P s
    Settles _ = Unit

    abbrev pub IsSent : CreateOrderBody → Type 0
    IsSent b = (s : Sealed) × P s × IsOrderOf s b

    order-IsSent :
        (d : LoadedDesk) (x : Sealed) (pair : Text) (side : Side) (signature : Text)
        → P x
        → IsSent (order_body d x pair side signature)
    order-IsSent d x pair side signature p = (
      x,
      p,
      record { price = refl; volume = refl; salt = refl; commitment = refl; nullifier = refl },
    )

    send-IsSent :
        (d : LoadedDesk) (x : Sealed) (f : Form)
        → P x
        → All IsSent f.posted
        → All IsSent (send sign d x f).posted
    send-IsSent d x f p sent = elim (Outcome-cases (sign d.secret x.commitment)) [
      | inl (signature, e) ↦
          let both : All IsSent (order_body d x f.pair f.side signature ∷ f.posted) =
            (order-IsSent d x f.pair f.side signature p, sent) in
          rw (send-posted d x f signature e) both
      | inr (m, e) ↦ rw (send-refused d x f m e) sent
    ]

    broadcast-sealed :
        (desk : Option LoadedDesk) (f : Form) → (broadcast sign desk f).sealed ≡ f.sealed
    unfolding broadcast send broadcast_failed
    broadcast-sealed desk f = ground arith

    broadcast-IsSent :
        (desk : Option LoadedDesk) (f : Form)
        → Holds f.sealed
        → All IsSent f.posted
        → All IsSent (broadcast sign desk f).posted
    broadcast-IsSent desk f h sent = elim (broadcast-cases desk f) [
      | inl same ↦ rw same sent
      | inr (d, x, e, same) ↦
          let px : Holds (some x) = subst Holds e h in rw same (send-IsSent d x f px sent)
    ]

    step-IsSent :
        (e : Event) (f : Form) (s : Storage)
        → Settles e
        → Holds f.sealed × All IsSent f.posted
        → Holds (step sign encode e (f, s)).0.sealed
          × All IsSent (step sign encode e (f, s)).0.posted
    unfolding step with_amounts seal_settled broadcast_failed replied
    step-IsSent (settle e (returned x)) f s p (h, sent) = ground arith
    step-IsSent (settle e (threw x)) f s p (h, sent) = ground arith
    step-IsSent (answer (threw m)) f s p (h, sent) = ground arith
    step-IsSent (answer (returned id)) f s p (h, sent) = ground arith
    step-IsSent (click desk) f s p (h, sent) =
        (subst Holds (sym (broadcast-sealed desk f)) h, broadcast-IsSent desk f h sent)
    step-IsSent _ f s p (h, sent) = ground arith

    run-IsSent :
        (es : List Event) (f : Form) (s : Storage)
        → All Settles es
        → Holds f.sealed × All IsSent f.posted
        → All IsSent (run sign encode es (f, s)).0.posted
    unfolding run
    run-IsSent [] f s settles (h, sent) = sent
    run-IsSent (e ∷ es) f s (p, settles) hs =
        let (f', s') = step sign encode e (f, s) in
        run-IsSent es f' s' settles (step-IsSent e f s p hs)

    -- Whatever is typed, clicked and answered, in any order: if every seal that comes back satisfies
    -- `P`, each order that is sent carries the five texts of a seal that satisfies `P`.
    pub posted-IsSent :
        (es : List Event) (s : Storage)
        → All Settles es
        → All IsSent (run sign encode es (mounted, s)).0.posted
    unfolding mounted
    posted-IsSent es s settles = run-IsSent es mounted s settles (tt, tt)

  run-IsLastSent :
      (es : List Event) (f : Form) (s : Storage)
      → IsLastSent f.pending f.posted
      → IsLastSent (run sign encode es (f, s)).0.pending (run sign encode es (f, s)).0.posted
  unfolding run
  run-IsLastSent [] f s h = h
  run-IsLastSent (e ∷ es) f s h =
      let (f', s') = step sign encode e (f, s) in run-IsLastSent es f' s' (step-IsLastSent e f s h)

-- What the other pages read of an order as the active one.
abbrev pub meta_of : Text → CreateOrderBody → ActiveOrder
meta_of id b = record {
  id = id;
  side = b.side;
  pair = b.asset_pair;
  price_int = b.price;
  volume_int = b.volume;
}

active_of-sent :
    (id : Text) (p : Pending) (b : CreateOrderBody) (rest : List CreateOrderBody)
    → IsLastSent (some p) (b ∷ rest)
    → active_of p id ≡ meta_of id b
active_of-sent id p b rest (same, side, pair) = rw (side, pair, same.price, same.volume)

replied-stored :
    (encode : Text → Outcome Text) (id : Text) (p : Pending) (f : Form) (s : Storage)
    → f.pending ≡ some p
    → (replied encode (returned id) f s).1 ≡ set_active_order (active_of p id) s
unfolding replied
replied-stored encode id p f s e = ground arith

-- Whatever is typed, clicked and answered before, in any order: when the engine answers a pending
-- broadcast with an id, the order that is stored as the active one has this id and the side, pair,
-- price and volume of the body that was sent last.
pub stored-posted :
    (sign : Text → Text → Outcome Text) (encode : Text → Outcome Text) (es : List Event)
    (s : Storage) (p : Pending) (b : CreateOrderBody) (rest : List CreateOrderBody) (id : Text)
    → (run sign encode es (mounted, s)).0.pending ≡ some p
    → (run sign encode es (mounted, s)).0.posted ≡ b ∷ rest
    → (step sign encode (answer (returned id)) (run sign encode es (mounted, s))).1
      ≡ set_active_order (meta_of id b) (run sign encode es (mounted, s)).1
unfolding mounted step
stored-posted sign encode es s p b rest id waits sent =
    let (f', s') = run sign encode es (mounted, s) in
    let last : IsLastSent f'.pending f'.posted = run-IsLastSent sign encode es mounted s tt in
    let last' : IsLastSent (some p) f'.posted = subst (λ o. IsLastSent o f'.posted) waits last in
    let order : active_of p id ≡ meta_of id b =
      active_of-sent id p b rest (subst (IsLastSent (some p)) sent last') in
    replied-stored encode id p f' s' waits ∙ ap (λ o. set_active_order o s') order
