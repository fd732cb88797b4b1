-- ===== src/Settled/Receipts.antt =====
-- What a receipt speaks of, over all that the polls of the screen come back with.
use nyx_darkpool.Base.{
  ℕ, zero, suc, ◌-◌, ◌<◌, ◌≡◌, ◌≢◌, Option, none, some, List, [], ◌∷◌, ◌++◌, arith, All, All-append,
  codes, Text, refl, Bool-cases, inl, inr, take, drop, length, leb, Outcome, returned, ◌⊎◌, ◌===◌,
  ===_iff, find, find_sound, Option-cases, Outcome-cases, is_empty, ap, ◌∙◌, subst, sym,
}
use nyx_darkpool.Engine.{Match, OrderSummary}
use nyx_darkpool.Identity.{LoadedDesk}
use nyx_darkpool.Ui.{ellipsis, short_id}
use nyx_darkpool.Settled.{
  Screen, mounted, tick, with_order, match_id_of, mine_of, Poll, polled, Receipt, receipt, download,
  receipt_name, replace_first,
}

abbrev pub IsAscii : ℕ → Type 0
IsAscii c = c < 128

take-IsAscii : (n : ℕ) (s : Text) → All IsAscii s → All IsAscii (take n s)
take-IsAscii zero s h = tt
take-IsAscii (suc n) [] h = tt
take-IsAscii (suc n) (c ∷ s) (hc, h) = (hc, take-IsAscii n s h)

drop-IsAscii : (n : ℕ) (s : Text) → All IsAscii s → All IsAscii (drop n s)
drop-IsAscii zero s h = h
drop-IsAscii (suc n) [] h = tt
drop-IsAscii (suc n) (c ∷ s) (hc, h) = drop-IsAscii n s h

replaced :
    (s t : Text)
    → All IsAscii s
    → All IsAscii t
    → All IsAscii (replace_first ellipsis 0x2d (s ++ ellipsis ∷ t))
unfolding replace_first
replaced [] t hs ht = (omega arith, ht)
replaced (c ∷ s) t (hc, hs) ht = ground (arith, replaced s t hs ht)

kept : (s : Text) → All IsAscii s → All IsAscii (replace_first ellipsis 0x2d s)
unfolding replace_first
kept [] h = tt
kept (c ∷ s) (hc, h) = ground (arith, kept s h)

short_id-replaced :
    (s : Text) → All IsAscii s → s ≢ [] → All IsAscii (replace_first ellipsis 0x2d (short_id s 4 4))
unfolding short_id
short_id-replaced [] h ne = elim (ne refl) [ ]
short_id-replaced (c ∷ s) h ne = elim (Bool-cases (leb (length (c ∷ s)) 9)) [
  | inl short ↦ rw short (kept (c ∷ s) h)
  | inr long ↦ rw long (
      replaced (take 4 (c ∷ s)) (drop (length (c ∷ s) - 4) (c ∷ s)) (take-IsAscii 4 (c ∷ s) h)
        (drop-IsAscii (length (c ∷ s) - 4) (c ∷ s) h))
]

-- The name of the downloaded file is plain ASCII, although the short form of the match's id that it
-- holds has an ellipsis; the id is plain ASCII itself, and not empty.
pub receipt_name-IsAscii : (m : Match) → All IsAscii m.id → m.id ≢ [] → All IsAscii (receipt_name m)
unfolding receipt_name
receipt_name-IsAscii m h set = All-append IsAscii (codes "nyx-receipt-") _ (omega arith) (
    All-append IsAscii (replace_first ellipsis 0x2d (short_id m.id 4 4)) (codes ".json")
      (short_id-replaced m.id h set) (omega arith))

-- The order is a side of the match.
abbrev pub IsParty : Text → Match → Type 0
IsParty id m = (m.maker_order_id ≡ id) ⊎ (m.taker_order_id ≡ id)

-- The active order is this one, or there is none; and where the engine lists this order with a match, the
-- match that it gives for that id is one of the order.
pub record IsOf (id : Text) (p : Poll) : Type 0 where
  pub active : (x : Text) → p.active ≡ some x → x ≡ id
  pub answers :
      (os : List OrderSummary) (mid : Text) (m : Match)
      → p.orders ≡ returned os
      → match_id_of (mine_of id os) ≡ some mid
      → p.match_of mid ≡ returned (some m)
      → IsParty id m

-- The receipt is of a match of this order, and names this order or none.
abbrev IsReceiptOf : Text → Receipt → Type 0
IsReceiptOf id r =
    ((r.maker_order_id ≡ id) ⊎ (r.taker_order_id ≡ id))
    × ((r.order_id ≡ none) ⊎ (r.order_id ≡ some id))

abbrev ShowsOrder : Text → Option OrderSummary → Type 0
ShowsOrder id none = Unit
ShowsOrder id (some o) = o.id ≡ id

abbrev ShowsMatch : Text → Option Match → Type 0
ShowsMatch id none = Unit
ShowsMatch id (some m) = IsParty id m

abbrev IsOwn : Text → Screen → Type 0
IsOwn id s = ShowsOrder id s.order × ShowsMatch id s.match

mine_of-own : (id : Text) (os : List OrderSummary) → ShowsOrder id (mine_of id os)
unfolding mine_of
mine_of-own id os = elim (Option-cases (find (λ o. o.id === id) os)) [
  | inl e ↦ rw e tt
  | inr (o, e) ↦
      let same : o.id ≡ id = (===_iff o.id id).0 (find_sound (λ o. o.id === id) os o e) in rw e same
]

with_order-IsOwn :
    (id : Text) (mine : Option OrderSummary) (match_of : Text → Outcome (Option Match)) (s : Screen)
    → ShowsOrder id mine
    → ((mid : Text) (m : Match)
        → match_id_of mine ≡ some mid
        → match_of mid ≡ returned (some m)
        → IsParty id m)
    → ShowsMatch id s.match
    → IsOwn id (with_order mine match_of s)
unfolding with_order
with_order-IsOwn id mine match_of s order answers shown = elim (Option-cases (match_id_of mine)) [
  | inl e ↦
      let same : with_order mine match_of s
          ≡ record s { order = mine; note = codes "not yet matched" } =
        ground arith in
      subst (IsOwn id) (sym same) (order, shown)
  | inr (mid, e) ↦ elim (Bool-cases (is_empty mid)) [
    | inl none_yet ↦
        let same : with_order mine match_of s
            ≡ record s { order = mine; note = codes "not yet matched" } =
          ground arith in
        subst (IsOwn id) (sym same) (order, shown)
    | inr some_id ↦ elim (Outcome-cases (match_of mid)) [
      | inr (message, e') ↦
          let same : with_order mine match_of s ≡ record s { order = mine; note = message } =
            ground arith in
          subst (IsOwn id) (sym same) (order, shown)
      | inl (m, e') ↦
          let same : with_order mine match_of s ≡ record { match = m; order = mine; note = [] } =
            ground arith in
          subst (IsOwn id) (sym same)
            (order, read m (λ x e''. answers mid x e (e' ∙ ap returned e'')))
    ]
  ]
]
  where
    read : (m : Option Match) → ((x : Match) → m ≡ some x → IsParty id x) → ShowsMatch id m
    read none h = tt
    read (some x) h = h x refl

tick-IsOwn :
    (id : Text) (p : Poll) (s : Screen)
    → IsOf id p
    → IsOwn id s
    → IsOwn id (tick p.active p.orders p.match_of s)
unfolding tick
tick-IsOwn id p s h own = elim (Option-cases p.active) [
  | inl e ↦
      let same : tick p.active p.orders p.match_of s ≡ record s { note = codes "no active order" } =
        ground arith in
      subst (IsOwn id) (sym same) own
  | inr (x, e) ↦ elim (Bool-cases (is_empty x)) [
    | inl no_id ↦
        let same : tick p.active p.orders p.match_of s
            ≡ record s { note = codes "no active order" } =
          ground arith in
        subst (IsOwn id) (sym same) own
    | inr has_id ↦ elim (Outcome-cases p.orders) [
      | inr (message, e') ↦
          let same : tick p.active p.orders p.match_of s ≡ record s { note = message } =
            ground arith in
          subst (IsOwn id) (sym same) own
      | inl (os, e') ↦
          let it : x ≡ id = h.active x e in
          let same : tick p.active p.orders p.match_of s ≡ with_order (mine_of id os) p.match_of s =
            ground arith in
          subst (IsOwn id) (sym same) (
            with_order-IsOwn id (mine_of id os) p.match_of s (mine_of-own id os)
              (λ mid m. h.answers os mid m e') own.1)
    ]
  ]
]

polled-IsOwn :
    (id : Text) (ps : List Poll) (s : Screen)
    → All (IsOf id) ps
    → IsOwn id s
    → IsOwn id (polled ps s)
unfolding polled
polled-IsOwn id [] s h own = own
polled-IsOwn id (p ∷ ps) s (hp, h) own =
    polled-IsOwn id ps (tick p.active p.orders p.match_of s) h (tick-IsOwn id p s hp own)

receipt-IsReceiptOf :
    (id now : Text) (desk : Option LoadedDesk) (m : Match) (o : Option OrderSummary)
    → IsParty id m
    → ShowsOrder id o
    → IsReceiptOf id (receipt now desk m o)
unfolding receipt
receipt-IsReceiptOf id now desk m none party own = (party, inl refl)
receipt-IsReceiptOf id now desk m (some o) party own = (party, inr (ap some own))

download-IsOwn :
    (id now : Text) (desk : Option LoadedDesk) (s : Screen) (name : Text) (r : Receipt)
    → IsOwn id s
    → download now desk s ≡ some (name, r)
    → IsReceiptOf id r
unfolding download
download-IsOwn id now desk s name r (order, shown) e = elim (Option-cases s.match) [
  | inl e' ↦ absurd (ground arith)
  | inr (m, e') ↦
      let party : ShowsMatch id (some m) = subst (ShowsMatch id) e' shown in
      let same : receipt now desk m s.order ≡ r = ground arith in
      subst (IsReceiptOf id) same (receipt-IsReceiptOf id now desk m s.order party order)
]

-- Whatever the polls of the screen come back with, errors and lists without the order included: if the
-- active order does not change while the screen is mounted, though it may be missing, and each match that
-- the engine gives for the id it lists with that order is one of that order, then a receipt that is
-- downloaded is of a match that this order is a side of, and names this order or none.
pub download-own :
    (id now : Text) (desk : Option LoadedDesk) (ps : List Poll) (name : Text) (r : Receipt)
    → All (IsOf id) ps
    → download now desk (polled ps mounted) ≡ some (name, r)
    → ((r.maker_order_id ≡ id) ⊎ (r.taker_order_id ≡ id))
      × ((r.order_id ≡ none) ⊎ (r.order_id ≡ some id))
download-own id now desk ps name r h e =
    download-IsOwn id now desk (polled ps mounted) name r (polled-IsOwn id ps mounted h (tt, tt)) e
