-- ===== src/Ledger/Forward.antt =====
-- The rows of the book of orders, before and after a history of operations.
use nyx_darkpool.Base.{
  ℕ, ◌≤◌, ◌≡◌, refl, ◌∙◌, Bool, true, List, [], ◌∷◌, ◌++◌, Text, arith, Bool-cases, inl, inr, none,
  some,
}
use nyx_darkpool.Ledger.{
  Db, OrderRow, OrderStatus, opened, matched, settled, cancelled, is_wanted, is_party,
  update_orders, set_status, record_outcome, confirmed, row_of, insert_order, create_match,
  set_proof, set_onchain, mark_settled, Op, insert, create, prove, report, settle, step, run,
}

-- The lifecycle: open, then matched or cancelled, then settled.
abbrev pub rank : OrderStatus → ℕ
rank opened = 0
rank matched = 1
rank cancelled = 1
rank settled = 2

pub record IsLaterRow (o o' : OrderRow) : Type 0 where
  pub same_id : o'.id ≡ o.id
  pub same_pubkey : o'.pubkey ≡ o.pubkey
  pub same_pair : o'.asset_pair ≡ o.asset_pair
  pub same_side : o'.side ≡ o.side
  pub same_blob : o'.blob ≡ o.blob
  pub same_nullifier : o'.nullifier ≡ o.nullifier
  pub same_commitment : o'.commitment ≡ o.commitment
  pub forward : rank o.status ≤ rank o'.status

-- Each row of the first table stands in the second at its place, at this stage or a later one.
abbrev pub IsLater : List OrderRow → List OrderRow → Type 0
IsLater [] os' = Unit
IsLater (o ∷ os) [] = ⊥
IsLater (o ∷ os) (o' ∷ os') = IsLaterRow o o' × IsLater os os'

with_status :
    (o : OrderRow) (s : OrderStatus) → rank o.status ≤ rank s → IsLaterRow o (set_status s o)
with_status o s h = record {
  same_id = refl;
  same_pubkey = refl;
  same_pair = refl;
  same_side = refl;
  same_blob = refl;
  same_nullifier = refl;
  same_commitment = refl;
  forward = h;
}

IsLaterRow-refl : (o : OrderRow) → IsLaterRow o o
IsLaterRow-refl o = with_status o o.status (omega arith)

IsLaterRow-trans : (a b c : OrderRow) → IsLaterRow a b → IsLaterRow b c → IsLaterRow a c
IsLaterRow-trans a b c h k = record {
  same_id = k.same_id ∙ h.same_id;
  same_pubkey = k.same_pubkey ∙ h.same_pubkey;
  same_pair = k.same_pair ∙ h.same_pair;
  same_side = k.same_side ∙ h.same_side;
  same_blob = k.same_blob ∙ h.same_blob;
  same_nullifier = k.same_nullifier ∙ h.same_nullifier;
  same_commitment = k.same_commitment ∙ h.same_commitment;
  forward = omega (arith, h.forward, k.forward);
}

IsLater-append : (os new : List OrderRow) → IsLater os (os ++ new)
IsLater-append [] new = tt
IsLater-append (o ∷ os) new = (IsLaterRow-refl o, IsLater-append os new)

pub IsLater-refl : (os : List OrderRow) → IsLater os os
IsLater-refl [] = tt
IsLater-refl (o ∷ os) = (IsLaterRow-refl o, IsLater-refl os)

pub IsLater-trans :
    (os os' os'' : List OrderRow) → IsLater os os' → IsLater os' os'' → IsLater os os''
IsLater-trans [] os' os'' h k = tt
IsLater-trans (o ∷ os) [] os'' h k = absurd h
IsLater-trans (o ∷ os) (o' ∷ os') [] h k = absurd k
IsLater-trans (o ∷ os) (o' ∷ os') (o'' ∷ os'') (h, hs) (k, ks) =
    (IsLaterRow-trans o o' o'' h k, IsLater-trans os os' os'' hs ks)

IsLater-update_orders :
    (p : OrderRow → Bool) (s : OrderStatus) (os : List OrderRow)
    → ((o : OrderRow) → p o ≡ true → rank o.status ≤ rank s)
    → IsLater os (update_orders p s os)
IsLater-update_orders p s [] h = tt
IsLater-update_orders p s (o ∷ os) h = elim (Bool-cases (p o)) [
  | inl e ↦ rw e (with_status o s (h o e), IsLater-update_orders p s os h)
  | inr e ↦ rw e (IsLaterRow-refl o, IsLater-update_orders p s os h)
]

rank-wanted :
    (maker taker : Text) (o : OrderRow)
    → is_wanted maker taker o ≡ true
    → rank o.status ≤ rank matched
rank-wanted maker taker o h = ground arith

rank-le_settled : (s : OrderStatus) → rank s ≤ rank settled
rank-le_settled opened = omega arith
rank-le_settled matched = omega arith
rank-le_settled settled = omega arith
rank-le_settled cancelled = omega arith

create-IsLater :
    (conflict : Bool) (id maker taker : Text) (db : Db)
    → IsLater db.orders (create_match conflict id maker taker db).1.orders
unfolding create_match
create-IsLater conflict id maker taker db =
    let same = IsLater-refl db.orders in
    let later =
      IsLater-update_orders (is_wanted maker taker) matched db.orders (rank-wanted maker taker) in
    ground arith

pub step-IsLater : (op : Op) (db : Db) → IsLater db.orders (step op db).orders
unfolding step insert_order set_proof set_onchain mark_settled
step-IsLater (insert none p) db = IsLater-refl db.orders
step-IsLater (insert (some id) p) db =
    let same = IsLater-refl db.orders in
    let longer = IsLater-append db.orders (row_of id p ∷ []) in ground arith
step-IsLater (create conflict id maker taker) db = create-IsLater conflict id maker taker db
step-IsLater (prove id proof) db = IsLater-refl db.orders
step-IsLater (report id status tx) db = IsLater-refl db.orders
step-IsLater (settle id tx) db =
    IsLater-update_orders (is_party id (record_outcome id confirmed tx db.matches)) settled
      db.orders (λ o h. rank-le_settled o.status)

-- Whatever operations run in whatever order: every order of the book stays at its place with its owner,
-- pair, side, payload, nullifier and commitment, and its status never goes back, so an order that was
-- matched is never open again.
pub run-IsLater : (ops : List Op) (db : Db) → IsLater db.orders (run ops db).orders
unfolding run
run-IsLater [] db = IsLater-refl db.orders
run-IsLater (op ∷ ops) db =
    IsLater-trans db.orders (step op db).orders (run ops (step op db)).orders (step-IsLater op db)
      (run-IsLater ops (step op db))
