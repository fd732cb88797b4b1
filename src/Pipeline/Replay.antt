-- ===== src/Pipeline/Replay.antt =====
-- A request that is sent again.
use nyx_darkpool.Base.{
  ◌≡◌, refl, ◌∙◌, ap, Bool, true, some, List, [], ◌∷◌, ◌++◌, Text, any, arith, Bool-cases,
  Option-cases, inl, inr, ===_iff, ◌===◌, Option, none,
}
use nyx_darkpool.Engine.{CreateOrderBody}
use nyx_darkpool.Book.{Payload, validate}
use nyx_darkpool.Book.Validation.{payload_of}
use nyx_darkpool.Intake.{Server, params_of, inserted, authenticated, decoded, handle_create_order}
use nyx_darkpool.Intake.Laws.{handle_create_order-created}
use nyx_darkpool.Ledger.{Db, OrderRow, insert_order, row_of, is_nullifier}
use nyx_darkpool.Ledger.Forward.{IsLater}
use nyx_darkpool.Settling.{World}
use nyx_darkpool.Pipeline.{Setup, Event, post, step, run}
use nyx_darkpool.Pipeline.Later.{run-Follows}

module _ (check : Text → Text → Text → Bool) (encode : Payload → Text) (s : Server) where
  -- A request that is taken in has got as far as the insertion, and so gets there wherever it is sent.
  authenticated-inserts :
      (id id' : Option Text) (b : CreateOrderBody) (db db' : Db)
      → (authenticated check encode s id b db).code ≡ 201
      → ((inserted (insert_order id (params_of encode b) db)).code ≡ 201)
        × (authenticated check encode s id' b db'
            ≡ inserted (insert_order id' (params_of encode b) db'))
  unfolding authenticated
  authenticated-inserts id id' b db db' h = ground arith

  handle-inserts :
      (id id' : Option Text) (b : CreateOrderBody) (db db' : Db)
      → (handle_create_order check encode s id (some b) db).code ≡ 201
      → ((inserted (insert_order id (params_of encode b) db)).code ≡ 201)
        × (handle_create_order check encode s id' (some b) db'
            ≡ inserted (insert_order id' (params_of encode b) db'))
  unfolding handle_create_order decoded
  handle-inserts id id' b db db' h = elim (Option-cases (validate (payload_of b))) [
    | inr (e, invalid) ↦ absurd (ground arith)
    | inl valid ↦ let h2 = authenticated-inserts id id' b db db' in ground (arith, h2)
  ]

nullifier-later :
    (n : Text) (os os' : List OrderRow)
    → IsLater os os'
    → any (is_nullifier n) os ≡ true
    → any (is_nullifier n) os' ≡ true
nullifier-later n [] os' l h = absurd (cc)
nullifier-later n (o ∷ os) [] l h = absurd l
nullifier-later n (o ∷ os) (o' ∷ os') (l, ls) h = elim (Bool-cases (o.nullifier === n)) [
  | inl e ↦ let kept : (o'.nullifier === n) ≡ true = rw l.same_nullifier e in rw kept refl
  | inr e ↦ ground (arith, nullifier-later n os os' ls (rw e at h))
]

nullifier-added :
    (n : Text) (os : List OrderRow) (o : OrderRow)
    → o.nullifier ≡ n
    → any (is_nullifier n) (os ++ o ∷ []) ≡ true
nullifier-added n [] o e = let same = (===_iff o.nullifier n).1 e in rw same refl
nullifier-added n (p ∷ os) o e = ground (arith, nullifier-added n os o e)

inserted-duplicate :
    (id : Option Text) (id' : Text) (encode : Payload → Text) (b : CreateOrderBody) (db db' : Db)
    → (inserted (insert_order id (params_of encode b) db)).code ≡ 201
    → any (is_nullifier b.nullifier) db'.orders ≡ true
    → ((inserted (insert_order (some id') (params_of encode b) db')).code ≡ 409)
      × ((inserted (insert_order (some id') (params_of encode b) db')).db ≡ db')
unfolding insert_order
inserted-duplicate none id' encode b db db' h taken = absurd (ground arith)
inserted-duplicate (some id) id' encode b db db' h taken = (ground arith, ground arith)

-- The answer is 409, and the tables are as they were.
abbrev pub IsReplayed : Setup → Text → CreateOrderBody → Db → Type 0
IsReplayed s id b db =
    ((handle_create_order s.check_signature s.encode s.server (some id) (some b) db).code ≡ 409)
    × ((handle_create_order s.check_signature s.encode s.server (some id) (some b) db).db ≡ db)

-- A request that was taken in, when it is sent again after whatever else has happened, its order matched
-- or settled included, is refused with 409, and changes nothing, where the
-- database can be reached.
pub replay-refused :
    (s : Setup) (es : List Event) (w : World) (id : Option Text) (id' : Text) (b : CreateOrderBody)
    → (handle_create_order s.check_signature s.encode s.server id (some b) w.db).code ≡ 201
    → IsReplayed s id' b (run s es (step s (post id (some b)) w)).db
unfolding step
replay-refused s es w id id' b h =
    let w' = step s (post id (some b)) w in
    let later = run s es w' in
    let (accepted, (new, drawn, added)) =
      handle_create_order-created s.check_signature s.encode s.server id b w.db h in
    let there : any (is_nullifier b.nullifier) w'.db.orders ≡ true =
      rw added (nullifier-added b.nullifier w.db.orders (row_of new (params_of s.encode b)) refl) in
    let still : any (is_nullifier b.nullifier) later.db.orders ≡ true =
      nullifier-later b.nullifier w'.db.orders later.db.orders (run-Follows s es w') there in
    let (once, again) =
      handle-inserts s.check_signature s.encode s.server id (some id') b w.db later.db h in
    let (refused, same) = inserted-duplicate id id' s.encode b w.db later.db once still in
    (ap (λ r. r.code) again ∙ refused, ap (λ r. r.db) again ∙ same)
