-- ===== src/Intake/Laws.antt =====
-- The answers of handleCreateOrder and the tables behind them.
use nyx_darkpool.Base.{
  ◌≡◌, ◌≢◌, refl, ◌⊎◌, inl, inr, Bool, true, false, ◌||◌, Option, none, some, [], ◌∷◌, ◌++◌, Text,
  is_empty, any, arith, Bool-cases, Option-cases,
}
use nyx_darkpool.Engine.{CreateOrderBody}
use nyx_darkpool.Book.{Payload, is_valid_side, validate}
use nyx_darkpool.Book.Validation.{payload_of}
use nyx_darkpool.Ledger.{Db, insert_order, row_of, is_admitted, is_order, is_nullifier}
use nyx_darkpool.Intake.{
  Server, signature_of, params_of, inserted, authenticated, decoded, handle_create_order,
}

-- The book has one order more, with this id.
abbrev pub AddedAt : (Payload → Text) → CreateOrderBody → Db → Db → Option Text → Type 0
AddedAt encode b db db' drawn =
    (id : Text) × (drawn ≡ some id)
    × (db'.orders ≡ db.orders ++ row_of id (params_of encode b) ∷ [])

insert-created_at :
    (encode : Payload → Text) (b : CreateOrderBody) (db : Db) (drawn : Option Text)
    → (inserted (insert_order drawn (params_of encode b) db)).code ≡ 201
    → (any (is_nullifier b.nullifier) db.orders ≡ false)
      × AddedAt encode b db (inserted (insert_order drawn (params_of encode b) db)).db drawn
unfolding insert_order
insert-created_at encode b db none h = absurd (ground arith)
insert-created_at encode b db (some id) h =
    let row = row_of id (params_of encode b) in
    elim (Bool-cases (is_admitted row)) [
      | inr no_row ↦ absurd (ground arith)
      | inl admitted ↦
          elim (Bool-cases
            (any (is_order id) db.orders || any (is_nullifier b.nullifier) db.orders)) [
              | inl taken ↦ absurd (ground arith)
              | inr fresh ↦ (ground arith, (id, refl, ground arith))
            ]
    ]

insert-refused_at :
    (encode : Payload → Text) (b : CreateOrderBody) (db : Db) (drawn : Option Text)
    → ((inserted (insert_order drawn (params_of encode b) db)).code ≡ 201)
      ⊎ ((inserted (insert_order drawn (params_of encode b) db)).db ≡ db)
unfolding insert_order
insert-refused_at encode b db none = inr refl
insert-refused_at encode b db (some id) =
    let row = row_of id (params_of encode b) in
    elim (Bool-cases (is_admitted row)) [
      | inr no_row ↦ inr (ground arith)
      | inl admitted ↦
          elim (Bool-cases
            (any (is_order id) db.orders || any (is_nullifier b.nullifier) db.orders)) [
              | inl taken ↦ inr (ground arith)
              | inr fresh ↦ inl (ground arith)
            ]
    ]

module _ (verify : Text → Text → Text → Bool) (encode : Payload → Text) (s : Server)
    (id : Option Text) where
  -- What must hold of a request for its order to be taken in.
  pub record IsAccepted (b : CreateOrderBody) (db : Db) : Type 0 where
    pub has_store : s.has_store ≡ true
    pub valid_side : is_valid_side b.side ≡ true
    pub valid_payload : validate (payload_of b) ≡ none
    pub signed :
        (verify b.pubkey b.commitment (signature_of b) ≡ true)
        ⊎ ((signature_of b ≡ []) × (s.require_order_sig ≡ false))
    pub new_nullifier : any (is_nullifier b.nullifier) db.orders ≡ false

  -- The row that an accepted request adds, with the id that the database draws.
  abbrev pub Added : CreateOrderBody → Db → Db → Type 0
  Added b db db' = AddedAt encode b db db' id

  insert-created :
      (b : CreateOrderBody) (db : Db)
      → (inserted (insert_order id (params_of encode b) db)).code ≡ 201
      → (any (is_nullifier b.nullifier) db.orders ≡ false)
        × Added b db (inserted (insert_order id (params_of encode b) db)).db
  insert-created b db h = insert-created_at encode b db id h

  authenticated-created :
      (b : CreateOrderBody) (db : Db)
      → (authenticated verify encode s id b db).code ≡ 201
      → ((verify b.pubkey b.commitment (signature_of b) ≡ true)
          ⊎ ((signature_of b ≡ []) × (s.require_order_sig ≡ false)))
        × (any (is_nullifier b.nullifier) db.orders ≡ false)
        × Added b db (authenticated verify encode s id b db).db
  unfolding authenticated
  authenticated-created b db h = elim (Bool-cases (is_empty (signature_of b))) [
    | inl e ↦ elim (Bool-cases s.require_order_sig) [
      | inl r ↦ absurd (ground arith)
      | inr r ↦
          let (fresh, added) = insert-created b db (rw (e, r) at h) in
          (inr (empty_of (signature_of b) e, r), fresh, rw (e, r) added)
    ]
    | inr e ↦ elim (Bool-cases (verify b.pubkey b.commitment (signature_of b))) [
      | inr v ↦ absurd (ground arith)
      | inl v ↦
          let (fresh, added) = insert-created b db (rw (e, v) at h) in
          (inl v, fresh, rw (e, v) added)
    ]
  ]
    where
      empty_of : (t : Text) → is_empty t ≡ true → t ≡ []
      empty_of [] q = refl
      empty_of (c ∷ t) q = cc

  decoded-created :
      (b : CreateOrderBody) (db : Db)
      → (decoded verify encode s id b db).code ≡ 201
      → (is_valid_side b.side ≡ true)
        × (validate (payload_of b) ≡ none)
        × ((authenticated verify encode s id b db).code ≡ 201)
        × (decoded verify encode s id b db ≡ authenticated verify encode s id b db)
  unfolding decoded
  decoded-created b db h = elim (Option-cases (validate (payload_of b))) [
    | inr (e, invalid) ↦ absurd (ground arith)
    | inl valid ↦ ground arith
  ]

  -- An order is taken in only with a store, a valid side, a payload that the checks let through, a new
  -- nullifier, and a signature that verifies, or none where none is asked for; it is then added to the
  -- book as an open order, with the id that the database draws and the texts of the request.
  pub handle_create_order-created :
      (b : CreateOrderBody) (db : Db)
      → (handle_create_order verify encode s id (some b) db).code ≡ 201
      → IsAccepted b db × Added b db (handle_create_order verify encode s id (some b) db).db
  unfolding handle_create_order decoded authenticated
  handle_create_order-created b db h = elim (Bool-cases s.has_store) [
    | inr e ↦ absurd (ground arith)
    | inl e ↦
        let (side, payload, code, same) = decoded-created b db (rw e at h) in
        let (signed, fresh, added) = authenticated-created b db code in
        (
          record {
            has_store = e;
            valid_side = side;
            valid_payload = payload;
            signed = signed;
            new_nullifier = fresh;
          },
          rw (e, same) added,
        )
  ]

  insert-refused :
      (b : CreateOrderBody) (db : Db)
      → ((inserted (insert_order id (params_of encode b) db)).code ≡ 201)
        ⊎ ((inserted (insert_order id (params_of encode b) db)).db ≡ db)
  insert-refused b db = insert-refused_at encode b db id

  -- A request that is refused, whatever the reason, leaves the tables as they are.
  pub handle_create_order-refused :
      (body : Option CreateOrderBody) (db : Db)
      → (handle_create_order verify encode s id body db).code ≢ 201
      → (handle_create_order verify encode s id body db).db ≡ db
  unfolding handle_create_order decoded authenticated
  handle_create_order-refused none db h = ground arith
  handle_create_order-refused (some b) db h = elim (Option-cases (validate (payload_of b))) [
    | inr (e, invalid) ↦ ground arith
    | inl valid ↦ elim (insert-refused b db) [
      | inl created ↦ ground arith
      | inr same ↦ ground arith
    ]
  ]
