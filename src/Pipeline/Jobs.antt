-- ===== src/Pipeline/Jobs.antt =====
-- What a request and a job do to the tables, as operations of the store.
use nyx_darkpool.Base.{
  Bool, true, false, ◌||◌, not, Option, none, some, List, [], ◌∷◌, Text, is_empty, if◌then◌else◌,
  leb,
}
use nyx_darkpool.Engine.{CreateOrderBody}
use nyx_darkpool.Book.{Payload, Invalid, is_valid_side, validate}
use nyx_darkpool.Book.Validation.{payload_of}
use nyx_darkpool.Intake.{
  Server, Response, params_of, inserted, signature_of, authenticated, validated, decoded,
  handle_create_order,
}
use nyx_darkpool.Ledger.{
  Db, OnchainStatus, failed, submitted, InsertParams, Result, ok, err, duplicate, already_matched,
  serialization, other, insert_order, set_proof, set_onchain, mark_settled,
}
use nyx_darkpool.ProofBytes.{HexProof}
use nyx_darkpool.Settling.{
  World, Attempt, Config, Reply, accepted, rejected, Submission, unsent, lost, answered, fail,
  record_settled, on_reply, call, submit, settle_public, settle_hex, settle_onchain, proved,
  store_proof, prove_and_settle, dispatch, bump_failure, clear_failures, is_settled,
  verify_and_settle, attempts, max_proof_attempts, Points, Verifier, points_of,
}

-- What holds of the tables holds behind a job, if the three statements that a job runs keep it.
module _ (P : Db → Type 0)
    (prove-P : (id proof : Text) (db : Db) → P db → P (set_proof id proof db))
    (report-P : (id : Text) (status : OnchainStatus) (tx : Text) (db : Db)
      → P db
      → P (set_onchain id status tx db))
    (settle-P : (id tx : Text) (db : Db) → P db → P (mark_settled id tx db)) (id : Text)
    (a : Attempt) where
  either : (b : Bool) (x y : World) → P x.db → P y.db → P (if b then x else y).db
  either true x y hx hy = hx
  either false x y hx hy = hy

  fail-P : (w : World) → P w.db → P (fail id a w).db
  unfolding bump_failure
  fail-P w h = either a.is_failed_stored _ _ (report-P id failed [] w.db h) h

  stored-P : (b : Bool) (x y : Db) → P x → P y → P (if b then x else y)
  stored-P true x y hx hy = hx
  stored-P false x y hx hy = hy

  record_settled-P : (tx : Text) (w : World) → P w.db → P (record_settled id a tx w).db
  unfolding clear_failures
  record_settled-P tx w h = either a.is_recorded _ _ (settle-P id tx w.db h) h

  on_reply-P : (tx : Option Text) (w : World) (r : Reply) → P w.db → P (on_reply id a tx w r).db
  on_reply-P tx w (rejected e) h = fail-P w h
  on_reply-P none w (accepted c) h = fail-P (record w { contract = c }) h
  on_reply-P (some tx) w (accepted c) h = record_settled-P tx (record w { contract = c }) h

  module _ (verify : Verifier) where
    call-P :
        (points : Points) (public : List Text) (s : Submission) (w : World)
        → P w.db
        → P (call verify id a points public s w).db
    call-P points public unsent w h = fail-P w h
    call-P points public lost w h =
        on_reply-P none w (verify_and_settle verify a.auth points public w.contract) h
    call-P points public (answered tx) w h =
        on_reply-P (some tx) w (verify_and_settle verify a.auth points public w.contract) h

    submit-P :
        (points : Points) (public : List Text) (w : World)
        → P w.db
        → P (submit verify id a points public w).db
    unfolding submit
    submit-P points public w h =
        call-P points public a.submission
          (record w {
            db = if a.is_submitted_stored then set_onchain id submitted [] w.db else w.db;
            calls = (points, public) ∷ w.calls;
          })
          (stored-P a.is_submitted_stored _ _ (report-P id submitted [] w.db h) h)

    settle_public-P :
        (points : Points) (public : List Text) (w : World)
        → P w.db
        → P (settle_public verify id a points public w).db
    unfolding settle_public bump_failure
    settle_public-P points [] w h = submit-P points [] w h
    settle_public-P points (m ∷ []) w h = submit-P points (m ∷ []) w h
    settle_public-P points (m ∷ t ∷ rest) w h =
        either a.is_read _ _
          (either (is_settled m t w.contract) _ _ (record_settled-P [] w h)
            (submit-P points (m ∷ t ∷ rest) w h))
          h

    settle_hex-P :
        (hex : Option HexProof) (w : World) → P w.db → P (settle_hex verify id a hex w).db
    settle_hex-P none w h = fail-P w h
    settle_hex-P (some x) w h = settle_public-P (points_of x) x.public w h

    proved-P : (cfg : Config) (w : World) → P w.db → P (proved cfg verify id a w).db
    unfolding settle_onchain clear_failures
    proved-P cfg w h =
        either cfg.onchain _ _ (either a.is_resolved _ _ (settle_hex-P a.hex w h) (fail-P w h)) h

    store_proof-P :
        (cfg : Config) (proof : Option Text) (w : World)
        → P w.db
        → P (store_proof cfg verify id a proof w).db
    unfolding bump_failure
    store_proof-P cfg none w h = h
    store_proof-P cfg (some proof) w h =
        either a.is_stored _ _
          (proved-P cfg (record w { db = set_proof id proof w.db }) (prove-P id proof w.db h)) h

    pub dispatch-P : (cfg : Config) (w : World) → P w.db → P (dispatch cfg verify id a w).db
    unfolding dispatch prove_and_settle bump_failure
    dispatch-P cfg w h =
        either (leb max_proof_attempts (attempts id w)) _ _ h
          (either cfg.proving _ _ (either a.is_loaded _ _ (store_proof-P cfg a.proof w h) h) h)

-- Likewise behind a request, if an insertion keeps it.
module _ (P : Db → Type 0)
    (insert-P : (id : Option Text) (p : InsertParams) (db : Db) → P db → P (insert_order id p db).1)
    (check : Text → Text → Text → Bool) (encode : Payload → Text) (s : Server) (id : Option Text)
    (db : Db) (h : P db) where
  choice : (b : Bool) (x y : Response) → P x.db → P y.db → P (if b then x else y).db
  choice true x y hx hy = hx
  choice false x y hx hy = hy

  inserted-P : (r : Result × Db) → P r.1 → P (inserted r).db
  inserted-P (ok new, db') h' = h'
  inserted-P (err duplicate, db') h' = h'
  inserted-P (err already_matched, db') h' = h'
  inserted-P (err serialization, db') h' = h'
  inserted-P (err other, db') h' = h'

  authenticated-P : (b : CreateOrderBody) → P (authenticated check encode s id b db).db
  unfolding authenticated
  authenticated-P b =
      let taken_in =
        inserted-P (insert_order id (params_of encode b) db)
          (insert-P id (params_of encode b) db h) in
      choice (is_empty (signature_of b)) _ _ (choice s.require_order_sig _ _ h taken_in)
        (choice (check b.pubkey b.commitment (signature_of b)) _ _ taken_in h)

  validated-P :
      (b : CreateOrderBody) (e : Option Invalid) → P (validated check encode s id b db e).db
  validated-P b (some e) = h
  validated-P b none = authenticated-P b

  pub handle-P :
      (body : Option CreateOrderBody) → P (handle_create_order check encode s id body db).db
  unfolding handle_create_order decoded
  handle-P none = choice s.has_store _ _ h h
  handle-P (some b) =
      choice s.has_store _ _
        (choice (is_empty b.pubkey || is_empty b.asset_pair) _ _ h (
          choice (not (is_valid_side b.side)) _ _ h (
            choice (is_empty b.commitment || is_empty b.nullifier) _ _ h
              (validated-P b (validate (payload_of b))))))
        h
