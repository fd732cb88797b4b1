-- ===== src/Settling/Contract.antt =====
-- The contract's storage behind the attempts of the matcher.
use nyx_darkpool.Base.{
  ◌≤◌, ◌≡◌, refl, sym, Bool, true, false, Option, none, some, List, [], ◌∷◌, Text, ===_iff, arith,
  leb, Bool-cases, inl, inr, subst, if◌then◌else◌,
}
use nyx_darkpool.Ledger.Counts.{count, count_of_any}
use nyx_darkpool.ProofBytes.{HexProof}
use nyx_darkpool.Settling.{
  Contract, Reply, accepted, rejected, same_pair, is_settled, verify_and_settle, Submission, unsent,
  lost, answered, Attempt, World, attempts, bump_failure, clear_failures, record_settled, fail,
  on_reply, call, submit, settle_public, settle_hex, settle_onchain, Config, proved, store_proof,
  prove_and_settle, dispatch, run, max_proof_attempts, Points, Verifier, points_of,
}

-- What a call leaves behind.
abbrev pub contract_of : Contract → Reply → Contract
contract_of c (rejected e) = c
contract_of c (accepted c') = c'

-- A call with these arguments keeps what holds of the contract.
abbrev pub Keeps : Verifier → (Contract → Type 0) → Bool → Points → List Text → Type 0
Keeps verify P auth points public =
    (c : Contract) → P c → P (contract_of c (verify_and_settle verify auth points public c))

-- What holds of the contract holds behind a job, if the call that it can make keeps it.
module _ (verify : Verifier) (P : Contract → Type 0) (id : Text) (a : Attempt) where
  either : (b : Bool) (x y : World) → P x.contract → P y.contract → P (if b then x else y).contract
  either true x y hx hy = hx
  either false x y hx hy = hy

  fail-P : (w : World) → P w.contract → P (fail id a w).contract
  unfolding bump_failure
  fail-P w h = either a.is_failed_stored _ _ h h

  on_reply-P :
      (tx : Option Text) (w : World) (r : Reply)
      → P (contract_of w.contract r)
      → P (on_reply id a tx w r).contract
  unfolding bump_failure clear_failures
  on_reply-P tx w (rejected e) h = fail-P w h
  on_reply-P none w (accepted c) h = fail-P (record w { contract = c }) h
  on_reply-P (some tx) w (accepted c) h = elim (Bool-cases a.is_recorded) [
    | inl e ↦ rw e h
    | inr e ↦ rw e h
  ]

  call-P :
      (points : Points) (public : List Text) (s : Submission) (w : World)
      → Keeps verify P a.auth points public
      → P w.contract
      → P (call verify id a points public s w).contract
  unfolding bump_failure
  call-P points public unsent w keeps h = fail-P w h
  call-P points public lost w keeps h =
      on_reply-P none w (verify_and_settle verify a.auth points public w.contract)
        (keeps w.contract h)
  call-P points public (answered tx) w keeps h =
      on_reply-P (some tx) w (verify_and_settle verify a.auth points public w.contract)
        (keeps w.contract h)

  record_settled-P : (tx : Text) (w : World) → P w.contract → P (record_settled id a tx w).contract
  unfolding clear_failures
  record_settled-P tx w h = either a.is_recorded _ _ h h

  settle_public-P :
      (points : Points) (public : List Text) (w : World)
      → Keeps verify P a.auth points public
      → P w.contract
      → P (settle_public verify id a points public w).contract
  unfolding settle_public submit bump_failure
  settle_public-P points [] w keeps h = call-P points [] a.submission _ keeps h
  settle_public-P points (m ∷ []) w keeps h = call-P points (m ∷ []) a.submission _ keeps h
  settle_public-P points (m ∷ t ∷ rest) w keeps h =
      either a.is_read _ _
        (either (is_settled m t w.contract) _ _ (record_settled-P [] w h)
          (call-P points (m ∷ t ∷ rest) a.submission _ keeps h))
        h

  -- The calls that the attempt can make keep it.
  abbrev AllKeep : Option HexProof → Type 0
  AllKeep hex = (x : HexProof) → hex ≡ some x → Keeps verify P a.auth (points_of x) x.public

  settle_hex-P :
      (hex : Option HexProof) (w : World)
      → AllKeep hex
      → P w.contract
      → P (settle_hex verify id a hex w).contract
  unfolding bump_failure
  settle_hex-P none w keeps h = fail-P w h
  settle_hex-P (some x) w keeps h = settle_public-P (points_of x) x.public w (keeps x refl) h

  proved-P :
      (cfg : Config) (w : World)
      → AllKeep a.hex
      → P w.contract
      → P (proved cfg verify id a w).contract
  unfolding settle_onchain bump_failure clear_failures
  proved-P cfg w keeps h =
      either cfg.onchain _ _ (either a.is_resolved _ _ (settle_hex-P a.hex w keeps h) (fail-P w h))
        h

  store_proof-P :
      (cfg : Config) (proof : Option Text) (w : World)
      → AllKeep a.hex
      → P w.contract
      → P (store_proof cfg verify id a proof w).contract
  unfolding bump_failure
  store_proof-P cfg none w keeps h = h
  store_proof-P cfg (some proof) w keeps h = either a.is_stored _ _ (proved-P cfg _ keeps h) h

  pub dispatch-P :
      (cfg : Config) (w : World)
      → ((x : HexProof) → a.hex ≡ some x → Keeps verify P a.auth (points_of x) x.public)
      → P w.contract
      → P (dispatch cfg verify id a w).contract
  unfolding dispatch prove_and_settle bump_failure
  dispatch-P cfg w keeps h =
      either (leb max_proof_attempts (attempts id w)) _ _ h
        (either cfg.proving _ _ (either a.is_loaded _ _ (store_proof-P cfg a.proof w keeps h) h) h)

-- No pair stands twice in the storage.
abbrev pub IsOnce : Contract → Type 0
IsOnce c = (maker taker : Text) → count (same_pair maker taker) c ≤ 1

accepted-IsOnce :
    (maker taker : Text) (c : Contract)
    → is_settled maker taker c ≡ false
    → IsOnce c
    → IsOnce ((maker, taker) ∷ c)
unfolding is_settled
accepted-IsOnce maker taker c fresh h m t =
    let none_yet : count (same_pair maker taker) c ≡ 0 =
      count_of_any (same_pair maker taker) c fresh in
    let within = h m t in
    elim (Bool-cases (same_pair m t (maker, taker))) [
      | inl e ↦
          let maker_same : maker ≡ m = ground (arith, e, ===_iff maker m) in
          let taker_same : taker ≡ t = ground (arith, e, ===_iff taker t) in
          let none_of : count (same_pair m t) c ≡ 0 = rw (maker_same, taker_same) at none_yet in
          ground arith
      | inr e ↦ ground arith
    ]

verify_and_settle-IsOnce :
    (verify : Verifier) (auth : Bool) (points : Points) (public : List Text)
    → Keeps verify IsOnce auth points public
unfolding verify_and_settle
verify_and_settle-IsOnce verify true points [] c h = h
verify_and_settle-IsOnce verify false points [] c h = h
verify_and_settle-IsOnce verify true points (m ∷ []) c h = h
verify_and_settle-IsOnce verify false points (m ∷ []) c h = h
verify_and_settle-IsOnce verify true points (m ∷ t ∷ u ∷ l) c h = h
verify_and_settle-IsOnce verify false points (m ∷ t ∷ u ∷ l) c h = h
verify_and_settle-IsOnce verify false points (m ∷ t ∷ []) c h = h
verify_and_settle-IsOnce verify true points (m ∷ t ∷ []) c h =
    elim (Bool-cases (is_settled m t c)) [
      | inl e ↦ rw e h
      | inr e ↦ elim (Bool-cases (verify points (m ∷ t ∷ []))) [
        | inl v ↦ rw (e, v) (accepted-IsOnce m t c e h)
        | inr v ↦ rw (e, v) h
      ]
    ]

run-IsOnce :
    (cfg : Config) (verify : Verifier) (jobs : List (Text × Attempt)) (w : World)
    → IsOnce w.contract
    → IsOnce (run cfg verify jobs w).contract
unfolding run
run-IsOnce cfg verify [] w h = h
run-IsOnce cfg verify ((id, a) ∷ jobs) w h =
    run-IsOnce cfg verify jobs (dispatch cfg verify id a w) (
      dispatch-P verify IsOnce id a cfg w
        (λ x e. verify_and_settle-IsOnce verify a.auth (points_of x) x.public) h)

-- Whatever attempts are made in whatever order, and whatever replies are lost: a contract that starts
-- empty settles a pair of hashes at most once.
pub run-settled_once :
    (cfg : Config) (verify : Verifier) (jobs : List (Text × Attempt)) (w : World)
    (maker taker : Text)
    → w.contract ≡ []
    → count (same_pair maker taker) (run cfg verify jobs w).contract ≤ 1
run-settled_once cfg verify jobs w maker taker fresh =
    run-IsOnce cfg verify jobs w (subst IsOnce (sym fresh) (λ m t. omega arith)) maker taker
