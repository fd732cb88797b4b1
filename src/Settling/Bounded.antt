-- ===== src/Settling/Bounded.antt =====
-- The counters of failures behind the attempts of the matcher.
use nyx_darkpool.Base.{
  ℕ, ◌+◌, ◌≤◌, ◌≡◌, subst, sym, Bool, true, false, Option, none, some, List, [], ◌∷◌, Text, ◌===◌,
  arith, leb, Bool-cases, inl, inr, All, if◌then◌else◌,
}
use nyx_darkpool.ProofBytes.{HexProof}
use nyx_darkpool.Settling.{
  Reply, accepted, rejected, is_settled, verify_and_settle, Submission, unsent, lost, answered,
  Attempt, World, attempts, lookup, remove_key, bump_failure, clear_failures, fail, on_reply, call,
  submit, settle_public, settle_hex, settle_onchain, Config, proved, store_proof, prove_and_settle,
  dispatch, run, max_proof_attempts, Points, Verifier, points_of,
}

abbrev Failures : Type 0
Failures = List (Text × ℕ)

-- A job leaves the counters as they are, or counts one failure of its match, or clears its counter.
module _ (verify : Verifier) (P : Failures → Type 0) (id : Text) (a : Attempt) where
  -- What holds of the counters in each of the three cases.
  record Holds (f : Failures) : Type 0 where
    same : P f
    bumped : P ((id, lookup id f + 1) ∷ f)
    cleared : P (remove_key id f)

  either : (b : Bool) (x y : World) → P x.failures → P y.failures → P (if b then x else y).failures
  either true x y hx hy = hx
  either false x y hx hy = hy

  fail-P : (w : World) → P ((id, lookup id w.failures + 1) ∷ w.failures) → P (fail id a w).failures
  unfolding bump_failure attempts
  fail-P w h = either a.is_failed_stored _ _ h h

  on_reply-P :
      (tx : Option Text) (w : World) (r : Reply)
      → Holds w.failures
      → P (on_reply id a tx w r).failures
  unfolding bump_failure clear_failures attempts
  on_reply-P tx w (rejected e) h = fail-P w h.bumped
  on_reply-P none w (accepted c) h = fail-P (record w { contract = c }) h.bumped
  on_reply-P (some tx) w (accepted c) h = either a.is_recorded _ _ h.cleared h.cleared

  call-P :
      (points : Points) (public : List Text) (s : Submission) (w : World)
      → Holds w.failures
      → P (call verify id a points public s w).failures
  unfolding bump_failure attempts
  call-P points public unsent w h = fail-P w h.bumped
  call-P points public lost w h =
      on_reply-P none w (verify_and_settle verify a.auth points public w.contract) h
  call-P points public (answered tx) w h =
      on_reply-P (some tx) w (verify_and_settle verify a.auth points public w.contract) h

  settle_public-P :
      (points : Points) (public : List Text) (w : World)
      → Holds w.failures
      → P (settle_public verify id a points public w).failures
  unfolding settle_public submit bump_failure clear_failures attempts
  settle_public-P points [] w h = call-P points [] a.submission _ h
  settle_public-P points (m ∷ []) w h = call-P points (m ∷ []) a.submission _ h
  settle_public-P points (m ∷ t ∷ rest) w h =
      either a.is_read _ _
        (either (is_settled m t w.contract) _ _ (either a.is_recorded _ _ h.cleared h.cleared)
          (call-P points (m ∷ t ∷ rest) a.submission _ h))
        h.bumped

  settle_hex-P :
      (hex : Option HexProof) (w : World)
      → Holds w.failures
      → P (settle_hex verify id a hex w).failures
  unfolding bump_failure attempts
  settle_hex-P none w h = fail-P w h.bumped
  settle_hex-P (some x) w h = settle_public-P (points_of x) x.public w h

  proved-P : (cfg : Config) (w : World) → Holds w.failures → P (proved cfg verify id a w).failures
  unfolding settle_onchain bump_failure clear_failures attempts
  proved-P cfg w h =
      either cfg.onchain _ _ (either a.is_resolved _ _ (settle_hex-P a.hex w h) (fail-P w h.bumped))
        h.cleared

  store_proof-P :
      (cfg : Config) (proof : Option Text) (w : World)
      → Holds w.failures
      → P (store_proof cfg verify id a proof w).failures
  unfolding bump_failure attempts
  store_proof-P cfg none w h = h.bumped
  store_proof-P cfg (some proof) w h = either a.is_stored _ _ (proved-P cfg _ h) h.same

  prove_and_settle-P :
      (cfg : Config) (w : World)
      → Holds w.failures
      → P (prove_and_settle cfg verify id a w).failures
  unfolding prove_and_settle bump_failure attempts
  prove_and_settle-P cfg w h =
      either cfg.proving _ _ (either a.is_loaded _ _ (store_proof-P cfg a.proof w h) h.bumped)
        h.same

abbrev pub AreBounded : List (Text × ℕ) → Type 0
AreBounded f = All (λ e. e.1 ≤ max_proof_attempts) f

AreBounded-remove_key :
    (id : Text) (f : List (Text × ℕ)) → AreBounded f → AreBounded (remove_key id f)
AreBounded-remove_key id [] h = tt
AreBounded-remove_key id ((k, n) ∷ f) (hn, h) = elim (Bool-cases (k === id)) [
  | inl e ↦ rw e (AreBounded-remove_key id f h)
  | inr e ↦ rw e (hn, AreBounded-remove_key id f h)
]

lookup-le : (id : Text) (f : List (Text × ℕ)) → AreBounded f → lookup id f ≤ max_proof_attempts
lookup-le id [] h = omega arith
lookup-le id ((k, n) ∷ f) (hn, h) = elim (Bool-cases (k === id)) [
  | inl e ↦ rw e hn
  | inr e ↦ rw e (lookup-le id f h)
]

dispatch-AreBounded :
    (cfg : Config) (verify : Verifier) (id : Text) (a : Attempt) (w : World)
    → AreBounded w.failures
    → AreBounded (dispatch cfg verify id a w).failures
unfolding dispatch attempts
dispatch-AreBounded cfg verify id a w h =
    elim (Bool-cases (leb max_proof_attempts (lookup id w.failures))) [
      | inl e ↦ rw e h
      | inr e ↦ rw e (
          prove_and_settle-P verify AreBounded id a cfg w (record {
            same = h;
            bumped = (ground (arith, e), h);
            cleared = AreBounded-remove_key id w.failures h;
          }))
    ]

run-AreBounded :
    (cfg : Config) (verify : Verifier) (jobs : List (Text × Attempt)) (w : World)
    → AreBounded w.failures
    → AreBounded (run cfg verify jobs w).failures
unfolding run
run-AreBounded cfg verify [] w h = h
run-AreBounded cfg verify ((id, a) ∷ jobs) w h =
    run-AreBounded cfg verify jobs (dispatch cfg verify id a w)
      (dispatch-AreBounded cfg verify id a w h)

-- Whatever the outside does, however often, from an engine that has just started: no match is counted
-- more than three failures.
pub run-attempts_le :
    (cfg : Config) (verify : Verifier) (jobs : List (Text × Attempt)) (w : World) (id : Text)
    → w.failures ≡ []
    → attempts id (run cfg verify jobs w) ≤ max_proof_attempts
unfolding attempts
run-attempts_le cfg verify jobs w id fresh =
    lookup-le id (run cfg verify jobs w).failures
      (run-AreBounded cfg verify jobs w (subst AreBounded (sym fresh) tt))
