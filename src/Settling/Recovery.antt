-- ===== src/Settling/Recovery.antt =====
-- Attempts of a match whose settlement landed without a reply.
use nyx_darkpool.Base.{
  ℕ, ◌<◌, ◌≡◌, refl, ap, ◌∙◌, Bool, true, false, ◌||◌, not, some, List, [], ◌∷◌, Text, ◌===◌,
  ===_refl, all, arith, leb, Bool-cases, inl, inr, if◌then◌else◌, ◌+◌,
}
use nyx_darkpool.Ledger.{
  MatchRow, is_match, is_confirmed, confirmed, record_outcome, set_proof, set_onchain, mark_settled,
  Db, submitted, failed, update_matches, with_proof,
}
use nyx_darkpool.ProofBytes.{HexProof}
use nyx_darkpool.Settling.{
  is_settled, verify_and_settle, submit, lost, Attempt, World, attempts, lookup, fail, remove_key,
  bump_failure, clear_failures, settle_public, settle_onchain, Config, prove_and_settle, dispatch,
  run, max_proof_attempts, Verifier, points_of,
}

-- Every record of this match is confirmed.
abbrev pub is_recorded_as_confirmed : Text → Db → Bool
is_recorded_as_confirmed id db = all (λ m. not (is_match id m) || is_confirmed m) db.matches

record_outcome-confirmed :
    (id tx : Text) (ms : List MatchRow)
    → all (λ m. not (is_match id m) || is_confirmed m) (record_outcome id confirmed tx ms) ≡ true
record_outcome-confirmed id tx [] = refl
record_outcome-confirmed id tx (m ∷ ms) = ground (arith, record_outcome-confirmed id tx ms)

lookup-remove_key : (id : Text) (f : List (Text × ℕ)) → lookup id (remove_key id f) ≡ 0
lookup-remove_key id [] = refl
lookup-remove_key id ((k, n) ∷ f) = ground (arith, lookup-remove_key id f)

-- An attempt at which the engine can prove, and can read and write what it needs to.
pub record IsHealthy (a : Attempt) (maker taker : Text) : Type 0 where
  pub proof : Text
  pub loaded : a.is_loaded ≡ true
  pub proved : a.proof ≡ some proof
  pub stored : a.is_stored ≡ true
  pub resolved : a.is_resolved ≡ true
  pub hex : HexProof
  pub converted : a.hex ≡ some hex
  pub signals : hex.public ≡ maker ∷ taker ∷ []
  pub readable : a.is_read ≡ true
  pub recorded : a.is_recorded ≡ true

-- Whatever the record says of a match that has settled on chain: if it is not abandoned, the next healthy
-- attempt calls the contract's `verify_and_settle` no more and leaves the contract as it is, confirms
-- every record of the match, and clears the counter of its failures.
pub settled-recorded :
    (cfg : Config) (verify : Verifier) (id maker taker : Text) (a : Attempt) (w : World)
    → cfg.proving ≡ true
    → cfg.onchain ≡ true
    → IsHealthy a maker taker
    → attempts id w < max_proof_attempts
    → is_settled maker taker w.contract ≡ true
    → (is_recorded_as_confirmed id (dispatch cfg verify id a w).db ≡ true)
      × ((dispatch cfg verify id a w).calls ≡ w.calls)
      × ((dispatch cfg verify id a w).contract ≡ w.contract)
      × (attempts id (dispatch cfg verify id a w) ≡ 0)
unfolding dispatch prove_and_settle settle_onchain settle_public clear_failures attempts
    mark_settled
settled-recorded cfg verify id maker taker a w proving onchain h few done =
    let guard : leb max_proof_attempts (lookup id w.failures) ≡ false = ground arith in
    rw
      (
        guard, proving, h.loaded, h.proved, h.stored, onchain, h.resolved, h.converted, h.signals,
        h.readable, done, h.recorded,
      )
      (
        record_outcome-confirmed id [] (set_proof id h.proof w.db).matches,
        refl,
        refl,
        lookup-remove_key id w.failures,
      )

-- No record of this match is confirmed.
abbrev pub is_unrecorded : Text → List MatchRow → Bool
is_unrecorded id ms = all (λ m. not (is_match id m) || not (is_confirmed m)) ms

submitted-unrecorded :
    (id tx : Text) (ms : List MatchRow)
    → is_unrecorded id ms ≡ true
    → is_unrecorded id (record_outcome id submitted tx ms) ≡ true
submitted-unrecorded id tx [] h = refl
submitted-unrecorded id tx (m ∷ ms) h = ground (arith, submitted-unrecorded id tx ms)

failed-unrecorded :
    (id tx : Text) (ms : List MatchRow)
    → is_unrecorded id ms ≡ true
    → is_unrecorded id (record_outcome id failed tx ms) ≡ true
failed-unrecorded id tx [] h = refl
failed-unrecorded id tx (m ∷ ms) h = ground (arith, failed-unrecorded id tx ms)

proved-unrecorded :
    (id proof : Text) (ms : List MatchRow)
    → is_unrecorded id ms ≡ true
    → is_unrecorded id (update_matches (is_match id) (with_proof proof) ms) ≡ true
proved-unrecorded id proof [] h = refl
proved-unrecorded id proof (m ∷ ms) h = ground (arith, proved-unrecorded id proof ms)

abbrev pub jobs_of : Text → List Attempt → List (Text × Attempt)
jobs_of id [] = []
jobs_of id (a ∷ l) = (id, a) ∷ jobs_of id l

abandoned-dispatch :
    (cfg : Config) (verify : Verifier) (id : Text) (a : Attempt) (w : World)
    → attempts id w ≡ max_proof_attempts
    → dispatch cfg verify id a w ≡ w
unfolding dispatch
abandoned-dispatch cfg verify id a w h =
    let guard : leb max_proof_attempts (attempts id w) ≡ true = ground arith in rw guard refl

-- A match with three failures is left alone.
abandoned-final :
    (cfg : Config) (verify : Verifier) (id : Text) (later : List Attempt) (w : World)
    → attempts id w ≡ max_proof_attempts
    → run cfg verify (jobs_of id later) w ≡ w
unfolding run
abandoned-final cfg verify id [] w h = refl
abandoned-final cfg verify id (a ∷ later) w h =
    ap (run cfg verify (jobs_of id later)) (abandoned-dispatch cfg verify id a w h)
    ∙ abandoned-final cfg verify id later w h

-- An attempt that fails is counted, and confirms nothing, whether its status is stored or not.
fail-unrecorded :
    (id : Text) (a : Attempt) (w : World)
    → is_unrecorded id w.db.matches ≡ true
    → ((fail id a w).contract ≡ w.contract)
      × (lookup id (fail id a w).failures ≡ lookup id w.failures + 1)
      × (is_unrecorded id (fail id a w).db.matches ≡ true)
unfolding bump_failure attempts set_onchain ◌===◌
fail-unrecorded id a w h =
    let own = ===_refl id in
    let counted : lookup id ((id, lookup id w.failures + 1) ∷ w.failures)
        ≡ lookup id w.failures + 1 =
      ground arith in
    elim (Bool-cases a.is_failed_stored) [
      | inl e ↦ rw e (refl, counted, failed-unrecorded id [] w.db.matches h)
      | inr e ↦ rw e (refl, counted, h)
    ]

marked-unrecorded :
    (id : Text) (stored : Bool) (db : Db)
    → is_unrecorded id db.matches ≡ true
    → is_unrecorded id (if stored then set_onchain id submitted [] db else db).matches ≡ true
unfolding set_onchain
marked-unrecorded id true db h = submitted-unrecorded id [] db.matches h
marked-unrecorded id false db h = h

third_lost :
    (cfg : Config) (verify : Verifier) (id maker taker : Text) (a : Attempt) (w : World)
    → cfg.proving ≡ true
    → cfg.onchain ≡ true
    → (h : IsHealthy a maker taker) → a.auth ≡ true
    → a.submission ≡ lost
    → verify (points_of h.hex) (maker ∷ taker ∷ []) ≡ true
    → attempts id w ≡ 2
    → is_settled maker taker w.contract ≡ false
    → is_unrecorded id w.db.matches ≡ true
    → (is_settled maker taker (dispatch cfg verify id a w).contract ≡ true)
      × (attempts id (dispatch cfg verify id a w) ≡ max_proof_attempts)
      × (is_unrecorded id (dispatch cfg verify id a w).db.matches ≡ true)
unfolding dispatch prove_and_settle settle_onchain settle_public submit verify_and_settle
    bump_failure attempts set_onchain set_proof is_settled ◌===◌
third_lost cfg verify id maker taker a w proving onchain h auth reply valid two fresh none_yet =
    let guard : leb max_proof_attempts (lookup id w.failures) ≡ false = ground arith in
    let db = set_proof id h.proof w.db in
    let proven = proved-unrecorded id h.proof w.db.matches none_yet in
    let settled : World = record w {
      db = if a.is_submitted_stored then set_onchain id submitted [] db else db;
      contract = (maker, taker) ∷ w.contract;
      calls = (points_of h.hex, maker ∷ taker ∷ []) ∷ w.calls;
    } in
    let (kept, counted, left) =
      fail-unrecorded id a settled (marked-unrecorded id a.is_submitted_stored db proven) in
    let own_maker = ===_refl maker in
    let own_taker = ===_refl taker in
    let there : is_settled maker taker settled.contract ≡ true = ground arith in
    rw
      (
        guard, proving, h.loaded, h.proved, h.stored, onchain, h.resolved, h.converted, h.signals,
        h.readable, fresh, reply, auth, fresh, valid,
      )
      (ap (is_settled maker taker) kept ∙ there, omega (arith, counted, two), left)

-- A match that is sent for the third time, with a proof that the contract accepts, and whose reply is
-- lost: it is settled on chain, three failures are counted, and whatever happens at later attempts, no
-- record of it is confirmed, if none was.
pub lost_third-unrecorded :
    (cfg : Config) (verify : Verifier) (id maker taker : Text) (a : Attempt) (w : World)
    (later : List Attempt)
    → cfg.proving ≡ true
    → cfg.onchain ≡ true
    → (h : IsHealthy a maker taker) → a.auth ≡ true
    → a.submission ≡ lost
    → verify (points_of h.hex) (maker ∷ taker ∷ []) ≡ true
    → attempts id w ≡ 2
    → is_settled maker taker w.contract ≡ false
    → is_unrecorded id w.db.matches ≡ true
    → (is_settled maker taker (dispatch cfg verify id a w).contract ≡ true)
      × (attempts id (dispatch cfg verify id a w) ≡ max_proof_attempts)
      × (is_unrecorded id
            (run cfg verify (jobs_of id later) (dispatch cfg verify id a w)).db.matches
          ≡ true)
lost_third-unrecorded cfg verify id maker taker a w later proving onchain h auth reply valid two
      fresh none_yet =
    let (settled_now, three, left) = third in
    (
      settled_now,
      three,
      rw (abandoned-final cfg verify id later (dispatch cfg verify id a w) three) left,
    )
  where
    third :
        (is_settled maker taker (dispatch cfg verify id a w).contract ≡ true)
        × (attempts id (dispatch cfg verify id a w) ≡ max_proof_attempts)
        × (is_unrecorded id (dispatch cfg verify id a w).db.matches ≡ true)
    third =
        third_lost cfg verify id maker taker a w proving onchain h auth reply valid two fresh
          none_yet
