-- ===== src/Settling.antt =====
-- engine/internal/matcher/matcher.go: proveAndSettle, settleOnchain and the bound on attempts, over the
-- tables of Ledger; and verify_and_settle of contracts/nyx-verifier/src/lib.rs, which they call.
-- What the outside does at an attempt is a record `Attempt`: the prover, the network and the database
-- may each fail. The pairing check of the proof is a parameter.
pub mod Contract
pub mod Bounded
pub mod Recovery
pub mod Transfer
use nyx_darkpool.Base.{
  ℕ, ◌+◌, ◌≡◌, Bool, true, false, ◌&&◌, not, Option, none, some, List, [], ◌∷◌, Text, codes, ◌===◌,
  any, leb, ltb, length, if◌then◌else◌,
}
use nyx_darkpool.ProofBytes.{HexProof}
use nyx_darkpool.Ledger.{Db, OnchainStatus, failed, submitted, set_proof, set_onchain, mark_settled}

-- The contract's storage: the pairs of hashes that are settled.
abbrev pub Contract : Type 0
Contract = List (Text × Text)

pub data ContractError : Type 0 where
  unauthorized invalid_proof invalid_public_input already_settled : ContractError

pub data Reply : Type 0 where
  accepted : Contract → Reply
  rejected : ContractError → Reply

-- `proof_a`, `proof_b` and `proof_c` of a proof.
abbrev pub Points : Type 0
Points = Text × Text × Text

-- Whether `groth16_verify` lets a proof with these public inputs through.
abbrev pub Verifier : Type 0
Verifier = Points → List Text → Bool

abbrev pub points_of : HexProof → Points
points_of h = (h.proof_a, h.proof_b, h.proof_c)

abbrev pub same_pair : Text → Text → Text × Text → Bool
same_pair maker taker (m, t) = m === maker && t === taker

-- `is_settled`.
unfoldable pub is_settled : Text → Text → Contract → Bool
is_settled maker taker c = any (same_pair maker taker) c

-- `verify_and_settle`; `verify` is `groth16_verify`. An error changes nothing.
unfoldable pub verify_and_settle : Verifier → Bool → Points → List Text → Contract → Reply
verify_and_settle verify auth points (maker ∷ taker ∷ []) c =
    if auth
    then if is_settled maker taker c
      then rejected already_settled
      else if verify points (maker ∷ taker ∷ [])
      then accepted ((maker, taker) ∷ c)
      else rejected invalid_proof
    else rejected unauthorized
verify_and_settle verify auth points public c =
    if auth then rejected invalid_public_input else rejected unauthorized

-- What becomes of a submission: it is not sent, its reply is lost, or it is answered with this
-- transaction hash where the contract accepts.
pub data Submission : Type 0 where
  unsent lost : Submission
  answered : Text → Submission

-- What the outside does at one attempt. `hex` is what `ToHexProof` gives;
-- `is_read` says that the contract's state can be read, `is_recorded` that `MarkSettled` succeeds, and
-- the last two that `SetOnchain` does, whose errors are dropped.
pub record Attempt : Type 0 where
  pub is_loaded : Bool
  pub proof : Option Text
  pub is_stored : Bool
  pub is_resolved : Bool
  pub hex : Option HexProof
  pub is_read : Bool
  pub auth : Bool
  pub submission : Submission
  pub is_recorded : Bool
  pub is_submitted_stored : Bool
  pub is_failed_stored : Bool

-- The tables, the contract, the consecutive failures of each match, and what `VerifyAndSettle` was
-- called with, the last call first.
pub record World : Type 0 where
  pub db : Db
  pub contract : Contract
  pub failures : List (Text × ℕ)
  pub calls : List (Points × List Text)

-- `attempts`, `failures.Store` and `failures.Delete`.
abbrev pub lookup : Text → List (Text × ℕ) → ℕ
lookup id [] = 0
lookup id ((k, n) ∷ l) = if k === id then n else lookup id l

unfoldable pub attempts : Text → World → ℕ
attempts id w = lookup id w.failures

abbrev pub remove_key : Text → List (Text × ℕ) → List (Text × ℕ)
remove_key id [] = []
remove_key id ((k, n) ∷ l) = if k === id then remove_key id l else (k, n) ∷ remove_key id l

unfoldable pub bump_failure : Text → World → World
unfolding attempts
bump_failure id w = record w { failures = (id, attempts id w + 1) ∷ w.failures }

unfoldable pub clear_failures : Text → World → World
clear_failures id w = record w { failures = remove_key id w.failures }

abbrev pub max_proof_attempts : ℕ
max_proof_attempts = 3

-- `fail` of settleOnchain.
abbrev pub fail : Text → Attempt → World → World
fail id a w =
    let w' = bump_failure id w in
    if a.is_failed_stored then record w' { db = set_onchain id failed [] w'.db } else w'

-- `MarkSettled`, which may fail after the counter is cleared.
abbrev pub record_settled : Text → Attempt → Text → World → World
record_settled id a tx w =
    let w' = clear_failures id w in
    if a.is_recorded then record w' { db = mark_settled id tx w'.db } else w'

abbrev pub on_reply : Text → Attempt → Option Text → World → Reply → World
on_reply id a tx w (rejected e) = fail id a w
on_reply id a none w (accepted c) = fail id a (record w { contract = c })
on_reply id a (some tx) w (accepted c) = record_settled id a tx (record w { contract = c })

abbrev pub call : Verifier → Text → Attempt → Points → List Text → Submission → World → World
call verify id a points public unsent w = fail id a w
call verify id a points public lost w =
    on_reply id a none w (verify_and_settle verify a.auth points public w.contract)
call verify id a points public (answered tx) w =
    on_reply id a (some tx) w (verify_and_settle verify a.auth points public w.contract)

unfoldable pub submit : Verifier → Text → Attempt → Points → List Text → World → World
submit verify id a points public w = call verify id a points public a.submission (record w {
  db = if a.is_submitted_stored then set_onchain id submitted [] w.db else w.db;
  calls = (points, public) ∷ w.calls;
})

-- The check of the contract's state in front of a submission.
unfoldable pub settle_public : Verifier → Text → Attempt → Points → List Text → World → World
settle_public verify id a points (maker ∷ taker ∷ rest) w =
    if a.is_read
    then if is_settled maker taker w.contract
      then record_settled id a [] w
      else submit verify id a points (maker ∷ taker ∷ rest) w
    else bump_failure id w
settle_public verify id a points public w = submit verify id a points public w

abbrev pub settle_hex : Verifier → Text → Attempt → Option HexProof → World → World
settle_hex verify id a none w = fail id a w
settle_hex verify id a (some h) w = settle_public verify id a (points_of h) h.public w

unfoldable pub settle_onchain : Verifier → Text → Attempt → World → World
settle_onchain verify id a w = if a.is_resolved then settle_hex verify id a a.hex w else fail id a w

-- The engine's configuration: whether it proves and whether it settles.
pub record Config : Type 0 where
  pub proving : Bool
  pub onchain : Bool

-- Behind `SetProof`.
abbrev pub proved : Config → Verifier → Text → Attempt → World → World
proved cfg verify id a w = if cfg.onchain then settle_onchain verify id a w else clear_failures id w

abbrev pub store_proof : Config → Verifier → Text → Attempt → Option Text → World → World
store_proof cfg verify id a none w = bump_failure id w
store_proof cfg verify id a (some proof) w =
    if a.is_stored then proved cfg verify id a (record w { db = set_proof id proof w.db }) else w

unfoldable pub prove_and_settle : Config → Verifier → Text → Attempt → World → World
prove_and_settle cfg verify id a w =
    if cfg.proving
    then if a.is_loaded then store_proof cfg verify id a a.proof w else bump_failure id w
    else w

-- The guard of `tick`: a match with too many failures is abandoned.
unfoldable pub dispatch : Config → Verifier → Text → Attempt → World → World
dispatch cfg verify id a w =
    if leb max_proof_attempts (attempts id w) then w else prove_and_settle cfg verify id a w

-- A match is in flight at most once, so attempts of one match follow each other.
unfoldable pub run : Config → Verifier → List (Text × Attempt) → World → World
run cfg verify [] w = w
run cfg verify ((id, a) ∷ jobs) w = run cfg verify jobs (dispatch cfg verify id a w)
