-- ===== src/Tests/Settlement.antt =====
-- The tables, the matcher's attempts, and the contract.
use nyx_darkpool.Base.{
  ◌++◌, map, Option, ◌≤◌, ◌≡◌, refl, true, false, some, List, [], ◌∷◌, Text, codes, ◌===◌, inl,
  arith,
}
use nyx_darkpool.Book.{is_valid_side, Payload, pair_orders, pair_asks, pick, set_string}
use nyx_darkpool.Cycle.{Draw, match_pairs, match_once}
use nyx_darkpool.Cycle.Crossing.{Adds, match_once-Adds}
use nyx_darkpool.Ledger.{
  ok, update_orders, is_wanted, matched, new_match, Db, open_orders, InsertParams, Op, insert,
  create, prove, report, settle, failed, run, step, empty_db, is_nullifier, insert_order,
  create_match, set_proof, set_onchain, mark_settled,
}
use nyx_darkpool.Ledger.Won.{create_match-won}
use nyx_darkpool.Ledger.Counts.{count}
use nyx_darkpool.Ledger.Once.{IsSoundAt, run-IsSoundAt}
use nyx_darkpool.Ledger.Unique.{nullifier-once}
use nyx_darkpool.Ledger.Forward.{IsLater, run-IsLater}
use nyx_darkpool.Ledger.Final.{Any, IsConfirmed, settlement-final}
use nyx_darkpool.Ledger.Backed.{AreBacked, run-AreBacked}
use nyx_darkpool.ProofBytes.{HexProof}
use nyx_darkpool.Settling as Settling
use nyx_darkpool.Settling.{
  Attempt, Config, World, Submission, lost, answered, same_pair, is_settled, attempts, dispatch,
  max_proof_attempts, Verifier, points_of,
}
use nyx_darkpool.Settling.Contract.{run-settled_once}
use nyx_darkpool.Settling.{
  prove_and_settle, settle_onchain, settle_public, submit, verify_and_settle, bump_failure,
  clear_failures,
}
use nyx_darkpool.Settling.Transfer.{settle_transfer, IsShown, settle_transfer-verified}
use nyx_darkpool.Settling.Bounded.{run-attempts_le}
use nyx_darkpool.Settling.Recovery.{
  IsHealthy, is_recorded_as_confirmed, is_unrecorded, jobs_of, settled-recorded,
  lost_third-unrecorded,
}

abbrev params : Text → Text → InsertParams
params side nullifier = record {
  pubkey = codes "GSAB";
  asset_pair = codes "GOLD-RWA/USDC";
  side = side;
  blob = codes "{}";
  commitment = codes "1003";
  nullifier = nullifier;
  price_hash = [];
  volume_hash = [];
}

-- Two orders are matched, another match of one of them is refused, and the match is settled.
abbrev life : List Op
life =
    insert (some (codes "a")) (params (codes "ask") (codes "11"))
    ∷ insert (some (codes "b")) (params (codes "bid") (codes "12"))
    ∷ insert (some (codes "c")) (params (codes "bid") (codes "12"))
    ∷ create false (codes "m") (codes "a") (codes "b")
    ∷ create false (codes "n") (codes "a") (codes "b")
    ∷ prove (codes "m") (codes "{}")
    ∷ settle (codes "m") (codes "f00d")
    ∷ report (codes "m") failed []
    ∷ []

run-IsSoundAt_example : IsSoundAt (codes "a") (run life empty_db)
run-IsSoundAt_example = run-IsSoundAt life (codes "a")

nullifier-once_case : count (is_nullifier (codes "12")) (run life empty_db).orders ≤ 1
nullifier-once_case = nullifier-once life (codes "12")

run-IsLater_example : IsLater (run life empty_db).orders (run life (run life empty_db)).orders
run-IsLater_example = run-IsLater life (run life empty_db)

run-AreBacked_example : AreBacked (run life empty_db)
run-AreBacked_example = run-AreBacked life

life-IsConfirmed : Any (IsConfirmed (codes "m") (some (codes "f00d"))) (run life empty_db).matches
unfolding run step empty_db insert_order create_match set_proof set_onchain mark_settled
    is_valid_side ◌===◌
life-IsConfirmed = inl (record { same_id = refl; status = refl; same_tx = refl })

settlement-final_example :
    Any (IsConfirmed (codes "m") (some (codes "f00d"))) (run life (run life empty_db)).matches
settlement-final_example =
    settlement-final (codes "m") (some (codes "f00d")) life (run life empty_db) life-IsConfirmed

-- An engine that proves and settles, and a proof that always verifies.
abbrev cfg : Config
cfg = record { proving = true; onchain = true }

abbrev verifies : Verifier
verifies points public = true

abbrev hex_proof : HexProof
hex_proof = record {
  proof_a = codes "0x01";
  proof_b = codes "0x02";
  proof_c = codes "0x03";
  public = codes "0xaa" ∷ codes "0xbb" ∷ [];
}

abbrev attempt : Submission → Attempt
attempt s = record {
  is_loaded = true;
  proof = some (codes "{}");
  is_stored = true;
  is_resolved = true;
  hex = some hex_proof;
  is_read = true;
  auth = true;
  submission = s;
  is_recorded = true;
  is_submitted_stored = true;
  is_failed_stored = true;
}

attempt-IsHealthy : (s : Submission) → IsHealthy (attempt s) (codes "0xaa") (codes "0xbb")
attempt-IsHealthy s = record {
  proof = codes "{}";
  loaded = refl;
  proved = refl;
  stored = refl;
  resolved = refl;
  hex = hex_proof;
  converted = refl;
  signals = refl;
  readable = refl;
  recorded = refl;
}

abbrev start : World
start = record { db = empty_db; contract = []; failures = []; calls = [] }

abbrev jobs : List (Text × Attempt)
jobs = (codes "m", attempt lost) ∷ (codes "m", attempt (answered (codes "f00d"))) ∷ []

run-settled_once_example :
    count (same_pair (codes "0xaa") (codes "0xbb")) (Settling.run cfg verifies jobs start).contract
    ≤ 1
run-settled_once_example =
    run-settled_once cfg verifies jobs start (codes "0xaa") (codes "0xbb") refl

run-attempts_le_example :
    attempts (codes "m") (Settling.run cfg verifies jobs start) ≤ max_proof_attempts
run-attempts_le_example = run-attempts_le cfg verifies jobs start (codes "m") refl

-- Two orders are matched.
abbrev pairing : List Op
pairing =
    insert (some (codes "a")) (params (codes "ask") (codes "11"))
    ∷ insert (some (codes "b")) (params (codes "bid") (codes "12"))
    ∷ create false (codes "m") (codes "a") (codes "b")
    ∷ []

abbrev paired : World
paired = record { db = run pairing empty_db; contract = []; failures = []; calls = [] }

-- The reply of the first attempt was lost: the contract has settled, and the record says `failed`.
abbrev landed : World
landed = dispatch cfg verifies (codes "m") (attempt lost) paired

landed_run :
    (landed.contract ≡ (codes "0xaa", codes "0xbb") ∷ [])
    × (map (λ m. m.onchain_status) landed.db.matches ≡ failed ∷ [])
    × (landed.calls ≡ (points_of hex_proof, codes "0xaa" ∷ codes "0xbb" ∷ []) ∷ [])
unfolding dispatch prove_and_settle settle_onchain settle_public submit verify_and_settle is_settled
    attempts bump_failure run step empty_db insert_order create_match set_proof set_onchain
    is_valid_side ◌===◌
landed_run = (refl, refl, refl)

settled-recorded_example :
    (is_recorded_as_confirmed
        (codes "m")
        (dispatch cfg verifies (codes "m") (attempt lost) landed).db
      ≡ true)
    × ((dispatch cfg verifies (codes "m") (attempt lost) landed).calls ≡ landed.calls)
    × ((dispatch cfg verifies (codes "m") (attempt lost) landed).contract ≡ landed.contract)
    × (attempts (codes "m") (dispatch cfg verifies (codes "m") (attempt lost) landed) ≡ 0)
unfolding dispatch prove_and_settle settle_onchain settle_public submit verify_and_settle is_settled
    attempts bump_failure ◌===◌
settled-recorded_example =
    settled-recorded cfg verifies (codes "m") (codes "0xaa") (codes "0xbb") (attempt lost) landed
      refl refl (attempt-IsHealthy lost) (omega arith) refl

-- Two attempts have failed.
abbrev twice : World
twice = record { db = run life empty_db; contract = []; failures = (codes "x", 2) ∷ []; calls = [] }

lost_third-unrecorded_example :
    (is_settled
        (codes "0xaa")
        (codes "0xbb")
        (dispatch cfg verifies (codes "x") (attempt lost) twice).contract
      ≡ true)
    × (attempts (codes "x") (dispatch cfg verifies (codes "x") (attempt lost) twice)
        ≡ max_proof_attempts)
    × (is_unrecorded
          (codes "x")
          (Settling.run cfg verifies
            (jobs_of (codes "x") (attempt lost ∷ []))
            (dispatch cfg verifies (codes "x") (attempt lost) twice)).db.matches
        ≡ true)
unfolding attempts is_settled run step empty_db insert_order create_match set_proof set_onchain
    mark_settled is_valid_side ◌===◌
lost_third-unrecorded_example =
    lost_third-unrecorded cfg verifies (codes "x") (codes "0xaa") (codes "0xbb") (attempt lost)
      twice (attempt lost ∷ []) refl refl (attempt-IsHealthy lost) refl refl refl refl refl refl

-- A cycle over a book of one ask and two bids, the first too low.
abbrev prices : Text → Option Payload
prices blob = some (record { price = blob; volume = codes "50"; salt = codes "7" })

abbrev priced : Text → Text → Text → InsertParams
priced side nullifier price = record (params side nullifier) { blob = price }

abbrev arrivals : List Op
arrivals =
    insert (some (codes "b1")) (priced (codes "bid") (codes "11") (codes "90"))
    ∷ insert (some (codes "a1")) (priced (codes "ask") (codes "12") (codes "100"))
    ∷ insert (some (codes "b2")) (priced (codes "bid") (codes "13") (codes "105"))
    ∷ []

abbrev resting : Db
resting = run arrivals empty_db

abbrev draw : Draw
draw p = (false, codes "m1")

cycle_run : (match_once prices draw (codes "GOLD-RWA/USDC" ∷ []) resting).0 ≡ 1
unfolding run step empty_db insert_order create_match is_valid_side match_once match_pairs
    open_orders pair_orders pair_asks pick set_string ◌===◌
cycle_run = refl

match_once-Adds_example :
    Adds prices resting.orders
      (match_once prices draw (codes "GOLD-RWA/USDC" ∷ []) resting).0
      resting
      (match_once prices draw (codes "GOLD-RWA/USDC" ∷ []) resting).1
match_once-Adds_example = match_once-Adds prices draw (codes "GOLD-RWA/USDC" ∷ []) resting

create_match-won_example : create_match false (codes "m1") (codes "a1") (codes "b2") resting ≡ (
  ok (codes "m1"),
  record {
    orders = update_orders (is_wanted (codes "a1") (codes "b2")) matched resting.orders;
    matches = resting.matches ++ new_match (codes "m1") (codes "a1") (codes "b2") ∷ [];
  },
)
unfolding run step empty_db insert_order is_valid_side ◌===◌
create_match-won_example =
    create_match-won (codes "m1") (codes "a1") (codes "b2") resting
      (run-IsSoundAt arrivals (codes "a1")) (run-IsSoundAt arrivals (codes "b2")) refl refl refl
      refl

settle_transfer-verified_example : IsShown verifies (codes "0xaa") (codes "0xbb") jobs
unfolding settle_transfer Settling.run dispatch prove_and_settle settle_onchain settle_public submit
    verify_and_settle is_settled attempts bump_failure clear_failures set_proof set_onchain
    mark_settled empty_db ◌===◌
settle_transfer-verified_example =
    settle_transfer-verified cfg verifies jobs start (codes "0xaa") (codes "0xbb") true true refl
      refl
