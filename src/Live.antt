-- ===== src/Live.antt =====
-- scripts/e2e_live.mjs: the test program that runs against a live engine. The engine is the one of
-- Pipeline; what else happens to it while the script waits is an argument, as are the ids that the
-- database draws. `sign` is the desk's signature in base64, `bytes` the random bytes of a salt. A
-- message leaves out the printed body of a reply. The network answers; a read that fails is left out.
pub mod Refusals
pub mod Apart
pub mod Registry
use nyx_darkpool.Base.{
  ℕ, zero, suc, ◌+◌, ◌*◌, Bool, true, false, ◌&&◌, ◌||◌, not, Option, none, some, List, [], ◌∷◌,
  ◌++◌, Text, codes, ◌===◌, ◌==◌, ltb, if◌then◌else◌, find, filter, any, length, take, is_empty,
  Outcome, returned, threw, ◌>>=◌,
}
use nyx_darkpool.Base.Decimal.{value, to_decimal}
use nyx_darkpool.Base.BigInt.{pos}
use nyx_darkpool.Seal.{Hash}
use nyx_darkpool.Proxy.{without_end_slashes}
use nyx_darkpool.Engine.{CreateOrderBody}
use nyx_darkpool.Ledger.{null_if_empty}
use nyx_darkpool.Intake.{handle_create_order}
use nyx_darkpool.Settling.{World}
use nyx_darkpool.Queries.{Summary, MatchView, list_orders}
use nyx_darkpool.Pipeline as Pipeline
use nyx_darkpool.Pipeline.{Setup, Event}

-- `(process.env.ENGINE_URL || …).replace(/\/+$/, "")`.
unfoldable pub engine_url : Option Text → Text
engine_url none = codes "https://nyx-engine.onrender.com"
engine_url (some s) =
    if is_empty s then codes "https://nyx-engine.onrender.com" else without_end_slashes s

abbrev pub real_pair : Text
real_pair = codes "US-TBILL-26/USDC"

-- `T`.
abbrev pub test_pair : Text → Text
test_pair s = codes "ZZ-E2E-" ++ s ++ codes "/USDC"

-- `rs`: the number whose hexadecimal digits are those of the bytes.
abbrev pub spelled : ℕ → List ℕ → ℕ
spelled n [] = n
spelled n (b ∷ bytes) = spelled (n * 256 + b) bytes

abbrev pub random_salt : List ℕ → Text
random_salt bytes = to_decimal (spelled 0 bytes)

abbrev pub commit : Hash → ℕ → ℕ → Text → Text
commit hash price volume salt = to_decimal (hash (pos price ∷ pos volume ∷ pos (value salt) ∷ []))

pub record Sealed : Type 0 where
  pub price : Text
  pub volume : Text
  pub salt : Text
  pub commitment : Text
  pub nullifier : Text

unfoldable pub sealed : Hash → List ℕ → ℕ → ℕ → Sealed
sealed hash bytes price volume =
    let salt = random_salt bytes in
    let c = commit hash price volume salt in
    record {
      price = to_decimal price;
      volume = to_decimal volume;
      salt = salt;
      commitment = c;
      nullifier = to_decimal (hash (pos (value c) ∷ pos (value salt) ∷ []));
    }

-- A desk: its public key, and how it signs.
pub record Desk : Type 0 where
  pub public_key : Text
  pub sign : Text → Text

unfoldable pub order_body : Desk → Text → Text → Sealed → CreateOrderBody
order_body desk pair side s = record {
  pubkey = desk.public_key;
  asset_pair = pair;
  side = side;
  price = s.price;
  volume = s.volume;
  salt = s.salt;
  commitment = s.commitment;
  nullifier = s.nullifier;
  signature = some (desk.sign s.commitment);
}

-- What `post` returns: the status, and the id of the JSON.
pub record Reply : Type 0 where
  pub status : ℕ
  pub id : Option Text

-- `post`, and the engine behind it; the database draws `id`.
unfoldable pub post : Setup → Text → CreateOrderBody → World → Reply
post s id b w =
    let r = handle_create_order s.check_signature s.encode s.server (some id) (some b) w.db in
    record { status = r.code; id = r.id }

abbrev pub after_post : Setup → Text → CreateOrderBody → World → World
after_post s id b w = Pipeline.step s (Pipeline.post (some id) (some b)) w

-- `find((x) => x.id === orderId)?.match_id || null` over the list that was read.
abbrev pub match_id_of : Option Summary → Option Text
match_id_of none = none
match_id_of (some o) = null_if_empty o.match_id

unfoldable pub find_match_id : Text → List Summary → Option Text
find_match_id id orders = match_id_of (find (λ o. o.id === id) orders)

-- What a test function comes back with, or the message that it throws.
pub data Done : Type 0 where
  done : Done

-- The test registry.
pub record TestResult : Type 0 where
  pub name : Text
  pub ok : Bool
  pub err : Option Text

unfoldable pub test : Text → Outcome Done → List TestResult → List TestResult
test name (returned _) results = results ++ record { name = name; ok = true; err = none } ∷ []
test name (threw e) results = results ++ record { name = name; ok = false; err = some e } ∷ []

abbrev pub assert : Bool → Text → Outcome Done
assert cond msg = if cond then returned done else threw msg

abbrev pub expected : Text → Text → ℕ → Text
expected before code got = before ++ codes "expected " ++ code ++ codes ", got " ++ to_decimal got

-- "healthz returns ok": at most 20 reads of a status and the body's `status`.
unfoldable pub health_test : ℕ → List (ℕ × Text) → Outcome Done
health_test zero replies = threw (codes "healthz never ok")
health_test (suc rounds) [] = threw (codes "healthz never ok")
health_test (suc rounds) ((status, body) ∷ replies) =
    let rest = health_test rounds replies in
    if status == 200 && body === codes "ok" then returned done else rest

-- "unsigned POST /orders → 401".
unfoldable pub unsigned_body : Desk → Sealed → CreateOrderBody
unsigned_body desk s = record {
  pubkey = desk.public_key;
  asset_pair = real_pair;
  side = codes "bid";
  price = s.price;
  volume = s.volume;
  salt = s.salt;
  commitment = s.commitment;
  nullifier = s.nullifier;
  signature = none;
}

unfoldable pub unsigned_test : Setup → Hash → Desk → List ℕ → Text → World → Outcome Done
unsigned_test s hash desk bytes id w =
    let r = post s id (unsigned_body desk (sealed hash bytes 9984 5_000_000)) w in
    assert (r.status == 401) (expected [] (codes "401") r.status)

-- "bad side → 400".
unfoldable pub bad_side_test : Setup → Hash → Desk → List ℕ → Text → World → Outcome Done
bad_side_test s hash desk bytes id w =
    let r = post s id (order_body desk real_pair (codes "buy") (sealed hash bytes 1 1)) w in
    assert (r.status == 400) (expected [] (codes "400") r.status)

-- `{}`, whose fields the engine reads as empty.
abbrev pub empty_body : CreateOrderBody
empty_body = record {
  pubkey = [];
  asset_pair = [];
  side = [];
  price = [];
  volume = [];
  salt = [];
  commitment = [];
  nullifier = [];
  signature = none;
}

-- "missing pubkey/pair → 400".
unfoldable pub empty_test : Setup → Text → World → Outcome Done
empty_test s id w =
    let r = post s id empty_body w in assert (r.status == 400) (expected [] (codes "400") r.status)

-- "duplicate nullifier → 409"; `es` happens between the two requests.
abbrev pub duplicate_body : Hash → Desk → List ℕ → CreateOrderBody
duplicate_body hash desk bytes =
    order_body desk (test_pair (codes "DUP")) (codes "bid") (sealed hash bytes 7777 12345)

unfoldable pub duplicate_test :
    Setup → Hash → Desk → List ℕ → Text → Text → List Event → World → Outcome Done
duplicate_test s hash desk bytes id id' es w =
    let body = duplicate_body hash desk bytes in
    let first = post s id body w in
    let second = post s id' body (Pipeline.run s es (after_post s id body w)) in
    assert (first.status == 201) (expected (codes "first post ") (codes "201") first.status)
    >>= λ _. assert (second.status == 409) (expected (codes "replay ") (codes "409") second.status)

-- "GET /orders leaks no private values", on the field names of the listed orders.
abbrev pub has_key : List Text → Text → Bool
has_key keys k = any (λ key. key === k) keys

abbrev pub leaked : List Text → Bool
leaked keys =
    has_key keys (codes "price") || has_key keys (codes "volume") || has_key keys (codes "salt")

unfoldable pub leak_test : List (List Text) → Outcome Done
leak_test orders = assert (not (any leaked orders)) (codes "order leaked field")

-- `for (const id of …) assert(!mid, …)`: one read of the list for each order.
abbrev pub no_match : Text → Option Text → Outcome Done
no_match id none = returned done
no_match id (some mid) = threw (codes "order " ++ id ++ codes " matched " ++ mid)

-- What the engine lists when it is asked for 200 orders.
abbrev pub listed : World → List Summary
listed w = list_orders 200 w.db

-- The engine when both orders have been sent: `es` happens between the requests, `es'` until the list
-- is read.
abbrev pub waited :
    Setup
    → CreateOrderBody
    → CreateOrderBody
    → Text
    → Text
    → List Event
    → List Event
    → World
    → World
waited s bid ask id id' es es' w =
    let w1 = Pipeline.run s es (after_post s id bid w) in
    Pipeline.run s es' (after_post s id' ask w1)

-- A test of a bid and an ask that are not to be matched; `es''` happens until the list is read again.
unfoldable pub apart_test :
    Setup
    → CreateOrderBody
    → CreateOrderBody
    → Text
    → Text
    → List Event
    → List Event
    → List Event
    → World
    → Outcome Done
apart_test s bid ask id id' es es' es'' w =
    let a = post s id bid w in
    let b = post s id' ask (Pipeline.run s es (after_post s id bid w)) in
    let w2 = waited s bid ask id id' es es' w in
    assert (a.status == 201 && b.status == 201)
      (codes "posts failed: " ++ to_decimal a.status ++ codes "/" ++ to_decimal b.status)
    >>= λ _. no_match id (find_match_id id (listed w2)) >>= λ _.
        no_match id' (find_match_id id' (listed (Pipeline.run s es'' w2)))

-- "different pairs never cross (isolation)".
abbrev pub isolation_bid : Hash → Desk → List ℕ → CreateOrderBody
isolation_bid hash desk bytes =
    order_body desk (test_pair (codes "ISO-A")) (codes "bid") (sealed hash bytes 5000 4242)

abbrev pub isolation_ask : Hash → Desk → List ℕ → CreateOrderBody
isolation_ask hash desk bytes =
    order_body desk (test_pair (codes "ISO-B")) (codes "ask") (sealed hash bytes 5000 4242)

-- "unequal volume never matches (full-fill rule)".
abbrev pub volume_bid : Hash → Desk → List ℕ → CreateOrderBody
volume_bid hash desk bytes =
    order_body desk (test_pair (codes "VOL")) (codes "bid") (sealed hash bytes 9000 1000)

abbrev pub volume_ask : Hash → Desk → List ℕ → CreateOrderBody
volume_ask hash desk bytes =
    order_body desk (test_pair (codes "VOL")) (codes "ask") (sealed hash bytes 8000 999)

unfoldable pub isolation_test :
    Setup
    → Hash
    → Desk
    → List ℕ
    → List ℕ
    → Text
    → Text
    → List Event
    → List Event
    → List Event
    → World
    → Outcome Done
isolation_test s hash desk bytes bytes' id id' es es' es'' w =
    apart_test s (isolation_bid hash desk bytes) (isolation_ask hash desk bytes') id id' es es' es''
      w

unfoldable pub volume_test :
    Setup
    → Hash
    → Desk
    → List ℕ
    → List ℕ
    → Text
    → Text
    → List Event
    → List Event
    → List Event
    → World
    → Outcome Done
volume_test s hash desk bytes bytes' id id' es es' es'' w =
    apart_test s (volume_bid hash desk bytes) (volume_ask hash desk bytes') id id' es es' es'' w

-- "full pipeline": the wait for a match, at most 20 reads; what each read finds is an argument.
unfoldable pub wait_match : ℕ → List (Option Text) → Option Text
wait_match zero found = none
wait_match (suc rounds) [] = none
wait_match (suc rounds) (none ∷ found) = wait_match rounds found
wait_match (suc rounds) (some mid ∷ found) = some mid

-- The wait for a terminal state: the match that was read last, and `onchainEnabled`. A read that comes
-- back without a match is `none`.
pub record Watch : Type 0 where
  pub last : Option MatchView
  pub onchain_enabled : Bool

abbrev pub shows_onchain : Option MatchView → Bool
shows_onchain none = false
shows_onchain (some m) =
    not (is_empty m.onchain_status) && not (m.onchain_status === codes "pending")

abbrev pub is_terminal : Option MatchView → Bool
is_terminal none = false
is_terminal (some m) =
    m.has_proof && (m.onchain_status === codes "confirmed" || m.onchain_status === codes "failed")

abbrev pub is_proven : Option MatchView → Bool
is_proven none = false
is_proven (some m) = m.has_proof

-- `i` counts the reads, `rounds` those that are left.
unfoldable pub watch : ℕ → ℕ → List (Option MatchView) → Watch → Watch
watch zero i reads seen = seen
watch (suc rounds) i [] seen = seen
watch (suc rounds) i (m ∷ reads) seen =
    let enabled = shows_onchain m || seen.onchain_enabled in
    let now : Watch = record { last = m; onchain_enabled = enabled } in
    let rest = watch rounds (i + 1) reads now in
    if is_terminal m then now else if is_proven m && not enabled && ltb 4 i then now else rest

-- The assertions behind the two waits; `successful` says what Horizon answers for a transaction.
abbrev pub settled_verdict : (Text → Bool) → MatchView → Outcome Done
settled_verdict successful m =
    assert (m.onchain_status === codes "confirmed")
      (codes "on-chain not confirmed: " ++ m.onchain_status)
    >>= λ _.
        assert (not (is_empty m.settlement_tx)) (codes "confirmed but no settlement_tx") >>= λ _.
        assert (successful m.settlement_tx) (codes "Horizon says tx not successful")

abbrev pub proof_verdict : (Text → Bool) → Bool → Option MatchView → Outcome Done
proof_verdict successful enabled none = threw (codes "proof never generated")
proof_verdict successful enabled (some m) =
    assert m.has_proof (codes "proof never generated") >>= λ _.
    (if enabled then settled_verdict successful m else returned done)

unfoldable pub pipeline_test :
    (Text → Bool) → ℕ → ℕ → List (Option Text) → (Text → List (Option MatchView)) → Outcome Done
pipeline_test successful bid_status ask_status found reads =
    assert (bid_status == 201 && ask_status == 201)
      (codes "posts failed: " ++ to_decimal bid_status ++ codes "/" ++ to_decimal ask_status)
    >>= λ _. elim (wait_match 20 found) [
      | none ↦ threw (codes "no match formed within ~60s")
      | some mid ↦
          let seen = watch 40 0 (reads mid) (record { last = none; onchain_enabled = false }) in
          proof_verdict successful seen.onchain_enabled seen.last
    ]

-- The summary: `process.exit(passed === results.length ? 0 : 1)`.
abbrev pub is_passed : TestResult → Bool
is_passed r = r.ok

unfoldable pub exit_code : List TestResult → ℕ
exit_code results = if length (filter is_passed results) == length results then 0 else 1

-- The tests of `main` in their order, with what each comes to.
abbrev pub run_tests : List (Text × Outcome Done) → List TestResult → List TestResult
run_tests [] results = results
run_tests ((name, outcome) ∷ tests) results = run_tests tests (test name outcome results)
