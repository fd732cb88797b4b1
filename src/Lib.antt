-- ===== src/Lib.antt =====
-- Nyx Darkpool. In the browser application, web/app, a desk signs in with a Stellar key, seals orders
-- to Poseidon commitments on the device, broadcasts them to the matching engine through a proxy, and
-- watches them in the pool, proofs, settlement and desk screens. The engine takes orders in, pairs the
-- ones that cross, has each pair proved by a circuit, and settles it with a contract.
--
-- What is modelled where, by path in the repository:
--   Seal      web/app/_lib/seal.ts: priceToInt, sizeToInt, randomSalt, getPoseidon, sealInts, seal.
--   Ui        web/app/_lib/ui.ts: the display helpers.
--   Session   web/app/_lib/ui.ts: the active order, the demo switch and the Compose draft in storage.
--   Identity  web/app/_lib/desk.ts: the desk's keypair, stored, imported and used to sign.
--   Engine    web/app/_lib/engine.ts: jsonOrThrow, createOrder, listOrders, getMatch.
--   Proxy     web/app/api/engine/[...path]/route.ts: engineOrigin and proxy.
--   Compose   web/app/app/_components/ComposeForm.tsx: the form as a state machine; its drafts and what
--             it shows in Compose.Draft and Compose.View.
--   Counter   web/app/app/_components/PoolBody.tsx: the demo counterparty as a state machine.
--   Pool      web/app/app/_components/PoolBody.tsx: the poll and what the screen shows.
--   Proofs    web/app/app/_components/ProofsBody.tsx: buildStages, the poll and the view.
--   Settled   web/app/app/_components/SettledBody.tsx: the poll, the view and the receipt.
--   DeskView  web/app/app/_components/DeskBody.tsx: the desk's own orders, counts, feed and view; and
--             Topbar.tsx.
--   Shell     web/app/app/_components/AuthGate.tsx, DeskFooter.tsx and SideNav.tsx.
--   Access    web/app/app/_components/AccessForm.tsx: the sign-in form.
--   Book      engine/internal/order/order.go and pairOrders of engine/internal/matcher/matcher.go.
--   Ledger    engine/internal/store/store.go over the tables of engine/db/migrations: each statement
--             that changes them is an operation, and a history is a list of operations.
--   Queries   the statements of store.go that only read, and the handlers of api.go over them.
--   Cycle     engine/internal/matcher/matcher.go: matchOnce, over Book and Ledger.
--   Intake    engine/internal/api/api.go: handleCreateOrder. The id that the database draws is an
--             argument, which is missing where the database cannot be reached.
--   Pipeline  the engine as a whole: requests, cycles and jobs over one set of tables and one contract.
--   StrKey    engine/internal/stellarkey/stellarkey.go: account addresses and the check of signatures.
--   Secret    engine/internal/secret/secret.go: sealed blobs, and a payload's blob in store.go.
--   OnChain   engine/internal/onchain/soroban.go: the calls of the stellar command line.
--   Settling  engine/internal/matcher/matcher.go: proveAndSettle, settleOnchain and the bound on
--             attempts; contracts/nyx-verifier/src/lib.rs: verify_and_settle, settle_transfer.
--   Circuit   circuits/darkpool_match.circom, and InputFor of engine/internal/prove/prove.go.
--   ProofBytes  scripts/proof_to_bytes.js: fe, g1, g2, fixtures, hex and the modes.
--   Scripts   circuits/scripts/gen_input.js and scripts/seed_demo_orders.js.
--   Live      scripts/e2e_live.mjs: the live test program, against the engine of Pipeline.
--   Browser   local storage, and objects read from JSON, as the files above use them.
--   Base      strings of UTF-16 units, decimal numerals, BigInt, JSON, UTF-8 and URI encoding.
--   Tests     the theorems at concrete inputs, and runs.
--
-- How code becomes definitions. A component's hooks and refs are the fields of a record, a handler is
-- a function on it, and storage is passed along. An asynchronous function is cut at each `await`: what
-- the network, the import or a timer comes back with is an event, so that every order of replies,
-- clicks and timers is a list of events. A call that may throw returns an `Outcome`. The polls of
-- Proofs and Settled are taken as one step of a mounted screen, with what their reads come back with
-- as arguments. JSON that the source casts to an interface is any value in Session, Identity and
-- Engine, and of the interface's type in the screens. In the engine, a job of the matcher is one step,
-- and what the prover, the network and the database do at it is its argument.
--
-- How the parts meet: Intake.Sent takes the orders that Compose sends to the engine's checks;
-- Circuit.Agreement takes the pairs of Book to the circuit; Cycle, Intake and Settling run the
-- operations of Ledger, and Pipeline runs all three; Pipeline.Provable takes what Queries loads for a
-- match of Pipeline to the circuit; Live sends its requests to Pipeline.
--
-- Parameters, for code that is not in the repository: the Poseidon hash and its import (circomlibjs),
-- circomlib's Num2Bits and LessEqThan with what is documented of them (`Circomlib`), snarkjs's reading
-- of numerals, the pairing check of a proof, the blob that a payload is stored as, signature checking,
-- the Stellar library with its documented laws (`IsStellar`), the browser's storage policy, `fetch`,
-- `encodeURIComponent` and `String(v)` where only their result is used, random bytes and clocks.
--
-- Fuel: `to_decimal n` has n + 1 steps and needs one for each digit; the JSON parser has twice the
-- length of its input and more, and reads back whatever `stringify` has written (Base.Json.Parse).
-- Proxy and Engine need none, and the loops of the engine and the scripts are recursion on their lists.
-- The waits of Live have the rounds of the source: 20 for the health check and the match, 40 for the
-- settlement.
--
-- Not modelled: fixed markup and styles, the static pages, dates, `priceFromInt` (doubles), the browser
-- smoke test; of the engine start-up, configuration, the connection pool and the worker pool's
-- channels; AES, base32, base64, ed25519 and Go's JSON; calls of snarkjs and of the stellar command
-- line; the shell scripts.
pub mod Base
pub mod Seal
pub mod Browser
pub mod Ui
pub mod Session
pub mod Identity
pub mod Engine
pub mod Proxy
pub mod Compose
pub mod Counter
pub mod Pool
pub mod Proofs
pub mod Settled
pub mod DeskView
pub mod Shell
pub mod Access
pub mod Book
pub mod Ledger
pub mod Intake
pub mod Cycle
pub mod Settling
pub mod Circuit
pub mod ProofBytes
pub mod Scripts
pub mod Tests
pub mod Pipeline
pub mod Queries
pub mod Live
pub mod StrKey
pub mod Secret
pub mod OnChain
