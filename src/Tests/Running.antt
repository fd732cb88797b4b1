-- ===== src/Tests/Running.antt =====
-- The engine as a whole, what it lists, and the live test program.
use nyx_darkpool.Base.{
  ℕ, ◌+◌, ◌*◌, ◌≤◌, ◌≡◌, refl, true, false, Option, some, List, [], ◌∷◌, ◌++◌, Text, codes, ◌===◌,
  ◌==◌, if◌then◌else◌, any, map, take, reverse, length, arith, Outcome, returned, threw, replicate,
}
use nyx_darkpool.Base.Decimal.{to_decimal, value}
use nyx_darkpool.Base.BigInt.{pos}
use nyx_darkpool.Seal.{Hash}
use nyx_darkpool.Engine.{CreateOrderBody}
use nyx_darkpool.Book.{
  Payload, Order, validate, set_string, pair_orders, pair_asks, pick, is_valid_side,
}
use nyx_darkpool.Circuit.{Main, signals_of, input_for}
use nyx_darkpool.Ledger.{empty_db, insert_order, create_match, open_orders}
use nyx_darkpool.Ledger.Counts.{count}
use nyx_darkpool.Ledger.Once.{IsSound}
use nyx_darkpool.Intake.{handle_create_order, decoded, authenticated}
use nyx_darkpool.Cycle.{Draw, match_once, match_pairs}
use nyx_darkpool.Cycle.Complete.{made, updated_all, match_once_complete}
use nyx_darkpool.Cycle.Quiet.{match_once_exhausts}
use nyx_darkpool.Settling.{World}
use nyx_darkpool.Queries.{match_orders, order_by_id, parties_of, order_of, list_orders, open_pairs}
use nyx_darkpool.Queries.Loading.{IsLoaded}
use nyx_darkpool.Queries.Listing.{looked_up, list_orders-lookup}
use nyx_darkpool.Queries.Pairs.{is_open_in, open_pairs-once}
use nyx_darkpool.Pipeline.{Setup, Event, post, cycle, step, run}
use nyx_darkpool.Pipeline.Paired.{ArePaired, run-ArePaired}
use nyx_darkpool.Pipeline.Sound.{run-IsSound_world}
use nyx_darkpool.Pipeline.Provable.{run-IsLoaded, run-Main}
use nyx_darkpool.Pipeline.Replay.{IsReplayed, replay-refused}
use nyx_darkpool.StrKey as StrKey
use nyx_darkpool.StrKey.{
  Bytes, GoCodecs, is_verified, verify, decode_raw, raw_of, crc16_xmodem, crc_bit,
}
use nyx_darkpool.StrKey.Signed.{IsSignedBy, created-IsSignedBy}
use nyx_darkpool.Live as Live
use nyx_darkpool.Live.{
  Desk, Done, done, duplicate_body, volume_bid, volume_ask, isolation_bid, isolation_ask,
  order_body, sealed, unsigned_test, bad_side_test, empty_test, duplicate_test, apart_test,
  run_tests, exit_code,
}
use nyx_darkpool.Live.Refusals.{IsTaken, refusals-pass, duplicate_test-passes}
use nyx_darkpool.Live.Apart.{apart_test-passes}
use nyx_darkpool.Tests.Booking.{modulus, hash, in_field, lib, reads, seller, buyer, order-IsSealed}

-- A payload is stored with a separator between its texts.
abbrev encode : Payload → Text
encode p = p.price ++ 124 ∷ p.volume ++ 124 ∷ p.salt

abbrev cut : Text → Text × Text
cut [] = ([], [])
cut (c ∷ t) = let (a, b) = cut t in if c == 124 then ([], t) else (c ∷ a, b)

abbrev decode : Text → Option Payload
decode t =
    let (price, rest) = cut t in
    let (volume, salt) = cut rest in some (record { price = price; volume = volume; salt = salt })

abbrev setup : Setup
setup = record {
  server = record { has_store = true; require_order_sig = true };
  config = record { proving = true; onchain = true };
  check_signature = λ pubkey commitment signature. true;
  encode = encode;
  decode = decode;
  verify = λ points public. true;
}

abbrev start : World
start = record { db = empty_db; contract = []; failures = []; calls = [] }

abbrev body_of : Order → Text → CreateOrderBody
body_of o nullifier = record {
  pubkey = o.pubkey;
  asset_pair = o.asset_pair;
  side = o.side;
  price = o.payload.price;
  volume = o.payload.volume;
  salt = o.payload.salt;
  commitment = o.commitment;
  nullifier = nullifier;
  signature = some (codes "c2ln");
}

abbrev draw : Draw
draw p = (false, codes "m1")

abbrev posts : List Event
posts =
    post (some (codes "b2")) (some (body_of buyer (codes "12")))
    ∷ post (some (codes "a1")) (some (body_of seller (codes "11")))
    ∷ []

-- A bid and an ask are posted and paired, and the ask is posted again.
abbrev day : List Event
day =
    post (some (codes "b2")) (some (body_of buyer (codes "12")))
    ∷ post (some (codes "a1")) (some (body_of seller (codes "11")))
    ∷ cycle draw (codes "GOLD-RWA/USDC" ∷ [])
    ∷ post (some (codes "a2")) (some (body_of seller (codes "11")))
    ∷ []

run-ArePaired_example : ArePaired decode (run setup day start).db
unfolding empty_db
run-ArePaired_example = run-ArePaired setup day start refl

run-IsLoaded_example : IsLoaded decode (match_orders decode (codes "m1") (run setup day start).db)
unfolding run step handle_create_order decoded authenticated validate set_string insert_order
    is_valid_side empty_db match_once match_pairs create_match open_orders pair_orders pair_asks
    pick ◌===◌ to_decimal
run-IsLoaded_example = run-IsLoaded setup day start (codes "m1") refl refl

run-Main_example : Main lib hash (signals_of value (input_for seller buyer))
unfolding run step handle_create_order decoded authenticated validate set_string insert_order
    is_valid_side empty_db match_once match_pairs create_match open_orders pair_orders pair_asks
    pick match_orders order_by_id parties_of order_of ◌===◌ to_decimal
run-Main_example =
    run-Main lib hash value modulus (omega arith) reads in_field setup day start (codes "m1") seller
      buyer refl refl
      (order-IsSealed (codes "a1") (codes "ask") 100 50 7 (omega arith) (omega arith) (omega arith))
      (order-IsSealed (codes "b2") (codes "bid") 105 50 9 (omega arith) (omega arith) (omega arith))

replay-refused_example :
    IsReplayed setup
      (codes "x")
      (body_of buyer (codes "12"))
      (run setup day
        (step setup (post (some (codes "b2")) (some (body_of buyer (codes "12")))) start)).db
unfolding handle_create_order decoded authenticated validate set_string insert_order is_valid_side
    empty_db ◌===◌ to_decimal
replay-refused_example =
    replay-refused setup day start (some (codes "b2")) (codes "x") (body_of buyer (codes "12")) refl

start-IsSound : IsSound empty_db
unfolding run
start-IsSound = run-IsSound_world setup [] start refl

list_orders-lookup_example :
    list_orders 5 (run setup day start).db
    ≡ take 5
        (map (looked_up (run setup day start).db.matches) (reverse (run setup day start).db.orders))
list_orders-lookup_example =
    list_orders-lookup 5 (run setup day start).db (run-IsSound_world setup day start refl)

open_pairs-once_example :
    (any (λ p. p === codes "GOLD-RWA/USDC") (open_pairs (run setup posts start).db.orders)
      ≡ any (is_open_in (codes "GOLD-RWA/USDC")) (run setup posts start).db.orders)
    × (count (λ p. p === codes "GOLD-RWA/USDC") (open_pairs (run setup posts start).db.orders) ≤ 1)
open_pairs-once_example = open_pairs-once (codes "GOLD-RWA/USDC") (run setup posts start).db.orders

abbrev gold : Text
gold = codes "GOLD-RWA/USDC"

match_once_complete_example :
    ((match_once decode draw (gold ∷ []) (run setup posts start).db).0
      ≡ length (pair_orders (open_orders decode gold (run setup posts start).db.orders)))
    × ((match_once decode draw (gold ∷ []) (run setup posts start).db).1.matches
        ≡ (run setup posts start).db.matches
          ++ map
              (made draw)
              (pair_orders (open_orders decode gold (run setup posts start).db.orders)))
    × ((match_once decode draw (gold ∷ []) (run setup posts start).db).1.orders
        ≡ updated_all
            (pair_orders (open_orders decode gold (run setup posts start).db.orders))
            (run setup posts start).db.orders)
unfolding run step handle_create_order decoded authenticated validate set_string insert_order
    is_valid_side empty_db open_orders pair_orders pair_asks pick ◌===◌ to_decimal
match_once_complete_example =
    match_once_complete decode draw gold (run setup posts start).db
      (run-IsSound_world setup posts start refl) (refl, refl, tt)

match_once_exhausts_example :
    (pair_orders (
        open_orders decode gold
          (match_once decode draw (gold ∷ []) (run setup posts start).db).1.orders)
      ≡ [])
    × (match_once decode draw
          (gold ∷ [])
          (match_once decode draw (gold ∷ []) (run setup posts start).db).1
        ≡ (0, (match_once decode draw (gold ∷ []) (run setup posts start).db).1))
unfolding run step handle_create_order decoded authenticated validate set_string insert_order
    is_valid_side empty_db open_orders pair_orders pair_asks pick ◌===◌ to_decimal
match_once_exhausts_example =
    match_once_exhausts decode gold draw draw (run setup posts start).db
      (run-IsSound_world setup posts start refl) (refl, refl, tt)

-- An address is read as its bytes, and a signature is 64 of them.
abbrev go : GoCodecs
go = record {
  b32_decode = λ addr. some addr;
  b32_encode = λ raw. raw;
  b64_decode = λ sig. some (replicate 64 1);
  verify = λ key message signature. true;
}

abbrev account : Bytes
account = replicate 32 0

abbrev signed_body : CreateOrderBody
signed_body = record (body_of seller (codes "11")) { pubkey = raw_of account }

created-IsSignedBy_example : IsSignedBy go (raw_of account) seller.commitment (codes "c2ln")
unfolding handle_create_order decoded authenticated validate set_string insert_order is_valid_side
    empty_db is_verified verify StrKey.decode decode_raw raw_of crc16_xmodem crc_bit ◌===◌
    to_decimal
created-IsSignedBy_example =
    created-IsSignedBy go encode (setup.server) (some (codes "a1")) signed_body empty_db refl refl

-- The live test program against this engine.
abbrev two_or_three : Hash
two_or_three (pos a ∷ pos b ∷ pos c ∷ []) = a + 3 * b + 7 * c
two_or_three (pos a ∷ pos b ∷ []) = 5 * a + b
two_or_three _ = 5

abbrev desk : Desk
desk = record { public_key = codes "GTEST"; sign = λ commitment. codes "c2ln" }

abbrev bytes : List ℕ
bytes = 1 ∷ 2 ∷ 3 ∷ 4 ∷ 5 ∷ 6 ∷ 7 ∷ 255 ∷ []

refusals-pass_example :
    (unsigned_test setup two_or_three desk bytes (codes "u") (run setup day start) ≡ returned done)
    × (bad_side_test setup two_or_three desk bytes (codes "u") (run setup day start)
        ≡ returned done)
    × (empty_test setup (codes "u") (run setup day start) ≡ returned done)
refusals-pass_example =
    refusals-pass setup two_or_three desk bytes (codes "u") (run setup day start)
      (record { has_store = refl; requires = refl }) refl

duplicate-IsTaken : IsTaken setup (codes "d") (duplicate_body two_or_three desk bytes) start
unfolding order_body sealed is_valid_side empty_db ◌===◌ to_decimal
duplicate-IsTaken = record {
  has_store = refl;
  key = refl;
  signed = refl;
  verified = refl;
  admitted = refl;
  new_id = refl;
  new_nullifier = refl;
}

duplicate_test-passes_example :
    duplicate_test setup two_or_three desk bytes (codes "d") (codes "e") day start ≡ returned done
duplicate_test-passes_example =
    duplicate_test-passes setup two_or_three desk bytes (codes "d") (codes "e") day start
      duplicate-IsTaken

abbrev other_bytes : List ℕ
other_bytes = 1 ∷ 2 ∷ []

abbrev waiting : List Event
waiting = cycle draw (codes "ZZ-E2E-VOL/USDC" ∷ []) ∷ []

apart_test-passes_example :
    apart_test setup
      (volume_bid two_or_three desk bytes)
      (volume_ask two_or_three desk other_bytes)
      (codes "v")
      (codes "w")
      []
      waiting
      waiting
      start
    ≡ returned done
unfolding Live.post order_body sealed run step handle_create_order decoded authenticated validate
    set_string insert_order is_valid_side empty_db match_once match_pairs create_match open_orders
    pair_orders pair_asks pick order_of ◌===◌ to_decimal
apart_test-passes_example =
    apart_test-passes setup (volume_bid two_or_three desk bytes)
      (volume_ask two_or_three desk other_bytes) (codes "v") (codes "w") [] waiting waiting start
      start-IsSound tt refl refl refl refl

abbrev outcomes : List (Text × Outcome Done)
outcomes = (codes "a", returned done) ∷ (codes "b", threw (codes "no")) ∷ []

exit_code_run : exit_code (run_tests outcomes []) ≡ 1
unfolding exit_code Live.test
exit_code_run = refl
