-- ===== src/Tests/Booking.antt =====
-- The book, the circuit, and what is taken in.
use nyx_darkpool.Base.{
  ℕ, ◌+◌, ◌*◌, ◌%◌, ◌^◌, ◌<◌, ◌≡◌, ◌↔◌, refl, Bool, true, none, some, List, [], ◌∷◌, ◌++◌, Text,
  codes, ◌===◌, filter, map, All, leb, arith, Outcome, returned, is_empty, false, length,
}
use mathlib.Core.List.{Perm}
use nyx_darkpool.Base.Decimal.{to_decimal, value, value-to_decimal}
use nyx_darkpool.Base.BigInt.{ℤ, pos}
use nyx_darkpool.Browser.{Storage}
use nyx_darkpool.Seal.{Hash, Sealed}
use nyx_darkpool.Seal.Opening.{IsOpening, IsProvable}
use nyx_darkpool.Engine.{CreateOrderBody}
use nyx_darkpool.Identity.{LoadedDesk}
use nyx_darkpool.Compose as Compose
use nyx_darkpool.Book.{
  Payload, Order, validate, set_string, is_ask, is_bid, pair_orders, pair_asks, pick, is_valid_side,
}
use nyx_darkpool.Book.Reference.{cross, ids, matching, pair_orders-matching}
use nyx_darkpool.Book.Fairness.{IsGreedy, Passed, pair_orders-IsGreedy}
use nyx_darkpool.Book.Maximal.{maker, taker, pair_orders_maximal}
use nyx_darkpool.Book.Validation.{IsWellFormed, validate-none_iff}
use nyx_darkpool.Circuit.{Circomlib, Signals, Main, signals_of, input_for, bit}
use nyx_darkpool.Circuit as Circuit
use nyx_darkpool.Circuit.Statement.{IsMatch, Main-IsMatch_iff}
use nyx_darkpool.Circuit.Agreement.{IsSealed, input_for-Main_iff, pair_orders-Main}
use nyx_darkpool.Scripts.Pair.{order_of, seed_orders-pair}
use nyx_darkpool.Scripts.{seed_orders, gen_input, mode_of, book_of}
use nyx_darkpool.Scripts.Input.{gen_input-Main_iff}
use nyx_darkpool.Ledger.{empty_db, insert_order}
use nyx_darkpool.Intake.{Server, handle_create_order, decoded, authenticated, inserted, params_of}
use nyx_darkpool.Intake.Sent.{IsKeyed, posted-inserted}
use nyx_darkpool.Intake.Laws.{
  IsAccepted, Added, handle_create_order-created, handle_create_order-refused,
}

-- A stand-in for Poseidon, below its modulus.
abbrev pub modulus : ℕ
modulus = 2 ^ 64 + 13

abbrev pub hash : Hash
hash (pos a ∷ pos b ∷ pos c ∷ []) = (a + 3 * b + 7 * c) % modulus
hash _ = 5

pub in_field : (inputs : List ℤ) → hash inputs < modulus
in_field inputs = ground arith

abbrev pub lib : Circomlib
lib = record {
  Num2Bits = λ n x. x < 2 ^ n;
  LessEqThan = λ n a b out. out ≡ bit (leb a b);
  Num2Bits_iff = λ n x h. (λ y. y, λ y. y);
  LessEqThan_iff = λ n a b out h ha hb. (λ y. y, λ y. y);
}

abbrev pub order : Text → Text → ℕ → ℕ → ℕ → Order
order id side price volume salt = record {
  id = id;
  pubkey = codes "GSAB";
  asset_pair = codes "GOLD-RWA/USDC";
  side = side;
  commitment = to_decimal (hash (pos price ∷ pos volume ∷ pos salt ∷ []));
  payload = record { price = to_decimal price; volume = to_decimal volume; salt = to_decimal salt };
}

pub order-IsSealed :
    (id side : Text) (price volume salt : ℕ)
    → price < 2 ^ 64
    → volume < 2 ^ 64
    → salt < 2 ^ 64
    → IsSealed hash (order id side price volume salt)
order-IsSealed id side price volume salt hp hv hs = record {
  price = price;
  volume = volume;
  salt = salt;
  price_text = refl;
  volume_text = refl;
  salt_text = refl;
  commitment_text = refl;
  price_fits = hp;
  volume_fits = hv;
  salt_fits = hs;
}

-- The first bid is too low, so the ask takes the second; the third is left.
abbrev pub seller : Order
seller = order (codes "a1") (codes "ask") 100 50 7

abbrev pub buyer : Order
buyer = order (codes "b2") (codes "bid") 105 50 9

abbrev book : List Order
book =
    order (codes "b1") (codes "bid") 90 50 8
    ∷ seller
    ∷ buyer
    ∷ order (codes "b3") (codes "bid") 110 50 10
    ∷ []

book_run : pair_orders book ≡ record { maker_id = codes "a1"; taker_id = codes "b2" } ∷ []
unfolding pair_orders pair_asks pick set_string to_decimal ◌===◌
book_run = refl

pair_orders-matching_example : pair_orders book ≡ map ids (matching book)
pair_orders-matching_example = pair_orders-matching book

pair_orders-IsGreedy_example :
    (ps : List (Order × Order)) × (pair_orders book ≡ map ids ps)
    × IsGreedy (filter is_ask book) (filter is_bid book) ps
pair_orders-IsGreedy_example = pair_orders-IsGreedy book

pair_orders_maximal_example :
    (ps : List (Order × Order)) × (rest left : List Order) × (pair_orders book ≡ map ids ps)
    × Perm (filter is_ask book) (map maker ps ++ rest)
    × Perm (filter is_bid book) (map taker ps ++ left)
    × All (λ p. cross (maker p) (taker p) ≡ true) ps
    × All (λ a. Passed a left) rest
pair_orders_maximal_example = pair_orders_maximal book

validate-none_iff_case : (validate buyer.payload ≡ none) ↔ IsWellFormed buyer.payload
validate-none_iff_case = validate-none_iff buyer.payload

Main-IsMatch_iff_case :
    Main lib hash (signals_of value (input_for seller buyer))
    ↔ IsMatch hash (signals_of value (input_for seller buyer))
Main-IsMatch_iff_case = Main-IsMatch_iff lib hash (signals_of value (input_for seller buyer))

pub reads : (n : ℕ) → n < modulus → value (to_decimal n) ≡ n
reads n h = value-to_decimal n

input_for-Main_iff_example :
    Main lib hash (signals_of value (input_for seller buyer)) ↔ (cross seller buyer ≡ true)
input_for-Main_iff_example =
    input_for-Main_iff lib hash value modulus (omega arith) reads in_field seller buyer
      (order-IsSealed (codes "a1") (codes "ask") 100 50 7 (omega arith) (omega arith) (omega arith))
      (order-IsSealed (codes "b2") (codes "bid") 105 50 9 (omega arith) (omega arith) (omega arith))

pair_orders-Main_case :
    (ps : List (Order × Order)) × (pair_orders (seller ∷ buyer ∷ []) ≡ map ids ps)
    × All (λ p. Main lib hash (signals_of value (input_for (maker p) (taker p)))) ps
pair_orders-Main_case =
    pair_orders-Main lib hash value modulus (omega arith) reads in_field (seller ∷ buyer ∷ []) (
      order-IsSealed (codes "a1") (codes "ask") 100 50 7 (omega arith) (omega arith) (omega arith),
      (
        order-IsSealed (codes "b2") (codes "bid") 105 50 9 (omega arith) (omega arith)
            (omega arith),
        tt,
      ),
    )

-- The form seals and sends one order.
abbrev sealed_five : Sealed
sealed_five = record {
  price_int = to_decimal 9984;
  volume_int = to_decimal 5;
  salt = to_decimal 77;
  commitment = to_decimal (hash (pos 9984 ∷ pos 5 ∷ pos 77 ∷ []));
  nullifier = to_decimal (hash (pos (hash (pos 9984 ∷ pos 5 ∷ pos 77 ∷ [])) ∷ pos 77 ∷ []));
}

five-IsOpening : IsOpening hash sealed_five 9984 5 77
five-IsOpening = record {
  price_text = refl;
  volume_text = refl;
  salt_text = refl;
  committed = refl;
  nullified = refl;
}

five-IsProvable : IsProvable 9984 5 77
five-IsProvable = record {
  price_pos = omega arith;
  price_fits = omega arith;
  volume_pos = omega arith;
  volume_fits = omega arith;
  salt_fits = omega arith;
}

abbrev desk : LoadedDesk
desk = record { label = none; public_key = codes "GSAB"; secret = codes "SAB" }

abbrev signs : Text → Text → Outcome Text
signs secret message = returned secret

abbrev part : Text → Outcome Text
part t = returned t

abbrev browser : Storage
browser = record { items = λ k. none; present = true; readable = true; accepts = λ k v. true }

abbrev clicks : List Compose.Event
clicks = Compose.settle 0 (returned sealed_five) ∷ Compose.click (some desk) ∷ []

abbrev bad_input : Circuit.Input
bad_input = record {
  maker_hash = to_decimal (hash (pos 110 ∷ pos 50 ∷ pos 111111 ∷ []));
  taker_hash = to_decimal (hash (pos 105 ∷ pos 50 ∷ pos 222222 ∷ []));
  maker_price = to_decimal 110;
  taker_price = to_decimal 105;
  maker_volume = to_decimal 50;
  taker_volume = to_decimal 50;
  maker_salt = to_decimal 111111;
  taker_salt = to_decimal 222222;
}

gen_input-Main_iff_case :
    Main lib hash (signals_of value bad_input)
    ↔ (mode_of (some (codes "bad-cross")) ≡ codes "valid")
unfolding gen_input book_of ◌===◌
gen_input-Main_iff_case =
    gen_input-Main_iff lib hash value modulus (omega arith) reads in_field
      (some (codes "bad-cross")) bad_input refl

abbrev request : CreateOrderBody
request = record {
  pubkey = codes "GSAB";
  asset_pair = codes "GOLD-RWA/USDC";
  side = codes "bid";
  price = codes "9984";
  volume = codes "5";
  salt = codes "77";
  commitment = codes "1003";
  nullifier = codes "1004";
  signature = some (codes "c2ln");
}

abbrev verifies : Text → Text → Text → Bool
verifies pubkey commitment signature = true

abbrev encode : Payload → Text
encode p = p.price ++ p.volume ++ p.salt

abbrev server : Server
server = record { has_store = true; require_order_sig = true }

handle_create_order-created_example :
    IsAccepted verifies encode server (some (codes "7")) request empty_db
    × Added verifies encode server
        (some (codes "7"))
        request
        empty_db
        (handle_create_order verifies encode server (some (codes "7")) (some request) empty_db).db
unfolding handle_create_order decoded authenticated validate set_string insert_order is_valid_side
    empty_db ◌===◌
handle_create_order-created_example =
    handle_create_order-created verifies encode server (some (codes "7")) request empty_db refl

-- The database cannot be reached: 500.
no_database_run :
    (handle_create_order verifies encode server none (some request) empty_db).code ≡ 500
unfolding handle_create_order decoded authenticated validate set_string insert_order is_valid_side
    ◌===◌
no_database_run = refl

desk-IsKeyed : IsKeyed signs part verifies hash desk
desk-IsKeyed = record { key = refl; signs = λ m sig e. (nonempty sig e, refl) }
  where
    nonempty : (sig : Text) → returned (codes "SAB") ≡ returned sig → is_empty sig ≡ false
    nonempty [] e = ground (arith, e)
    nonempty (c ∷ t) e = refl

sent_run : length (Compose.run signs part clicks (Compose.mounted, browser)).0.posted ≡ 1
unfolding Compose.run Compose.step Compose.mounted Compose.seal_settled Compose.broadcast
    Compose.send
sent_run = refl

posted-inserted_example :
    All
      (λ b.
        handle_create_order verifies encode server (some (codes "7")) (some b) empty_db
        ≡ inserted (insert_order (some (codes "7")) (params_of encode b) empty_db))
      (Compose.run signs part clicks (Compose.mounted, browser)).0.posted
posted-inserted_example =
    posted-inserted signs part verifies hash clicks browser encode server (some (codes "7"))
      empty_db ((9984, 5, 77, five-IsOpening, five-IsProvable), (desk-IsKeyed, tt)) refl

abbrev unsigned : CreateOrderBody
unsigned = record request { signature = none }

not_created : ◌≡◌ {A = ℕ} 401 201 → ⊥
not_created e = absurd (omega arith)

handle_create_order-refused_case :
    (handle_create_order verifies encode server (some (codes "7")) (some unsigned) empty_db).db
    ≡ empty_db
unfolding handle_create_order decoded authenticated validate set_string insert_order is_valid_side
    empty_db ◌===◌
handle_create_order-refused_case =
    handle_create_order-refused verifies encode server (some (codes "7")) (some unsigned) empty_db
      not_created

abbrev salt_bytes : List ℕ
salt_bytes = 1 ∷ 2 ∷ 3 ∷ 4 ∷ 5 ∷ 6 ∷ 7 ∷ 255 ∷ []

seed_orders-pair_case :
    (ask bid : CreateOrderBody) × (seed_orders hash none salt_bytes salt_bytes
      ≡ returned (ask, bid))
    × (ask.asset_pair ≡ bid.asset_pair)
    × (pair_orders (order_of (codes "x") ask ∷ order_of (codes "y") bid ∷ [])
        ≡ record { maker_id = codes "x"; taker_id = codes "y" } ∷ [])
seed_orders-pair_case =
    seed_orders-pair hash none salt_bytes salt_bytes (codes "x") (codes "y") (omega arith)
      (omega arith) refl refl
