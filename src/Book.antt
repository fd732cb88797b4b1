-- ===== src/Book.antt =====
-- engine/internal/order/order.go, and pairOrders of engine/internal/matcher/matcher.go: the orders that
-- rest in the engine's book, the checks on their private values, and how they are paired. A side is
-- any text here, as it is in the source.
pub mod Reference
pub mod Fairness
pub mod Maximal
pub mod Validation
use nyx_darkpool.Base.{
  ℕ, ◌-◌, ◌^◌, Bool, true, false, ◌&&◌, not, Option, none, some, List, [], ◌∷◌, Text, codes, ◌===◌,
  ◌==◌, if◌then◌else◌, ltb, leb, all, is_digit, is_empty, filter, map,
}
use nyx_darkpool.Base.Decimal.{value}
use nyx_darkpool.Base.BigInt.{ℤ, pos, negsuc}

pub record Payload : Type 0 where
  pub price : Text
  pub volume : Text
  pub salt : Text

pub record Order : Type 0 where
  pub id : Text
  pub pubkey : Text
  pub asset_pair : Text
  pub side : Text
  pub commitment : Text
  pub payload : Payload

-- `Side.Valid`.
unfoldable pub is_valid_side : Text → Bool
is_valid_side s = if s === codes "bid" then true else s === codes "ask"

-- The digits of a base-10 integer, one at least.
abbrev pub unsigned : Text → Option ℕ
unsigned s = if is_empty s then none else if all is_digit s then some (value s) else none

abbrev pub minus : Option ℕ → Option ℤ
minus none = none
minus (some n) = some (if n == 0 then pos 0 else negsuc (n - 1))

abbrev pub plus : Option ℕ → Option ℤ
plus none = none
plus (some n) = some (pos n)

-- `new(big.Int).SetString(s, 10)`: a sign may stand before the digits.
unfoldable pub set_string : Text → Option ℤ
set_string [] = none
set_string (c ∷ s) =
    if c == b'-'
    then minus (unsigned s)
    else if c == b'+'
    then plus (unsigned s)
    else plus (unsigned (c ∷ s))

abbrev pub max : ℕ
max = 2 ^ 64

-- `Sign() > 0` and `Cmp(max) < 0`.
abbrev pub in_range : ℤ → Bool
in_range (pos n) = ltb 0 n && ltb n max
in_range (negsuc n) = false

pub data Invalid : Type 0 where
  bad_price price_out_of_range bad_volume volume_out_of_range bad_salt : Invalid

-- `Payload.Validate`; `none` is a nil error.
abbrev pub check_salt : Option ℤ → Option Invalid
check_salt none = some bad_salt
check_salt (some salt) = none

abbrev pub check_volume : Option ℤ → Option Invalid → Option Invalid
check_volume none rest = some bad_volume
check_volume (some v) rest = if in_range v then rest else some volume_out_of_range

abbrev pub check_price : Option ℤ → Option Invalid → Option Invalid
check_price none rest = some bad_price
check_price (some p) rest = if in_range p then rest else some price_out_of_range

unfoldable pub validate : Payload → Option Invalid
validate p =
    check_price (set_string p.price)
      (check_volume (set_string p.volume) (check_salt (set_string p.salt)))

abbrev pub price_int : Order → Option ℤ
price_int o = set_string o.payload.price

abbrev pub volume_int : Order → Option ℤ
volume_int o = set_string o.payload.volume

-- `Cmp(…) <= 0` and `Cmp(…) == 0`.
abbrev pub leb_int : ℤ → ℤ → Bool
leb_int (pos m) (pos n) = leb m n
leb_int (pos m) (negsuc n) = false
leb_int (negsuc m) (pos n) = true
leb_int (negsuc m) (negsuc n) = leb n m

abbrev pub eq_int : ℤ → ℤ → Bool
eq_int (pos m) (pos n) = m == n
eq_int (negsuc m) (negsuc n) = m == n
eq_int _ _ = false

pub record MatchPair : Type 0 where
  pub maker_id : Text
  pub taker_id : Text

-- The bids with their `used` flags.
abbrev pub Slots : Type 0
Slots = List (Order × Bool)

-- The condition of the inner loop, once the ask's numbers are read.
abbrev pub takes : ℤ → ℤ → Option ℤ → Option ℤ → Bool
takes ap av (some bp) (some bv) = leb_int ap bp && eq_int av bv
takes ap av _ _ = false

-- The inner loop: the first unused bid that crosses is marked, and its id is returned.
unfoldable pub pick : ℤ → ℤ → Slots → Option (Text × Slots)
pick ap av [] = none
pick ap av ((b, used) ∷ slots) =
    let rest : Option (Text × Slots) = elim (pick ap av slots) [
      | none ↦ none
      | some (id, slots') ↦ some (id, (b, used) ∷ slots')
    ] in
    if used
    then rest
    else if takes ap av (price_int b) (volume_int b)
    then some (b.id, (b, true) ∷ slots)
    else rest

-- The outer loop: an ask whose numbers cannot be read is passed over.
abbrev pub pick_for : Option ℤ → Option ℤ → Slots → Option (Text × Slots)
pick_for (some ap) (some av) slots = pick ap av slots
pick_for _ _ slots = none

unfoldable pub pair_asks : List Order → Slots → List MatchPair
pair_asks [] slots = []
pair_asks (ask ∷ asks) slots = elim (pick_for (price_int ask) (volume_int ask) slots) [
  | none ↦ pair_asks asks slots
  | some (id, slots') ↦ record { maker_id = ask.id; taker_id = id } ∷ pair_asks asks slots'
]

abbrev pub is_ask : Order → Bool
is_ask o = o.side === codes "ask"

abbrev pub is_bid : Order → Bool
is_bid o = o.side === codes "bid"

abbrev pub unused : Order → Order × Bool
unused b = (b, false)

unfoldable pub pair_orders : List Order → List MatchPair
pair_orders orders = pair_asks (filter is_ask orders) (map unused (filter is_bid orders))
