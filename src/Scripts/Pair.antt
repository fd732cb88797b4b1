-- ===== src/Scripts/Pair.antt =====
-- The seeded orders and the rule of the matcher.
use nyx_darkpool.Base.{
  ℕ, ◌<◌, ◌≡◌, refl, sym, ◌∙◌, Option, none, [], ◌∷◌, Text, codes, ◌===◌, arith, All, length, ◌≢◌,
  ◌/◌, ◌%◌, is_space, cons-ne-nil, Outcome, returned, subst, >>=-eq-returned,
}
use nyx_darkpool.Base.Decimal.{to_decimal}
use nyx_darkpool.Base.BigInt.{pos, big_int, big_int-to_decimal, big_int_of_hex, IsHexDigit}
use nyx_darkpool.Seal.{Hash}
use nyx_darkpool.Engine.{CreateOrderBody}
use nyx_darkpool.Book.{Order, pair_orders, pair_asks, pick, set_string}
use nyx_darkpool.Book.Validation.{payload_of}
use nyx_darkpool.ProofBytes.{Bytes, hex_digit, hex_of}
use nyx_darkpool.Scripts.{random_salt, mk_order, seed_orders, pair_of}

-- The order that the engine keeps of a body.
abbrev pub order_of : Text → CreateOrderBody → Order
order_of id b = record {
  id = id;
  pubkey = b.pubkey;
  asset_pair = b.asset_pair;
  side = b.side;
  commitment = b.commitment;
  payload = payload_of b;
}

-- The texts of a body that the matcher reads.
abbrev pub HasTexts : Text → Text → ℕ → ℕ → CreateOrderBody → Type 0
HasTexts asset_pair side price volume b =
    (b.asset_pair ≡ asset_pair)
    × (b.side ≡ side)
    × (b.price ≡ to_decimal price)
    × (b.volume ≡ to_decimal volume)

returned-inj :
    (x y : CreateOrderBody) → ◌≡◌ {A = Outcome CreateOrderBody} (returned x) (returned y) → x ≡ y
returned-inj x y q = ground (arith, q)

mk_order-HasTexts :
    (hash : Hash) (asset_pair side : Text) (price volume : ℕ) (bytes : Bytes) (b : CreateOrderBody)
    → mk_order hash asset_pair side price volume bytes ≡ returned b
    → HasTexts asset_pair side price volume b
unfolding mk_order
mk_order-HasTexts hash asset_pair side price volume bytes b h =
    let (salt, e, h') = >>=-eq-returned (random_salt bytes) _ h in
    let (value, e', h'') = >>=-eq-returned (big_int salt) _ h' in
    let (committed, e'', h''') = >>=-eq-returned (big_int _) _ h'' in
    subst (HasTexts asset_pair side price volume) (returned-inj _ b h''') (refl, refl, refl, refl)

pairs-one :
    (x y : Text) (a b : CreateOrderBody)
    → a.side ≡ codes "ask"
    → b.side ≡ codes "bid"
    → a.price ≡ to_decimal 100
    → b.price ≡ to_decimal 105
    → a.volume ≡ to_decimal 50
    → b.volume ≡ to_decimal 50
    → pair_orders (order_of x a ∷ order_of y b ∷ []) ≡ record { maker_id = x; taker_id = y } ∷ []
unfolding pair_orders pair_asks pick ◌===◌ set_string to_decimal
pairs-one x y a b ask bid pa pb va vb = rw (ask, bid, pa, pb, va, vb) refl

hex_digit-IsHexDigit : (d : ℕ) → d < 16 → IsHexDigit (hex_digit d)
unfolding is_space
hex_digit-IsHexDigit d h = ground arith

hex_of-IsHexDigit : (b : Bytes) → All (λ c. c < 256) b → All IsHexDigit (hex_of b)
unfolding hex_of
hex_of-IsHexDigit [] h = tt
hex_of-IsHexDigit (c ∷ b) (lt, h) = (
  hex_digit-IsHexDigit (c / 16) (omega arith),
  (hex_digit-IsHexDigit (c % 16) (omega arith), hex_of-IsHexDigit b h),
)

hex_of-ne-nil : (b : Bytes) → length b ≡ 8 → hex_of b ≢ []
unfolding hex_of
hex_of-ne-nil [] eight e = absurd (omega (arith, eight))
hex_of-ne-nil (c ∷ b) eight e = cons-ne-nil _ _ e

-- Eight bytes give a salt, which is a numeral.
random_salt_total :
    (bytes : Bytes)
    → All (λ c. c < 256) bytes
    → length bytes ≡ 8
    → (n : ℕ) × (random_salt bytes ≡ returned (to_decimal n))
unfolding random_salt
random_salt_total bytes h eight =
    let (n, e) =
      big_int_of_hex (hex_of bytes) (hex_of-IsHexDigit bytes h) (hex_of-ne-nil bytes eight) in
    (n, rw e refl)

-- The body with the salt `n`.
abbrev body_of : Hash → Text → Text → ℕ → ℕ → ℕ → CreateOrderBody
body_of hash asset_pair side price volume n =
    let commitment = hash (pos price ∷ pos volume ∷ pos n ∷ []) in
    record {
      pubkey = codes "GSEED-DEMO-DESK";
      asset_pair = asset_pair;
      side = side;
      price = to_decimal price;
      volume = to_decimal volume;
      salt = to_decimal n;
      commitment = to_decimal commitment;
      nullifier = to_decimal (hash (pos commitment ∷ pos n ∷ []));
      signature = none;
    }

mk_order_total :
    (hash : Hash) (asset_pair side : Text) (price volume : ℕ) (bytes : Bytes)
    → All (λ c. c < 256) bytes
    → length bytes ≡ 8
    → (b : CreateOrderBody) × (mk_order hash asset_pair side price volume bytes ≡ returned b)
unfolding mk_order
mk_order_total hash asset_pair side price volume bytes h eight =
    let (n, e) = random_salt_total bytes h eight in
    (
      body_of hash asset_pair side price volume n,
      rw (e, big_int-to_decimal n, big_int-to_decimal (hash (pos price ∷ pos volume ∷ pos n ∷ [])))
          refl,
    )

-- Whatever the bytes of the two salts, eight each, and the pair of the environment: the script makes two
-- orders of one pair, and the matcher pairs the first, as the maker, with the second.
pub seed_orders-pair :
    (hash : Hash) (env : Option Text) (bytes bytes' : Bytes) (x y : Text)
    → All (λ c. c < 256) bytes
    → All (λ c. c < 256) bytes'
    → length bytes ≡ 8
    → length bytes' ≡ 8
    → (ask bid : CreateOrderBody) × (seed_orders hash env bytes bytes' ≡ returned (ask, bid))
      × (ask.asset_pair ≡ bid.asset_pair)
      × (pair_orders (order_of x ask ∷ order_of y bid ∷ [])
          ≡ record { maker_id = x; taker_id = y } ∷ [])
unfolding seed_orders
seed_orders-pair hash env bytes bytes' x y h h' eight eight' =
    let (a, ea) = mk_order_total hash (pair_of env) (codes "ask") 100 50 bytes h eight in
    let (b, eb) = mk_order_total hash (pair_of env) (codes "bid") 105 50 bytes' h' eight' in
    let (pa, sa, ra, va) = mk_order-HasTexts hash (pair_of env) (codes "ask") 100 50 bytes a ea in
    let (pb, sb, rb, vb) = mk_order-HasTexts hash (pair_of env) (codes "bid") 105 50 bytes' b eb in
    (a, b, rw (ea, eb) refl, pa ∙ sym pb, pairs-one x y a b sa sb ra rb va vb)
