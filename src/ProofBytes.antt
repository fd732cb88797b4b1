-- ===== src/ProofBytes.antt =====
-- scripts/proof_to_bytes.js: field elements and curve points of a Groth16 proof as bytes, the fixture
-- files of the contract's tests, and the hexadecimal form for the engine.
-- The JSON of a proof, of its public signals and of a verifying key is of the shape that snarkjs
-- writes: decimal texts, in lists of any length. A file that a run writes is its name and its bytes.
pub mod Element
pub mod Point
pub mod Hex
pub mod Fixtures
pub mod Mode
use nyx_darkpool.Base.{
  ℕ, zero, suc, ◌+◌, ◌-◌, ◌*◌, ◌/◌, ◌%◌, ◌^◌, Bool, true, false, Option, none, some, List, [], ◌∷◌,
  ◌++◌, Text, codes, ◌===◌, ◌==◌, ltb, if◌then◌else◌, is_empty, length, map, reverse, Outcome,
  returned, threw, ◌>>=◌,
}
use nyx_darkpool.Base.Decimal.{to_decimal}
use nyx_darkpool.Base.BigInt.{ℤ, pos, negsuc, big_int}

abbrev pub Bytes : Type 0
Bytes = List ℕ

-- `G2_ORDERING` and `FE_ENDIAN` of the environment: an empty variable counts as none.
pub record Env : Type 0 where
  pub g2_ordering : Option Text
  pub fe_endian : Option Text

abbrev pub or_default : Option Text → Text → Text
or_default none d = d
or_default (some s) d = if is_empty s then d else s

abbrev pub g2_ordering_of : Env → Text
g2_ordering_of env = or_default env.g2_ordering (codes "c1c0")

abbrev pub fe_endian_of : Env → Text
fe_endian_of env = or_default env.fe_endian (codes "big")

abbrev pub is_little : Env → Bool
is_little env = fe_endian_of env === codes "little"

abbrev pub is_c1c0 : Env → Bool
is_c1c0 env = g2_ordering_of env === codes "c1c0"

abbrev pub negative : Text → Text
negative dec = codes "negative field element: " ++ dec

abbrev pub too_long : Text → Text
too_long dec = codes "field element exceeds 32 bytes: " ++ dec

-- The loop of `fe`: the bytes `i` to 0, and what is left of the number. `n & 0xffn` and `n >>= 8n`.
unfoldable pub fill : ℕ → ℕ → Bytes → Bytes × ℕ
fill zero n b = (b, n)
fill (suc i) n b = fill i (n / 2 ^ 8) ((n % 2 ^ 8) ∷ b)

abbrev pub in_order : Env → Bytes → Bytes
in_order env b = if is_little env then reverse b else b

abbrev pub fe_of : Env → Text → Bytes × ℕ → Outcome Bytes
fe_of env dec (b, n) = if n == 0 then returned (in_order env b) else threw (too_long dec)

abbrev pub fe_int : Env → Text → ℤ → Outcome Bytes
fe_int env dec (negsuc n) = threw (negative dec)
fe_int env dec (pos n) = fe_of env dec (fill 32 n [])

unfoldable pub fe : Env → Text → Outcome Bytes
fe env dec = big_int dec >>= λ n. fe_int env dec n

-- `p[i]`.
abbrev pub item {ℓ} : {A : Type ℓ} → List A → ℕ → Option A
item [] i = none
item (a ∷ l) zero = some a
item (a ∷ l) (suc i) = item l i

-- `fe(p[i])`: `BigInt(undefined)` throws.
abbrev pub fe_item : Env → Option Text → Outcome Bytes
fe_item env none = threw (codes "Cannot convert undefined to a BigInt")
fe_item env (some dec) = fe env dec

-- `Buffer.concat([f(), g()])`.
abbrev pub concat : Outcome Bytes → Outcome Bytes → Outcome Bytes
concat f g = f >>= λ x. g >>= λ y. returned (x ++ y)

unfoldable pub g1 : Env → List Text → Outcome Bytes
g1 env p = concat (fe_item env (item p 0)) (fe_item env (item p 1))

-- `fp2(c)`; `c` may be undefined, and which limb is read of it first depends on the order.
abbrev pub fp2 : Env → Option (List Text) → Outcome Bytes
fp2 env none = threw (
    codes "Cannot read properties of undefined (reading '"
    ++ (if is_c1c0 env then codes "1" else codes "0")
    ++ codes "')")
fp2 env (some c) =
    if is_c1c0 env
    then concat (fe_item env (item c 1)) (fe_item env (item c 0))
    else concat (fe_item env (item c 0)) (fe_item env (item c 1))

unfoldable pub g2 : Env → List (List Text) → Outcome Bytes
g2 env p = concat (fp2 env (item p 0)) (fp2 env (item p 1))

pub record Proof : Type 0 where
  pub pi_a : List Text
  pub pi_b : List (List Text)
  pub pi_c : List Text

pub record VerifyingKey : Type 0 where
  pub vk_alpha_1 : List Text
  pub vk_beta_2 : List (List Text)
  pub vk_gamma_2 : List (List Text)
  pub vk_delta_2 : List (List Text)
  pub ic : List (List Text)

-- A run of `fixtures`: the files it has written, in order, and the error that ended it.
pub record Run : Type 0 where
  pub files : List (Text × Bytes)
  pub error : Option Text

abbrev pub finished : Run
finished = record { files = []; error = none }

abbrev pub stopped : Text → Run
stopped e = record { files = []; error = some e }

-- `const x = f(); ...` and `fs.writeFileSync(name, f()); ...`.
abbrev pub bind : Outcome Bytes → (Bytes → Run) → Run
bind (threw e) rest = stopped e
bind (returned b) rest = rest b

abbrev pub wrote : Text → Bytes → Run → Run
wrote name b rest = record { files = (name, b) ∷ rest.files; error = rest.error }

abbrev pub write : Text → Outcome Bytes → Run → Run
write name f rest = bind f (λ b. wrote name b rest)

abbrev pub check : Bool → Text → Run → Run
check ok message rest = if ok then rest else stopped message

-- `list.forEach((v, i) => fs.writeFileSync(name(i), f(v)))`, from the index `i`.
unfoldable pub write_each : {A : Type 0} → (ℕ → Text) → (A → Outcome Bytes) → ℕ → List A → Run → Run
write_each name f i [] rest = rest
write_each name f i (v ∷ l) rest = write (name i) (f v) (write_each name f (suc i) l rest)

abbrev pub public_name : ℕ → Text
public_name i = codes "public_" ++ to_decimal i ++ codes ".bin"

abbrev pub ic_name : ℕ → Text
ic_name i = codes "vk_ic" ++ to_decimal i ++ codes "_g1.bin"

abbrev pub write_key : Env → VerifyingKey → Run
write_key env vk =
    check (length vk.ic == 3) (codes "expected 3 IC points, got " ++ to_decimal (length vk.ic)) (
      write (codes "vk_alpha_g1.bin") (g1 env vk.vk_alpha_1) (
        write (codes "vk_beta_g2.bin") (g2 env vk.vk_beta_2) (
          write (codes "vk_gamma_g2.bin") (g2 env vk.vk_gamma_2) (
            write (codes "vk_delta_g2.bin") (g2 env vk.vk_delta_2)
              (write_each ic_name (g1 env) 0 vk.ic finished)))))

abbrev pub write_proof : Bytes → Bytes → Bytes → Run → Run
write_proof a b c rest = check (length a == 64) (codes "proof_a != 64 bytes") (
    check (length b == 128) (codes "proof_b != 128 bytes") (
      check (length c == 64) (codes "proof_c != 64 bytes") (
        wrote (codes "proof_a.bin") a
          (wrote (codes "proof_b.bin") b (wrote (codes "proof_c.bin") c rest)))))

unfoldable pub fixtures : Env → Proof → List Text → VerifyingKey → Run
fixtures env proof public vk = bind (g1 env proof.pi_a) λ a. bind (g2 env proof.pi_b) λ b.
    bind (g1 env proof.pi_c)
      λ c. write_proof a b c (write_each public_name (fe env) 0 public (write_key env vk))

-- `b.toString("hex")` behind `0x`.
abbrev pub hex_digit : ℕ → ℕ
hex_digit d = if ltb d 10 then b'0' + d else b'a' + (d - 10)

unfoldable pub hex_of : Bytes → Text
hex_of [] = []
hex_of (b ∷ bs) = hex_digit (b / 16) ∷ hex_digit (b % 16) ∷ hex_of bs

abbrev pub h : Bytes → Text
h b = codes "0x" ++ hex_of b

pub record HexProof : Type 0 where
  pub proof_a : Text
  pub proof_b : Text
  pub proof_c : Text
  pub public : List Text

-- `pub.map((v) => h(fe(v)))`, which the first error ends.
unfoldable pub hex_each : Env → List Text → Outcome (List Text)
hex_each env [] = returned []
hex_each env (v ∷ l) = fe env v >>= λ b. hex_each env l >>= λ rest. returned (h b ∷ rest)

-- The body of `hex` behind its arguments, up to the text of the object.
unfoldable pub hex : Env → Proof → List Text → Outcome HexProof
hex env proof public = g1 env proof.pi_a >>= λ a. g2 env proof.pi_b >>= λ b.
    g1 env proof.pi_c >>= λ c. hex_each env public >>= λ signals.
    returned (record { proof_a = h a; proof_b = h b; proof_c = h c; public = signals })
