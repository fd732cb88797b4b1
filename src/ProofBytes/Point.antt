-- ===== src/ProofBytes/Point.antt =====
-- Curve points as bytes: the order of the limbs, and the sizes.
use nyx_darkpool.Base.{
  ℕ, ◌^◌, ◌<◌, ◌≡◌, refl, true, false, Option, none, some, List, ◌++◌, Text, arith, length,
  length-append, Bool-cases, inl, inr, Outcome, returned, threw, All, All-append,
}
use nyx_darkpool.Base.BigInt.{pos, big_int}
use nyx_darkpool.ProofBytes.{Env, Bytes, is_c1c0, item, fe_item, concat, g1, fp2, g2}
use nyx_darkpool.ProofBytes.Element.{IsElement, decode, fe_sound}

-- The 32 bytes of the number that a text spells.
abbrev pub Encodes : Env → Option Text → Bytes → Type 0
Encodes env o b =
    (dec : Text) × (n : ℕ) × (o ≡ some dec)
    × (big_int dec ≡ returned (pos n))
    × (n < 2 ^ 256)
    × IsElement b
    × (decode env b ≡ n)

fe_item_sound :
    (env : Env) (o : Option Text) (b : Bytes) → fe_item env o ≡ returned b → Encodes env o b
fe_item_sound env none b h = cc
fe_item_sound env (some dec) b h =
    let (n, e, fits, element, same) = fe_sound env dec b h in (dec, n, refl, e, fits, element, same)

concat_sound :
    (f g : Outcome Bytes) (b : Bytes)
    → concat f g ≡ returned b
    → (x y : Bytes) × (f ≡ returned x) × (g ≡ returned y) × (b ≡ x ++ y)
concat_sound (returned x) (returned y) b h = (x, y, refl, refl, ground (arith, h))
concat_sound (returned x) (threw e) b h = cc
concat_sound (threw e) g b h = cc

-- Two encoded numbers, one behind the other.
abbrev pub Joins : Env → Option Text → Option Text → Bytes → Type 0
Joins env o o' b = (x y : Bytes) × (b ≡ x ++ y) × Encodes env o x × Encodes env o' y

Joins-of_concat :
    (env : Env) (o o' : Option Text) (b : Bytes)
    → concat (fe_item env o) (fe_item env o') ≡ returned b
    → Joins env o o' b
Joins-of_concat env o o' b h =
    let (x, y, ex, ey, same) = concat_sound (fe_item env o) (fe_item env o') b h in
    (x, y, same, fe_item_sound env o x ex, fe_item_sound env o' y ey)

-- The limbs of one coordinate, in the order that the environment asks for.
abbrev pub IsFp2 : Env → Option (List Text) → Bytes → Type 0
IsFp2 env c b = (limbs : List Text) × (c ≡ some limbs) × (elim (is_c1c0 env) [
  | true ↦ Joins env (item limbs 1) (item limbs 0) b
  | false ↦ Joins env (item limbs 0) (item limbs 1) b
])

fp2_sound :
    (env : Env) (c : Option (List Text)) (b : Bytes) → fp2 env c ≡ returned b → IsFp2 env c b
fp2_sound env none b h = cc
fp2_sound env (some c) b h = elim (Bool-cases (is_c1c0 env)) [
  | inl e ↦ (c, refl, rw e (Joins-of_concat env (item c 1) (item c 0) b (rw e at h)))
  | inr e ↦ (c, refl, rw e (Joins-of_concat env (item c 0) (item c 1) b (rw e at h)))
]

pub g1_sound :
    (env : Env) (p : List Text) (b : Bytes)
    → g1 env p ≡ returned b
    → Joins env (item p 0) (item p 1) b
unfolding g1
g1_sound env p b h = Joins-of_concat env (item p 0) (item p 1) b h

-- Where `g2` returns bytes, they are those of the point's first coordinate and then those of its second;
-- of each coordinate, those of limb 1 and then of limb 0 where the ordering is `c1c0`, and the other way
-- round where it is not. Each limb spells a number below 2 ^ 256, which its 32 bytes are read back as.
pub g2_sound :
    (env : Env) (p : List (List Text)) (b : Bytes)
    → g2 env p ≡ returned b
    → (x y : Bytes) × (b ≡ x ++ y) × IsFp2 env (item p 0) x × IsFp2 env (item p 1) y
unfolding g2
g2_sound env p b h =
    let (x, y, ex, ey, same) = concat_sound (fp2 env (item p 0)) (fp2 env (item p 1)) b h in
    (x, y, same, fp2_sound env (item p 0) x ex, fp2_sound env (item p 1) y ey)

Joins-length : (env : Env) (o o' : Option Text) (b : Bytes) → Joins env o o' b → length b ≡ 64
Joins-length env o o' b (x, y, same, (_, _, _, _, _, (lx, _), _), (_, _, _, _, _, (ly, _), _)) =
    rw same (omega (arith, length-append x y, lx, ly))

IsFp2-length : (env : Env) (c : Option (List Text)) (b : Bytes) → IsFp2 env c b → length b ≡ 64
IsFp2-length env c b (limbs, e, h) = elim (Bool-cases (is_c1c0 env)) [
  | inl o ↦ Joins-length env (item limbs 1) (item limbs 0) b (rw o at h)
  | inr o ↦ Joins-length env (item limbs 0) (item limbs 1) b (rw o at h)
]

pub length-g1 : (env : Env) (p : List Text) (b : Bytes) → g1 env p ≡ returned b → length b ≡ 64
length-g1 env p b h = Joins-length env (item p 0) (item p 1) b (g1_sound env p b h)

pub length-g2 :
    (env : Env) (p : List (List Text)) (b : Bytes) → g2 env p ≡ returned b → length b ≡ 128
length-g2 env p b h =
    let (x, y, same, hx, hy) = g2_sound env p b h in
    rw same (
      omega (
        arith,
        length-append x y,
        IsFp2-length env (item p 0) x hx,
        IsFp2-length env (item p 1) y hy,
      ))

abbrev pub AreBytes : Bytes → Type 0
AreBytes b = All (λ c. c < 256) b

Joins-AreBytes : (env : Env) (o o' : Option Text) (b : Bytes) → Joins env o o' b → AreBytes b
Joins-AreBytes env o o' b (x, y, same, (_, _, _, _, _, (_, hx), _), (_, _, _, _, _, (_, hy), _)) =
    rw same (All-append (λ c. c < 256) x y hx hy)

IsFp2-AreBytes : (env : Env) (c : Option (List Text)) (b : Bytes) → IsFp2 env c b → AreBytes b
IsFp2-AreBytes env c b (limbs, e, h) = elim (Bool-cases (is_c1c0 env)) [
  | inl o ↦ Joins-AreBytes env (item limbs 1) (item limbs 0) b (rw o at h)
  | inr o ↦ Joins-AreBytes env (item limbs 0) (item limbs 1) b (rw o at h)
]

pub g1-AreBytes : (env : Env) (p : List Text) (b : Bytes) → g1 env p ≡ returned b → AreBytes b
g1-AreBytes env p b h = Joins-AreBytes env (item p 0) (item p 1) b (g1_sound env p b h)

pub g2-AreBytes :
    (env : Env) (p : List (List Text)) (b : Bytes) → g2 env p ≡ returned b → AreBytes b
g2-AreBytes env p b h =
    let (x, y, same, hx, hy) = g2_sound env p b h in
    rw same (
      All-append (λ c. c < 256) x y (IsFp2-AreBytes env (item p 0) x hx)
        (IsFp2-AreBytes env (item p 1) y hy))
