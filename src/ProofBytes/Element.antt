-- ===== src/ProofBytes/Element.antt =====
-- Field elements as 32 bytes.
use native.Mathlib.Nat.{pow-suc}
use mathlib.Core.List.{reverse-cons, reverse-reverse}
use nyx_darkpool.Base.{
  ℕ, zero, suc, ◌+◌, ◌*◌, ◌/◌, ◌%◌, ◌^◌, ◌≤◌, ◌<◌, ◌≡◌, refl, sym, ap, subst, ◌∙◌, ◌⊎◌, inl, inr,
  [], ◌∷◌, ◌++◌, Option, none, some, Text, codes, ◌===◌, if◌then◌else◌, arith, All, All-append,
  length, length-append, reverse, ◌==◌, ==_iff, Bool-cases, returned, threw, >>=-eq-returned,
}
use nyx_darkpool.Base.BigInt.{ℤ, pos, negsuc, big_int}
use nyx_darkpool.ProofBytes.{
  Env, Bytes, or_default, is_little, fill, in_order, fe_of, fe_int, fe, negative, too_long,
}

-- The number that bytes spell behind `v`, the most significant first.
abbrev pub be_from : ℕ → Bytes → ℕ
be_from v [] = v
be_from v (b ∷ bs) = be_from (v * 256 + b) bs

-- The number that bytes spell, the least significant first.
abbrev pub le : Bytes → ℕ
le [] = 0
le (b ∷ bs) = b + 256 * le bs

-- A reader of field elements: the least significant byte comes first where `FE_ENDIAN` is `little`, the
-- most significant one where it is any other text, or is not set.
abbrev pub spelled : Option Text → Bytes → ℕ
spelled none b = be_from 0 b
spelled (some endian) b = if endian === codes "little" then le b else be_from 0 b

abbrev pub decode : Env → Bytes → ℕ
decode env b = spelled env.fe_endian b

abbrev pub IsElement : Bytes → Type 0
IsElement b = (length b ≡ 32) × All (λ c. c < 256) b

split_power : (n m r p : ℕ) → m + r * p ≡ n / 2 ^ 8 → (m * 256 + n % 2 ^ 8) + r * (p * 256) ≡ n
split_power n m r p h = let whole : n / 2 ^ 8 * 256 + n % 2 ^ 8 ≡ n = omega arith in grind arith

fill-be :
    (k n : ℕ) (out : Bytes)
    → (m : ℕ) × (m + (fill k n out).1 * 256 ^ k ≡ n)
      × (m < 256 ^ k)
      × (be_from 0 (fill k n out).0 ≡ be_from m out)
unfolding fill
fill-be zero n out = (0, omega arith, omega arith, refl)
fill-be (suc k) n out =
    let (m, sum, lt, same) = fill-be k (n / 2 ^ 8) ((n % 2 ^ 8) ∷ out) in
    let left = (fill k (n / 2 ^ 8) ((n % 2 ^ 8) ∷ out)).1 in
    (
      m * 256 + n % 2 ^ 8,
      rw (pow-suc 256 k) (split_power n m left (256 ^ k) sum),
      rw (pow-suc 256 k) (omega (arith, lt)),
      same,
    )

fill-length : (k n : ℕ) (out : Bytes) → length (fill k n out).0 ≡ k + length out
unfolding fill
fill-length zero n out = omega arith
fill-length (suc k) n out = omega (arith, fill-length k (n / 2 ^ 8) ((n % 2 ^ 8) ∷ out))

fill-All : (k n : ℕ) (out : Bytes) → All (λ c. c < 256) out → All (λ c. c < 256) (fill k n out).0
unfolding fill
fill-All zero n out h = h
fill-All (suc k) n out h = fill-All k (n / 2 ^ 8) ((n % 2 ^ 8) ∷ out) (omega arith, h)

length-reverse : (b : Bytes) → length (reverse b) ≡ length b
length-reverse [] = refl
length-reverse (c ∷ b) =
    rw (reverse-cons c b) (omega (arith, length-append (reverse b) (c ∷ []), length-reverse b))

All-reverse : (P : ℕ → Type 0) (b : Bytes) → All P b → All P (reverse b)
All-reverse P [] h = tt
All-reverse P (c ∷ b) (p, h) =
    rw (reverse-cons c b) (All-append P (reverse b) (c ∷ []) (All-reverse P b h) (p, tt))

IsElement-in_order : (env : Env) (b : Bytes) → IsElement b → IsElement (in_order env b)
IsElement-in_order env b (size, bytes) = elim (Bool-cases (is_little env)) [
  | inl e ↦ rw e (length-reverse b ∙ size, All-reverse (λ c. c < 256) b bytes)
  | inr e ↦ rw e (size, bytes)
]

be_from-append : (v : ℕ) (b : Bytes) (c : ℕ) → be_from v (b ++ c ∷ []) ≡ be_from v b * 256 + c
be_from-append v [] c = refl
be_from-append v (d ∷ b) c = be_from-append (v * 256 + d) b c

be_from-reverse : (b : Bytes) → be_from 0 (reverse b) ≡ le b
be_from-reverse [] = refl
be_from-reverse (c ∷ b) =
    rw (reverse-cons c b) (omega (arith, be_from-append 0 (reverse b) c, be_from-reverse b))

le-reverse : (b : Bytes) → le (reverse b) ≡ be_from 0 b
le-reverse b = sym (be_from-reverse (reverse b)) ∙ ap (be_from 0) (reverse-reverse b)

spelled-turned :
    (o : Option Text) (b : Bytes)
    → spelled o (if or_default o (codes "big") === codes "little" then reverse b else b)
      ≡ be_from 0 b
unfolding ◌===◌
spelled-turned none b = refl
spelled-turned (some []) b = refl
spelled-turned (some (c ∷ s)) b = elim (Bool-cases ((c ∷ s) === codes "little")) [
  | inl e ↦ rw e (le-reverse b)
  | inr e ↦ rw e refl
]

-- The bytes that the loop fills are read back in the order that they are written in.
decode-in_order : (env : Env) (b : Bytes) → decode env (in_order env b) ≡ be_from 0 b
decode-in_order env b = spelled-turned env.fe_endian b

-- What `fe` gives for a number: its bytes, or an error where there are too many.
abbrev pub Verdict : Env → Text → ℕ → Type 0
Verdict env dec n =
    ((n < 2 ^ 256) × (b : Bytes) × (fe env dec ≡ returned b) × IsElement b × (decode env b ≡ n))
    ⊎ ((2 ^ 256 ≤ n) × (fe env dec ≡ threw (too_long dec)))

fe-pos :
    (env : Env) (dec : Text) (n : ℕ)
    → big_int dec ≡ returned (pos n)
    → fe env dec ≡ fe_of env dec (fill 32 n [])
unfolding fe
fe-pos env dec n e = rw e refl

power_32 : (256 ^ 32) ≡ 2 ^ 256
power_32 = refl

-- A text that spells a number below 2 ^ 256 gives 32 bytes that are read back as the number, the least
-- significant byte first where `FE_ENDIAN` is `little` and the most significant one first where it is
-- another text or is not set; a text that spells a larger number is refused.
pub fe-Verdict :
    (env : Env) (dec : Text) (n : ℕ) → big_int dec ≡ returned (pos n) → Verdict env dec n
fe-Verdict env dec n e =
    let (m, sum, lt, same) = fill-be 32 n [] in
    let (b, left) = fill 32 n [] in
    elim (Bool-cases (left == 0)) [
      | inl done ↦
          let zero_left : (fill 32 n []).1 ≡ 0 = (==_iff (fill 32 n []).1 0).0 done in
          inl (
            omega (arith, sum, lt, zero_left),
            in_order env (fill 32 n []).0,
            fe-pos env dec n e ∙ rw done refl,
            IsElement-in_order env (fill 32 n []).0 (fill-length 32 n [], fill-All 32 n [] tt),
            decode-in_order env (fill 32 n []).0 ∙ same ∙ omega (arith, sum, zero_left),
          )
      | inr more ↦ inr (ground (arith, sum, more), fe-pos env dec n e ∙ rw more refl)
    ]

fe-negsuc :
    (env : Env) (dec : Text) (n : ℕ)
    → big_int dec ≡ returned (negsuc n)
    → fe env dec ≡ threw (negative dec)
unfolding fe
fe-negsuc env dec n e = rw e refl

fe_int_sound :
    (env : Env) (dec : Text) (z : ℤ) (b : Bytes)
    → big_int dec ≡ returned z
    → fe env dec ≡ returned b
    → (n : ℕ) × (big_int dec ≡ returned (pos n)) × (n < 2 ^ 256) × IsElement b × (decode env b ≡ n)
fe_int_sound env dec (negsuc n) b e h = ground (arith, fe-negsuc env dec n e, h)
fe_int_sound env dec (pos n) b e h = elim (fe-Verdict env dec n e) [
  | inl (fits, b', got, element, decoded) ↦
      let same : b' ≡ b = ground (arith, got, h) in
      (n, e, fits, subst IsElement same element, ap (decode env) (sym same) ∙ decoded)
  | inr (large, refused) ↦ ground (arith, refused, h)
]

-- Where `fe` returns bytes, its text spells a number below 2 ^ 256, and the bytes are 32 and are read
-- back as that number.
pub fe_sound :
    (env : Env) (dec : Text) (b : Bytes)
    → fe env dec ≡ returned b
    → (n : ℕ) × (big_int dec ≡ returned (pos n)) × (n < 2 ^ 256) × IsElement b × (decode env b ≡ n)
unfolding fe
fe_sound env dec b h =
    let (z, e, _) = >>=-eq-returned (big_int dec) (λ n. fe_int env dec n) h in
    fe_int_sound env dec z b e h
