-- ===== src/Seal/Salt.antt =====
-- The salt: eight random bytes give a number below 2 ^ 64, and different bytes different salts.
use nyx_darkpool.Base.{
  ℕ, zero, suc, ◌+◌, ◌*◌, ◌^◌, ◌≤◌, ◌<◌, ◌≡◌, refl, List, [], ◌∷◌, arith, All, length, sym, ◌∙◌,
}
use native.Mathlib.Nat.{pow-suc}
use nyx_darkpool.Base.Decimal.{to_decimal_inj, value, value-to_decimal}
use nyx_darkpool.Base.Shift.{bit_or-shift_byte}
use nyx_darkpool.Seal.{salt_from, random_salt, field_max}

abbrev pub AreBytes : List ℕ → Type 0
AreBytes = All (λ b. b < 256)

-- Behind `v`, the loop shifts by a byte and adds.
salt_from-step :
    (v b : ℕ) (buf : List ℕ) → b < 256 → salt_from v (b ∷ buf) ≡ salt_from (v * 256 + b) buf
unfolding salt_from
salt_from-step v b buf h = rw (bit_or-shift_byte v b h)

room_for_byte : (v b p : ℕ) → b < 256 → (v * 256 + b + 1) * p ≤ (v + 1) * (p * 256)
room_for_byte v b p h = let step : v * 256 + b + 1 ≤ (v + 1) * 256 = omega arith in grind arith

salt_from-lt :
    (buf : List ℕ) (v n : ℕ) → AreBytes buf → length buf ≡ n → salt_from v buf < (v + 1) * 256 ^ n
unfolding salt_from
salt_from-lt [] v zero h e = omega arith
salt_from-lt [] v (suc n) h e = absurd (omega arith)
salt_from-lt (b ∷ buf) v zero h e = absurd (omega arith)
salt_from-lt (b ∷ buf) v (suc n) (hb, h) e =
    rw (salt_from-step v b buf hb, pow-suc)
      (omega
        (arith, salt_from-lt buf (v * 256 + b) n h (omega arith), room_for_byte v b (256 ^ n) hb))

salt_from_inj :
    (s t : List ℕ) (v w : ℕ)
    → AreBytes s
    → AreBytes t
    → length s ≡ length t
    → salt_from v s ≡ salt_from w t
    → (v ≡ w) × (s ≡ t)
salt_from_inj [] [] v w hs ht same e = unfold salt_from in (e, refl)
salt_from_inj [] (c ∷ t) v w hs ht same e = absurd (omega arith)
salt_from_inj (b ∷ s) [] v w hs ht same e = absurd (omega arith)
salt_from_inj (b ∷ s) (c ∷ t) v w (hb, hs) (hc, ht) same e =
    let (acc, tails) =
      salt_from_inj s t (v * 256 + b) (w * 256 + c) hs ht (omega arith)
        (sym (salt_from-step v b s hb) ∙ e ∙ salt_from-step w c t hc) in
    let heads : b ≡ c = omega arith in (omega arith, cc)

-- A salt of eight random bytes is below 2 ^ 64, in the range that the circuit checks.
pub random_salt-lt :
    (buf : List ℕ) → AreBytes buf → length buf ≡ 8 → value (random_salt buf) < field_max
unfolding random_salt
random_salt-lt buf bytes eight =
    rw (value-to_decimal (salt_from 0 buf)) (omega (arith, salt_from-lt buf 0 8 bytes eight))

-- Salts lose none of the random bytes: two runs of eight bytes with one salt are one run.
pub random_salt_inj :
    (s t : List ℕ)
    → AreBytes s
    → AreBytes t
    → length s ≡ 8
    → length t ≡ 8
    → random_salt s ≡ random_salt t
    → s ≡ t
unfolding random_salt
random_salt_inj s t hs ht ls lt e =
    (salt_from_inj s t 0 0 hs ht (omega arith) (to_decimal_inj (salt_from 0 s) (salt_from 0 t) e)).1
