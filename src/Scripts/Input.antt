-- ===== src/Scripts/Input.antt =====
-- The sample inputs of gen_input.js and the constraints of the circuit.
use nyx_darkpool.Base.{
  ℕ, ◌≤◌, ◌<◌, ◌≡◌, ◌↔◌, sym, ◌∙◌, true, Option, some, List, Text, codes, ◌===◌, ===_iff, arith,
  Bool-cases, Option-cases, inl, inr, Outcome, returned, subst,
}
use mathlib.Core.Option.{some-injective, none-ne-some}
use nyx_darkpool.Base.Decimal.{to_decimal}
use nyx_darkpool.Base.BigInt.{ℤ}
use nyx_darkpool.Seal.{Hash}
use nyx_darkpool.Book.{max}
use nyx_darkpool.Circuit.{Circomlib, Main, Signals, signals_of}
use nyx_darkpool.Circuit as Circuit
use nyx_darkpool.Circuit.Statement.{IsMatch, Main-IsMatch_iff}
use nyx_darkpool.Scripts.{Sample, book_of, mode_of, input_of, gen_input}

abbrev IsSmall : Sample → Type 0
IsSmall o = (o.price < 1000000) × (o.volume < 1000000) × (o.salt < 1000000)

-- The numbers of a book cross exactly in the mode `valid`.
abbrev Crosses : Sample × Sample → Type 0
Crosses (m, t) = (m.price ≤ t.price) × (m.volume ≡ t.volume)

abbrev IsRight : Text → Sample × Sample → Type 0
IsRight mode (m, t) = IsSmall m × IsSmall t × (Crosses (m, t) ↔ ((mode === codes "valid") ≡ true))

book_of-IsRight :
    (mode : Text) (book : Sample × Sample) → book_of mode ≡ some book → IsRight mode book
unfolding book_of
book_of-IsRight mode book h = elim (Bool-cases (mode === codes "valid")) [
  | inl e ↦
      subst (IsRight mode) (some-injective _ _ (rw e at h))
        (ground arith, ground arith, ground arith)
  | inr e ↦ elim (Bool-cases (mode === codes "bad-cross")) [
    | inl e' ↦
        subst (IsRight mode) (some-injective _ _ (rw (e, e') at h))
          (ground arith, ground arith, ground arith)
    | inr e' ↦ elim (Bool-cases (mode === codes "bad-volume")) [
      | inl e'' ↦
          subst (IsRight mode) (some-injective _ _ (rw (e, e', e'') at h))
            (ground arith, ground arith, ground arith)
      | inr e'' ↦ absurd (none-ne-some book (rw (e, e', e'') at h))
    ]
  ]
]

module _ (lib : Circomlib) (hash : Hash) (read : Text → ℕ) (modulus : ℕ) (large : max ≤ modulus)
    (reads : (n : ℕ) → n < modulus → read (to_decimal n) ≡ n)
    (in_field : (inputs : List ℤ) → hash inputs < modulus) where
  reads_small : (n : ℕ) → n < 1000000 → read (to_decimal n) ≡ n
  reads_small n h = reads n (omega (arith, h, large))

  IsMatch-iff :
      (m t : Sample)
      → IsSmall m
      → IsSmall t
      → IsMatch hash (signals_of read (input_of hash (m, t))) ↔ Crosses (m, t)
  IsMatch-iff m t (mp, mv, ms) (tp, tv, ts) =
      let rmp = reads_small m.price mp in
      let rmv = reads_small m.volume mv in
      let rms = reads_small m.salt ms in
      let rtp = reads_small t.price tp in
      let rtv = reads_small t.volume tv in
      let rts = reads_small t.salt ts in
      (
        λ h. (
          subst (λ n. n ≤ t.price) rmp (subst (λ n. read (to_decimal m.price) ≤ n) rtp h.crosses),
          sym rmv ∙ h.same_volume ∙ rtv,
        ),
        λ (le, same). record {
          maker_price_fits = rw rmp (omega (arith, mp));
          taker_price_fits = rw rtp (omega (arith, tp));
          volume_fits = rw rtv (omega (arith, tv));
          crosses = rw (rmp, rtp) le;
          same_volume = rmv ∙ same ∙ sym rtv;
          maker_commits = rw (rmp, rmv, rms) (reads _ (in_field _));
          taker_commits = rw (rtp, rtv, rts) (reads _ (in_field _));
        },
      )

  -- For whatever argument: where gen_input prints an input, its signals satisfy the circuit exactly in the
  -- mode `valid`, so the price constraint refuses `bad-cross` and the volume constraint `bad-volume`.
  pub gen_input-Main_iff :
      (argv : Option Text) (i : Circuit.Input)
      → gen_input hash argv ≡ returned i
      → Main lib hash (signals_of read i) ↔ (mode_of argv ≡ codes "valid")
  unfolding gen_input
  gen_input-Main_iff argv i h = elim (Option-cases (book_of (mode_of argv))) [
    | inl e ↦ absurd (ground (arith, e, h))
    | inr ((m, t), e) ↦
        let (small, small', right) = book_of-IsRight (mode_of argv) (m, t) e in
        let same : input_of hash (m, t) ≡ i =
          returned-injective (input_of hash (m, t)) i (rw e at h) in
        let match = IsMatch-iff m t small small' in
        let main = Main-IsMatch_iff lib hash (signals_of read (input_of hash (m, t))) in
        let mode = ===_iff (mode_of argv) (codes "valid") in
        subst (λ j. Main lib hash (signals_of read j) ↔ (mode_of argv ≡ codes "valid")) same
          (λ k. mode.0 (right.0 (match.0 (main.0 k))), λ q. main.1 (match.1 (right.1 (mode.1 q))))
  ]
    where
      returned-injective :
          (x y : Circuit.Input) → ◌≡◌ {A = Outcome Circuit.Input} (returned x) (returned y) → x ≡ y
      returned-injective x y q = ground (arith, q)
