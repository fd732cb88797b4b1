-- ===== src/OnChain/Hash.antt =====
-- The transaction hash that is read from the output, and what is stored of it.
use nyx_darkpool.Base.{
  ℕ, zero, suc, ◌≡◌, refl, ap, Bool, true, false, ◌||◌, none, some, [], ◌∷◌, Text, ◌==◌, ==_iff,
  length, take, all, arith, Bool-cases, inl, inr, ◌⊎◌, and-eq-true,
}
use nyx_darkpool.Ledger.{stored_tx}
use nyx_darkpool.OnChain.{is_hex, is_run, parse_tx_hash}

-- A run of 64 hexadecimal digits stands somewhere in the text.
abbrev pub has_run : Text → Bool
has_run [] = false
has_run (c ∷ s) = is_run (c ∷ s) || has_run s

-- The text is a transaction hash.
abbrev pub IsHash : Text → Type 0
IsHash t = (length t ≡ 64) × (all is_hex t ≡ true)

take_self : (n : ℕ) (t : Text) → length t ≡ n → take n t ≡ t
take_self zero [] h = refl
take_self zero (c ∷ t) h = absurd (omega (arith, h))
take_self (suc n) [] h = absurd (omega (arith, h))
take_self (suc n) (c ∷ t) h = ap (λ l. c ∷ l) (take_self n t (omega (arith, h)))

parse_tx_hash-cases :
    (out : Text)
    → ((has_run out ≡ true) × IsHash (parse_tx_hash out))
      ⊎ ((has_run out ≡ false) × (parse_tx_hash out ≡ []))
unfolding parse_tx_hash
parse_tx_hash-cases [] = inr (refl, refl)
parse_tx_hash-cases (c ∷ s) = elim (Bool-cases (is_run (c ∷ s))) [
  | inl e ↦
      let (size, hex) =
        and-eq-true (length (take 64 (c ∷ s)) == 64) (all is_hex (take 64 (c ∷ s))) e in
      rw e (inl (refl, ((==_iff (length (take 64 (c ∷ s))) 64).0 size, hex)))
  | inr e ↦ rw e (parse_tx_hash-cases s)
]

stored_tx-hash : (t : Text) → length t ≡ 64 → stored_tx t ≡ some t
stored_tx-hash [] h = absurd (omega (arith, h))
stored_tx-hash (c ∷ t) h = rw (take_self 64 (c ∷ t) h) refl

-- The hash that is read from the command's output is stored whole: where a run of 64 hexadecimal digits
-- stands in the output, 64 such digits are stored, and otherwise nothing is.
pub stored_tx-parse_tx_hash :
    (out : Text)
    → ((has_run out ≡ true)
        × (stored_tx (parse_tx_hash out) ≡ some (parse_tx_hash out))
        × IsHash (parse_tx_hash out))
      ⊎ ((has_run out ≡ false) × (stored_tx (parse_tx_hash out) ≡ none))
stored_tx-parse_tx_hash out = elim (parse_tx_hash-cases out) [
  | inl (e, (size, hex)) ↦ inl (e, stored_tx-hash (parse_tx_hash out) size, (size, hex))
  | inr (e, empty) ↦ inr (e, rw empty refl)
]
