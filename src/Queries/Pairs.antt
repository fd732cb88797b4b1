-- ===== src/Queries/Pairs.antt =====
-- The asset pairs that a cycle of the matcher runs over.
use nyx_darkpool.Base.{
  ◌≤◌, ◌≡◌, refl, Bool, true, false, ◌&&◌, List, [], ◌∷◌, Text, ◌===◌, ===_iff, any, arith,
  Bool-cases, inl, inr, subst,
}
use nyx_darkpool.Ledger.{OrderRow, is_open}
use nyx_darkpool.Ledger.Counts.{count, count_of_any}
use nyx_darkpool.Queries.{open_pairs}

abbrev pub is_open_in : Text → OrderRow → Bool
is_open_in pair o = is_open o && o.asset_pair === pair

-- The pairs that the matcher runs over are exactly those with an open order, and it runs over each once.
pub open_pairs-once :
    (pair : Text) (os : List OrderRow)
    → (any (λ p. p === pair) (open_pairs os) ≡ any (is_open_in pair) os)
      × (count (λ p. p === pair) (open_pairs os) ≤ 1)
unfolding open_pairs
open_pairs-once pair [] = (refl, omega arith)
open_pairs-once pair (o ∷ os) =
    let (same, once) = open_pairs-once pair os in
    elim (Bool-cases (o.asset_pair === pair)) [
      | inr e ↦ elim (Bool-cases (any (λ p. p === o.asset_pair) (open_pairs os))) [
        | inl e' ↦ ground (arith, same, once)
        | inr e' ↦ ground (arith, same, once)
      ]
      | inl e ↦
          let is_pair : o.asset_pair ≡ pair = (===_iff o.asset_pair pair).0 e in
          elim (Bool-cases (any (λ p. p === o.asset_pair) (open_pairs os))) [
            | inl e' ↦
                let there : any (λ p. p === pair) (open_pairs os) ≡ true =
                  subst (λ q. any (λ p. p === q) (open_pairs os) ≡ true) is_pair e' in
                ground (arith, same, once)
            | inr e' ↦
                let absent : any (λ p. p === pair) (open_pairs os) ≡ false =
                  subst (λ q. any (λ p. p === q) (open_pairs os) ≡ false) is_pair e' in
                let none_yet : count (λ p. p === pair) (open_pairs os) ≡ 0 =
                  count_of_any (λ p. p === pair) (open_pairs os) absent in
                ground (arith, same, once)
          ]
    ]
