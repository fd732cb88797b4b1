-- ===== src/Proofs/Stages.antt =====
-- What the stages say of a match.
use nyx_darkpool.Base.{
  ℕ, ◌+◌, ◌≡◌, ◌↔◌, Bool, true, false, ◌&&◌, ◌||◌, Option, none, some, List, [], ◌∷◌, arith, ◌===◌,
  codes, if◌then◌else◌, ===_iff,
}
use nyx_darkpool.Engine.{Match}
use nyx_darkpool.Proofs.{
  Stage, IconKind, done, spin, idle, fail, build_stages, is_located, is_proven, is_confirmed,
  is_failed, onchain_of,
}

abbrev is_spin : IconKind → ℕ
is_spin spin = 1
is_spin _ = 0

-- How many stages run.
unfoldable pub spins : List Stage → ℕ
spins [] = 0
spins (s ∷ ss) = is_spin s.icon + spins ss

-- The match is proven, and has been verified on-chain or has failed there.
unfoldable pub is_over : Option Match → Bool
is_over m = is_proven m && (is_confirmed m || is_failed m)

abbrev is_done : Stage → Bool
is_done s = elim s.icon [ done ↦ true | spin ↦ false | idle ↦ false | fail ↦ false ]

abbrev pub all_done : List Stage → Bool
all_done [] = true
all_done (s ∷ ss) = is_done s && all_done ss

-- Exactly one stage is running, until the match has a proof and its settlement is confirmed or has
-- failed; then none is.
pub spins-build_stages : (m : Option Match) → spins (build_stages m) ≡ (if is_over m then 0 else 1)
unfolding spins build_stages is_over is_located is_proven is_confirmed is_failed onchain_of ◌===◌
spins-build_stages m = ground arith

-- All stages are done exactly if the match has a proof and its status is "confirmed".
pub build_stages-done_iff :
    (m : Option Match)
    → (all_done (build_stages m) ≡ true)
      ↔ ((is_proven m ≡ true) × (onchain_of m ≡ codes "confirmed"))
unfolding build_stages is_located is_proven is_confirmed is_failed onchain_of ◌===◌
build_stages-done_iff none = (λ h. ground arith, λ h. ground arith)
build_stages-done_iff (some m) = (
  λ h. ground (arith, ===_iff m.onchain_status (codes "confirmed")),
  λ (p, e). ground (arith, ===_iff m.onchain_status (codes "confirmed")),
)
