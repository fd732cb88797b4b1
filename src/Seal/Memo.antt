-- ===== src/Seal/Memo.antt =====
-- The memo of the Poseidon instance.
use nyx_darkpool.Base.{◌≡◌, refl, List, ℕ, none, some, Text, Outcome, returned, threw}
use nyx_darkpool.Seal.{Hash, seal_ints}

-- A load that fails is kept: whatever the import would come back with later, every later seal of
-- integers fails with the first error and leaves the memo as it is.
pub seal_ints-failed_load :
    (e : Text) (first later : Outcome Hash) (bytes bytes' : List ℕ) (p v p' v' : Text)
    → first ≡ threw e
    → seal_ints later bytes' p' v' (seal_ints first bytes p v none).1 ≡ (threw e, some (threw e))
unfolding seal_ints
seal_ints-failed_load e first later bytes bytes' p v p' v' failed = rw failed

-- A load that succeeds is kept too: later imports are not looked at.
pub seal_ints-loaded_once :
    (hash : Hash) (first later : Outcome Hash) (bytes bytes' : List ℕ) (p v p' v' : Text)
    → first ≡ returned hash
    → seal_ints later bytes' p' v' (seal_ints first bytes p v none).1
      ≡ seal_ints first bytes' p' v' none
unfolding seal_ints
seal_ints-loaded_once hash first later bytes bytes' p v p' v' loaded = refl
