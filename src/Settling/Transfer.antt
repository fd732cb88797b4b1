-- ===== src/Settling/Transfer.antt =====
-- contracts/nyx-verifier/src/lib.rs: settle_transfer, the move of an asset that a settlement opens. The
-- token contract is a parameter: `moves` says that its `transfer` goes through.
use nyx_darkpool.Base.{
  ◌≡◌, refl, ◌⊎◌, some, sym, subst, Bool, true, false, ◌&&◌, List, [], ◌∷◌, Text, ◌===◌, ===_iff,
  and-eq-true, if◌then◌else◌, All, Bool-cases, inl, inr,
}
use nyx_darkpool.ProofBytes.{HexProof}
use nyx_darkpool.Settling.{
  Contract, Attempt, World, Config, same_pair, is_settled, verify_and_settle, dispatch, run, Points,
  Verifier, points_of,
}
use nyx_darkpool.Settling.Contract.{Keeps, dispatch-P}

-- How a call ends: `Ok`, `Err(NotSettled)`, or a trap of the authorization or of the token contract.
pub data Transfer : Type 0 where
  transferred not_settled trapped : Transfer

unfoldable pub settle_transfer : Text → Text → Bool → Bool → Contract → Transfer
settle_transfer maker taker auth moves c =
    if is_settled maker taker c then if auth && moves then transferred else trapped else not_settled

-- The attempt calls the contract with the authorization it wants, and with a proof that verifies for the
-- two hashes.
abbrev pub IsShownBy : Verifier → Text → Text → Attempt → Type 0
IsShownBy verify maker taker a =
    (x : HexProof) × (a.hex ≡ some x)
    × (a.auth ≡ true)
    × (x.public ≡ maker ∷ taker ∷ [])
    × (verify (points_of x) (maker ∷ taker ∷ []) ≡ true)

abbrev pub IsShown : Verifier → Text → Text → List (Text × Attempt) → Type 0
IsShown verify maker taker [] = ⊥
IsShown verify maker taker ((id, a) ∷ jobs) =
    IsShownBy verify maker taker a ⊎ IsShown verify maker taker jobs

-- A property of the settled pairs is kept by a call that can only settle a pair that has it.
verify_and_settle-All :
    (verify : Verifier) (Q : Text × Text → Type 0) (auth : Bool) (points : Points)
    (public : List Text)
    → ((m t : Text)
        → auth ≡ true
        → public ≡ m ∷ t ∷ []
        → verify points (m ∷ t ∷ []) ≡ true
        → Q (m, t))
    → Keeps verify (All Q) auth points public
unfolding verify_and_settle
verify_and_settle-All verify Q true points [] new c h = h
verify_and_settle-All verify Q false points [] new c h = h
verify_and_settle-All verify Q true points (m ∷ []) new c h = h
verify_and_settle-All verify Q false points (m ∷ []) new c h = h
verify_and_settle-All verify Q true points (m ∷ t ∷ u ∷ l) new c h = h
verify_and_settle-All verify Q false points (m ∷ t ∷ u ∷ l) new c h = h
verify_and_settle-All verify Q false points (m ∷ t ∷ []) new c h = h
verify_and_settle-All verify Q true points (m ∷ t ∷ []) new c h =
    elim (Bool-cases (is_settled m t c)) [
      | inl e ↦ rw e h
      | inr e ↦ elim (Bool-cases (verify points (m ∷ t ∷ []))) [
        | inl v ↦ rw (e, v) (new m t refl refl v, h)
        | inr v ↦ rw (e, v) h
      ]
    ]

run-All :
    (cfg : Config) (verify : Verifier) (Q : Text × Text → Type 0) (jobs : List (Text × Attempt))
    (w : World)
    → ((m t : Text) → IsShown verify m t jobs → Q (m, t))
    → All Q w.contract
    → All Q (run cfg verify jobs w).contract
unfolding run
run-All cfg verify Q [] w new h = h
run-All cfg verify Q ((id, a) ∷ jobs) w new h =
    run-All cfg verify Q jobs (dispatch cfg verify id a w) (λ m t s. new m t (inr s))
      (dispatch-P verify (All Q) id a cfg w
        (λ x e.
          verify_and_settle-All verify Q a.auth (points_of x) x.public
            (λ m t auth same v. new m t (inl (x, e, auth, same, v))))
        h)

is_settled-All :
    (Q : Text × Text → Type 0) (maker taker : Text) (c : Contract)
    → All Q c
    → is_settled maker taker c ≡ true
    → Q (maker, taker)
unfolding is_settled
is_settled-All Q maker taker [] h e = absurd (cc)
is_settled-All Q maker taker ((m, t) ∷ c) (hp, h) e =
    elim (Bool-cases (same_pair maker taker (m, t))) [
      | inr e' ↦ is_settled-All Q maker taker c h (rw e' at e)
      | inl e' ↦
          let (em, et) = and-eq-true (m === maker) (t === taker) e' in
          let same : m ≡ maker = (===_iff m maker).0 em in
          let same' : t ≡ taker = (===_iff t taker).0 et in rw (same, same') at hp
    ]

-- Whatever attempts are made in whatever order against a contract that starts empty: an asset is moved
-- only for a pair of hashes for which one of the attempts had a proof that the contract's check lets
-- through, and the authorization.
pub settle_transfer-verified :
    (cfg : Config) (verify : Verifier) (jobs : List (Text × Attempt)) (w : World)
    (maker taker : Text) (auth moves : Bool)
    → w.contract ≡ []
    → settle_transfer maker taker auth moves (run cfg verify jobs w).contract ≡ transferred
    → IsShown verify maker taker jobs
unfolding settle_transfer
settle_transfer-verified cfg verify jobs w maker taker auth moves fresh h =
    let c = (run cfg verify jobs w).contract in
    let Q : Text × Text → Type 0 = λ p. IsShown verify p.0 p.1 jobs in
    let shown : All Q c = run-All cfg verify Q jobs w (λ m t s. s) (subst (All Q) (sym fresh) tt) in
    elim (Bool-cases (is_settled maker taker c)) [
      | inl e ↦ is_settled-All Q maker taker c shown e
      | inr e ↦ absurd (refused (rw e at h))
    ]
  where
    refused : not_settled ≡ transferred → ⊥
    refused q = cc
