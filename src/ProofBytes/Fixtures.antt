-- ===== src/ProofBytes/Fixtures.antt =====
-- The files of a run of `fixtures`.
use nyx_darkpool.Base.{
  ℕ, suc, ◌≡◌, refl, Bool, true, false, List, [], ◌∷◌, Text, codes, All, length, ◌==◌, ==_iff,
  Outcome, returned, threw,
}
use nyx_darkpool.ProofBytes.{
  Env, Bytes, Proof, VerifyingKey, Run, fe, g1, g2, bind, wrote, write, check, write_each,
  public_name, ic_name, write_key, write_proof, fixtures, finished,
}
use nyx_darkpool.ProofBytes.Element.{fe_sound}
use nyx_darkpool.ProofBytes.Point.{length-g1, length-g2}

-- The files that the contract's tests include, with the size that the contract takes them to have.
pub data IsFixture : Text × Bytes → Type 0 where
  proof_a : {b : Bytes} → length b ≡ 64 → IsFixture (codes "proof_a.bin", b)
  proof_b : {b : Bytes} → length b ≡ 128 → IsFixture (codes "proof_b.bin", b)
  proof_c : {b : Bytes} → length b ≡ 64 → IsFixture (codes "proof_c.bin", b)
  public_signal : (i : ℕ) {b : Bytes} → length b ≡ 32 → IsFixture (public_name i, b)
  vk_alpha : {b : Bytes} → length b ≡ 64 → IsFixture (codes "vk_alpha_g1.bin", b)
  vk_beta : {b : Bytes} → length b ≡ 128 → IsFixture (codes "vk_beta_g2.bin", b)
  vk_gamma : {b : Bytes} → length b ≡ 128 → IsFixture (codes "vk_gamma_g2.bin", b)
  vk_delta : {b : Bytes} → length b ≡ 128 → IsFixture (codes "vk_delta_g2.bin", b)
  vk_ic : (i : ℕ) {b : Bytes} → length b ≡ 64 → IsFixture (ic_name i, b)

AreFixtures : Run → Type 0
AreFixtures r = All IsFixture r.files

bind-All :
    (f : Outcome Bytes) (rest : Bytes → Run)
    → ((b : Bytes) → f ≡ returned b → AreFixtures (rest b))
    → AreFixtures (bind f rest)
unfolding AreFixtures
bind-All (returned b) rest h = h b refl
bind-All (threw e) rest h = tt

write-All :
    (name : Text) (f : Outcome Bytes) (rest : Run)
    → ((b : Bytes) → f ≡ returned b → IsFixture (name, b))
    → AreFixtures rest
    → AreFixtures (write name f rest)
unfolding AreFixtures
write-All name (returned b) rest h all = (h b refl, all)
write-All name (threw e) rest h all = tt

check-All :
    (ok : Bool) (message : Text) (rest : Run)
    → AreFixtures rest
    → AreFixtures (check ok message rest)
unfolding AreFixtures
check-All true message rest h = h
check-All false message rest h = tt

write_each-All :
    {A : Type 0} (name : ℕ → Text) (f : A → Outcome Bytes) (i : ℕ) (l : List A) (rest : Run)
    → ((i : ℕ) (a : A) (b : Bytes) → f a ≡ returned b → IsFixture (name i, b))
    → AreFixtures rest
    → AreFixtures (write_each name f i l rest)
unfolding write_each
write_each-All name f i [] rest h all = all
write_each-All name f i (a ∷ l) rest h all =
    write-All (name i) (f a) (write_each name f (suc i) l rest) (h i a)
      (write_each-All name f (suc i) l rest h all)

write_key-All : (env : Env) (vk : VerifyingKey) → AreFixtures (write_key env vk)
unfolding AreFixtures
write_key-All env vk = check-All (length vk.ic == 3) _ _ (
    write-All (codes "vk_alpha_g1.bin") (g1 env vk.vk_alpha_1) _
      (λ b h. IsFixture.vk_alpha (length-g1 env vk.vk_alpha_1 b h))
      (write-All (codes "vk_beta_g2.bin") (g2 env vk.vk_beta_2) _
        (λ b h. IsFixture.vk_beta (length-g2 env vk.vk_beta_2 b h))
        (write-All (codes "vk_gamma_g2.bin") (g2 env vk.vk_gamma_2) _
          (λ b h. IsFixture.vk_gamma (length-g2 env vk.vk_gamma_2 b h))
          (write-All (codes "vk_delta_g2.bin") (g2 env vk.vk_delta_2) _
            (λ b h. IsFixture.vk_delta (length-g2 env vk.vk_delta_2 b h))
            (write_each-All ic_name (g1 env) 0 vk.ic finished
              (λ i p b h. IsFixture.vk_ic i (length-g1 env p b h)) tt)))))

length-fe : (env : Env) (dec : Text) (b : Bytes) → fe env dec ≡ returned b → length b ≡ 32
length-fe env dec b h = let (_, _, _, (size, _), _) = fe_sound env dec b h in size

-- The three length checks let the bytes of the points through.
write_proof-passes :
    (a b c : Bytes) (rest : Run)
    → length a ≡ 64
    → length b ≡ 128
    → length c ≡ 64
    → write_proof a b c rest
      ≡ wrote
          (codes "proof_a.bin")
          a
          (wrote (codes "proof_b.bin") b (wrote (codes "proof_c.bin") c rest))
write_proof-passes a b c rest ha hb hc =
    rw ((==_iff (length a) 64).1 ha, (==_iff (length b) 128).1 hb, (==_iff (length c) 64).1 hc) refl

-- The three length checks never end a run: whenever the points of the proof have bytes, these are
-- written and the run goes on with the public signals and the key.
pub fixtures_unchecked :
    (env : Env) (proof : Proof) (public : List Text) (vk : VerifyingKey) (a b c : Bytes)
    → g1 env proof.pi_a ≡ returned a
    → g2 env proof.pi_b ≡ returned b
    → g1 env proof.pi_c ≡ returned c
    → fixtures env proof public vk
      ≡ wrote (codes "proof_a.bin") a (
          wrote (codes "proof_b.bin") b (
            wrote
              (codes "proof_c.bin")
              c
              (write_each public_name (fe env) 0 public (write_key env vk))))
unfolding fixtures
fixtures_unchecked env proof public vk a b c ea eb ec =
    rw (ea, eb, ec)
      (write_proof-passes a b c (write_each public_name (fe env) 0 public (write_key env vk))
        (length-g1 env proof.pi_a a ea) (length-g2 env proof.pi_b b eb)
        (length-g1 env proof.pi_c c ec))

-- Every file that a run writes, one that an error ends included, is one of the contract's fixtures and
-- has its size: 32 bytes for a public signal, 64 for a point of G1 and 128 for one of G2.
pub fixtures-IsFixture :
    (env : Env) (proof : Proof) (public : List Text) (vk : VerifyingKey)
    → All IsFixture (fixtures env proof public vk).files
unfolding fixtures AreFixtures
fixtures-IsFixture env proof public vk =
    let rest = write_each public_name (fe env) 0 public (write_key env vk) in
    bind-All (g1 env proof.pi_a) _ λ a ea. bind-All (g2 env proof.pi_b) _ λ b eb.
      bind-All (g1 env proof.pi_c) _ λ c ec.
        let ha = length-g1 env proof.pi_a a ea in
        let hb = length-g2 env proof.pi_b b eb in
        let hc = length-g1 env proof.pi_c c ec in
        rw (write_proof-passes a b c rest ha hb hc) (
          IsFixture.proof_a ha,
          (
            IsFixture.proof_b hb,
            (
              IsFixture.proof_c hc,
              write_each-All public_name (fe env) 0 public (write_key env vk)
                  (λ i v b h. IsFixture.public_signal i (length-fe env v b h))
                  (write_key-All env vk),
            ),
          ),
        )
