-- ===== src/ProofBytes/Hex.antt =====
-- The hexadecimal form and a reader of it.
use nyx_darkpool.Base.{
  ℕ, ◌+◌, ◌-◌, ◌*◌, ◌/◌, ◌%◌, ◌<◌, ◌≡◌, refl, ap, sym, ◌∙◌, List, [], ◌∷◌, Text, arith, ltb,
  if◌then◌else◌, drop, ◌>>=◌, subst, Outcome, returned, >>=-eq-returned,
}
use nyx_darkpool.ProofBytes.{
  Env, Bytes, Proof, HexProof, fe, g1, g2, hex_digit, hex_of, h, hex_each, hex,
}
use nyx_darkpool.ProofBytes.Element.{fe_sound}
use nyx_darkpool.ProofBytes.Point.{AreBytes, g1-AreBytes, g2-AreBytes}

-- A reader of lower-case hexadecimal.
abbrev pub worth : ℕ → ℕ
worth c = if ltb c b'a' then c - b'0' else c - b'a' + 10

abbrev pub of_hex : Text → Bytes
of_hex (hi ∷ lo ∷ s) = (worth hi * 16 + worth lo) ∷ of_hex s
of_hex _ = []

-- The bytes behind `0x`.
abbrev pub unhex : Text → Bytes
unhex s = of_hex (drop 2 s)

worth-hex_digit : (d : ℕ) → d < 16 → worth (hex_digit d) ≡ d
worth-hex_digit d lt = ground arith

of_hex-hex_of : (b : Bytes) → AreBytes b → of_hex (hex_of b) ≡ b
unfolding hex_of
of_hex-hex_of [] bytes = refl
of_hex-hex_of (c ∷ b) (lt, bytes) =
    let byte : worth (hex_digit (c / 16)) * 16 + worth (hex_digit (c % 16)) ≡ c =
      rw (worth-hex_digit (c / 16) (omega arith), worth-hex_digit (c % 16) (omega arith))
        (omega arith) in
    rw (byte, of_hex-hex_of b bytes) refl

unhex-h : (b : Bytes) → AreBytes b → unhex (h b) ≡ b
unhex-h b bytes = of_hex-hex_of b bytes

-- The bytes of each public signal.
abbrev pub Reads : Env → List Text → List Text → Type 0
Reads env [] [] = Unit
Reads env (v ∷ l) (s ∷ texts) = (fe env v ≡ returned (unhex s)) × Reads env l texts
Reads env _ _ = ⊥

fe-AreBytes : (env : Env) (dec : Text) (b : Bytes) → fe env dec ≡ returned b → AreBytes b
fe-AreBytes env dec b e = let (_, _, _, (_, bytes), _) = fe_sound env dec b e in bytes

-- A text that reads back as the bytes that a call has returned.
reads : (f : Outcome Bytes) (b : Bytes) → f ≡ returned b → AreBytes b → f ≡ returned (unhex (h b))
reads f b e bytes = e ∙ ap returned (sym (unhex-h b bytes))

hex_each-Reads :
    (env : Env) (l texts : List Text) → hex_each env l ≡ returned texts → Reads env l texts
unfolding hex_each
hex_each-Reads env [] [] e = tt
hex_each-Reads env [] (t ∷ texts) e = cc
hex_each-Reads env (v ∷ l) texts e =
    let (b, eb, e') =
      >>=-eq-returned (fe env v) (λ b. hex_each env l >>= λ rest. returned (h b ∷ rest)) e in
    let (rest, er, e'') = >>=-eq-returned (hex_each env l) (λ rest. returned (h b ∷ rest)) e' in
    let same : h b ∷ rest ≡ texts = ground (arith, e'') in
    subst (Reads env (v ∷ l)) same
      (reads (fe env v) b eb (fe-AreBytes env v b eb), hex_each-Reads env l rest er)

abbrev IsRead : Env → Proof → List Text → HexProof → Type 0
IsRead env proof public x =
    (g1 env proof.pi_a ≡ returned (unhex x.proof_a))
    × (g2 env proof.pi_b ≡ returned (unhex x.proof_b))
    × (g1 env proof.pi_c ≡ returned (unhex x.proof_c))
    × Reads env public x.public

-- Where `hex` returns an object, each of its texts is read back, as hexadecimal behind `0x`, as the
-- bytes of its point, and the texts of the public signals, one for one, as the bytes of the signals.
pub hex_sound :
    (env : Env) (proof : Proof) (public : List Text) (x : HexProof)
    → hex env proof public ≡ returned x
    → (g1 env proof.pi_a ≡ returned (unhex x.proof_a))
      × (g2 env proof.pi_b ≡ returned (unhex x.proof_b))
      × (g1 env proof.pi_c ≡ returned (unhex x.proof_c))
      × Reads env public x.public
unfolding hex
hex_sound env proof public x e =
    let (a, ea, e') = >>=-eq-returned (g1 env proof.pi_a) _ e in
    let (b, eb, e'') = >>=-eq-returned (g2 env proof.pi_b) _ e' in
    let (c, ec, e''') = >>=-eq-returned (g1 env proof.pi_c) _ e'' in
    let (signals, es, e'''') = >>=-eq-returned (hex_each env public) _ e''' in
    let made : HexProof = record {
      proof_a = h a;
      proof_b = h b;
      proof_c = h c;
      public = signals;
    } in
    let same : made ≡ x = ground (arith, e'''') in
    subst (IsRead env proof public) same (
      reads (g1 env proof.pi_a) a ea (g1-AreBytes env proof.pi_a a ea),
      reads (g2 env proof.pi_b) b eb (g2-AreBytes env proof.pi_b b eb),
      reads (g1 env proof.pi_c) c ec (g1-AreBytes env proof.pi_c c ec),
      hex_each-Reads env public signals es,
    )
