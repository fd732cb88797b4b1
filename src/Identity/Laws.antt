-- ===== src/Identity/Laws.antt =====
-- What the desk's identity promises to the screens that ask for it.
use mathlib.Core.Bool.{false≢true}
use nyx_darkpool.Base.{
  ◌≡◌, ◌≢◌, refl, sym, ◌∙◌, true, false, Option, none, some, [], ◌∷◌, Text, codes, arith, trim,
  returned, Option-cases, Bool-cases, inl, inr,
}
use nyx_darkpool.Base.Utf8.{buffer_of}
use nyx_darkpool.Base.Json.{Json, obj, stringify}
use nyx_darkpool.Base.Json.Parse.RoundTrip.{IsFlat}
use nyx_darkpool.Browser.{Storage, get_item, set_item, remove_item, read_json, prop, text_of}
use nyx_darkpool.Browser.Laws.{read_json-set_item, MayWrite, set_item-kept, present-written}
use nyx_darkpool.Identity.{
  Keypair, Stellar, Desk, LoadedDesk, desk_key, desk_fields, loaded, validated, load_desk,
  import_desk, sign_commitment, save_desk, clear_desk,
}

-- What the library documents: a seed that passes the check opens to a keypair whose address passes
-- the other, and the empty text passes neither.
pub record IsStellar (stellar : Stellar) : Type 0 where
  pub opens :
      (s : Text)
      → stellar.is_valid_seed s ≡ true
      → (kp : Keypair) × (stellar.from_secret s ≡ returned kp)
        × (stellar.is_valid_public kp.public_key ≡ true)
  pub no_empty_seed : stellar.is_valid_seed [] ≡ false
  pub no_empty_public : stellar.is_valid_public [] ≡ false

save_desk-kept :
    (d : Desk) (s : Storage)
    → MayWrite desk_key (stringify (obj (desk_fields d))) s
    → (save_desk d s).1 ≡ true
unfolding save_desk
save_desk-kept d s may = rw (set_item-kept desk_key (stringify (obj (desk_fields d))) s may)

module _ (stellar : Stellar) where
  validated_seed :
      (d : Json) (p s : Option Text) (desk : LoadedDesk)
      → validated stellar d p s ≡ some desk
      → stellar.is_valid_seed desk.secret ≡ true
  unfolding validated
  validated_seed d (some p) (some s) desk h = ground arith
  validated_seed d (some p) none desk h = cc
  validated_seed d none s desk h = cc

  load_desk_seed :
      (s : Storage) (desk : LoadedDesk)
      → load_desk stellar s ≡ some desk
      → stellar.is_valid_seed desk.secret ≡ true
  unfolding load_desk
  load_desk_seed s desk h = elim (Option-cases (read_json desk_key s)) [
    | inl missing ↦ ground arith
    | inr (d, found) ↦
        validated_seed d (text_of (prop (codes "publicKey") d)) (text_of (prop (codes "secret") d))
          desk (ground arith)
  ]

  -- Under the library's documented laws a desk that is loaded can sign: signing does not throw.
  pub sign_commitment_of_load_desk :
      IsStellar stellar
      → (s : Storage) (desk : LoadedDesk) (commitment : Text) → load_desk stellar s ≡ some desk
      → (signature : Text) × (sign_commitment stellar desk.secret commitment ≡ returned signature)
  unfolding sign_commitment
  sign_commitment_of_load_desk laws s desk commitment h =
      let (kp, opened, _) = laws.opens desk.secret (load_desk_seed s desk h) in
      (stellar.sign kp (buffer_of commitment), rw opened)

  validated_complete :
      (d : Json) (p s : Text)
      → p ≢ []
      → s ≢ []
      → stellar.is_valid_seed s ≡ true
      → stellar.is_valid_public p ≡ true
      → validated stellar d (some p) (some s)
        ≡ some (record { label = prop (codes "label") d; public_key = p; secret = s })
  unfolding validated
  validated_complete d [] s hp hs vs vp = absurd (hp refl)
  validated_complete d p [] hp hs vs vp = absurd (hs refl)
  validated_complete d (c ∷ p) (e ∷ s) hp hs vs vp = rw (vs, vp)

  load_of_saved :
      (d : Desk) (s : Storage)
      → IsFlat (desk_fields d)
      → MayWrite desk_key (stringify (obj (desk_fields d))) s
      → load_desk stellar (save_desk d s).0
        ≡ validated stellar (obj (desk_fields d)) (some d.public_key) (some d.secret)
  unfolding load_desk save_desk prop
  load_of_saved d s flat may =
      let text = stringify (obj (desk_fields d)) in
      rw (
        read_json-set_item desk_key (desk_fields d) s flat (set_item-kept desk_key text s may),
        present-written desk_key text s may,
      )

  import_inv :
      (label secret : Text) (d : Desk)
      → IsStellar stellar
      → import_desk stellar label secret ≡ returned d
      → (stellar.is_valid_seed d.secret ≡ true) × (stellar.is_valid_public d.public_key ≡ true)
  unfolding import_desk
  import_inv label secret d laws h = elim (Bool-cases (stellar.is_valid_seed (trim secret))) [
    | inr bad ↦ ground arith
    | inl good ↦
        let (kp, opened, public) = laws.opens (trim secret) good in ground (arith, opened, public)
  ]

  -- The seed and the address of a desk pass the library's checks.
  pub record IsValidDesk (d : Desk) : Type 0 where
    pub seed : stellar.is_valid_seed d.secret ≡ true
    pub public : stellar.is_valid_public d.public_key ≡ true

  pub load_of_valid :
      (d : Desk) (s : Storage)
      → IsStellar stellar
      → IsValidDesk d
      → IsFlat (desk_fields d)
      → MayWrite desk_key (stringify (obj (desk_fields d))) s
      → ((save_desk d s).1 ≡ true) × (load_desk stellar (save_desk d s).0 ≡ some (loaded d))
  unfolding prop
  load_of_valid d s laws valid flat may = (
    save_desk-kept d s may,
    load_of_saved d s flat may
        ∙ validated_complete (obj (desk_fields d)) d.public_key d.secret
            (λ e. false≢true (sym laws.no_empty_public ∙ rw (← e) valid.public))
            (λ e. false≢true (sym laws.no_empty_seed ∙ rw (← e) valid.seed)) valid.seed
            valid.public,
  )

  pub imported-IsValidDesk :
      (label secret : Text) (d : Desk)
      → IsStellar stellar
      → import_desk stellar label secret ≡ returned d
      → IsValidDesk d
  imported-IsValidDesk label secret d laws imported =
      let (seed, public) = import_inv label secret d laws imported in
      record { seed = seed; public = public }

  -- A desk that is imported from a seed and saved, in a browser that allows it, is the desk that the
  -- gate loads afterwards, under the library's documented laws.
  pub load_desk-save_desk :
      (label secret : Text) (d : Desk) (s : Storage)
      → IsStellar stellar
      → import_desk stellar label secret ≡ returned d
      → IsFlat (desk_fields d)
      → MayWrite desk_key (stringify (obj (desk_fields d))) s
      → ((save_desk d s).1 ≡ true) × (load_desk stellar (save_desk d s).0 ≡ some (loaded d))
  load_desk-save_desk label secret d s laws imported flat may =
      load_of_valid d s laws (imported-IsValidDesk label secret d laws imported) flat may

  -- Signing out leaves no desk, wherever the storage can be read.
  pub load_desk-clear_desk :
      (s : Storage) → s.readable ≡ true → load_desk stellar (clear_desk s) ≡ none
  unfolding load_desk clear_desk remove_item read_json get_item
  load_desk-clear_desk s can_read = ground arith

-- A write that is refused is reported and leaves the storage as it was.
pub save_desk-refused : (d : Desk) (s : Storage) → (save_desk d s).1 ≡ false → (save_desk d s).0 ≡ s
unfolding save_desk set_item
save_desk-refused d s refused = ground arith
