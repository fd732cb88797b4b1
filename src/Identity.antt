-- ===== src/Identity.antt =====
-- web/app/_lib/desk.ts: the desk's Stellar keypair. `@stellar/stellar-base` is a parameter.
pub mod Laws
use Prim.Native.String.{String}
use nyx_darkpool.Base.{
  ℕ, Bool, true, false, ◌&&◌, not, Option, none, some, List, [], ◌∷◌, Text, codes, if◌then◌else◌,
  is_empty, trim, Outcome, returned, threw, ◌>>=◌,
}
use nyx_darkpool.Base.Utf8.{buffer_of}
use nyx_darkpool.Base.Json.{Json, null, bool, num, str, arr, obj, Fields, end, field, stringify}
use nyx_darkpool.Browser.{Storage, set_item, remove_item, prop, truthy, text_of, read_json}

pub record Keypair : Type 0 where
  pub public_key : Text
  pub secret : Text

-- `StrKey.isValidEd25519SecretSeed` and `…PublicKey` (false on what is no string),
-- `Keypair.fromSecret`, and `kp.sign(bytes)` in base64.
pub record Stellar : Type 0 where
  pub is_valid_seed : Text → Bool
  pub is_valid_public : Text → Bool
  pub from_secret : Text → Outcome Keypair
  pub sign : Keypair → List ℕ → Text

pub record Desk : Type 0 where
  pub label : Text
  pub public_key : Text
  pub secret : Text

-- A desk as it is read: the label is not looked at, so that it may be any value, or missing.
pub record LoadedDesk : Type 0 where
  pub label : Option Json
  pub public_key : Text
  pub secret : Text

abbrev pub desk_key : String
desk_key = "nyx.desk"

abbrev pub desk_fields : Desk → Fields
desk_fields d =
    field (codes "label") (str d.label)
      (field (codes "publicKey") (str d.public_key) (field (codes "secret") (str d.secret) end))

abbrev pub loaded : Desk → LoadedDesk
loaded d = record { label = some (str d.label); public_key = d.public_key; secret = d.secret }

abbrev pub desk_or_default : Text → Text
desk_or_default label = if is_empty (trim label) then codes "Desk" else trim label

module _ (stellar : Stellar) where
  open stellar use {is_valid_seed, is_valid_public, from_secret, sign}

  -- The checks on a parsed value, once its two keys are found to be texts.
  unfoldable pub validated : Json → Option Text → Option Text → Option LoadedDesk
  validated d (some public_key) (some secret) =
      if is_empty public_key
      then none
      else if is_empty secret
      then none
      else if not (is_valid_seed secret)
      then none
      else if not (is_valid_public public_key)
      then none
      else some
          (record { label = prop (codes "label") d; public_key = public_key; secret = secret })
  validated d _ _ = none

  unfoldable pub load_desk : Storage → Option LoadedDesk
  load_desk s = if not s.present then none else elim (read_json desk_key s) [
    | none ↦ none
    | some d ↦
        validated d (text_of (prop (codes "publicKey") d)) (text_of (prop (codes "secret") d))
  ]

  -- `kp` is what `Keypair.random()` has drawn.
  unfoldable pub create_desk : Keypair → Text → Desk
  create_desk kp label = record {
    label = desk_or_default label;
    public_key = kp.public_key;
    secret = kp.secret;
  }

  abbrev pub not_a_secret : Text
  not_a_secret = codes "Not a valid Stellar secret key (S...)"

  unfoldable pub import_desk : Text → Text → Outcome Desk
  import_desk label secret =
      let s = trim secret in
      if not (is_valid_seed s) then threw not_a_secret else (do
        kp ← from_secret s
        returned (record { label = desk_or_default label; public_key = kp.public_key; secret = s }))

  -- The signed bytes are those of the commitment.
  unfoldable pub sign_commitment : Text → Text → Outcome Text
  sign_commitment secret commitment = do
    kp ← from_secret secret
    returned (sign kp (buffer_of commitment))

-- The result says whether the write has succeeded.
unfoldable pub save_desk : Desk → Storage → Storage × Bool
save_desk d s =
    let (s', has_thrown) = set_item desk_key (stringify (obj (desk_fields d))) s in
    (s', not has_thrown)

unfoldable pub clear_desk : Storage → Storage
clear_desk s = (remove_item desk_key s).0
