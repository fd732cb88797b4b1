-- ===== src/Proofs/View.antt =====
-- web/app/app/_components/ProofsBody.tsx: what the proofs screen shows of its state. Styles that do not
-- depend on the state are left out; `active` is the id that the screen has read when it was mounted.
use nyx_darkpool.Base.{
  ℕ, Bool, false, Option, none, some, List, [], ◌∷◌, ◌++◌, Text, codes, ◌===◌, if◌then◌else◌,
  is_empty, to_upper, map,
}
use nyx_darkpool.Engine.{Match}
use nyx_darkpool.Ui.{short_id, green, cyan, middle_dot}
use nyx_darkpool.Proofs.{Screen, Stage, IconKind, is_located, build_stages, muted}

abbrev pub bright : Text
bright = codes "#ECEEF0"

-- `sub` of the header.
unfoldable pub header_sub : Option Text → Option Text
header_sub none = none
header_sub (some id) = if is_empty id then none else some (codes "/ order " ++ short_id id 4 4)

-- The dot and the title over the stages.
unfoldable pub title_color : Screen → Text
title_color s = if is_located s.match then green else cyan

abbrev pub searching : Text → Text
searching note = to_upper (if is_empty note then codes "SEARCHING" else note)

unfoldable pub title : Screen → Text
title s = if is_located s.match then codes "MATCH FOUND" else searching s.note

-- One row of the pipeline; `opacity` is a CSS number.
pub record StageRow : Type 0 where
  pub icon : IconKind
  pub title : Text
  pub sub : Text
  pub sub_color : Text
  pub tag : Text
  pub tag_color : Text
  pub background : Text
  pub opacity : Text

abbrev pub row_of : Stage → StageRow
row_of s = record {
  icon = s.icon;
  title = s.title;
  sub = s.sub;
  sub_color = elim s.sub_color [ none ↦ muted | some c ↦ c ];
  tag = s.tag;
  tag_color = s.tag_color;
  background = s.background;
  opacity = if s.dim then codes "0.5" else codes "1";
}

unfoldable pub stage_rows : Screen → List StageRow
stage_rows s = map row_of (build_stages s.match)

-- A row of the two side cards: what, which value, and in which color.
pub record CardRow : Type 0 where
  pub key : Text
  pub value : Text
  pub color : Text

abbrev pub proof_row : Option Match → CardRow
proof_row none = record { key = codes "Proof"; value = middle_dot; color = muted }
proof_row (some m) = record {
  key = codes "Proof";
  value = if m.has_proof then codes "stored ✓" else middle_dot;
  color = if m.has_proof then cyan else muted;
}

unfoldable pub artifact_rows : Screen → List CardRow
artifact_rows s =
    record { key = codes "System"; value = codes "Groth16 · BN254"; color = bright }
    ∷ record { key = codes "Public inputs"; value = codes "2 commitments"; color = bright }
    ∷ proof_row s.match
    ∷ []

abbrev pub status_value : Option Match → Text
status_value none = middle_dot
status_value (some m) = m.onchain_status

abbrev pub tx_value : ℕ → ℕ → Option Match → Text
tx_value head tail none = middle_dot
tx_value head tail (some m) = elim m.settlement_tx [
  | none ↦ middle_dot
  | some tx ↦ if is_empty tx then middle_dot else short_id tx head tail
]

unfoldable pub onchain_rows : Screen → List CardRow
onchain_rows s =
    record { key = codes "Status"; value = status_value s.match; color = bright }
    ∷ record { key = codes "Settlement tx"; value = tx_value 6 6 s.match; color = bright }
    ∷ record { key = codes "Host fn"; value = codes "bn254_pairing"; color = bright }
    ∷ []

-- Below the card: the way to the settlement, or the note that only the clearing is known.
pub data Footer : Type 0 where
  view_settlement only_cleared : Footer

abbrev pub status_confirmed : Option Match → Bool
status_confirmed none = false
status_confirmed (some m) = m.onchain_status === codes "confirmed"

unfoldable pub footer : Screen → Footer
footer s = if status_confirmed s.match then view_settlement else only_cleared
