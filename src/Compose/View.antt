-- ===== src/Compose/View.antt =====
-- web/app/app/_components/ComposeForm.tsx: what the form shows of its state.
use nyx_darkpool.Base.{
  ◌-◌, Bool, true, Option, none, some, ◌∷◌, ◌++◌, Text, codes, if◌then◌else◌, is_empty, length,
  take, drop, leb,
}
use nyx_darkpool.Seal.{Sealed}
use nyx_darkpool.Ui.{ellipsis}
use nyx_darkpool.Compose.{Form}

-- The commitment as it is shown.
unfoldable pub short : Text → Text
short dec = if leb (length dec) 18 then dec else take 10 dec ++ ellipsis ∷ drop (length dec - 8) dec

-- The button is enabled and says what it does.
unfoldable pub is_disabled : Form → Bool
is_disabled f = elim f.sealed [ none ↦ true | some s ↦ f.busy ]

unfoldable pub button_label : Form → Text
button_label f = if f.busy then codes "Broadcasting…" else codes "Seal & broadcast →"

abbrev pub shown_commitment : Option Sealed → Text
shown_commitment none = codes "computing…"
shown_commitment (some s) = short s.commitment

-- The preview's line under "Poseidon commitment".
unfoldable pub preview : Form → Text
preview f = elim f.seal_err [
  | some e ↦ if is_empty e then shown_commitment f.sealed else codes "// " ++ e
  | none ↦ shown_commitment f.sealed
]
