-- ===== src/Settled/View.antt =====
-- web/app/app/_components/SettledBody.tsx: what the settlement screen shows of its state. Styles that do
-- not depend on the state are left out.
use nyx_darkpool.Base.{
  ◌≡◌, ◌↔◌, refl, Bool, true, false, Option, none, some, List, [], ◌∷◌, ◌++◌, Text, codes, ◌===◌,
  if◌then◌else◌, is_empty, to_upper, ap, ◌∙◌, Bool-cases, inl, inr,
}
use nyx_darkpool.Engine.{Match, OrderSummary}
use nyx_darkpool.Ui.{short_id, explorer_tx_url, hhmm, status_color, cyan, rose, middle_dot}
use nyx_darkpool.Proofs as Proofs
use nyx_darkpool.Proofs.View.{view_settlement, footer, status_confirmed}
use nyx_darkpool.Settled.{
  Screen, settled_atomically, settlement_failed, awaiting_settlement, headline, status_of,
}

unfoldable pub header_sub : Screen → Option Text
header_sub s = elim s.order [ none ↦ none | some o ↦ some (codes "/ " ++ short_id o.id 4 4) ]

-- The line below the headline.
unfoldable pub sub_line : (Text → Option Text) → Screen → Text
sub_line iso_of s = elim s.match [
  | none ↦ s.note
  | some m ↦ hhmm iso_of m.created_at ++ codes " UTC · match " ++ short_id m.id 4 4
]

-- A row of the receipt.
pub record ReceiptRow : Type 0 where
  pub key : Text
  pub value : Text
  pub color : Text

abbrev pub dark : Text
dark = codes "#3D434B"

abbrev pub pair_value : Option OrderSummary → Text
pair_value none = middle_dot
pair_value (some o) = o.asset_pair

abbrev pub undisclosed : Text → Text
undisclosed id = codes "undisclosed · " ++ short_id id 4 4

abbrev pub maker_value : Option Match → Text
maker_value none = middle_dot
maker_value (some m) = undisclosed m.maker_order_id

abbrev pub taker_value : Option Match → Text
taker_value none = middle_dot
taker_value (some m) = undisclosed m.taker_order_id

unfoldable pub receipt_rows : Screen → List ReceiptRow
receipt_rows s =
    record { key = codes "PAIR"; value = pair_value s.order; color = codes "#ECEEF0" }
    ∷ record {
      key = codes "STATUS";
      value = to_upper (status_of s.match);
      color = status_color (status_of s.match);
    }
    ∷ record { key = codes "MAKER"; value = maker_value s.match; color = dark }
    ∷ record { key = codes "COUNTERPARTY"; value = taker_value s.match; color = dark }
    ∷ []

-- The dot and the title of the card on the right.
unfoldable pub card_color : Screen → Text
card_color s = elim (headline s) [
  | settled_atomically ↦ cyan
  | settlement_failed ↦ rose
  | awaiting_settlement ↦ codes "#565C64"
]

unfoldable pub tx_of : Option Match → Option Text
tx_of none = none
tx_of (some m) = elim m.settlement_tx [
  | none ↦ none
  | some tx ↦ if is_empty tx then none else some tx
]

unfoldable pub tx_line : Screen → Text
tx_line s = elim (tx_of s.match) [ none ↦ middle_dot | some tx ↦ short_id tx 10 8 ]

-- The link below: to the explorer, or back to the pipeline.
unfoldable pub link : Screen → Text
link s = elim (tx_of s.match) [ none ↦ codes "/app/proofs" | some tx ↦ explorer_tx_url tx ]

-- The button is enabled, and its color.
unfoldable pub is_enabled : Screen → Bool
is_enabled s = elim s.match [ none ↦ false | some m ↦ true ]

unfoldable pub button_color : Screen → Text
button_color s = if is_enabled s then cyan else codes "#0E7E86"

same-confirmed : (m : Option Match) → status_confirmed m ≡ (status_of m === codes "confirmed")
unfolding status_of ◌===◌
same-confirmed none = refl
same-confirmed (some m) = refl

-- The proofs screen leads to the settlement screen exactly when this shows the same match as settled.
pub footer-headline :
    (p : Proofs.Screen) (s : Screen)
    → p.match ≡ s.match
    → (footer p ≡ view_settlement) ↔ (headline s ≡ settled_atomically)
unfolding footer headline
footer-headline p s e =
    let same : status_confirmed p.match ≡ (status_of s.match === codes "confirmed") =
      ap status_confirmed e ∙ same-confirmed s.match in
    elim (Bool-cases (status_of s.match === codes "confirmed")) [
      | inl c ↦ rw (same, c) (λ h. refl, λ h. refl)
      | inr c ↦ rw (same, c) (λ h. absurd (cc), λ h. absurd (not_settled _ h))
    ]
  where
    not_settled :
        (b : Bool) → (if b then settlement_failed else awaiting_settlement) ≡ settled_atomically → ⊥
    not_settled true h = cc
    not_settled false h = cc
