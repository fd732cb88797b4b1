-- ===== src/Settled.antt =====
-- web/app/app/_components/SettledBody.tsx: the poll of the settlement screen, what it shows, and the
-- receipt that can be downloaded. Of a poll, what its reads come back with are the arguments; the
-- time of the receipt is one, too.
pub mod Receipts
pub mod View
use nyx_darkpool.Base.{
  ℕ, Bool, true, false, ◌&&◌, not, Option, none, some, List, [], ◌∷◌, ◌++◌, Text, codes, ◌===◌,
  ◌==◌, if◌then◌else◌, find, is_empty, is_set, Outcome, returned, threw,
}
use nyx_darkpool.Identity.{LoadedDesk}
use nyx_darkpool.Engine.{Match, OrderSummary}
use nyx_darkpool.Ui.{short_id, explorer_tx_url, ellipsis, hhmm, cyan, rose}

pub record Screen : Type 0 where
  pub match : Option Match
  pub order : Option OrderSummary
  pub note : Text

abbrev pub mounted : Screen
mounted = record { match = none; order = none; note = codes "loading…" }

unfoldable pub match_id_of : Option OrderSummary → Option Text
match_id_of none = none
match_id_of (some o) = o.match_id

-- The end of `tick`, from the order found.
unfoldable pub with_order : Option OrderSummary → (Text → Outcome (Option Match)) → Screen → Screen
with_order mine match_of s = elim (match_id_of mine) [
  | none ↦ record s { order = mine; note = codes "not yet matched" }
  | some id ↦
      if is_empty id
      then record s { order = mine; note = codes "not yet matched" }
      else elim (match_of id) [
        | threw message ↦ record s { order = mine; note = message }
        | returned m ↦ record { match = m; order = mine; note = [] }
      ]
]

unfoldable pub mine_of : Text → List OrderSummary → Option OrderSummary
mine_of id os = find (λ o. o.id === id) os

unfoldable pub tick :
    Option Text → Outcome (List OrderSummary) → (Text → Outcome (Option Match)) → Screen → Screen
tick none orders match_of s = record s { note = codes "no active order" }
tick (some id) orders match_of s =
    if is_empty id then record s { note = codes "no active order" } else elim orders [
      | threw message ↦ record s { note = message }
      | returned os ↦ with_order (mine_of id os) match_of s
    ]

-- What a poll comes back with: the active order of the storage, the list of the orders, and the match
-- of an id.
pub record Poll : Type 0 where
  pub active : Option Text
  pub orders : Outcome (List OrderSummary)
  pub match_of : Text → Outcome (Option Match)

-- The polls of the mounted screen, one behind the other.
unfoldable pub polled : List Poll → Screen → Screen
polled [] s = s
polled (p ∷ ps) s = polled ps (tick p.active p.orders p.match_of s)

-- The three faces of the headline.
pub data Headline : Type 0 where
  settled_atomically settlement_failed awaiting_settlement : Headline

unfoldable pub status_of : Option Match → Text
status_of none = codes "pending"
status_of (some m) = m.onchain_status

unfoldable pub headline : Screen → Headline
headline s =
    if status_of s.match === codes "confirmed"
    then settled_atomically
    else if status_of s.match === codes "failed"
    then settlement_failed
    else awaiting_settlement

unfoldable pub badge : Screen → Text
badge s = elim (headline s) [
  | settled_atomically ↦ codes "PROOF VERIFIED"
  | settlement_failed ↦ codes "VERIFICATION FAILED"
  | awaiting_settlement ↦ codes "PENDING"
]

pub record Receipt : Type 0 where
  pub kind : Text
  pub network : Text
  pub generated_at : Text
  pub desk : Option Text
  pub order_id : Option Text
  pub asset_pair : Option Text
  pub match_id : Text
  pub maker_order_id : Text
  pub taker_order_id : Text
  pub has_proof : Bool
  pub onchain_status : Text
  pub settlement_tx : Option Text
  pub explorer : Option Text
  pub note : Text

abbrev explorer_of : Option Text → Option Text
explorer_of none = none
explorer_of (some tx) = if is_empty tx then none else some (explorer_tx_url tx)

abbrev key_of : Option LoadedDesk → Option Text
key_of none = none
key_of (some d) = some d.public_key

abbrev order_id_of : Option OrderSummary → Option Text
order_id_of none = none
order_id_of (some o) = some o.id

abbrev pair_of : Option OrderSummary → Option Text
pair_of none = none
pair_of (some o) = some o.asset_pair

unfoldable pub receipt : Text → Option LoadedDesk → Match → Option OrderSummary → Receipt
receipt now desk m order = record {
  kind = codes "nyx-settlement-receipt";
  network = codes "testnet";
  generated_at = now;
  desk = key_of desk;
  order_id = order_id_of order;
  asset_pair = pair_of order;
  match_id = m.id;
  maker_order_id = m.maker_order_id;
  taker_order_id = m.taker_order_id;
  has_proof = m.has_proof;
  onchain_status = m.onchain_status;
  settlement_tx = m.settlement_tx;
  explorer = explorer_of m.settlement_tx;
  note =
      if m.onchain_status === codes "confirmed"
      then codes "Price and size are sealed off-chain; the market saw only a verified proof."
      else codes "Settlement did not confirm on-chain (status: "
        ++ m.onchain_status
        ++ codes "); price and size remained sealed.";
}

-- `replace("…", "-")`: the first occurrence.
unfoldable pub replace_first : ℕ → ℕ → Text → Text
replace_first c d [] = []
replace_first c d (x ∷ s) = if x == c then d ∷ s else x ∷ replace_first c d s

unfoldable pub receipt_name : Match → Text
receipt_name m =
    codes "nyx-receipt-" ++ replace_first ellipsis 0x2d (short_id m.id 4 4) ++ codes ".json"

-- What the download button writes; it is disabled while there is no match.
unfoldable pub download : Text → Option LoadedDesk → Screen → Option (Text × Receipt)
download now desk s = elim s.match [
  | none ↦ none
  | some m ↦ some (receipt_name m, receipt now desk m s.order)
]
