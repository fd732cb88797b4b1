-- ===== src/DeskView/View.antt =====
-- web/app/app/_components/DeskBody.tsx, what the desk screen shows of its state; and Topbar.tsx, its
-- header. Styles that do not depend on the state are left out.
use nyx_darkpool.Base.{
  ℕ, ◌+◌, ◌-◌, ◌%◌, Bool, true, false, Option, none, some, List, [], ◌∷◌, ◌++◌, Text, codes, ◌==◌,
  if◌then◌else◌, is_empty, length, ltb, map, to_upper,
}
use nyx_darkpool.Engine.{OrderSummary}
use nyx_darkpool.Base.Decimal.{to_decimal}
use nyx_darkpool.Ui.{short_id, side_color, status_color, hhmm, green, rose, grey, cyan}
use nyx_darkpool.DeskView.{Screen, mine, stats, activity, is_live, is_stale, status_label}

-- `Topbar`: how its content is spread, and the text behind the title.
unfoldable pub justify : Bool → Text
justify has_right = if has_right then codes "space-between" else codes "flex-start"

unfoldable pub shown_sub : Option Text → Option Text
shown_sub none = none
shown_sub (some sub) = if is_empty sub then none else some (codes " " ++ sub)

-- `LiveDot`: its color, the seconds of its pulse, and the color of the label.
pub record LiveDot : Type 0 where
  pub label : Text
  pub color : Text
  pub pulse : ℕ
  pub label_color : Text

unfoldable pub live_dot : Text → Bool → LiveDot
live_dot label ok = record {
  label = label;
  color = if ok then green else rose;
  pulse = if ok then 2 else 1;
  label_color = if ok then grey else rose;
}

unfoldable pub header_dot : Screen → LiveDot
header_dot s = live_dot (if is_live s then codes "LIVE" else codes "RECONNECTING…") (is_live s)

abbrev pub err_of : Screen → Text
err_of s = elim s.err [ none ↦ [] | some e ↦ e ]

-- The banner over the table.
unfoldable pub banner : Screen → Option Text
banner s =
    if is_stale s
    then some (
        codes "// engine unreachable · showing last-known book, retrying… ("
        ++ err_of s
        ++ codes ")")
    else none

-- The cards of the counts.
pub record Card : Type 0 where
  pub key : Text
  pub value : Text
  pub accent : Bool

unfoldable pub cards : Screen → List Card
cards s =
    record { key = codes "Open orders"; value = to_decimal (stats s).open_orders; accent = false }
    ∷ record { key = codes "Matched"; value = to_decimal (stats s).matched; accent = true }
    ∷ record { key = codes "Settled"; value = to_decimal (stats s).settled; accent = false }
    ∷ record { key = codes "Total seen"; value = to_decimal (stats s).total; accent = false }
    ∷ []

abbrev pub card_color : Card → Text
card_color c = if c.accent then cyan else codes "#ECEEF0"

-- A row of the table: a rule below all but the last, and every second one raised.
pub record TableRow : Type 0 where
  pub pair : Text
  pub side : Text
  pub side_color : Text
  pub commitment : Text
  pub status : Text
  pub status_color : Text
  pub has_rule : Bool
  pub is_raised : Bool

abbrev pub table_row : ℕ → ℕ → OrderSummary → TableRow
table_row n i o = record {
  pair = o.asset_pair;
  side = to_upper o.side;
  side_color = side_color o.side;
  commitment = short_id o.commitment 6 4;
  status = status_label o.status;
  status_color = status_color o.status;
  has_rule = ltb i (n - 1);
  is_raised = i % 2 == 1;
}

abbrev pub rows_from : ℕ → ℕ → List OrderSummary → List TableRow
rows_from n i [] = []
rows_from n i (o ∷ os) = table_row n i o ∷ rows_from n (i + 1) os

-- The table: a line of text, or the orders.
pub data Table : Type 0 where
  line : Text → Table
  orders : List TableRow → Table

unfoldable pub table : Screen → Table
table s = elim (mine s) [
  | none ↦
      line (if is_live s then codes "// loading…" else codes "// engine unreachable: " ++ err_of s)
  | some [] ↦ line (codes "// no orders from this desk yet · compose one to begin.")
  | some (o ∷ os) ↦ orders (rows_from (length (o ∷ os)) 0 (o ∷ os))
]

-- An item of the activity column: the time, the short id with its color, and the status.
abbrev pub item_of : (Text → Option Text) → OrderSummary → Text × Text × Text × Text
item_of iso_of o = (hhmm iso_of o.created_at, short_id o.id 4 4, status_color o.status, o.status)

unfoldable pub activity_items : (Text → Option Text) → Screen → List (Text × Text × Text × Text)
activity_items iso_of s = map (item_of iso_of) (activity s)

unfoldable pub is_quiet : Screen → Bool
is_quiet s = elim (mine s) [ none ↦ false | some [] ↦ true | some (o ∷ os) ↦ false ]
