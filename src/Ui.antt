-- ===== src/Ui.antt =====
-- web/app/_lib/ui.ts: the display helpers. Dates are a parameter: `iso_of` is
-- `new Date(s).toISOString()`, `none` where the date is invalid. `priceFromInt` divides doubles and
-- is left out.
pub mod Laws
use nyx_darkpool.Base.{
  ℕ, ◌+◌, ◌-◌, Bool, true, false, ◌||◌, Option, none, some, [], ◌∷◌, ◌++◌, Text, codes, ◌===◌, ◌==◌,
  if◌then◌else◌, is_empty, length, take, drop, leb, to_lower,
}

abbrev pub ellipsis : ℕ
ellipsis = 0x2026

abbrev pub middle_dot : Text
middle_dot = 0xb7 ∷ []

-- `s.slice(-n)`; `-0` is 0, so that at 0 it is the whole of `s`.
abbrev pub slice_last : ℕ → Text → Text
slice_last n s = if n == 0 then s else drop (length s - n) s

unfoldable pub short_id : Text → ℕ → ℕ → Text
short_id s head tail =
    if is_empty s
    then middle_dot
    else if leb (length s) (head + tail + 1)
    then s
    else take head s ++ ellipsis ∷ slice_last tail s

abbrev pub rose : Text
rose = codes "#E05A6E"

abbrev pub green : Text
green = codes "#43C08A"

abbrev pub cyan : Text
cyan = codes "#3BD7E0"

abbrev pub grey : Text
grey = codes "#8A9099"

unfoldable pub side_color : Text → Text
unfolding ◌===◌ to_lower
side_color side = if to_lower side === codes "ask" then rose else green

unfoldable pub status_color : Text → Text
unfolding ◌===◌ to_lower
status_color status =
    let s = to_lower status in
    if s === codes "settled" || s === codes "confirmed"
    then cyan
    else if s === codes "matched" || s === codes "submitted"
    then green
    else if s === codes "failed"
    then rose
    else grey

unfoldable pub hhmm : (Text → Option Text) → Text → Text
hhmm iso_of iso = elim (iso_of iso) [ none ↦ codes "--:--" | some s ↦ take 5 (drop 11 s) ]

unfoldable pub explorer_tx_url : Text → Text
explorer_tx_url tx = codes "https://stellar.expert/explorer/testnet/tx/" ++ tx
