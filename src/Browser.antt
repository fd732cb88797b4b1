-- ===== src/Browser.antt =====
-- The browser's local storage as `_lib/ui.ts` and `_lib/desk.ts` use it, and objects read from JSON.
-- The four keys are different native strings; a stored value is a text.
pub mod Laws
use Prim.Native.String.{String}
use text.Mathlib.Text.{◌==◌ as str_eq}
use nyx_darkpool.Base.{
  ℕ, Bool, true, false, not, Option, none, some, [], ◌∷◌, Text, codes, ◌===◌, ◌==◌, leb,
  if◌then◌else◌, is_empty, Outcome, returned, threw, ◌&&◌, ◌||◌,
}
use nyx_darkpool.Base.Json.Parse.{parse}
use nyx_darkpool.Base.Json.{Json, null, bool, num, str, arr, obj, Fields, end, field}

-- `accepts` is what the browser lets a page write (quota, private mode); `readable` is false where
-- every access to the storage throws, and `present` is false on the server, where there is no window.
pub record Storage : Type 0 where
  pub items : String → Option Text
  pub present : Bool
  pub readable : Bool
  pub accepts : String → Text → Bool

abbrev pub storage_error : Text
storage_error = codes "SecurityError"

unfoldable pub get_item : String → Storage → Outcome (Option Text)
get_item key s = if s.readable then returned (s.items key) else threw storage_error

abbrev pub with_item : String → Option Text → Storage → Storage
with_item key v s = record s { items = λ k. if str_eq k key then v else s.items k }

-- `setItem`: the storage behind it, and whether it has thrown.
unfoldable pub set_item : String → Text → Storage → Storage × Bool
set_item key v s =
    if s.readable && s.accepts key v then (with_item key (some v) s, false) else (s, true)

unfoldable pub remove_item : String → Storage → Storage × Bool
remove_item key s = if s.readable then (with_item key none s, false) else (s, true)

-- `o.name`, with `none` for undefined; of two equal keys the last counts.
unfoldable pub field_of : Text → Fields → Option Json
field_of name end = none
field_of name (field k v fs) = elim (field_of name fs) [
  | some w ↦ some w
  | none ↦ if k === name then some v else none
]

-- On `null` (and undefined) the access throws; on other values without fields it is undefined.
unfoldable pub prop : Text → Json → Option Json
unfolding field_of ◌===◌
prop name (obj fs) = field_of name fs
prop name _ = none

-- A numeral of zero has no other digit than 0 ahead of its exponent.
is_zero : Text → Bool
is_zero [] = true
is_zero (c ∷ s) =
    if c == b'e' || c == b'E' then true else not (leb b'1' c && leb c b'9') && is_zero s

-- `!!v` for a value that may be undefined; numbers too small for a double count as what they say.
unfoldable pub truthy : Option Json → Bool
unfolding is_zero
truthy none = false
truthy (some null) = false
truthy (some (bool b)) = b
truthy (some (num n)) = not (is_zero n)
truthy (some (str s)) = not (is_empty s)
truthy (some _) = true

-- The text of a value that is a string.
abbrev pub text_of : Option Json → Option Text
text_of (some (str s)) = some s
text_of _ = none

-- The page reads one item and parses it as JSON; every exception and the empty text are `none`.
unfoldable pub read_json : String → Storage → Option Json
unfolding get_item
read_json key s = elim (get_item key s) [
  | returned (some raw) ↦ if is_empty raw then none else parse raw
  | returned none ↦ none
  | threw e ↦ none
]
