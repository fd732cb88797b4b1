-- ===== src/Base/Json.antt =====
-- JSON values, `JSON.stringify` without indentation, and `JSON.parse`. A number keeps its numeral:
-- nothing in the modelled code computes with one.
pub mod Parse
use Prim.Native.Nat.{ℕ, zero, suc, ◌+◌, ◌-◌, ◌*◌, ◌/◌, ◌%◌, ◌<◌}
use mathlib.Core.Bool.{Bool, true, false, ◌&&◌, ◌||◌}
use mathlib.Core.Option.{Option, none, some}
use mathlib.Core.List.{List, [], ◌∷◌, ◌++◌}
use native.Mathlib.Omega.{arith}
use nyx_darkpool.Base.Tests.{leb, ltb, ◌==◌, if◌then◌else◌}
use nyx_darkpool.Base.Lists.{length}
use nyx_darkpool.Base.Strings.{Text, codes, ◌===◌, is_digit, is_empty, starts_with}

mutual
  pub data Json : Type 0 where
    null : Json
    bool : Bool → Json
    num : Text → Json
    str : Text → Json
    arr : Items → Json
    obj : Fields → Json

  pub data Items : Type 0 where
    nil : Items
    cons : Json → Items → Items

  pub data Fields : Type 0 where
    end : Fields
    field : Text → Json → Fields → Fields

abbrev pub quote : ℕ
quote = b'"'

abbrev pub backslash : ℕ
backslash = b'\\'

pub hex_char : ℕ → ℕ
hex_char d = if ltb d 10 then b'0' + d else b'a' + (d - 10)

pub unicode_escape : ℕ → Text
unicode_escape c =
    backslash
    ∷ b'u'
    ∷ hex_char (c / 4096)
    ∷ hex_char (c / 256 % 16)
    ∷ hex_char (c / 16 % 16)
    ∷ hex_char (c % 16)
    ∷ []

abbrev pub is_high : ℕ → Bool
is_high c = leb 0xd800 c && leb c 0xdbff

abbrev pub is_low : ℕ → Bool
is_low c = leb 0xdc00 c && leb c 0xdfff

pub starts_low : Text → Bool
starts_low [] = false
starts_low (c ∷ s) = is_low c

-- One code unit inside a string; `in_pair` says that it is part of a surrogate pair.
pub written_unit : Bool → ℕ → Text
written_unit in_pair c =
    if c == quote || c == backslash
    then backslash ∷ c ∷ []
    else if c == 8
    then backslash ∷ b'b' ∷ []
    else if c == 9
    then backslash ∷ b't' ∷ []
    else if c == 10
    then backslash ∷ b'n' ∷ []
    else if c == 12
    then backslash ∷ b'f' ∷ []
    else if c == 13
    then backslash ∷ b'r' ∷ []
    else if ltb c 32
    then unicode_escape c
    else if leb 0xd800 c && leb c 0xdfff && (if in_pair then false else true)
    then unicode_escape c
    else c ∷ []

-- `behind_high` says that the unit before is a high surrogate.
pub written : Bool → Text → Text
written behind_high [] = []
written behind_high (c ∷ s) =
    written_unit ((behind_high && is_low c) || (is_high c && starts_low s)) c
    ++ written (is_high c) s

pub quoted_text : Text → Text
quoted_text s = quote ∷ (written false s ++ quote ∷ [])

unfoldable mutual
  pub stringify : Json → Text
  stringify null = codes "null"
  stringify (bool true) = codes "true"
  stringify (bool false) = codes "false"
  stringify (num numeral) = numeral
  stringify (str s) = quoted_text s
  stringify (arr vs) = b'[' ∷ (stringify_items vs ++ b']' ∷ [])
  stringify (obj fs) = b'{' ∷ (stringify_fields fs ++ b'}' ∷ [])

  pub stringify_items : Items → Text
  stringify_items nil = []
  stringify_items (cons v nil) = stringify v
  stringify_items (cons v vs) = stringify v ++ b',' ∷ stringify_items vs

  pub stringify_fields : Fields → Text
  stringify_fields end = []
  stringify_fields (field k v end) = quoted_text k ++ b':' ∷ stringify v
  stringify_fields (field k v fs) =
      quoted_text k ++ b':' ∷ (stringify v ++ b',' ∷ stringify_fields fs)
