-- ===== src/Base/Json/Parse/Quoting.antt =====
-- A string that is written is read back.
use nyx_darkpool.Base.Lists.{All}
use nyx_darkpool.Base.Strings.{Text}
use Prim.Native.Nat.{ℕ, suc, ◌+◌, ◌*◌, ◌/◌, ◌%◌, ◌<◌}
use mathlib.Core.Path.{◌≡◌, refl}
use mathlib.Core.Bool.{Bool}
use mathlib.Core.Option.{Option, none, some}
use mathlib.Core.List.{[], ◌∷◌, ◌++◌, append_assoc}
use native.Mathlib.Omega.{arith}
use nyx_darkpool.Base.Json.{
  quote, backslash, hex_char, unicode_escape, written_unit, written, is_high,
}
use nyx_darkpool.Base.Json.Parse.{
  plain, hex, hex_value, advance_hex, advance_escaped, advance, push, read_string,
}

-- The units of a string.
abbrev pub AreUnits : Text → Type 0
AreUnits = All (λ c. c < 65536)

hex_value-hex_char : (d : ℕ) → d < 16 → hex_value (hex_char d) ≡ some d
unfolding hex_value hex_char
hex_value-hex_char d h = ground arith

read_hex_more :
    (left acc d : ℕ) (s : Text)
    → d < 16
    → read_string (hex (suc left) acc) (hex_char d ∷ s)
      ≡ push none (read_string (hex left (acc * 16 + d)) s)
unfolding read_string advance advance_hex
read_hex_more left acc d s h = rw (read_string, hex_value-hex_char d h)

read_hex_last :
    (acc d : ℕ) (s : Text)
    → d < 16
    → read_string (hex 0 acc) (hex_char d ∷ s) ≡ push (some (acc * 16 + d)) (read_string plain s)
unfolding read_string advance advance_hex
read_hex_last acc d s h = rw (read_string, hex_value-hex_char d h)

push-none : (r : Option (Text × Text)) → push none r ≡ r
unfolding push
push-none none = refl
push-none (some r) = refl

read_open_unicode :
    (s : Text)
    → read_string plain (backslash ∷ b'u' ∷ s) ≡ push none (push none (read_string (hex 3 0) s))
unfolding read_string advance advance_escaped
read_open_unicode s = refl

read_unicode_escape :
    (c : ℕ) (s : Text)
    → c < 65536
    → read_string plain (unicode_escape c ++ s) ≡ push (some c) (read_string plain s)
unfolding unicode_escape
read_unicode_escape c s h =
    let whole : (((0 * 16 + c / 4096) * 16 + c / 256 % 16) * 16 + c / 16 % 16) * 16 + c % 16 ≡ c =
      omega arith in
    rw (
      read_open_unicode,
      push-none,
      push-none,
      read_hex_more 2 0 (c / 4096) _ (omega arith),
      push-none,
      read_hex_more 1 _ (c / 256 % 16) _ (omega arith),
      push-none,
      read_hex_more 0 _ (c / 16 % 16) _ (omega arith),
      push-none,
      read_hex_last _ (c % 16) _ (omega arith),
      whole,
    )

read_written_unit :
    (in_pair : Bool) (c : ℕ) (s : Text)
    → c < 65536
    → read_string plain (written_unit in_pair c ++ s) ≡ push (some c) (read_string plain s)
unfolding written_unit read_string advance advance_escaped
read_written_unit in_pair c s h =
    ground (arith, read_unicode_escape c s h, push-none (push (some c) (read_string plain s)))

pub read_string-written :
    (behind_high : Bool) (s rest : Text)
    → AreUnits s
    → read_string plain (written behind_high s ++ quote ∷ rest) ≡ some (s, rest)
unfolding written
read_string-written behind_high [] rest h = unfold read_string advance in refl
read_string-written behind_high (c ∷ s) rest (hc, h) =
    rw (append_assoc, read_written_unit _ c _ hc, read_string-written (is_high c) s rest h)
      (unfold push in refl)
