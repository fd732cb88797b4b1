-- ===== src/Base/Json/Parse.antt =====
-- `JSON.parse`: strings unit by unit, numerals by their grammar, values by recursion on fuel.
pub mod Quoting
pub mod RoundTrip
use Prim.Native.Nat.{ℕ, zero, suc, ◌+◌, ◌-◌, ◌*◌}
use mathlib.Core.Path.{◌≡◌, refl}
use mathlib.Core.Bool.{Bool, true, false, ◌&&◌, ◌||◌}
use mathlib.Core.Option.{Option, none, some}
use mathlib.Core.List.{[], ◌∷◌}
use nyx_darkpool.Base.Tests.{leb, ltb, ◌==◌, if◌then◌else◌}
use nyx_darkpool.Base.Lists.{length}
use nyx_darkpool.Base.Strings.{Text, codes, is_digit, is_empty}
use nyx_darkpool.Base.Json.{
  Json, null, bool, num, str, arr, obj, Items, nil, cons, Fields, end, field, quote, backslash,
}

-- Reading a string: what one unit does in each mode.
pub data Mode : Type 0 where
  plain escaped : Mode
  hex : (left acc : ℕ) → Mode

pub data Advance : Type 0 where
  close fail : Advance
  go : Option ℕ → Mode → Advance

pub hex_value : ℕ → Option ℕ
hex_value c =
    if is_digit c
    then some (c - b'0')
    else if leb b'a' c && leb c b'f'
    then some (c - b'a' + 10)
    else if leb b'A' c && leb c b'F'
    then some (c - b'A' + 10)
    else none

pub advance_hex : ℕ → ℕ → Option ℕ → Advance
advance_hex left acc none = fail
advance_hex zero acc (some d) = go (some (acc * 16 + d)) plain
advance_hex (suc left) acc (some d) = go none (hex left (acc * 16 + d))

pub advance_escaped : ℕ → Advance
advance_escaped c =
    if c == quote || c == backslash || c == b'/'
    then go (some c) plain
    else if c == b'b'
    then go (some 8) plain
    else if c == b't'
    then go (some 9) plain
    else if c == b'n'
    then go (some 10) plain
    else if c == b'f'
    then go (some 12) plain
    else if c == b'r'
    then go (some 13) plain
    else if c == b'u'
    then go none (hex 3 0)
    else fail

pub advance : Mode → ℕ → Advance
advance plain c =
    if c == quote
    then close
    else if c == backslash
    then go none escaped
    else if ltb c 32
    then fail
    else go (some c) plain
advance escaped c = advance_escaped c
advance (hex left acc) c = advance_hex left acc (hex_value c)

pub push : Option ℕ → Option (Text × Text) → Option (Text × Text)
push e none = none
push none (some r) = some r
push (some c) (some (s, rest)) = some (c ∷ s, rest)

-- Behind the opening quote: the string and what follows its closing quote.
pub read_string : Mode → Text → Option (Text × Text)
read_string m [] = none
read_string m (c ∷ s) = elim (advance m c) [
  | close ↦ some ([], s)
  | fail ↦ none
  | go e m' ↦ push e (read_string m' s)
]

pub skip_space : Text → Text
skip_space [] = []
skip_space (c ∷ s) = if c == 32 || c == 9 || c == 10 || c == 13 then skip_space s else c ∷ s

-- `expect c s` wants `c` next, behind white space.
pub expect : ℕ → Text → Option Text
unfolding skip_space
expect c s = elim (skip_space s) [ [] ↦ none | d ∷ rest ↦ if d == c then some rest else none ]

pub strip : Text → Text → Option Text
strip [] s = some s
strip (c ∷ t) [] = none
strip (c ∷ t) (d ∷ s) = if c == d then strip t s else none

-- A numeral is a maximal run of these characters, if it has the grammar of a JSON number.
pub numeral_unit : ℕ → Bool
numeral_unit c = is_digit c || c == b'-' || c == b'+' || c == b'.' || c == b'e' || c == b'E'

pub span_numeral : Text → Text × Text
span_numeral [] = ([], [])
span_numeral (c ∷ s) =
    let (n, rest) = span_numeral s in if numeral_unit c then (c ∷ n, rest) else ([], c ∷ s)

pub drop_digits : Text → Text
drop_digits [] = []
drop_digits (c ∷ s) = if is_digit c then drop_digits s else c ∷ s

pub digits_then : (Text → Bool) → Text → Bool
digits_then rest [] = false
digits_then rest (c ∷ s) = is_digit c && rest (drop_digits s)

pub exponent : Text → Bool
exponent [] = true
exponent (c ∷ []) = false
exponent (c ∷ d ∷ s) =
    (c == b'e' || c == b'E')
    && (if d == b'-' || d == b'+' then digits_then is_empty s else digits_then is_empty (d ∷ s))

pub fraction : Text → Bool
fraction [] = true
fraction (c ∷ s) = if c == b'.' then digits_then exponent s else exponent (c ∷ s)

pub unsigned : Text → Bool
unsigned [] = false
unsigned (c ∷ s) = if c == b'0' then fraction s else is_digit c && fraction (drop_digits s)

pub is_numeral : Text → Bool
is_numeral [] = false
is_numeral (c ∷ s) = if c == b'-' then unsigned s else unsigned (c ∷ s)

infixl 5 ◌>>=◌
abbrev pub ◌>>=◌ {ℓ κ} : {A : Type ℓ} {B : Type κ} → Option A → (A → Option B) → Option B
none >>= f = none
some a >>= f = f a

abbrev pub Parsed : Type 0
Parsed = Option (Json × Text)

-- A literal name, a number, or nothing.
pub parse_word : Text → Parsed
unfolding strip span_numeral is_numeral
parse_word s = elim (strip (codes "null") s) [
  | some rest ↦ some (null, rest)
  | none ↦ elim (strip (codes "true") s) [
    | some rest ↦ some (bool true, rest)
    | none ↦ elim (strip (codes "false") s) [
      | some rest ↦ some (bool false, rest)
      | none ↦
          let (numeral, rest) = span_numeral s in
          if is_numeral numeral then some (num numeral, rest) else none
    ]
  ]
]

-- A value that begins at its first unit; `items` and `fields` read what stands behind a bracket.
pub parse_start : (Text → Option (Items × Text)) → (Text → Option (Fields × Text)) → Text → Parsed
unfolding read_string expect parse_word
parse_start items fields [] = none
parse_start items fields (c ∷ s) =
    if c == quote
    then (do (t, rest) ← read_string plain s; some (str t, rest))
    else if c == b'['
    then elim (expect b']' s) [
      | some rest ↦ some (arr nil, rest)
      | none ↦ (do (vs, rest) ← items s; some (arr vs, rest))
    ]
    else if c == b'{'
    then elim (expect b'}' s) [
      | some rest ↦ some (obj end, rest)
      | none ↦ (do (fs, rest) ← fields s; some (obj fs, rest))
    ]
    else parse_word (c ∷ s)

-- Behind a member: a comma and more of them, or the closing bracket.
pub more_or_close {ℓ} :
    {A : Type ℓ} → ℕ → (Text → Option (A × Text)) → A → (A → A) → Text → Option (A × Text)
more_or_close closing more last join s = elim (expect closing s) [
  | some rest ↦ some (last, rest)
  | none ↦ (do rest ← expect b',' s; (found, rest') ← more rest; some (join found, rest'))
]

-- Behind an opening bracket or a comma: one item or one member, then what `more_or_close` reads.
pub read_item : (Text → Parsed) → (Text → Option (Items × Text)) → Text → Option (Items × Text)
unfolding more_or_close
read_item value more s = do (v, rest) ← value s; more_or_close b']' more (cons v nil) (cons v) rest

pub read_member : (Text → Parsed) → (Text → Option (Fields × Text)) → Text → Option (Fields × Text)
unfolding expect read_string more_or_close
read_member value more s = do
  opened ← expect quote s
  (k, behind_key) ← read_string plain opened
  behind_colon ← expect b':' behind_key
  (v, rest) ← value behind_colon
  more_or_close b'}' more (field k v end) (field k v) rest

mutual
  unfolding parse_start skip_space read_item read_member

  pub parse_value : ℕ → Text → Parsed
  parse_value zero s = none
  parse_value (suc fuel) s = parse_start (parse_items fuel) (parse_fields fuel) (skip_space s)

  pub parse_items : ℕ → Text → Option (Items × Text)
  parse_items zero s = none
  parse_items (suc fuel) s = read_item (parse_value fuel) (parse_items fuel) s

  pub parse_fields : ℕ → Text → Option (Fields × Text)
  parse_fields zero s = none
  parse_fields (suc fuel) s = read_member (parse_value fuel) (parse_fields fuel) s

-- Nothing but white space may follow the value.
pub finish : Parsed → Option Json
unfolding skip_space
finish none = none
finish (some (v, rest)) = if is_empty (skip_space rest) then some v else none

-- `JSON.parse(s)`, with `none` for the SyntaxError. Of two nested calls one has read a unit.
unfoldable pub parse : Text → Option Json
unfolding parse_value finish
parse s = finish (parse_value (suc (2 * length s)) s)

pub parse_lem : (s : Text) → parse s ≡ finish (parse_value (suc (2 * length s)) s)
unfolding parse
parse_lem s = refl
