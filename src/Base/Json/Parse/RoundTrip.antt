-- ===== src/Base/Json/Parse/RoundTrip.antt =====
-- An object of texts, truth values and nulls that is written by `stringify` is read by `parse`.
use Prim.Native.Nat.{ℕ, zero, suc, ◌*◌, ◌≤◌, ◌<◌}
use mathlib.Core.Path.{◌≡◌, refl}
use mathlib.Core.Bool.{true, false}
use mathlib.Core.Option.{Option, none, some}
use mathlib.Core.List.{[], ◌∷◌, ◌++◌, append_assoc}
use native.Mathlib.Omega.{arith}
use nyx_darkpool.Base.Lists.{length, length-append}
use nyx_darkpool.Base.Strings.{Text}
use nyx_darkpool.Base.Json.{
  Json, null, bool, num, str, arr, obj, Items, Fields, end, field, quote, written, quoted_text,
  stringify, stringify_fields,
}
use nyx_darkpool.Base.Json.Parse.{
  skip_space, expect, strip, parse_word, parse_start, more_or_close, parse_value, parse_items,
  parse_fields, read_member, parse, parse_lem, finish,
}
use nyx_darkpool.Base.Json.Parse.Quoting.{AreUnits, read_string-written}

abbrev pub IsScalar : Json → Type 0
IsScalar null = Unit
IsScalar (bool b) = Unit
IsScalar (str s) = AreUnits s
IsScalar _ = ⊥

-- Every key is a text and every value a scalar.
abbrev pub IsFlat : Fields → Type 0
IsFlat end = Unit
IsFlat (field k v fs) = AreUnits k × IsScalar v × IsFlat fs

read_quoted :
    (s rest : Text)
    → AreUnits s
    → expect quote (quoted_text s ++ rest) ≡ some (written false s ++ quote ∷ rest)
unfolding quoted_text expect skip_space
read_quoted s rest h = rw append_assoc

parse_scalar :
    (fuel : ℕ) (v : Json) (rest : Text)
    → IsScalar v
    → parse_value (suc fuel) (stringify v ++ rest) ≡ some (v, rest)
unfolding parse_value stringify parse_word parse_start skip_space strip
parse_scalar fuel null rest h = refl
parse_scalar fuel (bool true) rest h = refl
parse_scalar fuel (bool false) rest h = refl
parse_scalar fuel (str s) rest h =
    unfold quoted_text in rw (append_assoc, read_string-written false s rest h)
parse_scalar fuel (num _) rest h = absurd h
parse_scalar fuel (arr _) rest h = absurd h
parse_scalar fuel (obj _) rest h = absurd h

abbrev count : Fields → ℕ
count end = 0
count (field k v fs) = suc (count fs)

parse_fields_step :
    (fuel : ℕ) (s : Text)
    → parse_fields (suc fuel) s ≡ read_member (parse_value fuel) (parse_fields fuel) s
unfolding parse_fields
parse_fields_step fuel s = refl

module _ (value : Text → Option (Json × Text)) (more : Text → Option (Fields × Text)) (k : Text)
    (v : Json) (key_units : AreUnits k) where
  read_key_value :
      (s rest : Text)
      → value s ≡ some (v, rest)
      → read_member value more (quoted_text k ++ b':' ∷ s)
        ≡ more_or_close b'}' more (field k v end) (field k v) rest
  unfolding read_member
  read_key_value s rest e =
      rw (read_quoted k (b':' ∷ s) key_units, read_string-written false k (b':' ∷ s) key_units)
        (unfold expect skip_space in rw e)

more_or_close-close :
    (more : Text → Option (Fields × Text)) (last : Fields) (join : Fields → Fields) (rest : Text)
    → more_or_close b'}' more last join (b'}' ∷ rest) ≡ some (last, rest)
unfolding more_or_close expect skip_space
more_or_close-close more last join rest = refl

more_or_close-more :
    (more : Text → Option (Fields × Text)) (last : Fields) (join : Fields → Fields) (s rest : Text)
    (fs : Fields)
    → more s ≡ some (fs, rest)
    → more_or_close b'}' more last join (b',' ∷ s) ≡ some (join fs, rest)
unfolding more_or_close expect skip_space
more_or_close-more more last join s rest fs e = rw e

first_member :
    (k : Text) (v : Json) (k' : Text) (v' : Json) (fs : Fields) (rest : Text)
    → stringify_fields (field k v (field k' v' fs)) ++ b'}' ∷ rest
      ≡ quoted_text k
        ++ b':' ∷ (stringify v ++ b',' ∷ (stringify_fields (field k' v' fs) ++ b'}' ∷ rest))
unfolding stringify_fields
first_member k v k' v' fs rest = simp append_assoc

parse_members :
    (fuel : ℕ) (k : Text) (v : Json) (fs : Fields) (rest : Text)
    → count fs < fuel
    → IsFlat (field k v fs)
    → parse_fields (suc fuel) (stringify_fields (field k v fs) ++ b'}' ∷ rest)
      ≡ some (field k v fs, rest)
parse_members zero k v fs rest h flat = absurd (omega arith)
parse_members (suc fuel) k v end rest h (hk, hv, hfs) =
    let closed = b'}' ∷ rest in
    unfold stringify_fields in
    rw (
      append_assoc,
      parse_fields_step,
      read_key_value (parse_value (suc fuel)) (parse_fields (suc fuel)) k v hk
          (stringify v ++ closed) closed (parse_scalar fuel v closed hv),
      more_or_close-close,
    )
parse_members (suc fuel) k v (field k' v' fs) rest h (hk, hv, hfs) =
    let others = b',' ∷ (stringify_fields (field k' v' fs) ++ b'}' ∷ rest) in
    rw
      (
        first_member k v k' v' fs rest,
        parse_fields_step,
        read_key_value (parse_value (suc fuel)) (parse_fields (suc fuel)) k v hk
            (stringify v ++ others) others (parse_scalar fuel v others hv),
      )
      (more_or_close-more (parse_fields (suc fuel)) (field k v end) (field k v)
        (stringify_fields (field k' v' fs) ++ b'}' ∷ rest) rest (field k' v' fs)
        (parse_members fuel k' v' fs rest (omega arith) hfs))

count-le : (fs : Fields) → count fs ≤ length (stringify_fields fs)
unfolding stringify_fields quoted_text
count-le end = omega arith
count-le (field k v end) = omega arith
count-le (field k v (field k' v' fs)) =
    let more = stringify_fields (field k' v' fs) in
    omega (
      arith,
      count-le (field k' v' fs),
      length-append (written false k ++ quote ∷ []) (b':' ∷ (stringify v ++ b',' ∷ more)),
      length-append (stringify v) (b',' ∷ more),
    )

parse_start-object :
    (items : Text → Option (Items × Text)) (fields : Text → Option (Fields × Text)) (t rest : Text)
    (fs : Fields)
    → expect b'}' t ≡ none
    → fields t ≡ some (fs, rest)
    → parse_start items fields (b'{' ∷ t) ≡ some (obj fs, rest)
unfolding parse_start
parse_start-object items fields t rest fs open_object e = rw (open_object, e)

parse_value_step :
    (fuel : ℕ) (t : Text)
    → parse_value (suc fuel) (b'{' ∷ t)
      ≡ parse_start (parse_items fuel) (parse_fields fuel) (b'{' ∷ t)
unfolding parse_value skip_space
parse_value_step fuel t = refl

first_quote :
    (k : Text) (v : Json) (fs : Fields) (t : Text)
    → expect b'}' (stringify_fields (field k v fs) ++ t) ≡ none
unfolding stringify_fields quoted_text expect skip_space
first_quote k v end t = refl
first_quote k v (field k' v' fs) t = refl

parse-value :
    (fuel : ℕ) (s : Text) (v : Json)
    → suc (2 * length s) ≡ fuel
    → parse_value fuel s ≡ some (v, [])
    → parse s ≡ some v
unfolding finish skip_space
parse-value fuel s v enough e = rw (parse_lem, enough, e)

-- An object of scalars is read back as it was written.
pub parse-stringify : (fs : Fields) → IsFlat fs → parse (stringify (obj fs)) ≡ some (obj fs)
parse-stringify end flat = unfold parse stringify in refl
parse-stringify (field k v fs) flat =
    let members = stringify_fields (field k v fs) ++ b'}' ∷ [] in
    let fuel : ℕ = 2 * length members in
    parse-value (suc (suc (suc fuel))) (stringify (obj (field k v fs))) (obj (field k v fs))
      (unfold stringify in omega arith)
      (unfold stringify in
        rw (parse_value_step (suc (suc fuel)) members) (
          parse_start-object _ _ members [] (field k v fs) (first_quote k v fs (b'}' ∷ [])) (
            parse_members (suc fuel) k v fs []
              (omega (
                arith,
                count-le (field k v fs),
                length-append (stringify_fields (field k v fs)) (b'}' ∷ []),
              ))
              flat)))
