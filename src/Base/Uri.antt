-- ===== src/Base/Uri.antt =====
-- `encodeURIComponent`: what it leaves as it is, and `%XX` for every other byte of the UTF-8 form.
use Prim.Native.Nat.{ℕ, ◌+◌, ◌-◌, ◌/◌, ◌%◌, ◌<◌}
use mathlib.Core.Path.{◌≡◌, refl}
use mathlib.Core.Logic.{inl, inr}
use mathlib.Core.Bool.{Bool, true, ◌&&◌, ◌||◌}
use mathlib.Core.List.{List, [], ◌∷◌, ◌++◌}
use native.Mathlib.Omega.{arith}
use nyx_darkpool.Base.Tests.{
  ltb, leb, ◌==◌, if◌then◌else◌, Outcome, returned, threw, ◌>>=◌, >>=-eq-returned, Bool-cases,
}
use nyx_darkpool.Base.Lists.{All, All-append}
use nyx_darkpool.Base.Strings.{Text, codes, is_digit}
use nyx_darkpool.Base.Utf8.{code_points, is_surrogate, bytes_of}

-- Letters, digits and `-_.!~*'()`.
abbrev pub is_unreserved : ℕ → Bool
is_unreserved c =
    is_digit c
    || (leb b'A' c && leb c b'Z')
    || (leb b'a' c && leb c b'z')
    || c == b'-'
    || c == b'_'
    || c == b'.'
    || c == b'!'
    || c == b'~'
    || c == b'*'
    || c == 39
    || c == b'('
    || c == b')'

abbrev upper_hex : ℕ → ℕ
upper_hex d = if ltb d 10 then b'0' + d else b'A' + (d - 10)

percent : List ℕ → Text
percent [] = []
percent (b ∷ bs) = b'%' ∷ upper_hex (b / 16 % 16) ∷ upper_hex (b % 16) ∷ percent bs

encode_point : ℕ → Text
unfolding percent
encode_point p = if is_unreserved p then p ∷ [] else percent (bytes_of p)

abbrev pub uri_error : Text
uri_error = codes "URI malformed"

encode_points : List ℕ → Outcome Text
unfolding encode_point
encode_points [] = returned []
encode_points (p ∷ ps) =
    let rest = encode_points ps in
    if is_surrogate p then threw uri_error else (do t ← rest; returned (encode_point p ++ t))

unfoldable pub encode_uri_component : Text → Outcome Text
unfolding encode_points code_points bytes_of
encode_uri_component s = encode_points (code_points s)

-- What an encoded text is made of.
abbrev pub IsUriUnit : ℕ → Type 0
IsUriUnit c = (is_unreserved c || c == b'%') ≡ true

upper_hex-IsUriUnit : (d : ℕ) → d < 16 → IsUriUnit (upper_hex d)
upper_hex-IsUriUnit d h = ground arith

percent-IsUriUnit : (bs : List ℕ) → All IsUriUnit (percent bs)
unfolding percent
percent-IsUriUnit [] = tt
percent-IsUriUnit (b ∷ bs) = (
  refl,
  (
    upper_hex-IsUriUnit (b / 16 % 16) (omega arith),
    (upper_hex-IsUriUnit (b % 16) (omega arith), percent-IsUriUnit bs),
  ),
)

encode_point-IsUriUnit : (p : ℕ) → All IsUriUnit (encode_point p)
unfolding encode_point
encode_point-IsUriUnit p = elim (Bool-cases (is_unreserved p)) [
  | inl plain ↦ rw plain (rw plain refl, tt)
  | inr other ↦ rw other (percent-IsUriUnit (bytes_of p))
]

encode_points-IsUriUnit : (ps : List ℕ) (t : Text) → encode_points ps ≡ returned t → All IsUriUnit t
unfolding encode_points
encode_points-IsUriUnit [] t h = let e : [] ≡ t = cc in rw (← e) tt
encode_points-IsUriUnit (p ∷ ps) t h = elim (Bool-cases (is_surrogate p)) [
  | inl lone ↦ cc (rw lone at h)
  | inr fine ↦
      let (rest, done, same) =
        >>=-eq-returned (encode_points ps) (λ t. returned (encode_point p ++ t)) (rw fine at h) in
      let e : encode_point p ++ rest ≡ t = cc in
      rw (← e) (
        All-append IsUriUnit (encode_point p) rest (encode_point-IsUriUnit p)
          (encode_points-IsUriUnit ps rest done))
]

-- An encoded text holds no slash, question mark, number sign or other delimiter.
pub encode_uri_component-IsUriUnit :
    (s t : Text) → encode_uri_component s ≡ returned t → All IsUriUnit t
unfolding encode_uri_component
encode_uri_component-IsUriUnit s t h = encode_points-IsUriUnit (code_points s) t h
