-- ===== src/Proxy/Laws.antt =====
-- Where the proxy sends a request, and what it makes of failures.
use nyx_darkpool.Base.{
  ℕ, ◌+◌, ◌≡◌, refl, List, [], ◌∷◌, ◌++◌, Text, ◌==◌, if◌then◌else◌, arith, All, returned,
  >>=-eq-returned,
}
use nyx_darkpool.Base.Uri.{encode_uri_component, IsUriUnit, encode_uri_component-IsUriUnit}
use nyx_darkpool.Proxy.{slash, joined_path}

-- The number of slashes in a text.
abbrev pub slashes : Text → ℕ
slashes [] = 0
slashes (c ∷ s) = if c == slash then 1 + slashes s else slashes s

-- The number of joints of a path.
abbrev pub joints : List Text → ℕ
joints [] = 0
joints (p ∷ []) = 0
joints (p ∷ q ∷ ps) = 1 + joints (q ∷ ps)

slashes-append : (s t : Text) → slashes (s ++ t) ≡ slashes s + slashes t
slashes-append [] t = omega arith
slashes-append (c ∷ s) t = ground (arith, slashes-append s t)

slashes_of_IsUriUnit : (s : Text) → All IsUriUnit s → slashes s ≡ 0
slashes_of_IsUriUnit [] h = refl
slashes_of_IsUriUnit (c ∷ s) h = ground (arith, slashes_of_IsUriUnit s h.1)

slashes-encode : (p t : Text) → encode_uri_component p ≡ returned t → slashes t ≡ 0
slashes-encode p t h = slashes_of_IsUriUnit t (encode_uri_component-IsUriUnit p t h)

-- No segment of the request's path can add a segment: in the encoded path every slash joins two
-- segments of the request, whatever the segments hold.
pub slashes-joined_path :
    (path : List Text) (joined : Text)
    → joined_path path ≡ returned joined
    → slashes joined ≡ joints path
unfolding joined_path
slashes-joined_path [] joined h = ground arith
slashes-joined_path (p ∷ []) joined h = slashes-encode p joined h
slashes-joined_path (p ∷ q ∷ ps) joined h =
    let (t, encoded, h') = >>=-eq-returned (encode_uri_component p) _ h in
    let (rest, others, same) = >>=-eq-returned (joined_path (q ∷ ps)) _ h' in
    let e : t ++ slash ∷ rest ≡ joined = cc in
    rw (← e) (
      omega (
        arith,
        slashes-append t (slash ∷ rest),
        slashes-encode p t encoded,
        slashes-joined_path (q ∷ ps) rest others,
      ))
