-- ===== src/Base/Utf8.antt =====
-- UTF-16 units to UTF-8 bytes. A lone surrogate stays a code point of its own, which the callers
-- treat as `Buffer.from` (a replacement character) and `encodeURIComponent` (an exception) do.
use Prim.Native.Nat.{ℕ, ◌+◌, ◌-◌, ◌*◌, ◌/◌, ◌%◌}
use mathlib.Core.Bool.{Bool, ◌&&◌}
use mathlib.Core.List.{List, [], ◌∷◌, ◌++◌}
use nyx_darkpool.Base.Tests.{ltb, leb, if◌then◌else◌}
use nyx_darkpool.Base.Strings.{Text}
use nyx_darkpool.Base.Json.{is_high, is_low}

unfoldable pub code_points : Text → List ℕ
code_points [] = []
code_points (c ∷ []) = c ∷ []
code_points (c ∷ d ∷ s) =
    let pair = (0x10000 + (c - 0xd800) * 1024 + (d - 0xdc00)) ∷ code_points s in
    let one = c ∷ code_points (d ∷ s) in if is_high c && is_low d then pair else one

abbrev pub is_surrogate : ℕ → Bool
is_surrogate p = leb 0xd800 p && leb p 0xdfff

unfoldable pub bytes_of : ℕ → List ℕ
bytes_of p =
    if ltb p 0x80
    then p ∷ []
    else if ltb p 0x800
    then (0xc0 + p / 64) ∷ (0x80 + p % 64) ∷ []
    else if ltb p 0x10000
    then (0xe0 + p / 4096) ∷ (0x80 + p / 64 % 64) ∷ (0x80 + p % 64) ∷ []
    else (0xf0 + p / 262144) ∷ (0x80 + p / 4096 % 64) ∷ (0x80 + p / 64 % 64) ∷ (0x80 + p % 64) ∷ []

buffer_points : List ℕ → List ℕ
unfolding bytes_of
buffer_points [] = []
buffer_points (p ∷ ps) = bytes_of (if is_surrogate p then 0xfffd else p) ++ buffer_points ps

-- `Buffer.from(s, "utf8")`.
unfoldable pub buffer_of : Text → List ℕ
unfolding buffer_points code_points
buffer_of s = buffer_points (code_points s)
