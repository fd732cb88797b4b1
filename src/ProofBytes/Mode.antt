-- ===== src/ProofBytes/Mode.antt =====
-- scripts/proof_to_bytes.js: what the program does with its arguments, `process.argv` from the third on.
use nyx_darkpool.Base.{◌||◌, List, [], ◌∷◌, ◌++◌, Text, codes, ◌===◌, if◌then◌else◌, is_empty}

-- One of the two modes, or an exit with status 2 and a message.
pub data Program : Type 0 where
  write_fixtures : Program
  write_hex : Text → Text → Program
  exits : Text → Program

abbrev pub first_of : List Text → Text
first_of [] = []
first_of (s ∷ l) = s

abbrev pub rest_of : List Text → List Text
rest_of [] = []
rest_of (s ∷ l) = l

abbrev pub usage : Text
usage = codes "usage: node proof_to_bytes.js hex <proof.json> <public.json>"

abbrev pub hex_program : Text → Text → Program
hex_program proof_path public_path =
    if is_empty proof_path || is_empty public_path
    then exits usage
    else write_hex proof_path public_path

abbrev pub mode_of : Text → Text
mode_of s = if is_empty s then codes "fixtures" else s

unfoldable pub program : List Text → Program
program argv =
    let mode = mode_of (first_of argv) in
    if mode === codes "fixtures"
    then write_fixtures
    else if mode === codes "hex"
    then hex_program (first_of (rest_of argv)) (first_of (rest_of (rest_of argv)))
    else exits (codes "unknown mode \"" ++ mode ++ codes "\" (expected: fixtures | hex)")
