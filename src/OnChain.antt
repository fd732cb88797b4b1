-- ===== src/OnChain.antt =====
-- engine/internal/onchain/soroban.go: how the engine calls the contract through the stellar command line:
-- the configuration, the arguments of an invocation, and the transaction hash in its output. The
-- command line is a parameter: its output is an argument.
pub mod Hash
use nyx_darkpool.Base.{
  ℕ, zero, suc, Bool, true, false, ◌&&◌, ◌||◌, not, Option, none, some, List, [], ◌∷◌, ◌++◌, Text,
  codes, ◌==◌, leb, if◌then◌else◌, is_empty, length, take, drop, all, map, is_digit, starts_with,
  contains, to_lower, trim, Outcome, returned, threw,
}
use nyx_darkpool.ProofBytes.{HexProof}

pub record Config : Type 0 where
  pub bin : Text
  pub contract_id : Text
  pub network : Text
  pub source : Text
  pub enabled : Bool

-- `getenv`; a variable that is not set is empty.
abbrev pub getenv : (Text → Text) → Text → Text → Text
getenv env key default = if is_empty (env key) then default else env key

unfoldable pub from_env : (Text → Text) → Config
from_env env = record {
  bin = getenv env (codes "NYX_STELLAR_BIN") (codes "stellar");
  contract_id = env (codes "NYX_SOROBAN_CONTRACT_ID");
  network = getenv env (codes "NYX_SOROBAN_NETWORK") (codes "local");
  source = getenv env (codes "NYX_SOROBAN_SOURCE") (codes "nyx-engine");
  enabled = not (is_empty (env (codes "NYX_SOROBAN_CONTRACT_ID")));
}

-- `strings.TrimPrefix(s, "0x")`.
unfoldable pub strip0x : Text → Text
strip0x s = if starts_with s (codes "0x") then drop 2 s else s

abbrev pub quoted : Text → Text
quoted pub_input = codes "\"" ++ strip0x pub_input ++ codes "\""

-- `strings.Join(quoted, ",")`.
abbrev pub join_comma : List Text → Text
join_comma [] = []
join_comma (s ∷ []) = s
join_comma (s ∷ t ∷ l) = s ++ codes "," ++ join_comma (t ∷ l)

abbrev pub invoke : Config → List Text
invoke c =
    codes "contract"
    ∷ codes "invoke"
    ∷ codes "--id"
    ∷ c.contract_id
    ∷ codes "--source-account"
    ∷ c.source
    ∷ codes "--network"
    ∷ c.network
    ∷ codes "--"
    ∷ []

unfoldable pub build_invoke_args : Config → Text → HexProof → List Text
build_invoke_args c submitter p =
    invoke c
    ++ codes "verify_and_settle"
      ∷ codes "--submitter"
      ∷ submitter
      ∷ codes "--proof_a"
      ∷ strip0x p.proof_a
      ∷ codes "--proof_b"
      ∷ strip0x p.proof_b
      ∷ codes "--proof_c"
      ∷ strip0x p.proof_c
      ∷ codes "--public_inputs"
      ∷ (codes "[" ++ join_comma (map quoted p.public) ++ codes "]")
      ∷ []

abbrev pub is_hex : ℕ → Bool
is_hex c = is_digit c || (leb b'a' c && leb c b'f') || (leb b'A' c && leb c b'F')

-- `[0-9a-fA-F]{64}` at the front of a text.
abbrev pub is_run : Text → Bool
is_run s = length (take 64 s) == 64 && all is_hex (take 64 s)

-- `FindString`: the leftmost match, or the empty text.
unfoldable pub parse_tx_hash : Text → Text
parse_tx_hash [] = []
parse_tx_hash (c ∷ s) =
    let rest = parse_tx_hash s in if is_run (c ∷ s) then take 64 (c ∷ s) else rest

-- `VerifyAndSettle`; `threw` is a command that fails, with its error and its output.
unfoldable pub verify_and_settle :
    Config → Text → (List Text → Outcome Text) → HexProof → Outcome Text
verify_and_settle c submitter stellar p =
    if c.enabled
    then if is_empty submitter
      then threw (codes "onchain: empty submitter")
      else elim (stellar (build_invoke_args c submitter p)) [
        | threw e ↦ threw (codes "onchain: stellar invoke failed: " ++ e)
        | returned out ↦ returned (parse_tx_hash out)
      ]
    else threw (codes "onchain: bridge disabled (NYX_SOROBAN_CONTRACT_ID unset)")

-- `IsSettled`.
unfoldable pub is_settled : Config → (List Text → Outcome Text) → Text → Text → Outcome Bool
is_settled c stellar maker taker =
    if c.enabled
    then elim (stellar (
        invoke c
        ++ codes "is_settled"
          ∷ codes "--maker_hash"
          ∷ strip0x maker
          ∷ codes "--taker_hash"
          ∷ strip0x taker
          ∷ [])) [
            | threw e ↦ threw (codes "onchain: is_settled: " ++ e)
            | returned out ↦ returned (contains (codes "true") (to_lower out))
          ]
    else threw (codes "onchain: bridge disabled (NYX_SOROBAN_CONTRACT_ID unset)")
