-- ===== src/Proofs.antt =====
-- web/app/app/_components/ProofsBody.tsx: the stages of a match on the proofs screen, and the poll that
-- finds the match. Of a poll, what its three reads come back with are the arguments.
pub mod Stages
pub mod View
use nyx_darkpool.Base.{
  Bool, true, false, ◌&&◌, not, Option, none, some, List, [], ◌∷◌, ◌++◌, Text, codes, ◌===◌,
  if◌then◌else◌, find, is_set, is_empty, Outcome, returned, threw,
}
use nyx_darkpool.Engine.{Match, OrderSummary}
use nyx_darkpool.Ui.{green, cyan, rose}

pub data IconKind : Type 0 where
  done spin idle fail : IconKind

pub record Stage : Type 0 where
  pub title : Text
  pub sub : Text
  pub tag : Text
  pub tag_color : Text
  pub icon : IconKind
  pub background : Text
  pub sub_color : Option Text
  pub dim : Bool

abbrev pub muted : Text
muted = codes "#565C64"

abbrev pub raised : Text
raised = codes "#0A0C0F"

abbrev pub flat : Text
flat = codes "transparent"

abbrev pub done_stage : Text → Text → Stage
done_stage title sub = record {
  title = title;
  sub = sub;
  tag = codes "DONE";
  tag_color = green;
  icon = done;
  background = flat;
  sub_color = none;
  dim = false;
}

abbrev pub failed_stage : Text → Text → Stage
failed_stage title sub = record {
  title = title;
  sub = sub;
  tag = codes "FAILED";
  tag_color = rose;
  icon = fail;
  background = flat;
  sub_color = none;
  dim = false;
}

-- A stage that is not over: it runs once the one before it is done.
abbrev pub running_stage : Bool → Text → Text → Stage
running_stage ready title sub = record {
  title = title;
  sub = sub;
  tag = if ready then codes "ACTIVE" else codes "PENDING";
  tag_color = if ready then cyan else muted;
  icon = if ready then spin else idle;
  background = if ready then raised else flat;
  sub_color = if ready then some cyan else none;
  dim = not ready;
}

abbrev pub waiting_stage : Stage
waiting_stage = record {
  title = codes "Match located";
  sub = codes "searching the pool";
  tag = codes "WAITING";
  tag_color = cyan;
  icon = spin;
  background = raised;
  sub_color = some cyan;
  dim = false;
}

unfoldable pub is_located : Option Match → Bool
is_located none = false
is_located (some m) = true

unfoldable pub is_proven : Option Match → Bool
is_proven none = false
is_proven (some m) = m.has_proof

unfoldable pub onchain_of : Option Match → Text
onchain_of none = codes "pending"
onchain_of (some m) = m.onchain_status

unfoldable pub is_confirmed : Option Match → Bool
is_confirmed match = onchain_of match === codes "confirmed"

unfoldable pub is_failed : Option Match → Bool
is_failed match = onchain_of match === codes "failed"

abbrev pub located_stage : Bool → Stage
located_stage located =
    if located
    then done_stage (codes "Match located") (codes "maker ∩ taker located")
    else waiting_stage

abbrev pub proof_stage : Bool → Bool → Stage
proof_stage located proven =
    if proven
    then done_stage (codes "ZK proof generated") (codes "intersection at valid px & volume")
    else running_stage located (codes "ZK proof generated")
        (if located then codes "generating Groth16 witness…" else codes "awaiting match")

abbrev pub onchain_stage : Bool → Bool → Bool → Stage
onchain_stage proven confirmed failed =
    if confirmed
    then done_stage (codes "Verifying on-chain") (codes "Soroban · BN254 host fn")
    else if failed
    then failed_stage (codes "Verifying on-chain") (codes "verification failed")
    else running_stage proven (codes "Verifying on-chain") (codes "Soroban · BN254 host fn")

abbrev pub settlement_stage : Bool → Bool → Stage
settlement_stage confirmed failed =
    if confirmed
    then done_stage (codes "Atomic settlement") (codes "RWA ⇄ USDC")
    else if failed
    then failed_stage (codes "Atomic settlement") (codes "not settled")
    else running_stage false (codes "Atomic settlement") (codes "RWA ⇄ USDC")

unfoldable pub build_stages : Option Match → List Stage
build_stages match =
    located_stage (is_located match)
    ∷ proof_stage (is_located match) (is_proven match)
    ∷ onchain_stage (is_proven match) (is_confirmed match) (is_failed match)
    ∷ settlement_stage (is_confirmed match) (is_failed match)
    ∷ []

-- The screen's state.
pub record Screen : Type 0 where
  pub match : Option Match
  pub note : Text

abbrev pub mounted : Screen
mounted = record { match = none; note = codes "locating match…" }

-- `orders` and `match_of` are what `listOrders` and `getMatch` come back with.
abbrev tick_of : OrderSummary → (Text → Outcome (Option Match)) → Screen → Screen
tick_of mine match_of s = elim mine.match_id [
  | none ↦ record { match = none; note = codes "waiting for a crossing order…" }
  | some m ↦
      if is_empty m
      then record { match = none; note = codes "waiting for a crossing order…" }
      else elim (match_of m) [
        | threw message ↦ record s { note = message }
        | returned match ↦ record { match = match; note = [] }
      ]
]

unfoldable pub tick :
    Option Text → Outcome (List OrderSummary) → (Text → Outcome (Option Match)) → Screen → Screen
tick none orders match_of s = record s { note = codes "no active order" }
tick (some id) orders match_of s =
    if is_empty id then record s { note = codes "no active order" } else elim orders [
      | threw message ↦ record s { note = message }
      | returned os ↦ elim (find (λ o. o.id === id) os) [
        | none ↦ record s { note = codes "order not found" }
        | some mine ↦ tick_of mine match_of s
      ]
    ]
