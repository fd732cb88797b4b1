-- ===== src/Tests/Crossing.antt =====
-- The demo counterparty.
use nyx_darkpool.Base.{
  ◌≤◌, ◌≡◌, refl, true, List, [], ◌∷◌, none, some, Text, codes, Outcome, returned, threw, All,
  length, ◌===◌,
}
use nyx_darkpool.Session.{ActiveOrder}
use nyx_darkpool.Identity.{LoadedDesk}
use nyx_darkpool.Seal.{Sealed}
use nyx_darkpool.Engine.{OrderSummary}
use nyx_darkpool.Counter.{
  Event, fire, listed, sealed, armed, mounted, run, step, is_mine_open, my_order, is_open,
  counter_body, on_fire,
}
use nyx_darkpool.Counter.Once.{countered-le, failed-final, matched-final}
use nyx_darkpool.Counter.Cross.{IsCrossing, three_rounds-posted, posted-IsCrossing}

abbrev sign : Text → Text → Outcome Text
sign secret commitment = returned secret

abbrev desk : LoadedDesk
desk = record { label = none; public_key = codes "GSAB"; secret = codes "SAB" }

abbrev own : ActiveOrder
own = record {
  id = codes "0f3a";
  side = codes "bid";
  pair = codes "GOLD-RWA/USDC";
  price_int = codes "9984";
  volume_int = codes "5";
}

abbrev counter_seal : Sealed
counter_seal = record {
  price_int = codes "9984";
  volume_int = codes "5";
  salt = codes "78";
  commitment = codes "1004";
  nullifier = codes "1005";
}

abbrev summary : Text → Text → Text → OrderSummary
summary id side status = record {
  id = id;
  pubkey = codes "GSAB";
  asset_pair = codes "GOLD-RWA/USDC";
  side = side;
  commitment = codes "1003";
  status = status;
  created_at = [];
  match_id = none;
}

-- The order is open, with and without another order against it; then it is matched.
abbrev alone : List OrderSummary
alone = summary (codes "0f3a") (codes "bid") (codes "open") ∷ []

abbrev opposed : List OrderSummary
opposed = summary (codes "11") (codes "ask") (codes "open") ∷ alone

abbrev matched : List OrderSummary
matched = summary (codes "0f3a") (codes "bid") (codes "matched") ∷ []

abbrev rounds : List Event
rounds =
    fire
    ∷ listed (returned opposed)
    ∷ fire
    ∷ listed (returned alone)
    ∷ fire
    ∷ listed (returned alone)
    ∷ sealed (returned counter_seal)
    ∷ []

countered-le_example :
    length (run sign own desk rounds (mounted true (some own) (some desk))).posted ≤ 1
countered-le_example = countered-le sign own desk true (some own) (some desk) rounds

failed-final_example :
    (run sign own desk rounds (
      step sign own desk
        (listed (threw (codes "engine unreachable")))
        (run sign own desk (fire ∷ []) armed))).posted
    ≡ []
unfolding run step on_fire
failed-final_example =
    failed-final sign own desk (fire ∷ []) rounds (codes "engine unreachable") refl

matched-final_case :
    (run sign own desk rounds
      (step sign own desk (listed (returned matched)) (run sign own desk (fire ∷ []) armed))).posted
    ≡ []
unfolding run step on_fire is_mine_open my_order is_open ◌===◌
matched-final_case = matched-final sign own desk (fire ∷ []) rounds matched refl refl

three_rounds-posted_case :
    (run sign own desk rounds armed).posted ≡ counter_body own desk counter_seal (codes "SAB") ∷ []
unfolding is_mine_open my_order is_open ◌===◌
three_rounds-posted_case =
    three_rounds-posted sign own desk opposed alone alone counter_seal (codes "SAB") refl refl refl
      refl

posted-IsCrossing_example : All (IsCrossing own) (run sign own desk rounds armed).posted
posted-IsCrossing_example =
    posted-IsCrossing sign own desk rounds (tt, (tt, (tt, (tt, (tt, (tt, ((refl, refl), tt)))))))
