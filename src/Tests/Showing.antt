-- ===== src/Tests/Showing.antt =====
-- The screens that show orders and matches.
use nyx_darkpool.Base.{
  ◌+◌, ◌-◌, ◌≤◌, ◌≡◌, ◌↔◌, refl, true, List, [], ◌∷◌, none, some, Text, codes, returned, threw,
  true, false, All, arith, length, if◌then◌else◌, ◌===◌, cons-ne-nil, ◌⊎◌, inl,
}
use nyx_darkpool.Engine.{Match, OrderSummary}
use nyx_darkpool.Pool.{Pool, cells, lattice, open_orders, found, min}
use nyx_darkpool.Pool.Lattice.{matches, restings, lattice-counts}
use nyx_darkpool.Proofs.{build_stages, is_proven, onchain_of}
use nyx_darkpool.Proofs.Stages.{spins, is_over, all_done, spins-build_stages, build_stages-done_iff}
use nyx_darkpool.Settled as Settlement
use nyx_darkpool.Settled.{receipt_name, tick, match_id_of, mine_of, Poll, polled, with_order}
use nyx_darkpool.Settled.Receipts.{IsAscii, receipt_name-IsAscii, IsOf, download-own}
use nyx_darkpool.DeskView as Desk_view
use nyx_darkpool.DeskView.{is_live, rows, activity, stats}
use nyx_darkpool.DeskView.Scope.{IsOwn, shown-IsOwn, stats-le, tick-stale}

abbrev summary : Text → Text → Text → OrderSummary
summary id key status = record {
  id = id;
  pubkey = key;
  asset_pair = codes "GOLD-RWA/USDC";
  side = codes "bid";
  commitment = codes "1003";
  status = status;
  created_at = [];
  match_id = none;
}

abbrev book : List OrderSummary
book =
    summary (codes "0f3a") (codes "GSAB") (codes "matched")
    ∷ summary (codes "11") (codes "GSXY") (codes "open")
    ∷ summary (codes "12") (codes "GSAB") (codes "open")
    ∷ []

abbrev pool : Pool
pool = record { orders = some book; active_id = some (codes "0f3a"); alive = true }

lattice-counts_case :
    (length (lattice pool) ≡ cells)
    × (restings (lattice pool) ≡ min (length (open_orders pool)) (cells - 1))
    × (matches (lattice pool) ≡ (if found pool then 1 else 0))
lattice-counts_case = lattice-counts pool

abbrev match : Match
match = record {
  id = codes "a1b2c3d4-e5f6";
  maker_order_id = codes "0f3a";
  taker_order_id = codes "11";
  has_proof = true;
  onchain_status = codes "submitted";
  settlement_tx = none;
  created_at = [];
}

spins-build_stages_case :
    spins (build_stages (some match)) ≡ (if is_over (some match) then 0 else 1)
spins-build_stages_case = spins-build_stages (some match)

build_stages-done_iff_case :
    (all_done (build_stages (some match)) ≡ true)
    ↔ ((is_proven (some match) ≡ true) × (onchain_of (some match) ≡ codes "confirmed"))
build_stages-done_iff_case = build_stages-done_iff (some match)

receipt_name-IsAscii_case : All IsAscii (receipt_name match)
receipt_name-IsAscii_case = receipt_name-IsAscii match (omega arith) (cons-ne-nil _ _)

-- The order is listed with its match.
abbrev matched_book : List OrderSummary
matched_book =
    record (summary (codes "0f3a") (codes "GSAB") (codes "matched")) { match_id = some match.id }
    ∷ []

abbrev listed : Poll
listed = record {
  active = some (codes "0f3a");
  orders = returned matched_book;
  match_of = λ mid. returned (some match);
}

-- The engine cannot be reached, and the active order is gone.
abbrev failing : Poll
failing = record {
  active = some (codes "0f3a");
  orders = threw (codes "engine unreachable");
  match_of = λ mid. returned none;
}

abbrev missing : Poll
missing = record failing { active = none }

own_active : (x : Text) → some (codes "0f3a") ≡ some x → x ≡ codes "0f3a"
own_active x e = ground (arith, e)

listed-IsOf : IsOf (codes "0f3a") listed
listed-IsOf = record { active = own_active; answers = λ os mid m read has_id got. inl (side m got) }
  where
    side : (m : Match) → returned (some match) ≡ returned (some m) → m.maker_order_id ≡ codes "0f3a"
    side m e = ground (arith, e)

failing-IsOf : IsOf (codes "0f3a") failing
failing-IsOf = record {
  active = own_active;
  answers = λ os mid m read has_id got. absurd (none_got m got);
}
  where
    none_got : (m : Match) → returned none ≡ returned (some m) → ⊥
    none_got m e = ground (arith, e)

missing-IsOf : IsOf (codes "0f3a") missing
missing-IsOf = record {
  active = λ x e. absurd (none_active x e);
  answers = λ os mid m read has_id got. absurd (none_got m got);
}
  where
    none_active : (x : Text) → none ≡ some x → ⊥
    none_active x e = ground (arith, e)

    none_got : (m : Match) → returned none ≡ returned (some m) → ⊥
    none_got m e = ground (arith, e)

abbrev settlement : Settlement.Screen
settlement = polled (listed ∷ failing ∷ missing ∷ []) Settlement.mounted

download-own_example :
    ((match.maker_order_id ≡ codes "0f3a") ⊎ (match.taker_order_id ≡ codes "0f3a"))
    × ((some (codes "0f3a") ≡ none) ⊎ (some (codes "0f3a") ≡ some (codes "0f3a")))
unfolding polled tick with_order match_id_of mine_of Settlement.download Settlement.receipt ◌===◌
download-own_example =
    download-own (codes "0f3a") [] none (listed ∷ failing ∷ missing ∷ []) (receipt_name match)
      (Settlement.receipt [] none match (mine_of (codes "0f3a") matched_book))
      (listed-IsOf, (failing-IsOf, (missing-IsOf, tt))) refl

-- Another order becomes the active one while the screen is mounted, and has no match yet: the screen
-- shows it with the match of the first.
abbrev changed : Poll
changed = record {
  active = some (codes "12");
  orders = returned book;
  match_of = λ mid. returned none;
}

stale_run :
    ((polled (listed ∷ changed ∷ []) Settlement.mounted).order ≡ mine_of (codes "12") book)
    × ((polled (listed ∷ changed ∷ []) Settlement.mounted).match ≡ some match)
unfolding polled tick with_order match_id_of mine_of ◌===◌
stale_run = (refl, refl)

abbrev desk_screen : Desk_view.Screen
desk_screen = record { orders = some book; err = none; pubkey = some (codes "GSAB"); alive = true }

shown-IsOwn_case :
    All (IsOwn (some (codes "GSAB"))) (rows desk_screen)
    × All (IsOwn (some (codes "GSAB"))) (activity desk_screen)
shown-IsOwn_case = shown-IsOwn desk_screen

stats-le_case :
    (stats desk_screen).open_orders + (stats desk_screen).matched + (stats desk_screen).settled
    ≤ (stats desk_screen).total
stats-le_case = stats-le desk_screen

tick-stale_case :
    (rows (Desk_view.tick (threw (codes "engine unreachable")) desk_screen) ≡ rows desk_screen)
    × (is_live (Desk_view.tick (threw (codes "engine unreachable")) desk_screen) ≡ false)
    × (is_live (
          Desk_view.tick
            (returned book)
            (Desk_view.tick (threw (codes "engine unreachable")) desk_screen))
        ≡ true)
tick-stale_case = tick-stale desk_screen (codes "engine unreachable") book (cons-ne-nil _ _) refl
