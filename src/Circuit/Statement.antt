-- ===== src/Circuit/Statement.antt =====
-- The statement of the circuit's header, and the constraints.
use nyx_darkpool.Base.{ℕ, ◌^◌, ◌≤◌, ◌<◌, ◌≡◌, ◌↔◌, [], ◌∷◌, leb, arith}
use nyx_darkpool.Base.BigInt.{pos}
use nyx_darkpool.Seal.{Hash}
use nyx_darkpool.Circuit.{Circomlib, Signals, Main, bit}

-- What the header of the circuit says it proves.
pub record IsMatch (hash : Hash) (w : Signals) : Type 0 where
  pub maker_price_fits : w.maker_price < 2 ^ 64
  pub taker_price_fits : w.taker_price < 2 ^ 64
  pub volume_fits : w.taker_volume < 2 ^ 64
  pub crosses : w.maker_price ≤ w.taker_price
  pub same_volume : w.maker_volume ≡ w.taker_volume
  pub maker_commits :
      w.maker_hash ≡ hash (pos w.maker_price ∷ pos w.maker_volume ∷ pos w.maker_salt ∷ [])
  pub taker_commits :
      w.taker_hash ≡ hash (pos w.taker_price ∷ pos w.taker_volume ∷ pos w.taker_salt ∷ [])

module _ (lib : Circomlib) (hash : Hash) (w : Signals) where
  one_of_leb : (a b : ℕ) → 1 ≡ bit (leb a b) → a ≤ b
  one_of_leb a b h = ground arith

  leb_of_one : (a b : ℕ) → a ≤ b → 1 ≡ bit (leb a b)
  leb_of_one a b h = ground arith

  Main-sound : Main lib hash w → IsMatch hash w
  Main-sound m =
      let mp = (lib.Num2Bits_iff 64 w.maker_price (omega arith)).0 m.rc_maker_price in
      let tp = (lib.Num2Bits_iff 64 w.taker_price (omega arith)).0 m.rc_taker_price in
      record {
        maker_price_fits = mp;
        taker_price_fits = tp;
        volume_fits = (lib.Num2Bits_iff 64 w.taker_volume (omega arith)).0 m.rc_taker_volume;
        crosses = one_of_leb w.maker_price w.taker_price (
            (lib.LessEqThan_iff 64 w.maker_price w.taker_price 1 (omega arith) mp tp).0 m.le_price);
        same_volume = m.same_volume;
        maker_commits = m.h_maker;
        taker_commits = m.h_taker;
      }

  Main-complete : IsMatch hash w → Main lib hash w
  Main-complete m =
      let volume : w.maker_volume < 2 ^ 64 = rw m.same_volume m.volume_fits in
      record {
        rc_maker_price = (lib.Num2Bits_iff 64 w.maker_price (omega arith)).1 m.maker_price_fits;
        rc_taker_price = (lib.Num2Bits_iff 64 w.taker_price (omega arith)).1 m.taker_price_fits;
        rc_maker_volume = (lib.Num2Bits_iff 64 w.maker_volume (omega arith)).1 volume;
        rc_taker_volume = (lib.Num2Bits_iff 64 w.taker_volume (omega arith)).1 m.volume_fits;
        le_price =
            (lib.LessEqThan_iff 64 w.maker_price w.taker_price 1 (omega arith) m.maker_price_fits
                m.taker_price_fits).1
              (leb_of_one w.maker_price w.taker_price m.crosses);
        same_volume = m.same_volume;
        h_maker = m.maker_commits;
        h_taker = m.taker_commits;
      }

  -- The constraints of the circuit hold of signals exactly when both prices and the volume are below
  -- 2 ^ 64, the maker's price is at most the taker's, the volumes are equal, and the public hashes are
  -- the commitments of the private values.
  pub Main-IsMatch_iff : Main lib hash w ↔ IsMatch hash w
  Main-IsMatch_iff = (Main-sound, Main-complete)
