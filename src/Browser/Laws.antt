-- ===== src/Browser/Laws.antt =====
-- Reading back what was written, and leaving other keys alone.
use Prim.Native.String.{String}
use text.Mathlib.Text.{◌==◌ as str_eq}
use text.Mathlib.TextPositions.{eq_refl}
use nyx_darkpool.Base.{◌≡◌, refl, true, false, some, Text, arith, is_empty, returned}
use nyx_darkpool.Base.Json.{obj, Fields, stringify}
use nyx_darkpool.Base.Json.Parse.RoundTrip.{IsFlat, parse-stringify}
use nyx_darkpool.Browser.{Storage, get_item, set_item, read_json}

-- A write that does not throw is read back, and the storage stays readable.
pub get_item-set_item :
    (key : String) (v : Text) (s : Storage)
    → (set_item key v s).1 ≡ false
    → get_item key (set_item key v s).0 ≡ returned (some v)
unfolding set_item get_item
get_item-set_item key v s kept = ground (arith, eq_refl key)

-- A write leaves every other key as it was, whether it throws or not.
pub get_item-set_item_ne :
    (key other : String) (v : Text) (s : Storage)
    → str_eq other key ≡ false
    → get_item other (set_item key v s).0 ≡ get_item other s
unfolding set_item get_item
get_item-set_item_ne key other v s differ = ground arith

pub stringify-is_empty : (fs : Fields) → is_empty (stringify (obj fs)) ≡ false
unfolding stringify
stringify-is_empty fs = refl

-- An object of scalars that could be written is read back.
pub read_json-set_item :
    (key : String) (fs : Fields) (s : Storage)
    → IsFlat fs
    → (set_item key (stringify (obj fs)) s).1 ≡ false
    → read_json key (set_item key (stringify (obj fs)) s).0 ≡ some (obj fs)
unfolding read_json
read_json-set_item key fs s flat kept =
    rw (get_item-set_item key (stringify (obj fs)) s kept, read_json, stringify-is_empty fs)
      (parse-stringify fs flat)

pub read_json-set_item_ne :
    (key other : String) (v : Text) (s : Storage)
    → str_eq other key ≡ false
    → read_json other (set_item key v s).0 ≡ read_json other s
unfolding read_json
read_json-set_item_ne key other v s differ =
    rw (read_json, get_item-set_item_ne key other v s differ)

pub present-set_item :
    (key : String) (v : Text) (s : Storage) → (set_item key v s).0.present ≡ s.present
unfolding set_item
present-set_item key v s = ground arith

-- A page in a browser that may read, and write this text under this key.
pub record MayWrite (key : String) (v : Text) (s : Storage) : Type 0 where
  pub in_browser : s.present ≡ true
  pub can_read : s.readable ≡ true
  pub can_write : s.accepts key v ≡ true

pub set_item-kept :
    (key : String) (v : Text) (s : Storage) → MayWrite key v s → (set_item key v s).1 ≡ false
unfolding set_item
set_item-kept key v s h = ground arith

pub present-written :
    (key : String) (v : Text) (s : Storage) → MayWrite key v s → (set_item key v s).0.present ≡ true
unfolding set_item
present-written key v s h = ground arith
