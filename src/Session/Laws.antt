-- ===== src/Session/Laws.antt =====
-- Storing and reading back, and what happens where the browser refuses.
use nyx_darkpool.Base.{
  ◌≡◌, ◌≢◌, refl, Bool, true, false, none, some, [], Text, codes, arith, returned, if◌then◌else◌,
  ◌===◌, ◌∙◌,
}
use nyx_darkpool.Base.Json.{Json, str, obj, stringify}
use nyx_darkpool.Base.Json.Parse.RoundTrip.{IsFlat}
use nyx_darkpool.Browser.{Storage, get_item, set_item, read_json, prop, truthy}
use nyx_darkpool.Browser.Laws.{
  get_item-set_item, get_item-set_item_ne, read_json-set_item, read_json-set_item_ne,
  present-set_item, MayWrite, set_item-kept, present-written,
}
use nyx_darkpool.Session.{
  ActiveOrder, active_key, active_fields, set_active_order, active_order_meta, active_order_id,
  demo_key, demo_mode, set_demo_mode, ComposeDraft, draft_key, draft_fields, save_compose_draft,
  load_compose_draft,
}

abbrev pub HasUnits : ActiveOrder → Type 0
HasUnits o = IsFlat (active_fields o)

truthy_id : (o : ActiveOrder) → o.id ≢ [] → truthy (some (str o.id)) ≡ true
unfolding truthy
truthy_id o named = ground arith

id_of_fields : (o : ActiveOrder) → prop (codes "id") (obj (active_fields o)) ≡ some (str o.id)
unfolding prop
id_of_fields o = refl

active_order_meta_of_json :
    (s : Storage) (o : Json)
    → s.present ≡ true
    → read_json active_key s ≡ some o
    → truthy (prop (codes "id") o) ≡ true
    → active_order_meta s ≡ some o
unfolding active_order_meta
active_order_meta_of_json s o in_browser e t = rw (e, t, in_browser)

active_order_id_of_meta :
    (s : Storage) (o : Json)
    → s.present ≡ true
    → active_order_meta s ≡ some o
    → active_order_id none s ≡ prop (codes "id") o
unfolding active_order_id
active_order_id_of_meta s o in_browser e = rw (e, in_browser)

-- In a browser that allows the write, an active order with an id that is not empty is read back whole
-- after it was stored, and its id is the active id where the page's address names no other order.
pub active_order-set :
    (o : ActiveOrder) (s : Storage)
    → HasUnits o
    → o.id ≢ []
    → MayWrite active_key (stringify (obj (active_fields o))) s
    → (active_order_meta (set_active_order o s) ≡ some (obj (active_fields o)))
      × (active_order_id none (set_active_order o s) ≡ some (str o.id))
unfolding set_active_order
active_order-set o s flat named may =
    let text = stringify (obj (active_fields o)) in
    let kept = set_item-kept active_key text s may in
    let in_browser = present-written active_key text s may in
    let meta =
      active_order_meta_of_json (set_item active_key text s).0 (obj (active_fields o)) in_browser
        (read_json-set_item active_key (active_fields o) s flat kept)
        (rw (id_of_fields o) (truthy_id o named)) in
    (
      meta,
      active_order_id_of_meta (set_item active_key text s).0 (obj (active_fields o)) in_browser meta
          ∙ id_of_fields o,
    )

-- Where the browser refuses the write, the active order is what it was before.
pub active_order-refused :
    (o : ActiveOrder) (s : Storage)
    → s.accepts active_key (stringify (obj (active_fields o))) ≡ false
    → set_active_order o s ≡ s
unfolding set_active_order set_item
active_order-refused o s refused = ground arith

demo_mode_of_item :
    (s : Storage) (v : Text)
    → s.present ≡ true
    → get_item demo_key s ≡ returned (some v)
    → demo_mode s ≡ (v === codes "1")
unfolding demo_mode
demo_mode_of_item s v in_browser e = rw (e, in_browser)

switch-eq : (on : Bool) → ((if on then codes "1" else codes "0") === codes "1") ≡ on
unfolding ◌===◌
switch-eq true = refl
switch-eq false = refl

-- In a browser that allows both, the demo switch is read as it was set.
pub demo_mode-set :
    (on : Bool) (s : Storage)
    → MayWrite demo_key (if on then codes "1" else codes "0") s
    → demo_mode (set_demo_mode on s) ≡ on
unfolding set_demo_mode
demo_mode-set on s may =
    let v = if on then codes "1" else codes "0" in
    demo_mode_of_item (set_item demo_key v s).0 v (present-written demo_key v s may)
      (get_item-set_item demo_key v s (set_item-kept demo_key v s may))
    ∙ switch-eq on

abbrev pub HasDraftUnits : ComposeDraft → Type 0
HasDraftUnits d = IsFlat (draft_fields d)

draft_of_json :
    (s : Storage) (o : Json) (pair : Text)
    → s.present ≡ true
    → read_json draft_key s ≡ some o
    → prop (codes "pair") o ≡ some (str pair)
    → load_compose_draft s ≡ some o
unfolding load_compose_draft
draft_of_json s o pair in_browser e p = rw (e, p, in_browser)

pair_of_fields : (d : ComposeDraft) → prop (codes "pair") (obj (draft_fields d)) ≡ some (str d.pair)
unfolding prop
pair_of_fields d = refl

meta_behind_draft :
    (text : Text) (s : Storage)
    → active_order_meta (set_item draft_key text s).0 ≡ active_order_meta s
unfolding active_order_meta
meta_behind_draft text s =
    rw (present-set_item draft_key text s, read_json-set_item_ne draft_key active_key text s refl)

demo_behind_draft :
    (text : Text) (s : Storage) → demo_mode (set_item draft_key text s).0 ≡ demo_mode s
unfolding demo_mode
demo_behind_draft text s =
    rw (present-set_item draft_key text s, get_item-set_item_ne draft_key demo_key text s refl)

-- In a browser that allows the write, a draft that was saved is loaded whole; saving it changes
-- neither the active order nor the demo switch.
pub draft-saved :
    (d : ComposeDraft) (s : Storage)
    → HasDraftUnits d
    → MayWrite draft_key (stringify (obj (draft_fields d))) s
    → (load_compose_draft (save_compose_draft d s) ≡ some (obj (draft_fields d)))
      × (active_order_meta (save_compose_draft d s) ≡ active_order_meta s)
      × (demo_mode (save_compose_draft d s) ≡ demo_mode s)
unfolding save_compose_draft
draft-saved d s flat may =
    let text = stringify (obj (draft_fields d)) in
    (
      draft_of_json (set_item draft_key text s).0 (obj (draft_fields d)) d.pair
          (present-written draft_key text s may)
          (read_json-set_item draft_key (draft_fields d) s flat
            (set_item-kept draft_key text s may))
          (pair_of_fields d),
      meta_behind_draft text s,
      demo_behind_draft text s,
    )
