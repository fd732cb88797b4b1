-- ===== src/Compose/Draft.antt =====
-- web/app/app/_components/ComposeForm.tsx: the draft that survives leaving the page.
use nyx_darkpool.Base.{none, some, Text, codes, ◌===◌, if◌then◌else◌, any}
use nyx_darkpool.Base.Json.{Json}
use nyx_darkpool.Browser.{Storage, prop, text_of}
use nyx_darkpool.Session.{save_compose_draft, load_compose_draft}
use nyx_darkpool.Compose.{
  Form, Side, bid, ask, Tif, gtc, ioc, one_hour, pairs, side_text, tif_text, with_amounts,
}

-- What the draft holds is taken over field by field, where it is of the kind that the form knows.
abbrev pub draft_pair : Json → Text → Text
draft_pair d pair = elim (text_of (prop (codes "pair") d)) [
  | none ↦ pair
  | some p ↦ if any (λ q. q === p) pairs then p else pair
]

abbrev pub draft_side : Json → Side → Side
draft_side d side = elim (text_of (prop (codes "side") d)) [
  | none ↦ side
  | some s ↦ if s === codes "BID" then bid else if s === codes "ASK" then ask else side
]

abbrev pub draft_tif : Json → Tif → Tif
draft_tif d tif = elim (text_of (prop (codes "tif") d)) [
  | none ↦ tif
  | some t ↦
      if t === codes "GTC"
      then gtc
      else if t === codes "IOC"
      then ioc
      else if t === codes "1H"
      then one_hour
      else tif
]

abbrev pub draft_text : Text → Json → Text → Text
draft_text name d old = elim (text_of (prop name d)) [ none ↦ old | some t ↦ t ]

unfoldable pub restore_draft : Storage → Form → Form
restore_draft s f = elim (load_compose_draft s) [
  | none ↦ f
  | some d ↦
      with_amounts (draft_text (codes "price") d f.price) (draft_text (codes "size") d f.size)
        (record f {
          pair = draft_pair d f.pair;
          side = draft_side d f.side;
          tif = draft_tif d f.tif;
        })
]

-- The draft that is saved whenever one of the five fields changes.
unfoldable pub persist_draft : Form → Storage → Storage
persist_draft f = save_compose_draft (record {
  pair = f.pair;
  side = side_text f.side;
  tif = tif_text f.tif;
  price = f.price;
  size = f.size;
})
