-- ===== src/Intake/Sent.antt =====
-- The orders that web/app/app/_components/ComposeForm.tsx sends, at handleCreateOrder of
-- engine/internal/api/api.go.
use nyx_darkpool.Base.{
  ◌≡◌, refl, ap, ◌∙◌, sym, subst, true, false, Option, none, some, List, [], ◌∷◌, Text, ◌===◌,
  is_empty, arith, All, All-map, Outcome, returned, threw, Option-cases, Outcome-cases, Bool-cases,
  inl, inr, Bool,
}
use nyx_darkpool.Base.Decimal.{numeral-nonempty}
use nyx_darkpool.Browser.{Storage}
use nyx_darkpool.Identity.{LoadedDesk}
use nyx_darkpool.Seal.{Hash, Sealed}
use nyx_darkpool.Engine.{CreateOrderBody}
use nyx_darkpool.Compose.{
  Side, bid, ask, wire_side, order_body, Form, mounted, with_amounts, seal_settled,
  broadcast_failed, send, broadcast, replied, Event, pick_pair, click, answer, settle, step, run,
}
use nyx_darkpool.Compose.Sending.{send-posted, send-refused}
use nyx_darkpool.Book.{Payload, is_valid_side, validate}
use nyx_darkpool.Book.Validation.{Opens, order_validates, payload_of}
use nyx_darkpool.Ledger.{Db, insert_order}
use nyx_darkpool.Intake.{
  Server, signature_of, params_of, inserted, authenticated, decoded, handle_create_order,
}

-- A body that meets every check of the engine in front of the insertion.
pub record IsComplete (verify : Text → Text → Text → Bool) (b : CreateOrderBody) : Type 0 where
  pub key : is_empty b.pubkey ≡ false
  pub pair : is_empty b.asset_pair ≡ false
  pub side : is_valid_side b.side ≡ true
  pub commitment : is_empty b.commitment ≡ false
  pub nullifier : is_empty b.nullifier ≡ false
  pub payload : validate (payload_of b) ≡ none
  pub signed : is_empty (signature_of b) ≡ false
  pub verified : verify b.pubkey b.commitment (signature_of b) ≡ true

IsComplete-inserted :
    (verify : Text → Text → Text → Bool) (encode : Payload → Text) (s : Server) (id : Option Text)
    (db : Db) (b : CreateOrderBody)
    → s.has_store ≡ true
    → IsComplete verify b
    → handle_create_order verify encode s id (some b) db
      ≡ inserted (insert_order id (params_of encode b) db)
unfolding handle_create_order decoded authenticated
IsComplete-inserted verify encode s id db b store h =
    rw (store, h.key, h.pair, h.side, h.commitment, h.nullifier, h.payload, h.signed, h.verified)
      refl

module _ (sign : Text → Text → Outcome Text) (part : Text → Outcome Text)
    (verify : Text → Text → Text → Bool) (hash : Hash) where
  -- A desk with a key pair: what is signed with the secret is a text, and verifies under the public key.
  pub record IsKeyed (d : LoadedDesk) : Type 0 where
    pub key : is_empty d.public_key ≡ false
    pub signs :
        (message signature : Text)
        → sign d.secret message ≡ returned signature
        → (is_empty signature ≡ false) × (verify d.public_key message signature ≡ true)

  -- A seal that comes back opens to numbers that the circuit can prove, a pair that is picked has a
  -- name, and a desk that is stored has a key pair.
  abbrev pub IsUsual : Event → Type 0
  IsUsual (settle e (returned x)) = Opens hash x
  IsUsual (pick_pair p) = is_empty p ≡ false
  IsUsual (click (some d)) = IsKeyed d
  IsUsual _ = Unit

  abbrev Opened : Option Sealed → Type 0
  Opened none = Unit
  Opened (some x) = Opens hash x

  wire_side-valid : (side : Side) → is_valid_side (wire_side side) ≡ true
  unfolding is_valid_side ◌===◌
  wire_side-valid bid = refl
  wire_side-valid ask = refl

  order_body-IsComplete :
      (d : LoadedDesk) (x : Sealed) (pair : Text) (side : Side) (signature : Text)
      → IsKeyed d
      → Opens hash x
      → is_empty pair ≡ false
      → sign d.secret x.commitment ≡ returned signature
      → IsComplete verify (order_body d x pair side signature)
  order_body-IsComplete d x pair side signature keyed opens named e =
      let (price, volume, salt, opening, fits) = opens in
      let (some_text, verified) = keyed.signs x.commitment signature e in
      record {
        key = keyed.key;
        pair = named;
        side = wire_side-valid side;
        commitment = ap is_empty opening.committed ∙ numeral-nonempty _;
        nullifier = ap is_empty opening.nullified ∙ numeral-nonempty _;
        payload = order_validates hash x (order_body d x pair side signature) opens (record {
          price = refl;
          volume = refl;
          salt = refl;
          commitment = refl;
          nullifier = refl;
        });
        signed = some_text;
        verified = verified;
      }

  -- What holds of the form at every moment.
  abbrev IsReady : Form → Type 0
  IsReady f = Opened f.sealed × (is_empty f.pair ≡ false) × All (IsComplete verify) f.posted

  send-IsComplete :
      (d : LoadedDesk) (x : Sealed) (f : Form)
      → IsKeyed d
      → Opens hash x
      → is_empty f.pair ≡ false
      → All (IsComplete verify) f.posted
      → All (IsComplete verify) (send sign d x f).posted
  send-IsComplete d x f keyed opens named sent = elim (Outcome-cases (sign d.secret x.commitment)) [
    | inl (signature, e) ↦
        let both : All (IsComplete verify) (order_body d x f.pair f.side signature ∷ f.posted) =
          (order_body-IsComplete d x f.pair f.side signature keyed opens named e, sent) in
        rw (send-posted sign part d x f signature e) both
    | inr (m, e) ↦ rw (send-refused sign part d x f m e) sent
  ]

  broadcast-sealed :
      (desk : Option LoadedDesk) (f : Form) → (broadcast sign desk f).sealed ≡ f.sealed
  unfolding broadcast send broadcast_failed
  broadcast-sealed desk f = ground arith

  broadcast-pair : (desk : Option LoadedDesk) (f : Form) → (broadcast sign desk f).pair ≡ f.pair
  unfolding broadcast send broadcast_failed
  broadcast-pair desk f = ground arith

  broadcast-IsComplete :
      (desk : Option LoadedDesk) (f : Form)
      → IsUsual (click desk)
      → IsReady f
      → All (IsComplete verify) (broadcast sign desk f).posted
  unfolding broadcast
  broadcast-IsComplete none f usual (opens, named, sent) =
      let same : (broadcast sign none f).posted ≡ f.posted = ground arith in rw same sent
  broadcast-IsComplete (some d) f keyed (opens, named, sent) = elim (Option-cases f.sealed) [
    | inl e ↦
        let same : (broadcast sign (some d) f).posted ≡ f.posted = ground arith in rw same sent
    | inr (x, e) ↦ elim (Bool-cases f.busy_ref) [
      | inl busy ↦
          let same : (broadcast sign (some d) f).posted ≡ f.posted = ground arith in rw same sent
      | inr idle ↦
          let open_x : Opened (some x) = subst Opened e opens in
          let same : (broadcast sign (some d) f).posted ≡ (send sign d x f).posted = ground arith in
          rw same (send-IsComplete d x f keyed open_x named sent)
    ]
  ]

  step-IsReady :
      (e : Event) (f : Form) (st : Storage)
      → IsUsual e
      → IsReady f
      → IsReady (step sign part e (f, st)).0
  unfolding step with_amounts seal_settled broadcast_failed replied
  step-IsReady (settle e (returned x)) f st p (opens, named, sent) = ground arith
  step-IsReady (settle e (threw x)) f st p (opens, named, sent) = ground arith
  step-IsReady (answer (threw m)) f st p (opens, named, sent) = ground arith
  step-IsReady (answer (returned id)) f st p (opens, named, sent) = ground arith
  step-IsReady (pick_pair q) f st p (opens, named, sent) = (opens, p, sent)
  step-IsReady (click desk) f st p (opens, named, sent) = (
    subst Opened (sym (broadcast-sealed desk f)) opens,
    ap is_empty (broadcast-pair desk f) ∙ named,
    broadcast-IsComplete desk f p (opens, named, sent),
  )
  step-IsReady _ f st p (opens, named, sent) = (opens, named, sent)

  run-IsReady :
      (es : List Event) (f : Form) (st : Storage)
      → All IsUsual es
      → IsReady f
      → IsReady (run sign part es (f, st)).0
  unfolding run
  run-IsReady [] f st usual ready = ready
  run-IsReady (e ∷ es) f st (p, usual) ready =
      let (f', st') = step sign part e (f, st) in
      run-IsReady es f' st' usual (step-IsReady e f st p ready)

  mounted-IsReady : IsReady mounted
  unfolding mounted
  mounted-IsReady = (tt, refl, tt)

  -- Whatever is typed, picked, clicked and answered on the Compose form, in any order: if the seals that
  -- come back open to numbers that the circuit can prove, a pair that is picked is not the empty text,
  -- and what a desk signs is a text that verifies under its public key, which is not empty, then an
  -- engine with a store, whether it asks for signatures or not, lets every order that the form sends
  -- through all its checks: its answer is that of the insertion.
  pub posted-inserted :
      (es : List Event) (st : Storage) (encode : Payload → Text) (s : Server) (id : Option Text)
      (db : Db)
      → All IsUsual es
      → s.has_store ≡ true
      → All
          (λ b.
            handle_create_order verify encode s id (some b) db
            ≡ inserted (insert_order id (params_of encode b) db))
          (run sign part es (mounted, st)).0.posted
  posted-inserted es st encode s id db usual store =
      let (opens, named, sent) = run-IsReady es mounted st usual mounted-IsReady in
      All-map _ _ (λ b h. IsComplete-inserted verify encode s id db b store h)
        (run sign part es (mounted, st)).0.posted sent
