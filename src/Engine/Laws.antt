-- ===== src/Engine/Laws.antt =====
-- What the client makes of the engine's answers, and of the proxy's.
use nyx_darkpool.Base.{
  ℕ, ◌≤◌, ◌≡◌, ◌≢◌, ◌↔◌, refl, Bool, true, false, none, some, [], ◌∷◌, Text, codes, ◌==◌,
  if◌then◌else◌, arith, Outcome, returned, threw, Bool-cases, Outcome-cases, inl, inr, ap,
  cons-ne-nil,
}
use nyx_darkpool.Base.Json.{Json, str, obj, Fields, stringify}
use nyx_darkpool.Base.Json.Parse.{parse}
use nyx_darkpool.Base.Json.Parse.Quoting.{AreUnits}
use nyx_darkpool.Base.Json.Parse.RoundTrip.{IsFlat, parse-stringify}
use nyx_darkpool.Browser.{prop, truthy}
use nyx_darkpool.Browser.Laws.{stringify-is_empty}
use nyx_darkpool.Engine.{
  CreateOrderBody, Response, is_ok, body_of, error_message, message_of, json_or_throw, order_fields,
  create_order_request, create_order, list_orders, get_match,
}
use nyx_darkpool.Proxy.{
  Answer, failed, reply_of, waking, waking_fields, unreachable, unreachable_fields,
}

-- The proxy's answer as the browser's `fetch` hands it over.
abbrev pub received : Text → Answer → Response
received status_text a = record {
  status = a.status;
  status_text = status_text;
  body = returned a.body;
}

-- What a failed call upstream is reported as.
abbrev pub notice : Bool → Text
notice aborted = if aborted then waking else unreachable

body_of-stringify : (fs : Fields) → IsFlat fs → body_of (stringify (obj fs)) ≡ returned (obj fs)
unfolding body_of
body_of-stringify fs flat = rw (stringify-is_empty fs, parse-stringify fs flat)

module _ (shown : Json → Text) (status_text : Text) where
  error_message_of_field :
      (res : Response) (v : Json) (message : Text)
      → prop (codes "error") v ≡ some (str message)
      → message ≢ []
      → error_message shown res v ≡ message
  unfolding error_message message_of truthy
  error_message_of_field res v [] e some_text = absurd (some_text refl)
  error_message_of_field res v (c ∷ message) e some_text = rw (error_message, e)

  -- A JSON object behind an error status.
  abbrev refusal : ℕ → Fields → Response
  refusal status fs = record {
    status = status;
    status_text = status_text;
    body = returned (stringify (obj fs));
  }

  json_or_throw-error :
      (status : ℕ) (fs : Fields) (message : Text)
      → IsFlat fs
      → is_ok (refusal status fs) ≡ false
      → prop (codes "error") (obj fs) ≡ some (str message)
      → message ≢ []
      → json_or_throw shown (refusal status fs) ≡ threw message
  unfolding json_or_throw
  json_or_throw-error status fs message flat bad e some_text =
      rw (body_of-stringify fs flat, bad)
        (ap threw (error_message_of_field (refusal status fs) (obj fs) message e some_text))

  waking_thrown :
      (message : Text)
      → json_or_throw shown (received status_text (reply_of (failed true message))) ≡ threw waking
  unfolding reply_of
  waking_thrown message =
      json_or_throw-error 504 waking_fields waking (omega arith) refl (unfold prop in refl)
        (cons-ne-nil _ _)

  unreachable_thrown :
      (message : Text)
      → AreUnits message
      → json_or_throw shown (received status_text (reply_of (failed false message)))
        ≡ threw unreachable
  unfolding reply_of
  unreachable_thrown message units =
      json_or_throw-error 502 (unreachable_fields message) unreachable
        (omega arith, omega arith, (omega arith, units, tt)) refl (unfold prop in refl)
        (cons-ne-nil _ _)

  -- When the engine sleeps past the proxy's time limit, each of the three calls throws the proxy's
  -- "waking up" message; when it cannot be reached, its "unreachable" message.
  pub failed-thrown :
      (aborted : Bool) (message : Text)
      → AreUnits message
      → (create_order shown (returned (received status_text (reply_of (failed aborted message))))
          ≡ threw (notice aborted))
        × (list_orders shown (returned (received status_text (reply_of (failed aborted message))))
            ≡ threw (notice aborted))
        × (get_match shown (returned (received status_text (reply_of (failed aborted message))))
            ≡ threw (notice aborted))
  unfolding create_order list_orders get_match
  failed-thrown true message units = (
    waking_thrown message,
    rw (waking_thrown message),
    unfold reply_of in rw (waking_thrown message),
  )
  failed-thrown false message units = (
    unreachable_thrown message units,
    rw (unreachable_thrown message units),
    unfold reply_of in rw (unreachable_thrown message units),
  )

-- The body of an order's request, whose fields are texts of UTF-16 units, is parsed at the other end
-- to the fields of the order.
pub parse-create_order_request :
    (b : CreateOrderBody) (text : Text)
    → IsFlat (order_fields b)
    → (create_order_request b).body ≡ some text
    → parse text ≡ some (obj (order_fields b))
unfolding create_order_request
parse-create_order_request b text flat h =
    let e : stringify (obj (order_fields b)) ≡ text = cc in
    rw (← e) (parse-stringify (order_fields b) flat)

-- An order counts as created only if the engine has answered with a status from 200 to 299.
pub create_order-returned :
    (shown : Json → Text) (reply : Outcome Response) (v : Json)
    → create_order shown reply ≡ returned v
    → (res : Response) × (reply ≡ returned res) × (200 ≤ res.status) × (res.status ≤ 299)
unfolding create_order json_or_throw
create_order-returned shown (threw e) v h = cc
create_order-returned shown (returned res) v h = (res, refl, ground arith, ground arith)

-- The answer "no such match" stands for status 404 and for nothing else.
pub get_match-none_iff :
    (shown : Json → Text) (reply : Outcome Response)
    → (get_match shown reply ≡ returned none)
      ↔ ((res : Response) × (reply ≡ returned res) × (res.status ≡ 404))
unfolding get_match
get_match-none_iff shown (threw e) = (λ h. cc, λ (res, same, _). cc)
get_match-none_iff shown (returned res) = elim (Bool-cases (res.status == 404)) [
  | inl missing ↦ (λ _. (res, refl, ground arith), λ _. rw missing)
  | inr other ↦ (
    λ h. elim (Outcome-cases (json_or_throw shown res)) [
      | inl (v, e) ↦ ground arith
      | inr (m, e) ↦ ground arith
    ],
    λ (res', same, missing). ground arith,
  )
]
