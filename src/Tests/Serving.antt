-- ===== src/Tests/Serving.antt =====
-- The client and the proxy.
use nyx_darkpool.Base.{
  ◌≤◌, ◌≡◌, ◌↔◌, refl, true, List, [], ◌∷◌, none, some, Text, codes, returned, threw, arith,
}
use nyx_darkpool.Base.Json.{Json, obj, end, stringify}
use nyx_darkpool.Base.Json.Parse.{parse}
use nyx_darkpool.Engine.{
  CreateOrderBody, Response, order_fields, create_order_request, create_order, list_orders,
  get_match, json_or_throw, body_of,
}
use nyx_darkpool.Base.Uri.{encode_uri_component}
use nyx_darkpool.Engine.Laws.{
  received, notice, failed-thrown, parse-create_order_request, create_order-returned,
  get_match-none_iff,
}
use nyx_darkpool.Proxy.{failed, reply_of, joined_path}
use nyx_darkpool.Proxy.Laws.{slashes, joints, slashes-joined_path}

abbrev shown : Json → Text
shown v = codes "[object Object]"

abbrev body : CreateOrderBody
body = record {
  pubkey = codes "GSAB";
  asset_pair = codes "GOLD-RWA/USDC";
  side = codes "bid";
  price = codes "9984";
  volume = codes "5";
  salt = codes "77";
  commitment = codes "1003";
  nullifier = codes "1002";
  signature = some (codes "sig");
}

parse-create_order_request_case :
    parse (stringify (obj (order_fields body))) ≡ some (obj (order_fields body))
unfolding create_order_request
parse-create_order_request_case =
    parse-create_order_request body (stringify (obj (order_fields body))) (omega arith) refl

failed-thrown_case :
    (create_order shown (returned (received [] (reply_of (failed true (codes "aborted")))))
      ≡ threw (notice true))
    × (list_orders shown (returned (received [] (reply_of (failed true (codes "aborted")))))
        ≡ threw (notice true))
    × (get_match shown (returned (received [] (reply_of (failed true (codes "aborted")))))
        ≡ threw (notice true))
failed-thrown_case = failed-thrown shown [] true (codes "aborted") (omega arith)

abbrev created : Response
created = record { status = 201; status_text = codes "Created"; body = returned [] }

created_run : create_order shown (returned created) ≡ returned (obj end)
unfolding create_order json_or_throw body_of
created_run = refl

create_order-returned_case :
    (res : Response) × (returned created ≡ returned res) × (200 ≤ res.status) × (res.status ≤ 299)
create_order-returned_case = create_order-returned shown (returned created) (obj end) created_run

abbrev missing : Response
missing = record { status = 404; status_text = codes "Not Found"; body = threw (codes "reset") }

get_match-none_iff_case :
    (get_match shown (returned missing) ≡ returned none)
    ↔ ((res : Response) × (returned missing ≡ returned res) × (res.status ≡ 404))
get_match-none_iff_case = get_match-none_iff shown (returned missing)

abbrev sneaky : List Text
sneaky = codes "matches" ∷ codes "a/../b" ∷ []

sneaky_run : joined_path sneaky ≡ returned (codes "matches/a%2F..%2Fb")
unfolding joined_path encode_uri_component
sneaky_run = refl

slashes-joined_path_case : slashes (codes "matches/a%2F..%2Fb") ≡ joints sneaky
slashes-joined_path_case = slashes-joined_path sneaky (codes "matches/a%2F..%2Fb") sneaky_run
