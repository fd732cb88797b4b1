-- ===== src/Proxy.antt =====
-- web/app/api/engine/[...path]/route.ts: the same-origin proxy to the engine. The upstream call is a
-- parameter: it answers, it fails, or the timer has aborted it.
pub mod Laws
use nyx_darkpool.Base.{
  ℕ, Bool, true, false, ◌&&◌, ◌||◌, not, Option, none, some, List, [], ◌∷◌, ◌++◌, Text, codes,
  ◌===◌, ◌==◌, if◌then◌else◌, is_empty, Outcome, returned, threw, ◌>>=◌, reverse,
}
use nyx_darkpool.Base.Json.{Json, str, obj, Fields, field, end, stringify}
use nyx_darkpool.Base.Uri.{encode_uri_component}

abbrev pub slash : ℕ
slash = b'/'

-- `origin.replace(/\/+$/, "")`.
drop_slashes : Text → Text
drop_slashes [] = []
drop_slashes (c ∷ s) = if c == slash then drop_slashes s else c ∷ s

unfoldable pub without_end_slashes : Text → Text
unfolding drop_slashes
without_end_slashes s = reverse (drop_slashes (reverse s))

abbrev pub default_origin : Text
default_origin = codes "http://localhost:8080"

-- `setting` is the environment variable ENGINE_ORIGIN, if it is set.
unfoldable pub engine_origin : Option Text → Text
engine_origin none = without_end_slashes default_origin
engine_origin (some origin) = without_end_slashes origin

-- `path.map(encodeURIComponent).join("/")`.
unfoldable pub joined_path : List Text → Outcome Text
joined_path [] = returned []
joined_path (p ∷ []) = encode_uri_component p
joined_path (p ∷ q ∷ ps) =
    let others = joined_path (q ∷ ps) in
    do t ← encode_uri_component p; rest ← others; returned (t ++ slash ∷ rest)

unfoldable pub target_of : Option Text → List Text → Text → Outcome Text
target_of setting path search = do
  joined ← joined_path path
  returned (engine_origin setting ++ slash ∷ (joined ++ search))

pub record Incoming : Type 0 where
  pub method : Text
  pub path : List Text
  pub search : Text
  pub content_type : Option Text
  pub accept : Option Text
  pub body : Text

pub record Upstream : Type 0 where
  pub target : Text
  pub method : Text
  pub content_type : Option Text
  pub accept : Option Text
  pub body : Option Text

-- An empty header value is not passed on.
abbrev pub given : Option Text → Option Text
given none = none
given (some v) = if is_empty v then none else some v

abbrev pub has_body : Text → Bool
has_body method = not (method === codes "GET") && not (method === codes "HEAD")

unfoldable pub upstream_request : Option Text → Incoming → Outcome Upstream
upstream_request setting req = do
  target ← target_of setting req.path req.search
  returned (record {
    target = target;
    method = req.method;
    content_type = given req.content_type;
    accept = given req.accept;
    body = if has_body req.method then some req.body else none;
  })

pub record Answer : Type 0 where
  pub status : ℕ
  pub content_type : Option Text
  pub body : Text

-- What has become of the upstream call; `aborted` says that the timer has fired.
pub data Fetched : Type 0 where
  answered : Answer → Fetched
  failed : (aborted : Bool) → Text → Fetched

-- `Response.json(v, { status })`.
abbrev pub json_answer : ℕ → Fields → Answer
json_answer status fs = record {
  status = status;
  content_type = some (codes "application/json");
  body = stringify (obj fs);
}

abbrev pub waking : Text
waking = codes "engine waking up (cold start) — retry in a moment"

abbrev pub unreachable : Text
unreachable = codes "engine unreachable"

abbrev pub waking_fields : Fields
waking_fields = field (codes "error") (str waking) end

abbrev pub unreachable_fields : Text → Fields
unreachable_fields message =
    field (codes "error") (str unreachable) (field (codes "detail") (str message) end)

unfoldable pub reply_of : Fetched → Answer
reply_of (answered res) = record {
  status = res.status;
  content_type = given res.content_type;
  body = res.body;
}
reply_of (failed true message) = json_answer 504 waking_fields
reply_of (failed false message) = json_answer 502 (unreachable_fields message)

abbrev pub upstream_timeout_ms : ℕ
upstream_timeout_ms = 50_000

-- `proxy`: the target is built outside the `try`, so a path that cannot be encoded throws.
unfoldable pub proxy : Option Text → (Upstream → Fetched) → Incoming → Outcome Answer
proxy setting fetch req = do out ← upstream_request setting req; returned (reply_of (fetch out))
