-- ===== src/Api.antt =====
-- web/src/lib/api.ts: one call of the panel's API, and what becomes of its response.
-- `fetch` is the network: the responses are the environment's choice.
pub mod Client
pub mod Headers
pub mod Tasks
pub mod Flight
pub mod Settling
pub mod Races
use Prim.Native.String
use sky_panel.Base.{
  ℕ, String, Option, none, some, Bool, true, false, not, ◌&&◌, ◌≡◌, nonempty, truthy, Dict, List,
  [], ◌∷◌, ◌++◌, leb, ◌==◌, if◌then◌else◌, refl,
}
use sky_panel.Base.Int.{pos}
use sky_panel.Base.Decimal.{show}
use sky_panel.Base.Json.{Json, null, str, obj, get_field, field, end}

-- A path with its `RequestOptions`.
pub record Call : Type 0 where
  pub path : String
  pub method : String
  pub body : Option Json
  pub auth : Bool

-- What `fetch` is called with; the body is the value that `JSON.stringify` is given.
pub record Request : Type 0 where
  pub url : String
  pub method : String
  pub headers : Dict String
  pub body : Option Json

-- A response: its status, and what `res.json()` resolves to (`none` where it rejects).
pub record Response : Type 0 where
  pub status : ℕ
  pub json : Option Json

-- `res.ok`
unfoldable pub is_ok : Response → Bool
is_ok r = leb 200 r.status && leb r.status 299

pub record ApiError : Type 0 where
  pub status : ℕ
  pub code : Json
  pub message : Json

-- What a page catches: an `ApiError`, or any other exception.
pub data Failure : Type 0 where
  api : ApiError → Failure
  other : Failure

-- `err instanceof ApiError ? err.message : text`
abbrev pub message_or : String → Failure → Json
message_or text (api e) = e.message
message_or text other = str text

-- How the promise of `apiRequest` settles. `resolved none` is undefined; `broken` is any error
-- that is no ApiError (a network failure, a body that is not JSON).
pub data Settled : Type 0 where
  resolved : Option Json → Settled
  failed : ApiError → Settled
  broken : Settled

abbrev pub bearer : String → String
bearer token = String.◌++◌ "Bearer " token

abbrev content_headers : Option Json → Dict String
content_headers none = []
content_headers (some _) = ("Content-Type", "application/json") ∷ []

-- `if (auth && token)`
abbrev auth_headers : Bool → Option String → Dict String
auth_headers auth none = []
auth_headers auth (some token) =
    if auth && nonempty token then ("Authorization", bearer token) ∷ [] else []

-- `doFetch(token)`; `base` is `API_BASE`.
unfoldable pub do_fetch : String → Call → Option String → Request
do_fetch base call token = record {
  url = String.◌++◌ base call.path;
  method = call.method;
  headers = content_headers call.body ++ auth_headers call.auth token;
  body = call.body;
}

-- `value ?? fallback`
abbrev or_else : Option Json → Json → Json
or_else none fallback = fallback
or_else (some null) fallback = fallback
or_else (some v) fallback = v

-- `data[key]` of a value that is not null
abbrev member : String → Json → Option Json
member key (obj fs) = get_field key fs
member key _ = none

abbrev pub default_code : Json
default_code = str "unknown_error"

abbrev pub default_message : ℕ → Json
default_message status = str (String.◌++◌ "request failed with status " (show status))

-- The `try` block that reads the error's code and message: of null it throws, and keeps both.
abbrev described : ℕ → Option Json → ApiError
described status none = record {
  status = status;
  code = default_code;
  message = default_message status;
}
described status (some null) = record {
  status = status;
  code = default_code;
  message = default_message status;
}
described status (some v) = record {
  status = status;
  code = or_else (member "error" v) default_code;
  message = or_else (member "message" v) (default_message status);
}

unfoldable pub api_error : Response → ApiError
api_error r = described r.status r.json

-- `return res.json()`
abbrev read_body : Option Json → Settled
read_body none = broken
read_body (some v) = resolved (some v)

-- The end of `apiRequest`, from `if (!res.ok)` on.
unfoldable pub conclude : Response → Settled
unfolding is_ok api_error
conclude r =
    if is_ok r
    then (if r.status == 204 then resolved none else read_body r.json)
    else failed (api_error r)

conclude_tests :
    (conclude (record { status = 204; json = none }) ≡ resolved none)
    × (conclude (record { status = 502; json = none })
        ≡ failed (record {
          status = 502;
          code = str "unknown_error";
          message = str "request failed with status 502";
        }))
    × (conclude (record { status = 404; json = some (obj (field "error" (str "not_found") end)) })
        ≡ failed (record {
          status = 404;
          code = str "not_found";
          message = str "request failed with status 404";
        }))
unfolding conclude get_field show
conclude_tests = (refl, refl, refl)
