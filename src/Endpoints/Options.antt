-- ===== src/Endpoints/Options.antt =====
-- The options that the calls of web/src/lib/endpoints.ts pass to `apiRequest`.
use Prim.Native.String
use sky_panel.Base.{ℕ, String, Option, none, some, true, false, List, [], ◌∷◌, map, Dict}
use sky_panel.Base.Int.{pos}
use sky_panel.Base.Json.{Json, str, num, arr, obj, fields, items}
use sky_panel.Api.{Call}

-- `encodeURIComponent`, and `URLSearchParams.toString` of the pairs that were set.
pub record Encoding : Type 0 where
  pub encode_uri_component : String → String
  pub query_string : List (String × String) → String

-- A template literal: its parts, one after another.
abbrev pub path_of : List String → String
path_of [] = ""
path_of (part ∷ parts) = String.◌++◌ part (path_of parts)

abbrev pub bare : String → String → Call
bare method path = record { path = path; method = method; body = none; auth = true }

abbrev pub with_body : String → String → List (String × Option Json) → Call
with_body method path body = record {
  path = path;
  method = method;
  body = some (obj (fields body));
  auth = true;
}

abbrev pub without_auth : Call → Call
without_auth c = record c { auth = false }

abbrev pub map_option : {A : Type 0} → (A → Json) → Option A → Option Json
map_option f none = none
map_option f (some a) = some (f a)

abbrev pub number : ℕ → Json
number n = num (pos n)

abbrev pub texts : List String → Json
texts xs = arr (items (map str xs))

abbrev pub entries : Dict String → List (String × Option Json)
entries [] = []
entries ((k, v) ∷ d) = (k, some (str v)) ∷ entries d

-- A `Record<string, string>`
abbrev pub record_of : Dict String → Json
record_of d = obj (fields (entries d))
