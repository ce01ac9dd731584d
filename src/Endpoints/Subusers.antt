-- ===== src/Endpoints/Subusers.antt =====
-- web/src/lib/endpoints.ts: subusersApi.
use sky_panel.Base.{String, some, List, [], ◌∷◌, map}
use sky_panel.Base.Json.{Json, str, arr, items}
use sky_panel.Wire.Servers.{Permission}
use sky_panel.Api.{Call}
use sky_panel.Endpoints.Options.{path_of, bare, with_body}

abbrev permission : Permission → Json
permission Permission.console = str "console"
permission Permission.files = str "files"
permission Permission.power = str "power"
permission Permission.settings = str "settings"
permission Permission.databases = str "databases"

pub data SubusersApi : Type 0 where
  list : String → SubusersApi
  add : String → String → List Permission → SubusersApi
  remove : String → String → SubusersApi

unfoldable pub call : SubusersApi → Call
call (list server_id) = bare "GET" (path_of ("/api/v1/servers/" ∷ server_id ∷ "/subusers" ∷ []))
call (add server_id username permissions) =
    with_body "POST" (path_of ("/api/v1/servers/" ∷ server_id ∷ "/subusers" ∷ [])) (
      ("username", some (str username))
      ∷ ("permissions", some (arr (items (map permission permissions))))
      ∷ [])
call (remove server_id user_id) =
    bare "DELETE" (path_of ("/api/v1/servers/" ∷ server_id ∷ "/subusers/" ∷ user_id ∷ []))
