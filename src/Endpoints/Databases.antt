-- ===== src/Endpoints/Databases.antt =====
-- web/src/lib/endpoints.ts: databasesApi.
use sky_panel.Base.{String, some, [], ◌∷◌}
use sky_panel.Base.Json.{str}
use sky_panel.Api.{Call}
use sky_panel.Endpoints.Options.{path_of, bare, with_body}

pub data DatabasesApi : Type 0 where
  list : String → DatabasesApi
  create : String → String → DatabasesApi
  remove : String → String → DatabasesApi

unfoldable pub call : DatabasesApi → Call
call (list server_id) = bare "GET" (path_of ("/api/v1/servers/" ∷ server_id ∷ "/databases" ∷ []))
call (create server_id name) =
    with_body "POST" (path_of ("/api/v1/servers/" ∷ server_id ∷ "/databases" ∷ []))
      (("name", some (str name)) ∷ [])
call (remove server_id database_id) =
    bare "DELETE" (path_of ("/api/v1/servers/" ∷ server_id ∷ "/databases/" ∷ database_id ∷ []))
