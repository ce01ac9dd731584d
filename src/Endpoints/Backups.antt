-- ===== src/Endpoints/Backups.antt =====
-- web/src/lib/endpoints.ts: backupsApi.
use sky_panel.Base.{String, some, [], ◌∷◌}
use sky_panel.Base.Json.{str}
use sky_panel.Api.{Call}
use sky_panel.Endpoints.Options.{Encoding, path_of, bare, with_body}

pub data BackupsApi : Type 0 where
  list : String → BackupsApi
  create : String → BackupsApi
  restore : String → String → BackupsApi
  remove : String → String → BackupsApi

unfoldable pub call : Encoding → BackupsApi → Call
call u (list server_id) = bare "GET" (path_of ("/api/v1/servers/" ∷ server_id ∷ "/backups" ∷ []))
call u (create server_id) = bare "POST" (path_of ("/api/v1/servers/" ∷ server_id ∷ "/backups" ∷ []))
call u (restore server_id filename) =
    with_body "POST" (path_of ("/api/v1/servers/" ∷ server_id ∷ "/backups/restore" ∷ []))
      (("filename", some (str filename)) ∷ [])
call u (remove server_id filename) = bare "DELETE" (
    path_of (
      "/api/v1/servers/" ∷ server_id ∷ "/backups?filename=" ∷ u.encode_uri_component filename ∷ []))
