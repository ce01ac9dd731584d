-- ===== src/Endpoints/Files.antt =====
-- web/src/lib/endpoints.ts: filesApi.
use sky_panel.Base.{String, some, [], ◌∷◌}
use sky_panel.Base.Json.{str}
use sky_panel.Api.{Call}
use sky_panel.Endpoints.Options.{Encoding, path_of, bare, with_body}

pub data FilesApi : Type 0 where
  list : String → String → FilesApi
  read : String → String → FilesApi
  write : String → String → String → FilesApi
  rename : String → String → String → FilesApi
  remove : String → String → FilesApi
  mkdir : String → String → FilesApi

unfoldable pub call : Encoding → FilesApi → Call
call u (list server_id path) =
    bare "GET"
      (path_of ("/api/v1/servers/" ∷ server_id ∷ "/files?path=" ∷ u.encode_uri_component path ∷ []))
call u (read server_id path) = bare "GET" (
    path_of
      ("/api/v1/servers/" ∷ server_id ∷ "/files/content?path=" ∷ u.encode_uri_component path ∷ []))
call u (write server_id path content_base64) =
    with_body "PUT" (path_of ("/api/v1/servers/" ∷ server_id ∷ "/files/content" ∷ []))
      (("path", some (str path)) ∷ ("content_base64", some (str content_base64)) ∷ [])
call u (rename server_id path new_path) =
    with_body "POST" (path_of ("/api/v1/servers/" ∷ server_id ∷ "/files/rename" ∷ []))
      (("path", some (str path)) ∷ ("new_path", some (str new_path)) ∷ [])
call u (remove server_id path) =
    bare "DELETE"
      (path_of ("/api/v1/servers/" ∷ server_id ∷ "/files?path=" ∷ u.encode_uri_component path ∷ []))
call u (mkdir server_id path) =
    with_body "POST" (path_of ("/api/v1/servers/" ∷ server_id ∷ "/files/mkdir" ∷ []))
      (("path", some (str path)) ∷ [])
