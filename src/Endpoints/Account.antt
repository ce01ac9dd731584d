-- ===== src/Endpoints/Account.antt =====
-- web/src/lib/endpoints.ts: accountApi.
use sky_panel.Base.{String, Option, none, some, [], ◌∷◌, nonempty, if◌then◌else◌}
use sky_panel.Base.Json.{str}
use sky_panel.Api.{Call}
use sky_panel.Endpoints.Options.{Encoding, path_of, bare, with_body}

abbrev session_path : Encoding → Option String → String
session_path u none = "/api/v1/me/sessions"
session_path u (some token) =
    if nonempty token
    then path_of ("/api/v1/me/sessions" ∷ "?current=" ∷ u.encode_uri_component token ∷ [])
    else "/api/v1/me/sessions"

pub data AccountApi : Type 0 where
  change_password : String → String → AccountApi
  list_sessions : Option String → AccountApi
  revoke_session : String → AccountApi
  revoke_other_sessions : String → AccountApi
  list_api_keys : AccountApi
  create_api_key : String → AccountApi
  delete_api_key : String → AccountApi

unfoldable pub call : Encoding → AccountApi → Call
call u (change_password current_password new_password) = with_body "POST" "/api/v1/me/password" (
    ("current_password", some (str current_password))
    ∷ ("new_password", some (str new_password))
    ∷ [])
call u (list_sessions current_refresh_token) = bare "GET" (session_path u current_refresh_token)
call u (revoke_session id) = bare "DELETE" (path_of ("/api/v1/me/sessions/" ∷ id ∷ []))
call u (revoke_other_sessions current_refresh_token) =
    with_body "POST" "/api/v1/me/sessions/revoke-others"
      (("current_refresh_token", some (str current_refresh_token)) ∷ [])
call u list_api_keys = bare "GET" "/api/v1/me/api-keys"
call u (create_api_key name) =
    with_body "POST" "/api/v1/me/api-keys" (("name", some (str name)) ∷ [])
call u (delete_api_key id) = bare "DELETE" (path_of ("/api/v1/me/api-keys/" ∷ id ∷ []))
