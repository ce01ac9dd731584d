-- ===== src/Endpoints/Auth.antt =====
-- web/src/lib/endpoints.ts: authApi.
use sky_panel.Base.{String, Option, some, [], ◌∷◌}
use sky_panel.Base.Json.{str}
use sky_panel.Api.{Call}
use sky_panel.Endpoints.Options.{bare, with_body, without_auth, map_option}

pub data AuthApi : Type 0 where
  register : String → String → String → AuthApi
  login : String → String → Option String → AuthApi
  logout : String → AuthApi
  me : AuthApi
  totp_setup : AuthApi
  totp_confirm : String → AuthApi
  totp_disable : String → AuthApi
  registration_status : AuthApi

unfoldable pub call : AuthApi → Call
call (register email username password) = without_auth (
    with_body "POST" "/api/v1/auth/register" (
      ("email", some (str email))
      ∷ ("username", some (str username))
      ∷ ("password", some (str password))
      ∷ []))
call (login email password totp_code) = without_auth (
    with_body "POST" "/api/v1/auth/login" (
      ("email", some (str email))
      ∷ ("password", some (str password))
      ∷ ("totp_code", map_option str totp_code)
      ∷ []))
call (logout refresh_token) =
    without_auth
      (with_body "POST" "/api/v1/auth/logout" (("refresh_token", some (str refresh_token)) ∷ []))
call me = bare "GET" "/api/v1/me"
call totp_setup = bare "POST" "/api/v1/me/totp/setup"
call (totp_confirm code) =
    with_body "POST" "/api/v1/me/totp/confirm" (("code", some (str code)) ∷ [])
call (totp_disable code) =
    with_body "POST" "/api/v1/me/totp/disable" (("code", some (str code)) ∷ [])
call registration_status = without_auth (bare "GET" "/api/v1/public/registration-status")
