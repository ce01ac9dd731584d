-- ===== src/Login.antt =====
-- web/src/pages/LoginPage.tsx: signing in, with a second factor where the panel asks for one.
pub mod Session
pub mod Register
use sky_panel.Base.{String, Option, none, some, Bool, true, false, str_eq, if◌then◌else◌}
use sky_panel.Base.Json.{Json, str}
use sky_panel.Wire.Account.{TokenPair}
use sky_panel.Auth.{Platform, State, Outcome, returned, threw, set_session}
use sky_panel.Api.{ApiError}
use sky_panel.Endpoints.Auth.{AuthApi}

pub record LoginForm : Type 0 where
  pub email : String
  pub password : String
  pub totp_code : String
  pub needs_totp : Bool
  pub error : Option Json
  pub loading : Bool

-- How the call of `authApi.login` ends.
pub data LoginReply : Type 0 where
  granted : TokenPair → LoginReply
  denied : ApiError → LoginReply
  failed : LoginReply

-- The page after it, and whether it navigates to the dashboard.
pub record Login : Type 0 where
  pub form : LoginForm
  pub auth : State
  pub navigated : Bool

-- The call that `handleSubmit` sends
unfoldable pub login_call : LoginForm → AuthApi
login_call f = AuthApi.login f.email f.password (if f.needs_totp then some f.totp_code else none)

abbrev asks_for_totp : Json → Bool
asks_for_totp (str code) = str_eq code "totp_required"
asks_for_totp _ = false

abbrev with_error : Json → LoginForm → LoginForm
with_error message f = record f { error = some message; loading = false }

abbrev pub session_set : LoginForm → Outcome × State → Login
session_set f (returned, s) = record {
  form = record f { error = none; loading = false };
  auth = s;
  navigated = true;
}
session_set f (threw, s) = record {
  form = with_error (str "Something went wrong.") f;
  auth = s;
  navigated = false;
}

-- `handleSubmit` from the answer on
unfoldable pub handle_submit : Platform → LoginReply → LoginForm → State → Login
handle_submit p (granted t) f s = session_set f (set_session p t s)
handle_submit p (denied e) f s = record {
  form =
      if asks_for_totp e.code
      then with_error (str "Enter your two-factor code to continue.")
          (record f { needs_totp = true })
      else with_error e.message f;
  auth = s;
  navigated = false;
}
handle_submit p failed f s = record {
  form = with_error (str "Something went wrong.") f;
  auth = s;
  navigated = false;
}
