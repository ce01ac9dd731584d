-- ===== src/Login/Register.antt =====
-- web/src/pages/RegisterPage.tsx: a new account.
use sky_panel.Base.{String, Option, none, some, Bool, true, false, not, ◌&&◌, ◌⊎◌, inl, inr}
use sky_panel.Base.Json.{Json, str}
use sky_panel.Wire.Account.{TokenPair}
use sky_panel.Api.{Failure, message_or}
use sky_panel.Auth.{Platform, State, Outcome, returned, threw, set_session}
use sky_panel.Endpoints.Auth.{AuthApi}

pub record RegisterForm : Type 0 where
  pub email : String
  pub username : String
  pub password : String
  pub error : Option Json
  pub loading : Bool

pub record Register : Type 0 where
  pub form : RegisterForm
  pub auth : State
  pub navigated : Bool

unfoldable pub register_call : RegisterForm → AuthApi
register_call f = AuthApi.register f.email f.username f.password

abbrev pub session_set : RegisterForm → Outcome × State → Register
session_set f (returned, s) = record {
  form = record f { error = none; loading = false };
  auth = s;
  navigated = true;
}
session_set f (threw, s) = record {
  form = record f { error = some (str "Something went wrong."); loading = false };
  auth = s;
  navigated = false;
}

-- `handleSubmit` from the answer on
unfoldable pub handle_submit : Platform → Failure ⊎ TokenPair → RegisterForm → State → Register
handle_submit p (inr tokens) f s = session_set f (set_session p tokens s)
handle_submit p (inl e) f s = record {
  form = record f { error = some (message_or "Something went wrong." e); loading = false };
  auth = s;
  navigated = false;
}

abbrev is_off : Option Bool → Bool
is_off none = false
is_off (some enabled) = not enabled

-- `registrationDisabled`; the answer of the query is whether registration is enabled.
unfoldable pub registration_disabled : (status_loading : Bool) → Option Bool → Bool
registration_disabled status_loading status = not status_loading && is_off status
