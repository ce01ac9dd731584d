-- ===== src/Account.antt =====
-- web/src/pages/AccountPage.tsx: the second factor, the password, the sessions and the API keys.
pub mod Held
pub mod Keys
use sky_panel.Base.{
  ℕ, ltb, leb, String, Option, none, some, Bool, true, false, not, ◌&&◌, List, [], ◌∷◌, any, truthy,
  str_eq, ◌⊎◌, inl, inr, if◌then◌else◌,
}
use sky_panel.Base.Json.{Json, str}
use sky_panel.Wire.Account.{User, TokenPair, TotpSetup, Session}
use sky_panel.Api.{Failure, api, other, message_or}
use sky_panel.Auth.{Platform, State, Outcome, returned, threw, update_user, set_session}
use sky_panel.Endpoints.Auth.{AuthApi}

-- The card of the second factor
pub record Factor : Type 0 where
  pub setup : Option TotpSetup
  pub code : String
  pub message : Option Json

unfoldable pub start_setup : Failure ⊎ TotpSetup → Factor → Factor
start_setup (inr setup) f = record f { setup = some setup; message = none }
start_setup (inl e) f = record f { message = some (message_or "Failed to start setup" e) }

abbrev pub with_factor : Bool → User → User
with_factor on u = record u { totp_enabled = on }

abbrev pub told : String → Outcome × State → Factor → Factor × State
told text (returned, s) f = (record f { message = some (str text) }, s)
told text (threw, s) f = (record f { message = some (str "Invalid code") }, s)

-- `confirm` and `disable` from the answer on, none being success; `user` is that of the last render.
unfoldable pub confirm : Platform → Option User → Option Failure → Factor → State → Factor × State
confirm p none r f s = (f, s)
confirm p (some user) (some e) f s = (record f { message = some (message_or "Invalid code" e) }, s)
confirm p (some user) none f s =
    told "Two-factor authentication enabled." (update_user p (with_factor true user) s)
      (record f { setup = none; code = "" })

unfoldable pub disable : Platform → Option User → Option Failure → Factor → State → Factor × State
disable p none r f s = (f, s)
disable p (some user) (some e) f s = (record f { message = some (message_or "Invalid code" e) }, s)
disable p (some user) none f s =
    told "Two-factor authentication disabled." (update_user p (with_factor false user) s)
      (record f { code = "" })

-- The card of the password
pub record Passwords : Type 0 where
  pub current : String
  pub next : String
  pub repeated : String
  pub note : Option (Json × Bool)

abbrev noted : String → Bool → Passwords → Passwords
noted text ok c = record c { note = some (str text, ok) }

abbrev pub kept_in : Outcome × State → Passwords → Passwords × State
kept_in (returned, s) c = (noted "Password changed. Other sessions were signed out." true c, s)
kept_in (threw, s) c =
    (noted "Password changed. You've been signed out everywhere — please log in again." true c, s)

abbrev pub signed_in : Platform → Failure ⊎ TokenPair → Passwords → State → Passwords × State
signed_in p (inl e) c s =
    (noted "Password changed. You've been signed out everywhere — please log in again." true c, s)
signed_in p (inr tokens) c s = kept_in (set_session p tokens s) c

abbrev pub emptied : Passwords → Passwords
emptied c = record c { current = ""; next = ""; repeated = "" }

-- `onSuccess` of `change`; `login` is how `authApi.login(email, pw)` ends, if it is called.
unfoldable pub changed :
    Platform
    → (email : Option String) → (login : Failure ⊎ TokenPair) → Passwords
    → State
    → Passwords × State
changed p email login c s =
    if truthy email
    then signed_in p login (emptied c) s
    else (noted "Password changed. Other sessions were signed out." true (emptied c), s)

-- The call that `changed` waits for
unfoldable pub login_again : (email : Option String) → Passwords → Option AuthApi
login_again none c = none
login_again (some email) c =
    if truthy (some email) then some (AuthApi.login email c.next none) else none

abbrev is_wrong_password : Failure → Bool
is_wrong_password (api e) = elim e.code [ str code ↦ str_eq code "wrong_password" | _ ↦ false ]
is_wrong_password other = false

unfoldable pub change_refused : Failure → Passwords → Passwords
change_refused e c = record c {
  note = some (
    if is_wrong_password e
        then str "Current password is incorrect."
        else message_or "Could not change password." e,
    false,
  );
}

-- `units` is `length` of a string.
module _ (units : String → ℕ) where
  unfoldable pub too_short : Passwords → Bool
  too_short c = ltb 0 (units c.next) && ltb (units c.next) 8

  unfoldable pub mismatch : Passwords → Bool
  mismatch c = ltb 0 (units c.repeated) && not (str_eq c.next c.repeated)

  unfoldable pub can_submit : (is_pending : Bool) → Passwords → Bool
  can_submit is_pending c =
      ltb 0 (units c.current) && leb 8 (units c.next) && str_eq c.next c.repeated && not is_pending

-- The button that signs the other sessions out is enabled.
unfoldable pub can_revoke_others :
    (refresh_token : Option String) → Option (List Session) → (is_pending : Bool) → Bool
can_revoke_others refresh_token none is_pending = false
can_revoke_others refresh_token (some list) is_pending =
    truthy refresh_token && any (λ (s : Session). not s.current) list && not is_pending
