-- ===== src/Shell.antt =====
-- web/src/components/AppShell.tsx and Topbar.tsx: the frame of every page of a signed-in user, which
-- polls the user, and the button that signs out. The answer of the poll is kept in the query's cache.
pub mod Polling
use sky_panel.Base.{
  ℕ, zero, suc, ◌==◌, String, Option, none, some, Bool, true, false, not, ◌&&◌, ◌||◌, nonempty,
  truthy, str_eq, List, [], ◌∷◌, if◌then◌else◌,
}
use sky_panel.Base.Int.{ℤ, pos, negsuc}
use sky_panel.Wire.Account.{User, Role, TokenPair}
use sky_panel.Auth.{Platform, State, Outcome, update_user, clear, set_session}
use sky_panel.Endpoints.Auth.{AuthApi}

-- The session store, and the cached answer of `authApi.me`
pub record Shell : Type 0 where
  pub auth : State
  pub me : Option User

abbrev pub same_int : ℤ → ℤ → Bool
same_int (pos m) (pos n) = m == n
same_int (negsuc m) (negsuc n) = m == n
same_int _ _ = false

abbrev pub same_role : Role → Role → Bool
same_role Role.admin Role.admin = true
same_role Role.user Role.user = true
same_role _ _ = false

abbrev pub same_flag : Bool → Bool → Bool
same_flag true b = b
same_flag false b = not b

-- The condition of the effect on `me`
unfoldable pub differs : User → Option User → Bool
differs me none = true
differs me (some cur) =
    not (same_int cur.coins me.coins)
    || not (same_role cur.role me.role)
    || not (str_eq cur.username me.username)
    || not (same_flag cur.totp_enabled me.totp_enabled)

abbrev pub synced : Platform → Option User → State → State
synced p none s = s
synced p (some me) s = if differs me s.user then (update_user p me s).1 else s

-- The effect on `[me, updateUser]`, which runs after the mount and when `me` is a new object
unfoldable pub sync : Platform → Shell → Shell
unfolding differs
sync p s = record s { auth = synced p s.me s.auth }

-- What happens to the frame: it mounts, the poll is answered, the user signs out, and signs in again
-- without the page being loaded.
pub data Event : Type 0 where
  mounted : Event
  answered : User → Event
  signed_out : Event
  signed_in : TokenPair → Event

-- `shares me cached` is whether the query's cache keeps the object that it has instead of the answer
-- `me`, the structural sharing of TanStack Query: `me` is then the same object as before, and the
-- effect does not run.
module _ (shares : User → Option User → Bool) where
  unfoldable pub step : Platform → Event → Shell → Shell
  unfolding sync
  step p mounted s = sync p s
  step p (answered me) s = if shares me s.me then s else sync p (record s { me = some me })
  step p signed_out s = record s { auth = (clear p s.auth).1 }
  step p (signed_in tokens) s = record s { auth = (set_session p tokens s.auth).1 }

  unfoldable pub run : Platform → List Event → Shell → Shell
  unfolding step
  run p [] s = s
  run p (e ∷ es) s = run p es (step p e s)

abbrev text_of : Option String → String
text_of none = ""
text_of (some t) = t

-- The call that `handleLogout` makes
unfoldable pub logout_call : State → Option AuthApi
logout_call s =
    if truthy s.refresh_token then some (AuthApi.logout (text_of s.refresh_token)) else none

abbrev role_is_admin : Role → Bool
role_is_admin Role.admin = true
role_is_admin Role.user = false

-- The sidebar shows the link to the admin page.
unfoldable pub shows_admin : State → Bool
shows_admin s = elim s.user [ none ↦ false | some u ↦ role_is_admin u.role ]
