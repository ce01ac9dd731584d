-- ===== src/Banner.antt =====
-- web/src/components/ImpersonationBanner.tsx and BroadcastBanner.tsx: what stands above every page.
pub mod ViewAs
use sky_panel.Base.{String, Option, none, some, Bool, true, false, is_some, if◌then◌else◌}
use sky_panel.Auth.{Platform, State, end_impersonation}
use sky_panel.Admin.Users.{reloaded}

-- "Exit view-as": the page is loaded again unless the action has thrown.
unfoldable pub exited : Platform → State → State
exited p s = reloaded p (end_impersonation p s)

-- The topic of the announcements, and the announcement that is shown
unfoldable pub broadcast_topic : State → Option String
broadcast_topic s = if is_some s.user then some "broadcast" else none

unfoldable pub announced : (message : String) → Option String → Option String
announced message banner = some message

unfoldable pub closed : Option String → Option String
closed banner = none
