-- ===== src/Appearance/Gates.antt =====
-- web/src/components/ProtectedRoute.tsx and web/src/components/MaintenanceGate.tsx: what a page's
-- visitor gets to see.
use sky_panel.Base.{
  String, Option, none, some, Bool, true, false, not, ◌&&◌, or_text, if◌then◌else◌,
}
use sky_panel.Wire.Account.{User, Role}

-- What is rendered: the page, a redirection, or the notice of the maintenance.
pub data Shown : Type 0 where
  page : Shown
  redirect notice : String → Shown

abbrev pub is_admin_role : Role → Bool
is_admin_role Role.admin = true
is_admin_role Role.user = false

abbrev has_admin : Option User → Bool
has_admin none = false
has_admin (some u) = is_admin_role u.role

unfoldable pub protected_route : (admin_only : Bool) → Option User → Shown
protected_route admin_only none = redirect "/login"
protected_route admin_only (some u) =
    if admin_only && not (is_admin_role u.role) then redirect "/" else page

unfoldable pub maintenance_gate : (enabled : Bool) (message : String) → Option User → Shown
maintenance_gate enabled message user =
    if enabled && not (has_admin user)
    then notice
        (or_text message "Sky Panel is briefly offline for maintenance. Please check back shortly.")
    else page
