-- ===== src/Admin/Settings.antt =====
-- web/src/components/admin/AdminSettingsTab.tsx: whether new users can register, and any setting.
use sky_panel.Base.{
  String, Option, none, some, Bool, false, not, str_eq, Dict, lookup, if◌then◌else◌,
}
use sky_panel.Endpoints.Admin.{AdminApi}

pub record Tab : Type 0 where
  pub key : String
  pub value : String

abbrev is_false : Option String → Bool
is_false none = false
is_false (some text) = str_eq text "false"

abbrev setting : Option (Dict String) → String → Option String
setting none key = none
setting (some settings) key = lookup key settings

-- Absent means enabled.
unfoldable pub registration_enabled : Option (Dict String) → Bool
registration_enabled settings = not (is_false (setting settings "registration_enabled"))

unfoldable pub toggle_registration : Bool → AdminApi
toggle_registration enabled =
    AdminApi.set_setting "registration_enabled" (if enabled then "true" else "false")

unfoldable pub set_setting_call : Tab → AdminApi
set_setting_call t = AdminApi.set_setting t.key t.value

unfoldable pub setting_saved : Tab → Tab
setting_saved t = record { key = ""; value = "" }
