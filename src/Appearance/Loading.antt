-- ===== src/Appearance/Loading.antt =====
-- web/src/lib/AppearanceProvider.tsx: what the two public endpoints' answers do to the page. A
-- rejected request is `none`.
use sky_panel.Base.{String, Option, none, some, Bool, or_text, false}
use sky_panel.Appearance.{
  BackgroundConfig, PartialBackground, default_background, parse_background, apply_custom_css,
}

pub record AppearanceAnswer : Type 0 where
  pub theme_preset : String
  pub custom_css : String
  pub background : String

pub record MaintenanceAnswer : Type 0 where
  pub enabled : Bool
  pub message : String

-- The provider's state, with the text of the admin's `<style>` element.
pub record Provider (F : Type 0) : Type 0 where
  pub admin_theme_id : String
  pub background : BackgroundConfig F
  pub maintenance : MaintenanceAnswer
  pub style : Option String

module _ (protocol : String → Option String) {F : Type 0} (zero two_fifths : F)
    (parse : String → Option (PartialBackground F)) where
  abbrev pub initial : Provider F
  initial = record {
    admin_theme_id = "";
    background = default_background zero two_fifths;
    maintenance = record { enabled = false; message = "" };
    style = none;
  }

  unfoldable pub appearance_loaded : Option AppearanceAnswer → Provider F → Provider F
  unfolding parse_background apply_custom_css
  appearance_loaded none s = s
  appearance_loaded (some a) s = record s {
    admin_theme_id = or_text a.theme_preset "";
    background = parse_background protocol zero two_fifths parse a.background;
    style = apply_custom_css (or_text a.custom_css "") s.style;
  }

  unfoldable pub maintenance_loaded : Option MaintenanceAnswer → Provider F → Provider F
  maintenance_loaded none s = s
  maintenance_loaded (some m) s = record s { maintenance = m }
