-- ===== src/Theme/Defs.antt =====
-- The type of a theme, and its application to the document (web/src/lib/theme.ts).
use sky_panel.Base.{String, Option, some, Bool, List, [], ◌∷◌, Dict, insert}

pub data AnimationIntensity : Type 0 where
  off subtle normal high : AnimationIntensity

pub record Theme : Type 0 where
  pub id : String
  pub name : String
  pub background : String
  pub background_alt : String
  pub surface : String
  pub surface_border : String
  pub text : String
  pub text_muted : String
  pub accent : String
  pub accent_text : String
  pub radius : String
  pub animation_intensity : AnimationIntensity
  pub builtin : Option Bool

-- `CSS_VAR_MAP`, each variable with its value in a theme
abbrev pub css_vars : Theme → List (String × String)
css_vars t =
    ("--sp-bg", t.background)
    ∷ ("--sp-bg-alt", t.background_alt)
    ∷ ("--sp-surface", t.surface)
    ∷ ("--sp-surface-border", t.surface_border)
    ∷ ("--sp-text", t.text)
    ∷ ("--sp-text-muted", t.text_muted)
    ∷ ("--sp-accent", t.accent)
    ∷ ("--sp-accent-text", t.accent_text)
    ∷ ("--sp-radius", t.radius)
    ∷ []

-- What of `document.documentElement` a theme sets.
pub record Root : Type 0 where
  pub style : Dict String
  pub data_animation_intensity : Option AnimationIntensity
  pub data_theme : Option String

abbrev set_properties : List (String × String) → Dict String → Dict String
set_properties [] style = style
set_properties ((k, v) ∷ ps) style = set_properties ps (insert k v style)

-- `applyThemeToDocument`
unfoldable pub apply_theme : Theme → Root → Root
apply_theme t root = record {
  style = set_properties (css_vars t) root.style;
  data_animation_intensity = some t.animation_intensity;
  data_theme = some t.id;
}
