-- ===== src/Theme/Presets.antt =====
-- The built-in themes (`PRESET_THEMES` of web/src/lib/theme.ts).
use sky_panel.Base.{some, true, List, [], ◌∷◌}
use sky_panel.Theme.Defs.{Theme, AnimationIntensity}

abbrev pub monochrome : Theme
monochrome = record {
  id = "monochrome";
  name = "Monochrome";
  background = "#08090b";
  background_alt = "#0e1013";
  surface = "#131417";
  surface_border = "#26282e";
  text = "#f2f2f0";
  text_muted = "#8b8d94";
  accent = "#f2f2f0";
  accent_text = "#08090b";
  radius = "10px";
  animation_intensity = AnimationIntensity.normal;
  builtin = some true;
}

abbrev pub signal : Theme
signal = record {
  id = "signal";
  name = "Signal";
  background = "#08090b";
  background_alt = "#0e1013";
  surface = "#131417";
  surface_border = "#262b1f";
  text = "#f2f2f0";
  text_muted = "#8b8d94";
  accent = "#c8ff3d";
  accent_text = "#08090b";
  radius = "10px";
  animation_intensity = AnimationIntensity.normal;
  builtin = some true;
}

abbrev pub nebula : Theme
nebula = record {
  id = "nebula";
  name = "Nebula";
  background = "#0a0812";
  background_alt = "#100c1c";
  surface = "#16112459";
  surface_border = "#2c2148";
  text = "#efeaff";
  text_muted = "#9a90bd";
  accent = "#a985ff";
  accent_text = "#0a0812";
  radius = "12px";
  animation_intensity = AnimationIntensity.high;
  builtin = some true;
}

abbrev pub ember : Theme
ember = record {
  id = "ember";
  name = "Ember";
  background = "#0f0906";
  background_alt = "#160d08";
  surface = "#1b1109";
  surface_border = "#3a2213";
  text = "#fbeee3";
  text_muted = "#b39684";
  accent = "#ff7a3d";
  accent_text = "#0f0906";
  radius = "8px";
  animation_intensity = AnimationIntensity.normal;
  builtin = some true;
}

abbrev pub arctic : Theme
arctic = record {
  id = "arctic";
  name = "Arctic";
  background = "#060b0e";
  background_alt = "#0a1216";
  surface = "#0e191f";
  surface_border = "#1c333d";
  text = "#e8f6fb";
  text_muted = "#84a3ae";
  accent = "#4fd6ff";
  accent_text = "#060b0e";
  radius = "10px";
  animation_intensity = AnimationIntensity.normal;
  builtin = some true;
}

abbrev pub void : Theme
void = record {
  id = "void";
  name = "Void";
  background = "#000000";
  background_alt = "#060606";
  surface = "#0c0c0c";
  surface_border = "#1e1e1e";
  text = "#ffffff";
  text_muted = "#7d7d7d";
  accent = "#ffffff";
  accent_text = "#000000";
  radius = "2px";
  animation_intensity = AnimationIntensity.high;
  builtin = some true;
}

abbrev pub paper : Theme
paper = record {
  id = "paper";
  name = "Paper";
  background = "#eeece6";
  background_alt = "#e4e1d8";
  surface = "#f7f5ef";
  surface_border = "#cfcabd";
  text = "#1a1917";
  text_muted = "#6a675e";
  accent = "#1a1917";
  accent_text = "#f7f5ef";
  radius = "6px";
  animation_intensity = AnimationIntensity.subtle;
  builtin = some true;
}

abbrev pub sakura : Theme
sakura = record {
  id = "sakura";
  name = "Sakura";
  background = "#0d0a0c";
  background_alt = "#140f12";
  surface = "#1a1317";
  surface_border = "#38222e";
  text = "#fbe9f1";
  text_muted = "#b58fa2";
  accent = "#ff8fc7";
  accent_text = "#0d0a0c";
  radius = "14px";
  animation_intensity = AnimationIntensity.normal;
  builtin = some true;
}

abbrev pub preset_themes : List Theme
preset_themes = monochrome ∷ signal ∷ nebula ∷ ember ∷ arctic ∷ void ∷ paper ∷ sakura ∷ []

abbrev pub default_theme : Theme
default_theme = monochrome
