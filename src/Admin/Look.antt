-- ===== src/Admin/Look.antt =====
-- web/src/components/admin/AdminAppearanceTab.tsx: the look of the whole instance.
use sky_panel.Base.{
  String, Option, none, some, Bool, true, false, List, [], ◌∷◌, str_eq, Dict, lookup, insert,
  lookup-insert, nonempty, if◌then◌else◌, ◌≡◌, refl, ap, ap₂, ◌∙◌,
}
use sky_panel.Endpoints.Admin.{AdminApi}
use sky_panel.Appearance.{
  BackgroundConfig, PartialBackground, parse_background, merged, safe_media_url,
}

-- The form; `F` is the type of the fractional numbers.
pub record Form (F : Type 0) : Type 0 where
  pub theme_preset : String
  pub custom_css : String
  pub background : BackgroundConfig F
  pub maintenance : Bool
  pub maintenance_message : String

abbrev or_empty : Option String → String
or_empty none = ""
or_empty (some text) = text

abbrev is_true : Option String → Bool
is_true none = false
is_true (some text) = str_eq text "true"

-- All fields of a background, as `JSON.stringify` prints them
abbrev pub whole : {F : Type 0} → BackgroundConfig F → PartialBackground F
whole b = record {
  mode = some b.mode;
  color = some b.color;
  gradient_css = some b.gradient_css;
  image_url = some b.image_url;
  video_url = some b.video_url;
  blur = some b.blur;
  dim = some b.dim;
}

-- The settings that `save` writes, in order
abbrev pub writes : {F : Type 0} → (BackgroundConfig F → String) → Form F → List (String × String)
writes stringify f =
    ("appearance.theme_preset", f.theme_preset)
    ∷ ("appearance.custom_css", f.custom_css)
    ∷ ("appearance.background", stringify f.background)
    ∷ ("maintenance.enabled", if f.maintenance then "true" else "false")
    ∷ ("maintenance.message", f.maintenance_message)
    ∷ []

abbrev calls_of : List (String × String) → List AdminApi
calls_of [] = []
calls_of ((key, value) ∷ ws) = AdminApi.set_setting key value ∷ calls_of ws

-- The calls of `save`; an error ends them.
unfoldable pub save_calls : {F : Type 0} → (BackgroundConfig F → String) → Form F → List AdminApi
save_calls stringify f = calls_of (writes stringify f)

-- The settings after these writes
abbrev pub written : List (String × String) → Dict String → Dict String
written [] settings = settings
written ((key, value) ∷ ws) settings = written ws (insert key value settings)

-- The value under a key after some writes, `before` being that of before
abbrev last_write : String → List (String × String) → Option String → Option String
last_write key [] before = before
last_write key ((k, value) ∷ ws) before =
    last_write key ws (if str_eq k key then some value else before)

lookup-written :
    (key : String) (ws : List (String × String)) (settings : Dict String)
    → lookup key (written ws settings) ≡ last_write key ws (lookup key settings)
lookup-written key [] settings = refl
lookup-written key ((k, value) ∷ ws) settings =
    lookup-written key ws (insert k value settings)
    ∙ ap (last_write key ws) (lookup-insert k key value settings)

is_true_text : (b : Bool) → is_true (some (if b then "true" else "false")) ≡ b
is_true_text true = refl
is_true_text false = refl

module _ {F : Type 0} (zero two_fifths : F) (protocol : String → Option String)
    (parse : String → Option (PartialBackground F)) where
  -- The effect on the answer of the settings' query
  unfoldable pub hydrate : Dict String → Form F
  hydrate settings = record {
    theme_preset = or_empty (lookup "appearance.theme_preset" settings);
    custom_css = or_empty (lookup "appearance.custom_css" settings);
    background =
        parse_background protocol zero two_fifths parse
          (or_empty (lookup "appearance.background" settings));
    maintenance = is_true (lookup "maintenance.enabled" settings);
    maintenance_message = or_empty (lookup "maintenance.message" settings);
  }

  -- `JSON.parse` reads back the text of a background, which is not empty.
  abbrev pub ReadsBack : (BackgroundConfig F → String) → BackgroundConfig F → Type 0
  ReadsBack stringify b = (nonempty (stringify b) ≡ true) × (parse (stringify b) ≡ some (whole b))

  parse_background_whole :
      (stringify : BackgroundConfig F → String) (b : BackgroundConfig F)
      → ReadsBack stringify b
      → safe_media_url protocol b.image_url ≡ b.image_url
      → safe_media_url protocol b.video_url ≡ b.video_url
      → parse_background protocol zero two_fifths parse (stringify b) ≡ b
  unfolding parse_background merged
  parse_background_whole stringify b h i v =
      rw (h.0, h.1)
        (ap₂ (λ (image video : String). record b { image_url = image; video_url = video }) i v)

  -- The form that is saved is the form that the saved settings give, if its URLs are safe.
  pub hydrate-written :
      (stringify : BackgroundConfig F → String) (f : Form F) (settings : Dict String)
      → ReadsBack stringify f.background
      → safe_media_url protocol f.background.image_url ≡ f.background.image_url
      → safe_media_url protocol f.background.video_url ≡ f.background.video_url
      → hydrate (written (writes stringify f) settings) ≡ f
  unfolding hydrate
  hydrate-written stringify f settings h i v =
      let ws = writes stringify f in
      rw
        (
          lookup-written "appearance.theme_preset" ws settings,
          lookup-written "appearance.custom_css" ws settings,
          lookup-written "appearance.background" ws settings,
          lookup-written "maintenance.enabled" ws settings,
          lookup-written "maintenance.message" ws settings,
          parse_background_whole stringify f.background h i v,
          is_true_text f.maintenance,
        )
        refl
