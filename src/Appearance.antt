-- ===== src/Appearance.antt =====
-- web/src/lib/appearance.ts: the background and the custom CSS that an admin sets for everyone.
pub mod Gates
pub mod Loading
use sky_panel.Base.{
  ℕ, ◌≡◌, ◌⊎◌, inl, inr, refl, arith, String, Option, none, some, Bool, true, false, ◌||◌, str_eq,
  nonempty, if◌then◌else◌, eq_iff,
}

pub data BackgroundMode : Type 0 where
  animated solid gradient image video : BackgroundMode

-- `F` is the type of the fractional numbers.
pub record BackgroundConfig (F : Type 0) : Type 0 where
  pub mode : BackgroundMode
  pub color : String
  pub gradient_css : String
  pub image_url : String
  pub video_url : String
  pub blur : F
  pub dim : F

-- A `Partial<BackgroundConfig>`
pub record PartialBackground (F : Type 0) : Type 0 where
  pub mode : Option BackgroundMode
  pub color : Option String
  pub gradient_css : Option String
  pub image_url : Option String
  pub video_url : Option String
  pub blur : Option F
  pub dim : Option F

abbrev given {ℓ} : {A : Type ℓ} → Option A → A → A
given none default = default
given (some a) default = a

-- `zero` and `two_fifths` are 0 and 0.4.
module _ {F : Type 0} (zero two_fifths : F) where
  abbrev pub default_background : BackgroundConfig F
  default_background = record {
    mode = BackgroundMode.animated;
    color = "";
    gradient_css = "linear-gradient(135deg, #08090b, #14121c 60%, #08090b)";
    image_url = "";
    video_url = "";
    blur = zero;
    dim = two_fifths;
  }

  -- `{ ...DEFAULT_BACKGROUND, ...parsed }`
  unfoldable pub merged : PartialBackground F → BackgroundConfig F
  merged p = record {
    mode = given p.mode BackgroundMode.animated;
    color = given p.color "";
    gradient_css = given p.gradient_css default_background.gradient_css;
    image_url = given p.image_url "";
    video_url = given p.video_url "";
    blur = given p.blur zero;
    dim = given p.dim two_fifths;
  }

-- `protocol url` is the protocol of `new URL(url, origin)`, `none` where that throws.
module _ (protocol : String → Option String) where
  abbrev is_web : Option String → Bool
  is_web none = false
  is_web (some p) = str_eq p "http:" || str_eq p "https:"

  unfoldable pub safe_media_url : String → String
  safe_media_url url = if nonempty url then (if is_web (protocol url) then url else "") else ""

  -- A URL that may stand in a `src` attribute: none, or one of the two web protocols.
  abbrev pub IsSafeUrl : String → Type 0
  IsSafeUrl url = (url ≡ "") ⊎ (is_web (protocol url) ≡ true)

  safe_media_url-IsSafeUrl : (url : String) → IsSafeUrl (safe_media_url url)
  unfolding safe_media_url
  safe_media_url-IsSafeUrl url = ground arith

  -- `parse` is `JSON.parse` at the type, `none` where it throws.
  module _ {F : Type 0} (zero two_fifths : F) (parse : String → Option (PartialBackground F)) where
    abbrev sanitised : BackgroundConfig F → BackgroundConfig F
    sanitised c = record c {
      image_url = safe_media_url c.image_url;
      video_url = safe_media_url c.video_url;
    }

    abbrev background_of : Option (PartialBackground F) → BackgroundConfig F
    background_of none = default_background zero two_fifths
    background_of (some p) = sanitised (merged zero two_fifths p)

    unfoldable pub parse_background : String → BackgroundConfig F
    unfolding safe_media_url merged
    parse_background json =
        if nonempty json then background_of (parse json) else default_background zero two_fifths

    background_of-IsSafeUrl :
        (o : Option (PartialBackground F))
        → IsSafeUrl (background_of o).image_url × IsSafeUrl (background_of o).video_url
    background_of-IsSafeUrl none = (inl refl, inl refl)
    background_of-IsSafeUrl (some p) = (
      safe_media_url-IsSafeUrl (merged zero two_fifths p).image_url,
      safe_media_url-IsSafeUrl (merged zero two_fifths p).video_url,
    )

    -- Whatever the admin's setting holds, the image's and the video's URL that come of it are empty
    -- or have the protocol http or https.
    pub parse_background-IsSafeUrl :
        (json : String)
        → IsSafeUrl (parse_background json).image_url × IsSafeUrl (parse_background json).video_url
    unfolding parse_background
    parse_background-IsSafeUrl json =
        elim (nonempty json)
          as (λ b.
            IsSafeUrl
              (if b
                then background_of (parse json)
                else default_background zero two_fifths).image_url
            × IsSafeUrl
                (if b
                  then background_of (parse json)
                  else default_background zero two_fifths).video_url) [
                    | true ↦ background_of-IsSafeUrl (parse json)
                    | false ↦ (inl refl, inl refl)
                  ]

-- The text of the `<style>` element with the admin's CSS, if it is there.
unfoldable pub apply_custom_css : String → Option String → Option String
apply_custom_css css element = if nonempty css then some css else none
