-- ===== src/Tests/Theme.antt =====
-- web/src/lib/ThemeProvider.tsx and web/src/pages/ThemeBuilderPage.tsx at concrete themes.
use sky_panel.Base.{◌≡◌, refl, none, some, false, List, [], ◌∷◌, lookup, insert}
use sky_panel.Theme.Defs.{Theme, Root}
use sky_panel.Theme.Presets.{monochrome}
use sky_panel.Theme.Provider.{
  State, Action, choose, delete, save, theme, boot, run_all, find_preset,
}
use sky_panel.Theme.Reload.{reload-theme}
use sky_panel.Theme.Document.{Shows}
use sky_panel.Theme.Builder.{enter, update_all, leave, saved_theme, leave_unsaved, leave_saved}
use sky_panel.Theme.Builder
use sky_panel.Tests.ThemeCodec.{keeper, keeper-IsFaithful}

abbrev mine : Theme
mine = record monochrome { id = "custom-1"; name = "Mine"; builtin = some false }

abbrev loaded : State
loaded = record {
  custom_themes = [];
  has_user_choice = false;
  active_theme_id = "monochrome";
  storage = [];
}

abbrev blank : Root
blank = record { style = []; data_animation_intensity = none; data_theme = none }

abbrev acts : List Action
acts = save mine ∷ choose "signal" ∷ choose "custom-1" ∷ delete "custom-1" ∷ []

themes : Unit {0}
unfolding find_preset lookup insert boot run_all enter update_all saved_theme theme
themes = tt

reload-theme_example :
    let s = run_all keeper acts (boot keeper []) in
    theme "nebula" (boot keeper s.storage) ≡ theme "nebula" s
reload-theme_example =
    reload-theme keeper keeper-IsFaithful "nebula" [] acts
      (refl, (refl, (refl, ((unfold themes in refl), tt))))

abbrev recolour : Theme → Theme
recolour t = record t { accent = "#ff0000" }

leave_saved_example :
    let edited = update_all (recolour ∷ []) (enter "nebula" loaded blank) in
    let b = leave (sky_panel.Theme.Builder.save keeper "nebula" "custom-2" edited) in
    Shows (theme "nebula" loaded) b.root
    × (theme "nebula" b.provider ≡ saved_theme "custom-2" edited.draft)
leave_saved_example =
    leave_saved keeper keeper-IsFaithful "nebula" "custom-2" loaded blank (recolour ∷ [])
      (unfold themes in refl)
