-- ===== src/Theme/Document.antt =====
-- What `applyThemeToDocument` (web/src/lib/theme.ts) leaves on the document.
use sky_panel.Base.{◌≡◌, refl, some, All, lookup, lookup-insert}
use sky_panel.Theme.Defs.{Theme, Root, css_vars, apply_theme}

-- The document shows a theme: every variable has the theme's value, and both data attributes are its.
pub record Shows (t : Theme) (root : Root) : Type 0 where
  pub variables : All (λ kv. lookup (kv.0) root.style ≡ some (kv.1)) (css_vars t)
  pub intensity : root.data_animation_intensity ≡ some t.animation_intensity
  pub named : root.data_theme ≡ some t.id

pub apply_theme-Shows : (t : Theme) (root : Root) → Shows t (apply_theme t root)
unfolding apply_theme
apply_theme-Shows t root = record {
  variables =
      simp lookup-insert (refl, (refl, (refl, (refl, (refl, (refl, (refl, (refl, (refl, tt)))))))));
  intensity = refl;
  named = refl;
}
