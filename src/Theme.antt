-- ===== src/Theme.antt =====
-- web/src/lib/theme.ts and web/src/lib/ThemeProvider.tsx: the presets, the user's own themes and
-- choice, both kept in localStorage, and the theme that is in force. `setItem` is taken to succeed.
pub mod Defs
pub mod Presets
pub mod Provider
pub mod Choice
pub mod Reload
pub mod Document
pub mod Builder
