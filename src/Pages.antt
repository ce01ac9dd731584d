-- ===== src/Pages.antt =====
-- The pages and tabs that show what the panel answers. Here are the share that a bar shows, and the
-- numbers of web/src/pages/DashboardPage.tsx.
pub mod Achievements
pub mod Analytics
pub mod Leaderboard
pub mod Players
pub mod Share
use sky_panel.Base.{
  ◌*◌, ℕ, ltb, ◌==◌, String, Option, none, some, Bool, true, false, List, [], ◌∷◌, ◌++◌, length,
  keep, take, drop, str_eq, if◌then◌else◌, ◌≡◌, refl, Dict, lookup,
}
use sky_panel.Wire.Servers.{Server, ServerStatus}
use sky_panel.Display.{rounded}

-- `if total > 0 then Math.round((count / total) * 100) else 0`
unfoldable pub percent : (count total : ℕ) → ℕ
percent count total = if ltb 0 total then rounded (count * 100) total else 0

abbrev is_running : ServerStatus → Bool
is_running ServerStatus.running = true
is_running ServerStatus.installing = false
is_running ServerStatus.offline = false
is_running ServerStatus.stopping = false
is_running ServerStatus.errored = false

unfoldable pub running : Option (List Server) → ℕ
running none = 0
running (some servers) = length (keep (λ s. is_running s.status) servers)
