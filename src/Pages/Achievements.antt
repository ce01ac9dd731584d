-- ===== src/Pages/Achievements.antt =====
-- web/src/pages/AchievementsPage.tsx: the emblems, and how many are unlocked.
use sky_panel.Base.{
  List, [], ◌∷◌, All, true, ◌≡◌, refl, length-keep-le, ◌≤◌, ◌<◌, arith, ℕ, String, Option, none,
  some, true, List, [], ◌∷◌, length, keep, if◌then◌else◌, ◌≡◌, refl, Dict, lookup,
}
use sky_panel.Wire.Account.{Achievement}
use sky_panel.Pages.Share.{percent-le, percent_self}
use sky_panel.Pages.{percent}

abbrev glyphs : Dict String
glyphs =
    ("first_server", "▣")
    ∷ ("fleet", "⬢")
    ∷ ("rich", "⧫")
    ∷ ("generous", "❖")
    ∷ ("lucky", "✧")
    ∷ ("secured", "⛊")
    ∷ []

abbrev or_neutral : Option String → String
or_neutral none = "✦"
or_neutral (some g) = g

unfoldable pub emblem : Achievement → String
unfolding lookup
emblem a = if a.unlocked then or_neutral (lookup a.id glyphs) else "🔒"

unfoldable pub unlocked : List Achievement → ℕ
unlocked achievements = length (keep (λ a. a.unlocked) achievements)

unfoldable pub unlocked_share : List Achievement → ℕ
unfolding percent unlocked
unlocked_share achievements = percent (unlocked achievements) (length achievements)

keep_unlocked :
    (achievements : List Achievement)
    → All (λ (a : Achievement). a.unlocked ≡ true) achievements
    → length (keep (λ (a : Achievement). a.unlocked) achievements) ≡ length achievements
keep_unlocked [] h = refl
keep_unlocked (a ∷ achievements) h = ground (arith, h.0, keep_unlocked achievements h.1)

-- The track is never longer than its frame.
pub unlocked_share-le : (achievements : List Achievement) → unlocked_share achievements ≤ 100
unfolding unlocked_share unlocked
unlocked_share-le achievements =
    percent-le _ _ (length-keep-le (λ (a : Achievement). a.unlocked) achievements)

-- The track is full where there are achievements and all are unlocked.
pub unlocked_share_full :
    (achievements : List Achievement)
    → 0 < length achievements
    → All (λ (a : Achievement). a.unlocked ≡ true) achievements
    → unlocked_share achievements ≡ 100
unfolding unlocked_share unlocked
unlocked_share_full achievements some_there all =
    rw (keep_unlocked achievements all) (percent_self (length achievements) some_there)
