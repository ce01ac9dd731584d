-- ===== src/Pages/Analytics.antt =====
-- web/src/components/admin/AdminAnalyticsTab.tsx: the breakdowns by status and by egg.
use mathlib.Core.List.{Perm}
use mathlib.Core.List.Perm
use sky_panel.Base.{◌≤◌, All, ℕ, ltb, String, List, [], ◌∷◌, if◌then◌else◌, Dict}
use sky_panel.Pages.{percent}

-- The sort by the counts, the larger first, which is stable: `a` is placed before what stands in
-- the list, which comes after it in the object.
unfoldable pub place : String × ℕ → Dict ℕ → Dict ℕ
place a [] = a ∷ []
place a (b ∷ bs) = let rest = place a bs in if ltb a.1 b.1 then b ∷ rest else a ∷ b ∷ bs

-- `statusEntries` and `eggEntries`, of what `Object.entries` answers
unfoldable pub entries : Dict ℕ → Dict ℕ
unfolding place
entries [] = []
entries (a ∷ bs) = place a (entries bs)

-- The rows of a breakdown: the label, the count and the width in percent
unfoldable pub rows : (total : ℕ) → Dict ℕ → List (String × (ℕ × ℕ))
unfolding percent
rows total [] = []
rows total ((label, count) ∷ es) = (label, (count, percent count total)) ∷ rows total es

-- Each row has at least the count of all that come after it.
abbrev pub IsDescending : Dict ℕ → Type 0
IsDescending [] = Unit
IsDescending (e ∷ es) = All (λ (other : String × ℕ). other.1 ≤ e.1) es × IsDescending es

abbrev pub IsWithin : ℕ → Dict ℕ → Type 0
IsWithin total d = All (λ (e : String × ℕ). e.1 ≤ total) d
