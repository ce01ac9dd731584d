-- ===== src/Pages/Leaderboard.antt =====
-- web/src/pages/LeaderboardPage.tsx: the podium and the table under it.
use mathlib.Core.List.{Perm}
use mathlib.Core.List.Perm
use sky_panel.Base.{
  ◌++◌, ℕ, ◌==◌, Option, none, some, Bool, false, List, [], ◌∷◌, take, drop, str_eq, if◌then◌else◌,
}
use sky_panel.Wire.Account.{LeaderboardEntry, User}

unfoldable pub podium : List LeaderboardEntry → List LeaderboardEntry
podium entries = take 3 entries

unfoldable pub rest : List LeaderboardEntry → List LeaderboardEntry
rest entries = drop 3 entries

-- `[podium[1], podium[0], podium[2]].filter(Boolean)`
unfoldable pub reordered : List LeaderboardEntry → List LeaderboardEntry
reordered [] = []
reordered (first ∷ []) = first ∷ []
reordered (first ∷ second ∷ []) = second ∷ first ∷ []
reordered (first ∷ second ∷ third ∷ _) = second ∷ first ∷ third ∷ []

unfoldable pub podium_order : List LeaderboardEntry → List LeaderboardEntry
unfolding podium reordered
podium_order entries = reordered (podium entries)

-- Whether a row is the signed-in user's
unfoldable pub is_me : Option User → LeaderboardEntry → Bool
is_me none e = false
is_me (some u) e = str_eq e.username u.username

unfoldable pub height : LeaderboardEntry → ℕ
height e = if e.rank == 1 then 150 else if e.rank == 2 then 112 else 84

-- The podium in its order, followed by the table, shows every entry of the answer once.
pub podium_order-perm :
    (entries : List LeaderboardEntry) → Perm (podium_order entries ++ rest entries) entries
unfolding podium_order podium reordered rest
podium_order-perm [] = Perm.rfl
podium_order-perm (a ∷ []) = Perm.rfl
podium_order-perm (a ∷ b ∷ []) = Perm.swap a b []
podium_order-perm (a ∷ b ∷ c ∷ es) = Perm.swap a b (c ∷ es)
