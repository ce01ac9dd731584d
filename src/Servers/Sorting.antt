-- ===== src/Servers/Sorting.antt =====
-- The order of the list of web/src/pages/ServersListPage.tsx (`sortedServers`).
use sky_panel.Base.{
  ◌≡◌, refl, ap, ◌∙◌, arith, String, Bool, true, false, not, List, [], ◌∷◌, ◌++◌, keep, All,
  if◌then◌else◌, Bool-cases, inl, inr,
}
use sky_panel.Wire.Servers.{Server}

-- `favorite` is membership in the favourites; `name_le a b` is `a.localeCompare(b) <= 0`; `matches`
-- is whether a name contains the search text, and `status_fits` whether the status filter admits.
module _ (favorite : String → Bool) (name_le : String → String → Bool) where
  abbrev pub is_starred : Server → Bool
  is_starred s = favorite s.id

  -- The comparison is not positive: `a` need not come after `b`.
  unfoldable pub before : Server → Server → Bool
  before a b =
      if is_starred a
      then (if is_starred b then name_le a.name b.name else true)
      else (if is_starred b then false else name_le a.name b.name)

  -- `sort` is stable: an element stands before the later ones that it may precede.
  unfoldable pub place : Server → List Server → List Server
  unfolding before
  place a [] = a ∷ []
  place a (b ∷ bs) = let rest = place a bs in if before a b then a ∷ (b ∷ bs) else b ∷ rest

  unfoldable pub sort : List Server → List Server
  unfolding place
  sort [] = []
  sort (a ∷ bs) = place a (sort bs)

  unfoldable pub sorted_servers : (matches status_fits : Server → Bool) → List Server → List Server
  unfolding sort
  sorted_servers matches status_fits servers = sort (keep status_fits (keep matches servers))

  place_starred :
      (a : Server) (fs ns : List Server)
      → is_starred a ≡ true
      → All (λ n. is_starred n ≡ false) ns
      → place a (fs ++ ns) ≡ place a fs ++ ns
  unfolding place before
  place_starred a [] [] h hn = refl
  place_starred a [] (n ∷ ns) h hn = ground (arith, h, hn.0)
  place_starred a (f ∷ fs) ns h hn = ground (arith, place_starred a fs ns h hn)

  place_other :
      (a : Server) (fs ns : List Server)
      → is_starred a ≡ false
      → All (λ f. is_starred f ≡ true) fs
      → place a (fs ++ ns) ≡ fs ++ place a ns
  unfolding place before
  place_other a [] ns h hf = refl
  place_other a (f ∷ fs) ns h hf = ground (arith, h, hf.0, place_other a fs ns h hf.1)

  pub All-place :
      (P : Server → Type 0) (a : Server) (bs : List Server) → P a → All P bs → All P (place a bs)
  unfolding place
  All-place P a [] h hb = (h, tt)
  All-place P a (b ∷ bs) h hb = elim (Bool-cases (before a b)) [
    | inl e ↦ rw e (h, hb)
    | inr e ↦ rw e (hb.0, All-place P a bs h hb.1)
  ]

  All-sort : (P : Server → Type 0) (xs : List Server) → All P xs → All P (sort xs)
  unfolding sort
  All-sort P [] h = tt
  All-sort P (x ∷ xs) h = All-place P x (sort xs) h.0 (All-sort P xs h.1)

  All-keep_holds : (p : Server → Bool) (xs : List Server) → All (λ x. p x ≡ true) (keep p xs)
  All-keep_holds p [] = tt
  All-keep_holds p (x ∷ xs) = elim (Bool-cases (p x)) [
    | inl e ↦ rw e (e, All-keep_holds p xs)
    | inr e ↦ rw e (All-keep_holds p xs)
  ]

  not_starred :
      (xs : List Server)
      → All (λ x. not (is_starred x) ≡ true) xs
      → All (λ x. is_starred x ≡ false) xs
  not_starred [] h = tt
  not_starred (x ∷ xs) h = (ground (arith, h.0), not_starred xs h.1)

  sort-split :
      (xs : List Server)
      → sort xs ≡ sort (keep is_starred xs) ++ sort (keep (λ x. not (is_starred x)) xs)
  unfolding sort
  sort-split [] = refl
  sort-split (x ∷ xs) =
      let stars = sort (keep is_starred xs) in
      let others = sort (keep (λ y. not (is_starred y)) xs) in
      ap (place x) (sort-split xs) ∙ elim (Bool-cases (is_starred x)) [
        | inl e ↦ rw e (
            place_starred x stars others e (
              All-sort (λ y. is_starred y ≡ false) _
                (not_starred _ (All-keep_holds (λ y. not (is_starred y)) xs))))
        | inr e ↦ rw e (
            place_other x stars others e
              (All-sort (λ y. is_starred y ≡ true) _ (All-keep_holds is_starred xs)))
      ]

  -- The list shows the servers that the search and the status filter admit, the favourites first,
  -- and the favourites and the others each sorted as they would be alone.
  pub sorted_servers_lem :
      (matches status_fits : Server → Bool) (servers : List Server)
      → let admitted = keep status_fits (keep matches servers) in
        sorted_servers matches status_fits servers
        ≡ sort (keep is_starred admitted) ++ sort (keep (λ s. not (is_starred s)) admitted)
  unfolding sorted_servers
  sorted_servers_lem matches status_fits servers =
      sort-split (keep status_fits (keep matches servers))
