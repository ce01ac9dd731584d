-- ===== src/Servers/Order.antt =====
-- The order of the list of web/src/pages/ServersListPage.tsx, against an independent description.
use mathlib.Core.List.{Perm}
use mathlib.Core.List.Perm
use sky_panel.Base.{
  ◌≡◌, arith, String, Bool, true, false, ◌||◌, List, [], ◌∷◌, keep, All, Bool-cases, inl, inr,
}
use sky_panel.Wire.Servers.{Server}
use sky_panel.Servers.Sorting.{before, place, sort, sorted_servers, All-place}

-- `localeCompare` orders all names: `name_le` is total and transitive.
pub record IsOrder (name_le : String → String → Bool) : Type 0 where
  pub total : (a b : String) → (name_le a b || name_le b a) ≡ true
  pub trans : (a b c : String) → name_le a b ≡ true → name_le b c ≡ true → name_le a c ≡ true

module _ (favorite : String → Bool) (name_le : String → String → Bool) where
  -- `s` may stand before `other`: it is a favourite if `other` is, and if both are or both are not,
  -- its name is not after that of `other`.
  pub record Precedes (s other : Server) : Type 0 where
    pub starred : favorite other.id ≡ true → favorite s.id ≡ true
    pub named : favorite s.id ≡ favorite other.id → name_le s.name other.name ≡ true

  -- Each server may stand before all that come after it.
  abbrev pub IsSorted : List Server → Type 0
  IsSorted [] = Unit
  IsSorted (s ∷ ss) = All (Precedes s) ss × IsSorted ss

  -- The same by the comparison
  abbrev IsPlaced : List Server → Type 0
  IsPlaced [] = Unit
  IsPlaced (s ∷ ss) = All (λ other. before favorite name_le s other ≡ true) ss × IsPlaced ss

  before-Precedes : (a b : Server) → before favorite name_le a b ≡ true → Precedes a b
  unfolding before
  before-Precedes a b h = record {
    starred = λ k. ground (arith, h, k);
    named = λ k. ground (arith, h, k);
  }

  All-Precedes :
      (a : Server) (ss : List Server)
      → All (λ other. before favorite name_le a other ≡ true) ss
      → All (Precedes a) ss
  All-Precedes a [] h = tt
  All-Precedes a (s ∷ ss) h = (before-Precedes a s h.0, All-Precedes a ss h.1)

  IsSorted-of_IsPlaced : (ss : List Server) → IsPlaced ss → IsSorted ss
  IsSorted-of_IsPlaced [] h = tt
  IsSorted-of_IsPlaced (s ∷ ss) h = (All-Precedes s ss h.0, IsSorted-of_IsPlaced ss h.1)

  before_total :
      IsOrder name_le
      → (a b : Server) → before favorite name_le a b ≡ false
      → before favorite name_le b a ≡ true
  unfolding before
  before_total ok a b h = ground (arith, ok.total a.name b.name, h)

  before_trans :
      IsOrder name_le
      → (a b c : Server) → before favorite name_le a b ≡ true
      → before favorite name_le b c ≡ true
      → before favorite name_le a c ≡ true
  unfolding before
  before_trans ok a b c h k = ground (arith, ok.trans a.name b.name c.name, h, k)

  All-before :
      IsOrder name_le
      → (a b : Server) (ss : List Server) → before favorite name_le a b ≡ true
      → All (λ other. before favorite name_le b other ≡ true) ss
      → All (λ other. before favorite name_le a other ≡ true) ss
  All-before ok a b [] h k = tt
  All-before ok a b (s ∷ ss) h k = (before_trans ok a b s h k.0, All-before ok a b ss h k.1)

  place-IsPlaced :
      IsOrder name_le
      → (a : Server) (ss : List Server) → IsPlaced ss
      → IsPlaced (place favorite name_le a ss)
  unfolding place
  place-IsPlaced ok a [] h = (tt, tt)
  place-IsPlaced ok a (b ∷ ss) h = elim (Bool-cases (before favorite name_le a b)) [
    | inl e ↦ rw e ((e, All-before ok a b ss e h.0), h)
    | inr e ↦ rw e (
      All-place favorite name_le (λ other. before favorite name_le b other ≡ true) a ss
          (before_total ok a b e) h.0,
      place-IsPlaced ok a ss h.1,
    )
  ]

  place-perm : (a : Server) (ss : List Server) → Perm (place favorite name_le a ss) (a ∷ ss)
  unfolding place
  place-perm a [] = Perm.rfl
  place-perm a (b ∷ ss) = elim (Bool-cases (before favorite name_le a b)) [
    | inl e ↦ rw e Perm.rfl
    | inr e ↦ rw e (Perm.trans (Perm.cons b (place-perm a ss)) (Perm.swap a b ss))
  ]

  sort-IsPlaced : IsOrder name_le → (ss : List Server) → IsPlaced (sort favorite name_le ss)
  unfolding sort
  sort-IsPlaced ok [] = tt
  sort-IsPlaced ok (s ∷ ss) = place-IsPlaced ok s _ (sort-IsPlaced ok ss)

  sort-perm : (ss : List Server) → Perm (sort favorite name_le ss) ss
  unfolding sort
  sort-perm [] = Perm.rfl
  sort-perm (s ∷ ss) = Perm.trans (place-perm s _) (Perm.cons s (sort-perm ss))

  -- Where names are ordered, the list shows exactly the servers that the search and the status filter
  -- admit, each as often as there: no server that is no favourite stands before a favourite, and the
  -- favourites, as the others, stand in the order of their names.
  pub sorted_servers-IsSorted :
      IsOrder name_le
      → (matches status_fits : Server → Bool) (servers : List Server)
      → let shown = sorted_servers favorite name_le matches status_fits servers in
        IsSorted shown × Perm shown (keep status_fits (keep matches servers))
  unfolding sorted_servers
  sorted_servers-IsSorted ok matches status_fits servers =
      let admitted = keep status_fits (keep matches servers) in
      (IsSorted-of_IsPlaced _ (sort-IsPlaced ok admitted), sort-perm admitted)
