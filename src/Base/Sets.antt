-- ===== src/Base/Sets.antt =====
-- A JavaScript `Set` of strings: its elements in insertion order.
use Prim.Native.Nat.{ℕ, zero, suc}
use Prim.Native.String.{String}
use mathlib.Core.Option.{some}
use mathlib.Core.Path.{◌≡◌, refl}
use mathlib.Core.Bool.{Bool, true, false, not, ◌&&◌, ◌||◌}
use mathlib.Core.List.{List, [], ◌∷◌, ◌++◌}
use native.Mathlib.Omega.{arith}
use text.Mathlib.Text.{◌==◌ as str_eq}
use text.Mathlib.TextEquality.{eq_iff}
use sky_panel.Base.Tests.{if◌then◌else◌}
use sky_panel.Base.Lists.{keep, any, get_elem?, remove_at}

unfoldable pub has : String → List String → Bool
has id ids = any (λ x. str_eq x id) ids

unfoldable pub add : String → List String → List String
unfolding has
add id ids = if has id ids then ids else ids ++ id ∷ []

unfoldable pub delete : String → List String → List String
delete id ids = keep (λ x. not (str_eq x id)) ids

-- No element occurs twice.
unfoldable pub IsUnique : List String → Type 0
IsUnique [] = Unit
IsUnique (x ∷ xs) = (has x xs ≡ false) × IsUnique xs

has-append :
    (j id : String) (ids : List String) → has j (ids ++ id ∷ []) ≡ (has j ids || str_eq id j)
unfolding has
has-append j id [] = ground arith
has-append j id (x ∷ ids) = ground (arith, has-append j id ids)

pub has-add : (j id : String) (ids : List String) → has j (add id ids) ≡ (str_eq id j || has j ids)
unfolding add
has-add j id ids = ground (arith, has-append j id ids, eq_iff id j)

pub has-delete :
    (j id : String) (ids : List String)
    → has j (delete id ids) ≡ (if str_eq id j then false else has j ids)
unfolding has delete
has-delete j id [] = ground arith
has-delete j id (x ∷ ids) =
    ground (arith, eq_iff x id, eq_iff x j, eq_iff id j, has-delete j id ids)

pub has-keep :
    (p : String → Bool) (j : String) (ids : List String) → has j (keep p ids) ≡ (has j ids && p j)
unfolding has
has-keep p j [] = ground arith
has-keep p j (x ∷ ids) = ground (arith, eq_iff x j, has-keep p j ids)

pub IsUnique-keep : (p : String → Bool) (ids : List String) → IsUnique ids → IsUnique (keep p ids)
unfolding IsUnique
IsUnique-keep p [] h = tt
IsUnique-keep p (x ∷ ids) h = ground (arith, has-keep p x ids, IsUnique-keep p ids h.1)

IsUnique-append :
    (id : String) (ids : List String)
    → has id ids ≡ false
    → IsUnique ids
    → IsUnique (ids ++ id ∷ [])
unfolding IsUnique has
IsUnique-append id [] n h = (refl, tt)
IsUnique-append id (x ∷ ids) n h =
    ground (arith, has-append x id ids, eq_iff x id, eq_iff id x, IsUnique-append id ids)

pub IsUnique-add : (id : String) (ids : List String) → IsUnique ids → IsUnique (add id ids)
unfolding add
IsUnique-add id ids h = ground (arith, IsUnique-append id ids, h)

pub IsUnique-delete : (id : String) (ids : List String) → IsUnique ids → IsUnique (delete id ids)
unfolding delete
IsUnique-delete id ids h = IsUnique-keep (λ x. not (str_eq x id)) ids h

has-get_elem? : (i : ℕ) (xs : List String) (x : String) → get_elem? i xs ≡ some x → has x xs ≡ true
unfolding has
has-get_elem? i [] x h = ground (arith, h)
has-get_elem? zero (y ∷ ys) x h = ground (arith, h, eq_iff y x)
has-get_elem? (suc i) (y ∷ ys) x h = ground (arith, has-get_elem? i ys x h)

pub has-remove_at :
    (i : ℕ) (xs : List String) (x j : String)
    → IsUnique xs
    → get_elem? i xs ≡ some x
    → has j (remove_at i xs) ≡ (if str_eq x j then false else has j xs)
unfolding has IsUnique
has-remove_at i [] x j u h = ground (arith, h)
has-remove_at zero (y ∷ ys) x j u h = ground (arith, h, u.0, eq_iff y j, eq_iff x j)
has-remove_at (suc i) (y ∷ ys) x j u h =
    ground
      (arith, has-remove_at i ys x j u.1 h, has-get_elem? i ys x h, u.0, eq_iff y j, eq_iff x j)

lacks-remove_at :
    (i : ℕ) (xs : List String) (x : String) → has x xs ≡ false → has x (remove_at i xs) ≡ false
unfolding has
lacks-remove_at i [] x h = refl
lacks-remove_at zero (y ∷ ys) x h = ground (arith, h)
lacks-remove_at (suc i) (y ∷ ys) x h = ground (arith, h, lacks-remove_at i ys x)

pub IsUnique-remove_at : (i : ℕ) (xs : List String) → IsUnique xs → IsUnique (remove_at i xs)
unfolding IsUnique
IsUnique-remove_at i [] u = tt
IsUnique-remove_at zero (y ∷ ys) u = u.1
IsUnique-remove_at (suc i) (y ∷ ys) u = (lacks-remove_at i ys y u.0, IsUnique-remove_at i ys u.1)
