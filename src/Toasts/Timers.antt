-- ===== src/Toasts/Timers.antt =====
-- How long the toasts of web/src/lib/toast.tsx stay.
use sky_panel.Base.{
  ℕ, String, true, false, not, ◌==◌, List, [], ◌∷◌, keep, any, All, All-append, All-keep, ◌≡◌, refl,
  ◌∙◌, arith, Bool-cases, inl, inr,
}
use sky_panel.Toasts.{Toast, Toasts, ToastKind, start, push, dismiss, expire}

pub data Event : Type 0 where
  pushed : String → ToastKind → Event
  dismissed : ℕ → Event
  expired : ℕ → Event

unfoldable pub run : List Event → Toasts → Toasts
unfolding push dismiss expire
run [] s = s
run (pushed message kind ∷ es) s = run es (push message kind s)
run (dismissed id ∷ es) s = run es (dismiss id s)
run (expired id ∷ es) s = run es (expire id s)

-- The ends of the given timers, one after the other
unfoldable pub expire_all : List ℕ → Toasts → Toasts
unfolding expire
expire_all [] s = s
expire_all (id ∷ ids) s = expire_all ids (expire id s)

-- The toast has one of these timers.
abbrev IsIn : List ℕ → Toast → Type 0
IsIn ids t = any (λ i. i == t.id) ids ≡ true

IsIn-more : (id : ℕ) (ids : List ℕ) (ts : List Toast) → All (IsIn ids) ts → All (IsIn (id ∷ ids)) ts
IsIn-more id ids [] h = tt
IsIn-more id ids (t ∷ ts) h = (ground (arith, h.0), IsIn-more id ids ts h.1)

any-keep :
    (id j : ℕ) (ids : List ℕ)
    → (j == id) ≡ false
    → any (λ i. i == j) (keep (λ i. not (i == id)) ids) ≡ any (λ i. i == j) ids
any-keep id j [] h = refl
any-keep id j (i ∷ ids) h = ground (arith, any-keep id j ids h)

IsIn-expire :
    (id : ℕ) (ids : List ℕ) (ts : List Toast)
    → All (IsIn ids) ts
    → All (IsIn (keep (λ i. not (i == id)) ids)) (keep (λ (t : Toast). not (t.id == id)) ts)
IsIn-expire id ids [] h = tt
IsIn-expire id ids (t ∷ ts) h = elim (Bool-cases (t.id == id)) [
  | inl e ↦ rw e (IsIn-expire id ids ts h.1)
  | inr e ↦ rw e (any-keep id t.id ids e ∙ h.0, IsIn-expire id ids ts h.1)
]

IsIn-run :
    (es : List Event) (s : Toasts)
    → All (IsIn s.timers) s.toasts
    → All (IsIn (run es s).timers) (run es s).toasts
unfolding run push dismiss expire
IsIn-run [] s h = h
IsIn-run (pushed message kind ∷ es) s h = IsIn-run es _ (
    All-append (IsIn (s.next_id ∷ s.timers)) s.toasts _ (IsIn-more s.next_id s.timers s.toasts h)
      (ground arith, tt))
IsIn-run (dismissed id ∷ es) s h =
    IsIn-run es _ (All-keep (IsIn s.timers) (λ (t : Toast). not (t.id == id)) s.toasts h)
IsIn-run (expired id ∷ es) s h = IsIn-run es _ (IsIn-expire id s.timers s.toasts h)

IsIn-rest :
    (id : ℕ) (ids : List ℕ) (ts : List Toast)
    → All (IsIn (id ∷ ids)) ts
    → All (IsIn ids) (keep (λ (t : Toast). not (t.id == id)) ts)
IsIn-rest id ids [] h = tt
IsIn-rest id ids (t ∷ ts) h = elim (Bool-cases (t.id == id)) [
  | inl e ↦ rw e (IsIn-rest id ids ts h.1)
  | inr e ↦ rw e (ground (arith, h.0, e), IsIn-rest id ids ts h.1)
]

none_in : (ts : List Toast) → All (IsIn []) ts → ts ≡ []
none_in [] h = refl
none_in (t ∷ ts) h = ground (arith, h.0)

expire_all_lem :
    (ids : List ℕ) (s : Toasts) → All (IsIn ids) s.toasts → (expire_all ids s).toasts ≡ []
unfolding expire_all expire dismiss
expire_all_lem [] s h = none_in s.toasts h
expire_all_lem (id ∷ ids) s h = expire_all_lem ids _ (IsIn-rest id ids s.toasts h)

-- No toast stays for good: after any pushes, dismissals and ends of timers, the timers that are still
-- running take every toast away that is shown then.
pub expire_all-run :
    (es : List Event) → (expire_all (run es start).timers (run es start)).toasts ≡ []
expire_all-run es = expire_all_lem (run es start).timers (run es start) (IsIn-run es start tt)
