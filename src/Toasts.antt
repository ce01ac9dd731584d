-- ===== src/Toasts.antt =====
-- web/src/lib/toast.tsx: the store of the toasts. The timer of five seconds dismisses a toast.
pub mod Timers
use sky_panel.Base.{ℕ, suc, String, not, ◌==◌, List, [], ◌∷◌, ◌++◌, keep, ◌≡◌, refl}

pub data ToastKind : Type 0 where
  info success error : ToastKind

pub record Toast : Type 0 where
  pub id : ℕ
  pub message : String
  pub kind : ToastKind

-- The toasts, `nextId`, and the ids whose timers are running, the last one first.
pub record Toasts : Type 0 where
  pub toasts : List Toast
  pub next_id : ℕ
  pub timers : List ℕ

abbrev pub start : Toasts
start = record { toasts = []; next_id = 1; timers = [] }

unfoldable pub push : String → ToastKind → Toasts → Toasts
push message kind s = record {
  toasts = s.toasts ++ record { id = s.next_id; message = message; kind = kind } ∷ [];
  next_id = suc s.next_id;
  timers = s.next_id ∷ s.timers;
}

unfoldable pub dismiss : ℕ → Toasts → Toasts
dismiss id s = record s { toasts = keep (λ (t : Toast). not (t.id == id)) s.toasts }

-- The end of a toast's timer
unfoldable pub expire : ℕ → Toasts → Toasts
unfolding dismiss
expire id s = dismiss id (record s { timers = keep (λ i. not (i == id)) s.timers })

expire_test : expire 1 (push "saved" ToastKind.success (push "hi" ToastKind.info start)) ≡ record {
  toasts = record { id = 2; message = "saved"; kind = ToastKind.success } ∷ [];
  next_id = 3;
  timers = 2 ∷ [];
}
unfolding push expire
expire_test = refl
