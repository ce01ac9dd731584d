-- ===== src/Admin/Users/Quota.antt =====
-- What web/src/components/admin/AdminUsersTab.tsx sends as a user's bonus quota.
use sky_panel.Base.{ℕ, ◌+◌, ◌*◌, ◌≤◌, String, ◌≡◌, refl}
use sky_panel.Base.Decimal.{show}
use sky_panel.Wire.Economy.{AdminQuotaInfo}
use sky_panel.Display.{mb, rounded}
use sky_panel.Display.Bounds.{rounded-near}
use sky_panel.Endpoints.Admin.{AdminApi}
use sky_panel.Admin.Users.{Tab, quota_loaded, toggle_quota, quota_call, number_or_zero}

-- Within half a megabyte
abbrev pub IsNear : ℕ → ℕ → Type 0
IsNear m n = (2 * m ≤ 2 * n + mb) × (2 * n ≤ 2 * m + mb)

-- `Number(text || 0)` reads back the text of `n`.
abbrev pub ReadsBack : (String → ℕ) → ℕ → Type 0
ReadsBack number n = number_or_zero number (show n) ≡ n

-- "Set bonus" right after a user's quota has been opened and has loaded sends the CPU bonus that the
-- user has, and the memory and disk bonuses up to half a megabyte.
pub quota_loaded_lem :
    (number : String → ℕ) (id : String) (q : AdminQuotaInfo) (t : Tab)
    → ReadsBack number (rounded q.bonus.memory_bytes mb)
    → ReadsBack number q.bonus.cpu_percent
    → ReadsBack number (rounded q.bonus.disk_bytes mb)
    → (memory : ℕ) × (disk : ℕ) × (quota_call number id
          (quota_loaded q (toggle_quota id t)).quota_draft
        ≡ AdminApi.set_user_quota id memory q.bonus.cpu_percent disk)
      × (IsNear memory q.bonus.memory_bytes × IsNear disk q.bonus.disk_bytes)
quota_loaded_lem number id q t hm hc hd = (
  rounded q.bonus.memory_bytes mb * mb,
  rounded q.bonus.disk_bytes mb * mb,
  unfold quota_call quota_loaded in rw (hm, hc, hd) refl,
  (rounded-near q.bonus.memory_bytes, rounded-near q.bonus.disk_bytes),
)
