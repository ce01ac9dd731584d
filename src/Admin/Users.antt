-- ===== src/Admin/Users.antt =====
-- web/src/components/admin/AdminUsersTab.tsx: the table of users with the editor of a user's bonus
-- quota. The numbers in the inputs are whole and not negative.
pub mod Quota
use sky_panel.Base.{
  ℕ, zero, suc, ◌*◌, String, Option, none, some, Bool, true, false, nonempty, str_eq, Dict, lookup,
  insert, if◌then◌else◌,
}
use sky_panel.Base.Int.{ℤ, pos, negsuc}
use sky_panel.Base.Decimal.{show}
use sky_panel.Wire.Account.{TokenPair, Role}
use sky_panel.Wire.Economy.{AdminQuotaInfo}
use sky_panel.Auth.{Platform, State, Outcome, returned, threw, begin_impersonation, boot}
use sky_panel.Display.{mb, rounded}
use sky_panel.Endpoints.Admin.{AdminApi}

pub record QuotaDraft : Type 0 where
  pub memory_mb : String
  pub cpu_percent : String
  pub disk_mb : String

abbrev pub empty_draft : QuotaDraft
empty_draft = record { memory_mb = ""; cpu_percent = ""; disk_mb = "" }

pub record Tab : Type 0 where
  pub adjust_amount : Dict String
  pub quota_open : Option String
  pub quota_draft : QuotaDraft
  pub quota_msg : Option String

-- The effect on the query's answer for the open user
unfoldable pub quota_loaded : AdminQuotaInfo → Tab → Tab
quota_loaded q t = record t {
  quota_draft = record {
    memory_mb = show (rounded q.bonus.memory_bytes mb);
    cpu_percent = show q.bonus.cpu_percent;
    disk_mb = show (rounded q.bonus.disk_bytes mb);
  };
}

abbrev is_open : String → Option String → Bool
is_open id none = false
is_open id (some cur) = str_eq cur id

unfoldable pub toggle_quota : String → Tab → Tab
toggle_quota id t = record t {
  quota_msg = none;
  quota_draft = empty_draft;
  quota_open = if is_open id t.quota_open then none else some id;
}

-- `onSuccess` and `onError` of `setQuota`
unfoldable pub quota_saved : Bool → Tab → Tab
quota_saved ok t = record t {
  quota_msg = some (if ok then "Bonus quota saved." else "Failed to save quota.");
}

abbrev flipped : Role → Role
flipped Role.admin = Role.user
flipped Role.user = Role.admin

-- The button that makes an admin a user, and a user an admin
unfoldable pub set_role_call : String → Role → AdminApi
set_role_call id role = AdminApi.set_user_role id (flipped role)

-- `Number(text)` as a count
module _ (number : String → ℕ) where
  abbrev pub number_or_zero : String → ℕ
  number_or_zero text = if nonempty text then number text else 0

  unfoldable pub quota_call : String → QuotaDraft → AdminApi
  quota_call id draft =
      AdminApi.set_user_quota id (number_or_zero draft.memory_mb * mb)
        (number_or_zero draft.cpu_percent) (number_or_zero draft.disk_mb * mb)

-- `if (amount)`: zero and NaN send nothing.
abbrev adjusted : String → Option ℤ → Option AdminApi
adjusted id none = none
adjusted id (some (pos zero)) = none
adjusted id (some (pos (suc n))) = some (AdminApi.adjust_coins id (pos (suc n)) none)
adjusted id (some (negsuc n)) = some (AdminApi.adjust_coins id (negsuc n) none)

abbrev parsed : (String → Option ℤ) → Option String → Option ℤ
parsed number none = none
parsed number (some text) = number text

-- The click on "Adjust"; the answer of `number` is none for NaN.
unfoldable pub adjust_call : (number : String → Option ℤ) → String → Tab → Option AdminApi
unfolding lookup
adjust_call number id t = adjusted id (parsed number (lookup id t.adjust_amount))

-- The answer of the prompt for a new password; `none` is a prompt that was cancelled.
unfoldable pub reset_call : String → (prompted : Option String) → Option AdminApi
reset_call id none = none
reset_call id (some password) =
    if nonempty password then some (AdminApi.reset_user_password id password) else none

-- `onSuccess` and `onError` of `resetPassword`
unfoldable pub reset_alert : (ok : Bool) → String
reset_alert true = "Password reset — the user's sessions were logged out."
reset_alert false = "Failed to reset password (min 8 characters)."

unfoldable pub delete_call : String → (confirmed : Bool) → Option AdminApi
delete_call id confirmed = if confirmed then some (AdminApi.delete_user id) else none

-- `onSuccess` of `impersonate`: the page is loaded again unless the action has thrown.
abbrev pub reloaded : Platform → Outcome × State → State
reloaded p (returned, s) = boot p s.storage
reloaded p (threw, s) = s

unfoldable pub impersonated : Platform → TokenPair → State → State
impersonated p tokens s = reloaded p (begin_impersonation p tokens s)
