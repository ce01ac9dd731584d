-- ===== src/Admin/Quotas.antt =====
-- web/src/components/admin/AdminQuotasTab.tsx: the default quota of all users. The numbers are whole
-- and not negative; `number` is `Number`, `lower` is `toLowerCase`.
use sky_panel.Base.{
  ℕ, ◌*◌, String, Option, none, some, Bool, true, not, nonempty, str_eq, eq_iff, [], Dict, lookup,
  insert, lookup-insert, if◌then◌else◌, ◌≡◌, refl, ap, ◌∙◌, arith, ◌⊎◌, inl, inr,
}
use sky_panel.Base.Decimal.{show}
use sky_panel.Display.{mb, rounded}
use sky_panel.Display.Bounds.{rounded_whole}
use sky_panel.Endpoints.Admin.{AdminApi}

abbrev pub memory_key : String
memory_key = "quota.default_memory_bytes"

abbrev pub disk_key : String
disk_key = "quota.default_disk_bytes"

abbrev pub cpu_key : String
cpu_key = "quota.default_cpu_percent"

pub record Tab : Type 0 where
  pub values : Dict String
  pub allow_unlimited_cpu : Bool
  pub saved : Option String

abbrev or_default : Option String → String → String
or_default none default = default
or_default (some text) default = text

module _ (number : String → ℕ) where
  abbrev pub megabytes : Option String → ℕ → String
  megabytes none default = show default
  megabytes (some text) default =
      if nonempty text then show (rounded (number text) mb) else show default

  -- The effect on the answer of the settings' query
  unfoldable pub hydrate : (lower : String → String) → Dict String → Tab → Tab
  unfolding insert
  hydrate lower settings t = record t {
    values = insert cpu_key (or_default (lookup cpu_key settings) (show 200)) (
        insert disk_key (megabytes (lookup disk_key settings) 10240)
          (insert memory_key (megabytes (lookup memory_key settings) 2048) []));
    allow_unlimited_cpu =
        not (
          str_eq (lower (or_default (lookup "quota.allow_unlimited_cpu" settings) "true")) "false");
  }

  abbrev pub number_or_zero : Option String → ℕ
  number_or_zero none = 0
  number_or_zero (some text) = if nonempty text then number text else 0

  -- The key and value that `saveMb` sends
  unfoldable pub save_mb : String → Tab → String × String
  save_mb key t = (key, show (number_or_zero (lookup key t.values) * mb))

  -- `Number` reads back the text of `n`, which is not empty.
  abbrev pub ReadsBack : ℕ → Type 0
  ReadsBack n = (number (show n) ≡ n) × (nonempty (show n) ≡ true)

  megabytes_whole :
      (n default : ℕ) → ReadsBack (n * mb) → megabytes (some (show (n * mb))) default ≡ show n
  megabytes_whole n default h = rw (h.1, h.0, rounded_whole n) refl

  abbrev default_of : String → ℕ
  default_of key = if str_eq key memory_key then 2048 else 10240

  lookup-hydrate :
      (lower : String → String) (key : String) (settings : Dict String) (t : Tab)
      → (key ≡ memory_key) ⊎ (key ≡ disk_key)
      → lookup key (hydrate lower settings t).values
        ≡ some (megabytes (lookup key settings) (default_of key))
  unfolding hydrate lookup
  lookup-hydrate lower key settings t (inl e) = rw e refl
  lookup-hydrate lower key settings t (inr e) = rw e refl

  -- The memory or the disk that is saved is shown again, as the same number of megabytes, once the
  -- settings have it.
  pub hydrate-save_mb :
      (lower : String → String) (key : String) (settings : Dict String) (t t' : Tab)
      → (key ≡ memory_key) ⊎ (key ≡ disk_key)
      → ReadsBack (number_or_zero (lookup key t.values) * mb)
      → lookup key (hydrate lower (insert key (save_mb key t).1 settings) t').values
        ≡ some (show (number_or_zero (lookup key t.values)))
  unfolding save_mb
  hydrate-save_mb lower key settings t t' e h =
      let n = number_or_zero (lookup key t.values) in
      let there : lookup key (insert key (show (n * mb)) settings) ≡ some (show (n * mb)) =
        ground (arith, lookup-insert key key (show (n * mb)) settings, eq_iff key key) in
      lookup-hydrate lower key (insert key (show (n * mb)) settings) t' e
      ∙ ap (λ (o : Option String). some (megabytes o (default_of key))) there
      ∙ ap some (megabytes_whole n (default_of key) h)

-- The call that a key and value make
unfoldable pub save_call : String × String → AdminApi
save_call (key, value) = AdminApi.set_setting key value

-- The box that forbids unlimited CPU
unfoldable pub set_disallowed : Bool → Tab → Tab × AdminApi
set_disallowed disallow t = (
  record t { allow_unlimited_cpu = not disallow },
  AdminApi.set_setting "quota.allow_unlimited_cpu" (if disallow then "false" else "true"),
)
