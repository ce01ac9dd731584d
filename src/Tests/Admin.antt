-- ===== src/Tests/Admin.antt =====
-- The tabs of the admin page and the bars of quotas at concrete data.
use sky_panel.Base.{
  ℕ, String, none, Bool, true, false, ◌&&◌, List, [], ◌∷◌, map, keep, length, str_eq, if◌then◌else◌,
  ◌≡◌, refl,
}
use sky_panel.Base.Sets.{has, IsUnique}
use sky_panel.Base.Decimal.{show}
use sky_panel.Base.Json.{Json}
use sky_panel.Wire.Servers.{AdminServer}
use sky_panel.Wire.Economy.{AdminQuotaInfo, QuotaDims}
use sky_panel.Endpoints.Admin.{AdminApi}
use sky_panel.Admin.Servers.{
  Action, loaded, toggle, toggle_all, type_filter, opened, suspension, bulk_suspend, selected_ids,
  shown_ids, all_shown_selected, step, run,
}
use sky_panel.Admin.Servers.Selection.{chosen_after, has-step, bulk_suspend_lem}
use sky_panel.Admin.Users.{Tab, empty_draft, toggle_quota, quota_loaded, quota_call}
use sky_panel.Admin.Users.Quota.{IsNear, quota_loaded_lem}
use sky_panel.Tests.Pages.{server}

abbrev same : String → String
same s = s

-- A name contains the search text when it is the text.
abbrev includes : String → String → Bool
includes = str_eq

abbrev no_text : Json → String
no_text j = ""

abbrev owned : String → String → AdminServer
owned id owner = record { base = server id "world"; owner_username = owner }

abbrev clicks : List Action
clicks =
    loaded (owned "s1" "ann" ∷ owned "s2" "bob" ∷ [])
    ∷ toggle "s2"
    ∷ toggle "s1"
    ∷ type_filter "bob"
    ∷ []

selected_ids_test :
    selected_ids same same includes no_text (run same same includes no_text clicks opened)
    ≡ "s2" ∷ []
unfolding selected_ids run has shown_ids
selected_ids_test = refl

bulk_suspend_lem_example :
    let fails : String → Bool = λ id. str_eq id "s2" in
    let t = run same same includes no_text clicks opened in
    let ids = selected_ids same same includes no_text t in
    (bulk_suspend fails ids true ≡ (
      map (suspension true) ids,
      record { total = length ids; failed = keep fails ids; on = true },
    ))
    × (IsUnique ids
        × ((j : String)
            → has j ids ≡ (has j t.selected && has j (shown_ids same same includes no_text t))))
bulk_suspend_lem_example =
    bulk_suspend_lem same same includes no_text clicks (λ id. str_eq id "s2") true

has-step_example :
    let t = run same same includes no_text clicks opened in
    has "s1" (step same same includes no_text toggle_all t).selected
    ≡ chosen_after toggle_all
        (λ i. has i (shown_ids same same includes no_text t))
        (all_shown_selected same same includes no_text t)
        (λ i. has i t.selected)
        "s1"
has-step_example =
    has-step same same includes no_text toggle_all (run same same includes no_text clicks opened)
      "s1"

abbrev users : Tab
users = record {
  adjust_amount = [];
  quota_open = none;
  quota_draft = empty_draft;
  quota_msg = none;
}

abbrev number : String → ℕ
number text = if str_eq text "512" then 512 else if str_eq text "50" then 50 else 0

abbrev dims : ℕ → ℕ → ℕ → QuotaDims
dims memory cpu disk = record {
  memory_bytes = memory;
  cpu_percent = cpu;
  disk_bytes = disk;
  databases = 0;
}

abbrev granted : AdminQuotaInfo
granted = record {
  base = record {
    usage = record { base = dims 0 0 0; servers = 0 };
    limit = dims 0 0 0;
    allow_unlimited_cpu = false;
  };
  bonus = dims 536870912 50 0;
}

quota_loaded_lem_example :
    (memory : ℕ) × (disk : ℕ) × (quota_call number "u2"
        (quota_loaded granted (toggle_quota "u2" users)).quota_draft
      ≡ AdminApi.set_user_quota "u2" memory granted.bonus.cpu_percent disk)
    × (IsNear memory granted.bonus.memory_bytes × IsNear disk granted.bonus.disk_bytes)
quota_loaded_lem_example =
    quota_loaded_lem number "u2" granted users (unfold show in refl) (unfold show in refl)
      (unfold show in refl)
