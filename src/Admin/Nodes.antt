-- ===== src/Admin/Nodes.antt =====
-- web/src/components/admin/AdminNodesTab.tsx and AdminCodesTab.tsx: the forms for a node and for a
-- code that is redeemed for coins.
use sky_panel.Base.{
  suc, String, Option, none, some, Bool, true, false, not, ◌&&◌, nonempty, str_eq, if◌then◌else◌,
}
use sky_panel.Base.Int.{ℤ, pos}
use sky_panel.Base.Json.{str}
use sky_panel.Api.{Failure, api, other}
use sky_panel.Endpoints.Admin.{AdminApi}

pub record NodeForm : Type 0 where
  pub name : String
  pub address : String
  pub issued_token : Option String

unfoldable pub create_node_call : NodeForm → AdminApi
create_node_call f = AdminApi.create_node f.name f.address

-- A node's token is shown once, after its creation and after a rotation.
unfoldable pub node_created : (node_token : String) → NodeForm → NodeForm
node_created node_token f = record { name = ""; address = ""; issued_token = some node_token }

unfoldable pub token_rotated : (node_token : String) → NodeForm → NodeForm
token_rotated node_token f = record f { issued_token = some node_token }

pub record CodeForm : Type 0 where
  pub code : String
  pub coins : String
  pub max_uses : String
  pub error : Option String

abbrev is_positive : Option ℤ → Bool
is_positive (some (pos (suc n))) = true
is_positive _ = false

abbrev or_zero : Option ℤ → ℤ
or_zero none = pos 0
or_zero (some n) = n

-- `trim` is that of strings; `number` is `Number` of whole numbers, with none for NaN.
module _ (trim : String → String) (number : String → Option ℤ) where
  unfoldable pub can_create : (is_pending : Bool) → CodeForm → Bool
  can_create is_pending f = nonempty (trim f.code) && is_positive (number f.coins) && not is_pending

  unfoldable pub create_code_call : CodeForm → AdminApi
  create_code_call f =
      AdminApi.create_redeem_code (trim f.code) (or_zero (number f.coins))
        (or_zero (number (if nonempty f.max_uses then f.max_uses else "0")))

unfoldable pub code_created : CodeForm → CodeForm
code_created f = record { code = ""; coins = ""; max_uses = "0"; error = none }

abbrev already_exists : Failure → Bool
already_exists (api e) = elim e.code [ str code ↦ str_eq code "already_exists" | _ ↦ false ]
already_exists other = false

unfoldable pub code_refused : Failure → CodeForm → CodeForm
code_refused e f = record f {
  error = some (if already_exists e then "That code already exists." else "Failed to create code.");
}
