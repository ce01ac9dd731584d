-- ===== src/Admin/Allocations.antt =====
-- web/src/components/admin/AdminAllocationsTab.tsx and ServerPortsPanel.tsx: the ports of a node, and
-- those of a server.
use Prim.Native.String
use sky_panel.Base.{
  ℕ, ltb, ◌==◌, String, Option, none, some, Bool, true, false, not, List, [], ◌∷◌, keep, length,
  nonempty, truthy, if◌then◌else◌,
}
use sky_panel.Base.Decimal.{show}
use sky_panel.Base.Json.{Json, str}
use sky_panel.Wire.Nodes.{Node, Allocation, ServerAllocations}
use sky_panel.Api.{Failure, message_or}
use sky_panel.Endpoints.Admin.{AdminApi}

pub data Mode : Type 0 where
  range single : Mode

pub record Tab : Type 0 where
  pub node_id : String
  pub mode : Mode
  pub port : ℕ
  pub port_start : ℕ
  pub port_end : ℕ
  pub message : Option (Json × Bool)

abbrev pub opened : Tab
opened = record {
  node_id = "";
  mode = range;
  port = 25565;
  port_start = 25565;
  port_end = 25614;
  message = none;
}

-- The effect that chooses the first node
abbrev pub default_node : Option (List Node) → String → String
default_node none id = id
default_node (some []) id = id
default_node (some (n ∷ ns)) id = if nonempty id then id else n.id

unfoldable pub nodes_loaded : Option (List Node) → Tab → Tab
nodes_loaded nodes t = record t { node_id = default_node nodes t.node_id }

unfoldable pub create_call : Tab → AdminApi
create_call t = elim t.mode [
  | single ↦ AdminApi.create_allocations t.node_id (some t.port) none none
  | range ↦ AdminApi.create_allocations t.node_id none (some t.port_start) (some t.port_end)
]

abbrev followed : String → String → String
followed a b = String.◌++◌ a b

unfoldable pub ports_created : ℕ → Tab → Tab
ports_created n t = record t {
  message = some (
    str (followed "Added " (followed (show n) (if n == 1 then " new port." else " new ports."))),
    true,
  );
}

unfoldable pub create_refused : Failure → Tab → Tab
create_refused e t = record t { message = some (message_or "Failed to add allocations." e, false) }

unfoldable pub remove_refused : Failure → Tab → Tab
remove_refused e t = record t { message = some (message_or "Failed to delete." e, false) }

-- `total` and `free`
unfoldable pub counts : Option (List Allocation) → ℕ × ℕ
counts none = (0, 0)
counts (some list) =
    (length list, length (keep (λ (a : Allocation). not (truthy a.server_id)) list))

-- The panel of a server's ports
pub record Panel : Type 0 where
  pub selected : String
  pub error : Option Json

unfoldable pub port_added : Panel → Panel
port_added p = record { selected = ""; error = none }

unfoldable pub port_removed : Panel → Panel
port_removed p = record p { error = none }

unfoldable pub add_refused : Failure → Panel → Panel
add_refused e p = record p { error = some (message_or "Failed to add port." e) }

unfoldable pub detach_refused : Failure → Panel → Panel
detach_refused e p = record p { error = some (message_or "Failed to remove port." e) }

unfoldable pub has_free : Option ServerAllocations → Bool
has_free none = false
has_free (some d) = ltb 0 (length d.free)
