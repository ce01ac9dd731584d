-- ===== src/Tests/Detail.antt =====
-- web/src/pages/ServerDetailPage.tsx at concrete messages and servers.
use sky_panel.Base.{
  ℕ, zero, suc, ◌≡◌, ◌*◌, ◌/◌, refl, arith, String, none, true, false, List, [], ◌∷◌, ◌++◌, map,
}
use sky_panel.Base.Int.{pos}
use sky_panel.Wire.Account.{User, Role}
use sky_panel.Wire.Servers.{Server, ServerStatus, ContainerHeartbeat}
use sky_panel.Detail.{
  max_console_lines, append_lines, Scrollback, deliver_all, clear_lines, come_back,
}
use sky_panel.Detail.Window.{last_of, append_lines-eq_last}
use sky_panel.Detail.Frozen.{joined, frozen, clear_lines_keeps}

abbrev copies : ℕ → String → List String
copies zero s = []
copies (suc n) s = s ∷ copies n s

abbrev full : Scrollback
full = record {
  lines = copies 1000 "tick";
  screen = record { written = 1000; shown = "tick" ∷ [] };
}

abbrev batches : List (List String)
batches = ("one" ∷ "two" ∷ []) ∷ ("three" ∷ []) ∷ []

append_lines-eq_last_example :
    append_lines [] (copies 1001 "tick") ≡ last_of max_console_lines (copies 1001 "tick")
append_lines-eq_last_example = append_lines-eq_last (copies 1001 "tick")

abbrev beat : ℕ → ContainerHeartbeat ℕ
beat n = record {
  server_id = "s1";
  running = true;
  cpu_percent = n;
  mem_used_bytes = 1024 * n;
  mem_limit_bytes = 4096;
  net_rx_bytes = 0;
  net_tx_bytes = 0;
}

-- A percentage in whole numbers
abbrev percent : ℕ → ℕ → ℕ
percent a b = a * 100 / b

abbrev beats : List (ContainerHeartbeat ℕ)
beats = map beat (1 ∷ 2 ∷ 3 ∷ [])

frozen_example :
    ((deliver_all batches full).screen.shown ≡ "tick" ∷ [])
    × ((come_back ("four" ∷ []) (deliver_all batches full)).screen.shown
        ≡ last_of max_console_lines (copies 1000 "tick" ++ (joined batches ++ "four" ∷ [])))
frozen_example = frozen batches ("four" ∷ []) full refl refl

abbrev started : Scrollback
started = record { lines = "zero" ∷ []; screen = record { written = 1; shown = "zero" ∷ [] } }

clear_lines_keeps_example :
    ((clear_lines full).screen.shown ≡ "tick" ∷ [])
    × ((deliver_all batches (clear_lines full)).screen.shown ≡ ("tick" ∷ []) ++ joined batches)
clear_lines_keeps_example = clear_lines_keeps batches full (omega arith)

abbrev ann : User
ann = record {
  id = "u1";
  email = "ann@panel";
  username = "ann";
  role = Role.user;
  totp_enabled = false;
  coins = pos 5;
}

abbrev world : Server
world = record {
  id = "s1";
  owner_id = "u1";
  node_id = "n1";
  egg_id = "e1";
  name = "world";
  status = ServerStatus.running;
  memory_bytes = 1024;
  cpu_limit = 100;
  disk_bytes = 1024;
  primary_port = 25565;
  additional_ports = none;
  variables = [];
  backup_interval_hours = 0;
  last_backup_at = none;
  suspended = false;
  status_message = none;
  description = "";
  public_status = false;
}
