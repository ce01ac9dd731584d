-- ===== src/Detail.antt =====
-- web/src/pages/ServerDetailPage.tsx: the page of one server. Its console lines and its samples are
-- bounded buffers; what a user may do depends on the server's status and on who the user is.
pub mod Window
pub mod Frozen
pub mod Access
pub mod Actions
use sky_panel.Base.{
  ℕ, String, Option, none, some, Bool, true, false, not, ◌&&◌, ◌||◌, List, [], ◌∷◌, ◌++◌, ◌-◌,
  length, drop, keep, find?, any, ltb, ◌==◌, str_eq, nonempty, if◌then◌else◌,
}
use sky_panel.Base.Decimal.{show}
use Prim.Native.String
use sky_panel.Wire.Account.{User, Role}
use sky_panel.Wire.Nodes.{NodeSummary}
use sky_panel.Wire.Servers.{Server, ServerStatus, ContainerHeartbeat}
use sky_panel.Console.{Screen, flush}

abbrev pub max_console_lines : ℕ
max_console_lines = 1000

abbrev pub max_history : ℕ
max_history = 60

-- `next.length > cap ? next.slice(next.length - cap) : next`
unfoldable pub trim_to {ℓ} : {A : Type ℓ} → ℕ → List A → List A
trim_to cap next = if ltb cap (length next) then drop (length next - cap) next else next

-- The same of `next = [...prev, x]`
unfoldable pub push_capped {ℓ} : {A : Type ℓ} → ℕ → List A → A → List A
unfolding trim_to
push_capped cap prev x = trim_to cap (prev ++ x ∷ [])

-- The console's lines in the page, and what the terminal shows of them.
pub record Scrollback : Type 0 where
  pub lines : List String
  pub screen : Screen

unfoldable pub append_lines : List String → List String → List String
unfolding push_capped
append_lines lines [] = lines
append_lines lines (m ∷ ms) = append_lines (push_capped max_console_lines lines m) ms

-- The messages that arrive before one render, and the terminal's effect after it.
unfoldable pub deliver : List String → Scrollback → Scrollback
unfolding append_lines flush
deliver ms s =
    let lines = append_lines s.lines ms in record { lines = lines; screen = flush lines s.screen }

unfoldable pub deliver_all : List (List String) → Scrollback → Scrollback
unfolding deliver
deliver_all [] s = s
deliver_all (ms ∷ batches) s = deliver_all batches (deliver ms s)

-- The user leaves the Console tab, which disposes the terminal, messages arrive, and the user comes
-- back: a new terminal, with its count at 0, writes the lines that the page holds.
unfoldable pub come_back : (missed : List String) → Scrollback → Scrollback
unfolding append_lines flush
come_back missed s =
    let lines = append_lines s.lines missed in
    record { lines = lines; screen = flush lines (record { written = 0; shown = [] }) }

-- The button "Clear": `setLines([])`, and the terminal's effect after the render.
unfoldable pub clear_lines : Scrollback → Scrollback
unfolding flush
clear_lines s = record { lines = []; screen = flush [] s.screen }

-- A sample of the sparklines. `F` are the fractional numbers, and `ratio a b` is `(a / b) * 100`.
pub record Sample (F : Type 0) : Type 0 where
  pub cpu : F
  pub mem : F

module _ {F : Type 0} (zero_percent : F) (ratio : ℕ → ℕ → F) where
  abbrev mem_percent : ContainerHeartbeat F → F
  mem_percent msg =
      if ltb 0 msg.mem_limit_bytes
      then ratio msg.mem_used_bytes msg.mem_limit_bytes
      else zero_percent

  abbrev pub sample_of : ContainerHeartbeat F → Sample F
  sample_of msg = record { cpu = msg.cpu_percent; mem = mem_percent msg }

  -- `applyStats`: the last heartbeat, and the window of samples.
  unfoldable pub apply_stats :
      ContainerHeartbeat F
      → Option (ContainerHeartbeat F) × List (Sample F)
      → Option (ContainerHeartbeat F) × List (Sample F)
  unfolding push_capped
  apply_stats msg (_, history) = (some msg, push_capped max_history history (sample_of msg))

  unfoldable pub apply_all :
      List (ContainerHeartbeat F)
      → Option (ContainerHeartbeat F) × List (Sample F)
      → Option (ContainerHeartbeat F) × List (Sample F)
  unfolding apply_stats
  apply_all [] s = s
  apply_all (msg ∷ msgs) s = apply_all msgs (apply_stats msg s)
