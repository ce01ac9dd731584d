-- ===== src/Tabs/Settings.antt =====
-- web/src/components/server/SettingsTab.tsx: a server's name, limits, notes and public status. The
-- numbers in the inputs are whole and not negative.
use sky_panel.Base.{ℕ, ◌+◌, ◌*◌, ◌≤◌, String, Option, none, some, Bool, true, false, ◌≡◌, refl}
use sky_panel.Base.Json.{Json}
use sky_panel.Wire.Servers.{Server}
use sky_panel.Api.{Failure, message_or}
use sky_panel.Display.{mb, rounded}
use sky_panel.Display.Bounds.{rounded-near, rounded_whole}
use sky_panel.Endpoints.Servers.{ServersApi, UpdateServer}

-- The component's state; the timers are those that take the two notes of success away.
pub record Tab : Type 0 where
  pub name : String
  pub memory_mb : ℕ
  pub cpu_limit : ℕ
  pub disk_mb : ℕ
  pub backup_hours : ℕ
  pub error : Option Json
  pub saved : Bool
  pub description : String
  pub desc_saved : Bool

unfoldable pub opened : Server → Tab
opened s = record {
  name = s.name;
  memory_mb = rounded s.memory_bytes mb;
  cpu_limit = s.cpu_limit;
  disk_mb = rounded s.disk_bytes mb;
  backup_hours = s.backup_interval_hours;
  error = none;
  saved = false;
  description = s.description;
  desc_saved = false;
}

-- What `save` sends: all but the variables.
unfoldable pub update_of : Tab → UpdateServer
update_of t = record {
  name = t.name;
  memory_bytes = t.memory_mb * mb;
  cpu_limit = t.cpu_limit;
  disk_bytes = t.disk_mb * mb;
  variables = none;
  backup_interval_hours = t.backup_hours;
}

pub data Event : Type 0 where
  type_name : String → Event
  type_memory : ℕ → Event
  type_cpu : ℕ → Event
  type_disk : ℕ → Event
  type_backup_hours : ℕ → Event
  type_description : String → Event
  submit : Event
  accepted : Event
  refused : Failure → Event
  saved_timeout : Event
  save_description : Event
  description_accepted : Event
  description_timeout : Event
  toggle_public : Bool → Event

-- An event's effect on the state, and the call that it starts for the server `id`.
unfoldable pub step : String → Event → Tab → Tab × Option ServersApi
unfolding update_of
step id (type_name v) t = (record t { name = v }, none)
step id (type_memory v) t = (record t { memory_mb = v }, none)
step id (type_cpu v) t = (record t { cpu_limit = v }, none)
step id (type_disk v) t = (record t { disk_mb = v }, none)
step id (type_backup_hours v) t = (record t { backup_hours = v }, none)
step id (type_description v) t = (record t { description = v }, none)
step id submit t =
    (record t { error = none; saved = false }, some (ServersApi.update id (update_of t)))
step id accepted t = (record t { saved = true }, none)
step id (refused e) t = (record t { error = some (message_or "Failed to save settings" e) }, none)
step id saved_timeout t = (record t { saved = false }, none)
step id save_description t = (t, some (ServersApi.set_description id t.description))
step id description_accepted t = (record t { desc_saved = true }, none)
step id description_timeout t = (record t { desc_saved = false }, none)
step id (toggle_public on) t = (t, some (ServersApi.set_public_status id on))

-- The server whose update is `u` and whose notes are `description`
unfoldable pub updated : UpdateServer → String → Server → Server
updated u description s = record s {
  name = u.name;
  memory_bytes = u.memory_bytes;
  cpu_limit = u.cpu_limit;
  disk_bytes = u.disk_bytes;
  backup_interval_hours = u.backup_interval_hours;
  description = description;
}

-- Within half a megabyte
abbrev pub IsNear : ℕ → ℕ → Type 0
IsNear m n = (2 * m ≤ 2 * n + mb) × (2 * n ≤ 2 * m + mb)

-- "Save changes" on a tab that has just been opened sends the server's own name, CPU limit and
-- backup interval, no variables, and memory and disk up to half a megabyte.
pub update_of-opened :
    (s : Server)
    → let u = update_of (opened s) in
      (u ≡ record {
        name = s.name;
        memory_bytes = u.memory_bytes;
        cpu_limit = s.cpu_limit;
        disk_bytes = u.disk_bytes;
        variables = none;
        backup_interval_hours = s.backup_interval_hours;
      })
      × (IsNear u.memory_bytes s.memory_bytes × IsNear u.disk_bytes s.disk_bytes)
unfolding update_of opened
update_of-opened s = (refl, (rounded-near s.memory_bytes, rounded-near s.disk_bytes))

-- Whatever is typed, saved and stored, the tab that is opened on the stored server shows it.
pub opened-updated :
    (t : Tab) (s : Server)
    → opened (updated (update_of t) t.description s)
      ≡ record t { error = none; saved = false; desc_saved = false }
unfolding opened updated update_of
opened-updated t s = rw (rounded_whole t.memory_mb, rounded_whole t.disk_mb) refl
