-- ===== src/Tests/Pages.antt =====
-- The list of servers, the startup tab and the appearance at concrete data.
use sky_panel.Base.{
  ℕ, ◌+◌, ◌≡◌, refl, String, Option, none, some, Bool, true, false, ◌||◌, List, [], ◌∷◌, keep, leb,
  arith, str_eq, Dict, lookup, insert, if◌then◌else◌,
}
use sky_panel.Wire.Servers.{Server, ServerStatus, Egg}
use sky_panel.Endpoints.Admin.{egg_body}
use sky_panel.Eggs.{empty_form, input_of, load_from_json, load_from_json-egg_body}
use sky_panel.Base.Int.{pos}
use sky_panel.Afk.{Afk, connecting, result, broken, leave}
use sky_panel.Afk.Earning.{Answer, beats, total_gain, last_balance, visit_lem}
use sky_panel.Tests.Session.{ann}
use mathlib.Core.List.{Perm}
use sky_panel.Servers.Sorting.{sorted_servers}
use sky_panel.Servers.Order.{IsOrder, IsSorted, sorted_servers-IsSorted}
use sky_panel.Tests.Codec.{size}
use sky_panel.Startup.{resolved, saved_variables, resolved-saved}
use sky_panel.Appearance.{PartialBackground, BackgroundMode, parse_background}

-- Ann keeps the page open for two heartbeats that credit coins and one that fails, and leaves while
-- another is on its way.
abbrev afk_page : Afk
afk_page = record {
  session_id = "tab-1";
  last_beat_at = 0;
  session_start = none;
  status = connecting;
  session_earned = 0;
  timer = true;
  cancelled = false;
  user = some ann;
}

abbrev beat_of : ℕ → ℕ → Answer
beat_of now coins = record {
  at = now;
  reply = result (record { credited = pos 5; balance = pos coins; session_started_at = "now" });
}

abbrev answers : List Answer
answers = beat_of 1 15 ∷ record { at = 25001; reply = broken } ∷ beat_of 50001 20 ∷ []

visit_lem_example :
    let left = leave (λ _. none) (beats (λ _. none) answers afk_page) in
    (beats (λ _. none) (beat_of 75001 25 ∷ []) left ≡ left)
    × ((left.session_earned ≡ total_gain answers + 0)
        × ((left.user ≡ last_balance answers (some ann)) × (left.timer ≡ false)))
visit_lem_example = visit_lem (λ _. none) answers (beat_of 75001 25 ∷ []) afk_page refl

abbrev pub server : String → String → Server
server id name = record {
  id = id;
  owner_id = "u1";
  node_id = "n1";
  egg_id = "e1";
  name = name;
  status = ServerStatus.running;
  memory_bytes = 1024;
  cpu_limit = 100;
  disk_bytes = 1024;
  primary_port = 25565;
  additional_ports = none;
  variables = ("VERSION", "1.20") ∷ [];
  backup_interval_hours = 0;
  last_backup_at = none;
  suspended = false;
  status_message = none;
  description = "";
  public_status = false;
}

abbrev three : List Server
three = server "s1" "b" ∷ server "s2" "a" ∷ server "s3" "c" ∷ []

-- "a" before "b" before "c"
abbrev name_le : String → String → Bool
name_le a b = str_eq a "a" || str_eq a b || str_eq b "c"

abbrev third : String → Bool
third id = str_eq id "s3"

abbrev every : Server → Bool
every s = true

sorted_servers_test :
    sorted_servers third name_le every every three
    ≡ server "s3" "c" ∷ server "s2" "a" ∷ server "s1" "b" ∷ []
unfolding sorted_servers
sorted_servers_test = refl

abbrev paper : Egg
paper = record {
  id = "e1";
  name = "Paper";
  category = "";
  description = "";
  docker_image = "java";
  startup = "java -jar server.jar";
  stop_command = "stop";
  variables =
      record { name = "Version"; env = "VERSION"; default = "latest"; user_editable = true }
      ∷ record { name = "Jar"; env = "JAR"; default = "server.jar"; user_editable = false }
      ∷ [];
}

resolved_test :
    resolved paper.variables (("VERSION", "1.21") ∷ []) (server "s1" "b").variables
    ≡ ("VERSION", "1.21") ∷ ("JAR", "server.jar") ∷ []
unfolding resolved lookup insert
resolved_test = refl

resolved-saved_example :
    let s = server "s1" "b" in
    let overrides : Dict String = ("VERSION", "1.21") ∷ [] in
    resolved paper.variables [] (saved_variables paper.variables overrides s.variables)
    ≡ resolved paper.variables overrides s.variables
resolved-saved_example =
    resolved-saved paper (("VERSION", "1.21") ∷ []) (server "s1" "b") ((refl, tt), (tt, tt))

abbrev protocol : String → Option String
protocol url = if str_eq url "https://cdn/x.png" then some "https:" else some "javascript:"

abbrev parsed : String → Option (PartialBackground ℕ)
parsed json = some (record {
  mode = some BackgroundMode.image;
  color = none;
  gradient_css = none;
  image_url = some json;
  video_url = some "javascript:x";
  blur = none;
  dim = none;
})

background_test :
    let c = parse_background protocol 0 40 parsed "https://cdn/x.png" in
    (c.image_url ≡ "https://cdn/x.png") × (c.video_url ≡ "")
unfolding parse_background
background_test = (refl, refl)

load_from_json-egg_body_example :
    load_from_json
      (λ text. some (egg_body (input_of paper)))
      "{}"
      (record { editing_id = some "e0"; form = empty_form; import_error = none })
    ≡ record { editing_id = none; form = input_of paper; import_error = none }
load_from_json-egg_body_example =
    load_from_json-egg_body (λ text. some (egg_body (input_of paper))) "{}" paper
      (record { editing_id = some "e0"; form = empty_form; import_error = none }) refl refl refl

-- Names by their lengths
abbrev shorter : String → String → Bool
shorter a b = leb (size a) (size b)

shorter-IsOrder : IsOrder shorter
shorter-IsOrder = record { total = λ a b. ground arith; trans = λ a b c h k. ground (arith, h, k) }

sorted_servers-IsSorted_example :
    let shown = sorted_servers third shorter every every three in
    IsSorted third shorter shown × Perm shown (keep every (keep every three))
sorted_servers-IsSorted_example =
    sorted_servers-IsSorted third shorter shorter-IsOrder every every three

-- Two servers run, one is offline, and three are stopping.
abbrev by_status : Dict ℕ
by_status = ("running", 2) ∷ ("offline", 1) ∷ ("stopping", 3) ∷ []
