-- ===== src/Tests/Tabs.antt =====
-- The tabs of a server and the page of its reinstallation at concrete data.
use sky_panel.Base.{
  String, none, some, true, false, List, [], ◌∷◌, lookup, insert, if◌then◌else◌, ◌≡◌, refl,
}
use sky_panel.Wire.Servers.{Server, ServerStatus}
use sky_panel.Wire.Modrinth.{ModrinthHit, ModrinthVersion}
use sky_panel.Tabs.Settings.{Tab}
use sky_panel.Tabs.Modrinth.{
  State, Event, run, install_pressed, versions_answered, install_answered,
}
use sky_panel.Tabs.Modrinth
use sky_panel.Tabs.Modrinth.Pending.{IsMarked, run-IsMarked}
use sky_panel.Reinstall.{
  Page, answered, click, tick, progress, view, result_of, is_installing, refetch_interval,
}
use sky_panel.Reinstall
use sky_panel.Reinstall.Progress.{run-progress, run-click}
use sky_panel.Tests.Pages.{server}

abbrev world : Server
world = server "s1" "world"

abbrev typed : Tab
typed = record {
  name = "lobby";
  memory_mb = 2048;
  cpu_limit = 200;
  disk_mb = 4096;
  backup_hours = 6;
  error = none;
  saved = true;
  description = "for friends";
  desc_saved = false;
}

abbrev hit : String → ModrinthHit
hit id = record {
  project_id = id;
  slug = "";
  title = id;
  description = "";
  author = "ann";
  project_type = "mod";
  downloads = 0;
  follows = 0;
  categories = [];
  versions = [];
  icon_url = "";
}

abbrev release : ModrinthVersion
release = record {
  id = "v1";
  name = "1.0";
  version_number = "1.0";
  version_type = "release";
  game_versions = [];
  loaders = [];
  files = record { url = "u"; filename = "a.jar"; primary = true; size = 1 } ∷ [];
}

abbrev installs : List Event
installs =
    install_pressed (hit "a")
    ∷ install_pressed (hit "b")
    ∷ versions_answered 1 (release ∷ [])
    ∷ versions_answered 0 []
    ∷ install_answered 0
    ∷ []

installs_test : (run installs sky_panel.Tabs.Modrinth.opened).tab.installed ≡ ("a", "a.jar") ∷ []
unfolding run sky_panel.Tabs.Modrinth.opened lookup insert
installs_test = refl

run-IsMarked_example : IsMarked (run installs sky_panel.Tabs.Modrinth.opened)
run-IsMarked_example = run-IsMarked installs

abbrev page : Page
page = record {
  server = some world;
  started = false;
  egg_id = "e1";
  error = none;
  start = 0;
  now = 0;
}

abbrev installing : Server
installing = record world { status = ServerStatus.installing }

run-progress_example :
    view (
      sky_panel.Reinstall.run
        ((1000, tick) ∷ [])
        (sky_panel.Reinstall.step 0 (answered installing) page))
    ≡ progress
run-progress_example =
    run-progress 0 (answered installing) ((1000, tick) ∷ []) page
      (unfold sky_panel.Reinstall.run sky_panel.Reinstall.step in refl)

run-click_example :
    let q = sky_panel.Reinstall.run ((1000, tick) ∷ []) (sky_panel.Reinstall.step 0 click page) in
    (view q ≡ result_of world.status)
    × (refetch_interval q.server ≡ (if is_installing world.status then some 2000 else none))
run-click_example = run-click 0 ((1000, tick) ∷ []) page world refl (refl, tt)
