-- ===== src/Tests/Files.antt =====
-- web/src/components/server/FilesTab.tsx at concrete files.
use sky_panel.Base.{
  ℕ, ◌-◌, ◌==◌, String, none, some, Bool, false, not, ◌&&◌, List, [], ◌∷◌, ◌++◌, map, keep, any,
  length, ◌≡◌, refl,
}
use sky_panel.Base.Decimal.{show}
use sky_panel.Endpoints.Files.{FilesApi}
use sky_panel.Files.{Tab, PickedFile, too_big, tree_path, write_of, before, upload}
use sky_panel.Files.Paths.{join_path, join, crumbs, crumb_path, crumbs-join_path}
use sky_panel.Files.Uploads.{all_accepted, Reports, upload_lem}

abbrev shown : Tab
shown = record {
  path = "world/region";
  editing_path = none;
  editor_content = "";
  creating = none;
  create_name = "";
  renaming = none;
  rename_value = "";
  busy = none;
  notice = none;
  requests = [];
}

abbrev picked : List PickedFile
picked =
    record { name = "a.cfg"; webkit_relative_path = ""; size = 10 }
    ∷ record { name = "map.zip"; webkit_relative_path = ""; size = 10485761 }
    ∷ record { name = "b.cfg"; webkit_relative_path = "cfg/b.cfg"; size = 10485760 }
    ∷ []

abbrev bytes : PickedFile → String
bytes f = f.name

-- Every write but the second one succeeds.
abbrev answers : ℕ → Bool
answers i = not (i == 1)

upload_test :
    let s' = upload "s1" bytes answers picked tree_path shown in
    (s'.notice
      ≡ some (record {
        text = "Uploaded 1 file(s). Skipped (over 10 MB): map.zip. Failed: cfg/b.cfg.";
        ok = false;
      }))
    × (s'.requests
        ≡ FilesApi.write "s1" "world/region/cfg/b.cfg" "b.cfg"
          ∷ FilesApi.write "s1" "world/region/a.cfg" "a.cfg"
          ∷ [])
unfolding upload show join join_path
upload_test = (refl, refl)

upload_lem_example :
    let eligible = keep (λ f. not (too_big f)) picked in
    let s' = upload "s1" bytes answers picked tree_path shown in
    (s'.requests ≡ before (map (write_of "s1" bytes shown.path tree_path) eligible) shown.requests)
    × (Reports picked (not (any too_big picked) && all_accepted answers 0 eligible) s'.notice
        × (s'.busy ≡ none))
upload_lem_example = upload_lem "s1" bytes answers picked tree_path shown

crumbs-join_path_example :
    let cs = crumbs (join_path "world/region" "r.0.0.mca") in
    (cs ≡ crumbs "world/region" ++ "r.0.0.mca" ∷ [])
    × (crumb_path cs (length (crumbs "world/region") - 1) ≡ "world/region")
crumbs-join_path_example = crumbs-join_path "world/region" "r.0.0.mca" refl refl
