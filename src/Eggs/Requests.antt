-- ===== src/Eggs/Requests.antt =====
-- The requests of web/src/components/admin/AdminEggsTab.tsx: saving the form, importing a file, and
-- exporting an egg. `parse` is `JSON.parse`, `none` where it throws.
use Prim.Native.String
use sky_panel.Base.{String, Option, none, some, nonempty, if◌then◌else◌}
use sky_panel.Base.Json.{Json}
use sky_panel.Wire.Servers.{Egg}
use sky_panel.Endpoints.Admin.{AdminApi}
use sky_panel.Eggs.{EggForm, load_from_json, reset_form}

abbrev saving : Option String → EggForm → AdminApi
saving none s = AdminApi.create_egg s.form
saving (some id) s =
    if nonempty id then AdminApi.update_egg id s.form else AdminApi.create_egg s.form

-- `onSubmit`, with what `create` and `update` send
unfoldable pub submit_call : EggForm → AdminApi
submit_call s = saving s.editing_id s

-- `onSuccess` of `create` and of `update`
unfoldable pub egg_saved : EggForm → EggForm
unfolding reset_form
egg_saved s = reset_form s

-- `importFile`; `none` is a file that could not be read.
unfoldable pub import_file :
    (parse : String → Option Json) → (text : Option String) → EggForm → EggForm
unfolding load_from_json
import_file parse none s = record s { import_error = some "Failed to read that file." }
import_file parse (some text) s = load_from_json parse text s

-- The name of the download; `dashed` replaces each run of other characters by a dash.
unfoldable pub download_name : (dashed lower : String → String) → Egg → String
download_name dashed lower e =
    let base = lower (dashed e.name) in
    String.◌++◌ (if nonempty base then base else "egg") ".egg.json"

-- How an export ends, and the error that it leaves.
pub data Export : Type 0 where
  downloaded : Json → Export
  failed : (message : String) → Export
  thrown : Export

unfoldable pub export_error : Export → Option String
export_error (downloaded definition) = none
export_error (failed message) = some message
export_error thrown = some "Failed to export egg."
