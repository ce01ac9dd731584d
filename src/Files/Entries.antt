-- ===== src/Files/Entries.antt =====
-- The handlers of web/src/components/server/FilesTab.tsx for one entry of the directory that is
-- shown. Whether the panel's answer is a success is the environment's choice.
use Prim.Native.String
use sky_panel.Base.{String, Option, none, some, Bool, false, nonempty, ◌∷◌, if◌then◌else◌}
use sky_panel.Endpoints.Files.{FilesApi}
use sky_panel.Files.{Tab, Kind, folder}
use sky_panel.Files.Paths.{join_path}

abbrev sent : FilesApi → Tab → Tab
sent r s = record s { requests = r ∷ s.requests }

abbrev told : String → Tab → Tab
told text s = record s { notice = some (record { text = text; ok = false }) }

module _ (server_id : String) where
  -- `openFile`; the answer is the decoded content.
  unfoldable pub open_file : String → Option String → Tab → Tab
  open_file name answer s =
      let s' = sent (FilesApi.read server_id (join_path s.path name)) s in
      elim answer [
        | none ↦ s'
        | some content ↦ record s' {
          editing_path = some (join_path s.path name);
          editor_content = content;
        }
      ]

  -- `saveFile`; `encode` is `encodeUtf8Base64`. Its button is there while a file is open.
  unfoldable pub save_file : (encode : String → String) → Bool → Tab → Tab
  save_file encode ok s = elim s.editing_path [
    | none ↦ s
    | some path ↦
        let s' = sent (FilesApi.write server_id path (encode s.editor_content)) s in
        if ok then record s' { editing_path = none } else s'
  ]

  -- `removeEntry`
  unfoldable pub remove_entry : String → Tab → Tab
  remove_entry name s = sent (FilesApi.remove server_id (join_path s.path name)) s

  -- `rename`
  unfoldable pub rename_entry : String → Bool → Tab → Tab
  rename_entry name ok s =
      let s' =
        sent (FilesApi.rename server_id (join_path s.path name) (join_path s.path s.rename_value))
          s in
      if ok then record s' { renaming = none } else s'

  abbrev creation : Option Kind → String → FilesApi
  creation (some folder) path = FilesApi.mkdir server_id path
  creation _ path = FilesApi.write server_id path ""

  -- `create`; `trim` is the string's method.
  unfoldable pub create : (trim : String → String) → Bool → Tab → Tab
  create trim ok s =
      let name = trim s.create_name in
      let s' = sent (creation s.creating (join_path s.path name)) s in
      if nonempty name
      then if ok
        then record s' { creating = none; create_name = "" }
        else told (String.◌++◌ "Could not create " (String.◌++◌ name ".")) s'
      else s

  -- `download`, where the browser saves what the answer holds.
  unfoldable pub download : String → Bool → Tab → Tab
  download name ok s =
      let s' = sent (FilesApi.read server_id (join_path s.path name)) s in
      if ok
      then s'
      else told
          (String.◌++◌ "Could not download "
            (String.◌++◌ name " (files over 10 MB can't be downloaded here)."))
          s'
