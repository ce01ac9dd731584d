-- ===== src/Files.antt =====
-- web/src/components/server/FilesTab.tsx: the file manager of one server. The panel's answers are
-- the environment's; the requests are recorded, the last one first.
pub mod Paths
pub mod Uploads
pub mod Entries
use Prim.Native.String
use sky_panel.Base.{
  ℕ, suc, zero, ◌+◌, ◌-◌, ◌*◌, ltb, ◌==◌, String, Option, none, some, Bool, true, false, not, ◌&&◌,
  List, [], ◌∷◌, ◌++◌, map, keep, length, nonempty, or_text, if◌then◌else◌,
}
use sky_panel.Base.Decimal.{show}
use sky_panel.Endpoints.Files.{FilesApi}
use sky_panel.Files.Paths.{join_path, join}

abbrev pub max_upload_bytes : ℕ
max_upload_bytes = 10 * 1024 * 1024

pub data Kind : Type 0 where
  file folder : Kind

-- What the banner says, and whether it is good news.
pub record Notice : Type 0 where
  pub text : String
  pub ok : Bool

pub record Tab : Type 0 where
  pub path : String
  pub editing_path : Option String
  pub editor_content : String
  pub creating : Option Kind
  pub create_name : String
  pub renaming : Option String
  pub rename_value : String
  pub busy : Option String
  pub notice : Option Notice
  pub requests : List FilesApi

-- A file that the user has picked.
pub record PickedFile : Type 0 where
  pub name : String
  pub webkit_relative_path : String
  pub size : ℕ

-- `f.webkitRelativePath || f.name`
abbrev pub tree_path : PickedFile → String
tree_path f = or_text f.webkit_relative_path f.name

abbrev pub too_big : PickedFile → Bool
too_big f = ltb max_upload_bytes f.size

abbrev is_empty : List String → Bool
is_empty [] = true
is_empty (x ∷ xs) = false

-- The texts of the notice: `parts.join(" ")` of what has something to say.
unfoldable pub notice_parts : (uploaded : ℕ) (skipped failed : List String) → List String
unfolding show
notice_parts uploaded skipped failed =
    (if ltb 0 uploaded
      then String.◌++◌ "Uploaded " (String.◌++◌ (show uploaded) " file(s).") ∷ []
      else [])
    ++ (if is_empty skipped
        then []
        else String.◌++◌ "Skipped (over 10 MB): " (String.◌++◌ (join ", " skipped) ".") ∷ [])
    ++ (if is_empty failed
        then []
        else String.◌++◌ "Failed: " (String.◌++◌ (join ", " failed) ".") ∷ [])

abbrev notice_of : List String → (skipped failed : List String) → Option Notice
notice_of [] skipped failed = none
notice_of (part ∷ parts) skipped failed =
    some (record { text = join " " (part ∷ parts); ok = is_empty failed && is_empty skipped })

-- The log after further requests, the first one first.
abbrev pub before : List FilesApi → List FilesApi → List FilesApi
before [] log = log
before (r ∷ rs) log = before rs (r ∷ log)

-- `encoded` is a file's bytes in base 64, which are taken to be readable.
module _ (server_id : String) (encoded : PickedFile → String) where
  -- `filesApi.write` of one file under the directory
  abbrev pub write_of : (dir : String) (rel_of : PickedFile → String) → PickedFile → FilesApi
  write_of dir rel_of f = FilesApi.write server_id (join_path dir (rel_of f)) (encoded f)

-- `accepted i` is whether the i-th write succeeds.
module _ (server_id : String) (encoded : PickedFile → String) (accepted : ℕ → Bool) where
  -- The loop from the file at `i` on: the requests and the failures, the first one first.
  unfoldable pub send_all :
      (dir : String) (rel_of : PickedFile → String)
      → ℕ
      → List PickedFile
      → List FilesApi × List String
  send_all dir rel_of i [] = ([], [])
  send_all dir rel_of i (f ∷ fs) =
      let (requests, failed) = send_all dir rel_of (suc i) fs in
      (
        write_of server_id encoded dir rel_of f ∷ requests,
        if accepted i then failed else rel_of f ∷ failed,
      )

  abbrev finish_upload :
      (eligible : List PickedFile) (skipped : List String) → List FilesApi × List String → Tab → Tab
  finish_upload eligible skipped (requests, failed) s = record s {
    busy = none;
    notice =
        notice_of (notice_parts (length eligible - length failed) skipped failed) skipped failed;
    requests = before requests s.requests;
  }

  unfoldable pub upload : List PickedFile → (PickedFile → String) → Tab → Tab
  unfolding send_all notice_parts
  upload files rel_of s =
      let eligible = keep (λ f. not (too_big f)) files in
      let skipped = map (λ (f : PickedFile). f.name) (keep too_big files) in
      finish_upload eligible skipped (send_all s.path rel_of 0 eligible) s
