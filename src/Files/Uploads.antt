-- ===== src/Files/Uploads.antt =====
-- What `upload` of web/src/components/server/FilesTab.tsx sends and reports.
use sky_panel.Base.{
  ℕ, suc, zero, ◌+◌, ◌-◌, String, Option, none, some, Bool, true, not, ◌&&◌, List, [], ◌∷◌, map,
  keep, any, length, ◌≡◌, refl, ap, ◌∙◌, arith, lt→ltb,
}
use sky_panel.Files.{
  Tab, Notice, PickedFile, too_big, is_empty, notice_parts, notice_of, write_of, send_all, before,
  upload,
}

-- Whether the writes from the i-th on all succeed.
abbrev pub all_accepted : (ℕ → Bool) → ℕ → List PickedFile → Bool
all_accepted accepted i [] = true
all_accepted accepted i (f ∷ fs) = accepted i && all_accepted accepted (suc i) fs

-- No notice only of no files; otherwise a notice that is good news exactly as `good` says.
abbrev pub Reports : List PickedFile → Bool → Option Notice → Type 0
Reports files good none = files ≡ []
Reports files good (some n) = n.ok ≡ good

abbrev Told : ℕ → (skipped failed : List String) → Option Notice → Type 0
Told uploaded skipped failed none = (uploaded ≡ 0) × ((skipped ≡ []) × (failed ≡ []))
Told uploaded skipped failed (some n) = n.ok ≡ (is_empty failed && is_empty skipped)

notice-Told :
    (uploaded : ℕ) (skipped failed : List String)
    → Told uploaded skipped failed (notice_of (notice_parts uploaded skipped failed) skipped failed)
unfolding notice_parts
notice-Told zero [] [] = (refl, (refl, refl))
notice-Told (suc n) [] [] = rw (lt→ltb 0 (suc n) (omega arith)) refl
notice-Told zero [] (x ∷ xs) = refl
notice-Told (suc n) [] (x ∷ xs) = rw (lt→ltb 0 (suc n) (omega arith)) refl
notice-Told zero (y ∷ ys) [] = refl
notice-Told (suc n) (y ∷ ys) [] = rw (lt→ltb 0 (suc n) (omega arith)) refl
notice-Told zero (y ∷ ys) (x ∷ xs) = refl
notice-Told (suc n) (y ∷ ys) (x ∷ xs) = rw (lt→ltb 0 (suc n) (omega arith)) refl

length-keep_split :
    (files : List PickedFile)
    → length (keep too_big files) + length (keep (λ f. not (too_big f)) files) ≡ length files
length-keep_split [] = omega arith
length-keep_split (f ∷ files) = ground (arith, length-keep_split files)

is_empty-skipped :
    (files : List PickedFile)
    → is_empty (map (λ (f : PickedFile). f.name) (keep too_big files)) ≡ not (any too_big files)
is_empty-skipped [] = refl
is_empty-skipped (f ∷ files) = ground (arith, is_empty-skipped files)

no_files : (files : List PickedFile) → length files ≡ 0 → files ≡ []
no_files [] h = refl
no_files (f ∷ files) h = absurd (omega (arith, h))

length-map_name : (fs : List PickedFile) → length (map (λ (f : PickedFile). f.name) fs) ≡ length fs
length-map_name [] = refl
length-map_name (f ∷ fs) = omega (arith, length-map_name fs)

Reports-of :
    (files : List PickedFile) (uploaded : ℕ) (skipped failed : List String) (good : Bool)
    (n : Option Notice)
    → Told uploaded skipped failed n
    → (uploaded ≡ 0 → skipped ≡ [] → failed ≡ [] → files ≡ [])
    → (is_empty failed && is_empty skipped) ≡ good
    → Reports files good n
Reports-of files uploaded skipped failed good none (u, (k, f)) nothing e = nothing u k f
Reports-of files uploaded skipped failed good (some n) told nothing e = told ∙ e

and_swap : (a b c d : Bool) → a ≡ c → b ≡ d → (a && b) ≡ (d && c)
and_swap a b c d e h = ground arith

module _ (server_id : String) (encoded : PickedFile → String) (accepted : ℕ → Bool) where
  send_all-requests :
      (dir : String) (rel_of : PickedFile → String) (i : ℕ) (fs : List PickedFile)
      → (send_all server_id encoded accepted dir rel_of i fs).0
        ≡ map (write_of server_id encoded dir rel_of) fs
  unfolding send_all
  send_all-requests dir rel_of i [] = refl
  send_all-requests dir rel_of i (f ∷ fs) =
      ap (λ rs. write_of server_id encoded dir rel_of f ∷ rs)
        (send_all-requests dir rel_of (suc i) fs)

  send_all-failed :
      (dir : String) (rel_of : PickedFile → String) (i : ℕ) (fs : List PickedFile)
      → is_empty (send_all server_id encoded accepted dir rel_of i fs).1
        ≡ all_accepted accepted i fs
  unfolding send_all
  send_all-failed dir rel_of i [] = refl
  send_all-failed dir rel_of i (f ∷ fs) = ground (arith, send_all-failed dir rel_of (suc i) fs)

  -- An upload writes every picked file that is not over 10 MB, each once and in order, under its
  -- path below the directory, and no other; then it reports, unless no file was picked, and the
  -- report is good news exactly when no file was too big and every write succeeded.
  pub upload_lem :
      (files : List PickedFile) (rel_of : PickedFile → String) (s : Tab)
      → let eligible = keep (λ f. not (too_big f)) files in
        let s' = upload server_id encoded accepted files rel_of s in
        (s'.requests ≡ before (map (write_of server_id encoded s.path rel_of) eligible) s.requests)
        × (Reports files (not (any too_big files) && all_accepted accepted 0 eligible) s'.notice
            × (s'.busy ≡ none))
  unfolding upload
  upload_lem files rel_of s =
      let eligible = keep (λ f. not (too_big f)) files in
      let skipped = map (λ (f : PickedFile). f.name) (keep too_big files) in
      let sent = send_all server_id encoded accepted s.path rel_of 0 eligible in
      let uploaded = length eligible - length sent.1 in
      (
        ap (λ rs. before rs s.requests) (send_all-requests s.path rel_of 0 eligible),
        (
          Reports-of files uploaded skipped sent.1
              (not (any too_big files) && all_accepted accepted 0 eligible)
              (notice_of (notice_parts uploaded skipped sent.1) skipped sent.1)
              (notice-Told uploaded skipped sent.1)
              (λ u k f. no_files files (
                omega (
                  arith,
                  u,
                  ap length k,
                  ap length f,
                  length-map_name (keep too_big files),
                  length-keep_split files,
                )))
              (and_swap (is_empty sent.1) (is_empty skipped) _ _
                (send_all-failed s.path rel_of 0 eligible) (is_empty-skipped files)),
          refl,
        ),
      )
