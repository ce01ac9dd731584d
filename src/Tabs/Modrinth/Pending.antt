-- ===== src/Tabs/Modrinth/Pending.antt =====
-- The buttons of web/src/components/server/ModrinthTab.tsx while installs are under way.
use sky_panel.Base.{
  ℕ, zero, suc, String, Option, none, some, Bool, true, false, List, [], ◌∷◌, map, ap, subst, sym,
  ◌∙◌, get_elem?, get_elem?-map, remove_at, map-remove_at, lookup, erase, lookup-insert,
  lookup-erase, ◌≡◌, refl, arith, inl, inr, ◌⊎◌, Bool-cases, Dict, truthy,
}
use sky_panel.Base.Sets.{has, IsUnique, has-remove_at, IsUnique-remove_at}
use sky_panel.Wire.Modrinth.{ModrinthHit, ModrinthVersion, ModrinthVersionFile}
use sky_panel.Api.{Failure}
use sky_panel.Tabs.Modrinth.{
  Tab, Task, State, Event, step, run, opened, press, with_file, is_true, failed, asked, asked_in,
  answered_in, answered, broken_off, with_versions, file_of, switch_kind, type_query, choose_loader,
  choose_version, found, search_failed, install_pressed, versions_answered, install_answered,
  install_failed,
}

-- The projects of the installs under way
abbrev pub under_way : List Task → List String
under_way = map (λ (k : Task). k.project_id)

-- A project is marked exactly while an install of it is under way, and no two of these are of one
-- project.
pub record IsMarked (s : State) : Type 0 where
  pub marked : (id : String) → is_true (lookup id s.tab.pending) ≡ has id (under_way s.tasks)
  pub unique : IsUnique (under_way s.tasks)

under_way-with_file :
    (name : String) (i : ℕ) (ks : List Task) → under_way (with_file name i ks) ≡ under_way ks
under_way-with_file name i [] = refl
under_way-with_file name zero (k ∷ ks) = refl
under_way-with_file name (suc i) (k ∷ ks) = ap (◌∷◌ k.project_id) (under_way-with_file name i ks)

-- The marks and the tasks after the install at `i` has ended, and after one has begun
IsMarked-remove_at :
    (i : ℕ) (k : Task) (s : State) (t : Tab)
    → IsMarked s
    → get_elem? i s.tasks ≡ some k
    → t.pending ≡ erase k.project_id s.tab.pending
    → IsMarked (record { tab = t; tasks = remove_at i s.tasks })
IsMarked-remove_at i k s t h e p =
    let ids = under_way s.tasks in
    let at = get_elem?-map (λ (k : Task). k.project_id) i s.tasks k e in
    let same = map-remove_at (λ (k : Task). k.project_id) i s.tasks in
    record {
      marked = λ id. ground (
        arith,
        lookup-erase k.project_id id s.tab.pending,
        h.marked id,
        p,
        same,
        has-remove_at i ids k.project_id id h.unique at,
      );
      unique = subst IsUnique (sym same) (IsUnique-remove_at i ids h.unique);
    }

IsMarked-press :
    (hit : ModrinthHit) (s : State)
    → IsMarked s
    → is_true (lookup hit.project_id s.tab.pending) ≡ false
    → IsMarked (press hit s)
unfolding press has IsUnique
IsMarked-press hit s h free = record {
  marked = λ id. ground (arith, lookup-insert hit.project_id id true s.tab.pending, h.marked id);
  unique = (sym (h.marked hit.project_id) ∙ free, h.unique);
}

IsMarked-failed :
    (i : ℕ) (e : Failure) (k : Task) (s : State)
    → IsMarked s
    → get_elem? i s.tasks ≡ some k
    → IsMarked (failed i e k s)
IsMarked-failed i e k s h at = IsMarked-remove_at i k s _ h at refl

IsMarked-with_versions :
    (i : ℕ) (r : Failure ⊎ ModrinthVersionFile) (k : Task) (s : State)
    → IsMarked s
    → get_elem? i s.tasks ≡ some k
    → IsMarked (with_versions i r k s)
IsMarked-with_versions i (inl e) k s h at = IsMarked-failed i e k s h at
IsMarked-with_versions i (inr f) k s h at =
    let same = sym (under_way-with_file f.filename i s.tasks) in
    record { marked = λ id. h.marked id ∙ ap (has id) same; unique = subst IsUnique same h.unique }

IsMarked-asked_in :
    (o : Option String) (i : ℕ) (vs : List ModrinthVersion) (k : Task) (s : State)
    → IsMarked s
    → get_elem? i s.tasks ≡ some k
    → IsMarked (asked_in o i vs k s)
IsMarked-asked_in none i vs k s h at = IsMarked-with_versions i (file_of vs) k s h at
IsMarked-asked_in (some f) i vs k s h at = h

IsMarked-asked :
    (i : ℕ) (vs : List ModrinthVersion) (o : Option Task) (s : State)
    → IsMarked s
    → get_elem? i s.tasks ≡ o
    → IsMarked (asked i vs o s)
IsMarked-asked i vs none s h at = h
IsMarked-asked i vs (some k) s h at = IsMarked-asked_in k.filename i vs k s h at

IsMarked-answered_in :
    (o : Option String) (i : ℕ) (k : Task) (s : State)
    → IsMarked s
    → get_elem? i s.tasks ≡ some k
    → IsMarked (answered_in o i k s)
IsMarked-answered_in none i k s h at = h
IsMarked-answered_in (some f) i k s h at = IsMarked-remove_at i k s _ h at refl

IsMarked-answered :
    (i : ℕ) (o : Option Task) (s : State)
    → IsMarked s
    → get_elem? i s.tasks ≡ o
    → IsMarked (answered i o s)
IsMarked-answered i none s h at = h
IsMarked-answered i (some k) s h at = IsMarked-answered_in k.filename i k s h at

IsMarked-broken_off :
    (i : ℕ) (e : Failure) (o : Option Task) (s : State)
    → IsMarked s
    → get_elem? i s.tasks ≡ o
    → IsMarked (broken_off i e o s)
IsMarked-broken_off i e none s h at = h
IsMarked-broken_off i e (some k) s h at = IsMarked-failed i e k s h at

-- An event that changes neither the marks nor the tasks
kept :
    (s : State) (t : Tab) → t.pending ≡ s.tab.pending → IsMarked s → IsMarked (record s { tab = t })
kept s t e h = record {
  marked = λ id. ap (λ (d : Dict Bool). is_true (lookup id d)) e ∙ h.marked id;
  unique = h.unique;
}

IsMarked-step : (e : Event) (s : State) → IsMarked s → IsMarked (step e s)
unfolding step
IsMarked-step (switch_kind kind) s h = kept s _ refl h
IsMarked-step (type_query q) s h = kept s _ refl h
IsMarked-step (choose_loader l) s h = kept s _ refl h
IsMarked-step (choose_version v) s h = kept s _ refl h
IsMarked-step (found r) s h = kept s _ refl h
IsMarked-step (search_failed e) s h = kept s _ refl h
IsMarked-step (install_pressed hit) s h =
    elim (Bool-cases (is_true (lookup hit.project_id s.tab.pending))) [
      | inl e ↦ rw e h
      | inr e ↦ rw e (elim (Bool-cases (truthy (lookup hit.project_id s.tab.installed))) [
        | inl k ↦ rw k h
        | inr k ↦ rw k (IsMarked-press hit s h e)
      ])
    ]
IsMarked-step (versions_answered i vs) s h = IsMarked-asked i vs _ s h refl
IsMarked-step (install_answered i) s h = IsMarked-answered i _ s h refl
IsMarked-step (install_failed i e) s h = IsMarked-broken_off i e _ s h refl

run-IsMarked_of : (es : List Event) (s : State) → IsMarked s → IsMarked (run es s)
unfolding run
run-IsMarked_of [] s h = h
run-IsMarked_of (e ∷ es) s h = run-IsMarked_of es (step e s) (IsMarked-step e s h)

opened-IsMarked : IsMarked opened
unfolding opened has IsUnique lookup
opened-IsMarked = record { marked = λ id. refl; unique = tt }

-- From the moment the tab is opened and for as long as it stays mounted, with installs that overlap
-- and end in any order, a project is marked as pending, which disables its button, exactly while an
-- install of it that was started there is under way, and no two of these installs are of one project.
pub run-IsMarked : (es : List Event) → IsMarked (run es opened)
run-IsMarked es = run-IsMarked_of es opened opened-IsMarked
