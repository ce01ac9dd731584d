-- ===== src/Admin/Servers/Selection.antt =====
-- Which servers the bulk actions of web/src/components/admin/AdminServersTab.tsx touch.
use sky_panel.Base.{
  String, Bool, true, false, not, ◌&&◌, ◌||◌, List, [], ◌∷◌, map, keep, length, str_eq, eq_iff,
  if◌then◌else◌, ◌≡◌, refl, arith, Bool-cases, inl, inr,
}
use sky_panel.Base.Sets.{
  has, add, delete, IsUnique, has-add, has-delete, has-keep, IsUnique-add, IsUnique-delete,
  IsUnique-keep,
}
use sky_panel.Base.Json.{Json}
use sky_panel.Api.{api, other}
use sky_panel.Admin.Servers.{
  Tab, opened, Action, loaded, toggle, toggle_all, type_filter, removed, transferred, purged,
  purge_failed, bulk_done, note_timeout, flip_ports, flip_transfer, choose_owner, suspension,
  suspend_each, bulk_suspend, shown_ids, all_shown_selected, selected_ids, step, run, add_all,
  delete_all,
}

has-add_all :
    (j : String) (ids set : List String) → has j (add_all ids set) ≡ (has j ids || has j set)
unfolding has
has-add_all j [] set = refl
has-add_all j (id ∷ ids) set = ground (arith, has-add_all j ids (add id set), has-add j id set)

has-delete_all :
    (j : String) (ids set : List String)
    → has j (delete_all ids set) ≡ (if has j ids then false else has j set)
unfolding has
has-delete_all j [] set = refl
has-delete_all j (id ∷ ids) set =
    ground (arith, has-delete_all j ids (delete id set), has-delete j id set)

IsUnique-add_all : (ids set : List String) → IsUnique set → IsUnique (add_all ids set)
IsUnique-add_all [] set h = h
IsUnique-add_all (id ∷ ids) set h = IsUnique-add_all ids (add id set) (IsUnique-add id set h)

IsUnique-delete_all : (ids set : List String) → IsUnique set → IsUnique (delete_all ids set)
IsUnique-delete_all [] set h = h
IsUnique-delete_all (id ∷ ids) set h =
    IsUnique-delete_all ids (delete id set) (IsUnique-delete id set h)

-- What an action does to a set of ids as such, `shown` being the rows and `all_of` whether there are
-- rows and all are selected.
unfoldable pub chosen_after :
    Action → (shown : String → Bool) (all_of : Bool) → (String → Bool) → String → Bool
chosen_after (toggle id) shown all_of chosen j = if str_eq id j then not (chosen j) else chosen j
chosen_after toggle_all shown all_of chosen j = if shown j then not all_of else chosen j
chosen_after (removed id) shown all_of chosen j = not (str_eq id j) && chosen j
chosen_after (purged r) shown all_of chosen j = false
chosen_after (bulk_done r) shown all_of chosen j = false
chosen_after _ shown all_of chosen j = chosen j

has-toggle :
    (id j : String) (set : List String)
    → has j (if has id set then delete id set else add id set)
      ≡ (if str_eq id j then not (has j set) else has j set)
has-toggle id j set = ground (arith, has-add j id set, has-delete j id set, eq_iff id j)

has-removed :
    (id j : String) (set : List String)
    → has j (if has id set then delete id set else set) ≡ (not (str_eq id j) && has j set)
has-removed id j set = ground (arith, has-delete j id set, eq_iff id j)

suspend_each-calls :
    (fails : String → Bool) (on : Bool) (ids : List String)
    → suspend_each fails on ids ≡ (map (suspension on) ids, keep fails ids)
unfolding suspend_each
suspend_each-calls fails on [] = refl
suspend_each-calls fails on (id ∷ ids) = rw (suspend_each-calls fails on ids) refl

module _ (lower trim : String → String) (includes : String → String → Bool)
    (text_of : Json → String) where
  -- The list of selected ids behaves as a set of ids: every action changes membership as
  -- `chosen_after` says. A click on the box of all rows changes only the rows that the filter shows.
  pub has-step :
      (a : Action) (t : Tab) (j : String)
      → has j (step lower trim includes text_of a t).selected
        ≡ chosen_after a
            (λ i. has i (shown_ids lower trim includes text_of t))
            (all_shown_selected lower trim includes text_of t)
            (λ i. has i t.selected)
            j
  unfolding step chosen_after
  has-step (toggle id) t j = has-toggle id j t.selected
  has-step toggle_all t j =
      let ids = shown_ids lower trim includes text_of t in
      elim (Bool-cases (all_shown_selected lower trim includes text_of t)) [
        | inl e ↦ rw e (has-delete_all j ids t.selected)
        | inr e ↦ rw e (ground (arith, has-add_all j ids t.selected))
      ]
  has-step (removed id) t j = has-removed id j t.selected
  has-step (purged r) t j = unfold has in refl
  has-step (bulk_done r) t j = unfold has in refl
  has-step (loaded l) t j = refl
  has-step (type_filter q) t j = refl
  has-step transferred t j = refl
  has-step (purge_failed (api e)) t j = refl
  has-step (purge_failed other) t j = refl
  has-step note_timeout t j = refl
  has-step (flip_ports i) t j = refl
  has-step (flip_transfer i) t j = refl
  has-step (choose_owner i) t j = refl

  IsUnique-if :
      (b : Bool) (xs ys : List String) → IsUnique xs → IsUnique ys → IsUnique (if b then xs else ys)
  IsUnique-if true xs ys hx hy = hx
  IsUnique-if false xs ys hx hy = hy

  IsUnique-step :
      (a : Action) (t : Tab)
      → IsUnique t.selected
      → IsUnique (step lower trim includes text_of a t).selected
  unfolding step
  IsUnique-step (toggle id) t h =
      IsUnique-if (has id t.selected) _ _ (IsUnique-delete id _ h) (IsUnique-add id _ h)
  IsUnique-step toggle_all t h =
      let ids = shown_ids lower trim includes text_of t in
      IsUnique-if (all_shown_selected lower trim includes text_of t) _ _
        (IsUnique-delete_all ids _ h) (IsUnique-add_all ids _ h)
  IsUnique-step (removed id) t h = IsUnique-if (has id t.selected) _ _ (IsUnique-delete id _ h) h
  IsUnique-step (purged r) t h = unfold IsUnique in tt
  IsUnique-step (bulk_done r) t h = unfold IsUnique in tt
  IsUnique-step (loaded l) t h = h
  IsUnique-step (type_filter q) t h = h
  IsUnique-step transferred t h = h
  IsUnique-step (purge_failed (api e)) t h = h
  IsUnique-step (purge_failed other) t h = h
  IsUnique-step note_timeout t h = h
  IsUnique-step (flip_ports i) t h = h
  IsUnique-step (flip_transfer i) t h = h
  IsUnique-step (choose_owner i) t h = h

  IsUnique-run :
      (acts : List Action) (t : Tab)
      → IsUnique t.selected
      → IsUnique (run lower trim includes text_of acts t).selected
  unfolding run
  IsUnique-run [] t h = h
  IsUnique-run (a ∷ acts) t h = IsUnique-run acts _ (IsUnique-step a t h)

  -- After any run of the tab, suspending or unsuspending the selection sends one call for each id
  -- that is selected and shown by the filter, in the order of selection, each id once, whatever calls
  -- fail; and the result counts the calls and names the ids whose call failed.
  pub bulk_suspend_lem :
      (acts : List Action) (fails : String → Bool) (on : Bool)
      → let t = run lower trim includes text_of acts opened in
        let ids = selected_ids lower trim includes text_of t in
        (bulk_suspend fails ids on ≡ (
          map (suspension on) ids,
          record { total = length ids; failed = keep fails ids; on = on },
        ))
        × (IsUnique ids
            × ((j : String)
                → has j ids
                  ≡ (has j t.selected && has j (shown_ids lower trim includes text_of t))))
  unfolding bulk_suspend selected_ids
  bulk_suspend_lem acts fails on =
      let t = run lower trim includes text_of acts opened in
      let shown : String → Bool = λ id. has id (shown_ids lower trim includes text_of t) in
      (
        rw (suspend_each-calls fails on _) refl,
        (
          IsUnique-keep shown t.selected (IsUnique-run acts opened (unfold IsUnique in tt)),
          λ j. has-keep shown j t.selected,
        ),
      )
