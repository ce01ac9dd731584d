-- ===== src/Servers/Requests.antt =====
-- The requests of web/src/pages/ServersListPage.tsx: a new server, a clone, and stars whose requests
-- overlap.
use sky_panel.Base.{
  String, Option, none, some, Bool, true, false, not, List, [], ◌∷◌, if◌then◌else◌, ◌≡◌, refl,
}
use sky_panel.Base.Json.{Json}
use sky_panel.Wire.Servers.{Server}
use sky_panel.Api.{Failure, message_or}
use sky_panel.Endpoints.Servers.{ServersApi}
use sky_panel.Servers.{Form, creation, on_mutate, on_error, on_mutate_lem, is_favorite}

-- `opened` is the page that `navigate` goes to.
pub record ListPage : Type 0 where
  pub form : Form
  pub show_form : Bool
  pub error : Option Json
  pub creating : Bool
  pub cloning : Bool
  pub opened : Option String

-- `onClick` of "+ New server"
unfoldable pub toggle_form : ListPage → ListPage
toggle_form p = record p { show_form = not p.show_form }

-- `onSubmit` of the form, whose button is disabled while a creation is under way
unfoldable pub submitted : ListPage → Option ServersApi × ListPage
unfolding creation
submitted p =
    if p.creating
    then (none, p)
    else (some (ServersApi.create (creation p.form)), record p { error = none; creating = true })

unfoldable pub created : ListPage → ListPage
created p = record p { creating = false; show_form = false; form = record (p.form) { name = "" } }

unfoldable pub creation_failed : Failure → ListPage → ListPage
creation_failed f p = record p {
  creating = false;
  error = some (message_or "Failed to create server" f);
}

-- `onClick` of "Clone", which is disabled while a clone is under way
unfoldable pub clone_clicked : String → ListPage → Option ServersApi × ListPage
clone_clicked id p =
    if p.cloning
    then (none, p)
    else (some (ServersApi.clone id), record p { error = none; cloning = true })

unfoldable pub cloned : Server → ListPage → ListPage
cloned s p = record p { cloning = false; opened = some s.id }

unfoldable pub clone_failed : Failure → ListPage → ListPage
clone_failed f p = record p {
  cloning = false;
  error = some (message_or "Failed to clone server" f);
}

-- The error stands in the form.
unfoldable pub shown_error : ListPage → Option Json
shown_error p = if p.show_form then p.error else none

-- What stands in a table without rows
unfoldable pub empty_text : Option (List Server) → String
empty_text none = "No servers yet — create one to get started."
empty_text (some []) = "No servers yet — create one to get started."
empty_text (some (s ∷ ss)) = "No servers match your filters."

-- A clone that fails while the form is closed shows no error; the error of the clone stands in the
-- form for a new server once that is opened.
pub clone_failed_hidden :
    (id : String) (f : Failure) (p : ListPage)
    → p.show_form ≡ false
    → p.cloning ≡ false
    → let after = clone_failed f (clone_clicked id p).1 in
      (shown_error after ≡ none)
      × (shown_error (toggle_form after) ≡ some (message_or "Failed to clone server" f))
unfolding clone_failed clone_clicked shown_error toggle_form
clone_failed_hidden id f p closed idle = rw (idle, closed) (refl, refl)

-- When the request for a star fails after another server was starred, which was not before, the
-- roll-back takes that star away too.
pub rollback_undoes :
    (a b : String) (cache : Option (List String))
    → is_favorite cache b ≡ false
    → let (starred, before_a) = on_mutate a true cache in
      let (both, before_b) = on_mutate b true starred in
      (is_favorite both b ≡ true) × (is_favorite (on_error before_a both) b ≡ false)
unfolding on_mutate on_error is_favorite
rollback_undoes a b cache fresh = ((on_mutate_lem b true (on_mutate a true cache).0).0, fresh)
