-- ===== src/Tests/Api.antt =====
-- web/src/lib/api.ts at concrete calls.
use sky_panel.Base.{
  String, none, some, true, false, ◌≡◌, ◌≢◌, ◌⊎◌, ◌≤◌, ◌<◌, ◌+◌, refl, List, [], ◌∷◌, All, any,
  length, lookup, insert, erase,
}
use sky_panel.Base.Json.{Json, str}
use sky_panel.Base.Decimal.{show}
use sky_panel.Auth.{
  boot, set_session, begin_impersonation, clear, of_tokens, complete, load_stored, load_backup,
}
use sky_panel.Auth.Action.{Action, run}
use sky_panel.Auth.Impersonation.{Holds}
use sky_panel.Api.{Call, Response, ApiError, resolved, failed, broken, do_fetch, conclude}
use sky_panel.Api.Client.{
  asked, Task, Client, Refresher, Event, called, replied, refreshed, acted, refused, tokens, step,
  steps, fresh, answer, break_off, resume,
}
use sky_panel.Api.Tasks.{waits}
use sky_panel.Api.Flight.{no_stray_waiting, replies, single_flight}
use sky_panel.Api.Settling.{
  rank, progress, conclude_cases, Each, IsRetry, IsRefusal, refresh_success, refresh_failure,
}
use sky_panel.Api.Races.{sign_out_undone, view_as_undone}
use sky_panel.Tests.Session.{roomy, roomy-IsFaithful, ann_tokens, bob_tokens, signed_in}

abbrev base : String
base = "http://panel"

abbrev servers : Call
servers = record { path = "/api/v1/servers"; method = "GET"; body = none; auth = true }

abbrev ok : Response
ok = record { status = 200; json = some (str "[]") }

abbrev expired : Response
expired = record { status = 401; json = none }

-- Two calls meet a 401: one refresh is posted, and both wait for it.
abbrev two_calls : List Event
two_calls = called servers ∷ called servers ∷ replied 0 expired ∷ replied 1 expired ∷ []

abbrev waiting : Client
waiting = steps roomy base two_calls (fresh (signed_in roomy))

client : Unit {0}
unfolding steps do_fetch conclude boot set_session begin_impersonation clear run lookup insert erase
    load_stored load_backup show complete
client = tt

waiting_test : (waiting.refresher.posts ≡ "r1" ∷ []) × (waiting.refresher.refreshing ≡ true)
unfolding client
waiting_test = (refl, refl)

retry_test :
    (steps roomy base (refreshed (tokens bob_tokens) ∷ replied 0 ok ∷ []) waiting).auth.access_token
    ≡ some "a2"
unfolding client
retry_test = refl

no_stray_waiting_example :
    ((waiting.refresher.refreshing ≡ true) ⊎ (any waits waiting.tasks ≡ false))
    × All (λ (t : Task). length t.sent ≤ 2) waiting.tasks
no_stray_waiting_example = no_stray_waiting roomy base (signed_in roomy) two_calls

single_flight_example : length waiting.refresher.posts ≤ replies two_calls + 1
single_flight_example = single_flight roomy base (signed_in roomy) two_calls

conclude_cases_example :
    ((expired.status ≡ 204) × (conclude expired ≡ resolved none))
    ⊎ ((200 ≤ expired.status)
        × (expired.status ≤ 299)
        × (expired.status ≢ 204)
        × (v : Json) × (expired.json ≡ some v)
        × (conclude expired ≡ resolved (some v)))
    ⊎ ((200 ≤ expired.status)
        × (expired.status ≤ 299)
        × (expired.status ≢ 204)
        × (expired.json ≡ none)
        × (conclude expired ≡ broken))
    ⊎ (((expired.status < 200) ⊎ (299 < expired.status))
        × (e : ApiError) × (e.status ≡ expired.status)
        × (conclude expired ≡ failed e))
conclude_cases_example = conclude_cases expired

abbrev task : Task
task = record { call = servers; phase = asked; sent = [] }

abbrev idle : Refresher
idle = record { refreshing = false; posts = [] }

progress_example :
    let a = (answer (some "r1") expired task idle).0 in
    let b = break_off task in
    let c = resume base none task in
    ((rank a < rank task) ⊎ ((a ≡ task) × ((waits task ≡ true) ⊎ (rank task ≡ 0))))
    × ((rank b < rank task) ⊎ ((b ≡ task) × ((waits task ≡ true) ⊎ (rank task ≡ 0))))
    × ((rank c < rank task) ⊎ ((c ≡ task) × (waits task ≡ false)))
progress_example = progress base none (some "r1") expired task idle

refresh_success_example :
    let c' = step roomy base (refreshed (tokens bob_tokens)) waiting in
    Holds (of_tokens bob_tokens) c'.auth
    × (c'.refresher.refreshing ≡ false)
    × Each (IsRetry base "a2") waiting.tasks c'.tasks
unfolding client
refresh_success_example = refresh_success roomy base waiting bob_tokens refl refl refl

refresh_failure_example :
    let c' = step roomy base (refreshed refused) waiting in
    (c'.auth ≡ (clear roomy waiting.auth).1)
    × (c'.refresher.refreshing ≡ false)
    × Each IsRefusal waiting.tasks c'.tasks
unfolding client
refresh_failure_example = refresh_failure roomy base (signed_in roomy) two_calls refused tt refl

sign_out_undone_example :
    let out = step roomy base (acted Action.sign_out) waiting in
    let c' = step roomy base (refreshed (tokens ann_tokens)) out in
    (out.auth.user ≡ none)
    × Holds (of_tokens ann_tokens) c'.auth
    × (load_stored roomy c'.auth.storage ≡ some (of_tokens ann_tokens))
unfolding client
sign_out_undone_example = sign_out_undone roomy roomy-IsFaithful base waiting ann_tokens refl refl

view_as_undone_example :
    let viewing = step roomy base (acted (Action.view_as bob_tokens)) waiting in
    let c' = step roomy base (refreshed (tokens ann_tokens)) viewing in
    Holds (of_tokens bob_tokens) viewing.auth
    × Holds (of_tokens ann_tokens) c'.auth
    × (c'.auth.impersonating ≡ true)
    × (load_backup roomy c'.auth.storage ≡ some (of_tokens ann_tokens))
    × (c'.refresher.posts ≡ ann_tokens.refresh_token ∷ [])
unfolding client
view_as_undone_example =
    view_as_undone roomy roomy-IsFaithful base waiting (of_tokens ann_tokens) bob_tokens ann_tokens
      [] refl refl refl refl refl refl
