-- ===== src/Api/Settling.antt =====
-- How a call settles (`apiRequest` of web/src/lib/api.ts).
use sky_panel.Base.{
  ℕ, String, Option, none, some, true, false, ◌≡◌, ◌≢◌, ◌⊎◌, inl, inr, refl, List, [], ◌∷◌, map,
  ◌≤◌, ◌<◌, All, arith, if◌then◌else◌, Bool-cases, nonempty,
}
use sky_panel.Base.Json.{Json}
use sky_panel.Wire.Account.{TokenPair}
use sky_panel.Auth.{Platform, State, returned, set_session, clear, of_tokens}
use sky_panel.Auth.Impersonation.{Holds}
use sky_panel.Api.{
  ApiError, Response, resolved, failed, broken, is_ok, api_error, do_fetch, conclude,
}
use sky_panel.Api.Client.{
  Phase, asked, queued, retried, settled, Task, Refresher, Client, RefreshReply, refused,
  unreadable, tokens, Event, refreshed, resume, answer, break_off, settle_refresh, settled_session,
  step, steps, fresh,
}
use sky_panel.Api.Tasks.{waits, IsFrugal}
use sky_panel.Api.Flight.{steps-IsOrderly}

-- How the promise of a call settles by the last response: a status from 200 to 299 resolves it,
-- with undefined if the status is 204 and with the parsed body if not, or rejects it with a
-- parser's error where the body is no JSON; any other status rejects it with an ApiError that
-- carries that status.
pub conclude_cases :
    (r : Response)
    → ((r.status ≡ 204) × (conclude r ≡ resolved none))
      ⊎ ((200 ≤ r.status)
          × (r.status ≤ 299)
          × (r.status ≢ 204)
          × (v : Json) × (r.json ≡ some v)
          × (conclude r ≡ resolved (some v)))
      ⊎ ((200 ≤ r.status)
          × (r.status ≤ 299)
          × (r.status ≢ 204)
          × (r.json ≡ none)
          × (conclude r ≡ broken))
      ⊎ (((r.status < 200) ⊎ (299 < r.status))
          × (e : ApiError) × (e.status ≡ r.status)
          × (conclude r ≡ failed e))
unfolding conclude
conclude_cases r = elim (Bool-cases (is_ok r)) [
  | inl e ↦ ground arith
  | inr e ↦ inr (inr (inr (ground arith, api_error r, ground arith, ground arith)))
]

-- How many changes of phase a task has ahead of it at most.
abbrev pub rank : Task → ℕ
rank t = elim t.phase [ asked ↦ 3 | queued r ↦ 2 | retried ↦ 1 | settled o ↦ 0 ]

-- A call makes progress at each thing that happens to it: at a response or a lost connection
-- unless it waits for the refresh or has settled, and at the end of the refresh if it waits for
-- that. From rank 3 it so settles after at most three of these; what has settled never changes.
pub progress :
    (base : String) (token refresh_token : Option String) (r : Response) (t : Task) (f : Refresher)
    → let a = (answer refresh_token r t f).0 in
      let b = break_off t in
      let c = resume base token t in
      ((rank a < rank t) ⊎ ((a ≡ t) × ((waits t ≡ true) ⊎ (rank t ≡ 0))))
      × ((rank b < rank t) ⊎ ((b ≡ t) × ((waits t ≡ true) ⊎ (rank t ≡ 0))))
      × ((rank c < rank t) ⊎ ((c ≡ t) × (waits t ≡ false)))
unfolding answer break_off resume
progress base token refresh_token r t f = ground arith

-- Two lists of tasks, related one by one.
abbrev pub Each : (Task → Task → Type 0) → List Task → List Task → Type 0
Each R [] [] = Unit
Each R (t ∷ ts) (u ∷ us) = R t u × Each R ts us
Each R _ _ = ⊥

-- A task that waited has sent its request again, with the new token; the others are as before.
abbrev pub IsRetry : String → String → Task → Task → Type 0
IsRetry base token t u =
    ((waits t ≡ false) × (u ≡ t))
    ⊎ ((waits t ≡ true)
        × (u.call ≡ t.call)
        × (u.phase ≡ retried)
        × (u.sent ≡ do_fetch base t.call (some token) ∷ t.sent))

-- A task that waited has rejected with an ApiError of status 401; the others are as before.
abbrev pub IsRefusal : Task → Task → Type 0
IsRefusal t u =
    ((waits t ≡ false) × (u ≡ t))
    ⊎ ((waits t ≡ true)
        × (e : ApiError) × (e.status ≡ 401)
        × (u.phase ≡ settled (failed e))
        × (u.sent ≡ t.sent))

module _ (base : String) (token : String) (full : nonempty token ≡ true) where
  resume-IsRetry : (t : Task) → IsRetry base token t (resume base (some token) t)
  unfolding resume
  resume-IsRetry t = ground arith

  map-resume-IsRetry :
      (ts : List Task) → Each (IsRetry base token) ts (map (resume base (some token)) ts)
  map-resume-IsRetry [] = tt
  map-resume-IsRetry (t ∷ ts) = (resume-IsRetry t, map-resume-IsRetry ts)

conclude_401 :
    (r : Response)
    → r.status ≡ 401
    → (conclude r ≡ failed (api_error r)) × ((api_error r).status ≡ 401)
unfolding conclude
conclude_401 r h = ground arith

refused-IsRefusal : (base : String) (t : Task) → IsFrugal t → IsRefusal t (resume base none t)
unfolding resume
refused-IsRefusal base t h = go t.phase refl
  where
    go : (f : Phase) → t.phase ≡ f → IsRefusal t (resume base none t)
    go asked e = ground arith
    go (queued r) e = inr (
      ground arith,
      api_error r,
      ground (arith, conclude_401 r),
      ground (arith, conclude_401 r),
      ground arith,
    )
    go retried e = ground arith
    go (settled o) e = ground arith

map-resume-IsRefusal :
    (base : String) (ts : List Task)
    → All IsFrugal ts
    → Each IsRefusal ts (map (resume base none) ts)
map-resume-IsRefusal base [] h = tt
map-resume-IsRefusal base (t ∷ ts) h =
    (refused-IsRefusal base t h.0, map-resume-IsRefusal base ts h.1)

-- When the refresh in flight brings new tokens that localStorage has room for, the tab holds them,
-- no refresh is in flight any more, and exactly the calls that waited have sent their requests
-- again, each with the new access token.
pub refresh_success :
    (p : Platform) (base : String) (c : Client) (t : TokenPair)
    → c.refresher.refreshing ≡ true
    → nonempty t.access_token ≡ true
    → (set_session p t c.auth).0 ≡ returned
    → let c' = step p base (refreshed (tokens t)) c in
      Holds (of_tokens t) c'.auth
      × (c'.refresher.refreshing ≡ false)
      × Each (IsRetry base t.access_token) c.tasks c'.tasks
unfolding step settle_refresh set_session
refresh_success p base c t flying full room = (
  ground arith,
  ground arith,
  rw (flying, if◌then◌else◌)
      (rw (room, settled_session) (map-resume-IsRetry base t.access_token full c.tasks)),
)

-- The replies after which `refreshAccessToken` calls `clear`.
abbrev pub IsFailure : RefreshReply → Type 0
IsFailure refused = Unit
IsFailure unreadable = Unit
IsFailure (tokens t) = ⊥

refresh_failure_tasks :
    (p : Platform) (base : String) (c : Client) (reply : RefreshReply)
    → IsFailure reply
    → c.refresher.refreshing ≡ true
    → All IsFrugal c.tasks
    → Each IsRefusal c.tasks (step p base (refreshed reply) c).tasks
unfolding step settle_refresh
refresh_failure_tasks p base c refused fails flying h =
    simp flying (map-resume-IsRefusal base c.tasks h)
refresh_failure_tasks p base c unreadable fails flying h =
    simp flying (map-resume-IsRefusal base c.tasks h)
refresh_failure_tasks p base c (tokens t) fails flying h = absurd fails

refresh_failure_auth :
    (p : Platform) (base : String) (c : Client) (reply : RefreshReply)
    → IsFailure reply
    → c.refresher.refreshing ≡ true
    → let c' = step p base (refreshed reply) c in
      (c'.auth ≡ (clear p c.auth).1) × (c'.refresher.refreshing ≡ false)
unfolding step settle_refresh
refresh_failure_auth p base c refused fails flying = ground arith
refresh_failure_auth p base c unreadable fails flying = ground arith
refresh_failure_auth p base c (tokens t) fails flying = absurd fails

-- When the refresh in flight fails, whatever the tab went through before, the session is signed
-- out as by `clear`, no refresh is in flight any more, and exactly the calls that waited have
-- rejected with an ApiError of status 401, with no further request sent.
pub refresh_failure :
    (p : Platform) (base : String) (s : State) (es : List Event) (reply : RefreshReply)
    → IsFailure reply
    → (steps p base es (fresh s)).refresher.refreshing ≡ true
    → let c = steps p base es (fresh s) in
      let c' = step p base (refreshed reply) c in
      (c'.auth ≡ (clear p c.auth).1)
      × (c'.refresher.refreshing ≡ false)
      × Each IsRefusal c.tasks c'.tasks
refresh_failure p base s es reply fails flying =
    let c = steps p base es (fresh s) in
    let (auth, landed) = refresh_failure_auth p base c reply fails flying in
    let h = steps-IsOrderly p base es (fresh s) (record { served = tt; frugal = tt }) in
    (auth, landed, refresh_failure_tasks p base c reply fails flying h.frugal)
