-- ===== src/Api/Client.antt =====
-- The requests of a tab and the one token refresh that they share (`refreshPromise`,
-- `refreshAccessToken` and `apiRequest` of web/src/lib/api.ts) as a state machine. Each event is
-- one run of the browser's event loop: a call, a response, a lost connection, the reply to the
-- refresh, or an action of the session store.
use sky_panel.Base.{
  ℕ, zero, suc, String, Option, none, some, Bool, true, false, ◌&&◌, truthy, List, [], ◌∷◌, ◌++◌,
  map, ◌==◌, if◌then◌else◌,
}
use sky_panel.Wire.Account.{TokenPair}
use sky_panel.Auth.{Platform, State, Outcome, returned, threw, set_session, clear}
use sky_panel.Auth.Action.{Action, run}
use sky_panel.Api.{Call, Request, Response, Settled, broken, do_fetch, conclude}

-- Where a call of `apiRequest` waits: for its first response; for the refresh, with the 401 that
-- it received; for the response to its second request; or no more.
pub data Phase : Type 0 where
  asked : Phase
  queued : Response → Phase
  retried : Phase
  settled : Settled → Phase

-- A call and the requests that it has sent, the last one first.
pub record Task : Type 0 where
  pub call : Call
  pub phase : Phase
  pub sent : List Request

-- Whether `refreshPromise` is set, and the refresh tokens that were posted, the last one first.
pub record Refresher : Type 0 where
  pub refreshing : Bool
  pub posts : List String

pub record Client : Type 0 where
  pub auth : State
  pub refresher : Refresher
  pub tasks : List Task

-- What becomes of the POST to /auth/refresh: a status that is not ok, a failure of `fetch` or
-- `res.json()`, or a pair of tokens.
pub data RefreshReply : Type 0 where
  refused unreadable : RefreshReply
  tokens : TokenPair → RefreshReply

pub data Event : Type 0 where
  called : Call → Event
  replied : ℕ → Response → Event
  lost : ℕ → Event
  refreshed : RefreshReply → Event
  acted : Action → Event

-- `token = await refreshAccessToken(); if (token) res = await doFetch(token)`
unfoldable pub resume : String → Option String → Task → Task
resume base token t = elim t.phase [
  | queued r ↦
      if truthy token
      then record t { phase = retried; sent = do_fetch base t.call token ∷ t.sent }
      else record t { phase = settled (conclude r) }
  | _ ↦ t
]

-- `refreshAccessToken` up to its first `await`: a task that met a 401 joins the refresh, after
-- starting it if there is none. Without a refresh token it resumes at once with null.
unfoldable pub join_refresh : Option String → Response → Task → Refresher → Task × Refresher
join_refresh none r t f = (record t { phase = settled (conclude r) }, f)
join_refresh (some token) r t f =
    if truthy (some token)
    then (
      record t { phase = queued r },
      if f.refreshing then f else record { refreshing = true; posts = token ∷ f.posts },
    )
    else (record t { phase = settled (conclude r) }, f)

-- A response to a task's request. Only the first one can lead to a refresh.
unfoldable pub answer : Option String → Response → Task → Refresher → Task × Refresher
unfolding join_refresh
answer refresh_token r t f = elim t.phase [
  | asked ↦
      if r.status == 401 && t.call.auth
      then join_refresh refresh_token r t f
      else (record t { phase = settled (conclude r) }, f)
  | retried ↦ (record t { phase = settled (conclude r) }, f)
  | _ ↦ (t, f)
]

-- `fetch` rejects: so does the call.
unfoldable pub break_off : Task → Task
break_off t = elim t.phase [
  | asked ↦ record t { phase = settled broken }
  | retried ↦ record t { phase = settled broken }
  | _ ↦ t
]

-- The response to the request of the task at a position.
unfoldable pub answer_at :
    Option String → Response → ℕ → List Task → Refresher → List Task × Refresher
unfolding answer
answer_at refresh_token r i [] f = ([], f)
answer_at refresh_token r zero (t ∷ ts) f =
    let (t', f') = answer refresh_token r t f in (t' ∷ ts, f')
answer_at refresh_token r (suc i) (t ∷ ts) f =
    let (ts', f') = answer_at refresh_token r i ts f in (t ∷ ts', f')

unfoldable pub break_at : ℕ → List Task → List Task
unfolding break_off
break_at i [] = []
break_at zero (t ∷ ts) = break_off t ∷ ts
break_at (suc i) (t ∷ ts) = t ∷ break_at i ts

abbrev pub settled_session : Platform → TokenPair → Outcome → State → Option String × State
settled_session p t returned s = (some t.access_token, s)
settled_session p t threw s = (none, (clear p s).1)

-- The body of the refresh after its `fetch`: the token that it resolves to, and the session. When
-- `setSession` throws, its error is caught and the session is cleared.
unfoldable pub settle_refresh : Platform → RefreshReply → State → Option String × State
settle_refresh p refused s = (none, (clear p s).1)
settle_refresh p unreadable s = (none, (clear p s).1)
settle_refresh p (tokens t) s = let (r, s') = set_session p t s in settled_session p t r s'

module _ (p : Platform) (base : String) where
  -- The refresh settles: `finally` resets `refreshPromise`, and all that wait for it resume.
  unfoldable pub finish_refresh : RefreshReply → Client → Client
  unfolding settle_refresh resume
  finish_refresh reply c =
      if c.refresher.refreshing
      then (let (token, s) = settle_refresh p reply c.auth in
          record {
            auth = s;
            refresher = record { refreshing = false; posts = c.refresher.posts };
            tasks = map (resume base token) c.tasks;
          })
      else c

  unfoldable pub step : Event → Client → Client
  unfolding answer_at break_at finish_refresh
  step (called call) c = record c {
    tasks =
        c.tasks
        ++ record { call = call; phase = asked; sent = do_fetch base call c.auth.access_token ∷ [] }
          ∷ [];
  }
  step (replied i r) c =
      let (ts, f) = answer_at c.auth.refresh_token r i c.tasks c.refresher in
      record c { refresher = f; tasks = ts }
  step (lost i) c = record c { tasks = break_at i c.tasks }
  step (refreshed reply) c = finish_refresh reply c
  step (acted a) c = record c { auth = (run p a c.auth).1 }

  unfoldable pub steps : List Event → Client → Client
  unfolding step
  steps [] c = c
  steps (e ∷ es) c = steps es (step e c)

-- A tab after its loading.
abbrev pub fresh : State → Client
fresh s = record { auth = s; refresher = record { refreshing = false; posts = [] }; tasks = [] }
