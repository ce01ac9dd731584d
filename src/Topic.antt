-- ===== src/Topic.antt =====
-- web/src/lib/useTopic.ts: one subscription over a WebSocket, from the effect's start to its
-- clean-up. The events are the browser's: what the socket does, and the timer's end.
pub mod Reconnecting
pub mod Backoff
use Prim.Native.String
use sky_panel.Base.{
  ℕ, suc, zero, ◌*◌, min, Char, code, String, Option, none, some, Bool, true, false, List, [], ◌∷◌,
  ◌++◌, str_eq, nonempty, ◌==◌, if◌then◌else◌, ◌≡◌, refl,
}
use sky_panel.Base.Json.{Json}

-- What is left of a text after a prefix.
unfoldable pub after : String → String → Option String
after String.[] s = some s
after (String.◌∷◌ c p) String.[] = none
after (String.◌∷◌ c p) (String.◌∷◌ d s) =
    let rest = after p s in if code c == code d then rest else none

pub record Location : Type 0 where
  pub protocol : String
  pub host : String

-- `api_base.replace(/^http/, "ws")`
abbrev to_ws : String → Option String → String
to_ws api_base none = api_base
to_ws api_base (some rest) = String.◌++◌ "ws" rest

unfoldable pub ws_base_for : String → Location → String
unfolding after
ws_base_for api_base location =
    if nonempty api_base
    then to_ws api_base (after "http" api_base)
    else String.◌++◌ (if str_eq location.protocol "https:" then "wss:" else "ws:")
        (String.◌++◌ "//" location.host)

-- `socket.readyState`
pub data ReadyState : Type 0 where
  connecting live closing closed : ReadyState

-- The variables of the effect, with the delay of the timer that is running, the URLs of the
-- sockets that were made, the last one first, and what `onMessage` was given.
pub record Subscription : Type 0 where
  pub socket : ReadyState
  pub closed_by_us : Bool
  pub backoff : ℕ
  pub timer : Option ℕ
  pub urls : List String
  pub received : List Json

-- `dropped` is the socket's close event; a frame that `JSON.parse` refuses is `none`; the timer
-- ends with the access token of that moment.
pub data Event : Type 0 where
  opened dropped left : Event
  message : Option Json → Event
  fired : Option String → Event

abbrev text_of : Option String → String
text_of none = ""
text_of (some token) = token

-- `socket.onclose`
unfoldable pub on_close : Subscription → Subscription
on_close s =
    if s.closed_by_us
    then record s { socket = closed }
    else record s { socket = closed; timer = some s.backoff; backoff = min (s.backoff * 2) 15000 }

-- `socket.onmessage`
abbrev pub on_message : Option Json → Subscription → Subscription
on_message none s = s
on_message (some frame) s = record s { received = s.received ++ frame ∷ [] }

-- `socket.close()`
abbrev pub close : ReadyState → ReadyState
close connecting = closing
close live = closing
close closing = closing
close closed = closed

-- The effect's clean-up function
unfoldable pub leave : Subscription → Subscription
leave s = record s { closed_by_us = true; timer = none; socket = close s.socket }

-- `socket.onopen`, and what an event does in each state of the socket: an event that cannot happen
-- there changes nothing.
abbrev pub open_in : ReadyState → Subscription → Subscription
open_in connecting s = record s { socket = live; backoff = 1000 }
open_in _ s = s

unfoldable pub drop_in : ReadyState → Subscription → Subscription
unfolding on_close
drop_in closed s = s
drop_in _ s = on_close s

abbrev pub message_in : ReadyState → Option Json → Subscription → Subscription
message_in live frame s = on_message frame s
message_in _ frame s = s

module _ (encode : String → String) (ws_base topic : String) where
  abbrev pub url : Option String → String
  url token = String.◌++◌ ws_base (
      String.◌++◌ "/ws?topics="
        (String.◌++◌ (encode topic) (String.◌++◌ "&access_token=" (encode (text_of token)))))

  -- `connect`
  unfoldable pub connect : Option String → Subscription → Subscription
  connect token s = record s { socket = connecting; urls = url token ∷ s.urls }

  unfoldable pub subscribe : Option String → Subscription
  unfolding connect
  subscribe token = connect token (record {
    socket = closed;
    closed_by_us = false;
    backoff = 1000;
    timer = none;
    urls = [];
    received = [];
  })

  -- The timer ends, if it is running.
  unfoldable pub ring_in : Option ℕ → Option String → Subscription → Subscription
  unfolding connect
  ring_in none token s = s
  ring_in (some delay) token s = connect token (record s { timer = none })

  unfoldable pub step : Event → Subscription → Subscription
  unfolding drop_in ring_in leave
  step opened s = open_in s.socket s
  step dropped s = drop_in s.socket s
  step left s = leave s
  step (message frame) s = message_in s.socket frame s
  step (fired token) s = ring_in s.timer token s

  unfoldable pub steps : List Event → Subscription → Subscription
  unfolding step
  steps [] s = s
  steps (e ∷ es) s = steps es (step e s)

ws_base_for_tests :
    (ws_base_for "https://panel.dev" (record { protocol = "http:"; host = "h" })
      ≡ "wss://panel.dev")
    × (ws_base_for "" (record { protocol = "https:"; host = "h:8080" }) ≡ "wss://h:8080")
unfolding ws_base_for
ws_base_for_tests = (refl, refl)
