-- ===== src/Tests/Topic.antt =====
-- web/src/lib/useTopic.ts at concrete events.
use sky_panel.Base.{String, some, none, List, [], ◌∷◌, ◌≡◌, refl}
use sky_panel.Base.Json.{str}
use sky_panel.Topic.{Event, opened, dropped, message, fired, subscribe, leave, steps}
use sky_panel.Topic.Reconnecting.{IsActive, steps-leave, subscribe-IsActive}

abbrev raw : String → String
raw s = s

abbrev life : List Event
life = opened ∷ message (some (str "hi")) ∷ dropped ∷ fired (some "a2") ∷ opened ∷ dropped ∷ []

life_test :
    let s = steps raw "ws://h" "t" life (subscribe raw "ws://h" "t" (some "a1")) in
    (s.urls ≡ "ws://h/ws?topics=t&access_token=a2" ∷ "ws://h/ws?topics=t&access_token=a1" ∷ [])
    × ((s.timer ≡ some 1000) × (s.received ≡ str "hi" ∷ []))
unfolding steps subscribe
life_test = (refl, (refl, refl))

steps-leave_example :
    let s = subscribe raw "ws://h" "t" (some "a1") in
    let s' = steps raw "ws://h" "t" life (leave s) in
    (s'.urls ≡ s.urls) × ((s'.received ≡ s.received) × (s'.timer ≡ none))
steps-leave_example = steps-leave raw "ws://h" "t" life (subscribe raw "ws://h" "t" (some "a1"))

subscribe-IsActive_example :
    IsActive (steps raw "ws://h" "t" life (subscribe raw "ws://h" "t" (some "a1")))
subscribe-IsActive_example =
    subscribe-IsActive raw "ws://h" "t" (some "a1") life
      (refl, (refl, (refl, (refl, (refl, (refl, tt))))))
