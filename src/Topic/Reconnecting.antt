-- ===== src/Topic/Reconnecting.antt =====
-- When `useTopic` (web/src/lib/useTopic.ts) connects again, and when it does not.
use mathlib.Core.Path.{subst}
use sky_panel.Base.{
  ℕ, ◌*◌, ◌≤◌, min, String, Option, none, some, Bool, true, false, List, [], ◌∷◌, All,
  if◌then◌else◌, ◌≡◌, ◌⊎◌, inl, inr, refl, sym, ap, ◌∙◌, arith,
}
use sky_panel.Base.Json.{Json}
use sky_panel.Topic.{
  Subscription, ReadyState, connecting, live, closing, closed, Event, opened, dropped, left,
  message, fired, open_in, drop_in, message_in, on_message, ring_in, connect, subscribe, on_close,
  leave, step, steps, close,
}

-- Closed by us, and nothing is under way that could make a socket or deliver a message.
abbrev IsQuiet : Subscription → Type 0
IsQuiet s =
    (s.closed_by_us ≡ true) × ((s.timer ≡ none) × ((s.socket ≡ closing) ⊎ (s.socket ≡ closed)))

close_cases : (r : ReadyState) → (close r ≡ closing) ⊎ (close r ≡ closed)
close_cases connecting = inl refl
close_cases live = inl refl
close_cases closing = inl refl
close_cases closed = inr refl

leave-IsQuiet : (s : Subscription) → IsQuiet (leave s)
unfolding leave
leave-IsQuiet s = (refl, (refl, close_cases s.socket))

-- A socket is under way or a timer is running, and the delays are between one and fifteen seconds.
abbrev pub IsBounded : ℕ → Type 0
IsBounded n = (1000 ≤ n) × (n ≤ 15000)

abbrev pub IsActive : Subscription → Type 0
IsActive s =
    (s.closed_by_us ≡ false)
    × (IsBounded s.backoff
        × (((s.socket ≡ connecting) × (s.timer ≡ none))
            ⊎ (((s.socket ≡ live) × (s.timer ≡ none))
                ⊎ ((s.socket ≡ closed)
                    × ((delay : ℕ) × ((s.timer ≡ some delay) × IsBounded delay))))))

abbrev pub is_left : Event → Bool
is_left left = true
is_left _ = false

-- The socket's close event, in and after our own closing.
on_close-closed_by_us :
    (s : Subscription) → s.closed_by_us ≡ true → on_close s ≡ record s { socket = closed }
unfolding on_close
on_close-closed_by_us s c =
    ap
      (λ b. if b then record s { socket = closed } else record s {
        socket = closed;
        timer = some s.backoff;
        backoff = min (s.backoff * 2) 15000;
      })
      c

on_close-kept :
    (s : Subscription)
    → s.closed_by_us ≡ false
    → on_close s
      ≡ record s { socket = closed; timer = some s.backoff; backoff = min (s.backoff * 2) 15000 }
unfolding on_close
on_close-kept s c =
    ap
      (λ b. if b then record s { socket = closed } else record s {
        socket = closed;
        timer = some s.backoff;
        backoff = min (s.backoff * 2) 15000;
      })
      c

on_close-IsActive :
    (s : Subscription) → s.closed_by_us ≡ false → IsBounded s.backoff → IsActive (on_close s)
on_close-IsActive s c b =
    subst IsActive (sym (on_close-kept s c))
      (c, ((omega arith, omega arith), inr (inr (refl, (s.backoff, (refl, b))))))

on_message-IsActive :
    (frame : Option Json) (s : Subscription) → IsActive s → IsActive (on_message frame s)
on_message-IsActive none s a = a
on_message-IsActive (some frame) s a = a

-- Quiet, and like `s` in what was connected to and delivered.
abbrev IsStill : Subscription → Subscription → Type 0
IsStill s s' = IsQuiet s' × ((s'.urls ≡ s.urls) × (s'.received ≡ s.received))

module _ (encode : String → String) (ws_base topic : String) where
  step-IsStill :
      (e : Event) (s : Subscription) → IsQuiet s → IsStill s (step encode ws_base topic e s)
  unfolding step drop_in ring_in
  step-IsStill opened s (c, (t, inl e)) =
      subst (λ r. IsStill s (open_in r s)) (sym e) ((c, (t, inl e)), (refl, refl))
  step-IsStill opened s (c, (t, inr e)) =
      subst (λ r. IsStill s (open_in r s)) (sym e) ((c, (t, inr e)), (refl, refl))
  step-IsStill dropped s (c, (t, inl e)) =
      subst (λ r. IsStill s (drop_in r s)) (sym e)
        (subst (IsStill s) (sym (on_close-closed_by_us s c)) ((c, (t, inr refl)), (refl, refl)))
  step-IsStill dropped s (c, (t, inr e)) =
      subst (λ r. IsStill s (drop_in r s)) (sym e) ((c, (t, inr e)), (refl, refl))
  step-IsStill left s (c, (t, o)) = (leave-IsQuiet s, unfold leave in (refl, refl))
  step-IsStill (message frame) s (c, (t, inl e)) =
      subst (λ r. IsStill s (message_in r frame s)) (sym e) ((c, (t, inl e)), (refl, refl))
  step-IsStill (message frame) s (c, (t, inr e)) =
      subst (λ r. IsStill s (message_in r frame s)) (sym e) ((c, (t, inr e)), (refl, refl))
  step-IsStill (fired token) s (c, (t, o)) =
      subst (λ r. IsStill s (ring_in encode ws_base topic r token s)) (sym t)
        ((c, (t, o)), (refl, refl))

  steps-IsStill :
      (es : List Event) (s : Subscription) → IsQuiet s → IsStill s (steps encode ws_base topic es s)
  unfolding steps
  steps-IsStill [] s q = (q, (refl, refl))
  steps-IsStill (e ∷ es) s q =
      let (q', (u, r)) = step-IsStill e s q in
      let (q'', (u', r')) = steps-IsStill es (step encode ws_base topic e s) q' in
      (q'', (u' ∙ u, r' ∙ r))

  -- After the clean-up no socket is made, no message is delivered and no timer runs any more,
  -- whatever happens.
  pub steps-leave :
      (es : List Event) (s : Subscription)
      → let s' = steps encode ws_base topic es (leave s) in
        (s'.urls ≡ s.urls) × ((s'.received ≡ s.received) × (s'.timer ≡ none))
  steps-leave es s =
      let (q, (u, r)) = steps-IsStill es (leave s) (leave-IsQuiet s) in
      unfold leave in (u, (r, q.1.0))

  step-IsActive :
      (e : Event) (s : Subscription)
      → is_left e ≡ false
      → IsActive s
      → IsActive (step encode ws_base topic e s)
  unfolding step drop_in ring_in
  step-IsActive opened s h (c, (b, inl (e, t))) =
      subst (λ r. IsActive (open_in r s)) (sym e)
        (c, ((omega arith, omega arith), inr (inl (refl, t))))
  step-IsActive opened s h (c, (b, inr (inl (e, t)))) =
      subst (λ r. IsActive (open_in r s)) (sym e) (c, (b, inr (inl (e, t))))
  step-IsActive opened s h (c, (b, inr (inr (e, more)))) =
      subst (λ r. IsActive (open_in r s)) (sym e) (c, (b, inr (inr (e, more))))
  step-IsActive dropped s h (c, (b, inl (e, t))) =
      subst (λ r. IsActive (drop_in r s)) (sym e) (on_close-IsActive s c b)
  step-IsActive dropped s h (c, (b, inr (inl (e, t)))) =
      subst (λ r. IsActive (drop_in r s)) (sym e) (on_close-IsActive s c b)
  step-IsActive dropped s h (c, (b, inr (inr (e, more)))) =
      subst (λ r. IsActive (drop_in r s)) (sym e) (c, (b, inr (inr (e, more))))
  step-IsActive left s h a = absurd (ground (arith, h))
  step-IsActive (message frame) s h (c, (b, inl (e, t))) =
      subst (λ r. IsActive (message_in r frame s)) (sym e) (c, (b, inl (e, t)))
  step-IsActive (message frame) s h (c, (b, inr (inl (e, t)))) =
      subst (λ r. IsActive (message_in r frame s)) (sym e)
        (on_message-IsActive frame s (c, (b, inr (inl (e, t)))))
  step-IsActive (message frame) s h (c, (b, inr (inr (e, more)))) =
      subst (λ r. IsActive (message_in r frame s)) (sym e) (c, (b, inr (inr (e, more))))
  step-IsActive (fired token) s h (c, (b, inl (e, t))) =
      subst (λ r. IsActive (ring_in encode ws_base topic r token s)) (sym t) (c, (b, inl (e, t)))
  step-IsActive (fired token) s h (c, (b, inr (inl (e, t)))) =
      subst (λ r. IsActive (ring_in encode ws_base topic r token s)) (sym t)
        (c, (b, inr (inl (e, t))))
  step-IsActive (fired token) s h (c, (b, inr (inr (e, (d, (t, bd)))))) =
      subst (λ r. IsActive (ring_in encode ws_base topic r token s)) (sym t)
        (unfold connect in (c, (b, inl (refl, refl))))

  steps-IsActive :
      (es : List Event) (s : Subscription)
      → All (λ e. is_left e ≡ false) es
      → IsActive s
      → IsActive (steps encode ws_base topic es s)
  unfolding steps
  steps-IsActive [] s h a = a
  steps-IsActive (e ∷ es) s h a =
      steps-IsActive es (step encode ws_base topic e s) h.1 (step-IsActive e s h.0 a)

  -- Until the clean-up a subscription never gives up: a socket is connecting or open, or a timer
  -- of one to fifteen seconds is running that will connect again, and never both.
  pub subscribe-IsActive :
      (token : Option String) (es : List Event)
      → All (λ e. is_left e ≡ false) es
      → IsActive (steps encode ws_base topic es (subscribe encode ws_base topic token))
  subscribe-IsActive token es h =
      steps-IsActive es (subscribe encode ws_base topic token) h
        (unfold subscribe in (refl, ((omega arith, omega arith), inl (refl, refl))))
