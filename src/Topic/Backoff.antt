-- ===== src/Topic/Backoff.antt =====
-- The delays of `useTopic` (web/src/lib/useTopic.ts) between attempts to connect that all fail.
use sky_panel.Base.{
  ℕ, suc, zero, ◌*◌, ◌^◌, min, ltb, String, Option, none, some, false, if◌then◌else◌, ◌≡◌, refl,
  arith, ap, List, ◌∷◌, [], ◌∙◌,
}
use sky_panel.Topic.{
  Subscription, connecting, dropped, fired, url, connect, subscribe, on_close, drop_in, ring_in,
  step,
}

abbrev pub delay_after : ℕ → ℕ
delay_after n = if ltb n 4 then 1000 * 2 ^ n else 15000

abbrev urls_after : String → ℕ → List String
urls_after u zero = u ∷ []
urls_after u (suc n) = u ∷ urls_after u n

delay_after-suc : (n : ℕ) → min (delay_after n * 2) 15000 ≡ delay_after (suc n)
delay_after-suc zero = refl
delay_after-suc (suc zero) = refl
delay_after-suc (suc (suc zero)) = refl
delay_after-suc (suc (suc (suc zero))) = refl
delay_after-suc (suc (suc (suc (suc n)))) = ground arith

module _ (encode : String → String) (ws_base topic : String) (token : Option String) where
  -- A subscription whose socket has been dropped `n` times while connecting, and connected again.
  abbrev pub failed : ℕ → Subscription
  failed zero = subscribe encode ws_base topic token
  failed (suc n) =
      step encode ws_base topic (fired token) (step encode ws_base topic dropped (failed n))

  failed_lem :
      (n : ℕ)
      → failed n ≡ record {
        socket = connecting;
        closed_by_us = false;
        backoff = delay_after n;
        timer = none;
        urls = urls_after (url encode ws_base topic token) n;
        received = [];
      }
  unfolding subscribe connect step drop_in on_close ring_in
  failed_lem zero = refl
  failed_lem (suc n) =
      ap (λ s. step encode ws_base topic (fired token) (step encode ws_base topic dropped s))
        (failed_lem n)
      ∙ ap
          (λ b. record {
            socket = connecting;
            closed_by_us = false;
            backoff = b;
            timer = none;
            urls = urls_after (url encode ws_base topic token) (suc n);
            received = [];
          })
          (delay_after-suc n)

  -- While every attempt fails, the delays double from one second to eight and are fifteen seconds
  -- from then on.
  pub delay-failed :
      (n : ℕ) → (step encode ws_base topic dropped (failed n)).timer ≡ some (delay_after n)
  unfolding step drop_in on_close
  delay-failed n = ap (λ s. (step encode ws_base topic dropped s).timer) (failed_lem n)
