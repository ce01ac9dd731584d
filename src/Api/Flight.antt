-- ===== src/Api/Flight.antt =====
-- The single flight of the token refresh (`refreshPromise` of web/src/lib/api.ts): one POST at a
-- time, no call left waiting, and at most two requests to a call.
use sky_panel.Base.{
  ℕ, zero, suc, String, Option, Bool, true, false, ◌≡◌, ◌⊎◌, inl, inr, refl, List, [], ◌∷◌, map,
  ◌+◌, ◌≤◌, length, any, All, All-append, arith, if◌then◌else◌, Bool-cases,
}
use sky_panel.Auth.{Platform, State}
use sky_panel.Api.{Response}
use sky_panel.Api.Client.{
  Task, Refresher, Client, RefreshReply, Event, called, replied, lost, refreshed, acted, resume,
  answer, answer_at, settle_refresh, finish_refresh, step, steps, fresh,
}
use sky_panel.Api.Tasks.{
  waits, IsServed, IsFrugal, resume-IsFrugal, resume-waits, answer_at-IsServed, answer_at-IsFrugal,
  break_at-IsFrugal, break_at-IsServed,
}

module _ (base : String) (token : Option String) where
  map-resume-IsFrugal :
      (ts : List Task) → All IsFrugal ts → All IsFrugal (map (resume base token) ts)
  map-resume-IsFrugal [] h = tt
  map-resume-IsFrugal (t ∷ ts) h = (resume-IsFrugal base token t h.0, map-resume-IsFrugal ts h.1)

  map-resume-IsServed : (b : Bool) (ts : List Task) → All (IsServed b) (map (resume base token) ts)
  map-resume-IsServed b [] = tt
  map-resume-IsServed b (t ∷ ts) =
      (ground (arith, resume-waits base token t), map-resume-IsServed b ts)

pub record IsOrderly (c : Client) : Type 0 where
  pub served : All (IsServed c.refresher.refreshing) c.tasks
  pub frugal : All IsFrugal c.tasks

module _ (p : Platform) (base : String) where
  finish_refresh-IsOrderly :
      (reply : RefreshReply) (c : Client) → IsOrderly c → IsOrderly (finish_refresh p base reply c)
  unfolding finish_refresh
  finish_refresh-IsOrderly reply c h = elim (Bool-cases c.refresher.refreshing) [
    | inl e ↦ simp e (record {
      served = map-resume-IsServed base (settle_refresh p reply c.auth).0 false c.tasks;
      frugal = map-resume-IsFrugal base (settle_refresh p reply c.auth).0 c.tasks h.frugal;
    })
    | inr e ↦ simp e h
  ]

  step-IsOrderly : (e : Event) (c : Client) → IsOrderly c → IsOrderly (step p base e c)
  unfolding step
  step-IsOrderly (called call) c h = record {
    served = All-append _ c.tasks _ h.served (ground arith, tt);
    frugal = All-append _ c.tasks _ h.frugal (refl, tt);
  }
  step-IsOrderly (replied i r) c h = record {
    served = answer_at-IsServed c.auth.refresh_token r i c.tasks c.refresher h.served;
    frugal = answer_at-IsFrugal c.auth.refresh_token r i c.tasks c.refresher h.frugal;
  }
  step-IsOrderly (lost i) c h = record {
    served = break_at-IsServed _ i c.tasks h.served;
    frugal = break_at-IsFrugal i c.tasks h.frugal;
  }
  step-IsOrderly (refreshed reply) c h = finish_refresh-IsOrderly reply c h
  step-IsOrderly (acted a) c h = record { served = h.served; frugal = h.frugal }

  pub steps-IsOrderly : (es : List Event) (c : Client) → IsOrderly c → IsOrderly (steps p base es c)
  unfolding steps
  steps-IsOrderly [] c h = h
  steps-IsOrderly (e ∷ es) c h = steps-IsOrderly es (step p base e c) (step-IsOrderly e c h)

served_any : (b : Bool) (ts : List Task) → All (IsServed b) ts → (b ≡ true) ⊎ (any waits ts ≡ false)
served_any true ts h = inl refl
served_any false [] h = inr refl
served_any false (t ∷ ts) h = ground (arith, served_any false ts h.1)

sent_le : (t : Task) → IsFrugal t → length t.sent ≤ 2
sent_le t h = ground arith

All-sent_le : (ts : List Task) → All IsFrugal ts → All (λ (t : Task). length t.sent ≤ 2) ts
All-sent_le [] h = tt
All-sent_le (t ∷ ts) h = (sent_le t h.0, All-sent_le ts h.1)

-- Whatever a fresh tab meets - calls, responses, lost connections, refresh replies and actions of
-- the session store, in any order - no call waits for a refresh unless one is in flight, so the
-- refresh in flight will wake every call that waits; and no call has sent more than two requests.
pub no_stray_waiting :
    (p : Platform) (base : String) (s : State) (es : List Event)
    → let c = steps p base es (fresh s) in
      ((c.refresher.refreshing ≡ true) ⊎ (any waits c.tasks ≡ false))
      × All (λ (t : Task). length t.sent ≤ 2) c.tasks
no_stray_waiting p base s es =
    let h = steps-IsOrderly p base es (fresh s) (record { served = tt; frugal = tt }) in
    (served_any _ _ h.served, All-sent_le _ h.frugal)

-- The replies to refreshes among the events.
pub replies : List Event → ℕ
replies [] = 0
replies (refreshed reply ∷ es) = suc (replies es)
replies (e ∷ es) = replies es

abbrev pub bit : Bool → ℕ
bit b = if b then 1 else 0

answer-posts :
    (token : Option String) (r : Response) (t : Task) (f : Refresher)
    → length (answer token r t f).1.posts + bit f.refreshing
      ≤ length f.posts + bit (answer token r t f).1.refreshing
unfolding answer
answer-posts token r t f = ground arith

answer_at-posts :
    (token : Option String) (r : Response) (i : ℕ) (ts : List Task) (f : Refresher)
    → length (answer_at token r i ts f).1.posts + bit f.refreshing
      ≤ length f.posts + bit (answer_at token r i ts f).1.refreshing
unfolding answer_at
answer_at-posts token r i [] f = omega arith
answer_at-posts token r zero (t ∷ ts) f = answer-posts token r t f
answer_at-posts token r (suc i) (t ∷ ts) f = answer_at-posts token r i ts f

module _ (p : Platform) (base : String) where
  finish_refresh-posts :
      (reply : RefreshReply) (c : Client)
      → length (finish_refresh p base reply c).refresher.posts + bit c.refresher.refreshing
        ≤ length c.refresher.posts + 1
  unfolding finish_refresh
  finish_refresh-posts reply c = ground arith

  steps-posts :
      (es : List Event) (c : Client)
      → let c' = steps p base es c in
        length c'.refresher.posts + bit c.refresher.refreshing
        ≤ length c.refresher.posts + replies es + bit c'.refresher.refreshing
  unfolding steps replies
  steps-posts [] c = omega arith
  steps-posts (called call ∷ es) c = omega (arith, steps-posts es (step p base (called call) c))
  steps-posts (replied i r ∷ es) c = omega (
    arith,
    steps-posts es (step p base (replied i r) c),
    answer_at-posts c.auth.refresh_token r i c.tasks c.refresher,
  )
  steps-posts (lost i ∷ es) c = omega (arith, steps-posts es (step p base (lost i) c))
  steps-posts (refreshed reply ∷ es) c =
      omega (arith, steps-posts es (step p base (refreshed reply) c), finish_refresh-posts reply c)
  steps-posts (acted a ∷ es) c = omega (arith, steps-posts es (step p base (acted a) c))

-- However many calls meet a 401, and in whatever order things happen, a tab has posted at most one
-- refresh more than the replies to refreshes that it has received.
pub single_flight :
    (p : Platform) (base : String) (s : State) (es : List Event)
    → length (steps p base es (fresh s)).refresher.posts ≤ replies es + 1
single_flight p base s es = ground (arith, steps-posts p base es (fresh s))
