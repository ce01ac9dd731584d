-- ===== src/Api/Tasks.antt =====
-- One task of web/src/lib/api.ts at a time: what it may wait for, and how many requests it has sent.
use sky_panel.Base.{
  ℕ, zero, suc, String, Option, Bool, true, false, not, ◌||◌, ◌≡◌, List, [], ◌∷◌, ◌≤◌, length, All,
  arith,
}
use sky_panel.Api.{Response}
use sky_panel.Api.Client.{
  asked, queued, Task, Refresher, resume, answer, break_off, answer_at, break_at,
}

abbrev pub waits : Task → Bool
waits t = elim t.phase [ queued r ↦ true | _ ↦ false ]

-- A task that waits has a refresh to wait for.
abbrev pub IsServed : Bool → Task → Type 0
IsServed refreshing t = (refreshing || not (waits t)) ≡ true

-- The number of requests that a task may have sent in its phase; one that waits met a 401.
abbrev pub IsFrugal : Task → Type 0
IsFrugal t = elim t.phase [
  | asked ↦ length t.sent ≡ 1
  | queued r ↦ (length t.sent ≡ 1) × (r.status ≡ 401)
  | _ ↦ length t.sent ≤ 2
]

pub answer-IsFrugal :
    (token : Option String) (r : Response) (t : Task) (f : Refresher)
    → IsFrugal t
    → IsFrugal (answer token r t f).0
unfolding answer
answer-IsFrugal token r t f h = ground arith

pub answer-refreshing :
    (token : Option String) (r : Response) (t : Task) (f : Refresher)
    → f.refreshing ≡ true
    → (answer token r t f).1.refreshing ≡ true
unfolding answer
answer-refreshing token r t f h = ground arith

pub answer-IsServed :
    (token : Option String) (r : Response) (t : Task) (f : Refresher)
    → IsServed f.refreshing t
    → IsServed (answer token r t f).1.refreshing (answer token r t f).0
unfolding answer
answer-IsServed token r t f h = ground arith

pub resume-IsFrugal :
    (base : String) (token : Option String) (t : Task) → IsFrugal t → IsFrugal (resume base token t)
unfolding resume
resume-IsFrugal base token t h = ground arith

pub resume-waits :
    (base : String) (token : Option String) (t : Task) → waits (resume base token t) ≡ false
unfolding resume
resume-waits base token t = ground arith

pub break_off-IsFrugal : (t : Task) → IsFrugal t → IsFrugal (break_off t)
unfolding break_off
break_off-IsFrugal t h = ground arith

pub break_off-IsServed : (b : Bool) (t : Task) → IsServed b t → IsServed b (break_off t)
unfolding break_off
break_off-IsServed b t h = ground arith

pub answer-IsServed_other :
    (token : Option String) (r : Response) (t u : Task) (f : Refresher)
    → IsServed f.refreshing u
    → IsServed (answer token r t f).1.refreshing u
unfolding answer
answer-IsServed_other token r t u f h = ground arith

pub All-IsServed-answer :
    (token : Option String) (r : Response) (t : Task) (f : Refresher) (ts : List Task)
    → All (IsServed f.refreshing) ts
    → All (IsServed (answer token r t f).1.refreshing) ts
All-IsServed-answer token r t f [] h = tt
All-IsServed-answer token r t f (u ∷ ts) h =
    (answer-IsServed_other token r t u f h.0, All-IsServed-answer token r t f ts h.1)

-- A task that is not the one answered is served as before.
pub answer_at-IsServed_other :
    (token : Option String) (r : Response) (i : ℕ) (ts : List Task) (u : Task) (f : Refresher)
    → IsServed f.refreshing u
    → IsServed (answer_at token r i ts f).1.refreshing u
unfolding answer_at
answer_at-IsServed_other token r i [] u f h = h
answer_at-IsServed_other token r zero (t ∷ ts) u f h = answer-IsServed_other token r t u f h
answer_at-IsServed_other token r (suc i) (t ∷ ts) u f h =
    answer_at-IsServed_other token r i ts u f h

pub answer_at-IsServed :
    (token : Option String) (r : Response) (i : ℕ) (ts : List Task) (f : Refresher)
    → All (IsServed f.refreshing) ts
    → All (IsServed (answer_at token r i ts f).1.refreshing) (answer_at token r i ts f).0
unfolding answer_at
answer_at-IsServed token r i [] f h = tt
answer_at-IsServed token r zero (t ∷ ts) f h =
    (answer-IsServed token r t f h.0, All-IsServed-answer token r t f ts h.1)
answer_at-IsServed token r (suc i) (t ∷ ts) f h =
    (answer_at-IsServed_other token r i ts t f h.0, answer_at-IsServed token r i ts f h.1)

pub answer_at-IsFrugal :
    (token : Option String) (r : Response) (i : ℕ) (ts : List Task) (f : Refresher)
    → All IsFrugal ts
    → All IsFrugal (answer_at token r i ts f).0
unfolding answer_at
answer_at-IsFrugal token r i [] f h = tt
answer_at-IsFrugal token r zero (t ∷ ts) f h = (answer-IsFrugal token r t f h.0, h.1)
answer_at-IsFrugal token r (suc i) (t ∷ ts) f h = (h.0, answer_at-IsFrugal token r i ts f h.1)

pub break_at-IsFrugal : (i : ℕ) (ts : List Task) → All IsFrugal ts → All IsFrugal (break_at i ts)
unfolding break_at
break_at-IsFrugal i [] h = tt
break_at-IsFrugal zero (t ∷ ts) h = (break_off-IsFrugal t h.0, h.1)
break_at-IsFrugal (suc i) (t ∷ ts) h = (h.0, break_at-IsFrugal i ts h.1)

pub break_at-IsServed :
    (b : Bool) (i : ℕ) (ts : List Task) → All (IsServed b) ts → All (IsServed b) (break_at i ts)
unfolding break_at
break_at-IsServed b i [] h = tt
break_at-IsServed b zero (t ∷ ts) h = (break_off-IsServed b t h.0, h.1)
break_at-IsServed b (suc i) (t ∷ ts) h = (h.0, break_at-IsServed b i ts h.1)
