-- ===== src/Reinstall/Progress.antt =====
-- What web/src/pages/ReinstallPage.tsx shows while a server is reinstalled.
use mathlib.Core.Path.{ap₂}
use sky_panel.Base.{
  ℕ, ◌<◌, String, Option, none, some, Bool, true, false, List, [], ◌∷◌, length, All, if◌then◌else◌,
  ◌≡◌, refl, ap, ◌∙◌, arith,
}
use sky_panel.Wire.Servers.{Server, ServerStatus}
use sky_panel.Reinstall.{
  default_egg, Page, Event, answered, choose, click, refused, tick, progress, result_of, view_of,
  join, message_of, effects, handle, step, run, phases, phase, phase_from_message, view, status_is,
  is_installing, refetch_interval,
}

phase_from_message-lt :
    (mentions : String → String → Bool) (m : Option String) (k : ℕ)
    → phase_from_message mentions m ≡ some k
    → k < length phases
unfolding phase_from_message
phase_from_message-lt mentions none k h = ground arith
phase_from_message-lt mentions (some msg) k h = ground arith

-- The step that the list marks as active is one of its steps, however long the installation takes
-- and whatever the node reports.
pub phase-lt-length :
    (mentions : String → String → Bool) (p : Page) (k : ℕ)
    → phase mentions p ≡ some k
    → k < length phases
unfolding phase
phase-lt-length mentions p k h =
    ground (arith, phase_from_message-lt mentions (message_of p.server), h)

join-started :
    (time : ℕ) (p : Page) (b : Bool)
    → p.started ≡ b
    → status_is is_installing (join time p).server ≡ true
    → (join time p).started ≡ true
join-started time p b e h = ground (arith, e, h)

-- the step's effects last
joined :
    (time : ℕ) (p : Page)
    → status_is is_installing (effects time p).server ≡ true
    → (effects time p).started ≡ true
unfolding effects
joined time p h = join-started time _ p.started refl h

result_of_installing : (st : ServerStatus) → is_installing st ≡ true → result_of st ≡ progress
result_of_installing ServerStatus.installing h = refl
result_of_installing ServerStatus.offline h = ground arith
result_of_installing ServerStatus.running h = ground arith
result_of_installing ServerStatus.stopping h = ground arith
result_of_installing ServerStatus.errored h = ground arith

view_of_installing :
    (server : Option Server) (started : Bool)
    → status_is is_installing server ≡ true
    → started ≡ true
    → view_of server started ≡ progress
view_of_installing none started h e = ground arith
view_of_installing (some s) true h e = result_of_installing s.status h
view_of_installing (some s) false h e = ground arith

-- After any events, if the last answer says that the server is installing, the page shows the
-- progress and not the button that starts a reinstallation.
pub run-progress :
    (time : ℕ) (e : Event) (es : List (ℕ × Event)) (p : Page)
    → status_is is_installing (run es (step time e p)).server ≡ true
    → view (run es (step time e p)) ≡ progress
unfolding run
run-progress time e [] p h =
    unfold view in view_of_installing _ _ h (joined time (handle time e p) h)
run-progress time e ((later, f) ∷ es) p h = run-progress later f es (step time e p) h

-- No answer arrives, neither of the query nor of the call.
abbrev pub is_quiet : Event → Bool
is_quiet (answered s) = false
is_quiet (choose egg) = true
is_quiet click = false
is_quiet (refused e) = false
is_quiet tick = true

join_server : (time : ℕ) (p : Page) → (join time p).server ≡ p.server
join_server time p = ground arith

join_keeps : (time : ℕ) (p : Page) → p.started ≡ true → (join time p).started ≡ true
join_keeps time p e = ground (arith, e)

step-quiet :
    (time : ℕ) (e : Event) (p : Page)
    → is_quiet e ≡ true
    → p.started ≡ true
    → ((step time e p).server ≡ p.server) × ((step time e p).started ≡ true)
unfolding step handle effects
step-quiet time tick p h e = (join_server time _, join_keeps time _ e)
step-quiet time (choose egg) p h e = (join_server time _, join_keeps time _ e)
step-quiet time (answered s) p h e = ground (arith, h)
step-quiet time click p h e = ground (arith, h)
step-quiet time (refused f) p h e = ground (arith, h)

step-click :
    (time : ℕ) (p : Page)
    → ((step time click p).server ≡ p.server) × ((step time click p).started ≡ true)
unfolding step handle effects
step-click time p =
    let clicked : Page = record p {
      start = time;
      error = none;
      started = true;
      egg_id = default_egg p.server p.egg_id;
    } in
    (join_server time clicked, join_keeps time clicked refl)

run-quiet :
    (es : List (ℕ × Event)) (p : Page)
    → All (λ (timed : ℕ × Event). is_quiet timed.1 ≡ true) es
    → p.started ≡ true
    → ((run es p).server ≡ p.server) × ((run es p).started ≡ true)
unfolding run
run-quiet [] p h e = (refl, e)
run-quiet ((time, f) ∷ es) p h e =
    let one = step-quiet time f p h.0 e in
    let rest = run-quiet es (step time f p) h.1 one.1 in (rest.0 ∙ one.0, rest.1)

-- From a click on "Reinstall" on, as long as no answer arrives, the page shows the result that the
-- server's status had before the click (complete for a server that is running), and it asks for the
-- server again only if that status is installing.
pub run-click :
    (time : ℕ) (es : List (ℕ × Event)) (p : Page) (s : Server)
    → p.server ≡ some s
    → All (λ (timed : ℕ × Event). is_quiet timed.1 ≡ true) es
    → let q = run es (step time click p) in
      (view q ≡ result_of s.status)
      × (refetch_interval q.server ≡ (if is_installing s.status then some 2000 else none))
unfolding view
run-click time es p s e h =
    let clicked : Page = step time click p in
    let one = step-click time p in
    let kept = run-quiet es clicked h one.1 in
    let same : (run es clicked).server ≡ some s = kept.0 ∙ (one.0 ∙ e) in
    (
      ap₂ view_of same kept.1,
      unfold refetch_interval in
          ap (λ (o : Option Server). if status_is is_installing o then some 2000 else none) same,
    )
