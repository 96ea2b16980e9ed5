-- ===== src/Runner/Track/Failures.antt =====
-- The failures of containers in `trackContainerStatusAndLogs` of playground/local_runner.go, and the error
-- that `WaitForReady` receives of them.
use builder_playground.Prelude.{
  arith, String, Bool, true, false, Option, none, some, List, [], ◌∷◌, ◌++◌, ◌≡◌, refl, sym, ap,
  ◌∙◌, ◌↔◌, Result, ok, ltb, length, All, map, Bool-cases, inl, inr, Returns, Returns-ok,
  Returns-bind,
}
use mathlib.Core.List.{append_assoc, append-nil}
use builder_playground.Service.FirstPass.{Panic}
use builder_playground.Runner.{
  Task, LocalRunner, is_there, container_failed, send_exit, update_task_status, task_status_started,
  task_status_die, task_status_healthy,
}
use builder_playground.Runner.Status.{TaskIsReady}
use builder_playground.Runner.Track.{
  DockerEvent, action_start, action_die, action_health_status_healthy, host_failed, other_action,
  stream_error, on_event, track_container_status, second_passed, wait_for_ready, failures,
  host_error, send_host, unless_exited,
}
use builder_playground.Runner.Track.Readiness.{
  DistinctTasks, Known, tracked, stepped, stepped-name, set_status-marked, DistinctTasks-kept,
  Known-kept, track-alive, wait_for_ready-alive,
}

abbrev first : List String → Option String
first [] = none
first (name ∷ names) = some name

abbrev has_some : List String → Bool
has_some [] = false
has_some (name ∷ names) = true

-- A sender waits only while there are errors to receive.
abbrev Sound : LocalRunner → Type 0
Sound d = is_there d.waiting ≡ true → has_some d.exit_err ≡ true

first-busy :
    (names xs ys : List String) → has_some names ≡ true → first (names ++ xs) ≡ first (names ++ ys)
first-busy [] xs ys h = cc
first-busy (name ∷ names) xs ys h = refl

has_some-append :
    (names more : List String) → has_some names ≡ true → has_some (names ++ more) ≡ true
has_some-append [] more h = cc
has_some-append (name ∷ names) more h = refl

full-has_some : (names : List String) → ltb (length names) 2 ≡ false → has_some names ≡ true
full-has_some [] h = ground arith
full-has_some (name ∷ names) h = refl

-- What an event leaves: the tasks of the map, and the first error.
record Step (event : DockerEvent) (d d' : LocalRunner) : Type 0 where
  distinct : DistinctTasks d'.tasks
  known : (e : DockerEvent) → Known d.tasks e → Known d'.tasks e
  sound : Sound d'
  firsts :
      (later : List String)
      → first (d'.exit_err ++ later) ≡ first (d.exit_err ++ (failures (event ∷ []) ++ later))

module _ (event : DockerEvent) (d : LocalRunner) (apart : DistinctTasks d.tasks)
    (sound : Sound d) where
  held-Step : is_there d.waiting ≡ true → Step event d d
  held-Step e = record {
    distinct = apart;
    known = λ e k. k;
    sound = sound;
    firsts = λ later. first-busy d.exit_err later _ (sound e);
  }

  moved-Step :
      failures (event ∷ []) ≡ [] → Step event d (record d { tasks = map (stepped event) d.tasks })
  moved-Step alive = record {
    distinct = DistinctTasks-kept (stepped event) (stepped-name event) d.tasks apart;
    known = λ e k. Known-kept (stepped event) (stepped-name event) e d.tasks k;
    sound = sound;
    firsts = λ later. rw alive refl;
  }

  sent-Step :
      (n : String)
      → failures (event ∷ []) ≡ n ∷ []
      → is_there d.waiting ≡ false
      → Step event d (send_exit n (record d { tasks = map (stepped event) d.tasks }))
  unfolding send_exit
  sent-Step n died free =
      let distinct = DistinctTasks-kept (stepped event) (stepped-name event) d.tasks apart in
      elim (Bool-cases (ltb (length d.exit_err) 2)) [
        | inl room ↦ rw room (record {
          distinct = distinct;
          known = λ e k. Known-kept (stepped event) (stepped-name event) e d.tasks k;
          sound = λ h. (let bad = sym free ∙ h in cc);
          firsts = λ later. rw died (ap first (append_assoc d.exit_err (n ∷ []) later));
        })
        | inr full ↦ rw full (record {
          distinct = distinct;
          known = λ e k. Known-kept (stepped event) (stepped-name event) e d.tasks k;
          sound = λ _. full-has_some d.exit_err full;
          firsts = λ later. first-busy d.exit_err later _ (full-has_some d.exit_err full);
        })
      ]

on_event-Step :
    (event : DockerEvent) (d : LocalRunner)
    → DistinctTasks d.tasks
    → Known d.tasks event
    → Sound d
    → Returns (Step event d) (on_event event d)
unfolding on_event update_task_status send_host
on_event-Step (action_start n) d apart known sound = elim (Bool-cases (is_there d.waiting)) [
  | inl e ↦ rw e (Returns-ok (held-Step (action_start n) d apart sound e))
  | inr e ↦
      rw (e, known, set_status-marked n task_status_started d.tasks apart)
        (Returns-ok (moved-Step (action_start n) d apart sound refl))
]
on_event-Step (action_die n) d apart known sound = elim (Bool-cases (is_there d.waiting)) [
  | inl e ↦ rw e (Returns-ok (held-Step (action_die n) d apart sound e))
  | inr e ↦
      rw (e, known, set_status-marked n task_status_die d.tasks apart)
        (Returns-ok (sent-Step (action_die n) d apart sound (container_failed n) refl e))
]
on_event-Step (action_health_status_healthy n) d apart known sound =
    elim (Bool-cases (is_there d.waiting)) [
      | inl e ↦ rw e (Returns-ok (held-Step (action_health_status_healthy n) d apart sound e))
      | inr e ↦
          rw (e, known, set_status-marked n task_status_healthy d.tasks apart)
            (Returns-ok (moved-Step (action_health_status_healthy n) d apart sound refl))
    ]
on_event-Step (host_failed n e) d apart known sound =
    elim (Bool-cases (ltb (length d.exit_err) 2)) [
      | inl room ↦ rw room (
          Returns-ok (record {
            distinct = apart;
            known = λ event k. k;
            sound = λ h. has_some-append d.exit_err _ (sound h);
            firsts = λ later. ap first (append_assoc d.exit_err (host_error n e ∷ []) later);
          }))
      | inr full ↦ rw full (
          Returns-ok (record {
            distinct = apart;
            known = λ event k. k;
            sound = sound;
            firsts = λ later. first-busy d.exit_err later _ (full-has_some d.exit_err full);
          }))
    ]
on_event-Step other_action d apart known sound =
    Returns-ok
      (record { distinct = apart; known = λ e k. k; sound = sound; firsts = λ later. refl })
on_event-Step stream_error d apart known sound =
    Returns-ok
      (record { distinct = apart; known = λ e k. k; sound = sound; firsts = λ later. refl })

failures-cons :
    (event : DockerEvent) (events : List DockerEvent)
    → failures (event ∷ []) ++ failures events ≡ failures (event ∷ events)
failures-cons (action_start n) events = refl
failures-cons (action_die n) events = refl
failures-cons (action_health_status_healthy n) events = refl
failures-cons (host_failed n e) events = refl
failures-cons other_action events = refl
failures-cons stream_error events = refl

module _ {P Q : DockerEvent → Type 0} (f : (e : DockerEvent) → P e → Q e) where
  each_known : (events : List DockerEvent) → All P events → All Q events
  each_known [] h = tt
  each_known (e ∷ events) (p, h) = (f e p, each_known events h)

-- Following the events of known services does not panic, and the first error to receive is that of the
-- first failure.
track-first :
    (events : List DockerEvent) (d : LocalRunner)
    → DistinctTasks d.tasks
    → All (Known d.tasks) events
    → Sound d
    → Returns
        (λ d'. first d'.exit_err ≡ first (d.exit_err ++ failures events))
        (track_container_status events d)
unfolding track_container_status
track-first [] d apart known sound = Returns-ok (ap first (sym (append-nil d.exit_err)))
track-first (event ∷ events) d apart (k, known) sound =
    Returns-bind (on_event event d) (track_container_status events)
      (on_event-Step event d apart k sound)
      λ d1 s.
        let r = track-first events d1 s.distinct (each_known s.known events known) s.sound in
        record {
          value = r.value;
          returned = r.returned;
          holds =
              r.holds
              ∙ s.firsts (failures events)
              ∙ ap (λ e. first (d.exit_err ++ e)) (failures-cons event events);
        }

exited :
    (names : List String) (name : String) (rest : Result Panic (Option (Option String)))
    → first names ≡ some name
    → unless_exited names rest ≡ ok (some (some name))
exited [] name rest h = cc
exited (n ∷ names) name rest h = ap (λ x. ok (some (some x))) (some_inj h)
  where
    some_inj : {A : Type 0} {a b : A} → some a ≡ some b → a ≡ b
    some_inj e = cc

-- What `WaitForReady` answers after such events, at the next second.
abbrev pub Answers : LocalRunner → List DockerEvent → LocalRunner → Type 0
Answers d events d' =
    ((wait_for_ready (second_passed d' ∷ []) ≡ ok (some none))
      ↔ ((failures events ≡ []) × All (λ (t : Task). TaskIsReady d (tracked events t)) d.tasks))
    × ((name : String) (names : List String)
        → failures events ≡ name ∷ names
        → wait_for_ready (second_passed d' ∷ []) ≡ ok (some (some name)))

head_inj : {x y : String} {xs ys : List String} → x ∷ xs ≡ y ∷ ys → x ≡ y
head_inj h = cc

pub wait_for_ready-Known :
    (events : List DockerEvent) (d : LocalRunner)
    → DistinctTasks d.tasks
    → All (Known d.tasks) events
    → d.waiting ≡ none
    → d.exit_err ≡ []
    → (d' : LocalRunner) × (track_container_status events d ≡ ok d') × Answers d events d'
unfolding wait_for_ready
wait_for_ready-Known events d apart known free quiet = by_failures (failures events) refl
  where
    by_failures :
        (names : List String)
        → failures events ≡ names
        → (d' : LocalRunner) × (track_container_status events d ≡ ok d') × Answers d events d'
    by_failures [] e =
        let both = wait_for_ready-alive events d quiet in
        (
          record d { tasks = map (tracked events) d.tasks },
          track-alive events d apart known free e,
          ((λ h. (e, both.0 h), λ (_, k). both.1 k), λ name names f. (let bad = sym e ∙ f in cc)),
        )
    by_failures (n ∷ names) e =
        let r = track-first events d apart known (λ h. (let bad = rw free at h in cc)) in
        let sent = r.holds ∙ rw (quiet, e) refl in
        let received = exited r.value.exit_err n _ sent in
        (
          r.value,
          r.returned,
          (
            (λ h. (let bad = sym received ∙ h in cc), λ (h, _). (let bad = sym e ∙ h in cc)),
            λ name more f. received ∙ ap (λ x. ok (some (some x))) (head_inj (sym e ∙ f)),
          ),
        )
