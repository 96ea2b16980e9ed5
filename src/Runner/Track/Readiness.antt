-- ===== src/Runner/Track/Readiness.antt =====
-- `trackContainerStatusAndLogs` and `WaitForReady` of playground/local_runner.go together: when the
-- events of docker make a session ready.
use builder_playground.Prelude.{
  String, Bool, true, false, Option, none, some, List, [], ◌∷◌, ◌≡◌, refl, sym, ap, ◌∙◌, ◌↔◌,
  if◌then◌else◌, Result, ok, err, ◌>>=◌, ◌==◌, ==_flip, any, All, map, Bool-cases, inl, inr, eq_iff,
}
use mathlib.Core.Path.{subst}
use builder_playground.Service.FirstPass.{Panic}
use builder_playground.Runner.{
  Task, LocalRunner, is_host_service, set_status, update_task_status, are_ready,
  task_status_started, task_status_die, task_status_healthy,
}
use builder_playground.Runner.Status.{TaskIsReady, are_ready_iff}
use builder_playground.Runner.Track.{
  DockerEvent, action_start, action_die, action_health_status_healthy, host_failed, other_action,
  stream_error, on_event, track_container_status, second_passed, wait_for_ready, status_after,
  ready_after, failures, mark, set_status-hit, set_status-miss, mark-name,
}

-- The keys of the map of tasks are different.
abbrev pub DistinctTasks : List Task → Type 0
DistinctTasks [] = Unit
DistinctTasks (t ∷ ts) = All (λ (u : Task). (t.name == u.name) ≡ false) ts × DistinctTasks ts

-- The service of an event has a task.
abbrev pub has_task : List Task → String → Bool
has_task ts name = any (λ (t : Task). t.name == name) ts

abbrev pub Known : List Task → DockerEvent → Type 0
Known ts (action_start name) = has_task ts name ≡ true
Known ts (action_die name) = has_task ts name ≡ true
Known ts (action_health_status_healthy name) = has_task ts name ≡ true
Known ts (host_failed n e) = Unit
Known ts other_action = Unit
Known ts stream_error = Unit

-- A task as the events leave it.
abbrev pub tracked : List DockerEvent → Task → Task
tracked events t = record t {
  status = status_after t.name events t.status;
  ready = ready_after t.name events t.ready;
}

abbrev marked : String → String → Task → Task
marked n status t = if n == t.name then mark status t else t

abbrev pub stepped : DockerEvent → Task → Task
stepped (action_start n) t = marked n task_status_started t
stepped (action_die n) t = marked n task_status_die t
stepped (action_health_status_healthy n) t = marked n task_status_healthy t
stepped (host_failed n e) t = t
stepped other_action t = t
stepped stream_error t = t

==_back : (s t : String) → (s == t) ≡ true → (t == s) ≡ true
==_back s t e = (eq_iff t s).1 (sym ((eq_iff s t).0 e))

marked-name : (n status : String) (t : Task) → (marked n status t).name ≡ t.name
marked-name n status t = elim (Bool-cases (n == t.name)) [
  | inl e ↦ rw e (mark-name status t)
  | inr e ↦ rw e refl
]

marked-none :
    (n status : String) (ts : List Task)
    → All (λ (u : Task). (n == u.name) ≡ false) ts
    → map (marked n status) ts ≡ ts
marked-none n status [] h = refl
marked-none n status (t ∷ ts) (e, h) = rw (e, marked-none n status ts h) refl

-- In a map, `set_status` changes the task of the name and no other.
pub set_status-marked :
    (n status : String) (ts : List Task)
    → DistinctTasks ts
    → set_status n status ts ≡ map (marked n status) ts
unfolding set_status
set_status-marked n status [] h = refl
set_status-marked n status (t ∷ ts) (apart, h) = elim (Bool-cases (t.name == n)) [
  | inl e ↦
      let others =
        marked-none n status ts (
          subst (λ x. All (λ (u : Task). (x == u.name) ≡ false) ts) ((eq_iff t.name n).0 e)
            apart) in
      set_status-hit n status t ts e ∙ rw (==_back t.name n e, others) refl
  | inr e ↦
      set_status-miss n status t ts e
      ∙ rw (==_flip t.name n e, set_status-marked n status ts h) refl
]

-- What a change of tasks that keeps their names keeps.
module _ (f : Task → Task) (keeps : (t : Task) → (f t).name ≡ t.name) where
  apart-kept :
      (name : String) (ts : List Task)
      → All (λ (u : Task). (name == u.name) ≡ false) ts
      → All (λ (u : Task). (name == u.name) ≡ false) (map f ts)
  apart-kept name [] h = tt
  apart-kept name (t ∷ ts) (e, h) = (ap (λ n. name == n) (keeps t) ∙ e, apart-kept name ts h)

  pub DistinctTasks-kept : (ts : List Task) → DistinctTasks ts → DistinctTasks (map f ts)
  DistinctTasks-kept [] h = tt
  DistinctTasks-kept (t ∷ ts) (apart, h) = (
    subst (λ n. All (λ (u : Task). (n == u.name) ≡ false) (map f ts)) (sym (keeps t))
        (apart-kept t.name ts apart),
    DistinctTasks-kept ts h,
  )

  has_task-kept : (name : String) (ts : List Task) → has_task (map f ts) name ≡ has_task ts name
  has_task-kept name [] = refl
  has_task-kept name (t ∷ ts) = rw (keeps t, has_task-kept name ts) refl

  pub Known-kept : (event : DockerEvent) (ts : List Task) → Known ts event → Known (map f ts) event
  Known-kept (action_start n) ts h = has_task-kept n ts ∙ h
  Known-kept (action_die n) ts h = has_task-kept n ts ∙ h
  Known-kept (action_health_status_healthy n) ts h = has_task-kept n ts ∙ h
  Known-kept (host_failed n e) ts h = tt
  Known-kept other_action ts h = tt
  Known-kept stream_error ts h = tt

  All-Known-kept :
      (events : List DockerEvent) (ts : List Task)
      → All (Known ts) events
      → All (Known (map f ts)) events
  All-Known-kept [] ts h = tt
  All-Known-kept (event ∷ events) ts (k, h) = (Known-kept event ts k, All-Known-kept events ts h)

pub stepped-name : (event : DockerEvent) (t : Task) → (stepped event t).name ≡ t.name
stepped-name (action_start n) t = marked-name n task_status_started t
stepped-name (action_die n) t = marked-name n task_status_die t
stepped-name (action_health_status_healthy n) t = marked-name n task_status_healthy t
stepped-name (host_failed n e) t = refl
stepped-name other_action t = refl
stepped-name stream_error t = refl

tracked-stepped :
    (event : DockerEvent) (events : List DockerEvent) (t : Task)
    → tracked events (stepped event t) ≡ tracked (event ∷ events) t
tracked-stepped (action_start n) events t = elim (Bool-cases (n == t.name)) [
  | inl e ↦ rw e refl
  | inr e ↦ rw e refl
]
tracked-stepped (action_die n) events t = elim (Bool-cases (n == t.name)) [
  | inl e ↦ rw e refl
  | inr e ↦ rw e refl
]
tracked-stepped (action_health_status_healthy n) events t = elim (Bool-cases (n == t.name)) [
  | inl e ↦ rw e refl
  | inr e ↦ rw e refl
]
tracked-stepped (host_failed n e) events t = refl
tracked-stepped other_action events t = refl
tracked-stepped stream_error events t = refl

map-tracked-stepped :
    (event : DockerEvent) (events : List DockerEvent) (ts : List Task)
    → map (tracked events) (map (stepped event) ts) ≡ map (tracked (event ∷ events)) ts
map-tracked-stepped event events [] = refl
map-tracked-stepped event events (t ∷ ts) =
    rw (map-tracked-stepped event events ts, tracked-stepped event events t) refl

pub map-fixed : (f : Task → Task) → ((t : Task) → f t ≡ t) → (ts : List Task) → map f ts ≡ ts
map-fixed f h [] = refl
map-fixed f h (t ∷ ts) = rw (h t, map-fixed f h ts) refl

-- While nobody dies, an event changes the tasks only.
on_event-alive :
    (event : DockerEvent) (d : LocalRunner)
    → DistinctTasks d.tasks
    → Known d.tasks event
    → d.waiting ≡ none
    → failures (event ∷ []) ≡ []
    → on_event event d ≡ ok (record d { tasks = map (stepped event) d.tasks })
unfolding on_event update_task_status
on_event-alive (action_start n) d apart known free alive =
    rw (free, known, set_status-marked n task_status_started d.tasks apart) refl
on_event-alive (action_die n) d apart known free alive = cc
on_event-alive (action_health_status_healthy n) d apart known free alive =
    rw (free, known, set_status-marked n task_status_healthy d.tasks apart) refl
on_event-alive (host_failed n e) d apart known free alive = cc
on_event-alive other_action d apart known free alive =
    rw (map-fixed (stepped other_action) (λ t. refl) d.tasks) refl
on_event-alive stream_error d apart known free alive =
    rw (map-fixed (stepped stream_error) (λ t. refl) d.tasks) refl

failures-nil :
    (event : DockerEvent) (events : List DockerEvent)
    → failures (event ∷ events) ≡ []
    → (failures (event ∷ []) ≡ []) × (failures events ≡ [])
failures-nil (action_start n) events h = (refl, h)
failures-nil (action_die n) events h = cc
failures-nil (action_health_status_healthy n) events h = (refl, h)
failures-nil (host_failed n e) events h = cc
failures-nil other_action events h = (refl, h)
failures-nil stream_error events h = (refl, h)

-- The loop over events of known services, none of which dies, does not panic, and leaves each task as
-- they say.
pub track-alive :
    (events : List DockerEvent) (d : LocalRunner)
    → DistinctTasks d.tasks
    → All (Known d.tasks) events
    → d.waiting ≡ none
    → failures events ≡ []
    → track_container_status events d ≡ ok (record d { tasks = map (tracked events) d.tasks })
unfolding track_container_status
track-alive [] d apart known free alive = rw (map-fixed (tracked []) (λ t. refl) d.tasks) refl
track-alive (event ∷ events) d apart (k, known) free alive =
    let (now, later) = failures-nil event events alive in
    let next = map (stepped event) d.tasks in
    let rest =
      track-alive events (record d { tasks = next })
        (DistinctTasks-kept (stepped event) (stepped-name event) d.tasks apart)
        (All-Known-kept (stepped event) (stepped-name event) events d.tasks known) free later in
    rw (on_event-alive event d apart k free now)
      (rest ∙ rw (map-tracked-stepped event events d.tasks) refl)

All-map :
    (P Q : Task → Type 0) (f : Task → Task)
    → ((t : Task) → P (f t) ↔ Q t)
    → (ts : List Task) → All P (map f ts) ↔ All Q ts
All-map P Q f same [] = (λ h. h, λ h. h)
All-map P Q f same (t ∷ ts) =
    let both = All-map P Q f same ts in
    (λ (p, h). ((same t).0 p, both.0 h), λ (q, h). ((same t).1 q, both.1 h))

abbrev woken : Result Panic Bool → Result Panic (Option (Option String))
woken r = r >>= λ ready. if ready then ok (some none) else ok none

wait_for_ready_once : (r : Result Panic Bool) → (woken r ≡ ok (some none)) ↔ (r ≡ ok true)
wait_for_ready_once (ok true) = (λ h. refl, λ h. refl)
wait_for_ready_once (ok false) = (λ h. cc, λ h. cc)
wait_for_ready_once (err e) = (λ h. cc, λ h. cc)

-- When the session is ready, if `exitErr` is empty.
pub wait_for_ready-alive :
    (events : List DockerEvent) (d : LocalRunner)
    → d.exit_err ≡ []
    → let d' = record d { tasks = map (tracked events) d.tasks } in
      (wait_for_ready (second_passed d' ∷ []) ≡ ok (some none))
      ↔ All (λ (t : Task). TaskIsReady d (tracked events t)) d.tasks
unfolding wait_for_ready is_host_service
wait_for_ready-alive events d quiet =
    let d' = record d { tasks = map (tracked events) d.tasks } in
    let (to_ready, of_ready) = wait_for_ready_once (are_ready d') in
    let (to_all, of_all) = are_ready_iff d' in
    let (to_tasks, of_tasks) =
      All-map (TaskIsReady d') (λ (t : Task). TaskIsReady d (tracked events t)) (tracked events)
        (λ t. (λ h. h, λ h. h)) d.tasks in
    rw quiet (λ h. to_tasks (to_all (to_ready h)), λ h. of_ready (of_all (of_tasks h)))
