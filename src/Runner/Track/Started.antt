-- ===== src/Runner/Track/Started.antt =====
-- From `NewLocalRunner` to `WaitForReady` of playground/local_runner.go: the tasks at the start are those
-- of a map, with one for each service.
use builder_playground.Prelude.{
  String, Bool, true, false, none, some, List, [], ◌∷◌, ◌≡◌, refl, ◌↔◌, ok, ◌==◌, All, any,
  Bool-cases, inl, inr, Ensures, Ensures-bind, Ensures-ok, eq_iff,
}
use mathlib.Core.Path.{subst}
use builder_playground.Service.{Service}
use builder_playground.Runner.{Task, LocalRunner}
use builder_playground.Runner.Create.{
  RunnerConfig, System, add_task, make_tasks, make_instances, host_releases, merge_overrides,
  settle_overrides, new_local_runner, new_local_runner-AllExist,
}
use builder_playground.Runner.Status.{TaskIsReady}
use builder_playground.Runner.Track.{
  DockerEvent, action_start, action_die, action_health_status_healthy, host_failed, other_action,
  stream_error, track_container_status, second_passed, wait_for_ready, failures,
}
use builder_playground.Runner.Track.Readiness.{DistinctTasks, has_task, Known, tracked}
use builder_playground.Runner.Track.Failures.{wait_for_ready-Known}

add_task-apart :
    (other name : String) (ts : List Task)
    → (other == name) ≡ false
    → All (λ (u : Task). (other == u.name) ≡ false) ts
    → All (λ (u : Task). (other == u.name) ≡ false) (add_task name ts)
unfolding add_task
add_task-apart other name [] e h = (e, tt)
add_task-apart other name (t ∷ ts) e (p, h) = elim (Bool-cases (t.name == name)) [
  | inl f ↦ rw f (p, h)
  | inr f ↦ rw f (p, add_task-apart other name ts e h)
]

add_task-DistinctTasks :
    (name : String) (ts : List Task) → DistinctTasks ts → DistinctTasks (add_task name ts)
unfolding add_task
add_task-DistinctTasks name [] h = (tt, tt)
add_task-DistinctTasks name (t ∷ ts) (apart, h) = elim (Bool-cases (t.name == name)) [
  | inl e ↦ rw e (apart, h)
  | inr e ↦ rw e (add_task-apart t.name name ts e apart, add_task-DistinctTasks name ts h)
]

make_tasks-DistinctTasks : (ss : List Service) → DistinctTasks (make_tasks ss)
unfolding make_tasks
make_tasks-DistinctTasks [] = tt
make_tasks-DistinctTasks (s ∷ ss) =
    add_task-DistinctTasks s.name (make_tasks ss) (make_tasks-DistinctTasks ss)

-- A runner before its first event.
abbrev Fresh : LocalRunner → Type 0
Fresh d = DistinctTasks d.tasks × (d.waiting ≡ none) × (d.exit_err ≡ [])

new_local_runner-Fresh :
    (system : System) (cfg : RunnerConfig) → Ensures Fresh (new_local_runner system cfg)
unfolding new_local_runner
new_local_runner-Fresh system cfg =
    Ensures-bind (make_instances system cfg.log_internally cfg.services) _ (λ instances _.
      Ensures-bind
        (host_releases system instances (merge_overrides cfg.manifest_overrides cfg.overrides)) _
        (λ overrides _.
          Ensures-bind (settle_overrides system overrides cfg.services) _
            (λ settled _. Ensures-ok (make_tasks-DistinctTasks settled.1, refl, refl))))

-- An event of a container that belongs to one of the services, or no such event.
abbrev is_service : List Service → String → Bool
is_service ss name = any (λ (s : Service). s.name == name) ss

abbrev pub OfServices : List Service → DockerEvent → Type 0
OfServices ss (action_start name) = is_service ss name ≡ true
OfServices ss (action_die name) = is_service ss name ≡ true
OfServices ss (action_health_status_healthy name) = is_service ss name ≡ true
OfServices ss (host_failed n e) = Unit
OfServices ss other_action = Unit
OfServices ss stream_error = Unit

module _ (ts : List Task) where
  service-has_task :
      (name : String) (ss : List Service)
      → All (λ (s : Service). has_task ts s.name ≡ true) ss
      → is_service ss name ≡ true
      → has_task ts name ≡ true
  service-has_task name [] h k = cc
  service-has_task name (s ∷ ss) (p, h) k = elim (Bool-cases (s.name == name)) [
    | inl e ↦ subst (λ x. has_task ts x ≡ true) ((eq_iff s.name name).0 e) p
    | inr e ↦ service-has_task name ss h (rw e at k)
  ]

  module _ (ss : List Service) (each : All (λ (s : Service). has_task ts s.name ≡ true) ss) where
    service-Known : (event : DockerEvent) → OfServices ss event → Known ts event
    service-Known (action_start n) h = service-has_task n ss each h
    service-Known (action_die n) h = service-has_task n ss each h
    service-Known (action_health_status_healthy n) h = service-has_task n ss each h
    service-Known (host_failed n e) h = tt
    service-Known other_action h = tt
    service-Known stream_error h = tt

    services-Known :
        (events : List DockerEvent) → All (OfServices ss) events → All (Known ts) events
    services-Known [] h = tt
    services-Known (event ∷ events) (p, h) = (service-Known event p, services-Known events h)

-- For a runner that `NewLocalRunner` made, events of its services and failing processes on the host,
-- while nobody receives from `exitErr`: following them does not panic, and the next round of
-- `WaitForReady`, if its context has not ended, returns without an error exactly when no container
-- died and no process failed, and every task, as the events leave it, is on the host, or was started
-- and, if its service has a ready check, became healthy; if there were failures, it returns the error
-- of the first.
pub wait_for_ready-tracked :
    (system : System) (cfg : RunnerConfig) (d : LocalRunner) (events : List DockerEvent)
    → new_local_runner system cfg ≡ ok d
    → All (OfServices d.services) events
    → (d' : LocalRunner) × (track_container_status events d ≡ ok d')
      × (((wait_for_ready (second_passed d' ∷ []) ≡ ok (some none)) ↔ (
            (failures events ≡ []) × All (λ (t : Task). TaskIsReady d (tracked events t)) d.tasks))
          × ((error : String) (errors : List String)
              → failures events ≡ error ∷ errors
              → wait_for_ready (second_passed d' ∷ []) ≡ ok (some (some error))))
wait_for_ready-tracked system cfg d events made known =
    let (apart, free, quiet) = (new_local_runner-Fresh system cfg).at d made in
    wait_for_ready-Known events d apart
      (services-Known d.tasks d.services (new_local_runner-AllExist system cfg made).1 events known)
      free quiet
