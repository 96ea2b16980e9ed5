-- ===== src/Runner/Track.antt =====
-- `trackContainerStatusAndLogs` and `WaitForReady` of playground/local_runner.go: the events of docker.
pub mod Readiness
pub mod Failures
pub mod Started
use builder_playground.Prelude.{
  String, Bool, true, false, Option, none, some, List, [], ◌∷◌, ◌++◌, ◌≡◌, refl, if◌then◌else◌,
  Result, ok, ◌>>=◌, ◌==◌, ◌⊕◌, ltb, length, Bool-cases, inl, inr,
}
use builder_playground.Service.FirstPass.{Panic}
use builder_playground.Runner.{
  Task, container_failed, LocalRunner, update_task_status, set_status, are_ready,
  task_status_started, task_status_die, task_status_healthy,
}

-- The events of docker by the name of their service, any other event, and errors of the stream. A
-- process on the host that ends with an error, by its service, comes between them.
pub data DockerEvent : Type 0 where
  action_start action_die action_health_status_healthy : String → DockerEvent
  host_failed : String → String → DockerEvent
  other_action stream_error : DockerEvent

abbrev pub host_error : String → String → String
host_error name e = "error running host service " ⊕ name ⊕ ": " ⊕ e

-- The send of the goroutine of `runOnHost`: it waits alone where `exitErr` is full.
unfoldable pub send_host : String → LocalRunner → LocalRunner
send_host error d =
    if ltb (length d.exit_err) 2 then record d { exit_err = d.exit_err ++ error ∷ [] } else d

unfoldable pub on_event : DockerEvent → LocalRunner → Result Panic LocalRunner
unfolding update_task_status send_host
on_event (action_start name) d = update_task_status name task_status_started d
on_event (action_die name) d = update_task_status name task_status_die d
on_event (action_health_status_healthy name) d = update_task_status name task_status_healthy d
on_event (host_failed name e) d = ok (send_host (host_error name e) d)
on_event other_action d = ok d
on_event stream_error d = ok d

-- The loop of `trackContainerStatusAndLogs`.
unfoldable pub track_container_status : List DockerEvent → LocalRunner → Result Panic LocalRunner
unfolding on_event
track_container_status [] d = ok d
track_container_status (event ∷ events) d = on_event event d >>= track_container_status events

-- What `WaitForReady` sees in a round: the end of its context, or the runner as it is when a second has
-- passed. An error that is in `exitErr` by then came before, and is received.
pub data Wake : Type 0 where
  cancelled : String → Wake
  second_passed : LocalRunner → Wake

abbrev pub unless_exited :
    List String → Result Panic (Option (Option String)) → Result Panic (Option (Option String))
unless_exited [] rest = rest
unless_exited (error ∷ errors) rest = ok (some (some error))

-- `WaitForReady`: the error or none that it returns, when it returns.
unfoldable pub wait_for_ready : List Wake → Result Panic (Option (Option String))
unfolding are_ready
wait_for_ready [] = ok none
wait_for_ready (cancelled e ∷ wakes) = ok (some (some e))
wait_for_ready (second_passed d ∷ wakes) =
    unless_exited d.exit_err
      (are_ready d >>= λ ready. if ready then ok (some none) else wait_for_ready wakes)

-- What the events say of one service: the last start or death, and whether it was ever healthy.
abbrev pub status_after : String → List DockerEvent → String → String
status_after name [] status = status
status_after name (action_start n ∷ events) status =
    status_after name events (if n == name then task_status_started else status)
status_after name (action_die n ∷ events) status =
    status_after name events (if n == name then task_status_die else status)
status_after name (_ ∷ events) status = status_after name events status

abbrev pub ready_after : String → List DockerEvent → Bool → Bool
ready_after name [] ready = ready
ready_after name (action_health_status_healthy n ∷ events) ready =
    ready_after name events (if n == name then true else ready)
ready_after name (_ ∷ events) ready = ready_after name events ready

-- The errors that the events send to `exitErr`, if there is room.
abbrev pub failures : List DockerEvent → List String
failures [] = []
failures (action_die n ∷ events) = container_failed n ∷ failures events
failures (host_failed n e ∷ events) = host_error n e ∷ failures events
failures (_ ∷ events) = failures events

abbrev pub mark : String → Task → Task
mark status t =
    if status == task_status_healthy
    then record t { ready = true }
    else record t { status = status }

set_status-hit :
    (n status : String) (t : Task) (ts : List Task)
    → (t.name == n) ≡ true
    → set_status n status (t ∷ ts) ≡ mark status t ∷ ts
unfolding set_status
set_status-hit n status t ts e = elim (Bool-cases (status == task_status_healthy)) [
  | inl h ↦ rw (e, h) refl
  | inr h ↦ rw (e, h) refl
]

set_status-miss :
    (n status : String) (t : Task) (ts : List Task)
    → (t.name == n) ≡ false
    → set_status n status (t ∷ ts) ≡ t ∷ set_status n status ts
unfolding set_status
set_status-miss n status t ts e = rw e refl

mark-name : (status : String) (t : Task) → (mark status t).name ≡ t.name
mark-name status t = elim (Bool-cases (status == task_status_healthy)) [
  | inl h ↦ rw h refl
  | inr h ↦ rw h refl
]
