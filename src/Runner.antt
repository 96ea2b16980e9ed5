-- ===== src/Runner.antt =====
-- playground/local_runner.go: the state of `LocalRunner`, the ports that it reserves on the host, and
-- the status of its tasks. Docker is not modelled; `listens` says at which address, protocol and port
-- the operating system lets a listener open (net.Listen, net.ListenUDP).
pub mod Ports
pub mod Second
pub mod Status
pub mod Create
pub mod Host
pub mod Compose
pub mod Track
pub mod Session
use builder_playground.Prelude.{
  ℕ, zero, suc, ◌+◌, String, Bool, true, false, not, ◌||◌, ◌&&◌, Option, none, some, List, [], ◌∷◌,
  ◌++◌, any, length, ltb, GoMap, lookup, eqb, if◌then◌else◌, Result, ok, err, ◌>>=◌, ◌==◌, ◌⊕◌,
}
use builder_playground.Service.{Service, ReadyCheck}
use builder_playground.Service.FirstPass.{
  Panic, unsupported_protocol, no_free_port, service_not_found, Port, tcp, udp,
}
use builder_playground.Manifest.{get_service}

abbrev pub task_status_started : String
task_status_started = "started"

abbrev pub task_status_die : String
task_status_die = "die"

abbrev pub task_status_healthy : String
task_status_healthy = "healthy"

pub record Task : Type 0 where
  pub name : String
  pub status : String
  pub ready : Bool

pub record LocalRunner : Type 0 where
  pub services : List Service
  pub reserved_ports : List ℕ
  -- The executables of the services that run on the host.
  pub overrides : GoMap String
  pub tasks : List Task
  pub bind_host_ports_locally : Bool
  -- The errors that were sent to `exitErr` and not received, the first one first.
  pub exit_err : List String
  -- The error whose sender waits for room in `exitErr`, with `tasksMtx` locked.
  pub waiting : Option String

abbrev pub is_there {ℓ} : {A : Type ℓ} → Option A → Bool
is_there none = false
is_there (some a) = true

unfoldable pub is_host_service : LocalRunner → String → Bool
is_host_service d name = is_there (lookup name d.overrides)

abbrev pub reserved : List ℕ → ℕ → Bool
reserved ports i = any (λ p. eqb p i) ports

abbrev pub bind_addr : Bool → String
bind_addr locally = if locally then "127.0.0.1" else "0.0.0.0"

module _ (listens : String → String → ℕ → Bool) where
  -- The loop of `reservePort`, with the number of ports still to try.
  unfoldable pub first_free : ℕ → ℕ → String → List ℕ → String → Result Panic ℕ
  first_free zero i protocol ports addr = err (no_free_port i)
  first_free (suc k) i protocol ports addr =
      let rest = first_free k (i + 1) protocol ports addr in
      if reserved ports i
      then rest
      else if protocol == udp || protocol == tcp
      then (if listens addr protocol i then ok i else rest)
      else err (unsupported_protocol protocol)

  unfoldable pub reserve_port : ℕ → String → LocalRunner → Result Panic (ℕ × LocalRunner)
  unfolding first_free
  reserve_port start_port protocol d = do
    i ← first_free 1000 start_port protocol d.reserved_ports (bind_addr d.bind_host_ports_locally)
    ok (i, record d { reserved_ports = i ∷ d.reserved_ports })

  -- The loop of `generateDockerCompose` over the ports of a service.
  unfoldable pub reserve_ports : List Port → LocalRunner → Result Panic (List Port × LocalRunner)
  unfolding reserve_port
  reserve_ports [] d = ok ([], d)
  reserve_ports (p ∷ ps) d = do
    (i, d1) ← reserve_port p.port p.protocol d
    (qs, d2) ← reserve_ports ps d1
    ok (record p { host_port = i } ∷ qs, d2)

  -- The loop over the services around it.
  unfoldable pub reserve_services :
      List Service → LocalRunner → Result Panic (List Service × LocalRunner)
  unfolding reserve_ports
  reserve_services [] d = ok ([], d)
  reserve_services (s ∷ ss) d = do
    (ps, d1) ← reserve_ports s.ports d
    (ts, d2) ← reserve_services ss d1
    ok (record s { ports = ps } ∷ ts, d2)

  unfoldable pub reserve_all : LocalRunner → Result Panic LocalRunner
  unfolding reserve_services
  reserve_all d = do (ss, d1) ← reserve_services d.services d; ok (record d1 { services = ss })

-- The loop of `AreReady` over the tasks; `getService` of a task always finds its service, since the
-- tasks are made from the manifest, and nil is dereferenced otherwise.
abbrev pub ready_if : Option ReadyCheck → Bool → Bool
ready_if none ready = true
ready_if (some _) ready = ready

abbrev pub task_is_ready : Task → Option Service → Result Panic Bool
task_is_ready t none = err (service_not_found t.name)
task_is_ready t (some s) = ok (ready_if s.ready_check t.ready)

unfoldable pub tasks_ready : LocalRunner → List Task → Result Panic Bool
unfolding is_host_service get_service
tasks_ready d [] = ok true
tasks_ready d (t ∷ ts) =
    let rest = tasks_ready d ts in
    if is_host_service d t.name
    then rest
    else if not (t.status == task_status_started)
    then ok false
    else task_is_ready t (get_service t.name d.services) >>= λ b. if b then rest else ok false

-- `AreReady`, on a runner whose `tasksMtx` is free: no sender waits.
unfoldable pub are_ready : LocalRunner → Result Panic Bool
unfolding tasks_ready
are_ready d = tasks_ready d d.tasks

unfoldable pub set_status : String → String → List Task → List Task
set_status name status [] = []
set_status name status (t ∷ ts) =
    let rest = set_status name status ts in
    if t.name == name
    then (if status == task_status_healthy
        then record t { ready = true } ∷ ts
        else record t { status = status } ∷ ts)
    else t ∷ rest

-- The send to `exitErr`, which has room for two errors; the sender of a third one waits.
unfoldable pub send_exit : String → LocalRunner → LocalRunner
send_exit error d =
    if ltb (length d.exit_err) 2
    then record d { exit_err = d.exit_err ++ error ∷ [] }
    else record d { waiting = some error }

-- The text of the error of a container that died.
abbrev pub container_failed : String → String
container_failed name = "container " ⊕ name ⊕ " failed"

-- A task that does not exist is a nil dereference. While a sender waits, nothing more is done, and it
-- waits as long as nobody receives from `exitErr`.
unfoldable pub update_task_status : String → String → LocalRunner → Result Panic LocalRunner
unfolding set_status send_exit
update_task_status name status d =
    let updated = record d { tasks = set_status name status d.tasks } in
    if is_there d.waiting
    then ok d
    else if any (λ (t : Task). t.name == name) d.tasks
    then ok
        (if status == task_status_die then send_exit (container_failed name) updated else updated)
    else err (service_not_found name)
