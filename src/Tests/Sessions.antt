-- ===== src/Tests/Sessions.antt =====
-- The start of the local runner, its compose file and its events at concrete inputs.
use builder_playground.Prelude.{
  String, true, false, none, some, not, ◌↔◌, List, [], ◌∷◌, ◌++◌, ◌≡◌, ◌>>=◌, refl, ◌==◌, any,
  lookup, ok, err, All, GoMap, replace_all,
}
use builder_playground.Service.{Service}
use builder_playground.Runner.{Task, LocalRunner, is_host_service, is_there, update_task_status}
use builder_playground.Runner.Create.{
  RunnerConfig, System, new_local_runner, AllExist, new_local_runner-AllExist,
}
use builder_playground.Runner.Host.{replace_mapped, replace_mapped-last}
use builder_playground.Runner.Compose.{Docker, ComposeService, generate_docker_compose, in_docker}
use builder_playground.Runner.Compose.Members.{generate_docker_compose-in_docker}
use builder_playground.Output.{Output}
use builder_playground.Runner.Session.{
  Handle, Launcher, Launched, run, returned, nil_process, removals, stop,
}
use builder_playground.Runner.Session.Ends.{hosted, kills, stop-run, stop-crashes_iff}
use builder_playground.Runner.Track.{
  DockerEvent, action_start, action_die, action_health_status_healthy, track_container_status,
  second_passed, wait_for_ready, failures,
}
use builder_playground.Runner.Track.Readiness.{tracked}
use builder_playground.Runner.Track.Started.{wait_for_ready-tracked}
use builder_playground.Runner.Status.{TaskIsReady}

abbrev service : String → String → Service
service name component = record {
  name = name;
  args = [];
  labels = [];
  env = [];
  ready_check = none;
  depends_on = [];
  ports = [];
  node_refs = [];
  files_mapped = [];
  volumes_mapped = [];
  component_name = component;
  tag = "v1";
  image = "image";
  entrypoint = "";
}

abbrev system : System
system = record {
  exists = λ path. path == "/bin/reth";
  log_error = λ name. none;
  download = λ c. err "no network";
}

abbrev cfg : RunnerConfig
cfg = record {
  services = service "el" "reth" ∷ (service "op-node" "op-node" ∷ []);
  manifest_overrides = [];
  overrides = ("el", "/bin/reth") ∷ (("op-node", "node:v2") ∷ []);
  bind_host_ports_locally = true;
  log_internally = true;
}

abbrev pending : String → Task
pending name = record { name = name; status = "pending"; ready = false }

abbrev started : LocalRunner
started = record {
  services =
      service "el" "reth"
      ∷ (record (service "op-node" "op-node") { image = "node"; tag = "v2" } ∷ []);
  reserved_ports = [];
  overrides = ("el", "/bin/reth") ∷ [];
  tasks = pending "op-node" ∷ (pending "el" ∷ []);
  bind_host_ports_locally = true;
  exit_err = [];
  waiting = none;
}

new_local_runner-AllExist_example :
    AllExist system started.overrides
    × All
        (λ (s : Service). any (λ (t : Task). t.name == s.name) started.tasks ≡ true)
        started.services
unfolding new_local_runner
new_local_runner-AllExist_example = new_local_runner-AllExist system cfg {d = started} refl

replace_mapped-last_example :
    replace_mapped "--a=/x --b=/y" (("/x", "/out/x") ∷ [] ++ ("/y", "/out/y") ∷ []) "--a=/x --b=/y"
    ≡ replace_all "--a=/x --b=/y" "/y" "/out/y"
replace_mapped-last_example =
    replace_mapped-last "--a=/x --b=/y" "/y" "/out/y" (("/x", "/out/x") ∷ []) [] refl tt

abbrev docker : Docker
docker = record {
  session_id = "1";
  network_name = "net";
  labels = [];
  platform = "";
  output_folder = ok "/out";
  image_error = λ image. none;
  create_dir = λ name. ok name;
  is_linux = true;
}

abbrev compose_file : GoMap ComposeService
compose_file =
    (
      "op-node",
      record {
        image = "node:v2";
        command = [];
        volumes = "/out:/artifacts" ∷ [];
        networks = "net" ∷ [];
        labels =
            ("playground", "true") ∷ (("playground.session", "1") ∷ (("service", "op-node") ∷ []));
        platform = "";
        environment = [];
        healthcheck = none;
        depends_on = [];
        extra_hosts = ("host.docker.internal", "172.17.0.1") ∷ [];
        entrypoint = "";
        ports = [];
      },
    )
    ∷ []

generate_docker_compose-in_docker_example :
    is_there (lookup "op-node" compose_file) ≡ in_docker docker started "op-node" started.services
unfolding generate_docker_compose
generate_docker_compose-in_docker_example =
    generate_docker_compose-in_docker docker (λ addr protocol i. true) started started compose_file
      "op-node" refl

abbrev came_up : List DockerEvent
came_up = action_start "op-node" ∷ (action_health_status_healthy "op-node" ∷ [])

wait_for_ready-tracked_example :
    (d' : LocalRunner) × (track_container_status came_up started ≡ ok d')
    × (((wait_for_ready (second_passed d' ∷ []) ≡ ok (some none)) ↔ (
          (failures came_up ≡ [])
          × All (λ (t : Task). TaskIsReady started (tracked came_up t)) started.tasks))
        × ((error : String) (errors : List String)
            → failures came_up ≡ error ∷ errors
            → wait_for_ready (second_passed d' ∷ []) ≡ ok (some (some error))))
unfolding new_local_runner
wait_for_ready-tracked_example =
    wait_for_ready-tracked system cfg started came_up refl (refl, (refl, tt))

-- A container that dies and is started again.
abbrev came_back : List DockerEvent
came_back = action_die "op-node" ∷ (action_start "op-node" ∷ [])

given_up :
    (track_container_status came_back started >>= λ d. wait_for_ready (second_passed d ∷ []))
    ≡ ok (some (some "container op-node failed"))
unfolding track_container_status wait_for_ready update_task_status
given_up = refl

up_at_once :
    (track_container_status came_up started >>= λ d. wait_for_ready (second_passed d ∷ []))
    ≡ ok (some none)
unfolding track_container_status wait_for_ready
up_at_once = refl

abbrev launcher : Launcher
launcher = record { up_error = none; starts = λ name. true }

abbrev empty_folder : Output
empty_folder = record {
  dst = "/out";
  home_dir = "/home";
  enode_addr_seq = none;
  files = [];
  faults = [];
}

abbrev after_run : Launched
after_run = record {
  runner = started;
  handles = record { service = "el"; has_process = true } ∷ [];
  error = none;
}

stop-run_example : stop (ok (("c1", none) ∷ (("c2", some "in use") ∷ []))) after_run.handles ≡ (
  removals (("c1", none) ∷ (("c2", some "in use") ∷ [])) ++ kills (hosted started started.services),
  returned (some "error removing container: in use"),
)
unfolding run is_host_service
stop-run_example =
    stop-run docker launcher empty_folder (λ addr protocol i. true) started after_run
      (("c1", none) ∷ (("c2", some "in use") ∷ [])) refl refl (refl, tt)

stop-crashes_iff_example :
    ((stop (ok []) (record { service = "el"; has_process = false } ∷ [])).1 ≡ nil_process) ↔ (
      any (λ (h : Handle). not h.has_process) (record { service = "el"; has_process = false } ∷ [])
      ≡ true)
stop-crashes_iff_example = stop-crashes_iff [] (record { service = "el"; has_process = false } ∷ [])
