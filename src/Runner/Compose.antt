-- ===== src/Runner/Compose.antt =====
-- `toDockerComposeService` and `generateDockerCompose` of playground/local_runner.go.
pub mod Members
use builder_playground.Prelude.{
  ℕ, String, Bool, true, false, not, ◌||◌, ◌&&◌, Option, none, some, List, [], ◌∷◌, ◌++◌, ◌≡◌, refl,
  sym, ap, ◌∙◌, if◌then◌else◌, Result, ok, err, ◌>>=◌, ◌>>◌, >>=-eq-ok, ◌==◌, ◌⊕◌, decimal, GoMap,
  insert, lookup, any, Bool-cases, inl, inr, eq_iff, eq_refl,
}
use builder_playground.Service.{Service, ReadyCheck, DependsOn}
use builder_playground.Service.FirstPass.{Panic, Port, udp}
use builder_playground.Runner.{LocalRunner, is_host_service, is_there, reserve_all}
use builder_playground.Runner.Second.{apply_second}
use builder_playground.Runner.Host.{create_volume}

pub record HealthCheck : Type 0 where
  pub test : List String
  -- Durations in seconds.
  pub interval : ℕ
  pub timeout : ℕ
  pub retries : ℕ
  pub start_period : ℕ

-- An entry of `services` in docker-compose.yaml; a list that the source leaves out is empty.
pub record ComposeService : Type 0 where
  pub image : String
  pub command : List String
  pub volumes : List String
  pub networks : List String
  pub labels : GoMap String
  pub platform : String
  pub environment : GoMap String
  pub healthcheck : Option HealthCheck
  pub depends_on : GoMap String
  pub extra_hosts : GoMap String
  pub entrypoint : String
  pub ports : List String

-- The settings of the runner, the output folder, and what docker and the system answer: the error of
-- an image, the directories that are made, and whether they run on Linux.
pub record Docker : Type 0 where
  pub session_id : String
  pub network_name : String
  pub labels : GoMap String
  pub platform : String
  pub output_folder : Result String String
  pub image_error : String → Option String
  pub create_dir : String → Result String String
  pub is_linux : Bool

pub data ComposeError : Type 0 where
  fails : String → ComposeError
  panics : Panic → ComposeError

abbrev pub wrapped {ℓ} : {A : Type ℓ} → String → Result String A → Result ComposeError A
wrapped message (ok a) = ok a
wrapped message (err e) = err (fails (message ⊕ e))

abbrev pub image_found : String → Option String → Result ComposeError (Unit {0})
image_found image none = ok tt
image_found image (some e) = err (fails ("failed to validate image " ⊕ image ⊕ ": " ⊕ e))

unfoldable pub merge_labels : GoMap String → GoMap String → GoMap String
unfolding insert
merge_labels [] labels = labels
merge_labels ((k, v) ∷ more) labels = merge_labels more (insert k v labels)

unfoldable pub port_labels : List Port → GoMap String → GoMap String
unfolding insert
port_labels [] labels = labels
port_labels (p ∷ ps) labels = port_labels ps (insert ("port." ⊕ p.name) (decimal p.port) labels)

-- The artifacts by their local paths; an artifact that is mapped twice keeps one path.
unfoldable pub file_volumes : String → GoMap String → GoMap String → GoMap String
unfolding insert
file_volumes folder [] volumes = volumes
file_volumes folder ((path, artifact) ∷ more) volumes =
    file_volumes folder more (insert (folder ⊕ "/" ⊕ artifact) path volumes)

unfoldable pub bind_volumes :
    (String → Result String String)
    → String
    → GoMap String
    → GoMap String
    → Result String (GoMap String)
unfolding create_volume insert
bind_volumes create_dir service [] volumes = ok volumes
bind_volumes create_dir service ((local_path, volume_name) ∷ more) volumes =
    create_volume create_dir service volume_name >>= λ dir.
    bind_volumes create_dir service more (insert dir local_path volumes)

abbrev pub volume_lines : GoMap String → List String
volume_lines [] = []
volume_lines ((k, v) ∷ more) = (k ⊕ ":" ⊕ v) ∷ volume_lines more

abbrev pub health_check : Option ReadyCheck → Option HealthCheck
health_check none = none
health_check (some check) = some (record {
  test =
      if check.query_url == ""
      then check.test
      else "CMD-SHELL"
        ∷ (("chmod +x /artifacts/scripts/query.sh && /artifacts/scripts/query.sh "
              ⊕ check.query_url)
            ∷ []);
  interval = check.interval;
  timeout = check.timeout;
  retries = check.retries;
  start_period = check.start_period;
})

-- The conditions by the names of the services; none is written for the empty one.
unfoldable pub depends : List DependsOn → GoMap String → GoMap String
unfolding insert
depends [] entries = entries
depends (d ∷ ds) entries = depends ds (insert d.name d.condition entries)

abbrev pub port_line : Bool → Port → String
port_line locally p =
    let protocol = if p.protocol == udp then "/udp" else "" in
    if locally
    then "127.0.0.1:" ⊕ decimal p.host_port ⊕ ":" ⊕ decimal p.port ⊕ protocol
    else decimal p.host_port ⊕ ":" ⊕ decimal p.port ⊕ protocol

abbrev pub port_lines : Bool → List Port → List String
port_lines locally [] = []
port_lines locally (p ∷ ps) = port_line locally p ∷ port_lines locally ps

module _ (docker : Docker) where
  abbrev pub all_labels : Service → GoMap String
  all_labels s = port_labels s.ports (
      merge_labels docker.labels (
        ("playground", "true")
        ∷ (("playground.session", docker.session_id) ∷ (("service", s.name) ∷ []))))

  -- `toDockerComposeService`
  unfoldable pub to_docker_compose_service :
      LocalRunner → Service → Result ComposeError ComposeService
  unfolding apply_second port_labels merge_labels file_volumes bind_volumes depends
  to_docker_compose_service d s = do
    (args, envs) ← wrapped "failed to apply template, err: " (apply_second d s)
    folder ← wrapped "failed to get absolute path for output folder: " docker.output_folder
    let image = s.image ⊕ ":" ⊕ s.tag
    _ ← image_found image (docker.image_error image)
    volumes ← wrapped "" (
        bind_volumes docker.create_dir s.name s.volumes_mapped
          (file_volumes folder s.files_mapped ((folder, "/artifacts") ∷ [])))
    ok (record {
      image = image;
      command = args;
      volumes = volume_lines volumes;
      networks = docker.network_name ∷ [];
      labels = all_labels s;
      platform = docker.platform;
      environment = envs;
      healthcheck = health_check s.ready_check;
      depends_on = depends s.depends_on [];
      extra_hosts = if docker.is_linux then ("host.docker.internal", "172.17.0.1") ∷ [] else [];
      entrypoint = s.entrypoint;
      ports = port_lines d.bind_host_ports_locally s.ports;
    })

  abbrev pub converted :
      String → Result ComposeError ComposeService → Result ComposeError ComposeService
  converted name (ok c) = ok c
  converted name (err (panics p)) = err (panics p)
  converted name (err (fails e)) =
      err (fails ("failed to convert service " ⊕ name ⊕ " to docker compose service: " ⊕ e))

  -- The loop of `generateDockerCompose` over the services.
  unfoldable pub compose_services :
      LocalRunner → List Service → GoMap ComposeService → Result ComposeError (GoMap ComposeService)
  unfolding is_host_service to_docker_compose_service insert
  compose_services d [] services = ok services
  compose_services d (svc ∷ more) services =
      if is_host_service d svc.name
      then compose_services d more services
      else (converted svc.name (to_docker_compose_service d svc) >>= λ c.
          compose_services d more (insert svc.name c services))

  abbrev pub reserved_first : Result Panic LocalRunner → Result ComposeError LocalRunner
  reserved_first (ok d) = ok d
  reserved_first (err p) = err (panics p)

  -- `generateDockerCompose`: the runner with its ports, and the services of the file.
  unfoldable pub generate_docker_compose :
      (String → String → ℕ → Bool)
      → LocalRunner
      → Result ComposeError (LocalRunner × GoMap ComposeService)
  unfolding reserve_all compose_services
  generate_docker_compose listens d = do
    d1 ← reserved_first (reserve_all listens d)
    services ← compose_services d1 d1.services []
    ok (d1, services)

  -- A service of this name runs in docker.
  abbrev pub in_docker : LocalRunner → String → List Service → Bool
  in_docker d name ss = any (λ (s : Service). s.name == name && not (is_host_service d s.name)) ss
