-- ===== src/Command.antt =====
-- main.go: `runIt`, from the flags to the end of a session. The steps that call docker, and the build of
-- the artifacts, are known by what they answer.
pub mod Session
pub mod Cook
pub mod Tools
use builder_playground.Prelude.{
  Stop, fails, panics, ℕ, String, Bool, true, false, not, Option, none, some, List, [], ◌∷◌, ◌++◌,
  ◌⊕◌, ◌==◌, if◌then◌else◌, Result, ok, err, ◌>>=◌, GoMap, insert, lookup, split_two, decimal,
}
use builder_playground.Output.{Output, write_file}
use builder_playground.Context.{ExContext, unmarshal_level}
use builder_playground.Service.{
  Service, Builder, ◌▹◌, new_service, with_image, with_tag, with_args, with_port, with_artifact,
}
use builder_playground.Service.FirstPass.{Panic, Port}
use builder_playground.Manifest.{Manifest, Error, validate, get_service}
use builder_playground.Genesis.{ArtifactsBuilder}
use builder_playground.Runner.{LocalRunner}
use builder_playground.Runner.Create.{RunnerConfig, System, new_local_runner}

-- The flags that `runIt` reads.
pub record Flags : Type 0 where
  pub log_level : String
  pub with_overrides : List String
  pub output : String
  pub genesis_delay : ℕ
  pub with_prometheus : Bool
  pub dry_run : Bool
  pub bind_external : Bool
  pub disable_logs : Bool
  pub contender_enabled : Bool
  pub contender_args : List String
  pub contender_target : String

-- A recipe: its builder of artifacts, `Apply`, and `Output`.
pub record Recipe : Type 0 where
  pub artifacts : ArtifactsBuilder
  pub apply : ExContext → Output → Result Panic Manifest
  pub output : Manifest → Result Panic (GoMap String)

-- What the system answers to the steps: the build, and a panic of each call of the runner, or its error
-- or none. `Run` leaves the runner with other ports, whatever it returns.
pub record World : Type 0 where
  pub build : ArtifactsBuilder → Result String Output
  pub system : System
  pub run : LocalRunner → Result Panic (LocalRunner × Option String)
  pub wait_for_ready : LocalRunner → Result Panic (Option String)
  pub complete_ready : LocalRunner → Result Panic (Option String)
  pub stop : LocalRunner → Result Panic (Option String)
  -- The text of an error of `Validate`.
  pub message : Error → String

-- What happens outside: files that are written, and the calls of `Run` and `Stop`.
pub data Event : Type 0 where
  wrote : String → Event
  ran stopped : Event

pub data Exit : Type 0 where
  returned : Option String → Exit
  crashed : Panic → Exit
  panicked : String → Exit

abbrev pub Trace : Type 0
Trace = List Event × Exit

abbrev pub emit : Event → Trace → Trace
emit event trace = (event ∷ trace.0, trace.1)

abbrev pub fail : String → Trace
fail message = ([], returned (some message))

-- The overrides of the command line, `service=val`.
unfoldable pub parse_overrides : List String → GoMap String → Result String (GoMap String)
unfolding split_two insert
parse_overrides [] overrides = ok overrides
parse_overrides (val ∷ vals) overrides = elim (split_two val b'=').1 [
  | none ↦ err ("invalid override format: " ⊕ val ⊕ ", expected service=val")
  | some value ↦ parse_overrides vals (insert (split_two val b'=').0 value overrides)
]

-- Each override names a service.
unfoldable pub check_overrides : GoMap String → List Service → Result String (Unit {0})
unfolding get_service
check_overrides [] services = ok tt
check_overrides ((k, v) ∷ more) services = elim (get_service k services) [
  | none ↦ err ("service '" ⊕ k ⊕ "' in override not found in manifest")
  | some s ↦ check_overrides more services
]

abbrev pub metrics_path : Option String → String
metrics_path none = "/metrics"
metrics_path (some path) = path

pub record ScrapeConfig : Type 0 where
  pub job_name : String
  pub metrics_path : String
  pub targets : List String

abbrev pub scrape_ports : Service → List Port → List ScrapeConfig
scrape_ports c [] = []
scrape_ports c (port ∷ ports) =
    let later = scrape_ports c ports in
    if port.name == "metrics"
    then record {
      job_name = c.name;
      metrics_path = metrics_path (lookup "metrics_path" c.labels);
      targets = (c.name ⊕ ":" ⊕ decimal port.port) ∷ [];
    }
      ∷ later
    else later

-- The `scrape_configs` of `CreatePrometheusServices`, behind the external one.
unfoldable pub scrape_configs : List Service → List ScrapeConfig
scrape_configs [] = []
scrape_configs (c ∷ services) = scrape_ports c c.ports ++ scrape_configs services

-- The service that `CreatePrometheusServices` adds.
unfoldable pub prometheus : Result Panic Service
unfolding with_args with_port
prometheus =
    (with_image "prom/prometheus"
        ▹ with_tag "latest"
        ▹ with_args ("--config.file" ∷ ("/data/prometheus.yaml" ∷ []))
        ▹ with_port "metrics" 9090 ("tcp" ∷ [])
        ▹ with_artifact "/data/prometheus.yaml" "prometheus.yaml")
      (new_service "prometheus")
    >>= λ s. ok (record s { component_name = "null" })

module _ (world : World) (flags : Flags) where
  abbrev pub finished : Option String → Exit
  finished none = returned none
  finished (some e) = returned (some ("failed to stop docker: " ⊕ e))

  abbrev pub stop_exit : (Option String → Exit) → Result Panic (Option String) → Exit
  stop_exit exit (err p) = crashed p
  stop_exit exit (ok e) = exit e

  -- A call of `Stop`, and how `runIt` ends behind it.
  abbrev pub stopping : LocalRunner → (Option String → Exit) → Trace
  stopping d exit = (stopped ∷ [], stop_exit exit (world.stop d))

  -- An error that is returned behind a call of `Stop`, whose own error is dropped.
  abbrev pub abandoned : LocalRunner → String → Trace
  abandoned d message = stopping d (λ _. returned (some message))

  abbrev pub context : String → Output → ExContext
  context level out = record {
    log_level = level;
    output = out;
    bootnode = none;
    contender = record {
      enabled = flags.contender_enabled;
      extra_args = flags.contender_args;
      target_chain = flags.contender_target;
    };
  }

  abbrev pub runner_config : GoMap String → Manifest → RunnerConfig
  runner_config overrides m = record {
    services = m.services;
    manifest_overrides = [];
    overrides = overrides;
    bind_host_ports_locally = not flags.bind_external;
    log_internally = not flags.disable_logs;
  }

module _ (world : World) (flags : Flags) (recipe : Recipe) where
  -- `Output` of the recipe; the session then lasts until a signal, a container that dies, the
  -- watchdog or the timer ends it, and `Stop` is called.
  unfoldable pub shown : LocalRunner → Result Panic (GoMap String) → Trace
  shown d (err p) = ([], crashed p)
  shown d (ok _) = stopping world flags d (finished world flags)

  -- The calls of the runner in turn, on what they answer. A panic ends the program, and no `Stop`
  -- is called; the manifest has the services of the runner, by their pointers.
  unfoldable pub completed : Manifest → LocalRunner → Result Panic (Option String) → Trace
  unfolding shown
  completed m d (err p) = ([], crashed p)
  completed m d (ok (some e)) = abandoned world flags d ("failed to complete ready: " ⊕ e)
  completed m d (ok none) = shown d (recipe.output (record m { services = d.services }))

  unfoldable pub waited : Manifest → LocalRunner → Result Panic (Option String) → Trace
  unfolding completed
  waited m d (err p) = ([], crashed p)
  waited m d (ok (some e)) = abandoned world flags d ("failed to wait for service readiness: " ⊕ e)
  waited m d (ok none) = completed m d (world.complete_ready d)

  -- What follows the call of `Run`.
  unfoldable pub running : Manifest → Result Panic (LocalRunner × Option String) → Trace
  unfolding waited
  running m (err p) = ([], crashed p)
  running m (ok (d, some e)) = abandoned world flags d ("failed to run docker: " ⊕ e)
  running m (ok (d, none)) = waited m d (world.wait_for_ready d)

  unfoldable pub created : Manifest → Result Stop LocalRunner → Trace
  unfolding running
  created m (err (fails e)) = fail ("failed to create docker runner: " ⊕ e)
  created m (err (panics e)) = ([], panicked e)
  created m (ok d) = emit ran (running m (world.run d))

  unfoldable pub checked : GoMap String → Manifest → Result String (Unit {0}) → Trace
  unfolding created new_local_runner
  checked overrides m (err e) = fail e
  checked overrides m (ok _) =
      created m (new_local_runner world.system (runner_config world flags overrides m))

  -- The end of a dry run, and else the check of the overrides.
  unfoldable pub launched : GoMap String → Manifest → Trace
  unfolding checked check_overrides
  launched overrides m =
      if flags.dry_run
      then ([], returned none)
      else checked overrides m (check_overrides overrides m.services)

  unfoldable pub with_service : GoMap String → Manifest → Result Panic Service → Trace
  unfolding launched
  with_service overrides m (err p) = ([], crashed p)
  with_service overrides m (ok s) =
      launched overrides (record m { services = m.services ++ s ∷ [] })

  -- `CreatePrometheusServices`
  unfoldable pub scraped : GoMap String → Manifest → Result String Output → Trace
  unfolding with_service prometheus
  scraped overrides m (err e) =
      fail ("failed to create prometheus services: failed to write prometheus.yml: " ⊕ e)
  scraped overrides m (ok out) =
      emit (wrote "prometheus.yaml") (with_service overrides m prometheus)

  -- `SaveJson`, and the Prometheus service if it is asked for.
  unfoldable pub saved : GoMap String → Manifest → Result String Output → Trace
  unfolding scraped launched write_file
  saved overrides m (err e) = fail ("failed to save manifest: " ⊕ e)
  saved overrides m (ok out) = emit (wrote "manifest.json") (
      if flags.with_prometheus
      then scraped overrides m (write_file "prometheus.yaml" out)
      else launched overrides m)

  unfoldable pub graphed : GoMap String → Manifest → Result String Output → Trace
  unfolding saved write_file
  graphed overrides m (err e) = fail e
  graphed overrides m (ok out) =
      emit (wrote "graph.dot") (saved overrides m (write_file "manifest.json" out))

  unfoldable pub validated : GoMap String → Manifest → Result Error (Unit {0}) → Trace
  unfolding graphed write_file
  validated overrides m (err e) = fail ("failed to validate manifest: " ⊕ world.message e)
  validated overrides m (ok _) = graphed overrides m (write_file "graph.dot" m.ctx.output)

  unfoldable pub applied : GoMap String → Result Panic Manifest → Trace
  unfolding validated validate
  applied overrides (err p) = ([], crashed p)
  applied overrides (ok m) = validated overrides m (validate m)

  unfoldable pub built : String → GoMap String → Result String Output → Trace
  unfolding applied
  built level overrides (err e) = fail e
  built level overrides (ok out) =
      applied overrides (recipe.apply (context world flags level out) out)

  unfoldable pub parsed : String → Result String (GoMap String) → Trace
  unfolding built
  parsed level (err e) = fail e
  parsed level (ok overrides) = built level overrides (
      world.build (record recipe.artifacts {
        output_dir = flags.output;
        genesis_delay = flags.genesis_delay;
      }))

  unfoldable pub leveled : Result String String → Trace
  unfolding parsed parse_overrides
  leveled (err e) = fail ("failed to parse log level: " ⊕ e)
  leveled (ok level) = parsed level (parse_overrides flags.with_overrides [])

  -- `runIt`
  unfoldable pub run_it : Trace
  unfolding leveled unmarshal_level
  run_it = leveled (unmarshal_level flags.log_level)
