-- ===== src/Runner/Session.antt =====
-- `Run` and `Stop` of playground/local_runner.go: the compose file, the processes on the host, and what is
-- removed and killed at the end.
pub mod Ends
use builder_playground.Prelude.{
  ℕ, String, Bool, true, false, Option, none, some, List, [], ◌∷◌, ◌++◌, ◌≡◌, refl, sym, ap, ◌∙◌,
  ◌↔◌, Result, ok, err, ◌>>=◌, ◌⊕◌, GoMap, lookup, if◌then◌else◌, map, Bool-cases, inl, inr, All,
  any, not, ok_inj,
}
use mathlib.Core.Path.{subst}
use builder_playground.Output.{Output, write_file}
use builder_playground.Service.{Service}
use builder_playground.Service.FirstPass.{Panic}
use builder_playground.Runner.{LocalRunner, is_host_service}
use builder_playground.Runner.Host.{run_on_host}
use builder_playground.Runner.Compose.{
  Docker, ComposeService, ComposeError, fails, panics, generate_docker_compose,
}

-- A process on the host: the name of its service. `cmd.Process` is nil until it has started.
pub record Handle : Type 0 where
  pub service : String
  pub has_process : Bool

-- What the system answers to `Run`: the error of `docker compose up` with its output, and whether the
-- process of a service starts.
pub record Launcher : Type 0 where
  pub up_error : Option (String × String)
  pub starts : String → Bool

-- The runner after `Run`, with its reserved ports, its handles, and the error that it returns.
pub record Launched : Type 0 where
  pub runner : LocalRunner
  pub handles : List Handle
  pub error : Option String

-- One call of `runOnHost` in the goroutine of `Run`, and the rest of the loop. The first error is sent and
-- ends `Run`, and the loop goes on; a second one finds no receiver, and the goroutine stays there.
abbrev pub after_host :
    Launcher
    → String
    → Result String (String × List String)
    → Option String
    → (Option String → List Handle × Option String)
    → List Handle × Option String
after_host launcher name (ok command) sent rest =
    (record { service = name; has_process = launcher.starts name } ∷ (rest sent).0, (rest sent).1)
after_host launcher name (err e) none rest = rest (some e)
after_host launcher name (err e) (some first) rest = ([], some first)

module _ (docker : Docker) (launcher : Launcher) (out : Output) where
  unfoldable pub run_hosts :
      LocalRunner → List Service → Option String → List Handle × Option String
  unfolding is_host_service run_on_host
  run_hosts d [] sent = ([], sent)
  run_hosts d (svc ∷ more) sent =
      if is_host_service d svc.name
      then after_host launcher svc.name (run_on_host docker.create_dir out.dst d svc) sent
          (run_hosts d more)
      else run_hosts d more sent

  abbrev pub composed : LocalRunner → Option (String × String) → Launched
  composed d (some (e, text)) = record {
    runner = d;
    handles = [];
    error = some ("failed to run docker-compose: " ⊕ e ⊕ ", err: " ⊕ text);
  }
  composed d none =
      let hosts = run_hosts d d.services none in
      record { runner = d; handles = hosts.0; error = hosts.1 }

  abbrev pub wrote : LocalRunner → Result String Output → Launched
  wrote d (err e) = record {
    runner = d;
    handles = [];
    error = some ("failed to write docker-compose.yaml: " ⊕ e);
  }
  wrote d (ok out') = composed d launcher.up_error

  abbrev pub generated :
      LocalRunner → Result ComposeError (LocalRunner × GoMap ComposeService) → Result Panic Launched
  generated d (err (fails e)) = ok (record {
    runner = d;
    handles = [];
    error = some ("failed to generate docker-compose.yaml: " ⊕ e);
  })
  generated d (err (panics p)) = err p
  generated d (ok (d1, services)) = ok (wrote d1 (write_file "docker-compose.yaml" out))

  -- `Run`; the events of docker are followed beside it.
  unfoldable pub run : (String → String → ℕ → Bool) → LocalRunner → Result Panic Launched
  unfolding generate_docker_compose run_hosts write_file
  run listens d = generated d (generate_docker_compose docker listens d)

-- What `Stop` does, in order.
pub data StopAct : Type 0 where
  removed killed : String → StopAct

pub data StopEnd : Type 0 where
  returned : Option String → StopEnd
  nil_process : StopEnd

-- The errors of the removals, in the order in which these end.
abbrev pub first_error : List (String × Option String) → Option String
first_error [] = none
first_error ((id, none) ∷ results) = first_error results
first_error ((id, some e) ∷ results) = some ("error removing container: " ⊕ e)

abbrev pub removals : List (String × Option String) → List StopAct
removals [] = []
removals ((id, result) ∷ results) = removed id ∷ removals results

-- The kills, and how `Stop` ends: `Kill` of a nil process is a nil dereference.
unfoldable pub kill_all : List Handle → Option String → List StopAct × StopEnd
kill_all [] error = ([], returned error)
kill_all (handle ∷ handles) error =
    let later = kill_all handles error in
    if handle.has_process then (killed handle.service ∷ later.0, later.1) else ([], nil_process)

-- `Stop`, with the containers of the session and how their removal ends, or the error of listing them.
unfoldable pub stop :
    Result String (List (String × Option String)) → List Handle → List StopAct × StopEnd
unfolding kill_all
stop (err e) handles = ([], returned (some ("error getting container list: " ⊕ e)))
stop (ok results) handles =
    let kills = kill_all handles (first_error results) in (removals results ++ kills.0, kills.1)
