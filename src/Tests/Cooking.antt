-- ===== src/Tests/Cooking.antt =====
-- A session of the command line, its flags, the graph of a manifest and a log at concrete inputs.
use mathlib.Core.Path.{subst}
use builder_playground.Flag.{nullable_set, nullable_string, map_set}
use builder_playground.Flag.Numbers.{nullable_set-nullable_string}
use builder_playground.Prelude.{
  ℕ, Option, ◌<◌, ◌^◌, arith, true, false, none, some, [], ◌∷◌, ◌≡◌, refl, ok, err, decimal,
}
use builder_playground.Output.{Output}
use builder_playground.Service.{Service, new_service}
use builder_playground.Service.FirstPass.{port_at, tcp}
use builder_playground.Manifest.Graph.{generate_dot_graph, find_log}
use builder_playground.Genesis.{new_artifacts_builder}
use builder_playground.Command.{Flags, Recipe, World, run_it}
use builder_playground.Command.Session.{IsSession, run_it-IsSession}

abbrev out_folder : Output
out_folder = record {
  dst = "/out";
  home_dir = "/home";
  enode_addr_seq = none;
  files = [];
  faults = [];
}

abbrev flags : Flags
flags = record {
  log_level = "info";
  with_overrides = "el=reth:v1" ∷ [];
  output = "/out";
  genesis_delay = 10;
  with_prometheus = true;
  dry_run = false;
  bind_external = false;
  disable_logs = true;
  contender_enabled = false;
  contender_args = [];
  contender_target = "";
}

abbrev world : World
world = record {
  build = λ b. ok out_folder;
  system = record {
    exists = λ path. false;
    log_error = λ name. none;
    download = λ c. err "no network";
  };
  run = λ d. ok (d, none);
  wait_for_ready = λ d. ok (some "not ready");
  complete_ready = λ d. ok none;
  stop = λ d. ok none;
  message = λ e. "invalid";
}

abbrev recipe : Recipe
recipe = record {
  artifacts = new_artifacts_builder;
  apply = λ ctx out. ok (record {
    ctx = record ctx { output = out };
    services = record (new_service "el") { component_name = "reth" } ∷ [];
  });
  output = λ m. ok [];
}

run_it-IsSession_example : IsSession flags.dry_run (run_it world flags recipe)
run_it-IsSession_example = run_it-IsSession world flags recipe

abbrev el : Service
el = record (new_service "el") { ports = port_at "http" 8545 tcp ∷ [] }

abbrev op_node : Service
op_node = record (new_service "op-node") {
  node_refs = record { service = "el"; port_label = "http"; protocol = "http"; user = "" } ∷ [];
}

graph_drawn :
    generate_dot_graph (el ∷ (op_node ∷ []))
    ≡ "digraph G {\n  rankdir=LR;\n  node [shape=record];\n\n  el [label=\"el|{http:8545}\"];\n  op_node [label=\"op-node\"];\n\n  op_node -> el [label=\"http\"];\n}\n"
unfolding generate_dot_graph new_service decimal
graph_drawn = refl

log_found : find_log "starting\nenode=1\nready" "enode" ≡ ok "enode=1"
unfolding find_log
log_found = refl

nullable_set-nullable_string_example :
    nullable_set (nullable_string (some 1048576)) ≡ ok (some 1048576)
nullable_set-nullable_string_example =
    nullable_set-nullable_string (some 1048576) (λ n e. subst (λ v. below v) e (omega arith))
  where
    below : Option ℕ → Type 0
    below none = Unit
    below (some n) = n < 2 ^ 64

labels_set : map_set "team=infra" [] ≡ ok (("team", "infra") ∷ [])
unfolding map_set
labels_set = refl

labels_refused : map_set "url=a=b" [] ≡ err "expected k=v for flag"
unfolding map_set
labels_refused = refl
