-- ===== src/Tests/Kitchen.antt =====
-- Recipes that are cooked on built artifacts, and their addresses, at concrete inputs.
use builder_playground.Prelude.{
  String, true, false, none, some, [], ◌∷◌, ◌++◌, ◌≡◌, refl, ap, ok, err, Result, ◌⊕◌, Returns,
  Stop, fails, panics, arith,
}
use builder_playground.Output.{Output}
use mathlib.Core.Path.{subst}
use builder_playground.Output.Data.{Disk, ext, object_data, write_raw, write_data}
use builder_playground.Service.{Service, ReadyCheck, new_service}
use builder_playground.Service.FirstPass.{port_at, tcp}
use builder_playground.Manifest.Json.Structs.{Text, marshal_manifest, save_json, read_manifest}
use builder_playground.Manifest.Json.RoundTrip.{CheckFits, read_manifest-save_json}
use builder_playground.Context.{unmarshal_level}
use builder_playground.Manifest.{Manifest, no_ready_check}
use builder_playground.Recipe.BuilderNet.{BuilderNetRecipe, output}
use builder_playground.Recipe.BuilderNet.Addresses.{Addresses, output-Returns}
use builder_playground.Recipe.BuilderNet.Valid.{net-Yields}
use builder_playground.Artifacts.{build}
use builder_playground.Command.{Flags, World, returned, run_it, parse_overrides}
use builder_playground.Command.Cook.{
  l1, buildernet, builder_of, dry_files, cook-dry_run, cook-mock_proxy,
}
use builder_playground.Tests.Building.{lib, db, works, gives, keys, net, ctx}

abbrev folder_of : Result Stop Disk → Result String Output
folder_of (ok disk) = ok disk.folder
folder_of (err (fails e)) = err e
folder_of (err (panics e)) = err e

abbrev kitchen : World
kitchen = record {
  build = λ b. folder_of (build lib db b);
  system = record {
    exists = λ path. true;
    log_error = λ name. none;
    download = λ c. ok "/bin/reth";
  };
  run = λ d. ok (d, none);
  wait_for_ready = λ d. ok none;
  complete_ready = λ d. ok none;
  stop = λ d. ok none;
  message = λ e. "depends on a service without a ready check";
}

abbrev dry : Flags
dry = record {
  log_level = "info";
  with_overrides = [];
  output = "/out";
  genesis_delay = 10;
  with_prometheus = true;
  dry_run = true;
  bind_external = false;
  disable_logs = true;
  contender_enabled = true;
  contender_args = [];
  contender_target = "";
}

abbrev mocked : BuilderNetRecipe
mocked = record net { include_mock_proxy = true }

cook-dry_run_example :
    (run_it kitchen dry (l1 keys net.l1_recipe) ≡ (dry_files true, returned none))
    × (run_it kitchen dry (buildernet keys net) ≡ (dry_files true, returned none))
unfolding unmarshal_level parse_overrides
cook-dry_run_example =
    cook-dry_run lib db gives keys kitchen (λ b disk e. ap folder_of e) dry "info" [] refl refl refl
      refl (omega arith) net.l1_recipe net (works (builder_of dry (l1 keys net.l1_recipe)))
      (works (builder_of dry (buildernet keys net))) refl refl

cook-mock_proxy_example : run_it kitchen dry (buildernet keys mocked) ≡ (
  [],
  returned (
      some (
        "failed to validate manifest: "
        ⊕ kitchen.message (no_ready_check "builder-hub-proxy" "builder-hub"))),
)
unfolding unmarshal_level parse_overrides
cook-mock_proxy_example =
    cook-mock_proxy lib db gives keys kitchen (λ b disk e. ap folder_of e) dry "info" [] refl refl
      refl refl (omega arith) mocked (works (builder_of dry (buildernet keys mocked))) refl

abbrev hub_manifest : Manifest
hub_manifest = (net-Yields keys mocked ctx ctx.output true (omega arith) refl).manifest

output-Returns_example : Returns (Addresses mocked hub_manifest) (output mocked hub_manifest)
output-Returns_example =
    output-Returns keys mocked ctx ctx.output true hub_manifest hub_manifest (omega arith) refl
      (net-Yields keys mocked ctx ctx.output true (omega arith) refl).returned refl

-- A service as it is saved, with a ready check and a port.
abbrev kept : Service
kept = record (new_service "el") {
  args = "node" ∷ [];
  labels = ("metrics_path", "/metrics") ∷ [];
  ready_check = some (record {
    query_url = "http://localhost:8545";
    test = [];
    interval = 1;
    start_period = 1;
    timeout = 30;
    retries = 3;
  });
  ports = port_at "http" 8545 tcp ∷ [];
}

abbrev menu : Manifest
menu = record { ctx = ctx; services = kept ∷ [] }

abbrev one_text : Text
one_text = record { print = λ j. "menu"; parse = λ s. ok (marshal_manifest menu.services) }

abbrev shelf : Disk
shelf = record { folder = ctx.output; contents = [] }

abbrev shelf_after : Disk
shelf_after = record {
  folder = record shelf.folder { files = shelf.folder.files ++ ("manifest.json" ∷ []) };
  contents = ("manifest.json", "menu") ∷ [];
}

check_fits : (c : ReadyCheck) → kept.ready_check ≡ some c → CheckFits c
unfolding new_service
check_fits c e = subst CheckFits (some_inj e) (omega arith, omega arith, omega arith, omega arith)
  where
    some_inj : {A : Type 0} {a b : A} → some a ≡ some b → a ≡ b
    some_inj h = cc

read_manifest-save_json_example :
    read_manifest one_text "/out" shelf_after ≡ ok (menu.services, "/out")
unfolding save_json write_data object_data ext write_raw new_service
read_manifest-save_json_example =
    read_manifest-save_json one_text menu "/out" shelf shelf_after refl
      ((((omega arith, omega arith), tt), check_fits), tt) refl
