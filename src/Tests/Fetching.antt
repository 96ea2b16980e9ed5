-- ===== src/Tests/Fetching.antt =====
-- A release that is downloaded, and a port that is inspected, at concrete inputs.
use builder_playground.Prelude.{
  String, true, Option, none, some, List, [], ◌∷◌, ◌≡◌, ◌↔◌, ◌⊎◌, refl, ok, err, ◌⊕◌, decimal,
  lookup,
}
use builder_playground.Release.{
  TarItem, regular, other_type, Machine, reth_release, out_path_of, releases_url, download_artifact,
  download_release,
}
use builder_playground.Release.Archive.{Offers, download_artifact_iff}
use builder_playground.Release.Cached.{download_release-broken}
use builder_playground.Service.{Service, new_service, get_port}
use builder_playground.Service.FirstPass.{port_at, tcp}
use builder_playground.Command.Tools.{Executable, artifacts, service_line}
use builder_playground.Runner.Compose.{Docker, all_labels}
use builder_playground.Inspect.{Client, tcpflow_cmd, retrieve_container_details, run_tcp_flow}
use builder_playground.Inspect.Labels.{retrieve_container_details-all_labels}
use builder_playground.Inspect.Cleanup.{Leaks, Fails, run_tcp_flow-Leaks}

-- A machine on Linux, whose network gives an archive with a folder and the executable.
abbrev linux : Option String → Machine
linux copy = record {
  goos = "linux";
  goarch = "amd64";
  stat_error = λ path. none;
  mkdir_error = λ path. none;
  look_path_error = λ name. some "not found";
  create_error = λ path. none;
  chmod_error = λ path. none;
  get = λ url. ok (ok (other_type ∷ (regular "reth" copy ∷ [])));
}

abbrev offline : Machine
offline = record {
  goos = "linux";
  goarch = "amd64";
  stat_error = λ path. none;
  mkdir_error = λ path. none;
  look_path_error = λ name. some "not found";
  create_error = λ path. none;
  chmod_error = λ path. none;
  get = λ url. err "no network";
}

url_made :
    releases_url reth_release "x86_64-unknown-linux-gnu"
    ≡ "https://github.com/paradigmxyz/reth/releases/download/v1.4.8/reth-v1.4.8-x86_64-unknown-linux-gnu.tar.gz"
unfolding releases_url reth_release
url_made = refl

download_artifact_iff_example :
    ((download_artifact (linux none) "https://x" "reth" "/home/reth-v1" []).1 ≡ ok tt) ↔ (
      (items : List TarItem) × ((linux none).get "https://x" ≡ ok (ok items))
      × Offers "reth" none items
      × ((linux none).create_error "/home/reth-v1" ≡ none)
      × ((linux none).chmod_error "/home/reth-v1" ≡ none))
download_artifact_iff_example =
    download_artifact_iff (linux none) "/home/reth-v1" "https://x" "reth" []

download_release-broken_example :
    (download_release (linux (some "connection reset")) "/home" reth_release [] ≡ (
      out_path_of "/home" reth_release ∷ [],
      err ("error downloading artifact: error writing output file: " ⊕ "connection reset"),
    ))
    × (download_release offline "/home" reth_release (out_path_of "/home" reth_release ∷ [])
        ≡ (out_path_of "/home" reth_release ∷ [], ok (out_path_of "/home" reth_release)))
unfolding reth_release
download_release-broken_example =
    download_release-broken (linux (some "connection reset")) offline "/home" reth_release [] refl
      refl (other_type ∷ (regular "reth" (some "connection reset") ∷ [])) "connection reset" refl
      refl refl refl (refl, refl) refl

abbrev docker : Docker
docker = record {
  session_id = "s1";
  network_name = "ethplayground";
  labels = ("team", "infra") ∷ [];
  platform = "";
  output_folder = ok "/out";
  image_error = λ image. none;
  create_dir = λ path. ok path;
  is_linux = true;
}

abbrev op_geth : Service
op_geth = record (new_service "op-geth") {
  ports = port_at "http" 8545 tcp ∷ port_at "authrpc" 8551 tcp ∷ [];
}

-- The client of a machine on which op-geth runs; following the logs fails or not, and no container is
-- removed.
abbrev client : Option String → Client
client logs = record {
  container_list = λ key value. ok ("c1" ∷ []);
  container_inspect = λ id. ok (all_labels docker op_geth);
  container_create = λ cmd network. ok "t1";
  start_error = λ id. none;
  logs_error = λ id. logs;
  stop_error = λ id. none;
  remove_error = λ id. some "in use";
}

retrieve_container_details-all_labels_example :
    (lookup "service" (all_labels docker op_geth) ≡ some "op-geth")
    × (retrieve_container_details (client none) "op-geth" "authrpc" ≡ ok ("c1", decimal 8551))
unfolding new_service get_port
retrieve_container_details-all_labels_example =
    retrieve_container_details-all_labels docker op_geth (client none) "c1" "authrpc"
      (port_at "authrpc" 8551 tcp) (((λ e. cc), tt), (tt, tt)) (refl, tt) refl refl refl

run_tcp_flow-Leaks_example : Leaks (run_tcp_flow (client none) "c1" "8551") ↔ (
    (id : String) × ((client none).container_create
        (tcpflow_cmd (client none) "8551")
        ("container:" ⊕ "c1")
      ≡ ok id)
    × (Fails (run_tcp_flow (client none) "c1" "8551")
        ⊎ ((e : String) × ((client none).remove_error id ≡ some e))))
run_tcp_flow-Leaks_example = run_tcp_flow-Leaks (client none) "c1" "8551"

-- Every executable starts.
abbrev all_start : Executable
all_start = record { stat_error = λ path. none; start_error = λ path. none }

refused :
    artifacts offline all_start "" (ok "/home") ("lighthouse-beacon-node" ∷ []) []
    ≡ ([], err "service lighthouse-beacon-node is not a release service")
unfolding artifacts
refused = refl

found :
    artifacts (linux none) all_start "" (ok "/home") ("reth" ∷ []) []
    ≡ ("/home/reth-v1.4.8" ∷ [], ok "/home/reth-v1.4.8")
unfolding artifacts
found = refl

listed :
    service_line
      (λ ports. ports)
      (record op_geth { ports = record (port_at "http" 8545 tcp) { host_port = 8546 } ∷ [] })
    ≡ "- op-geth (http: 8545/8546)\n"
unfolding service_line new_service
listed = refl
