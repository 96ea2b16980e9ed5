-- ===== src/Command/Tools.antt =====
-- main.go: the commands beside the recipes (`cook`, `artifacts`, `artifacts-all`, `inspect`), the check of an
-- executable, and the list of services that a session prints.
use builder_playground.Prelude.{
  String, Option, none, some, List, [], ◌∷◌, ◌⊕◌, ◌==◌, if◌then◌else◌, Result, ok, err, decimal,
  join,
}
use builder_playground.Service.{Service}
use builder_playground.Service.FirstPass.{Port, udp}
use builder_playground.Catalog.{ServiceGen, reth_el, op_reth, components, find_component}
use builder_playground.Release.{
  Release, Machine, Effect, reth_release, op_reth_release, download_release,
}
use builder_playground.Inspect.{Client, Flow, inspect}

-- `ReleaseArtifact` of a component that has it.
unfoldable pub release_artifact : ServiceGen → Option Release
unfolding reth_release op_reth_release
release_artifact (reth_el _) = some reth_release
release_artifact op_reth = some op_reth_release
release_artifact _ = none

-- `cook` without a recipe, with the names of the recipes.
unfoldable pub cook : List String → String
cook recipe_names =
    "please specify a recipe to cook. Available recipes: [" ⊕ join recipe_names " " ⊕ "]"

-- The folder of the flag, or what `GetHomeDir` answers.
abbrev pub output_folder : String → Result String String → Result String String
output_folder flag (ok home_dir) = ok (if flag == "" then home_dir else flag)
output_folder flag (err e) =
    if flag == "" then err ("failed to get home directory: " ⊕ e) else ok flag

abbrev pub located : Effect String → Effect String
located (files, ok location) = (files, ok location)
located (files, err e) = (files, err ("failed to download release: " ⊕ e))

-- What os.Stat and the start of the executable answer.
pub record Executable : Type 0 where
  pub stat_error : String → Option String
  pub start_error : String → Option String

abbrev pub startable : Option String → Result String (Unit {0})
startable none = ok tt
startable (some e) = err ("cannot start executable: " ⊕ e)

abbrev pub stat_then : Option String → Result String (Unit {0}) → Result String (Unit {0})
stat_then (some e) rest = err ("file does not exist or is inaccessible: " ⊕ e)
stat_then none rest = rest

-- `isExecutableValid`
unfoldable pub is_executable_valid : Executable → String → Result String (Unit {0})
is_executable_valid system path =
    stat_then (system.stat_error path) (startable (system.start_error path))

module _ (machine : Machine) (system : Executable) where
  abbrev pub release_to : Result String String → Release → List String → Effect String
  release_to (err e) release files = (files, err e)
  release_to (ok output) release files = located (download_release machine output release files)

  abbrev pub of_release :
      String → Result String String → String → Option Release → List String → Effect String
  of_release flag home name none files =
      (files, err ("service " ⊕ name ⊕ " is not a release service"))
  of_release flag home name (some release) files =
      release_to (output_folder flag home) release files

  abbrev pub component_release :
      String → Result String String → String → Option ServiceGen → List String → Effect String
  component_release flag home name none files = (files, err ("service " ⊕ name ⊕ " not found"))
  component_release flag home name (some component) files =
      of_release flag home name (release_artifact component) files

  -- `artifacts`
  unfoldable pub artifacts :
      String → Result String String → List String → List String → Effect String
  unfolding find_component release_artifact download_release
  artifacts flag home (service_name ∷ []) files =
      component_release flag home service_name (find_component service_name) files
  artifacts flag home _ files = (files, err "please specify a service name")

  abbrev pub validated :
      List String → Result String (Unit {0}) → (List String → Effect (Unit {0})) → Effect (Unit {0})
  validated files (err e) rest = (files, err ("failed to check if artifact is valid: " ⊕ e))
  validated files (ok _) rest = rest files

  abbrev pub fetched : Effect String → (List String → Effect (Unit {0})) → Effect (Unit {0})
  fetched (files, err e) rest = (files, err e)
  fetched (files, ok location) rest = validated files (is_executable_valid system location) rest

  -- The loop of `artifacts-all` over the components.
  unfoldable pub fetch_all : String → List ServiceGen → List String → Effect (Unit {0})
  unfolding release_artifact download_release is_executable_valid
  fetch_all output [] files = (files, ok tt)
  fetch_all output (component ∷ more) files = elim (release_artifact component) [
    | none ↦ fetch_all output more files
    | some release ↦
        fetched (located (download_release machine output release files)) (fetch_all output more)
  ]

  -- `artifacts-all`
  unfoldable pub artifacts_all : String → Result String String → List String → Effect (Unit {0})
  unfolding fetch_all
  artifacts_all flag home files = elim (output_folder flag home) [
    | err e ↦ (files, err e)
    | ok output ↦ fetch_all output components files
  ]

abbrev pub inspected : Flow → Flow
inspected (acts, none) = (acts, none)
inspected (acts, some e) = (acts, some ("failed to inspect connection: " ⊕ e))

-- `inspect`
unfoldable pub inspect_cmd : Result String Client → List String → Flow
unfolding inspect
inspect_cmd client (service_name ∷ (connection_name ∷ [])) =
    inspected (inspect client service_name connection_name)
inspect_cmd client _ = ([], some "please specify a service name and a connection name")

-- The printed ports, in the order of their names, and the line of a service.
abbrev pub port_texts : List Port → List String
port_texts [] = []
port_texts (p ∷ ports) =
    (p.name
      ⊕ ": "
      ⊕ decimal p.port
      ⊕ "/"
      ⊕ decimal p.host_port
      ⊕ (if p.protocol == udp then "/udp" else ""))
    ∷ port_texts ports

unfoldable pub service_line : (List Port → List Port) → Service → String
unfolding decimal
service_line sort ss = "- " ⊕ ss.name ⊕ " (" ⊕ join (port_texts (sort ss.ports)) ", " ⊕ ")\n"
