-- ===== src/Runner/Host.antt =====
-- `runOnHost` of playground/local_runner.go: the command of a service that runs on the host.
use builder_playground.Prelude.{
  String, true, false, Option, none, some, List, [], ◌∷◌, ◌++◌, ◌≡◌, refl, if◌then◌else◌, Result,
  ok, err, ◌>>=◌, ◌⊕◌, GoMap, lookup, contains_text, replace_all, All, Bool-cases, inl, inr,
}
use builder_playground.Service.{Service}
use builder_playground.Runner.{LocalRunner}
use builder_playground.Runner.Second.{apply_second}

-- `createVolume`, with the call that makes a directory below the output folder.
unfoldable pub create_volume :
    (String → Result String String) → String → String → Result String String
create_volume create_dir service volume_name =
    elim (create_dir ("volume-" ⊕ service ⊕ "-" ⊕ volume_name)) [
      | ok path ↦ ok path
      | err e ↦ err ("failed to create volume dir " ⊕ volume_name ⊕ ": " ⊕ e)
    ]

-- The volumes of a service, under the paths that they have in docker.
unfoldable pub create_volumes :
    (String → Result String String) → String → GoMap String → Result String (GoMap String)
unfolding create_volume
create_volumes create_dir service [] = ok []
create_volumes create_dir service ((path_in_docker, volume_name) ∷ more) = do
  path ← create_volume create_dir service volume_name
  rest ← create_volumes create_dir service more
  ok ((path_in_docker, path) ∷ rest)

-- The artifacts of a service by their paths on the host.
abbrev pub artifact_paths : String → GoMap String → GoMap String
artifact_paths dst [] = []
artifact_paths dst ((path_in_docker, artifact) ∷ more) =
    (path_in_docker, dst ⊕ "/" ⊕ artifact) ∷ artifact_paths dst more

-- The loops over the mapped paths: each looks at the argument as it was, and replaces in it.
unfoldable pub replace_mapped : String → GoMap String → String → String
replace_mapped arg [] current = current
replace_mapped arg ((path_in_docker, path) ∷ more) current =
    if contains_text arg path_in_docker
    then replace_mapped arg more (replace_all arg path_in_docker path)
    else replace_mapped arg more current

abbrev pub host_args : GoMap String → List String → List String
host_args mapped [] = []
host_args mapped (arg ∷ args) = replace_mapped arg mapped arg ∷ host_args mapped args

abbrev pub exec_path : Option String → String
exec_path none = ""
exec_path (some path) = path

-- `runOnHost` up to the start of the process: the executable and its arguments. The artifacts come
-- before the volumes.
unfoldable pub run_on_host :
    (String → Result String String)
    → String
    → LocalRunner
    → Service
    → Result String (String × List String)
unfolding apply_second create_volumes replace_mapped
run_on_host create_dir dst d ss = do
  (args, env) ← apply_second d ss
  volumes ← create_volumes create_dir ss.name ss.volumes_mapped
  ok (
    exec_path (lookup ss.name d.overrides),
    host_args (artifact_paths dst ss.files_mapped ++ volumes) args,
  )

abbrev pub NoneIn : String → GoMap String → Type 0
NoneIn arg mapped = All (λ e. contains_text arg e.0 ≡ false) mapped

replace_mapped-none :
    (arg current : String) (mapped : GoMap String)
    → NoneIn arg mapped
    → replace_mapped arg mapped current ≡ current
unfolding replace_mapped
replace_mapped-none arg current [] h = refl
replace_mapped-none arg current ((p, q) ∷ more) (e, h) =
    rw e (replace_mapped-none arg current more h)

replace_mapped-from :
    (arg current path_in_docker path : String) (before after : GoMap String)
    → contains_text arg path_in_docker ≡ true
    → NoneIn arg after
    → replace_mapped arg (before ++ (path_in_docker, path) ∷ after) current
      ≡ replace_all arg path_in_docker path
unfolding replace_mapped
replace_mapped-from arg current p q [] after c h =
    rw c (replace_mapped-none arg (replace_all arg p q) after h)
replace_mapped-from arg current p q ((p', q') ∷ before) after c h =
    elim (Bool-cases (contains_text arg p')) [
      | inl e ↦ rw e (replace_mapped-from arg (replace_all arg p' q') p q before after c h)
      | inr e ↦ rw e (replace_mapped-from arg current p q before after c h)
    ]

-- Of the mapped paths that an argument contains, the last decides: the argument is then the
-- original one with this path replaced, whatever was replaced before.
pub replace_mapped-last :
    (arg path_in_docker path : String) (before after : GoMap String)
    → contains_text arg path_in_docker ≡ true
    → NoneIn arg after
    → replace_mapped arg (before ++ (path_in_docker, path) ∷ after) arg
      ≡ replace_all arg path_in_docker path
replace_mapped-last arg p q before after c h = replace_mapped-from arg arg p q before after c h
