-- ===== src/Runner/Create.antt =====
-- `NewLocalRunner` of playground/local_runner.go: the overrides, and the tasks.
use builder_playground.Prelude.{
  ok_inj, String, Bool, true, false, Option, none, some, List, [], ◌∷◌, ◌≡◌, refl, if◌then◌else◌,
  Result, ok, err, ◌>>=◌, ◌>>◌, >>=-eq-ok, ◌==◌, ◌⊕◌, GoMap, insert, lookup, split, All, any,
  eq_refl, Bool-cases, inl, inr, Stop, fails, panics,
}
use mathlib.Core.Path.{subst}
use builder_playground.Service.{Service, use_host_execution_label}
use builder_playground.Catalog.{ServiceGen, reth_el, op_reth, find_component}
use builder_playground.Runner.{Task, LocalRunner}

-- The fields of `RunnerConfig` that decide how the runner starts.
pub record RunnerConfig : Type 0 where
  pub services : List Service
  pub manifest_overrides : GoMap String
  pub overrides : GoMap String
  pub bind_host_ports_locally : Bool
  pub log_internally : Bool

-- What the system answers: whether a path can be found, the error of opening the log of a service,
-- and the executable of a component that is downloaded.
pub record System : Type 0 where
  pub exists : String → Bool
  pub log_error : String → Option String
  pub download : ServiceGen → Result String String

-- The components with `ReleaseArtifact`.
abbrev pub is_release_service : ServiceGen → Bool
is_release_service (reth_el _) = true
is_release_service op_reth = true
is_release_service _ = false

-- The writes of one map into another.
unfoldable pub merge_overrides : GoMap String → GoMap String → GoMap String
unfolding insert
merge_overrides [] overrides = overrides
merge_overrides ((k, v) ∷ more) overrides = merge_overrides more (insert k v overrides)

-- The tag of a service, at the first service of that name, which is the one that `MustGetService` gives.
unfoldable pub set_image : String → String → String → List Service → Result Stop (List Service)
set_image name image tag [] = err (panics ("service " ⊕ name ⊕ " not found"))
set_image name image tag (s ∷ ss) =
    let later = set_image name image tag ss in
    if s.name == name
    then ok (record s { image = image; tag = tag } ∷ ss)
    else later >>= λ rest. ok (s ∷ rest)

-- An override that is no path is a docker image with a tag.
abbrev pub as_image : String → String → List String → List Service → Result Stop (List Service)
as_image name value (image ∷ (tag ∷ [])) ss = set_image name image tag ss
as_image name value _ ss =
    err (fails ("invalid override docker image " ⊕ value ⊕ ", expected image:tag"))

-- One task for each name: a later service of the same name takes its place.
unfoldable pub add_task : String → List Task → List Task
add_task name [] = record { name = name; status = "pending"; ready = false } ∷ []
add_task name (t ∷ ts) =
    let later = add_task name ts in if t.name == name then t ∷ ts else t ∷ later

unfoldable pub make_tasks : List Service → List Task
unfolding add_task
make_tasks [] = []
make_tasks (s ∷ ss) = add_task s.name (make_tasks ss)

abbrev has_task : String → List Task → Bool
has_task name ts = any (λ t. t.name == name) ts

add_task-has : (name : String) (ts : List Task) → has_task name (add_task name ts) ≡ true
unfolding add_task
add_task-has name [] = rw (eq_refl name) refl
add_task-has name (t ∷ ts) = elim (Bool-cases (t.name == name)) [
  | inl e ↦ rw (e, e) refl
  | inr e ↦ rw (e, e) (add_task-has name ts)
]

add_task-keeps :
    (other name : String) (ts : List Task)
    → has_task name ts ≡ true
    → has_task name (add_task other ts) ≡ true
unfolding add_task
add_task-keeps other name [] h = cc
add_task-keeps other name (t ∷ ts) h = elim (Bool-cases (t.name == other)) [
  | inl e ↦ rw e h
  | inr e ↦ rw e (elim (Bool-cases (t.name == name)) [
    | inl f ↦ rw f refl
    | inr f ↦ rw f (add_task-keeps other name ts (rw f at h))
  ])
]

tasks_kept :
    (other : String) (ss : List Service) (ts : List Task)
    → All (λ (s : Service). has_task s.name ts ≡ true) ss
    → All (λ (s : Service). has_task s.name (add_task other ts) ≡ true) ss
tasks_kept other [] ts h = tt
tasks_kept other (s ∷ ss) ts (p, h) = (add_task-keeps other s.name ts p, tasks_kept other ss ts h)

make_tasks-any :
    (ss : List Service) → All (λ (s : Service). has_task s.name (make_tasks ss) ≡ true) ss
unfolding make_tasks
make_tasks-any [] = tt
make_tasks-any (s ∷ ss) =
    (add_task-has s.name (make_tasks ss), tasks_kept s.name ss (make_tasks ss) (make_tasks-any ss))

module _ (system : System) where
  abbrev pub log_opened : Option String → Result Stop (Unit {0})
  log_opened none = ok tt
  log_opened (some e) = err (fails ("error getting log output: " ⊕ e))

  abbrev pub with_component : Bool → Service → Option ServiceGen → Result Stop ServiceGen
  with_component log_internally s none =
      err (fails ("component not found '" ⊕ s.component_name ⊕ "'"))
  with_component log_internally s (some c) =
      (if log_internally then log_opened (system.log_error s.name) else ok tt) >> ok c

  -- The instances: each service with its component.
  unfoldable pub make_instances : Bool → List Service → Result Stop (List (Service × ServiceGen))
  unfolding find_component
  make_instances log_internally [] = ok []
  make_instances log_internally (s ∷ ss) = do
    c ← with_component log_internally s (find_component s.component_name)
    rest ← make_instances log_internally ss
    ok ((s, c) ∷ rest)

  abbrev pub downloaded : String → GoMap String → Result String String → Result Stop (GoMap String)
  downloaded name overrides (ok bin) = ok (insert name bin overrides)
  downloaded name overrides (err e) =
      err (fails ("failed to download release artifact for service '" ⊕ name ⊕ "': " ⊕ e))

  abbrev pub wants_host : Option String → Bool
  wants_host none = false
  wants_host (some value) = value == "true"

  -- The services that are marked for the host are downloaded and overridden.
  unfoldable pub host_releases :
      List (Service × ServiceGen) → GoMap String → Result Stop (GoMap String)
  host_releases [] overrides = ok overrides
  host_releases ((s, c) ∷ rest) overrides = do
    next ←
        (if wants_host (lookup use_host_execution_label s.labels)
          then (if is_release_service c
              then downloaded s.name overrides (system.download c)
              else err
                  (fails ("service '" ⊕ s.name ⊕ "' must implement the ReleaseService interface")))
          else ok overrides)
    host_releases rest next

  -- The loop over the overrides: what stays in the map, and the services with their images.
  unfoldable pub settle_overrides :
      GoMap String → List Service → Result Stop (GoMap String × List Service)
  unfolding set_image split
  settle_overrides [] ss = ok ([], ss)
  settle_overrides ((k, v) ∷ more) ss =
      if system.exists v
      then (settle_overrides more ss >>= λ r. ok ((k, v) ∷ r.0, r.1))
      else as_image k v (split v b':') ss >>= settle_overrides more

  abbrev pub runner_of : RunnerConfig → GoMap String × List Service → LocalRunner
  runner_of cfg settled = record {
    services = settled.1;
    reserved_ports = [];
    overrides = settled.0;
    tasks = make_tasks settled.1;
    bind_host_ports_locally = cfg.bind_host_ports_locally;
    exit_err = [];
    waiting = none;
  }

  -- `NewLocalRunner`; the docker client is taken to be there.
  unfoldable pub new_local_runner : RunnerConfig → Result Stop LocalRunner
  unfolding make_instances host_releases settle_overrides make_tasks merge_overrides
  new_local_runner cfg = do
    instances ← make_instances cfg.log_internally cfg.services
    overrides ← host_releases instances (merge_overrides cfg.manifest_overrides cfg.overrides)
    settled ← settle_overrides overrides cfg.services
    ok (runner_of cfg settled)

  abbrev pub AllExist : GoMap String → Type 0
  AllExist overrides = All (λ e. system.exists e.1 ≡ true) overrides

  settled_exist :
      (overrides : GoMap String) (ss : List Service) (r : GoMap String × List Service)
      → settle_overrides overrides ss ≡ ok r
      → AllExist r.0
  unfolding settle_overrides
  settled_exist [] ss r h = subst (λ (x : GoMap String × List Service). AllExist x.0) (ok_inj h) tt
  settled_exist ((k, v) ∷ more) ss r h = elim (Bool-cases (system.exists v)) [
    | inl e ↦
        let (r1, e1, e2) =
          >>=-eq-ok (settle_overrides more ss) (λ x. ok ((k, v) ∷ x.0, x.1)) (rw e at h) in
        subst (λ (x : GoMap String × List Service). AllExist x.0) (ok_inj e2)
          (e, settled_exist more ss r1 e1)
    | inr e ↦
        let (ss1, _, e2) =
          >>=-eq-ok (as_image k v (split v b':') ss) (settle_overrides more) (rw e at h) in
        settled_exist more ss1 r e2
  ]

  -- A runner that `NewLocalRunner` makes overrides services by executables that exist only, and has
  -- a task for every service.
  pub new_local_runner-AllExist :
      (cfg : RunnerConfig) {d : LocalRunner}
      → new_local_runner cfg ≡ ok d
      → AllExist d.overrides
        × All (λ (s : Service). any (λ (t : Task). t.name == s.name) d.tasks ≡ true) d.services
  unfolding new_local_runner
  new_local_runner-AllExist cfg {d} h =
      let (instances, _, h1) =
        >>=-eq-ok (make_instances cfg.log_internally cfg.services)
          (λ instances.
            host_releases instances (merge_overrides cfg.manifest_overrides cfg.overrides)
            >>= λ overrides.
                settle_overrides overrides cfg.services >>= λ settled. ok (runner_of cfg settled))
          h in
      let (overrides, _, h2) =
        >>=-eq-ok (host_releases instances (merge_overrides cfg.manifest_overrides cfg.overrides))
          (λ overrides.
            settle_overrides overrides cfg.services >>= λ settled. ok (runner_of cfg settled))
          h1 in
      let (settled, e, h3) =
        >>=-eq-ok (settle_overrides overrides cfg.services) (λ settled. ok (runner_of cfg settled))
          h2 in
      subst
        (λ (d : LocalRunner).
          AllExist d.overrides
          × All (λ (s : Service). any (λ (t : Task). t.name == s.name) d.tasks ≡ true) d.services)
        {x = runner_of cfg settled} (ok_inj h3)
        (settled_exist overrides cfg.services settled e, make_tasks-any settled.1)
