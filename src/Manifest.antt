-- ===== src/Manifest.antt =====
-- playground/manifest.go: the manifest, `AddService`, lookup and `Validate`.
pub mod Shapes
pub mod Yields
pub mod Spammer
pub mod Accepted
pub mod Graph
pub mod Json
pub mod Spec
use builder_playground.Prelude.{
  String, Option, none, some, List, [], ◌∷◌, ◌++◌, find, if◌then◌else◌, Result, ok, err, ◌>>=◌,
  ◌>>◌, ◌==◌, ◌⊕◌, values,
}
use builder_playground.Output.{Output, Stat, found, not_exist, failed, stat}
use builder_playground.Service.{
  Service, ReadyCheck, DependsOn, new_service, get_port, service_healthy,
}
use builder_playground.Service.FirstPass.{Panic, Port, NodeRef}
use builder_playground.Context.{ExContext, ContenderContext}
use builder_playground.Catalog.{ServiceGen, contender, component_name, Keys, run}

-- `out` is `ctx.output`: NewManifest stores one pointer in both. NewManifest makes `overrides` empty
-- and nothing of the package writes to it.
pub record Manifest : Type 0 where
  pub ctx : ExContext
  pub services : List Service

unfoldable pub new_manifest : ExContext → Output → Manifest
new_manifest ctx out = record { ctx = record ctx { output = out }; services = [] }

unfoldable pub get_service : String → List Service → Option Service
get_service name services = find (λ s. s.name == name) services

-- `ContenderContext.Contender`
unfoldable pub contender_of : ContenderContext → ServiceGen
contender_of cc = contender (record { extra_args = cc.extra_args; target_chain = cc.target_chain })

module _ (keys : Keys) where
  -- The component comes back too, since `Run` may write to it.
  unfoldable pub add_service : String → ServiceGen → Manifest → Result Panic (Manifest × ServiceGen)
  unfolding new_service component_name run
  add_service name srv m = do
    ran ← run keys m.ctx srv (record (new_service name) { component_name = component_name srv })
    ok (record { ctx = ran.ctx; services = m.services ++ ran.service ∷ [] }, ran.component)

  -- `AddService` where the component is not looked at again.
  unfoldable pub add : String → ServiceGen → Manifest → Result Panic Manifest
  unfolding add_service
  add name srv m = do (m', _) ← add_service name srv m; ok m'

  -- `RunContenderIfEnabled`
  unfoldable pub run_contender_if_enabled : Manifest → Result Panic Manifest
  unfolding add contender_of
  run_contender_if_enabled m =
      if m.ctx.contender.enabled then add "contender" (contender_of m.ctx.contender) m else ok m

pub data Error : Type 0 where
  -- a service, and the service that it names and that is not defined
  not_defined : String → String → Error
  -- a service, the service that it names, and the port that this one lacks
  no_such_port : String → String → String → Error
  no_ready_check : String → String → Error
  unknown_file : String → String → Error
  stat_failed : String → Error

abbrev pub port_found : String → NodeRef → Option Port → Result Error (Unit {0})
port_found name ref none = err (no_such_port name ref.service ref.port_label)
port_found name ref (some _) = ok tt

abbrev pub target_found : String → NodeRef → Option Service → Result Error (Unit {0})
target_found name ref none = err (not_defined name ref.service)
target_found name ref (some target) = port_found name ref (get_port ref.port_label target.ports)

unfoldable pub check_ref : List Service → String → NodeRef → Result Error (Unit {0})
unfolding get_service get_port
check_ref services name ref = target_found name ref (get_service ref.service services)

unfoldable pub check_refs : List Service → String → List NodeRef → Result Error (Unit {0})
unfolding check_ref
check_refs services name [] = ok tt
check_refs services name (r ∷ rs) = check_ref services name r >> check_refs services name rs

abbrev pub needs_ready : String → DependsOn → Option ReadyCheck → Result Error (Unit {0})
needs_ready name dep none =
    if dep.condition == service_healthy then err (no_ready_check name dep.name) else ok tt
needs_ready name dep (some _) = ok tt

abbrev pub dep_found : String → DependsOn → Option Service → Result Error (Unit {0})
dep_found name dep none = err (not_defined name dep.name)
dep_found name dep (some service) = needs_ready name dep service.ready_check

unfoldable pub check_dep : List Service → String → DependsOn → Result Error (Unit {0})
unfolding get_service
check_dep services name dep = dep_found name dep (get_service dep.name services)

unfoldable pub check_deps : List Service → String → List DependsOn → Result Error (Unit {0})
unfolding check_dep
check_deps services name [] = ok tt
check_deps services name (d ∷ ds) = check_dep services name d >> check_deps services name ds

-- The first loop of `Validate`.
unfoldable pub check_services : List Service → List Service → Result Error (Unit {0})
unfolding check_refs check_deps
check_services services [] = ok tt
check_services services (ss ∷ rest) =
    check_refs services ss.name ss.node_refs
    >> check_deps services ss.name ss.depends_on
    >> check_services services rest

abbrev pub stat_result : String → String → Stat → Result Error (Unit {0})
stat_result name file_loc found = ok tt
stat_result name file_loc not_exist = err (unknown_file name file_loc)
stat_result name file_loc failed = err (stat_failed file_loc)

unfoldable pub check_paths : Output → String → List String → Result Error (Unit {0})
unfolding stat
check_paths out name [] = ok tt
check_paths out name (p ∷ ps) =
    stat_result name (out.dst ⊕ "/" ⊕ p) (stat out p) >> check_paths out name ps

-- The loop over the mounts, which the source has twice. The order in which Go visits a map is not
-- fixed; it only decides which of several errors is returned.
unfoldable pub check_files : Output → List Service → Result Error (Unit {0})
unfolding check_paths
check_files out [] = ok tt
check_files out (ss ∷ rest) =
    check_paths out ss.name (values ss.files_mapped) >> check_files out rest

unfoldable pub validate : Manifest → Result Error (Unit {0})
unfolding check_services check_files
validate m =
    check_services m.services m.services
    >> check_files m.ctx.output m.services
    >> check_files m.ctx.output m.services
