-- ===== src/Service.antt =====
-- playground/manifest.go: the description of a service and the methods that build it.
-- A method that may panic returns a `Result`; `f ▹ g` is the method chain `s.f().g()`.
pub mod FirstPass
pub mod Literals
pub mod Ports
pub mod RoundTrip
use builder_playground.Prelude.{
  ℕ, String, Bool, true, false, not, ◌||◌, Option, none, some, List, [], ◌∷◌, ◌++◌, eqb, find,
  if◌then◌else◌, Result, ok, err, ◌>>=◌, ◌==◌, GoMap, insert,
}
use FirstPass.{
  Panic, unsupported_protocol, port_conflict, Port, port_at, NodeRef, apply_template, tcp, udp,
}

pub record ReadyCheck : Type 0 where
  pub query_url : String
  pub test : List String
  -- Durations in seconds.
  pub interval : ℕ
  pub start_period : ℕ
  pub timeout : ℕ
  pub retries : ℕ

pub record DependsOn : Type 0 where
  pub name : String
  pub condition : String

abbrev pub service_started : String
service_started = "service_started"

abbrev pub service_healthy : String
service_healthy = "service_healthy"

pub record Service : Type 0 where
  pub name : String
  pub args : List String
  pub labels : GoMap String
  pub env : GoMap String
  pub ready_check : Option ReadyCheck
  pub depends_on : List DependsOn
  pub ports : List Port
  pub node_refs : List NodeRef
  pub files_mapped : GoMap String
  pub volumes_mapped : GoMap String
  pub component_name : String
  pub tag : String
  pub image : String
  pub entrypoint : String

unfoldable pub new_service : String → Service
new_service name = record {
  name = name;
  args = [];
  labels = [];
  env = [];
  ready_check = none;
  depends_on = [];
  ports = [];
  node_refs = [];
  files_mapped = [];
  volumes_mapped = [];
  component_name = "";
  tag = "";
  image = "";
  entrypoint = "";
}

unfoldable pub get_port : String → List Port → Option Port
get_port name ports = find (λ p. p.name == name) ports

abbrev pub Builder : Type 0
Builder = Service → Result Panic Service

infixl 20 ◌▹◌
abbrev pub ◌▹◌ : Builder → Builder → Builder
◌▹◌ f g s = f s >>= g

abbrev pub when : Bool → Builder → Builder
when b f s = if b then f s else ok s

abbrev pub with_image : String → Builder
with_image image s = ok (record s { image = image })

abbrev pub with_entrypoint : String → Builder
with_entrypoint entrypoint s = ok (record s { entrypoint = entrypoint })

abbrev pub with_tag : String → Builder
with_tag tag s = ok (record s { tag = tag })

abbrev pub with_label : String → String → Builder
with_label key value s = ok (record s { labels = insert key value s.labels })

abbrev pub use_host_execution_label : String
use_host_execution_label = "use-host-execution"

abbrev pub use_host_execution : Builder
use_host_execution = with_label use_host_execution_label "true"

-- The protocol of the variadic argument.
unfoldable pub port_protocol : List String → Result Panic String
port_protocol [] = ok tcp
port_protocol (p ∷ _) = if p == tcp || p == udp then ok p else err (unsupported_protocol p)

-- The loop of `WithPort`: whether the port stands there already.
unfoldable pub has_port : String → ℕ → String → List Port → Result Panic Bool
has_port name number protocol [] = ok false
has_port name number protocol (p ∷ ps) =
    let rest = has_port name number protocol ps in
    if p.name == name
    then (if not (eqb p.port number)
        then err (port_conflict name)
        else if p.protocol == protocol
        then ok true
        else rest)
    else rest

unfoldable pub with_port : String → ℕ → List String → Builder
unfolding port_protocol has_port
with_port name number protocol_var s = do
  protocol ← port_protocol protocol_var
  present ← has_port name number protocol s.ports
  ok (if present then s else record s { ports = s.ports ++ port_at name number protocol ∷ [] })

unfoldable pub with_ports : List Port → Builder
unfolding with_port
with_ports [] s = ok s
with_ports (p ∷ ps) s = do s' ← with_port p.name p.port (p.protocol ∷ []) s; with_ports ps s'

-- The loops of `Service.applyTemplate` over what the template names.
unfoldable pub noted : String × List Port × List NodeRef → Builder
unfolding with_ports
noted (_, ports, refs) s = do
  s' ← with_ports ports s
  ok (record s' { node_refs = s'.node_refs ++ refs })

-- `Service.applyTemplate`: records the ports and the references that a template names.
unfoldable pub note_template : String → Builder
unfolding apply_template noted
note_template arg s = apply_template arg >>= λ r. noted r s

unfoldable pub note_templates : List String → Builder
unfolding note_template
note_templates [] s = ok s
note_templates (a ∷ rest) s = do s' ← note_template a s; note_templates rest s'

unfoldable pub with_args : List String → Builder
with_args args s = do s' ← note_templates args s; ok (record s' { args = s'.args ++ args })

unfoldable pub with_env : String → String → Builder
unfolding note_template insert
with_env key value s = do
  s' ← note_template value s
  ok (record s' { env = insert key value s'.env })

abbrev pub with_volume : String → String → Builder
with_volume name local_path s =
    ok (record s { volumes_mapped = insert local_path name s.volumes_mapped })

abbrev pub with_artifact : String → String → Builder
with_artifact local_path artifact_name s =
    ok (record s { files_mapped = insert local_path artifact_name s.files_mapped })

abbrev pub with_ready : ReadyCheck → Builder
with_ready check s = ok (record s { ready_check = some check })

abbrev pub depends_on_healthy : String → Builder
depends_on_healthy name s = ok (record s {
  depends_on = s.depends_on ++ record { name = name; condition = service_healthy } ∷ [];
})

abbrev pub depends_on_running : String → Builder
depends_on_running name s = ok (record s {
  depends_on = s.depends_on ++ record { name = name; condition = service_started } ∷ [];
})

-- Steps that are taken only if a pointer is set.
abbrev pub on_some {ℓ} : {A : Type ℓ} → Option A → (A → Builder) → Builder
on_some none f s = ok s
on_some (some a) f s = f a s

-- For proofs that run the methods: all that they call.
unfoldable pub service_code : Unit {0}
unfolding note_templates insert new_service
service_code = tt
