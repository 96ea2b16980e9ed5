-- ===== src/Service/FirstPass.antt =====
-- playground/manifest.go `applyTemplate`: the first pass over a template, which collects the ports
-- and the service references that it names.
use builder_playground.Prelude.{
  ℕ, zero, suc, String, Option, none, some, List, [], ◌∷◌, ◌++◌, has_prefix, if◌then◌else◌, Result,
  ok, err, ◌⊕◌, chr, decimal, ◌==◌,
}
use builder_playground.Template.{Token, word, quoted, number, Piece, parse, execute}

-- The panics of the package.
pub data Panic : Type 0 where
  bad_template : String → Panic
  unsupported_protocol port_conflict service_not_found port_not_found : String → Panic
  no_enode_key : String → Panic
  no_free_port : ℕ → Panic

abbrev pub tcp : String
tcp = "tcp"

abbrev pub udp : String
udp = "udp"

pub record Port : Type 0 where
  pub name : String
  pub port : ℕ
  pub protocol : String
  pub host_port : ℕ

pub record NodeRef : Type 0 where
  pub service : String
  pub port_label : String
  pub protocol : String
  pub user : String

-- What the closures of the FuncMap collect.
pub record Refs : Type 0 where
  pub port_ref : List Port
  pub node_ref : List NodeRef

abbrev pub port_at : String → ℕ → String → Port
port_at name n protocol = record { name = name; port = n; protocol = protocol; host_port = 0 }

-- `none` is the panic of the closure, which Execute turns into an error.
unfoldable pub service_fn : List Token → Refs → Option (String × Refs)
service_fn (quoted name ∷ quoted label ∷ quoted protocol ∷ quoted user ∷ []) refs =
    if name == ""
    then none
    else if label == ""
    then none
    else some (
      "{{Service \"" ⊕ name ⊕ "\" \"" ⊕ label ⊕ "\" \"" ⊕ protocol ⊕ "\" \"" ⊕ user ⊕ "\"}}",
      record refs {
        node_ref =
            refs.node_ref
            ++ record { service = name; port_label = label; protocol = protocol; user = user } ∷ [];
      },
    )
service_fn _ refs = none

unfoldable pub port_fn : List Token → Refs → Option (String × Refs)
port_fn (quoted name ∷ number n ∷ []) refs = some (
  "{{Port \"" ⊕ name ⊕ "\" " ⊕ decimal n ⊕ "}}",
  record refs { port_ref = refs.port_ref ++ port_at name n tcp ∷ [] },
)
port_fn _ refs = none

unfoldable pub port_udp_fn : List Token → Refs → Option (String × Refs)
port_udp_fn (quoted name ∷ number n ∷ []) refs = some (
  "{{PortUDP \"" ⊕ name ⊕ "\" " ⊕ decimal n ⊕ "}}",
  record refs { port_ref = refs.port_ref ++ port_at name n udp ∷ [] },
)
port_udp_fn _ refs = none

unfoldable pub funcs : List Token → Refs → Option (String × Refs)
unfolding service_fn port_fn port_udp_fn
funcs (word f ∷ operands) refs =
    if f == "Service"
    then service_fn operands refs
    else if f == "Port"
    then port_fn operands refs
    else if f == "PortUDP"
    then port_udp_fn operands refs
    else none
funcs _ refs = none

-- strings.ReplaceAll(res, `&#34;`, `"`): `skip` characters of a match are still to be dropped.
unfoldable pub unescape : ℕ → String → String
unescape skip String.[] = ""
unescape (suc skip) (String.◌∷◌ c s) = unescape skip s
unescape zero (String.◌∷◌ c s) =
    let hit = "\"" ⊕ unescape 4 s in
    let miss = chr c ⊕ unescape zero s in if has_prefix (String.◌∷◌ c s) "&#34;" then hit else miss

abbrev pub executed : Option (String × Refs) → Result Panic (String × List Port × List NodeRef)
executed none = err (bad_template "failed to execute template")
executed (some (out, refs)) = ok (unescape zero out, refs.port_ref, refs.node_ref)

abbrev pub run_template : Option (List Piece) → Result Panic (String × List Port × List NodeRef)
run_template none = err (bad_template "failed to parse template")
run_template (some ps) = executed (execute funcs ps (record { port_ref = []; node_ref = [] }))

unfoldable pub apply_template : String → Result Panic (String × List Port × List NodeRef)
unfolding parse execute funcs unescape
apply_template template_str = run_template (parse template_str)
