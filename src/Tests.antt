-- ===== src/Tests.antt =====
-- The properties at concrete inputs: a manifest by hand, and the recipes with usual flags.
pub mod Running
pub mod Rollups
pub mod Network
pub mod Sessions
pub mod Forks
pub mod Cooking
pub mod Building
pub mod Kitchen
pub mod Relays
pub mod Fetching
use builder_playground.Prelude.{
  any, err, if◌then◌else◌, ◌==◌, not, ◌||◌, ◌<◌, String, Bool, true, false, none, some, [], ◌∷◌,
  ◌≡◌, refl, ◌↔◌, arith, ltb, decimal, ok, ◌⊕◌,
}
use builder_playground.Output.{Output, EnodeAddr, found, stat, next_seq, write_file, get_enode_addr}
use builder_playground.Output.Effects.{get_enode_addr_effect}
use builder_playground.Service.{
  Service, new_service, with_port, with_args, with_env, service_healthy, service_code,
}
use builder_playground.Service.FirstPass.{NodeRef, apply_template, port_at, tcp}
use builder_playground.Service.Ports.{PortsAgree, with_args-PortsAgree}
use builder_playground.Service.RoundTrip.{
  IsWritable, template_of, port_template, apply_template-template_of,
}
use builder_playground.Component.Contender.{Contender, extras, seen, target, contender_args}
use builder_playground.Component.Contender.Overrides.{given}
use builder_playground.Context.{ExContext, level_info, unmarshal_level}
use builder_playground.Context.Levels.{levels}
use builder_playground.Catalog.{Keys}
use builder_playground.Manifest.{Manifest, no_ready_check, validate}
use builder_playground.Manifest.Shapes.{views}
use builder_playground.Manifest.Spec.{IsValid, validate_iff}
use builder_playground.Manifest.Spammer.{spam}
use builder_playground.Manifest.Accepted.{Accepted, Rejected}
use builder_playground.Recipe.Lone
use builder_playground.Recipe.Lone.{L1Recipe}
use builder_playground.Recipe.Lone.Valid.{l1-Accepted}
use builder_playground.Recipe.BuilderNet
use builder_playground.Recipe.BuilderNet.{BuilderNetRecipe}
use builder_playground.Recipe.BuilderNet.Valid.{plain-Accepted, count_named}

abbrev out_folder : Output
out_folder = record {
  dst = "/out";
  home_dir = "/home";
  enode_addr_seq = none;
  files = "genesis.json" ∷ "jwtsecret" ∷ "testnet" ∷ "data_validator" ∷ [];
  faults = "locked" ∷ [];
}

abbrev sample_keys : Keys
sample_keys = record {
  valid_key = λ n. ltb 0 n;
  node_id = λ n. decimal n;
  relay_key = some "0xa1eb";
}

abbrev sample_ctx : Bool → ExContext
sample_ctx enabled = record {
  log_level = level_info;
  output = out_folder;
  bootnode = none;
  contender = spam enabled "";
}

abbrev flags : L1Recipe
flags = record {
  latest_fork = false;
  use_reth_for_validation = true;
  secondary_el_port = 8551;
  use_native_reth = false;
  use_separate_mev_boost = true;
}

abbrev el_ref : NodeRef
el_ref = record { service = "el"; port_label = "http"; protocol = "http"; user = "" }

abbrev hand_made : Manifest
hand_made = record {
  ctx = sample_ctx false;
  services =
      record (new_service "el") { ports = port_at "http" 8545 tcp ∷ [] }
      ∷ record (new_service "beacon") {
        node_refs = el_ref ∷ [];
        depends_on = record { name = "el"; condition = service_healthy } ∷ [];
      }
      ∷ [];
}

validate_iff_example : (validate hand_made ≡ ok tt) ↔ IsValid hand_made
validate_iff_example = validate_iff hand_made

el_ref-IsWritable : IsWritable el_ref
el_ref-IsWritable = record {
  service_ok = (omega arith, omega arith);
  port_ok = (omega arith, omega arith);
  protocol_ok = (omega arith, omega arith);
  user_ok = (tt, tt);
  service_set = refl;
  port_set = refl;
}

apply_template-template_of_example :
    apply_template ("--eth=" ⊕ template_of el_ref ⊕ "/x")
    ≡ ok ("--eth=" ⊕ template_of el_ref ⊕ "/x", [], el_ref ∷ [])
apply_template-template_of_example =
    apply_template-template_of "--eth=" "/x" el_ref (omega arith, omega arith)
      (omega arith, omega arith) el_ref-IsWritable

abbrev with_http : Service
with_http = record (new_service "el") { ports = port_at "http" 8545 tcp ∷ [] }

abbrev with_listed : Service
with_listed = record (new_service "el") {
  ports = port_at "http" 8545 tcp ∷ (port_at "ws" 8546 tcp ∷ []);
  args = "--ws" ∷ ("{{Port \"ws\" 8546}}" ∷ []);
}

with_args-PortsAgree_example : PortsAgree with_listed.ports
unfolding service_code with_args
with_args-PortsAgree_example =
    with_args-PortsAgree ("--ws" ∷ ("{{Port \"ws\" 8546}}" ∷ [])) with_http {s' = with_listed} refl
      (tt, tt)

abbrev rate_given : Contender
rate_given = record { extra_args = "--tpb 50" ∷ ("--loops=3" ∷ []); target_chain = "" }

rate_given_args :
    contender_args rate_given
    ≡ "spam" ∷ "--min-balance" ∷ "10 ether" ∷ "-r" ∷ "{{Service \"el\" \"http\" \"http\" \"\"}}"
      ∷ "--tpb" ∷ "50" ∷ "--loops=3" ∷ []
unfolding contender_args
rate_given_args = refl
