-- ===== src/Tests/Running.antt =====
-- The properties of the local runner at concrete inputs: a service on the host and one in docker.
use builder_playground.Prelude.{
  ℕ, String, Bool, false, not, none, [], ◌∷◌, ◌≡◌, refl, arith, eqb, ok, ◌⊕◌, if◌then◌else◌,
}
use builder_playground.Service.{Service, get_port}
use builder_playground.Service.FirstPass.{NodeRef, port_at, tcp}
use builder_playground.Service.RoundTrip.{IsWritable, template_of}
use builder_playground.Manifest.{get_service}
use builder_playground.Runner.{
  LocalRunner, is_host_service, reserve_port, reserve_all, task_status_started,
}
use builder_playground.Runner.Ports.{
  IsFree, Distinct, onto, all_host_ports, reserve_port_effect, reserve_port-total,
  reserve_all-Distinct,
}
use builder_playground.Runner.Second.{print_addr, run_second, run_second-template_of}

-- Port 8545 is taken by another program.
abbrev listens : String → String → ℕ → Bool
listens addr protocol i = not (eqb i 8545)

abbrev el : Service
el = record {
  name = "el";
  args = [];
  labels = [];
  env = [];
  ready_check = none;
  depends_on = [];
  ports = port_at "http" 8545 tcp ∷ (port_at "ws" 8546 tcp ∷ []);
  node_refs = [];
  files_mapped = [];
  volumes_mapped = [];
  component_name = "reth";
  tag = "";
  image = "";
  entrypoint = "";
}

abbrev runner : LocalRunner
runner = record {
  services = el ∷ (record el { name = "op-node"; ports = [] } ∷ []);
  reserved_ports = [];
  overrides = ("el", "/bin/reth") ∷ [];
  tasks =
      record { name = "el"; status = "pending"; ready = false }
      ∷ (record { name = "op-node"; status = task_status_started; ready = false } ∷ []);
  bind_host_ports_locally = false;
  exit_err = [];
  waiting = none;
}

reserve_port_effect_example :
    IsFree listens [] "0.0.0.0" "tcp" 8545 1000 8546
    × (record runner { reserved_ports = 8546 ∷ [] } ≡ record runner { reserved_ports = 8546 ∷ [] })
unfolding reserve_port
reserve_port_effect_example =
    reserve_port_effect listens 8545 "tcp" runner {n = 8546}
      {d' = record runner { reserved_ports = 8546 ∷ [] }} refl

reserve_port-total_example :
    (m : ℕ) × (d' : LocalRunner) × (reserve_port listens 8545 "tcp" runner ≡ ok (m, d'))
reserve_port-total_example =
    reserve_port-total listens 8545 "tcp" runner 8600 refl (omega arith, omega arith, refl, refl)

abbrev runner_after : LocalRunner
runner_after = record runner {
  services =
      record el {
        ports =
            record (port_at "http" 8545 tcp) { host_port = 8546 }
            ∷ (record (port_at "ws" 8546 tcp) { host_port = 8547 } ∷ []);
      }
      ∷ (record el { name = "op-node"; ports = [] } ∷ []);
  reserved_ports = 8547 ∷ (8546 ∷ []);
}

reserve_all-Distinct_example :
    (runner_after.reserved_ports
      ≡ onto (all_host_ports runner_after.services) runner.reserved_ports)
    × Distinct runner_after.reserved_ports
unfolding reserve_all
reserve_all-Distinct_example = reserve_all-Distinct listens runner {d' = runner_after} refl tt

abbrev ws_ref : NodeRef
ws_ref = record { service = "el"; port_label = "ws"; protocol = "ws"; user = "" }

ws_ref-IsWritable : IsWritable ws_ref
ws_ref-IsWritable = record {
  service_ok = (omega arith, omega arith);
  port_ok = (omega arith, omega arith);
  protocol_ok = (omega arith, omega arith);
  user_ok = (tt, tt);
  service_set = refl;
  port_set = refl;
}

run_second-template_of_example :
    run_second runner_after
      (record el { name = "op-node"; ports = [] })
      ("--l2=" ⊕ template_of ws_ref ⊕ "")
    ≡ ok (
        "--l2="
        ⊕ (if is_host_service runner_after "op-node"
            then print_addr "ws" "localhost" 8547 ""
            else if is_host_service runner_after "el"
            then print_addr "ws" "host.docker.internal" 8547 ""
            else print_addr "ws" "el" 8546 "")
        ⊕ "")
unfolding get_service get_port
run_second-template_of_example =
    run_second-template_of runner_after (record el { name = "op-node"; ports = [] }) "--l2=" ""
      ws_ref (omega arith) tt ws_ref-IsWritable refl refl
