-- ===== src/Tests/Relays.antt =====
-- Relays of mev-boost-relay that are started, at concrete inputs.
use builder_playground.Prelude.{
  String, true, false, none, some, [], ◌∷◌, ◌≡◌, ◌≢◌, refl, ok, err, ◌⊕◌, decimal,
}
use builder_playground.Relay.{default_config}
use builder_playground.Relay.Server.{Process, Outside, RelayApiOpts, new, panics}
use builder_playground.Relay.Server.Twice.{Validates, new-Validates, new_once}

abbrev outside : Outside
outside = record {
  set_env = λ key. none;
  synced = false;
  synced_later = true ∷ [];
  get = λ uri. ok uri;
  unmarshal_spec = λ body. ok (
      some (record {
        bellatrix_fork_version = "0x20000093";
        capella_fork_version = "0x20000094";
        deneb_fork_version = "0x20000095";
        electra_fork_version = "0x20000096";
      }));
  genesis = ok (record { genesis_fork_version = "0x20000089"; genesis_validators_root = "0x00" });
  EthNetworkDetails = String;
  custom_details = λ env. ok "custom";
  miniredis = ok "127.0.0.1:6379";
  redis_cache = λ addr. none;
  datastore = none;
  listen = ok "[::]:41000";
  decode_hex = λ s. ok s;
  SecretKey = String;
  secret_key = λ bytes. ok bytes;
  relay_api = none;
}

abbrev fresh : Process
fresh = record { env = []; has_root = false }

abbrev after_one : Process
after_one = (new outside default_config fresh).1

abbrev opts : RelayApiOpts outside
opts = record {
  listen_addr = "127.0.0.1:5555";
  secret_key = "5eae315483f028b5cdd5d1090ff0c7618b18737ea9bf3c35047189db22835c48";
  eth_net_details = "custom";
  block_sim_url = "http://[::]:41000";
}

one : new outside default_config fresh ≡ (ok opts, after_one)
unfolding new default_config
one = refl

another :
    (new outside default_config after_one).0 ≡ err (panics "http: multiple registrations for /")
unfolding new default_config
another = refl

new-Validates_example :
    (opts.listen_addr ≡ "127.0.0.1" ⊕ ":" ⊕ decimal 5555)
    × Validates outside default_config fresh after_one opts.block_sim_url
unfolding default_config
new-Validates_example = new-Validates outside default_config fresh opts after_one one

new_once_example : new outside default_config after_one ≢ (ok opts, after_one)
unfolding default_config
new_once_example =
    new_once outside outside default_config default_config fresh after_one after_one opts opts one
      refl refl
