-- ===== src/Component/Ethereum.antt =====
-- playground/components.go: the components of the L1 chain.
use builder_playground.Prelude.{
  String, Bool, not, Option, some, none, List, [], ◌∷◌, ◌++◌, if◌then◌else◌, ◌⊕◌, ◌==◌,
}
use builder_playground.Output.{connect_raw, connect}
use builder_playground.Service.{
  Builder, ◌▹◌, when, with_image, with_entrypoint, with_tag, use_host_execution, with_args,
  with_env, with_volume, with_artifact, with_ready, depends_on_healthy,
}
use builder_playground.Context.{ExContext, level_trace, level_debug, level_warn, level_error}

pub record RethEl : Type 0 where
  pub use_reth_for_validation : Bool
  pub use_native_reth : Bool

unfoldable pub log_level_to_reth_verbosity : String → String
log_level_to_reth_verbosity level =
    if level == level_trace
    then "-vvvvv"
    else if level == level_debug
    then "-vvvv"
    else if level == level_warn
    then "-vv"
    else if level == level_error
    then "-v"
    else "-vvv"

-- `Run` with the verbosity flag at hand.
unfoldable pub reth_el_with : String → RethEl → Builder
unfolding with_args
reth_el_with verbosity r =
    with_image "ghcr.io/paradigmxyz/reth"
    ▹ with_tag "v1.4.8"
    ▹ with_entrypoint "/usr/local/bin/reth"
    ▹ with_args (
        "node" ∷ "--chain" ∷ "/data/genesis.json" ∷ "--datadir" ∷ "/data_reth" ∷ "--color" ∷ "never"
        ∷ "--ipcpath" ∷ "/data_reth/reth.ipc" ∷ "--addr" ∷ "127.0.0.1" ∷ "--port"
        ∷ "{{Port \"rpc\" 30303}}" ∷ "--http" ∷ "--http.addr" ∷ "0.0.0.0" ∷ "--http.api"
        ∷ "admin,eth,web3,net,rpc,mev,flashbots" ∷ "--http.port" ∷ "{{Port \"http\" 8545}}" ∷ "--ws"
        ∷ "--ws.addr" ∷ "0.0.0.0" ∷ "--ws.port" ∷ "{{Port \"ws\" 8546}}" ∷ "--ws.api"
        ∷ "eth,web3,net,txpool,debug,trace" ∷ "--ws.origins" ∷ "*" ∷ "--authrpc.port"
        ∷ "{{Port \"authrpc\" 8551}}" ∷ "--authrpc.addr" ∷ "0.0.0.0" ∷ "--authrpc.jwtsecret"
        ∷ "/data/jwtsecret" ∷ "--metrics" ∷ "0.0.0.0:{{Port \"metrics\" 9090}}"
        ∷ "--engine.persistence-threshold" ∷ "0" ∷ "--engine.memory-block-buffer-target" ∷ "0"
        ∷ verbosity ∷ [])
    ▹ with_artifact "/data/genesis.json" "genesis.json"
    ▹ with_artifact "/data/jwtsecret" "jwtsecret"
    ▹ with_volume "data" "/data_reth"
    ▹ when r.use_native_reth use_host_execution

unfoldable pub run_reth_el : RethEl → ExContext → Builder
unfolding reth_el_with
run_reth_el r ctx = reth_el_with (log_level_to_reth_verbosity ctx.log_level) r

pub record LighthouseBeaconNode : Type 0 where
  pub execution_node : String
  pub mev_boost_node : String

unfoldable pub run_lighthouse_beacon_node : LighthouseBeaconNode → ExContext → Builder
unfolding connect with_args
run_lighthouse_beacon_node l ctx =
    with_image "sigp/lighthouse"
    ▹ with_tag "v7.0.0-beta.0"
    ▹ with_entrypoint "lighthouse"
    ▹ with_args (
        "bn"
        ∷ "--datadir"
        ∷ "/data_beacon"
        ∷ "--testnet-dir"
        ∷ "/data/testnet-dir"
        ∷ "--enable-private-discovery"
        ∷ "--disable-peer-scoring"
        ∷ "--staking"
        ∷ "--enr-address"
        ∷ "127.0.0.1"
        ∷ "--enr-udp-port"
        ∷ "{{PortUDP \"p2p\" 9000}}"
        ∷ "--enr-tcp-port"
        ∷ "{{Port \"p2p\" 9000}}"
        ∷ "--enr-quic-port"
        ∷ "{{Port \"quic-p2p\" 9100}}"
        ∷ "--port"
        ∷ "{{Port \"p2p\" 9000}}"
        ∷ "--quic-port"
        ∷ "{{Port \"quic-p2p\" 9100}}"
        ∷ "--http"
        ∷ "--http-port"
        ∷ "{{Port \"http\" 3500}}"
        ∷ "--http-address"
        ∷ "0.0.0.0"
        ∷ "--http-allow-origin"
        ∷ "*"
        ∷ "--disable-packet-filter"
        ∷ "--target-peers"
        ∷ "0"
        ∷ "--execution-endpoint"
        ∷ (connect l.execution_node "authrpc")
        ∷ "--execution-jwt"
        ∷ "/data/jwtsecret"
        ∷ "--always-prepare-payload"
        ∷ "--prepare-payload-lookahead"
        ∷ "8000"
        ∷ "--suggested-fee-recipient"
        ∷ "0x690B9A9E9aa1C9dB991C7721a92d351Db4FaC990"
        ∷ [])
    ▹ with_artifact "/data/testnet-dir" "testnet"
    ▹ with_artifact "/data/jwtsecret" "jwtsecret"
    ▹ with_volume "data" "/data_beacon"
    ▹ with_ready (record {
      query_url = "http://localhost:3500/eth/v1/node/syncing";
      test = [];
      interval = 1;
      start_period = 1;
      timeout = 30;
      retries = 3;
    })
    ▹ when (not (l.mev_boost_node == "")) (
        with_args (
          "--builder"
          ∷ (connect l.mev_boost_node "http")
          ∷ "--builder-fallback-epochs-since-finalization"
          ∷ "0"
          ∷ "--builder-fallback-disable-checks"
          ∷ []))

pub record LighthouseValidator : Type 0 where
  pub beacon_node : String

unfoldable pub run_lighthouse_validator : LighthouseValidator → ExContext → Builder
unfolding connect with_args
run_lighthouse_validator l ctx =
    with_image "sigp/lighthouse"
    ▹ with_tag "v7.0.0-beta.0"
    ▹ with_entrypoint "lighthouse"
    ▹ with_args (
        "vc"
        ∷ "--datadir"
        ∷ "/data/validator"
        ∷ "--testnet-dir"
        ∷ "/data/testnet-dir"
        ∷ "--init-slashing-protection"
        ∷ "--beacon-nodes"
        ∷ (connect l.beacon_node "http")
        ∷ "--suggested-fee-recipient"
        ∷ "0x690B9A9E9aa1C9dB991C7721a92d351Db4FaC990"
        ∷ "--builder-proposals"
        ∷ "--prefer-builder-proposals"
        ∷ [])
    ▹ with_artifact "/data/validator" "data_validator"
    ▹ with_artifact "/data/testnet-dir" "testnet"

pub record ClProxy : Type 0 where
  pub primary_builder : String
  pub secondary_builder : String

unfoldable pub run_cl_proxy : ClProxy → ExContext → Builder
unfolding connect with_args
run_cl_proxy c ctx =
    with_image "docker.io/flashbots/playground-utils"
    ▹ with_tag "latest"
    ▹ with_entrypoint "cl-proxy"
    ▹ with_args (
        "--primary-builder"
        ∷ (connect c.primary_builder "authrpc")
        ∷ "--secondary-builder"
        ∷ c.secondary_builder
        ∷ "--port"
        ∷ "{{Port \"authrpc\" 5656}}"
        ∷ [])

pub record MevBoostRelay : Type 0 where
  pub beacon_client : String
  pub validation_server : String

unfoldable pub run_mev_boost_relay : MevBoostRelay → ExContext → Builder
unfolding connect with_env with_args
run_mev_boost_relay m ctx =
    with_image "docker.io/flashbots/playground-utils"
    ▹ with_tag "latest"
    ▹ with_env "ALLOW_SYNCING_BEACON_NODE" "1"
    ▹ with_entrypoint "mev-boost-relay"
    ▹ depends_on_healthy m.beacon_client
    ▹ with_args (
        "--api-listen-addr"
        ∷ "0.0.0.0"
        ∷ "--api-listen-port"
        ∷ "{{Port \"http\" 5555}}"
        ∷ "--beacon-client-addr"
        ∷ (connect m.beacon_client "http")
        ∷ [])
    ▹ when (not (m.validation_server == ""))
        (with_args ("--validation-server-addr" ∷ (connect m.validation_server "http") ∷ []))

pub record MevBoost : Type 0 where
  pub relay_endpoints : List String

-- The arguments of one endpoint. `key` is the relay's public key, computed from the default secret
-- key; where one of the four calls that compute it fails, the endpoint is skipped.
abbrev pub relay_args : Option String → String → List String
relay_args key endpoint =
    if endpoint == "mev-boost-relay"
    then elim key [
      | none ↦ []
      | some k ↦ "--relay" ∷ connect_raw "mev-boost-relay" "http" "http" k ∷ []
    ]
    else "--relay" ∷ connect endpoint "http" ∷ []

abbrev pub all_relay_args : Option String → List String → List String
all_relay_args key [] = []
all_relay_args key (e ∷ es) = relay_args key e ++ all_relay_args key es

-- `Run` with the relay arguments at hand.
unfoldable pub mev_boost_with : List String → Builder
unfolding with_args with_env
mev_boost_with relays =
    with_image "flashbots/mev-boost"
    ▹ with_tag "latest"
    ▹ with_args
        ("--addr" ∷ ("0.0.0.0:" ⊕ "{{Port \"http\" 18550}}") ∷ "--loglevel" ∷ "info" ∷ relays)
    ▹ with_env "GENESIS_FORK_VERSION" "0x20000089"

unfoldable pub run_mev_boost : Option String → MevBoost → ExContext → Builder
unfolding connect connect_raw mev_boost_with
run_mev_boost key m ctx = mev_boost_with (all_relay_args key m.relay_endpoints)
