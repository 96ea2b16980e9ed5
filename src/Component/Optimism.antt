-- ===== src/Component/Optimism.antt =====
-- playground/components.go: the components of the OP stack.
use builder_playground.Prelude.{
  ℕ, String, Option, some, none, List, [], ◌∷◌, eqb, if◌then◌else◌, ◌⊕◌, decimal, insert, ◌==◌,
}
use builder_playground.Output.{connect, EnodeAddr}
use builder_playground.Service.{
  Builder, ◌▹◌, with_image, with_entrypoint, with_tag, with_label, with_args, with_env, with_volume,
  with_artifact,
}
use builder_playground.Context.{
  ExContext, bootnode_url, level_trace, level_debug, level_info, level_warn, level_error,
}

pub record OpBatcher : Type 0 where
  pub l1_node : String
  pub l2_node : String
  pub rollup_node : String
  pub max_channel_duration : ℕ

-- The default that `Run` writes back to the component.
abbrev pub with_default_duration : OpBatcher → OpBatcher
with_default_duration o =
    if eqb o.max_channel_duration 0 then record o { max_channel_duration = 2 } else o

-- The arguments, with the flag of the duration, which is printed from the field.
unfoldable pub op_batcher_args : String → OpBatcher → List String
unfolding connect
op_batcher_args duration_flag o =
    "--l1-eth-rpc"
    ∷ (connect o.l1_node "http")
    ∷ "--l2-eth-rpc"
    ∷ (connect o.l2_node "http")
    ∷ "--rollup-rpc"
    ∷ (connect o.rollup_node "http")
    ∷ duration_flag
    ∷ "--sub-safety-margin=4"
    ∷ "--poll-interval=1s"
    ∷ "--num-confirmations=1"
    ∷ "--private-key=0x2a871d0798f97d79848a013d4936a73bf4cc922c825d33c1cf7073dff6d409c6"
    ∷ []

unfoldable pub op_batcher_with : String → OpBatcher → Builder
unfolding op_batcher_args with_args
op_batcher_with duration_flag o =
    with_image "us-docker.pkg.dev/oplabs-tools-artifacts/images/op-batcher"
    ▹ with_tag "v1.12.0-rc.1"
    ▹ with_entrypoint "op-batcher"
    ▹ with_args (op_batcher_args duration_flag o)

abbrev pub duration_flag : OpBatcher → String
duration_flag o = "--max-channel-duration=" ⊕ decimal o.max_channel_duration

unfoldable pub run_op_batcher : OpBatcher → ExContext → Builder
unfolding op_batcher_with
run_op_batcher o ctx =
    op_batcher_with (duration_flag (with_default_duration o)) (with_default_duration o)

pub record OpNode : Type 0 where
  pub l1_node : String
  pub l1_beacon : String
  pub l2_node : String

unfoldable pub run_op_node : OpNode → ExContext → Builder
unfolding connect with_env with_args
run_op_node o ctx =
    with_image "us-docker.pkg.dev/oplabs-tools-artifacts/images/op-node"
    ▹ with_tag "v1.13.0-rc.1"
    ▹ with_entrypoint "op-node"
    ▹ with_env "A" "B"
    ▹ with_args (
        "--l1"
        ∷ (connect o.l1_node "http")
        ∷ "--l1.beacon"
        ∷ (connect o.l1_beacon "http")
        ∷ "--l1.epoch-poll-interval"
        ∷ "12s"
        ∷ "--l1.http-poll-interval"
        ∷ "6s"
        ∷ "--l2"
        ∷ (connect o.l2_node "authrpc")
        ∷ "--l2.jwt-secret"
        ∷ "/data/jwtsecret"
        ∷ "--sequencer.enabled"
        ∷ "--sequencer.l1-confs"
        ∷ "0"
        ∷ "--verifier.l1-confs"
        ∷ "0"
        ∷ "--p2p.sequencer.key"
        ∷ "8b3a350cf5c34c9194ca85829a2df0ec3153be0318b5e2d3348e872092edffba"
        ∷ "--rollup.config"
        ∷ "/data/rollup.json"
        ∷ "--rpc.addr"
        ∷ "0.0.0.0"
        ∷ "--rpc.port"
        ∷ "{{Port \"http\" 8549}}"
        ∷ "--p2p.listen.ip"
        ∷ "0.0.0.0"
        ∷ "--p2p.listen.tcp"
        ∷ "{{Port \"p2p\" 9003}}"
        ∷ "--p2p.listen.udp"
        ∷ "{{PortUDP \"p2p\" 9003}}"
        ∷ "--p2p.scoring.peers"
        ∷ "light"
        ∷ "--p2p.ban.peers"
        ∷ "true"
        ∷ "--metrics.enabled"
        ∷ "--metrics.addr"
        ∷ "0.0.0.0"
        ∷ "--metrics.port"
        ∷ "{{Port \"metrics\" 7300}}"
        ∷ "--pprof.enabled"
        ∷ "--rpc.enable-admin"
        ∷ "--safedb.path"
        ∷ "/data_db"
        ∷ [])
    ▹ with_artifact "/data/jwtsecret" "jwtsecret"
    ▹ with_artifact "/data/rollup.json" "rollup.json"
    ▹ with_volume "data" "/data_db"

unfoldable pub log_level_to_geth_verbosity : String → String
log_level_to_geth_verbosity level =
    if level == level_trace
    then "5"
    else if level == level_debug
    then "4"
    else if level == level_info
    then "3"
    else if level == level_warn
    then "2"
    else if level == level_error
    then "1"
    else "3"

abbrev pub trusted_peers : Option String → String
trusted_peers none = ""
trusted_peers (some url) = "--bootnodes " ⊕ url ⊕ " "

unfoldable pub op_geth_args : String → String → List String
op_geth_args verbosity trusted_peers =
    "-c"
    ∷ ("geth init --datadir /data_opgeth --state.scheme hash /data/l2-genesis.json && "
        ⊕ "exec geth " ⊕ "--datadir /data_opgeth " ⊕ "--verbosity " ⊕ verbosity ⊕ " " ⊕ "--http "
        ⊕ "--http.corsdomain \"*\" " ⊕ "--http.vhosts \"*\" " ⊕ "--http.addr 0.0.0.0 "
        ⊕ "--http.port " ⊕ "{{Port \"http\" 8545}} "
        ⊕ "--http.api web3,debug,eth,txpool,net,engine,miner " ⊕ "--ws " ⊕ "--ws.addr 0.0.0.0 "
        ⊕ "--ws.port " ⊕ "{{Port \"ws\" 8546}} " ⊕ "--ws.origins \"*\" "
        ⊕ "--ws.api debug,eth,txpool,net,engine,miner " ⊕ "--syncmode full " ⊕ "--nodiscover "
        ⊕ "--maxpeers 5 " ⊕ "--rpc.allow-unprotected-txs " ⊕ "--authrpc.addr 0.0.0.0 "
        ⊕ "--authrpc.port " ⊕ "{{Port \"authrpc\" 8551}} " ⊕ "--authrpc.vhosts \"*\" "
        ⊕ "--authrpc.jwtsecret /data/jwtsecret " ⊕ "--gcmode archive " ⊕ "--state.scheme hash "
        ⊕ "--port " ⊕ "{{Port \"rpc\" 30303}} " ⊕ "--nodekey /data/p2p_key.txt " ⊕ trusted_peers
        ⊕ "--metrics " ⊕ "--metrics.addr 0.0.0.0 " ⊕ "--metrics.port "
        ⊕ "{{Port \"metrics\" 6061}}")
    ∷ []

unfoldable pub op_geth_with : String → String → EnodeAddr → Builder
unfolding op_geth_args with_args insert
op_geth_with verbosity trusted_peers enode =
    with_image "us-docker.pkg.dev/oplabs-tools-artifacts/images/op-geth"
    ▹ with_tag "v1.101503.2-rc.5"
    ▹ with_entrypoint "/bin/sh"
    ▹ with_label "metrics_path" "/debug/metrics/prometheus"
    ▹ with_args (op_geth_args verbosity trusted_peers)
    ▹ with_volume "data" "/data_opgeth"
    ▹ with_artifact "/data/l2-genesis.json" "l2-genesis.json"
    ▹ with_artifact "/data/jwtsecret" "jwtsecret"
    ▹ with_artifact "/data/p2p_key.txt" enode.artifact

-- `Run` after it has taken the enode key from the output folder.
unfoldable pub run_op_geth : EnodeAddr → ExContext → Builder
unfolding op_geth_with
run_op_geth enode ctx =
    op_geth_with (log_level_to_geth_verbosity ctx.log_level)
      (trusted_peers (bootnode_url ctx.bootnode)) enode

unfoldable pub run_op_reth : Unit {0} → ExContext → Builder
unfolding with_args
run_op_reth o ctx =
    with_image "ghcr.io/paradigmxyz/op-reth"
    ▹ with_tag "nightly"
    ▹ with_entrypoint "op-reth"
    ▹ with_args (
        "node" ∷ "--authrpc.port" ∷ "{{Port \"authrpc\" 8551}}" ∷ "--authrpc.addr" ∷ "0.0.0.0"
        ∷ "--authrpc.jwtsecret" ∷ "/data/jwtsecret" ∷ "--http" ∷ "--http.addr" ∷ "0.0.0.0"
        ∷ "--http.port" ∷ "{{Port \"http\" 8545}}" ∷ "--chain" ∷ "/data/l2-genesis.json"
        ∷ "--datadir" ∷ "/data_op_reth" ∷ "--disable-discovery" ∷ "--color" ∷ "never" ∷ "--metrics"
        ∷ "0.0.0.0:{{Port \"metrics\" 9090}}" ∷ "--port" ∷ "{{Port \"rpc\" 30303}}" ∷ [])
    ▹ with_artifact "/data/jwtsecret" "jwtsecret"
    ▹ with_artifact "/data/l2-genesis.json" "l2-genesis.json"
    ▹ with_volume "data" "/data_op_reth"
