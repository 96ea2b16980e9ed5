-- ===== src/Component/Rollup.antt =====
-- playground/components.go: the components around rollup-boost and flashblocks.
use builder_playground.Prelude.{
  String, Bool, not, Option, List, [], ◌∷◌, map, if◌then◌else◌, ◌⊕◌, join, ◌==◌,
}
use builder_playground.Output.{connect, connect_ws}
use builder_playground.Service.{
  Builder, ◌▹◌, when, on_some, with_image, with_entrypoint, with_tag, with_args, with_volume,
  with_artifact,
}
use builder_playground.Context.{ExContext, bootnode_url}

pub record RollupBoost : Type 0 where
  pub el_node : String
  pub builder : String
  pub flashblocks : Bool
  pub flashblocks_builder_url : String

unfoldable pub run_rollup_boost : RollupBoost → ExContext → Builder
unfolding connect with_args
run_rollup_boost r ctx =
    with_image "docker.io/flashbots/rollup-boost"
    ▹ with_tag "0.7.0"
    ▹ with_args (
        "--rpc-host"
        ∷ "0.0.0.0"
        ∷ "--rpc-port"
        ∷ "{{Port \"authrpc\" 8551}}"
        ∷ "--l2-jwt-path"
        ∷ "/data/jwtsecret"
        ∷ "--l2-url"
        ∷ (connect r.el_node "authrpc")
        ∷ "--builder-jwt-path"
        ∷ "/data/jwtsecret"
        ∷ "--builder-url"
        ∷ r.builder
        ∷ [])
    ▹ with_artifact "/data/jwtsecret" "jwtsecret"
    ▹ when r.flashblocks (
        with_args (
          "--flashblocks" ∷ "--flashblocks-host" ∷ "0.0.0.0" ∷ "--flashblocks-port"
          ∷ "{{Port \"flashblocks\" 1112}}" ∷ []))
    ▹ when (not (r.flashblocks_builder_url == ""))
        (with_args ("--flashblocks-builder-url" ∷ r.flashblocks_builder_url ∷ []))

pub record OpRbuilder : Type 0 where
  pub flashblocks : Bool

-- The steps that come before the bootnode.
unfoldable pub op_rbuilder_base : Builder
unfolding with_args
op_rbuilder_base =
    with_image "ghcr.io/flashbots/op-rbuilder"
    ▹ with_tag "sha-4f1931b"
    ▹ with_args (
        "node" ∷ "--authrpc.port" ∷ "{{Port \"authrpc\" 8551}}" ∷ "--authrpc.addr" ∷ "0.0.0.0"
        ∷ "--authrpc.jwtsecret" ∷ "/data/jwtsecret" ∷ "--http" ∷ "--http.addr" ∷ "0.0.0.0"
        ∷ "--http.port" ∷ "{{Port \"http\" 8545}}" ∷ "--chain" ∷ "/data/l2-genesis.json"
        ∷ "--datadir" ∷ "/data_op_reth" ∷ "--disable-discovery" ∷ "--color" ∷ "never" ∷ "--metrics"
        ∷ "0.0.0.0:{{Port \"metrics\" 9090}}" ∷ "--port" ∷ "{{Port \"rpc\" 30303}}"
        ∷ "--builder.enable-revert-protection" ∷ [])
    ▹ with_artifact "/data/jwtsecret" "jwtsecret"
    ▹ with_artifact "/data/l2-genesis.json" "l2-genesis.json"
    ▹ with_volume "data" "/data_op_reth"

-- The steps that come after it.
unfoldable pub op_rbuilder_ports : Bool → Builder
unfolding with_args
op_rbuilder_ports flashblocks = when flashblocks (
    with_args (
      "--flashblocks.enabled" ∷ "--flashblocks.addr" ∷ "0.0.0.0" ∷ "--flashblocks.port"
      ∷ "{{Port \"flashblocks\" 1112}}" ∷ []))

unfoldable pub op_rbuilder_with : Option String → OpRbuilder → Builder
unfolding op_rbuilder_base op_rbuilder_ports with_args
op_rbuilder_with bootnode o =
    op_rbuilder_base
    ▹ on_some bootnode (λ url. with_args ("--trusted-peers" ∷ url ∷ []))
    ▹ op_rbuilder_ports o.flashblocks

unfoldable pub run_op_rbuilder : OpRbuilder → ExContext → Builder
unfolding op_rbuilder_with
run_op_rbuilder o ctx = op_rbuilder_with (bootnode_url ctx.bootnode) o

pub record FlashblocksRpc : Type 0 where
  pub flashblocks_ws_service : String
  pub base_overlay : Bool
  pub use_websocket_proxy : Bool

abbrev pub websocket_url : FlashblocksRpc → String
websocket_url f =
    let url = connect_ws f.flashblocks_ws_service "flashblocks" in
    if f.use_websocket_proxy then url ⊕ "/ws" else url

unfoldable pub flashblocks_image : FlashblocksRpc → Builder
unfolding connect_ws with_args
flashblocks_image f s =
    if f.base_overlay
    then (with_image "docker.io/mikawamp/base-reth-node"
          ▹ with_tag "latest"
          ▹ with_entrypoint "/app/base-reth-node"
          ▹ with_args ("node" ∷ "--websocket-url" ∷ websocket_url f ∷ []))
        s
    else (with_image "flashbots/flashblocks-rpc"
          ▹ with_tag "sha-7caffb9"
          ▹ with_args (
              "node"
              ∷ "--flashblocks.enabled"
              ∷ "--flashblocks.websocket-url"
              ∷ websocket_url f
              ∷ []))
        s

-- The steps that come before the bootnode.
unfoldable pub flashblocks_rpc_base : FlashblocksRpc → Builder
unfolding flashblocks_image with_args
flashblocks_rpc_base f =
    flashblocks_image f
    ▹ with_args (
        "--authrpc.port" ∷ "{{Port \"authrpc\" 8551}}" ∷ "--authrpc.addr" ∷ "0.0.0.0"
        ∷ "--authrpc.jwtsecret" ∷ "/data/jwtsecret" ∷ "--http" ∷ "--http.addr" ∷ "0.0.0.0"
        ∷ "--http.port" ∷ "{{Port \"http\" 8545}}" ∷ "--chain" ∷ "/data/l2-genesis.json"
        ∷ "--datadir" ∷ "/data_op_reth" ∷ "--disable-discovery" ∷ "--color" ∷ "never" ∷ "--metrics"
        ∷ "0.0.0.0:{{Port \"metrics\" 9090}}" ∷ "--port" ∷ "{{Port \"rpc\" 30303}}" ∷ [])
    ▹ with_artifact "/data/jwtsecret" "jwtsecret"
    ▹ with_artifact "/data/l2-genesis.json" "l2-genesis.json"
    ▹ with_volume "data" "/data_flashblocks_rpc"

unfoldable pub flashblocks_rpc_with : Option String → FlashblocksRpc → Builder
unfolding flashblocks_rpc_base with_args
flashblocks_rpc_with bootnode f =
    flashblocks_rpc_base f ▹ on_some bootnode (λ url. with_args ("--trusted-peers" ∷ url ∷ []))

unfoldable pub run_flashblocks_rpc : FlashblocksRpc → ExContext → Builder
unfolding flashblocks_rpc_with
run_flashblocks_rpc f ctx = flashblocks_rpc_with (bootnode_url ctx.bootnode) f

pub record BProxy : Type 0 where
  pub target_authrpc : String
  pub peers : List String
  pub flashblocks : Bool
  pub flashblocks_builder_url : String

unfoldable pub run_bproxy : BProxy → ExContext → Builder
unfolding connect with_args
run_bproxy f ctx =
    with_image "ghcr.io/flashbots/bproxy"
    ▹ with_tag "v0.0.91"
    ▹ with_args (
        "serve"
        ∷ "--authrpc-backend"
        ∷ f.target_authrpc
        ∷ "--authrpc-backend-timeout"
        ∷ "5s"
        ∷ "--authrpc-client-idle-connection-timeout"
        ∷ "15m"
        ∷ "--authrpc-deduplicate-fcus"
        ∷ "--authrpc-enabled"
        ∷ "--authrpc-listen-address"
        ∷ "0.0.0.0:{{Port \"authrpc\" 8651}}"
        ∷ "--authrpc-log-requests"
        ∷ "--authrpc-log-responses"
        ∷ "--authrpc-max-backend-connections-per-host"
        ∷ "1"
        ∷ "--authrpc-max-request-size"
        ∷ "150"
        ∷ "--authrpc-max-response-size"
        ∷ "1150"
        ∷ "--authrpc-peers"
        ∷ (join (map (λ peer. connect peer "authrpc") f.peers) ",")
        ∷ "--authrpc-remove-backend-from-peers"
        ∷ "--authrpc-use-priority-queue"
        ∷ [])
    ▹ with_artifact "/data/jwtsecret" "jwtsecret"
    ▹ when f.flashblocks (
        with_args (
          "--flashblocks-backend" ∷ f.flashblocks_builder_url ∷ "--flashblocks-enabled"
          ∷ "--flashblocks-listen-address" ∷ "0.0.0.0:{{Port \"flashblocks\" 1114}}"
          ∷ "--flashblocks-log-messages" ∷ []))

pub record WebsocketProxy : Type 0 where
  pub upstream : String

unfoldable pub run_websocket_proxy : WebsocketProxy → ExContext → Builder
unfolding connect_ws with_args
run_websocket_proxy w ctx =
    with_image "docker.io/mikawamp/websocket-rpc"
    ▹ with_tag "latest"
    ▹ with_args (
        "--listen-addr"
        ∷ "0.0.0.0:{{Port \"flashblocks\" 1115}}"
        ∷ "--upstream-ws"
        ∷ (connect_ws w.upstream "flashblocks")
        ∷ "--enable-compression"
        ∷ "--client-ping-enabled"
        ∷ [])
