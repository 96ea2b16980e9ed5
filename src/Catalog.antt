-- ===== src/Catalog.antt =====
-- playground/catalog.go and the `ServiceGen` interface: the components, their names and `Run`.
pub mod Lookup
use builder_playground.Prelude.{
  ℕ, String, Bool, false, Option, none, some, List, [], ◌∷◌, find, Result, ok, err, ◌>>=◌, ◌==◌,
}
use builder_playground.Output.{Output, EnodeAddr, get_enode_addr}
use builder_playground.Service.{Service, Builder}
use builder_playground.Service.FirstPass.{Panic, no_enode_key}
use builder_playground.Context.{ExContext}
use builder_playground.Component.Rollup.{
  RollupBoost, run_rollup_boost, OpRbuilder, run_op_rbuilder, FlashblocksRpc, run_flashblocks_rpc,
  BProxy, run_bproxy, WebsocketProxy, run_websocket_proxy,
}
use builder_playground.Component.Optimism.{
  OpBatcher, with_default_duration, run_op_batcher, OpNode, run_op_node, run_op_geth, run_op_reth,
}
use builder_playground.Component.Ethereum.{
  RethEl, run_reth_el, LighthouseBeaconNode, run_lighthouse_beacon_node, LighthouseValidator,
  run_lighthouse_validator, ClProxy, run_cl_proxy, MevBoostRelay, run_mev_boost_relay, MevBoost,
  run_mev_boost,
}
use builder_playground.Component.Hub.{
  run_builder_hub_postgres, BuilderHub, run_builder_hub, BuilderHubMockProxy,
  run_builder_hub_mock_proxy,
}
use builder_playground.Component.Contender.{Contender, run_contender}

pub data ServiceGen : Type 0 where
  op_batcher : OpBatcher → ServiceGen
  -- `Enode` is an output of the component, nil until it has run.
  op_geth : Option EnodeAddr → ServiceGen
  op_node : OpNode → ServiceGen
  reth_el : RethEl → ServiceGen
  lighthouse_beacon_node : LighthouseBeaconNode → ServiceGen
  lighthouse_validator : LighthouseValidator → ServiceGen
  cl_proxy : ClProxy → ServiceGen
  mev_boost_relay : MevBoostRelay → ServiceGen
  mev_boost : MevBoost → ServiceGen
  rollup_boost : RollupBoost → ServiceGen
  op_reth : ServiceGen
  builder_hub : BuilderHub → ServiceGen
  builder_hub_postgres : ServiceGen
  builder_hub_mock_proxy : BuilderHubMockProxy → ServiceGen
  null_service : ServiceGen
  op_rbuilder : OpRbuilder → ServiceGen
  flashblocks_rpc : FlashblocksRpc → ServiceGen
  contender : Contender → ServiceGen
  bproxy : BProxy → ServiceGen
  websocket_proxy : WebsocketProxy → ServiceGen

-- The `Name` methods.
unfoldable pub component_name : ServiceGen → String
component_name (op_batcher _) = "op-batcher"
component_name (op_geth _) = "op-geth"
component_name (op_node _) = "op-node"
component_name (reth_el _) = "reth"
component_name (lighthouse_beacon_node _) = "lighthouse-beacon-node"
component_name (lighthouse_validator _) = "lighthouse-validator"
component_name (cl_proxy _) = "cl-proxy"
component_name (mev_boost_relay _) = "mev-boost-relay"
component_name (mev_boost _) = "mev-boost"
component_name (rollup_boost _) = "rollup-boost"
component_name op_reth = "op-reth"
component_name (builder_hub _) = "builder-hub"
component_name builder_hub_postgres = "builder-hub-postgres"
component_name (builder_hub_mock_proxy _) = "builder-hub-mock-proxy"
component_name null_service = "null"
component_name (op_rbuilder _) = "op-rbuilder"
component_name (flashblocks_rpc _) = "flashblocks-rpc"
component_name (contender _) = "contender"
component_name (bproxy _) = "bproxy"
component_name (websocket_proxy _) = "websocket-proxy"

-- What libraries compute: which numbers are private keys of the curve and what node id each gives
-- (go-ethereum's crypto), and the relay's public key from its default secret key (bls), if it can
-- be computed.
pub record Keys : Type 0 where
  pub valid_key : ℕ → Bool
  pub node_id : ℕ → String
  pub relay_key : Option String

pub record Ran : Type 0 where
  pub service : Service
  pub ctx : ExContext
  pub component : ServiceGen

module _ (keys : Keys) (ctx : ExContext) where
  -- A `Run` that leaves the context alone.
  abbrev pub runs : ServiceGen → Builder → Service → Result Panic Ran
  runs c b s = do s' ← b s; ok (record { service = s'; ctx = ctx; component = c })

  abbrev pub with_enode : Result String (EnodeAddr × Output) → Service → Result Panic Ran
  with_enode (err why) s = err (no_enode_key why)
  with_enode (ok (enode, out)) s = do
    s' ← run_op_geth enode ctx s
    ok (record {
      service = s';
      ctx = record ctx { output = out };
      component = op_geth (some enode);
    })

  unfoldable pub run : ServiceGen → Service → Result Panic Ran
  unfolding run_op_batcher run_op_geth run_op_node run_reth_el run_lighthouse_beacon_node
      run_lighthouse_validator run_cl_proxy run_mev_boost_relay run_mev_boost run_rollup_boost
      run_op_reth run_builder_hub run_builder_hub_postgres run_builder_hub_mock_proxy
      run_op_rbuilder run_flashblocks_rpc run_contender run_bproxy run_websocket_proxy
      get_enode_addr
  run (op_batcher o) s = runs (op_batcher (with_default_duration o)) (run_op_batcher o ctx) s
  run (op_geth _) s = with_enode (get_enode_addr keys.valid_key ctx.output) s
  run (op_node o) s = runs (op_node o) (run_op_node o ctx) s
  run (reth_el r) s = runs (reth_el r) (run_reth_el r ctx) s
  run (lighthouse_beacon_node l) s =
      runs (lighthouse_beacon_node l) (run_lighthouse_beacon_node l ctx) s
  run (lighthouse_validator l) s = runs (lighthouse_validator l) (run_lighthouse_validator l ctx) s
  run (cl_proxy c) s = runs (cl_proxy c) (run_cl_proxy c ctx) s
  run (mev_boost_relay m) s = runs (mev_boost_relay m) (run_mev_boost_relay m ctx) s
  run (mev_boost m) s = runs (mev_boost m) (run_mev_boost keys.relay_key m ctx) s
  run (rollup_boost r) s = runs (rollup_boost r) (run_rollup_boost r ctx) s
  run op_reth s = runs op_reth (run_op_reth tt ctx) s
  run (builder_hub b) s = runs (builder_hub b) (run_builder_hub b ctx) s
  run builder_hub_postgres s = runs builder_hub_postgres (run_builder_hub_postgres tt ctx) s
  run (builder_hub_mock_proxy b) s =
      runs (builder_hub_mock_proxy b) (run_builder_hub_mock_proxy b ctx) s
  run null_service s = runs null_service ok s
  run (op_rbuilder o) s = runs (op_rbuilder o) (run_op_rbuilder o ctx) s
  run (flashblocks_rpc f) s = runs (flashblocks_rpc f) (run_flashblocks_rpc f ctx) s
  run (contender c) s = runs (contender c) (run_contender c ctx) s
  run (bproxy f) s = runs (bproxy f) (run_bproxy f ctx) s
  run (websocket_proxy w) s = runs (websocket_proxy w) (run_websocket_proxy w ctx) s

-- The registered components, in order; each is registered with its zero value.
abbrev pub components : List ServiceGen
components =
    op_batcher (record { l1_node = ""; l2_node = ""; rollup_node = ""; max_channel_duration = 0 })
    ∷ op_geth none
    ∷ op_node (record { l1_node = ""; l1_beacon = ""; l2_node = "" })
    ∷ reth_el (record { use_reth_for_validation = false; use_native_reth = false })
    ∷ lighthouse_beacon_node (record { execution_node = ""; mev_boost_node = "" })
    ∷ lighthouse_validator (record { beacon_node = "" })
    ∷ cl_proxy (record { primary_builder = ""; secondary_builder = "" })
    ∷ mev_boost_relay (record { beacon_client = ""; validation_server = "" })
    ∷ mev_boost (record { relay_endpoints = [] })
    ∷ rollup_boost
        (record { el_node = ""; builder = ""; flashblocks = false; flashblocks_builder_url = "" })
    ∷ op_reth
    ∷ builder_hub (record { postgres = "" })
    ∷ builder_hub_postgres
    ∷ builder_hub_mock_proxy (record { target_service = "" })
    ∷ null_service
    ∷ op_rbuilder (record { flashblocks = false })
    ∷ flashblocks_rpc
        (record { flashblocks_ws_service = ""; base_overlay = false; use_websocket_proxy = false })
    ∷ contender (record { extra_args = []; target_chain = "" })
    ∷ bproxy (record {
      target_authrpc = "";
      peers = [];
      flashblocks = false;
      flashblocks_builder_url = "";
    })
    ∷ websocket_proxy (record { upstream = "" })
    ∷ []

unfoldable pub find_component : String → Option ServiceGen
unfolding component_name
find_component name = find (λ c. component_name c == name) components
