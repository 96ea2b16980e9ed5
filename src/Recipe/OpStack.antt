-- ===== src/Recipe/OpStack.antt =====
-- playground/recipe_opstack.go
pub mod Parts
pub mod Outcomes
pub mod Valid
pub mod Verdict
use builder_playground.Prelude.{
  ℕ, String, Bool, false, ◌&&◌, Option, none, some, List, [], ◌∷◌, if◌then◌else◌, Result, ok, ◌>>=◌,
  ◌==◌,
}
use builder_playground.Output.{Output, connect, connect_ws}
use builder_playground.Service.FirstPass.{Panic}
use builder_playground.Context.{ExContext}
use builder_playground.Genesis.{ArtifactsBuilder, new_artifacts_builder}
use builder_playground.Catalog.{
  ServiceGen, op_batcher, op_geth, op_node, reth_el, lighthouse_beacon_node, lighthouse_validator,
  rollup_boost, op_reth, op_rbuilder, flashblocks_rpc, bproxy, websocket_proxy, Keys,
}
use builder_playground.Manifest.{Manifest, new_manifest, add_service, add, run_contender_if_enabled}

pub record OpRecipe : Type 0 where
  pub external_builder : String
  pub enable_latest_fork : Option ℕ
  pub block_time : ℕ
  pub batcher_max_channel_duration : ℕ
  pub flashblocks : Bool
  pub flashblocks_builder_url : String
  pub base_overlay : Bool
  pub enable_websocket_proxy : Bool

-- The recipe as `Flags` leaves it when no flag is given.
unfoldable pub flags : OpRecipe
flags = record {
  external_builder = "";
  enable_latest_fork = none;
  block_time = 2;
  batcher_max_channel_duration = 2;
  flashblocks = false;
  flashblocks_builder_url = "";
  base_overlay = false;
  enable_websocket_proxy = false;
}

-- `Artifacts`
unfoldable pub artifacts : OpRecipe → ArtifactsBuilder
unfolding new_artifacts_builder
artifacts o = record new_artifacts_builder {
  apply_latest_l2_fork = o.enable_latest_fork;
  op_block_time = o.block_time;
}

-- `opGeth.Enode.NodeID()` after the component has run; the nil dereference before that cannot occur
-- behind `AddService`, and gives the empty text here.
abbrev pub enode_id : Keys → ServiceGen → String
enode_id keys (op_geth (some enode)) = keys.node_id enode.priv_key
enode_id keys _ = ""

module _ (keys : Keys) (o : OpRecipe) where
  -- `externalBuilderRef` and `flashblocksBuilderURLRef` after the branches that set them.
  unfoldable pub external_builder_ref : String
  unfolding connect
  external_builder_ref =
      if o.external_builder == "op-reth"
      then connect "op-reth" "authrpc"
      else if o.external_builder == "op-rbuilder"
      then connect "op-rbuilder" "authrpc"
      else o.external_builder

  unfoldable pub flashblocks_ref : String
  unfolding connect_ws
  flashblocks_ref =
      if o.flashblocks && o.external_builder == "op-rbuilder"
      then connect_ws "op-rbuilder" "flashblocks"
      else o.flashblocks_builder_url

  abbrev pub peers : List String
  peers = if o.flashblocks then "flashblocks-rpc" ∷ [] else []

  abbrev pub add_builder : Manifest → Result Panic Manifest
  add_builder m =
      if o.external_builder == "op-reth"
      then add keys "op-reth" op_reth m
      else if o.external_builder == "op-rbuilder"
      then add keys "op-rbuilder" (op_rbuilder (record { flashblocks = o.flashblocks })) m
      else ok m

  abbrev pub add_bproxy : Manifest → Result Panic Manifest
  add_bproxy m =
      if o.flashblocks
      then add keys "bproxy"
          (bproxy (record {
            target_authrpc = external_builder_ref;
            peers = peers;
            flashblocks = o.flashblocks;
            flashblocks_builder_url = flashblocks_ref;
          }))
          m
      else ok m

  abbrev pub add_websocket_proxy : Manifest → Result Panic Manifest
  add_websocket_proxy m =
      if o.enable_websocket_proxy
      then add keys "websocket-proxy" (websocket_proxy (record { upstream = "rollup-boost" })) m
      else ok m

  abbrev pub el_node : String
  el_node = if o.external_builder == "" then "op-geth" else "rollup-boost"

  abbrev pub add_rollup_boost : Manifest → Result Panic Manifest
  add_rollup_boost m =
      if o.external_builder == ""
      then ok m
      else add keys "rollup-boost"
          (rollup_boost (record {
            el_node = "op-geth";
            builder = if o.flashblocks then connect "bproxy" "authrpc" else external_builder_ref;
            flashblocks = o.flashblocks;
            flashblocks_builder_url =
                if o.flashblocks then connect_ws "bproxy" "flashblocks" else flashblocks_ref;
          }))
          m

  abbrev pub add_flashblocks_rpc : Manifest → Result Panic Manifest
  add_flashblocks_rpc m =
      if o.flashblocks
      then add keys "flashblocks-rpc"
          (flashblocks_rpc (record {
            flashblocks_ws_service =
                if o.enable_websocket_proxy then "websocket-proxy" else "rollup-boost";
            base_overlay = o.base_overlay;
            use_websocket_proxy = o.enable_websocket_proxy;
          }))
          m
      else ok m

  -- The default target of contender, set before it is added.
  abbrev pub default_target : Manifest → Manifest
  default_target m =
      if m.ctx.contender.target_chain == ""
      then record m {
        ctx = record m.ctx { contender = record m.ctx.contender { target_chain = "op-geth" } };
      }
      else m

  abbrev pub set_bootnode : ServiceGen → Manifest → Manifest
  set_bootnode geth m = record m {
    ctx = record m.ctx {
      bootnode = some (record { service = "op-geth"; id = enode_id keys geth });
    };
  }

  -- `Apply`
  unfoldable pub apply : ExContext → Output → Result Panic Manifest
  apply ctx out = do
    m1 ←
        add keys "el"
          (reth_el (record { use_reth_for_validation = false; use_native_reth = false }))
          (new_manifest ctx out)
    m2 ←
        add keys "beacon"
          (lighthouse_beacon_node (record { execution_node = "el"; mev_boost_node = "" })) m1
    m3 ← add keys "validator" (lighthouse_validator (record { beacon_node = "beacon" })) m2
    (m4, geth) ← add_service keys "op-geth" (op_geth none) m3
    m5 ← add_builder (set_bootnode geth m4)
    m6 ← add_bproxy m5
    m7 ← add_websocket_proxy m6
    m8 ← add_rollup_boost m7
    m9 ← add_flashblocks_rpc m8
    m10 ←
        add keys "op-node"
          (op_node (record { l1_node = "el"; l1_beacon = "beacon"; l2_node = el_node })) m9
    m11 ←
        add keys "op-batcher"
          (op_batcher (record {
            l1_node = "el";
            l2_node = "op-geth";
            rollup_node = "op-node";
            max_channel_duration = o.batcher_max_channel_duration;
          }))
          m10
    run_contender_if_enabled keys (default_target m11)
