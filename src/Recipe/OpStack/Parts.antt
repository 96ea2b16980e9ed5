-- ===== src/Recipe/OpStack/Parts.antt =====
-- The services of the OP stack recipe: their shapes, and the settings.
use builder_playground.Prelude.{
  ℕ, zero, suc, String, Bool, true, false, Option, some, List, [], ◌∷◌, ◌++◌, ◌≡◌, refl, eqb,
  if◌then◌else◌, Bool-cases, inl, inr, ◌==◌, arith,
}
use builder_playground.Template.{Piece, scan, text, word, quoted, call}
use builder_playground.Template.Laws.{IsQuotable}
use builder_playground.Template.Actions.{scan-service_call}
use builder_playground.Output.{connect_enode, connect_raw}
use builder_playground.Context.{connect_bootnode}
use builder_playground.Component.Optimism.{
  OpBatcher, log_level_to_geth_verbosity, with_default_duration,
}
use builder_playground.Component.Rollup.{FlashblocksRpc}
use builder_playground.Recipe.OpStack.{OpRecipe}
use builder_playground.Manifest.Shapes.{Shape}

-- The builders that the recipe runs itself, or none.
pub data LocalBuilder : Type 0 where
  nobody reth rbuilder : LocalBuilder

abbrev pub builder_name : LocalBuilder → String
builder_name nobody = ""
builder_name reth = "op-reth"
builder_name rbuilder = "op-rbuilder"

abbrev pub l1_beacon_shape : Shape
l1_beacon_shape = record {
  name = "beacon";
  ports = "p2p" ∷ "p2p" ∷ "quic-p2p" ∷ "http" ∷ [];
  refs = ("el", "authrpc") ∷ [];
  deps = [];
  ready = true;
  files = "testnet" ∷ "jwtsecret" ∷ [];
}

abbrev pub op_geth_shape : String → Shape
op_geth_shape artifact = record {
  name = "op-geth";
  ports = "http" ∷ "ws" ∷ "authrpc" ∷ "rpc" ∷ "metrics" ∷ [];
  refs = [];
  deps = [];
  ready = false;
  files = "l2-genesis.json" ∷ "jwtsecret" ∷ artifact ∷ [];
}

abbrev pub reth_shape : String → List (String × String) → List String → Shape
reth_shape name refs more_ports = record {
  name = name;
  ports = "authrpc" ∷ "http" ∷ "metrics" ∷ "rpc" ∷ more_ports;
  refs = refs;
  deps = [];
  ready = false;
  files = "jwtsecret" ∷ "l2-genesis.json" ∷ [];
}

abbrev pub op_reth_shape : Shape
op_reth_shape = reth_shape "op-reth" [] []

abbrev pub op_rbuilder_shape : Bool → Shape
op_rbuilder_shape flashblocks =
    reth_shape "op-rbuilder" (("op-geth", "rpc") ∷ [])
      (if flashblocks then "flashblocks" ∷ [] else [])

abbrev pub flashblocks_rpc_shape : Bool → Shape
flashblocks_rpc_shape websocket =
    reth_shape "flashblocks-rpc"
      ((if websocket then "websocket-proxy" else "rollup-boost", "flashblocks")
        ∷ ("op-geth", "rpc")
        ∷ [])
      []

abbrev pub bootnode_call : String → Piece
bootnode_call id =
    call (word "Service" ∷ quoted "op-geth" ∷ quoted "rpc" ∷ quoted "enode" ∷ quoted id ∷ [])

abbrev pub op_batcher_shape : Shape
op_batcher_shape = record {
  name = "op-batcher";
  ports = [];
  refs = ("el", "http") ∷ ("op-geth", "http") ∷ ("op-node", "http") ∷ [];
  deps = [];
  ready = false;
  files = [];
}

abbrev pub batcher : ℕ → OpBatcher
batcher duration = record {
  l1_node = "el";
  l2_node = "op-geth";
  rollup_node = "op-node";
  max_channel_duration = duration;
}

pub with_default_duration-batcher :
    (duration : ℕ)
    → with_default_duration (batcher duration) ≡ batcher (if eqb duration 0 then 2 else duration)
with_default_duration-batcher duration = elim (Bool-cases (eqb duration 0)) [
  | inl e ↦ rw e refl
  | inr e ↦ rw e refl
]

abbrev pub flashblocks_rpc_of : Bool → Bool → FlashblocksRpc
flashblocks_rpc_of overlay websocket = record {
  flashblocks_ws_service = if websocket then "websocket-proxy" else "rollup-boost";
  base_overlay = overlay;
  use_websocket_proxy = websocket;
}

abbrev pub taken : ℕ → List String → List String
taken zero xs = []
taken (suc n) [] = []
taken (suc n) (x ∷ xs) = x ∷ taken n xs

abbrev pub dropped : ℕ → List String → List String
dropped zero xs = xs
dropped (suc n) [] = []
dropped (suc n) (x ∷ xs) = dropped n xs

pub data IsGethVerbosity : String → Type 0 where
  v1 : IsGethVerbosity "1"
  v2 : IsGethVerbosity "2"
  v3 : IsGethVerbosity "3"
  v4 : IsGethVerbosity "4"
  v5 : IsGethVerbosity "5"

pub log_level_to_geth_verbosity-IsGethVerbosity :
    (level : String) → IsGethVerbosity (log_level_to_geth_verbosity level)
unfolding log_level_to_geth_verbosity
log_level_to_geth_verbosity-IsGethVerbosity level = elim (Bool-cases (level == "trace")) [
  | inl e ↦ rw e v5
  | inr e ↦ rw e (elim (Bool-cases (level == "debug")) [
    | inl e ↦ rw e v4
    | inr e ↦ rw e (elim (Bool-cases (level == "info")) [
      | inl e ↦ rw e v3
      | inr e ↦ rw e (elim (Bool-cases (level == "warn")) [
        | inl e ↦ rw e v2
        | inr e ↦ rw e (elim (Bool-cases (level == "error")) [ inl e ↦ rw e v1 | inr e ↦ rw e v3 ])
      ])
    ])
  ])
]

abbrev pub op_node_shape : Bool → Shape
op_node_shape boosted = record {
  name = "op-node";
  ports = "http" ∷ "p2p" ∷ "p2p" ∷ "metrics" ∷ [];
  refs =
      ("el", "http")
      ∷ ("beacon", "http")
      ∷ (if boosted then "rollup-boost" else "op-geth", "authrpc")
      ∷ [];
  deps = [];
  ready = false;
  files = "jwtsecret" ∷ "rollup.json" ∷ [];
}

abbrev pub websocket_proxy_shape : Shape
websocket_proxy_shape = record {
  name = "websocket-proxy";
  ports = "flashblocks" ∷ [];
  refs = ("rollup-boost", "flashblocks") ∷ [];
  deps = [];
  ready = false;
  files = [];
}

abbrev pub builder_refs : LocalBuilder → List (String × String)
builder_refs nobody = []
builder_refs reth = ("op-reth", "authrpc") ∷ []
builder_refs rbuilder = ("op-rbuilder", "authrpc") ∷ []

abbrev pub flashblocks_refs : LocalBuilder → List (String × String)
flashblocks_refs rbuilder = ("op-rbuilder", "flashblocks") ∷ []
flashblocks_refs _ = []

abbrev pub bproxy_shape : LocalBuilder → Shape
bproxy_shape b = record {
  name = "bproxy";
  ports = "authrpc" ∷ "flashblocks" ∷ [];
  refs = (builder_refs b ++ ("flashblocks-rpc", "authrpc") ∷ []) ++ flashblocks_refs b;
  deps = [];
  ready = false;
  files = "jwtsecret" ∷ [];
}

abbrev pub rollup_boost_shape : LocalBuilder → Bool → Shape
rollup_boost_shape b flashblocks = record {
  name = "rollup-boost";
  ports = if flashblocks then "authrpc" ∷ "flashblocks" ∷ [] else "authrpc" ∷ [];
  refs =
      if flashblocks
      then ("op-geth", "authrpc") ∷ ("bproxy", "authrpc") ∷ ("bproxy", "flashblocks") ∷ []
      else ("op-geth", "authrpc") ∷ builder_refs b;
  deps = [];
  ready = false;
  files = "jwtsecret" ∷ [];
}

-- The settings of the recipe with a builder of its own and no url of the user's.
abbrev pub op_recipe : LocalBuilder → Bool → Bool → Bool → Option ℕ → ℕ → ℕ → OpRecipe
op_recipe b flashblocks websocket overlay latest_fork block_time duration = record {
  external_builder = builder_name b;
  enable_latest_fork = latest_fork;
  block_time = block_time;
  batcher_max_channel_duration = duration;
  flashblocks = flashblocks;
  flashblocks_builder_url = "";
  base_overlay = overlay;
  enable_websocket_proxy = websocket;
}

pub scan-bootnode :
    (id : String)
    → IsQuotable id
    → scan text (connect_bootnode (record { service = "op-geth"; id = id }))
      ≡ some (bootnode_call id ∷ [])
unfolding connect_bootnode connect_enode connect_raw scan
scan-bootnode id q =
    scan-service_call "op-geth" "rpc" "enode" id "" (omega arith) (omega arith) (omega arith) q
