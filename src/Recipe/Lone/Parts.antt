-- ===== src/Recipe/Lone/Parts.antt =====
-- The services of the L1 recipe: the shape that each component gives.
use builder_playground.Prelude.{
  ℕ, String, Bool, true, false, Option, none, some, [], ◌∷◌, ◌≡◌, ◌≢◌, refl, if◌then◌else◌,
  Bool-cases, inl, inr, ◌==◌, decimal, arith, Chars-⊕,
}
use builder_playground.Template.{scan, text, word, quoted, call}
use builder_playground.Template.Laws.{IsLiteral, IsQuotable, chars, decimal-IsLiteral}
use builder_playground.Template.Actions.{scan-service_call}
use builder_playground.Service.{Service, DependsOn, service_healthy, new_service, service_code}
use builder_playground.Service.Literals.{execute-chars}
use builder_playground.Context.{ExContext}
use builder_playground.Catalog.{
  Keys, run, runs, reth_el, lighthouse_beacon_node, lighthouse_validator, cl_proxy, mev_boost,
  mev_boost_relay, component_name,
}
use builder_playground.Component.Ethereum.{
  log_level_to_reth_verbosity, RethEl, MevBoost, reth_el_with, mev_boost_with,
}
use builder_playground.Manifest.Shapes.{Shape}
use builder_playground.Manifest.Yields.{outcome, outcome_of}
use builder_playground.Recipe.Lone.{secondary_url}

abbrev pub healthy : String → DependsOn
healthy name = record { name = name; condition = service_healthy }

abbrev pub el_shape : Shape
el_shape = record {
  name = "el";
  ports = "rpc" ∷ "http" ∷ "ws" ∷ "authrpc" ∷ "metrics" ∷ [];
  refs = [];
  deps = [];
  ready = false;
  files = "genesis.json" ∷ "jwtsecret" ∷ [];
}

abbrev pub cl_proxy_shape : Shape
cl_proxy_shape = record {
  name = "cl-proxy";
  ports = "authrpc" ∷ [];
  refs = ("el", "authrpc") ∷ [];
  deps = [];
  ready = false;
  files = [];
}

abbrev pub mev_boost_shape : Option String → Shape
mev_boost_shape key = record {
  name = "mev-boost";
  ports = "http" ∷ [];
  refs = elim key [ none ↦ [] | some _ ↦ ("mev-boost-relay", "http") ∷ [] ];
  deps = [];
  ready = false;
  files = [];
}

abbrev pub relay_shape : String → Bool → Shape
relay_shape name validate_blocks = record {
  name = name;
  ports = "http" ∷ [];
  refs =
      if validate_blocks
      then ("beacon", "http") ∷ (("el", "http") ∷ [])
      else ("beacon", "http") ∷ [];
  deps = healthy "beacon" ∷ [];
  ready = false;
  files = [];
}

abbrev pub beacon_shape : Bool → Shape
beacon_shape no_proxy = record {
  name = "beacon";
  ports = "p2p" ∷ "p2p" ∷ "quic-p2p" ∷ "http" ∷ [];
  refs = (if no_proxy then "el" else "cl-proxy", "authrpc") ∷ (("mev-boost", "http") ∷ []);
  deps = [];
  ready = true;
  files = "testnet" ∷ "jwtsecret" ∷ [];
}

abbrev pub validator_shape : Shape
validator_shape = record {
  name = "validator";
  ports = [];
  refs = ("beacon", "http") ∷ [];
  deps = [];
  ready = false;
  files = "data_validator" ∷ "testnet" ∷ [];
}

pub secondary_url-IsLiteral : (port : ℕ) → IsLiteral (secondary_url port)
secondary_url-IsLiteral port =
    Chars-⊕ (λ c. c ≢ b'{') "http://localhost:" (decimal port) (omega arith)
      (decimal-IsLiteral port)

abbrev pub KeyIsQuotable : Option String → Type 0
KeyIsQuotable none = Unit
KeyIsQuotable (some k) = IsQuotable k

data IsVerbosity : String → Type 0 where
  v1 : IsVerbosity "-v"
  v2 : IsVerbosity "-vv"
  v3 : IsVerbosity "-vvv"
  v4 : IsVerbosity "-vvvv"
  v5 : IsVerbosity "-vvvvv"

log_level_to_reth_verbosity-IsVerbosity :
    (level : String) → IsVerbosity (log_level_to_reth_verbosity level)
unfolding log_level_to_reth_verbosity
log_level_to_reth_verbosity-IsVerbosity level = elim (Bool-cases (level == "trace")) [
  | inl e ↦ rw e v5
  | inr e ↦ rw e (elim (Bool-cases (level == "debug")) [
    | inl e ↦ rw e v4
    | inr e ↦ rw e (elim (Bool-cases (level == "warn")) [
      | inl e ↦ rw e v2
      | inr e ↦ rw e (elim (Bool-cases (level == "error")) [ inl e ↦ rw e v1 | inr e ↦ rw e v3 ])
    ])
  ])
]

module _ (keys : Keys) (ctx : ExContext) where
  abbrev named : String → String → Service
  named name component = record (new_service name) { component_name = component }

  reth_el_with-outcome :
      (r : RethEl) (b : Bool) {v : String}
      → IsVerbosity v
      → outcome (
          runs keys ctx
            (reth_el r)
            (reth_el_with v (record { use_reth_for_validation = false; use_native_reth = b }))
            (named "el" "reth"))
        ≡ some (el_shape, ctx)
  unfolding service_code reth_el_with
  reth_el_with-outcome r true v1 = refl
  reth_el_with-outcome r true v2 = refl
  reth_el_with-outcome r true v3 = refl
  reth_el_with-outcome r true v4 = refl
  reth_el_with-outcome r true v5 = refl
  reth_el_with-outcome r false v1 = refl
  reth_el_with-outcome r false v2 = refl
  reth_el_with-outcome r false v3 = refl
  reth_el_with-outcome r false v4 = refl
  reth_el_with-outcome r false v5 = refl

  pub reth_el-outcome : (r : RethEl) → outcome_of keys ctx "el" (reth_el r) ≡ some (el_shape, ctx)
  unfolding run component_name
  reth_el-outcome r =
      reth_el_with-outcome r r.use_native_reth
        (log_level_to_reth_verbosity-IsVerbosity ctx.log_level)

  pub cl_proxy-outcome :
      (url : String)
      → scan text url ≡ some (chars url)
      → outcome_of keys ctx "cl-proxy"
          (cl_proxy (record { primary_builder = "el"; secondary_builder = url }))
        ≡ some (cl_proxy_shape, ctx)
  unfolding run service_code component_name
  cl_proxy-outcome url h = rw (h, execute-chars url) refl

  mev_boost_with-outcome :
      (m : MevBoost) (k url : String)
      → scan text url
        ≡ some (
            call (
              word "Service"
              ∷ quoted "mev-boost-relay"
              ∷ quoted "http"
              ∷ quoted "http"
              ∷ quoted k
              ∷ [])
            ∷ [])
      → outcome (
          runs keys ctx
            (mev_boost m)
            (mev_boost_with ("--relay" ∷ url ∷ []))
            (named "mev-boost" "mev-boost"))
        ≡ some (mev_boost_shape (some k), ctx)
  unfolding service_code mev_boost_with
  mev_boost_with-outcome m k url h = rw h refl

  mev_boost_with-outcome-none :
      (m : MevBoost)
      → outcome (runs keys ctx (mev_boost m) (mev_boost_with []) (named "mev-boost" "mev-boost"))
        ≡ some (mev_boost_shape none, ctx)
  unfolding mev_boost_with service_code
  mev_boost_with-outcome-none m = refl

  pub mev_boost-outcome :
      (key : Option String)
      → keys.relay_key ≡ key
      → KeyIsQuotable key
      → outcome_of keys ctx "mev-boost"
          (mev_boost (record { relay_endpoints = "mev-boost-relay" ∷ [] }))
        ≡ some (mev_boost_shape key, ctx)
  unfolding run component_name
  mev_boost-outcome none e q = rw e (mev_boost_with-outcome-none _)
  mev_boost-outcome (some k) e q = rw e (
      mev_boost_with-outcome _ k _ (
        scan-service_call "mev-boost-relay" "http" "http" k "" (omega arith) (omega arith)
          (omega arith) q))

  pub relay-outcome :
      (name : String) (validate_blocks : Bool)
      → outcome_of keys ctx name (
          mev_boost_relay (record {
            beacon_client = "beacon";
            validation_server = if validate_blocks then "el" else "";
          }))
        ≡ some (relay_shape name validate_blocks, ctx)
  unfolding run component_name service_code
  relay-outcome name true = refl
  relay-outcome name false = refl

  pub beacon-outcome :
      (no_proxy : Bool)
      → outcome_of keys ctx "beacon" (
          lighthouse_beacon_node (record {
            execution_node = if no_proxy then "el" else "cl-proxy";
            mev_boost_node = "mev-boost";
          }))
        ≡ some (beacon_shape no_proxy, ctx)
  unfolding run component_name service_code
  beacon-outcome true = refl
  beacon-outcome false = refl

  pub validator-outcome :
      outcome_of keys ctx "validator" (lighthouse_validator (record { beacon_node = "beacon" }))
      ≡ some (validator_shape, ctx)
  unfolding run component_name service_code
  validator-outcome = refl
