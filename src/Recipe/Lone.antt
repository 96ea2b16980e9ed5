-- ===== src/Recipe/Lone.antt =====
-- playground/recipe_l1.go
pub mod Parts
pub mod Valid
use builder_playground.Prelude.{
  ℕ, String, Bool, false, not, [], ◌∷◌, eqb, if◌then◌else◌, Result, ok, ◌>>=◌, ◌⊕◌, decimal,
}
use builder_playground.Output.{Output}
use builder_playground.Service.FirstPass.{Panic}
use builder_playground.Context.{ExContext}
use builder_playground.Genesis.{ArtifactsBuilder, new_artifacts_builder}
use builder_playground.Catalog.{
  reth_el, lighthouse_beacon_node, lighthouse_validator, cl_proxy, mev_boost_relay, mev_boost, Keys,
}
use builder_playground.Manifest.{Manifest, new_manifest, add, run_contender_if_enabled}

pub record L1Recipe : Type 0 where
  pub latest_fork : Bool
  pub use_reth_for_validation : Bool
  pub secondary_el_port : ℕ
  pub use_native_reth : Bool
  pub use_separate_mev_boost : Bool

-- The recipe as `Flags` leaves it when no flag is given.
unfoldable pub flags : L1Recipe
flags = record {
  latest_fork = false;
  use_reth_for_validation = false;
  secondary_el_port = 0;
  use_native_reth = false;
  use_separate_mev_boost = false;
}

-- `Artifacts`
unfoldable pub artifacts : L1Recipe → ArtifactsBuilder
unfolding new_artifacts_builder
artifacts l = record new_artifacts_builder { apply_latest_l1_fork = l.latest_fork }

abbrev pub secondary_url : ℕ → String
secondary_url port = "http://localhost:" ⊕ decimal port

abbrev pub el_service : L1Recipe → String
el_service l = if eqb l.secondary_el_port 0 then "el" else "cl-proxy"

abbrev pub validation_server : L1Recipe → String
validation_server l = if l.use_reth_for_validation then "el" else ""

module _ (keys : Keys) (l : L1Recipe) where
  abbrev pub add_cl_proxy : Manifest → Result Panic Manifest
  add_cl_proxy m =
      if eqb l.secondary_el_port 0
      then ok m
      else add keys "cl-proxy"
          (cl_proxy (record {
            primary_builder = "el";
            secondary_builder = secondary_url l.secondary_el_port;
          }))
          m

  abbrev pub add_mev_boost : Manifest → Result Panic Manifest
  add_mev_boost m =
      let relay =
        mev_boost_relay
          (record { beacon_client = "beacon"; validation_server = validation_server l }) in
      if l.use_separate_mev_boost
      then (do
        m1 ← add keys "mev-boost-relay" relay m
        add keys "mev-boost" (mev_boost (record { relay_endpoints = "mev-boost-relay" ∷ [] })) m1)
      else add keys "mev-boost" relay m

  -- `Apply`
  unfoldable pub apply : ExContext → Output → Result Panic Manifest
  apply ctx out = do
    m1 ←
        add keys "el"
          (reth_el (record {
            use_reth_for_validation = l.use_reth_for_validation;
            use_native_reth = l.use_native_reth;
          }))
          (new_manifest ctx out)
    m2 ← add_cl_proxy m1
    m3 ←
        add keys "beacon"
          (lighthouse_beacon_node
            (record { execution_node = el_service l; mev_boost_node = "mev-boost" }))
          m2
    m4 ← add keys "validator" (lighthouse_validator (record { beacon_node = "beacon" })) m3
    m5 ← add_mev_boost m4
    run_contender_if_enabled keys m5
