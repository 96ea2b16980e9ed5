-- ===== src/Recipe/BuilderNet.antt =====
-- playground/recipe_buildernet.go
pub mod Valid
pub mod Addresses
use builder_playground.Prelude.{
  String, Bool, false, Option, none, some, [], ◌++◌, if◌then◌else◌, Result, ok, err, ◌>>=◌, ◌⊕◌,
  GoMap, insert, decimal,
}
use builder_playground.Output.{Output}
use builder_playground.Service.{Service, get_port}
use builder_playground.Service.FirstPass.{Panic, Port, port_not_found}
use builder_playground.Context.{ExContext}
use builder_playground.Genesis.{ArtifactsBuilder}
use builder_playground.Catalog.{builder_hub_postgres, builder_hub, builder_hub_mock_proxy, Keys}
use builder_playground.Manifest.{Manifest, add, get_service, run_contender_if_enabled}
use builder_playground.Recipe.Lone
use builder_playground.Recipe.Lone.{L1Recipe}

pub record BuilderNetRecipe : Type 0 where
  pub l1_recipe : L1Recipe
  pub include_mock_proxy : Bool

-- The recipe as `Flags` leaves it when no flag is given.
unfoldable pub flags : BuilderNetRecipe
unfolding Lone.flags
flags = record { l1_recipe = Lone.flags; include_mock_proxy = false }

-- `Artifacts`
unfoldable pub artifacts : BuilderNetRecipe → ArtifactsBuilder
unfolding Lone.artifacts
artifacts b = Lone.artifacts b.l1_recipe

-- `MustGetPort`
abbrev pub port_or_panic : String → Option Port → Result Panic Port
port_or_panic name none = err (port_not_found name)
port_or_panic name (some p) = ok p

unfoldable pub must_get_port : String → Service → Result Panic Port
unfolding get_port
must_get_port name s = port_or_panic name (get_port name s.ports)

abbrev pub localhost : Port → String
localhost p = "http://localhost:" ⊕ decimal p.host_port

-- The part of `Output` about builder-hub.
unfoldable pub hub_output : Option Service → GoMap String → Result Panic (GoMap String)
unfolding must_get_port insert
hub_output none output = ok output
hub_output (some hub) output = do
  http ← must_get_port "http" hub
  admin ← must_get_port "admin" hub
  internal ← must_get_port "internal" hub
  ok (
      insert "builder-hub-internal" (localhost internal) (
        insert "builder-hub-admin" (localhost admin)
          (insert "builder-hub-http" (localhost http) output)))

-- The part about the mock proxy.
unfoldable pub proxy_output : Option Service → GoMap String → Result Panic (GoMap String)
unfolding must_get_port insert
proxy_output none output = ok output
proxy_output (some proxy) output = do
  http ← must_get_port "http" proxy
  ok (insert "builder-hub-proxy" (localhost http) output)

-- `Output`; that of the L1 recipe is empty.
unfoldable pub output : BuilderNetRecipe → Manifest → Result Panic (GoMap String)
unfolding hub_output proxy_output get_service
output b m = do
  hub ← hub_output (get_service "builder-hub" m.services) []
  (if b.include_mock_proxy
      then proxy_output (get_service "builder-hub-proxy" m.services) hub
      else ok hub)

module _ (keys : Keys) (b : BuilderNetRecipe) where
  abbrev pub add_mock_proxy : Manifest → Result Panic Manifest
  add_mock_proxy m =
      if b.include_mock_proxy
      then add keys "builder-hub-proxy"
          (builder_hub_mock_proxy (record { target_service = "builder-hub" })) m
      else ok m

  -- `Apply`
  unfoldable pub apply : ExContext → Output → Result Panic Manifest
  apply ctx out = do
    m1 ← Lone.apply keys b.l1_recipe ctx out
    m2 ← add keys "builder-hub-postgres" builder_hub_postgres m1
    m3 ← add keys "builder-hub" (builder_hub (record { postgres = "builder-hub-postgres" })) m2
    m4 ← add_mock_proxy m3
    run_contender_if_enabled keys m4
