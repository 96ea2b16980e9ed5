-- ===== src/Recipe/BuilderNet/Valid.antt =====
-- playground/recipe_buildernet.go against `Validate` of playground/manifest.go.
use builder_playground.Prelude.{
  ℕ, ◌+◌, String, Bool, true, false, Option, none, some, List, [], ◌∷◌, ◌++◌, ◌≡◌, refl, ap, ◌∙◌,
  eqb, if◌then◌else◌, Bool-cases, inl, inr, ok, err, ◌==◌,
}
use mathlib.Core.Path.{subst}
use builder_playground.Output.{Output}
use builder_playground.Service.{service_healthy, service_code}
use builder_playground.Context.{ExContext}
use builder_playground.Catalog.{
  Keys, run, component_name, builder_hub_postgres, builder_hub, builder_hub_mock_proxy,
}
use builder_playground.Manifest.{Manifest, no_ready_check}
use builder_playground.Manifest.Shapes.{Shape, shape_services, FilesExist, views}
use builder_playground.Manifest.Yields.{
  outcome_of, Holds, Yields, Yields-ok, Yields-add, Yields-bind,
}
use builder_playground.Manifest.Spammer.{spam, contender_shape, contender-Yields}
use builder_playground.Manifest.Accepted.{
  Accepted, Rejected, Yields-Accepted, Yields-Rejected, FilesExist-snoc, FilesExist-if,
}
use builder_playground.Recipe.Lone.Parts.{KeyIsQuotable}
use builder_playground.Recipe.Lone.Valid.{l1_shapes, l1_shapes-FilesExist, L1Files, l1-Yields}
use builder_playground.Recipe.BuilderNet.{BuilderNetRecipe, add_mock_proxy, apply}

abbrev pub postgres_shape : Shape
postgres_shape = record {
  name = "builder-hub-postgres";
  ports = "postgres" ∷ [];
  refs = [];
  deps = [];
  ready = true;
  files = [];
}

abbrev pub hub_shape : Shape
hub_shape = record {
  name = "builder-hub";
  ports = "http" ∷ "admin" ∷ "internal" ∷ "metrics" ∷ [];
  refs = ("builder-hub-postgres", "postgres") ∷ [];
  deps = record { name = "builder-hub-postgres"; condition = service_healthy } ∷ [];
  ready = false;
  files = [];
}

abbrev pub mock_proxy_shape : Shape
mock_proxy_shape = record {
  name = "builder-hub-proxy";
  ports = "http" ∷ [];
  refs = [];
  deps = record { name = "builder-hub"; condition = service_healthy } ∷ [];
  ready = false;
  files = [];
}

module _ (keys : Keys) (ctx : ExContext) where
  postgres-outcome :
      outcome_of keys ctx "builder-hub-postgres" builder_hub_postgres ≡ some (postgres_shape, ctx)
  unfolding run component_name service_code
  postgres-outcome = refl

  hub-outcome :
      outcome_of keys ctx "builder-hub" (builder_hub (record { postgres = "builder-hub-postgres" }))
      ≡ some (hub_shape, ctx)
  unfolding run component_name service_code
  hub-outcome = refl

  mock_proxy-outcome :
      outcome_of keys ctx "builder-hub-proxy"
        (builder_hub_mock_proxy (record { target_service = "builder-hub" }))
      ≡ some (mock_proxy_shape, ctx)
  unfolding run component_name service_code
  mock_proxy-outcome = refl

-- The services of the recipe: those of the L1 recipe, the hub's, and contender once more.
abbrev pub net_shapes : Bool → Bool → List Shape → List Shape
net_shapes mock enabled l1 =
    let hub = (l1 ++ postgres_shape ∷ []) ++ hub_shape ∷ [] in
    let mocked = if mock then hub ++ mock_proxy_shape ∷ [] else hub in
    if enabled then mocked ++ contender_shape "el" false ∷ [] else mocked

abbrev pub net_of : BuilderNetRecipe → Bool → Option String → List Shape
net_of b enabled key =
    let l = b.l1_recipe in
    net_shapes b.include_mock_proxy enabled (
      l1_shapes (eqb l.secondary_el_port 0) l.use_separate_mev_boost l.use_reth_for_validation
        enabled key)

mock_proxy-Yields :
    (keys : Keys) (b : BuilderNetRecipe) (ctx : ExContext) (m : Manifest) {shapes : List Shape}
    → Holds m ctx shapes
    → Yields
        (add_mock_proxy keys b m)
        ctx
        (if b.include_mock_proxy then shapes ++ mock_proxy_shape ∷ [] else shapes)
mock_proxy-Yields keys b ctx m h = elim (Bool-cases b.include_mock_proxy) [
  | inl e ↦ rw e (
      Yields-add keys "builder-hub-proxy"
        (builder_hub_mock_proxy (record { target_service = "builder-hub" })) h
        (mock_proxy-outcome keys ctx))
  | inr e ↦ rw e (Yields-ok h)
]

pub net-Yields :
    (keys : Keys) (b : BuilderNetRecipe) (ctx : ExContext) (out : Output) (enabled : Bool)
    → KeyIsQuotable keys.relay_key
    → ctx.contender ≡ spam enabled ""
    → Yields (apply keys b ctx out) (record ctx { output = out }) (net_of b enabled keys.relay_key)
unfolding apply
net-Yields keys b ctx out enabled q e =
    let c = record ctx { output = out } in
    Yields-bind _ _ (l1-Yields keys b.l1_recipe ctx out enabled q e) λ m1 h1.
      Yields-bind _ _
        (Yields-add keys "builder-hub-postgres" builder_hub_postgres h1 (postgres-outcome keys c))
        λ m2 h2.
          Yields-bind _ _
            (Yields-add keys "builder-hub"
              (builder_hub (record { postgres = "builder-hub-postgres" })) h2 (hub-outcome keys c))
            λ m3 h3.
              Yields-bind _ _ (mock_proxy-Yields keys b c m3 h3)
                λ m4 h4. contender-Yields keys c enabled h4 e

net_shapes-ok :
    (no_proxy separate validate_blocks enabled : Bool) (key : Option String)
    → let shapes =
        net_shapes false enabled (l1_shapes no_proxy separate validate_blocks enabled key) in
      shape_services shapes shapes ≡ ok tt
net_shapes-ok true true true true none = refl
net_shapes-ok true true true true (some k) = refl
net_shapes-ok true true true false none = refl
net_shapes-ok true true true false (some k) = refl
net_shapes-ok true true false true none = refl
net_shapes-ok true true false true (some k) = refl
net_shapes-ok true true false false none = refl
net_shapes-ok true true false false (some k) = refl
net_shapes-ok true false true true k = refl
net_shapes-ok true false true false k = refl
net_shapes-ok true false false true k = refl
net_shapes-ok true false false false k = refl
net_shapes-ok false true true true none = refl
net_shapes-ok false true true true (some k) = refl
net_shapes-ok false true true false none = refl
net_shapes-ok false true true false (some k) = refl
net_shapes-ok false true false true none = refl
net_shapes-ok false true false true (some k) = refl
net_shapes-ok false true false false none = refl
net_shapes-ok false true false false (some k) = refl
net_shapes-ok false false true true k = refl
net_shapes-ok false false true false k = refl
net_shapes-ok false false false true k = refl
net_shapes-ok false false false false k = refl

net_shapes-err :
    (no_proxy separate validate_blocks enabled : Bool) (key : Option String)
    → let shapes =
        net_shapes true enabled (l1_shapes no_proxy separate validate_blocks enabled key) in
      shape_services shapes shapes ≡ err (no_ready_check "builder-hub-proxy" "builder-hub")
net_shapes-err true true true true none = refl
net_shapes-err true true true true (some k) = refl
net_shapes-err true true true false none = refl
net_shapes-err true true true false (some k) = refl
net_shapes-err true true false true none = refl
net_shapes-err true true false true (some k) = refl
net_shapes-err true true false false none = refl
net_shapes-err true true false false (some k) = refl
net_shapes-err true false true true k = refl
net_shapes-err true false true false k = refl
net_shapes-err true false false true k = refl
net_shapes-err true false false false k = refl
net_shapes-err false true true true none = refl
net_shapes-err false true true true (some k) = refl
net_shapes-err false true true false none = refl
net_shapes-err false true true false (some k) = refl
net_shapes-err false true false true none = refl
net_shapes-err false true false true (some k) = refl
net_shapes-err false true false false none = refl
net_shapes-err false true false false (some k) = refl
net_shapes-err false false true true k = refl
net_shapes-err false false true false k = refl
net_shapes-err false false false true k = refl
net_shapes-err false false false false k = refl

net_shapes-FilesExist :
    (out : Output) (enabled : Bool) (l1 : List Shape)
    → FilesExist out l1
    → FilesExist out (net_shapes false enabled l1)
net_shapes-FilesExist out enabled l1 h =
    let hub = FilesExist-snoc out _ hub_shape (FilesExist-snoc out _ postgres_shape h tt) tt in
    FilesExist-if out enabled _ _ (FilesExist-snoc out _ (contender_shape "el" false) hub tt) hub

-- Without the mock proxy, whatever the other flags are, the BuilderNet recipe builds a manifest
-- that `Validate` accepts, if the four artifacts of the L1 recipe are found, contender has no extra
-- arguments and no target of its own, and the relay's key, if there is one, can stand between
-- quotes.
pub plain-Accepted :
    (keys : Keys) (b : BuilderNetRecipe) (ctx : ExContext) (out : Output) (enabled : Bool)
    → KeyIsQuotable keys.relay_key
    → ctx.contender ≡ spam enabled ""
    → L1Files out
    → b.include_mock_proxy ≡ false
    → Accepted (apply keys b ctx out)
plain-Accepted keys b ctx out enabled q e files off =
    let l = b.l1_recipe in
    Yields-Accepted
      (subst
        (λ mock.
          Yields (apply keys b ctx out) (record ctx { output = out })
            (net_shapes mock enabled (
              l1_shapes (eqb l.secondary_el_port 0) l.use_separate_mev_boost
                l.use_reth_for_validation enabled keys.relay_key)))
        off (net-Yields keys b ctx out enabled q e))
      (net_shapes-ok (eqb l.secondary_el_port 0) l.use_separate_mev_boost l.use_reth_for_validation
        enabled keys.relay_key)
      (net_shapes-FilesExist out enabled _ (
        l1_shapes-FilesExist out (eqb l.secondary_el_port 0) l.use_separate_mev_boost
          l.use_reth_for_validation enabled keys.relay_key files))

-- With the mock proxy, whatever the other flags are, the BuilderNet recipe builds a manifest that
-- `Validate` refuses: the proxy waits for builder-hub to be healthy, and builder-hub has no ready
-- check. Contender is taken to have no extra arguments and no target of its own, and the relay's
-- key, if there is one, to stand between quotes.
pub mock_proxy-Rejected :
    (keys : Keys) (b : BuilderNetRecipe) (ctx : ExContext) (out : Output) (enabled : Bool)
    → KeyIsQuotable keys.relay_key
    → ctx.contender ≡ spam enabled ""
    → b.include_mock_proxy ≡ true
    → Rejected (apply keys b ctx out) (no_ready_check "builder-hub-proxy" "builder-hub")
mock_proxy-Rejected keys b ctx out enabled q e on =
    let l = b.l1_recipe in
    Yields-Rejected
      (subst
        (λ mock.
          Yields (apply keys b ctx out) (record ctx { output = out })
            (net_shapes mock enabled (
              l1_shapes (eqb l.secondary_el_port 0) l.use_separate_mev_boost
                l.use_reth_for_validation enabled keys.relay_key)))
        on (net-Yields keys b ctx out enabled q e))
      (net_shapes-err (eqb l.secondary_el_port 0) l.use_separate_mev_boost l.use_reth_for_validation
        enabled keys.relay_key)

abbrev pub count_named : String → List Shape → ℕ
count_named name [] = 0
count_named name (s ∷ ss) = (if s.name == name then 1 else 0) + count_named name ss

net_shapes-count_named :
    (no_proxy separate validate_blocks mock : Bool) (key : Option String)
    → count_named "contender"
        (net_shapes mock true (l1_shapes no_proxy separate validate_blocks true key))
      ≡ 2
net_shapes-count_named true true true true none = refl
net_shapes-count_named true true true true (some k) = refl
net_shapes-count_named true true true false none = refl
net_shapes-count_named true true true false (some k) = refl
net_shapes-count_named true true false true none = refl
net_shapes-count_named true true false true (some k) = refl
net_shapes-count_named true true false false none = refl
net_shapes-count_named true true false false (some k) = refl
net_shapes-count_named true false true true k = refl
net_shapes-count_named true false true false k = refl
net_shapes-count_named true false false true k = refl
net_shapes-count_named true false false false k = refl
net_shapes-count_named false true true true none = refl
net_shapes-count_named false true true true (some k) = refl
net_shapes-count_named false true true false none = refl
net_shapes-count_named false true true false (some k) = refl
net_shapes-count_named false true false true none = refl
net_shapes-count_named false true false true (some k) = refl
net_shapes-count_named false true false false none = refl
net_shapes-count_named false true false false (some k) = refl
net_shapes-count_named false false true true k = refl
net_shapes-count_named false false true false k = refl
net_shapes-count_named false false false true k = refl
net_shapes-count_named false false false false k = refl

-- With contender enabled, whatever the other flags are, the BuilderNet recipe builds a manifest
-- with two services of the name contender, if contender has no extra arguments and no target of its
-- own, and the relay's key, if there is one, can stand between quotes.
two_contenders :
    (keys : Keys) (b : BuilderNetRecipe) (ctx : ExContext) (out : Output)
    → KeyIsQuotable keys.relay_key
    → ctx.contender ≡ spam true ""
    → (m : Manifest) × (apply keys b ctx out ≡ ok m)
      × (count_named "contender" (views m.services) ≡ 2)
two_contenders keys b ctx out q e =
    let l = b.l1_recipe in
    let y = net-Yields keys b ctx out true q e in
    (
      y.manifest,
      y.returned,
      ap (count_named "contender") y.holds.shapes_eq
          ∙ net_shapes-count_named (eqb l.secondary_el_port 0) l.use_separate_mev_boost
              l.use_reth_for_validation b.include_mock_proxy keys.relay_key,
    )
