-- ===== src/Recipe/BuilderNet/Addresses.antt =====
-- `Output` of playground/recipe_buildernet.go on the manifests of its `Apply`.
use builder_playground.Prelude.{
  String, Bool, true, false, Option, none, some, List, [], ◌∷◌, ◌++◌, ◌≡◌, refl, sym, ap, ◌∙◌, find,
  any, if◌then◌else◌, Bool-cases, inl, inr, ok, ◌==◌, GoMap, lookup, Returns, Returns-ok, eqb,
  insert, ok_inj,
}
use builder_playground.Output.{Output}
use builder_playground.Service.{Service, get_port}
use builder_playground.Service.FirstPass.{Port}
use builder_playground.Context.{ExContext}
use builder_playground.Catalog.{Keys}
use builder_playground.Manifest.{Manifest, get_service}
use builder_playground.Manifest.Shapes.{
  Shape, is_set, port_names, view, views, map_view, find-views, any-port_names,
}
use builder_playground.Manifest.Spammer.{spam, contender_shape}
use builder_playground.Recipe.Lone.Parts.{KeyIsQuotable}
use builder_playground.Recipe.Lone.Valid.{l1_shapes}
use builder_playground.Recipe.BuilderNet.{
  BuilderNetRecipe, apply, must_get_port, localhost, hub_output, proxy_output, output,
}
use builder_playground.Recipe.BuilderNet.Valid.{
  postgres_shape, hub_shape, mock_proxy_shape, net_of, net-Yields,
}

abbrev shape_of : String → List Shape → Option Shape
shape_of name shapes = find (λ (s : Shape). s.name == name) shapes

find-append :
    (name : String) (xs ys : List Shape)
    → shape_of name xs ≡ none
    → shape_of name (xs ++ ys) ≡ shape_of name ys
find-append name [] ys h = refl
find-append name (x ∷ xs) ys h = elim (Bool-cases (x.name == name)) [
  | inl e ↦ (let bad = rw e at h in cc)
  | inr e ↦ rw e (find-append name xs ys (rw e at h))
]

find-snoc :
    (name : String) (xs : List Shape) (s : Shape) {x : Shape}
    → shape_of name xs ≡ some x
    → shape_of name (xs ++ s ∷ []) ≡ some x
find-snoc name [] s h = cc
find-snoc name (y ∷ ys) s h = elim (Bool-cases (y.name == name)) [
  | inl e ↦ rw e (rw e at h)
  | inr e ↦ rw e (find-snoc name ys s (rw e at h))
]

find-if :
    (name : String) (b : Bool) (xs : List Shape) (s : Shape) {x : Shape}
    → shape_of name xs ≡ some x
    → shape_of name (if b then xs ++ s ∷ [] else xs) ≡ some x
find-if name true xs s h = find-snoc name xs s h
find-if name false xs s h = h

-- No service of the L1 recipe has a name of the hub's.
l1_shapes-find :
    (no_proxy separate validate_blocks enabled : Bool) (key : Option String)
    → let shapes = l1_shapes no_proxy separate validate_blocks enabled key in
      (shape_of "builder-hub" shapes ≡ none) × (shape_of "builder-hub-proxy" shapes ≡ none)
l1_shapes-find true true true true k = (refl, refl)
l1_shapes-find true true true false k = (refl, refl)
l1_shapes-find true true false true k = (refl, refl)
l1_shapes-find true true false false k = (refl, refl)
l1_shapes-find true false true true k = (refl, refl)
l1_shapes-find true false true false k = (refl, refl)
l1_shapes-find true false false true k = (refl, refl)
l1_shapes-find true false false false k = (refl, refl)
l1_shapes-find false true true true k = (refl, refl)
l1_shapes-find false true true false k = (refl, refl)
l1_shapes-find false true false true k = (refl, refl)
l1_shapes-find false true false false k = (refl, refl)
l1_shapes-find false false true true k = (refl, refl)
l1_shapes-find false false true false k = (refl, refl)
l1_shapes-find false false false true k = (refl, refl)
l1_shapes-find false false false false k = (refl, refl)

net_of-hub :
    (b : BuilderNetRecipe) (enabled : Bool) (key : Option String)
    → shape_of "builder-hub" (net_of b enabled key) ≡ some hub_shape
net_of-hub b enabled key =
    let l = b.l1_recipe in
    let l1 =
      l1_shapes (eqb l.secondary_el_port 0) l.use_separate_mev_boost l.use_reth_for_validation
        enabled key in
    let (absent, _) =
      l1_shapes-find (eqb l.secondary_el_port 0) l.use_separate_mev_boost l.use_reth_for_validation
        enabled key in
    find-if "builder-hub" enabled _ (contender_shape "el" false) (
      find-if "builder-hub" b.include_mock_proxy ((l1 ++ postgres_shape ∷ []) ++ hub_shape ∷ [])
        mock_proxy_shape
        (find-append "builder-hub" (l1 ++ postgres_shape ∷ []) (hub_shape ∷ [])
          (find-append "builder-hub" l1 (postgres_shape ∷ []) absent)))

net_of-proxy :
    (b : BuilderNetRecipe) (enabled : Bool) (key : Option String)
    → b.include_mock_proxy ≡ true
    → shape_of "builder-hub-proxy" (net_of b enabled key) ≡ some mock_proxy_shape
net_of-proxy b enabled key on =
    let l = b.l1_recipe in
    let l1 =
      l1_shapes (eqb l.secondary_el_port 0) l.use_separate_mev_boost l.use_reth_for_validation
        enabled key in
    let (_, absent) =
      l1_shapes-find (eqb l.secondary_el_port 0) l.use_separate_mev_boost l.use_reth_for_validation
        enabled key in
    let hub = (l1 ++ postgres_shape ∷ []) ++ hub_shape ∷ [] in
    let before =
      find-append "builder-hub-proxy" (l1 ++ postgres_shape ∷ []) (hub_shape ∷ [])
        (find-append "builder-hub-proxy" l1 (postgres_shape ∷ []) absent) in
    find-if "builder-hub-proxy" enabled _ (contender_shape "el" false) (
      ap (λ mock. shape_of "builder-hub-proxy" (if mock then hub ++ mock_proxy_shape ∷ [] else hub))
        on
      ∙ find-append "builder-hub-proxy" hub (mock_proxy_shape ∷ []) before)

-- The service of a shape, and a port of a name that the shape has.
map_view-eq_some :
    (o : Option Service) {sh : Shape}
    → map_view o ≡ some sh
    → (s : Service) × (o ≡ some s) × (port_names s.ports ≡ sh.ports)
map_view-eq_some none h = cc
map_view-eq_some (some s) {sh} h =
    (s, refl, (let same : view s ≡ sh = cc in ap (λ (x : Shape). x.ports) same))

is_set-true : {A : Type 0} (o : Option A) → is_set o ≡ true → (a : A) × (o ≡ some a)
is_set-true none h = cc
is_set-true (some a) h = (a, refl)

abbrev Has : Service → String → Type 0
Has s label = (p : Port) × (get_port label s.ports ≡ some p)

port_of :
    (label : String) (s : Service) (names : List String)
    → port_names s.ports ≡ names
    → any (λ p. p == label) names ≡ true
    → Has s label
port_of label s names same h =
    is_set-true (get_port label s.ports)
      (sym (any-port_names label s.ports) ∙ ap (any (λ p. p == label)) same ∙ h)

-- What the output says of a port of a service.
abbrev pub Says : Manifest → String → String → String → GoMap String → Type 0
Says m service label key urls =
    (s : Service) × (get_service service m.services ≡ some s)
    × (p : Port) × (get_port label s.ports ≡ some p)
    × (lookup key urls ≡ some (localhost p))

-- The addresses of builder-hub, and of the mock proxy where it is included.
abbrev pub Addresses : BuilderNetRecipe → Manifest → GoMap String → Type 0
Addresses b m urls =
    Says m "builder-hub" "http" "builder-hub-http" urls
    × Says m "builder-hub" "admin" "builder-hub-admin" urls
    × Says m "builder-hub" "internal" "builder-hub-internal" urls
    × (b.include_mock_proxy ≡ true → Says m "builder-hub-proxy" "http" "builder-hub-proxy" urls)

module _ (b : BuilderNetRecipe) (m : Manifest) (hub : Service)
    (hub_found : get_service "builder-hub" m.services ≡ some hub) (http : Has hub "http")
    (admin : Has hub "admin") (internal : Has hub "internal") where
  with_proxy :
      (proxy : Service)
      → get_service "builder-hub-proxy" m.services ≡ some proxy
      → Has proxy "http"
      → b.include_mock_proxy ≡ true
      → Returns (Addresses b m) (output b m)
  unfolding output hub_output proxy_output must_get_port insert
  with_proxy proxy found (p, at_p) on =
      let (h, at_h) = http in
      let (a, at_a) = admin in
      let (i, at_i) = internal in
      rw (hub_found, at_h, at_a, at_i, on, found, at_p)
        (Returns-ok (
          (hub, hub_found, h, at_h, refl),
          (hub, hub_found, a, at_a, refl),
          (hub, hub_found, i, at_i, refl),
          λ _. (proxy, found, p, at_p, refl),
        ))

  without_proxy : b.include_mock_proxy ≡ false → Returns (Addresses b m) (output b m)
  unfolding output hub_output must_get_port insert
  without_proxy off =
      let (h, at_h) = http in
      let (a, at_a) = admin in
      let (i, at_i) = internal in
      rw (hub_found, at_h, at_a, at_i, off)
        (Returns-ok (
          (hub, hub_found, h, at_h, refl),
          (hub, hub_found, a, at_a, refl),
          (hub, hub_found, i, at_i, refl),
          λ on. cc,
        ))

-- `Output` of the BuilderNet recipe does not panic on a manifest that its `Apply` built, nor on one
-- with the same shapes, such as one with other host ports, and gives for each of the three ports of
-- builder-hub, and for the mock proxy where it is included, the local address of the host port of
-- that service. Contender has no extra arguments and no target of its own, and the relay's key, if
-- there is one, can stand between quotes.
pub output-Returns :
    (keys : Keys) (b : BuilderNetRecipe) (ctx : ExContext) (out : Output) (enabled : Bool)
    (m m' : Manifest)
    → KeyIsQuotable keys.relay_key
    → ctx.contender ≡ spam enabled ""
    → apply keys b ctx out ≡ ok m
    → views m'.services ≡ views m.services
    → Returns (Addresses b m') (output b m')
output-Returns keys b ctx out enabled m m' q e made same =
    let y = net-Yields keys b ctx out enabled q e in
    let returned = ok_inj (sym made ∙ y.returned) in
    let shapes = same ∙ ap (λ (x : Manifest). views x.services) returned ∙ y.holds.shapes_eq in
    let service_of =
      λ (name : String) (sh : Shape)
          (found : shape_of name (net_of b enabled keys.relay_key) ≡ some sh).
        map_view-eq_some (get_service name m'.services)
          (sym (find-views name m'.services) ∙ ap (shape_of name) shapes ∙ found) in
    let (hub, hub_found, ports) =
      service_of "builder-hub" hub_shape (net_of-hub b enabled keys.relay_key) in
    let port = λ (label : String) (h : any (λ p. p == label) hub_shape.ports ≡ true).
      port_of label hub hub_shape.ports ports h in
    elim (Bool-cases b.include_mock_proxy) [
      | inl on ↦
          let (proxy, found, names) =
            service_of "builder-hub-proxy" mock_proxy_shape
              (net_of-proxy b enabled keys.relay_key on) in
          with_proxy b m' hub hub_found (port "http" refl) (port "admin" refl)
            (port "internal" refl) proxy found
            (port_of "http" proxy mock_proxy_shape.ports names refl) on
      | inr off ↦
          without_proxy b m' hub hub_found (port "http" refl) (port "admin" refl)
            (port "internal" refl) off
    ]
