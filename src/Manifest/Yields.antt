-- ===== src/Manifest/Yields.antt =====
-- What a chain of `AddService` calls builds: the context and the shapes of the services.
use builder_playground.Prelude.{
  String, Option, none, some, List, [], ◌∷◌, ◌++◌, ◌≡◌, refl, sym, ap, ◌∙◌, Result, ok, err, ◌>>=◌,
}
use mathlib.Core.Path.{subst, ap₂}
use builder_playground.Output.{Output}
use builder_playground.Service.{Service, new_service}
use builder_playground.Service.FirstPass.{Panic}
use builder_playground.Context.{ExContext}
use builder_playground.Catalog.{ServiceGen, component_name, Keys, Ran, run}
use builder_playground.Manifest.{Manifest, new_manifest, add_service, add}
use builder_playground.Manifest.Shapes.{Shape, view, views}

abbrev pub outcome : Result Panic Ran → Option (Shape × ExContext)
outcome (err e) = none
outcome (ok r) = some (view r.service, r.ctx)

-- What `Run` makes of the new service.
abbrev pub outcome_of : Keys → ExContext → String → ServiceGen → Option (Shape × ExContext)
outcome_of keys ctx name srv =
    outcome (run keys ctx srv (record (new_service name) { component_name = component_name srv }))

pub record Holds (m : Manifest) (ctx : ExContext) (shapes : List Shape) : Type 0 where
  pub ctx_eq : m.ctx ≡ ctx
  pub shapes_eq : views m.services ≡ shapes

pub record Yields (r : Result Panic Manifest) (ctx : ExContext) (shapes : List Shape) : Type 0 where
  pub manifest : Manifest
  pub returned : r ≡ ok manifest
  pub holds : Holds manifest ctx shapes

views-snoc : (ss : List Service) (s : Service) → views (ss ++ s ∷ []) ≡ views ss ++ view s ∷ []
views-snoc [] s = refl
views-snoc (t ∷ ss) s = ap (λ x. view t ∷ x) (views-snoc ss s)

outcome-eq_some :
    (r : Result Panic Ran) {sh : Shape} {ctx : ExContext}
    → outcome r ≡ some (sh, ctx)
    → (ran : Ran) × (r ≡ ok ran) × (view ran.service ≡ sh) × (ran.ctx ≡ ctx)
outcome-eq_some (err e) h = cc
outcome-eq_some (ok ran) h = (ran, refl, cc, cc)

module _ {m : Manifest} {ctx : ExContext} {shapes : List Shape} where
  pub Yields-ok : Holds m ctx shapes → Yields (ok m) ctx shapes
  Yields-ok h = record { manifest = m; returned = refl; holds = h }

  -- Only the manifest and the component that come back are named, not the service.
  pub Yields-add_service :
      (keys : Keys) (name : String) (srv : ServiceGen) {sh : Shape} {ctx' : ExContext}
      → Holds m ctx shapes
      → outcome_of keys ctx name srv ≡ some (sh, ctx')
      → (r : Manifest) × (c : ServiceGen) × (add_service keys name srv m ≡ ok (r, c))
        × Holds r ctx' (shapes ++ sh ∷ [])
  unfolding add_service
  Yields-add_service keys name srv {sh} {ctx'} h e =
      let (ran, eq, seen, after) =
        outcome-eq_some _
          (subst (λ c. outcome_of keys c name srv ≡ some (sh, ctx')) (sym h.ctx_eq) e) in
      (
        record { ctx = ran.ctx; services = m.services ++ ran.service ∷ [] },
        ran.component,
        ap
            (λ x. x >>= λ r.
              ok (record { ctx = r.ctx; services = m.services ++ r.service ∷ [] }, r.component))
            eq,
        record {
          ctx_eq = after;
          shapes_eq =
              views-snoc m.services ran.service ∙ ap₂ (λ xs x. xs ++ x ∷ []) h.shapes_eq seen;
        },
      )

  -- The same where the component that comes back is known.
  pub Yields-add_service_as :
      (keys : Keys) (name : String) (srv back : ServiceGen) {sh : Shape} {ctx' : ExContext}
      → Holds m ctx shapes
      → outcome_of keys ctx name srv ≡ some (sh, ctx')
      → ((s : Service) (r : Ran) → run keys ctx srv s ≡ ok r → r.component ≡ back)
      → (r : Manifest) × (add_service keys name srv m ≡ ok (r, back))
        × Holds r ctx' (shapes ++ sh ∷ [])
  unfolding add_service
  Yields-add_service_as keys name srv back {sh} {ctx'} h e comes =
      let new = record (new_service name) { component_name = component_name srv } in
      let (ran, eq, seen, after) =
        outcome-eq_some _
          (subst (λ c. outcome_of keys c name srv ≡ some (sh, ctx')) (sym h.ctx_eq) e) in
      (
        record { ctx = ran.ctx; services = m.services ++ ran.service ∷ [] },
        ap
              (λ x. x >>= λ r.
                ok (record { ctx = r.ctx; services = m.services ++ r.service ∷ [] }, r.component))
              eq
            ∙ ap (λ c. ok (record { ctx = ran.ctx; services = m.services ++ ran.service ∷ [] }, c))
                (comes new ran (subst (λ c. run keys c srv new ≡ ok ran) h.ctx_eq eq)),
        record {
          ctx_eq = after;
          shapes_eq =
              views-snoc m.services ran.service ∙ ap₂ (λ xs x. xs ++ x ∷ []) h.shapes_eq seen;
        },
      )

  pub Yields-add :
      (keys : Keys) (name : String) (srv : ServiceGen) {sh : Shape} {ctx' : ExContext}
      → Holds m ctx shapes
      → outcome_of keys ctx name srv ≡ some (sh, ctx')
      → Yields (add keys name srv m) ctx' (shapes ++ sh ∷ [])
  unfolding add
  Yields-add keys name srv h e =
      let (r, c, eq, holds) = Yields-add_service keys name srv h e in
      record { manifest = r; returned = ap (λ x. x >>= λ p. ok p.0) eq; holds = holds }

pub Yields-bind :
    (r : Result Panic Manifest) (f : Manifest → Result Panic Manifest) {ctx ctx' : ExContext}
    {shapes shapes' : List Shape}
    → Yields r ctx shapes
    → ((m : Manifest) → Holds m ctx shapes → Yields (f m) ctx' shapes')
    → Yields (r >>= f) ctx' shapes'
Yields-bind r f y k =
    let next = k y.manifest y.holds in
    record {
      manifest = next.manifest;
      returned = ap (λ x. x >>= f) y.returned ∙ next.returned;
      holds = next.holds;
    }

pub Holds-new :
    (ctx : ExContext) (out : Output) → Holds (new_manifest ctx out) (record ctx { output = out }) []
unfolding new_manifest
Holds-new ctx out = record { ctx_eq = refl; shapes_eq = refl }
