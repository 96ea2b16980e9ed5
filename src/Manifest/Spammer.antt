-- ===== src/Manifest/Spammer.antt =====
-- The contender service as `RunContenderIfEnabled` adds it when no extra argument is given.
use builder_playground.Prelude.{
  String, Bool, true, false, List, [], ◌∷◌, ◌++◌, some, ◌≡◌, refl, sym, ap, ◌∙◌, if◌then◌else◌, ok,
}
use mathlib.Core.Path.{subst}
use builder_playground.Service.{service_healthy, service_started, service_code}
use builder_playground.Context.{ExContext, ContenderContext}
use builder_playground.Catalog.{Keys, contender, component_name, run}
use builder_playground.Manifest.{Manifest, add, contender_of, run_contender_if_enabled}
use builder_playground.Manifest.Shapes.{Shape}
use builder_playground.Manifest.Yields.{outcome_of, Holds, Yields, Yields-ok, Yields-add}

-- The context of a run with the given target and no extra argument.
abbrev pub spam : Bool → String → ContenderContext
spam enabled target = record { enabled = enabled; extra_args = []; target_chain = target }

abbrev pub contender_shape : String → Bool → Shape
contender_shape target op = record {
  name = "contender";
  ports = [];
  refs = (target, "http") ∷ [];
  deps =
      record { name = "beacon"; condition = service_healthy }
      ∷ (if op then record { name = "op-node"; condition = service_started } ∷ [] else []);
  ready = false;
  files = [];
}

module _ (keys : Keys) (ctx : ExContext) where
  contender-outcome :
      outcome_of keys ctx "contender" (contender (record { extra_args = []; target_chain = "" }))
      ≡ some (contender_shape "el" false, ctx)
  unfolding run component_name service_code
  contender-outcome = refl

  contender-outcome_op :
      outcome_of keys ctx "contender"
        (contender (record { extra_args = []; target_chain = "op-geth" }))
      ≡ some (contender_shape "op-geth" true, ctx)
  unfolding run component_name service_code
  contender-outcome_op = refl

  module _ {m : Manifest} {shapes : List Shape} (enabled : Bool) (h : Holds m ctx shapes) where
    contender-Yields_of :
        (target : String) (sh : Shape)
        → ctx.contender ≡ spam enabled target
        → outcome_of keys ctx "contender"
            (contender (record { extra_args = []; target_chain = target }))
          ≡ some (sh, ctx)
        → Yields
            (run_contender_if_enabled keys m)
            ctx
            (if enabled then shapes ++ sh ∷ [] else shapes)
    unfolding run_contender_if_enabled contender_of
    contender-Yields_of target sh e out =
        subst
          (λ cc.
            Yields (if cc.enabled then add keys "contender" (contender_of cc) m else ok m) ctx
              (if enabled then shapes ++ sh ∷ [] else shapes))
          (sym (ap (λ c. c.contender) h.ctx_eq ∙ e)) (added enabled)
      where
        added :
            (b : Bool)
            → Yields
                (if b then add keys "contender" (contender_of (spam b target)) m else ok m)
                ctx
                (if b then shapes ++ sh ∷ [] else shapes)
        added true = Yields-add keys "contender" (contender_of (spam true target)) h out
        added false = Yields-ok h

    pub contender-Yields :
        ctx.contender ≡ spam enabled ""
        → Yields
            (run_contender_if_enabled keys m)
            ctx
            (if enabled then shapes ++ contender_shape "el" false ∷ [] else shapes)
    contender-Yields e = contender-Yields_of "" _ e contender-outcome

    pub contender-Yields_op :
        ctx.contender ≡ spam enabled "op-geth"
        → Yields
            (run_contender_if_enabled keys m)
            ctx
            (if enabled then shapes ++ contender_shape "op-geth" true ∷ [] else shapes)
    contender-Yields_op e = contender-Yields_of "op-geth" _ e contender-outcome_op
