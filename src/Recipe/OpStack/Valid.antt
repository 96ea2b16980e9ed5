-- ===== src/Recipe/OpStack/Valid.antt =====
-- playground/recipe_opstack.go: the services of the manifest that the OP stack recipe builds.
use builder_playground.Prelude.{
  ℕ, String, Bool, true, false, Option, none, some, List, [], ◌∷◌, ◌++◌, ◌≡◌, refl, sym, ap, ◌∙◌,
  if◌then◌else◌, Result, ok, ◌>>=◌, ◌==◌,
}
use mathlib.Core.Path.{subst}
use builder_playground.Template.Laws.{IsQuotable}
use builder_playground.Output.{Output, EnodeAddr, get_enode_addr}
use builder_playground.Context.{ExContext, ContenderContext}
use builder_playground.Service.FirstPass.{Panic}
use builder_playground.Catalog.{
  Keys, op_geth, lighthouse_beacon_node, op_reth, flashblocks_rpc, op_node,
}
use builder_playground.Manifest.{Manifest, add}
use builder_playground.Manifest.Shapes.{Shape}
use builder_playground.Manifest.Yields.{
  Holds, Yields, Yields-ok, Yields-add, Yields-add_service_as, Yields-bind, Holds-new,
}
use builder_playground.Manifest.Spammer.{spam, contender_shape, contender-Yields_op}
use builder_playground.Recipe.Lone.Parts.{
  el_shape, validator_shape, reth_el-outcome, validator-outcome,
}
use builder_playground.Recipe.OpStack.{
  OpRecipe, add_builder, add_bproxy, add_websocket_proxy, add_rollup_boost, add_flashblocks_rpc,
  el_node, default_target, set_bootnode, apply,
}
use builder_playground.Recipe.OpStack.Parts.{
  LocalBuilder, nobody, reth, rbuilder, op_recipe, flashblocks_rpc_of, l1_beacon_shape,
  op_geth_shape, op_reth_shape, op_rbuilder_shape, flashblocks_rpc_shape, op_batcher_shape,
  op_node_shape, websocket_proxy_shape, bproxy_shape, rollup_boost_shape,
}
use builder_playground.Recipe.OpStack.Outcomes.{
  l1_beacon-outcome, op_reth-outcome, op_batcher-outcome, op_node-outcome, websocket_proxy-outcome,
  op_rbuilder-outcome, flashblocks_rpc-outcome, bproxy-outcome, rollup_boost-outcome,
  op_geth-outcome, op_geth-component,
}

abbrev pub boosted : LocalBuilder → Bool
boosted nobody = false
boosted _ = true

-- The services after each step, by the settings that decide them.
abbrev pub after_builder : LocalBuilder → Bool → List Shape → List Shape
after_builder nobody flashblocks shapes = shapes
after_builder reth flashblocks shapes = shapes ++ op_reth_shape ∷ []
after_builder rbuilder flashblocks shapes = shapes ++ op_rbuilder_shape flashblocks ∷ []

abbrev pub after_rollup_boost : LocalBuilder → Bool → List Shape → List Shape
after_rollup_boost nobody flashblocks shapes = shapes
after_rollup_boost b flashblocks shapes = shapes ++ rollup_boost_shape b flashblocks ∷ []

abbrev pub l1_and_geth : String → List Shape
l1_and_geth artifact =
    el_shape ∷ (l1_beacon_shape ∷ (validator_shape ∷ (op_geth_shape artifact ∷ [])))

abbrev pub op_shapes : LocalBuilder → Bool → Bool → Bool → String → List Shape
op_shapes b flashblocks websocket enabled artifact =
    let s5 = after_builder b flashblocks (l1_and_geth artifact) in
    let s6 = if flashblocks then s5 ++ bproxy_shape b ∷ [] else s5 in
    let s7 = if websocket then s6 ++ websocket_proxy_shape ∷ [] else s6 in
    let s8 = after_rollup_boost b flashblocks s7 in
    let s9 = if flashblocks then s8 ++ flashblocks_rpc_shape websocket ∷ [] else s8 in
    let s11 = (s9 ++ op_node_shape (boosted b) ∷ []) ++ op_batcher_shape ∷ [] in
    if enabled then s11 ++ contender_shape "op-geth" true ∷ [] else s11

module _ (keys : Keys) (fork : Option ℕ) (time duration : ℕ) (ctx : ExContext) {m : Manifest}
    {shapes : List Shape} (h : Holds m ctx shapes) where
  rollup_boost-Yields :
      (b : LocalBuilder) (flashblocks websocket overlay : Bool)
      → Yields
          (add_rollup_boost keys (op_recipe b flashblocks websocket overlay fork time duration) m)
          ctx
          (after_rollup_boost b flashblocks shapes)
  rollup_boost-Yields nobody flashblocks websocket overlay = Yields-ok h
  rollup_boost-Yields reth flashblocks websocket overlay = Yields-add keys "rollup-boost" _ h (
      rollup_boost-outcome keys ctx reth flashblocks websocket overlay fork time duration (λ e. cc))
  rollup_boost-Yields rbuilder flashblocks websocket overlay = Yields-add keys "rollup-boost" _ h (
      rollup_boost-outcome keys ctx rbuilder flashblocks websocket overlay fork time duration
        (λ e. cc))

  bproxy-Yields :
      (b : LocalBuilder) (flashblocks websocket overlay : Bool)
      → Yields
          (add_bproxy keys (op_recipe b flashblocks websocket overlay fork time duration) m)
          ctx
          (if flashblocks then shapes ++ bproxy_shape b ∷ [] else shapes)
  bproxy-Yields b false websocket overlay = Yields-ok h
  bproxy-Yields b true websocket overlay =
      Yields-add keys "bproxy" _ h (bproxy-outcome keys ctx b websocket overlay fork time duration)

  websocket_proxy-Yields :
      (b : LocalBuilder) (flashblocks websocket overlay : Bool)
      → Yields
          (add_websocket_proxy keys
            (op_recipe b flashblocks websocket overlay fork time duration)
            m)
          ctx
          (if websocket then shapes ++ websocket_proxy_shape ∷ [] else shapes)
  websocket_proxy-Yields b flashblocks false overlay = Yields-ok h
  websocket_proxy-Yields b flashblocks true overlay =
      Yields-add keys "websocket-proxy" _ h (websocket_proxy-outcome keys ctx)

  op_node-Yields :
      (b : LocalBuilder) (flashblocks websocket overlay : Bool)
      → Yields
          (add keys "op-node"
            (op_node (record {
              l1_node = "el";
              l1_beacon = "beacon";
              l2_node = el_node keys (op_recipe b flashblocks websocket overlay fork time duration);
            }))
            m)
          ctx
          (shapes ++ op_node_shape (boosted b) ∷ [])
  op_node-Yields nobody flashblocks websocket overlay =
      Yields-add keys "op-node" _ h (op_node-outcome keys ctx false)
  op_node-Yields reth flashblocks websocket overlay =
      Yields-add keys "op-node" _ h (op_node-outcome keys ctx true)
  op_node-Yields rbuilder flashblocks websocket overlay =
      Yields-add keys "op-node" _ h (op_node-outcome keys ctx true)

  module _ (id : String) (q : IsQuotable id)
      (boot : ctx.bootnode ≡ some (record { service = "op-geth"; id = id })) where
    builder-Yields :
        (b : LocalBuilder) (flashblocks websocket overlay : Bool)
        → Yields
            (add_builder keys (op_recipe b flashblocks websocket overlay fork time duration) m)
            ctx
            (after_builder b flashblocks shapes)
    builder-Yields nobody flashblocks websocket overlay = Yields-ok h
    builder-Yields reth flashblocks websocket overlay =
        Yields-add keys "op-reth" op_reth h (op_reth-outcome keys ctx)
    builder-Yields rbuilder flashblocks websocket overlay =
        Yields-add keys "op-rbuilder" _ h (op_rbuilder-outcome keys ctx flashblocks id q boot)

    flashblocks_rpc-Yields :
        (b : LocalBuilder) (flashblocks websocket overlay : Bool)
        → Yields
            (add_flashblocks_rpc keys
              (op_recipe b flashblocks websocket overlay fork time duration)
              m)
            ctx
            (if flashblocks then shapes ++ flashblocks_rpc_shape websocket ∷ [] else shapes)
    flashblocks_rpc-Yields b false websocket overlay = Yields-ok h
    flashblocks_rpc-Yields b true websocket overlay =
        Yields-add keys "flashblocks-rpc" (flashblocks_rpc (flashblocks_rpc_of overlay websocket)) h
          (flashblocks_rpc-outcome keys ctx overlay websocket id q boot)

  Holds-set_bootnode :
      (b : LocalBuilder) (flashblocks websocket overlay : Bool) (enode : EnodeAddr)
      → Holds
          (set_bootnode keys
            (op_recipe b flashblocks websocket overlay fork time duration)
            (op_geth (some enode))
            m)
          (record ctx {
            bootnode = some (record { service = "op-geth"; id = keys.node_id enode.priv_key });
          })
          shapes
  Holds-set_bootnode b flashblocks websocket overlay enode = record {
    ctx_eq =
        ap
          (λ (c : ExContext). record c {
            bootnode = some (record { service = "op-geth"; id = keys.node_id enode.priv_key });
          })
          h.ctx_eq;
    shapes_eq = h.shapes_eq;
  }

  Holds-default_target :
      (b : LocalBuilder) (flashblocks websocket overlay enabled : Bool)
      → ctx.contender ≡ spam enabled ""
      → Holds
          (default_target keys (op_recipe b flashblocks websocket overlay fork time duration) m)
          (record ctx { contender = spam enabled "op-geth" })
          shapes
  Holds-default_target b flashblocks websocket overlay enabled e =
      subst
        (λ (cc : ContenderContext).
          Holds
            (if cc.target_chain == ""
              then record m {
                ctx = record m.ctx { contender = record cc { target_chain = "op-geth" } };
              }
              else m)
            (record ctx { contender = spam enabled "op-geth" }) shapes)
        (sym (ap (λ (c : ExContext). c.contender) h.ctx_eq ∙ e))
        (record {
          ctx_eq = ap (λ (c : ExContext). record c { contender = spam enabled "op-geth" }) h.ctx_eq;
          shapes_eq = h.shapes_eq;
        })

Yields-known :
    {X : Type 0} (r : Result Panic X) (f : X → Result Panic Manifest) (x : X) {ctx : ExContext}
    {shapes : List Shape}
    → r ≡ ok x
    → Yields (f x) ctx shapes
    → Yields (r >>= f) ctx shapes
Yields-known r f x e y = record {
  manifest = y.manifest;
  returned = ap (λ r. r >>= f) e ∙ y.returned;
  holds = y.holds;
}

module _ (keys : Keys) (fork : Option ℕ) (time duration : ℕ) (ctx : ExContext) (out out' : Output)
    (enode : EnodeAddr) (b : LocalBuilder) (flashblocks websocket overlay enabled : Bool)
    (q : IsQuotable (keys.node_id enode.priv_key))
    (drawn : get_enode_addr keys.valid_key out ≡ ok (enode, out')) (no_boot : ctx.bootnode ≡ none)
    (e : ctx.contender ≡ spam enabled "") where
  abbrev pub o : OpRecipe
  o = op_recipe b flashblocks websocket overlay fork time duration

  abbrev pub start : ExContext
  start = record ctx { output = out }

  abbrev pub booted : ExContext
  booted = record ctx {
    output = out';
    bootnode = some (record { service = "op-geth"; id = keys.node_id enode.priv_key });
  }

  abbrev pub final : ExContext
  final = record booted { contender = spam enabled "op-geth" }

  pub op-Yields :
      Yields (apply keys o ctx out) final (op_shapes b flashblocks websocket enabled enode.artifact)
  unfolding apply
  op-Yields =
      Yields-bind _ _ (Yields-add keys "el" _ (Holds-new ctx out) (reth_el-outcome keys start _))
        λ m1 h1.
          Yields-bind _ _
            (Yields-add keys "beacon"
              (lighthouse_beacon_node (record { execution_node = "el"; mev_boost_node = "" })) h1
              (l1_beacon-outcome keys start))
            λ m2 h2.
              Yields-bind _ _ (Yields-add keys "validator" _ h2 (validator-outcome keys start))
                λ m3 h3.
                  let (m4, eq, h4) =
                    Yields-add_service_as keys "op-geth" (op_geth none) (op_geth (some enode)) h3
                      (op_geth-outcome keys start enode out' drawn no_boot)
                      (op_geth-component keys start enode out' drawn) in
                  Yields-known _ _ (m4, op_geth (some enode)) eq
                    (Yields-bind _ _
                      (builder-Yields keys fork time duration booted
                        (Holds-set_bootnode keys fork time duration (record start { output = out' })
                          h4 b flashblocks websocket overlay enode)
                        (keys.node_id enode.priv_key) q refl b flashblocks websocket overlay)
                      λ m5 h5.
                        Yields-bind _ _
                          (bproxy-Yields keys fork time duration booted h5 b flashblocks websocket
                            overlay)
                          λ m6 h6.
                            Yields-bind _ _
                              (websocket_proxy-Yields keys fork time duration booted h6 b
                                flashblocks websocket overlay)
                              λ m7 h7.
                                Yields-bind _ _
                                  (rollup_boost-Yields keys fork time duration booted h7 b
                                    flashblocks websocket overlay)
                                  λ m8 h8.
                                    Yields-bind _ _
                                      (flashblocks_rpc-Yields keys fork time duration booted h8
                                        (keys.node_id enode.priv_key) q refl b flashblocks websocket
                                        overlay)
                                      λ m9 h9.
                                        Yields-bind _ _
                                          (op_node-Yields keys fork time duration booted h9 b
                                            flashblocks websocket overlay)
                                          λ m10 h10.
                                            Yields-bind _ _
                                              (Yields-add keys "op-batcher" _ h10
                                                (op_batcher-outcome keys booted duration))
                                              λ m11 h11.
                                                contender-Yields_op keys final enabled
                                                  (Holds-default_target keys fork time duration
                                                    booted h11 b flashblocks websocket overlay
                                                    enabled e)
                                                  refl)
