-- ===== src/Recipe/OpStack/Outcomes.antt =====
-- The services of the OP stack recipe: what the summary of each component is.
use builder_playground.Prelude.{
  ok_inj, ℕ, String, Bool, true, false, Option, none, some, [], ◌∷◌, ◌++◌, ◌≡◌, refl, sym, ap, ◌∙◌,
  ◌≢◌, eqb, if◌then◌else◌, Result, ok, err, ◌>>=◌, >>=-eq-ok, arith, Chars-⊕,
}
use mathlib.Core.Path.{subst}
use builder_playground.Template.{scan, text}
use builder_playground.Template.Laws.{IsLiteral, IsQuotable, decimal-IsLiteral}
use builder_playground.Output.{Output, EnodeAddr, get_enode_addr, connect, connect_ws}
use builder_playground.Service.{
  Builder, ◌▹◌, with_image, with_tag, with_entrypoint, Service, new_service, service_code,
  with_args, note_templates,
}
use builder_playground.Service.FirstPass.{Panic}
use builder_playground.Service.Literals.{note_templates-skip}
use builder_playground.Context.{ExContext, bootnode_url}
use builder_playground.Catalog.{
  ServiceGen, Keys, Ran, run, runs, with_enode, component_name, op_geth, op_node, op_batcher,
  op_reth, op_rbuilder, rollup_boost, bproxy, websocket_proxy, flashblocks_rpc,
  lighthouse_beacon_node,
}
use builder_playground.Component.Optimism.{
  OpBatcher, log_level_to_geth_verbosity, op_geth_with, op_batcher_with, op_batcher_args,
  duration_flag, trusted_peers, run_op_geth,
}
use builder_playground.Component.Rollup.{
  OpRbuilder, FlashblocksRpc, op_rbuilder_base, op_rbuilder_ports, op_rbuilder_with,
  flashblocks_rpc_base, flashblocks_rpc_with,
}
use builder_playground.Recipe.OpStack.{external_builder_ref, flashblocks_ref}
use builder_playground.Manifest.Yields.{outcome, outcome_of}
use builder_playground.Recipe.OpStack.Parts.{
  LocalBuilder, l1_beacon_shape, op_geth_shape, op_reth_shape, op_rbuilder_shape,
  flashblocks_rpc_shape, bootnode_call, op_batcher_shape, batcher, with_default_duration-batcher,
  flashblocks_rpc_of, taken, dropped, IsGethVerbosity, log_level_to_geth_verbosity-IsGethVerbosity,
  op_node_shape, websocket_proxy_shape, bproxy_shape, rollup_boost_shape, op_recipe, scan-bootnode,
  nobody, reth, rbuilder, v1, v2, v3, v4, v5,
}

module _ (keys : Keys) (ctx : ExContext) where
  abbrev named : String → String → Service
  named name component = record (new_service name) { component_name = component }

  pub l1_beacon-outcome :
      outcome_of keys ctx "beacon"
        (lighthouse_beacon_node (record { execution_node = "el"; mev_boost_node = "" }))
      ≡ some (l1_beacon_shape, ctx)
  unfolding run component_name service_code
  l1_beacon-outcome = refl

  pub op_reth-outcome : outcome_of keys ctx "op-reth" op_reth ≡ some (op_reth_shape, ctx)
  unfolding run component_name service_code
  op_reth-outcome = refl

  abbrev ran : Service → ServiceGen → Ran
  ran s c = record { service = s; ctx = ctx; component = c }

  -- What a builder makes of a service when it does not panic.
  abbrev settled : Builder → Service → Service
  settled f s0 = elim (f s0) [ ok s ↦ s | err _ ↦ s0 ]

  -- The flag of the bootnode adds the reference that its url holds.
  trusted-ok :
      (s : Service) (url id : String)
      → scan text url ≡ some (bootnode_call id ∷ [])
      → with_args ("--trusted-peers" ∷ url ∷ []) s
        ≡ ok (record s {
          node_refs =
              s.node_refs
              ++ record { service = "op-geth"; port_label = "rpc"; protocol = "enode"; user = id }
                ∷ [];
          args = s.args ++ "--trusted-peers" ∷ url ∷ [];
        })
  unfolding with_args note_templates
  trusted-ok s url id h =
      ap
        (λ (r : Result Panic Service).
          r >>= λ s'. ok (record s' { args = s'.args ++ "--trusted-peers" ∷ url ∷ [] }))
        (note_templates-skip [] (url ∷ []) "--trusted-peers" s (omega arith) ∙ reads h)
    where
      reads :
          scan text url ≡ some (bootnode_call id ∷ [])
          → note_templates (url ∷ []) s
            ≡ ok (record s {
              node_refs =
                  s.node_refs
                  ++ record {
                    service = "op-geth";
                    port_label = "rpc";
                    protocol = "enode";
                    user = id;
                  }
                    ∷ [];
            })
      reads h = rw h refl

  op_rbuilder_with-outcome :
      (flashblocks : Bool) (url : String) (o : OpRbuilder) (id : String)
      → scan text url ≡ some (bootnode_call id ∷ [])
      → outcome (
          runs keys ctx
            (op_rbuilder o)
            (op_rbuilder_with (some url) (record { flashblocks = flashblocks }))
            (named "op-rbuilder" "op-rbuilder"))
        ≡ some (op_rbuilder_shape flashblocks, ctx)
  unfolding op_rbuilder_with service_code
  op_rbuilder_with-outcome true url o id h =
      ap (λ r. outcome (r >>= op_rbuilder_ports true >>= λ s'. ok (ran s' (op_rbuilder o))))
        (trusted-ok (settled op_rbuilder_base (named "op-rbuilder" "op-rbuilder")) url id h)
  op_rbuilder_with-outcome false url o id h =
      ap (λ r. outcome (r >>= op_rbuilder_ports false >>= λ s'. ok (ran s' (op_rbuilder o))))
        (trusted-ok (settled op_rbuilder_base (named "op-rbuilder" "op-rbuilder")) url id h)

  flashblocks_rpc_with-outcome :
      (overlay websocket : Bool) (url : String) (f : FlashblocksRpc) (id : String)
      → scan text url ≡ some (bootnode_call id ∷ [])
      → outcome (
          runs keys ctx
            (flashblocks_rpc f)
            (flashblocks_rpc_with (some url) (flashblocks_rpc_of overlay websocket))
            (named "flashblocks-rpc" "flashblocks-rpc"))
        ≡ some (flashblocks_rpc_shape websocket, ctx)
  unfolding flashblocks_rpc_with service_code
  flashblocks_rpc_with-outcome true true url f id h =
      ap (λ r. outcome (r >>= λ s'. ok (ran s' (flashblocks_rpc f))))
        (trusted-ok
          (settled (flashblocks_rpc_base (flashblocks_rpc_of true true))
            (named "flashblocks-rpc" "flashblocks-rpc"))
          url id h)
  flashblocks_rpc_with-outcome true false url f id h =
      ap (λ r. outcome (r >>= λ s'. ok (ran s' (flashblocks_rpc f))))
        (trusted-ok
          (settled (flashblocks_rpc_base (flashblocks_rpc_of true false))
            (named "flashblocks-rpc" "flashblocks-rpc"))
          url id h)
  flashblocks_rpc_with-outcome false true url f id h =
      ap (λ r. outcome (r >>= λ s'. ok (ran s' (flashblocks_rpc f))))
        (trusted-ok
          (settled (flashblocks_rpc_base (flashblocks_rpc_of false true))
            (named "flashblocks-rpc" "flashblocks-rpc"))
          url id h)
  flashblocks_rpc_with-outcome false false url f id h =
      ap (λ r. outcome (r >>= λ s'. ok (ran s' (flashblocks_rpc f))))
        (trusted-ok
          (settled (flashblocks_rpc_base (flashblocks_rpc_of false false))
            (named "flashblocks-rpc" "flashblocks-rpc"))
          url id h)

  op_batcher_with-outcome :
      (duration_flag : String) (o : OpBatcher) (n : ℕ)
      → IsLiteral duration_flag
      → outcome (
          runs keys ctx
            (op_batcher o)
            (op_batcher_with duration_flag (batcher n))
            (named "op-batcher" "op-batcher"))
        ≡ some (op_batcher_shape, ctx)
  unfolding op_batcher_with service_code
  op_batcher_with-outcome duration_flag o n h =
      ap
        (λ (r : Result Panic Service). outcome (
          r
          >>= (λ s'. ok (record s' { args = s'.args ++ op_batcher_args duration_flag (batcher n) }))
          >>= λ s'. ok (ran s' (op_batcher o))))
        (note_templates-skip (taken 6 (op_batcher_args duration_flag (batcher n)))
          (dropped 7 (op_batcher_args duration_flag (batcher n))) duration_flag
          (settled
            (with_image "us-docker.pkg.dev/oplabs-tools-artifacts/images/op-batcher"
              ▹ with_tag "v1.12.0-rc.1"
              ▹ with_entrypoint "op-batcher")
            (named "op-batcher" "op-batcher"))
          h)

  pub op_batcher-outcome :
      (duration : ℕ)
      → outcome_of keys ctx "op-batcher" (op_batcher (batcher duration))
        ≡ some (op_batcher_shape, ctx)
  unfolding run component_name
  op_batcher-outcome duration =
      subst
        (λ x.
          outcome (
            runs keys ctx (op_batcher x) (op_batcher_with (duration_flag x) x)
              (named "op-batcher" "op-batcher"))
          ≡ some (op_batcher_shape, ctx))
        (sym (with_default_duration-batcher duration))
        (op_batcher_with-outcome _ _ (if eqb duration 0 then 2 else duration) (
          Chars-⊕ (λ c. c ≢ b'{') "--max-channel-duration=" _ (omega arith)
            (decimal-IsLiteral (if eqb duration 0 then 2 else duration))))

  op_geth_with-outcome :
      (enode : EnodeAddr) (c : ServiceGen) {v : String}
      → IsGethVerbosity v
      → outcome (runs keys ctx c (op_geth_with v "" enode) (named "op-geth" "op-geth"))
        ≡ some (op_geth_shape enode.artifact, ctx)
  unfolding op_geth_with service_code
  op_geth_with-outcome enode c v1 = refl
  op_geth_with-outcome enode c v2 = refl
  op_geth_with-outcome enode c v3 = refl
  op_geth_with-outcome enode c v4 = refl
  op_geth_with-outcome enode c v5 = refl

  pub op_node-outcome :
      (boosted : Bool)
      → outcome_of keys ctx "op-node" (
          op_node (record {
            l1_node = "el";
            l1_beacon = "beacon";
            l2_node = if boosted then "rollup-boost" else "op-geth";
          }))
        ≡ some (op_node_shape boosted, ctx)
  unfolding run component_name service_code
  op_node-outcome true = refl
  op_node-outcome false = refl

  pub websocket_proxy-outcome :
      outcome_of keys ctx "websocket-proxy" (websocket_proxy (record { upstream = "rollup-boost" }))
      ≡ some (websocket_proxy_shape, ctx)
  unfolding run component_name service_code
  websocket_proxy-outcome = refl

  pub op_rbuilder-outcome :
      (flashblocks : Bool) (id : String)
      → IsQuotable id
      → ctx.bootnode ≡ some (record { service = "op-geth"; id = id })
      → outcome_of keys ctx "op-rbuilder" (op_rbuilder (record { flashblocks = flashblocks }))
        ≡ some (op_rbuilder_shape flashblocks, ctx)
  unfolding run component_name
  op_rbuilder-outcome flashblocks id q b =
      subst
        (λ x.
          outcome (
            runs keys ctx (op_rbuilder (record { flashblocks = flashblocks }))
              (op_rbuilder_with (bootnode_url x) (record { flashblocks = flashblocks }))
              (named "op-rbuilder" "op-rbuilder"))
          ≡ some (op_rbuilder_shape flashblocks, ctx))
        (sym b) (op_rbuilder_with-outcome flashblocks _ _ id (scan-bootnode id q))

  pub flashblocks_rpc-outcome :
      (overlay websocket : Bool) (id : String)
      → IsQuotable id
      → ctx.bootnode ≡ some (record { service = "op-geth"; id = id })
      → outcome_of keys ctx "flashblocks-rpc"
          (flashblocks_rpc (flashblocks_rpc_of overlay websocket))
        ≡ some (flashblocks_rpc_shape websocket, ctx)
  unfolding run component_name
  flashblocks_rpc-outcome overlay websocket id q b =
      subst
        (λ x.
          outcome (
            runs keys ctx (flashblocks_rpc (flashblocks_rpc_of overlay websocket))
              (flashblocks_rpc_with (bootnode_url x) (flashblocks_rpc_of overlay websocket))
              (named "flashblocks-rpc" "flashblocks-rpc"))
          ≡ some (flashblocks_rpc_shape websocket, ctx))
        (sym b) (flashblocks_rpc_with-outcome overlay websocket _ _ id (scan-bootnode id q))

  pub bproxy-outcome :
      (b : LocalBuilder) (websocket overlay : Bool) (fork : Option ℕ) (time duration : ℕ)
      → let o = op_recipe b true websocket overlay fork time duration in
        outcome_of keys ctx "bproxy" (
          bproxy (record {
            target_authrpc = external_builder_ref keys o;
            peers = "flashblocks-rpc" ∷ [];
            flashblocks = true;
            flashblocks_builder_url = flashblocks_ref keys o;
          }))
        ≡ some (bproxy_shape b, ctx)
  unfolding run component_name service_code external_builder_ref flashblocks_ref
  bproxy-outcome nobody websocket overlay fork time duration = refl
  bproxy-outcome reth websocket overlay fork time duration = refl
  bproxy-outcome rbuilder websocket overlay fork time duration = refl

  pub rollup_boost-outcome :
      (b : LocalBuilder) (flashblocks websocket overlay : Bool) (fork : Option ℕ)
      (time duration : ℕ)
      → b ≢ nobody
      → let o = op_recipe b flashblocks websocket overlay fork time duration in
        outcome_of keys ctx "rollup-boost" (
          rollup_boost (record {
            el_node = "op-geth";
            builder =
                if flashblocks then connect "bproxy" "authrpc" else external_builder_ref keys o;
            flashblocks = flashblocks;
            flashblocks_builder_url =
                if flashblocks then connect_ws "bproxy" "flashblocks" else flashblocks_ref keys o;
          }))
        ≡ some (rollup_boost_shape b flashblocks, ctx)
  unfolding run component_name service_code external_builder_ref flashblocks_ref
  rollup_boost-outcome nobody flashblocks websocket overlay fork time duration h = absurd (h refl)
  rollup_boost-outcome reth true websocket overlay fork time duration h = refl
  rollup_boost-outcome reth false websocket overlay fork time duration h = refl
  rollup_boost-outcome rbuilder true websocket overlay fork time duration h = refl
  rollup_boost-outcome rbuilder false websocket overlay fork time duration h = refl

module _ (keys : Keys) (ctx : ExContext) (enode : EnodeAddr) (out : Output)
    (e : get_enode_addr keys.valid_key ctx.output ≡ ok (enode, out)) where
  pub op_geth-outcome :
      ctx.bootnode ≡ none
      → outcome_of keys ctx "op-geth" (op_geth none)
        ≡ some (op_geth_shape enode.artifact, record ctx { output = out })
  unfolding run component_name
  op_geth-outcome b =
      let after = record ctx { output = out } in
      let s = record (new_service "op-geth") { component_name = "op-geth" } in
      let c = op_geth (some enode) in
      let v = log_level_to_geth_verbosity ctx.log_level in
      ap (λ r. outcome (with_enode keys ctx r s)) e
      ∙ ap
          (λ x.
            outcome (runs keys after c (op_geth_with v (trusted_peers (bootnode_url x)) enode) s))
          b
      ∙ op_geth_with-outcome keys after enode c
          (log_level_to_geth_verbosity-IsGethVerbosity ctx.log_level)

  -- The component that comes back holds the key.
  pub op_geth-component :
      (s : Service) (r : Ran)
      → run keys ctx (op_geth none) s ≡ ok r
      → r.component ≡ op_geth (some enode)
  unfolding run
  op_geth-component s r h =
      let given = ap (λ x. with_enode keys ctx x s) (sym e) ∙ h in
      let (s', _, last) = >>=-eq-ok (run_op_geth enode ctx s) _ given in
      ap (λ (x : Ran). x.component) (sym (ok_inj last))
