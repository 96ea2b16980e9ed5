-- ===== src/Recipe/OpStack/Verdict.antt =====
-- playground/recipe_opstack.go against `Validate` of playground/manifest.go.
use builder_playground.Prelude.{
  ℕ, String, Bool, true, false, Option, none, List, [], ◌∷◌, ◌++◌, ◌≡◌, refl, sym, ◌∙◌, All, inl,
  inr, if◌then◌else◌, Result, Result-cases, ok, err,
}
use builder_playground.Template.Laws.{IsQuotable}
use builder_playground.Output.{Output, EnodeAddr, get_enode_addr, stat, found}
use builder_playground.Output.Effects.{get_enode_addr_keeps, get_enode_addr_effect}
use builder_playground.Context.{ExContext}
use builder_playground.Catalog.{Keys}
use builder_playground.Manifest.{Manifest, Error, not_defined, no_such_port, validate}
use builder_playground.Manifest.Shapes.{Shape, shape_services, FilesExist}
use builder_playground.Manifest.Accepted.{
  Yields-Accepted, Yields-Rejected, FilesExist-snoc, FilesExist-if,
}
use builder_playground.Manifest.Spammer.{spam, contender_shape}
use builder_playground.Recipe.OpStack.{apply}
use builder_playground.Recipe.OpStack.Parts.{
  LocalBuilder, nobody, reth, rbuilder, op_recipe, flashblocks_rpc_shape, op_batcher_shape,
  op_node_shape, websocket_proxy_shape, bproxy_shape, op_reth_shape, op_rbuilder_shape,
  rollup_boost_shape,
}
use builder_playground.Recipe.OpStack.Valid.{
  op_shapes, op-Yields, boosted, after_builder, after_rollup_boost, l1_and_geth,
}

-- What `Validate` says: the proxy of the websockets and flashblocks-rpc need rollup-boost, which is
-- there if there is a builder, and the proxy needs its flashblocks port.
abbrev pub verdict : LocalBuilder → Bool → Bool → Result Error (Unit {0})
verdict nobody flashblocks true = err (not_defined "websocket-proxy" "rollup-boost")
verdict nobody true false = err (not_defined "flashblocks-rpc" "rollup-boost")
verdict _ false true = err (no_such_port "websocket-proxy" "rollup-boost" "flashblocks")
verdict _ _ _ = ok tt

op_shapes-verdict :
    (b : LocalBuilder) (flashblocks websocket enabled : Bool) (artifact : String)
    → let shapes = op_shapes b flashblocks websocket enabled artifact in
      shape_services shapes shapes ≡ verdict b flashblocks websocket
op_shapes-verdict nobody true true true artifact = refl
op_shapes-verdict nobody true true false artifact = refl
op_shapes-verdict nobody true false true artifact = refl
op_shapes-verdict nobody true false false artifact = refl
op_shapes-verdict nobody false true true artifact = refl
op_shapes-verdict nobody false true false artifact = refl
op_shapes-verdict nobody false false true artifact = refl
op_shapes-verdict nobody false false false artifact = refl
op_shapes-verdict reth true true true artifact = refl
op_shapes-verdict reth true true false artifact = refl
op_shapes-verdict reth true false true artifact = refl
op_shapes-verdict reth true false false artifact = refl
op_shapes-verdict reth false true true artifact = refl
op_shapes-verdict reth false true false artifact = refl
op_shapes-verdict reth false false true artifact = refl
op_shapes-verdict reth false false false artifact = refl
op_shapes-verdict rbuilder true true true artifact = refl
op_shapes-verdict rbuilder true true false artifact = refl
op_shapes-verdict rbuilder true false true artifact = refl
op_shapes-verdict rbuilder true false false artifact = refl
op_shapes-verdict rbuilder false true true artifact = refl
op_shapes-verdict rbuilder false true false artifact = refl
op_shapes-verdict rbuilder false false true artifact = refl
op_shapes-verdict rbuilder false false false artifact = refl

-- The files of `ArtifactsBuilder` that the services mount.
abbrev pub op_files : List String
op_files =
    "genesis.json" ∷ "jwtsecret" ∷ "testnet" ∷ "data_validator" ∷ "l2-genesis.json" ∷ "rollup.json"
    ∷ []

op_shapes-FilesExist :
    (out : Output) (b : LocalBuilder) (flashblocks websocket enabled : Bool) (artifact : String)
    → All (λ p. stat out p ≡ found) op_files
    → stat out artifact ≡ found
    → FilesExist out (op_shapes b flashblocks websocket enabled artifact)
op_shapes-FilesExist out b flashblocks websocket enabled artifact (g, (j, (t, (d, (l, (r, _))))))
      a =
    let s5 = after_builder b flashblocks (l1_and_geth artifact) in
    let s6 = if flashblocks then s5 ++ bproxy_shape b ∷ [] else s5 in
    let s7 = if websocket then s6 ++ websocket_proxy_shape ∷ [] else s6 in
    let s8 = after_rollup_boost b flashblocks s7 in
    let s9 = if flashblocks then s8 ++ flashblocks_rpc_shape websocket ∷ [] else s8 in
    let s10 = s9 ++ op_node_shape (boosted b) ∷ [] in
    let s11 = s10 ++ op_batcher_shape ∷ [] in
    let f5 = built b in
    let f6 =
      FilesExist-if out flashblocks _ s5 (FilesExist-snoc out s5 (bproxy_shape b) f5 (j, tt)) f5 in
    let f7 =
      FilesExist-if out websocket _ s6 (FilesExist-snoc out s6 websocket_proxy_shape f6 tt) f6 in
    let f8 = boost b s7 f7 in
    let f9 =
      FilesExist-if out flashblocks _ s8
        (FilesExist-snoc out s8 (flashblocks_rpc_shape websocket) f8 (j, (l, tt))) f8 in
    let f10 = FilesExist-snoc out s9 (op_node_shape (boosted b)) f9 (j, (r, tt)) in
    let f11 = FilesExist-snoc out s10 op_batcher_shape f10 tt in
    FilesExist-if out enabled _ s11
      (FilesExist-snoc out s11 (contender_shape "op-geth" true) f11 tt) f11
  where
    base : FilesExist out (l1_and_geth artifact)
    base = ((g, (j, tt)), ((t, (j, tt)), ((d, (t, tt)), ((l, (j, (a, tt))), tt))))

    built : (b : LocalBuilder) → FilesExist out (after_builder b flashblocks (l1_and_geth artifact))
    built nobody = base
    built reth = FilesExist-snoc out (l1_and_geth artifact) op_reth_shape base (j, (l, tt))
    built rbuilder =
        FilesExist-snoc out (l1_and_geth artifact) (op_rbuilder_shape flashblocks) base (j, (l, tt))

    boost :
        (b : LocalBuilder) (xs : List Shape)
        → FilesExist out xs
        → FilesExist out (after_rollup_boost b flashblocks xs)
    boost nobody xs f = f
    boost reth xs f = FilesExist-snoc out xs (rollup_boost_shape reth flashblocks) f (j, tt)
    boost rbuilder xs f = FilesExist-snoc out xs (rollup_boost_shape rbuilder flashblocks) f (j, tt)

All-stat :
    (out out' : Output) (xs : List String)
    → ((q : String) → stat out q ≡ found → stat out' q ≡ found)
    → All (λ p. stat out p ≡ found) xs
    → All (λ p. stat out' p ≡ found) xs
All-stat out out' [] keeps h = tt
All-stat out out' (x ∷ xs) keeps (p, h) = (keeps x p, All-stat out out' xs keeps h)

-- With its own builder or none, no builder url of the user's, whatever the other flags are, the OP
-- stack recipe builds a manifest without a panic, and `Validate` answers what a table of the flags
-- says: websocket-proxy and flashblocks-rpc without a builder lack rollup-boost, websocket-proxy
-- with a builder and without flashblocks lacks the flashblocks port of rollup-boost, and every
-- other manifest is accepted. The six artifacts that it mounts are found, the enode key can be
-- drawn and its node id can stand between quotes, no bootnode is set, and contender has no extra
-- arguments and no target of its own.
pub apply-verdict :
    (keys : Keys) (fork : Option ℕ) (time duration : ℕ) (ctx : ExContext) (out : Output)
    (out' : Output) (enode : EnodeAddr) (b : LocalBuilder)
    (flashblocks websocket overlay enabled : Bool)
    → IsQuotable (keys.node_id enode.priv_key)
    → get_enode_addr keys.valid_key out ≡ ok (enode, out')
    → ctx.bootnode ≡ none
    → ctx.contender ≡ spam enabled ""
    → All (λ p. stat out p ≡ found) op_files
    → (m : Manifest) × (apply keys
          (op_recipe b flashblocks websocket overlay fork time duration)
          ctx
          out
        ≡ ok m)
      × (validate m ≡ verdict b flashblocks websocket)
apply-verdict keys fork time duration ctx out out' enode b flashblocks websocket overlay enabled q
      drawn no_boot e files =
    let y =
      op-Yields keys fork time duration ctx out out' enode b flashblocks websocket overlay enabled q
        drawn no_boot e in
    let said = op_shapes-verdict b flashblocks websocket enabled enode.artifact in
    elim (Result-cases (verdict b flashblocks websocket)) [
      | inl (tt, good) ↦
          let (_, _, _, key) = get_enode_addr_effect keys.valid_key out drawn in
          let (m, r, v) = Yields-Accepted y (said ∙ good) (
            op_shapes-FilesExist out' b flashblocks websocket enabled enode.artifact
              (All-stat out out' op_files (get_enode_addr_keeps keys.valid_key out drawn) files)
              key) in
          (m, r, v ∙ sym good)
      | inr (_, bad) ↦ let (m, r, v) = Yields-Rejected y (said ∙ bad) in (m, r, v ∙ sym bad)
    ]
