-- ===== src/Recipe/Lone/Valid.antt =====
-- playground/recipe_l1.go against `Validate` of playground/manifest.go.
use builder_playground.Prelude.{
  String, Bool, true, false, Option, none, some, List, [], ◌∷◌, ◌++◌, ◌≡◌, refl, eqb, if◌then◌else◌,
  Bool-cases, inl, inr, ok,
}
use builder_playground.Output.{Output, found, stat}
use builder_playground.Service.Literals.{scan-literal}
use builder_playground.Context.{ExContext}
use builder_playground.Catalog.{Keys}
use builder_playground.Manifest.{Manifest}
use builder_playground.Manifest.Shapes.{Shape, shape_services, FilesExist}
use builder_playground.Manifest.Yields.{
  Holds, Yields, Yields-ok, Yields-add, Yields-bind, Holds-new,
}
use builder_playground.Manifest.Spammer.{spam, contender_shape, contender-Yields}
use builder_playground.Manifest.Accepted.{Accepted, Yields-Accepted, FilesExist-snoc, FilesExist-if}
use builder_playground.Recipe.Lone.{L1Recipe, secondary_url, add_cl_proxy, add_mev_boost, apply}
use builder_playground.Recipe.Lone.Parts.{
  el_shape, cl_proxy_shape, mev_boost_shape, relay_shape, beacon_shape, validator_shape,
  KeyIsQuotable, secondary_url-IsLiteral, reth_el-outcome, cl_proxy-outcome, mev_boost-outcome,
  relay-outcome, beacon-outcome, validator-outcome,
}

module _ (keys : Keys) (ctx : ExContext) where
  module _ (l : L1Recipe) {m : Manifest} {shapes : List Shape} (h : Holds m ctx shapes) where
    cl_proxy-Yields :
        Yields
          (add_cl_proxy keys l m)
          ctx
          (if eqb l.secondary_el_port 0 then shapes else shapes ++ cl_proxy_shape ∷ [])
    cl_proxy-Yields = elim (Bool-cases (eqb l.secondary_el_port 0)) [
      | inl e ↦ rw e (Yields-ok h)
      | inr e ↦ rw e (
          Yields-add keys "cl-proxy" _ h (
            cl_proxy-outcome keys ctx (secondary_url l.secondary_el_port)
              (scan-literal _ (secondary_url-IsLiteral l.secondary_el_port))))
    ]

    mev_boost-Yields :
        KeyIsQuotable keys.relay_key
        → Yields (add_mev_boost keys l m) ctx (
            if l.use_separate_mev_boost
            then (shapes ++ relay_shape "mev-boost-relay" l.use_reth_for_validation ∷ [])
              ++ mev_boost_shape keys.relay_key ∷ []
            else shapes ++ relay_shape "mev-boost" l.use_reth_for_validation ∷ [])
    mev_boost-Yields q = elim (Bool-cases l.use_separate_mev_boost) [
      | inl e ↦ rw e (
          Yields-bind _ _
            (Yields-add keys "mev-boost-relay" _ h
              (relay-outcome keys ctx "mev-boost-relay" l.use_reth_for_validation))
            λ m1 h1.
              Yields-add keys "mev-boost" _ h1 (mev_boost-outcome keys ctx keys.relay_key refl q))
      | inr e ↦ rw e (
          Yields-add keys "mev-boost" _ h
            (relay-outcome keys ctx "mev-boost" l.use_reth_for_validation))
    ]

-- The services of the recipe, by the settings that decide them.
abbrev l1_chain : Bool → List Shape
l1_chain no_proxy =
    ((if no_proxy then el_shape ∷ [] else el_shape ∷ cl_proxy_shape ∷ [])
      ++ beacon_shape no_proxy ∷ [])
    ++ validator_shape ∷ []

abbrev l1_relayed : Bool → Bool → Bool → Option String → List Shape
l1_relayed no_proxy separate validate_blocks key =
    if separate
    then (l1_chain no_proxy ++ relay_shape "mev-boost-relay" validate_blocks ∷ [])
      ++ mev_boost_shape key ∷ []
    else l1_chain no_proxy ++ relay_shape "mev-boost" validate_blocks ∷ []

abbrev pub l1_shapes : Bool → Bool → Bool → Bool → Option String → List Shape
l1_shapes no_proxy separate validate_blocks enabled key =
    let relayed = l1_relayed no_proxy separate validate_blocks key in
    if enabled then relayed ++ contender_shape "el" false ∷ [] else relayed

pub l1-Yields :
    (keys : Keys) (l : L1Recipe) (ctx : ExContext) (out : Output) (enabled : Bool)
    → KeyIsQuotable keys.relay_key
    → ctx.contender ≡ spam enabled ""
    → Yields
        (apply keys l ctx out)
        (record ctx { output = out })
        (l1_shapes
          (eqb l.secondary_el_port 0)
          l.use_separate_mev_boost
          l.use_reth_for_validation
          enabled
          keys.relay_key)
unfolding apply
l1-Yields keys l ctx out enabled q e =
    let c = record ctx { output = out } in
    Yields-bind _ _ (Yields-add keys "el" _ (Holds-new ctx out) (reth_el-outcome keys c _)) λ m1 h1.
      Yields-bind _ _ (cl_proxy-Yields keys c l h1) λ m2 h2.
        Yields-bind _ _
          (Yields-add keys "beacon" _ h2 (beacon-outcome keys c (eqb l.secondary_el_port 0)))
          λ m3 h3.
            Yields-bind _ _ (Yields-add keys "validator" _ h3 (validator-outcome keys c)) λ m4 h4.
              Yields-bind _ _ (mev_boost-Yields keys c l h4 q)
                λ m5 h5. contender-Yields keys c enabled h5 e

l1_shapes-ok :
    (no_proxy separate validate_blocks enabled : Bool) (key : Option String)
    → let shapes = l1_shapes no_proxy separate validate_blocks enabled key in
      shape_services shapes shapes ≡ ok tt
l1_shapes-ok true true true true none = refl
l1_shapes-ok true true true true (some k) = refl
l1_shapes-ok true true true false none = refl
l1_shapes-ok true true true false (some k) = refl
l1_shapes-ok true true false true none = refl
l1_shapes-ok true true false true (some k) = refl
l1_shapes-ok true true false false none = refl
l1_shapes-ok true true false false (some k) = refl
l1_shapes-ok true false true true k = refl
l1_shapes-ok true false true false k = refl
l1_shapes-ok true false false true k = refl
l1_shapes-ok true false false false k = refl
l1_shapes-ok false true true true none = refl
l1_shapes-ok false true true true (some k) = refl
l1_shapes-ok false true true false none = refl
l1_shapes-ok false true true false (some k) = refl
l1_shapes-ok false true false true none = refl
l1_shapes-ok false true false true (some k) = refl
l1_shapes-ok false true false false none = refl
l1_shapes-ok false true false false (some k) = refl
l1_shapes-ok false false true true k = refl
l1_shapes-ok false false true false k = refl
l1_shapes-ok false false false true k = refl
l1_shapes-ok false false false false k = refl

-- The files that the components of the recipe mount.
abbrev pub L1Files : Output → Type 0
L1Files out =
    (stat out "genesis.json" ≡ found)
    × (stat out "jwtsecret" ≡ found)
    × (stat out "testnet" ≡ found)
    × (stat out "data_validator" ≡ found)

pub l1_shapes-FilesExist :
    (out : Output) (no_proxy separate validate_blocks enabled : Bool) (key : Option String)
    → L1Files out
    → FilesExist out (l1_shapes no_proxy separate validate_blocks enabled key)
l1_shapes-FilesExist out no_proxy separate validate_blocks enabled key
      (genesis, jwt, testnet, vals) =
    FilesExist-if out enabled _ _ (FilesExist-snoc out _ (contender_shape "el" false) relayed tt)
      relayed
  where
    chain : FilesExist out (l1_chain no_proxy)
    chain =
        FilesExist-snoc out _ validator_shape
          (FilesExist-snoc out _ (beacon_shape no_proxy)
            (FilesExist-if out no_proxy (el_shape ∷ []) (el_shape ∷ cl_proxy_shape ∷ [])
              ((genesis, (jwt, tt)), tt) ((genesis, (jwt, tt)), (tt, tt)))
            (testnet, (jwt, tt)))
          (vals, (testnet, tt))

    relayed : FilesExist out (l1_relayed no_proxy separate validate_blocks key)
    relayed =
        FilesExist-if out separate _ _
          (FilesExist-snoc out _ (mev_boost_shape key)
            (FilesExist-snoc out _ (relay_shape "mev-boost-relay" validate_blocks) chain tt) tt)
          (FilesExist-snoc out _ (relay_shape "mev-boost" validate_blocks) chain tt)

-- Whatever the flags of the L1 recipe are, its manifest is built without a panic and `Validate`
-- accepts it, if the four artifacts that it mounts are found, contender has no extra arguments and
-- no target of its own, and the relay's key, if there is one, can stand between quotes.
pub l1-Accepted :
    (keys : Keys) (l : L1Recipe) (ctx : ExContext) (out : Output) (enabled : Bool)
    → KeyIsQuotable keys.relay_key
    → ctx.contender ≡ spam enabled ""
    → L1Files out
    → Accepted (apply keys l ctx out)
l1-Accepted keys l ctx out enabled q e files =
    Yields-Accepted (l1-Yields keys l ctx out enabled q e)
      (l1_shapes-ok (eqb l.secondary_el_port 0) l.use_separate_mev_boost l.use_reth_for_validation
        enabled keys.relay_key)
      (l1_shapes-FilesExist out (eqb l.secondary_el_port 0) l.use_separate_mev_boost
        l.use_reth_for_validation enabled keys.relay_key files)
