-- ===== src/Command/Cook.antt =====
-- main.go with the recipes: what `cook` does on the artifacts that `Build` makes.
use builder_playground.Prelude.{
  String, Bool, true, false, none, some, List, [], ◌∷◌, ◌≡◌, refl, sym, ap, ◌∙◌, ◌⊕◌, ok, ok_inj,
  if◌then◌else◌, GoMap, Bool-cases, inl, inr, Result,
}
use builder_playground.Output.{Output, write_file}
use builder_playground.Output.Data.{Disk}
use builder_playground.Context.{ExContext, unmarshal_level}
use builder_playground.Service.{Service, service_code}
use builder_playground.Service.FirstPass.{Panic}
use builder_playground.Catalog.{Keys}
use builder_playground.Genesis.{ArtifactsBuilder}
use builder_playground.Genesis.Alloc.{StateDb}
use builder_playground.Manifest.{Manifest, no_ready_check, validate}
use builder_playground.Manifest.Spammer.{spam}
use builder_playground.Manifest.Shapes.{Shape}
use builder_playground.Manifest.Yields.{Yields}
use builder_playground.Recipe.Lone
use builder_playground.Recipe.Lone.{L1Recipe}
use builder_playground.Recipe.Lone.Parts.{KeyIsQuotable}
use builder_playground.Recipe.Lone.Valid.{l1-Yields, l1-Accepted, L1Files}
use builder_playground.Recipe.BuilderNet
use builder_playground.Recipe.BuilderNet.{BuilderNetRecipe}
use builder_playground.Recipe.BuilderNet.Valid.{net-Yields, plain-Accepted, mock_proxy-Rejected}
use builder_playground.Artifacts.{Libraries, build}
use builder_playground.Artifacts.Complete.{GivesKeys}
use builder_playground.Artifacts.Answers.{Works}
use builder_playground.Artifacts.Cooked.{build-Returns}
use builder_playground.Command.{
  Flags, Recipe, World, Event, wrote, returned, run_it, leveled, parsed, built, applied, validated,
  graphed, saved, scraped, with_service, prometheus, launched, context, parse_overrides,
}

-- The recipes of main.go. `Output` of the L1 recipe is an empty map.
abbrev pub l1 : Keys → L1Recipe → Recipe
l1 keys l = record { artifacts = Lone.artifacts l; apply = Lone.apply keys l; output = λ m. ok [] }

abbrev pub buildernet : Keys → BuilderNetRecipe → Recipe
buildernet keys n = record {
  artifacts = BuilderNet.artifacts n;
  apply = BuilderNet.apply keys n;
  output = BuilderNet.output n;
}

-- The builder of the recipe with what `runIt` sets.
abbrev pub builder_of : Flags → Recipe → ArtifactsBuilder
builder_of flags recipe = record recipe.artifacts {
  output_dir = flags.output;
  genesis_delay = flags.genesis_delay;
}

-- The files that a dry run writes behind the artifacts.
abbrev pub dry_files : Bool → List Event
dry_files with_prometheus =
    wrote "graph.dot"
    ∷ (wrote "manifest.json" ∷ (if with_prometheus then wrote "prometheus.yaml" ∷ [] else []))

prometheus-ok : (s : Service) × (prometheus ≡ ok s)
unfolding prometheus service_code
prometheus-ok = (_, refl)

module _ (world : World) (flags : Flags) (recipe : Recipe) where
  -- In a folder where everything can be written, a valid manifest is saved.
  applied-dry :
      (overrides : GoMap String) (m : Manifest)
      → flags.dry_run ≡ true
      → m.ctx.output.faults ≡ []
      → validate m ≡ ok tt
      → applied world flags recipe overrides (ok m)
        ≡ (dry_files flags.with_prometheus, returned none)
  unfolding applied validated graphed saved scraped with_service launched write_file
  applied-dry overrides m dry free valid =
      let (s, made) = prometheus-ok in
      elim (Bool-cases flags.with_prometheus) [
        | inl on ↦ rw (valid, free, on, dry, made) refl
        | inr off ↦ rw (valid, free, off, dry) refl
      ]

  -- Up to `Apply`, `runIt` runs on what the flags and the build give.
  run_it-applied :
      (level : String) (overrides : GoMap String) (out : Output)
      → unmarshal_level flags.log_level ≡ ok level
      → parse_overrides flags.with_overrides [] ≡ ok overrides
      → world.build (record recipe.artifacts {
        output_dir = flags.output;
        genesis_delay = flags.genesis_delay;
      })
        ≡ ok out
      → run_it world flags recipe
        ≡ applied world flags recipe overrides (recipe.apply (context world flags level out) out)
  unfolding run_it leveled parsed built
  run_it-applied level overrides out l o b = rw (l, o, b) refl

-- A manifest keeps the context that the recipe was given, with the output folder.
Yields-faults :
    {r : Result Panic Manifest} {ctx : ExContext} {shapes : List Shape} {m : Manifest}
    → Yields r ctx shapes
    → r ≡ ok m
    → m.ctx.output.faults ≡ ctx.output.faults
Yields-faults y e =
    ap (λ (x : Manifest). x.ctx.output.faults) (ok_inj (sym e ∙ y.returned))
    ∙ ap (λ (c : ExContext). c.output.faults) y.holds.ctx_eq

module _ {State : Type 0} (lib : Libraries) (db : StateDb State) (gives : GivesKeys lib)
    (keys : Keys) (world : World)
    (builds : (b : ArtifactsBuilder) (disk : Disk)
      → build lib db b ≡ ok disk
      → world.build b ≡ ok disk.folder)
    (flags : Flags) (level : String) (overrides : GoMap String)
    (has_level : unmarshal_level flags.log_level ≡ ok level)
    (has_overrides : parse_overrides flags.with_overrides [] ≡ ok overrides)
    (no_args : flags.contender_args ≡ []) (no_target : flags.contender_target ≡ "")
    (relay : KeyIsQuotable keys.relay_key) where
  spamming :
      (out : Output) → (context world flags level out).contender ≡ spam flags.contender_enabled ""
  spamming out = rw (no_args, no_target) refl

  -- What `Build` leaves for a recipe, and the trace of `runIt` from there.
  cooked :
      (recipe : Recipe)
      → Works lib db (builder_of flags recipe)
      → (out : Output) × L1Files out
        × (out.faults ≡ [])
        × (run_it world flags recipe
            ≡ applied world flags recipe overrides
                (recipe.apply (context world flags level out) out))
  cooked recipe works =
      let b = builder_of flags recipe in
      let r = build-Returns lib db gives b works in
      let ((genesis, (jwt, (testnet, (validator, _)))), (free, _)) = r.holds in
      let out = r.value.folder in
      (
        out,
        (genesis, jwt, testnet, validator),
        free,
        run_it-applied world flags recipe level overrides out has_level has_overrides
            (builds b r.value r.returned),
      )

  -- If `Build` is answered as `Works` says for the flags of both recipes, as many keys are generated
  -- as are asked for, the log level and the overrides of the command line can be read, contender has
  -- no extra arguments and no target of its own, and the relay's key, if there is one, can stand
  -- between quotes: then a dry run, which builds with `Build`, of the L1 recipe, and of the BuilderNet
  -- recipe without the mock proxy, whatever their other flags are, returns no error, and writes the
  -- graph, the manifest and, if it is asked for, the Prometheus configuration.
  pub cook-dry_run :
      (l : L1Recipe) (n : BuilderNetRecipe)
      → Works lib db (builder_of flags (l1 keys l))
      → Works lib db (builder_of flags (buildernet keys n))
      → flags.dry_run ≡ true
      → n.include_mock_proxy ≡ false
      → (run_it world flags (l1 keys l) ≡ (dry_files flags.with_prometheus, returned none))
        × (run_it world flags (buildernet keys n)
            ≡ (dry_files flags.with_prometheus, returned none))
  cook-dry_run l n works_l works_n dry off =
      let (out, files, free, runs) = cooked (l1 keys l) works_l in
      let ctx = context world flags level out in
      let enabled = flags.contender_enabled in
      let (m, made, valid) = l1-Accepted keys l ctx out enabled relay (spamming out) files in
      let kept = Yields-faults (l1-Yields keys l ctx out enabled relay (spamming out)) made in
      let (out', files', free', runs') = cooked (buildernet keys n) works_n in
      let ctx' = context world flags level out' in
      let (m', made', valid') =
        plain-Accepted keys n ctx' out' enabled relay (spamming out') files' off in
      let kept' = Yields-faults (net-Yields keys n ctx' out' enabled relay (spamming out')) made' in
      (
        runs
            ∙ ap (applied world flags (l1 keys l) overrides) made
            ∙ applied-dry world flags (l1 keys l) overrides m dry (kept ∙ free) valid,
        runs'
            ∙ ap (applied world flags (buildernet keys n) overrides) made'
            ∙ applied-dry world flags (buildernet keys n) overrides m' dry (kept' ∙ free') valid',
      )

  -- If `Build` is answered as `Works` says for these flags, as many keys are generated as are asked
  -- for, the log level and the overrides of the command line can be read, contender has no extra
  -- arguments and no target of its own, and the relay's key, if there is one, can stand between
  -- quotes: then, whatever else the flags are, `runIt` of the BuilderNet recipe with the mock proxy
  -- builds with `Build`, writes nothing behind the artifacts, runs nothing, and returns the error of
  -- `Validate`: the proxy waits for builder-hub to be healthy, and builder-hub has no ready check.
  pub cook-mock_proxy :
      (n : BuilderNetRecipe)
      → Works lib db (builder_of flags (buildernet keys n))
      → n.include_mock_proxy ≡ true
      → run_it world flags (buildernet keys n) ≡ (
        [],
        returned (
            some (
              "failed to validate manifest: "
              ⊕ world.message (no_ready_check "builder-hub-proxy" "builder-hub"))),
      )
  unfolding applied validated
  cook-mock_proxy n works on =
      let (out, _, _, runs) = cooked (buildernet keys n) works in
      let (m, made, refused) =
        mock_proxy-Rejected keys n (context world flags level out) out flags.contender_enabled relay
          (spamming out) on in
      runs
      ∙ ap (applied world flags (buildernet keys n) overrides) made
      ∙ ap (validated world flags (buildernet keys n) overrides m) refused
