-- ===== src/Artifacts/Cooked.antt =====
-- From `Build` of playground/artifacts.go to `Validate`: the recipes on the artifacts that were built.
use builder_playground.Prelude.{
  ℕ, Bool, true, Option, none, some, [], ◌∷◌, ◌++◌, ◌≡◌, refl, ok, Returns,
}
use builder_playground.Output.{Output, parents, EnodeAddr, get_enode_addr}
use builder_playground.Output.Effects.{AllFound}
use builder_playground.Output.Data.{Disk}
use builder_playground.Output.Free.{Free}
use builder_playground.Context.{ExContext}
use builder_playground.Catalog.{Keys}
use builder_playground.Genesis.{ArtifactsBuilder}
use builder_playground.Genesis.Alloc.{StateDb}
use builder_playground.Manifest.{Manifest, validate}
use builder_playground.Manifest.Spammer.{spam}
use builder_playground.Template.Laws.{IsQuotable}
use builder_playground.Recipe.OpStack
use builder_playground.Recipe.OpStack.Parts.{LocalBuilder, op_recipe}
use builder_playground.Recipe.OpStack.Verdict.{verdict, apply-verdict}
use builder_playground.Artifacts.{Libraries, build}
use builder_playground.Artifacts.Complete.{GivesKeys, mounted, build-mounted}
use builder_playground.Artifacts.Answers.{Works}
use builder_playground.Artifacts.Total.{build-Free}

module _ {State : Type 0} (lib : Libraries) (db : StateDb State) (gives : GivesKeys lib) where
  -- `Build` returns, and the six files and folders that the recipes mount are found in the output
  -- folder, if for its flags the system and the packages answer as `Works` says, and as many keys are
  -- generated as are asked for. `Works`: the home folder is known, folders can be made and removed,
  -- and no path is refused; the beacon configuration can be read and has only values that `convert`
  -- knows; the prefunded accounts are keys in hex; the dumped state can be decoded; keys, deposits
  -- and the premined state are given and encoded; the embedded files of the L2 chain are JSON, which
  -- can be written; the genesis that is written is read as a chain with Shanghai at genesis and
  -- balances of 256 bits; the state database can be opened and committed; and `types.NewBlock` keeps
  -- the time of a header.
  pub build-Returns :
      (b : ArtifactsBuilder)
      → Works lib db b
      → Returns (λ disk. AllFound disk.folder mounted × Free disk) (build lib db b)
  build-Returns b works =
      let r = build-Free lib db b works in
      record {
        value = r.value;
        returned = r.returned;
        holds = ((build-mounted lib gives db b).at r.value r.returned, r.holds);
      }

-- The first enode key that is drawn, and its file.
abbrev first_enode : EnodeAddr
first_enode = record { priv_key = 1; artifact = "enode-key-1.txt" }

abbrev with_enode : Output → Output
with_enode out = record out {
  enode_addr_seq = some 1;
  files = out.files ++ (parents "" "enode-key-1.txt" ++ "enode-key-1.txt" ∷ []);
}

drawn_first :
    (valid : ℕ → Bool) (disk : Disk)
    → Free disk
    → valid 1 ≡ true
    → get_enode_addr valid disk.folder ≡ ok (first_enode, with_enode disk.folder)
unfolding get_enode_addr
drawn_first valid disk (f, s) v = rw (s, v, f) refl

module _ {State : Type 0} (lib : Libraries) (db : StateDb State) (gives : GivesKeys lib)
    (keys : Keys) (b : ArtifactsBuilder) (works : Works lib db b) (ctx : ExContext) (enabled : Bool)
    (contender : ctx.contender ≡ spam enabled "") where
  -- On artifacts that `Build` made, answered as `Works` says and with as many keys as it asked for,
  -- the OP stack recipe, with its own builder or none, no builder url of the user's, and any other
  -- flags, builds a manifest to which `Validate` answers what the table of the flags says, if 1 is a
  -- private key of the curve whose node id can stand between quotes, no bootnode is set, and
  -- contender has no extra arguments and no target of its own.
  pub build-verdict :
      (fork : Option ℕ) (time duration : ℕ) (o : LocalBuilder)
      (flashblocks websocket overlay : Bool)
      → keys.valid_key 1 ≡ true
      → IsQuotable (keys.node_id 1)
      → ctx.bootnode ≡ none
      → (disk : Disk) × (build lib db b ≡ ok disk)
        × ((m : Manifest) × (OpStack.apply keys
                (op_recipe o flashblocks websocket overlay fork time duration)
                ctx
                disk.folder
              ≡ ok m)
            × (validate m ≡ verdict o flashblocks websocket))
  build-verdict fork time duration o flashblocks websocket overlay valid quotable no_boot =
      let r = build-Returns lib db gives b works in
      let (files, free) = r.holds in
      (
        r.value,
        r.returned,
        apply-verdict keys fork time duration ctx r.value.folder (with_enode r.value.folder)
            first_enode o flashblocks websocket overlay enabled quotable
            (drawn_first keys.valid_key r.value free valid) no_boot contender files,
      )
