-- ===== src/Artifacts/Complete.antt =====
-- The files that the recipes mount, after `Build` of playground/artifacts.go.
use builder_playground.Prelude.{
  ℕ, String, List, [], ◌∷◌, ◌≡◌, ok, raised, raised-eq-ok, length, Ensures, Ensures-bind, arith,
}
use builder_playground.Output.{Output, parents}
use builder_playground.Output.Effects.{AllFound}
use builder_playground.Output.Data.{Disk, SecretKey, bytes, write_data}
use builder_playground.Output.Written.{
  AllFound-Keeps, AllCertain, write_data-Grows, write_data-found, write_batch-AllCertain,
}
use builder_playground.Genesis.{ArtifactsBuilder, with_defaults, op_timestamp}
use builder_playground.Genesis.Alloc.{StateDb}
use builder_playground.Artifacts.{
  Libraries, L1Genesis, BeaconState, get_home_dir, clear, load_config, genesis_time_of, l1_genesis,
  l1_files, l2_genesis, l2_rollup, build_l1, build_l2, empty_disk, build_in, build,
}
use builder_playground.Artifacts.Config.{ConfigField}

-- The files of the L1 recipe, and those of the OP stack recipe.
abbrev pub mounted : List String
mounted =
    "genesis.json" ∷ "jwtsecret" ∷ "testnet" ∷ "data_validator" ∷ "l2-genesis.json" ∷ "rollup.json"
    ∷ []

abbrev l1_mounted : List String
l1_mounted = "genesis.json" ∷ "jwtsecret" ∷ "testnet" ∷ "data_validator" ∷ []

-- `DeterministicallyGenerateKeys` gives as many keys as it is asked for.
abbrev pub GivesKeys : Libraries → Type 0
GivesKeys lib = (n : ℕ) (keys : List SecretKey) → lib.generate_keys n ≡ ok keys → length keys ≡ n

module _ (lib : Libraries) (gives : GivesKeys lib) where
  l1_files-mounted :
      (config : List ConfigField) (state : BeaconState) (gen : L1Genesis) (priv : List SecretKey)
      (out : Output)
      → length priv ≡ 100
      → AllCertain out (l1_files lib config state gen priv)
      → AllFound out l1_mounted
  unfolding parents
  l1_files-mounted config state gen [] out many h = absurd (omega (arith, many))
  l1_files-mounted config state gen (key ∷ keys) out many
        ((testnet, _), (_, ((genesis, _), ((jwt, _), (_, (_, (_, (_, ((validator, _), _))))))))) =
      (genesis, (jwt, (testnet, (validator, tt))))

  build_l1-mounted :
      (b : ArtifactsBuilder) (genesis_time : ℕ) (gen : L1Genesis) (config : List ConfigField)
      (disk : Disk)
      → Ensures (λ d. AllFound d.folder l1_mounted) (build_l1 lib b genesis_time gen config disk)
  unfolding build_l1
  build_l1-mounted b genesis_time gen config disk =
      Ensures-bind (raised (lib.generate_keys 100)) _ λ priv h1.
        Ensures-bind (raised (lib.deposit_data priv)) _ λ deposits _.
          Ensures-bind
            (raised
              (lib.premined genesis_time b.apply_latest_l1_fork (lib.l1_block_hash gen) deposits))
            _
            λ state _. record {
              at = λ d h.
                  l1_files-mounted config state gen priv d.folder
                    (gives 100 priv (raised-eq-ok _ h1))
                    ((write_batch-AllCertain (l1_files lib config state gen priv) disk).at d h).1;
            }

  module _ {State : Type 0} (db : StateDb State) where
    build_l2-mounted :
        (b : ArtifactsBuilder) (timestamp : ℕ) (l1_hash : String) (disk : Disk)
        → AllFound disk.folder l1_mounted
        → Ensures (λ d. AllFound d.folder mounted) (build_l2 lib db b timestamp l1_hash disk)
    unfolding build_l2 parents
    build_l2-mounted b timestamp l1_hash disk before =
        Ensures-bind (l2_genesis lib db b timestamp) _ λ new_op_genesis _.
          Ensures-bind (l2_rollup lib db b timestamp l1_hash new_op_genesis) _ λ new_op_rollup _.
            Ensures-bind (write_data "l2-genesis.json" (bytes new_op_genesis) disk) _ λ d1 h1.
              record {
                at = λ d h.
                    let later = (write_data-Grows "rollup.json" (bytes new_op_rollup) d1).at d h in
                    let (genesis, _) =
                      (write_data-found "l2-genesis.json" (bytes new_op_genesis) disk).at d1 h1 in
                    let (rollup, _) =
                      (write_data-found "rollup.json" (bytes new_op_rollup) d1).at d h in
                    let (f1, (f2, (f3, (f4, _)))) =
                      AllFound-Keeps d1.folder d.folder l1_mounted later (
                        AllFound-Keeps disk.folder d1.folder l1_mounted
                          ((write_data-Grows "l2-genesis.json" (bytes new_op_genesis) disk).at d1
                            h1)
                          before) in
                    (f1, (f2, (f3, (f4, (later "l2-genesis.json" genesis, (rollup, tt))))));
              }

    build_in-mounted :
        (home_dir : String) (b : ArtifactsBuilder)
        → Ensures (λ d. AllFound d.folder mounted) (build_in lib db home_dir b)
    unfolding build_in
    build_in-mounted home_dir b =
        let time = genesis_time_of lib b in
        let start = empty_disk lib db b.output_dir home_dir in
        Ensures-bind (clear lib b.output_dir) _ λ _ _.
          Ensures-bind (load_config lib b) _ λ config _.
            Ensures-bind (l1_genesis lib time config) _ λ gen _.
              Ensures-bind (build_l1 lib b time gen config start) _ λ disk h.
                build_l2-mounted b (op_timestamp time) (lib.l1_block_hash gen) disk
                  ((build_l1-mounted b time gen config start).at disk h)

    pub build-mounted :
        (b : ArtifactsBuilder) → Ensures (λ d. AllFound d.folder mounted) (build lib db b)
    unfolding build
    build-mounted b =
        Ensures-bind (get_home_dir lib) _
          λ home_dir _. build_in-mounted home_dir (with_defaults home_dir b)
