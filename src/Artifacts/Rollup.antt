-- ===== src/Artifacts/Rollup.antt =====
-- The two files of the L2 chain that `Build` of playground/artifacts.go writes: the rollup configuration
-- speaks of the genesis that stands beside it.
use builder_playground.Prelude.{
  ℕ, String, Option, none, some, List, [], ◌∷◌, ◌≡◌, refl, ap, ◌∙◌, ok, err, Result, raised-eq-ok,
  decimal, lookup, Ensures, Ensures-bind,
}
use builder_playground.Prelude.Dict.Laws.{lookup-insert, lookup-insert_other}
use builder_playground.Output.Data.{Disk, write_data, write_raw}
use builder_playground.Output.Written.{write_raw-Wrote}
use builder_playground.Genesis.{
  Json, number, text, object, Fields, merge_map, wrap, ArtifactsBuilder, fork_time, genesis_input,
  rollup_input, override_json,
}
use builder_playground.Genesis.Merge.{IsMap}
use builder_playground.Genesis.Paths.{get_path, Along, merged-path}
use builder_playground.Genesis.Block.{Header}
use builder_playground.Genesis.Alloc.{StateDb, Failure, to_op_block}
use builder_playground.Artifacts.{
  Libraries, op_block, l2_genesis, addresses_of, prefunded_accounts, l2_rollup, build_l2,
}

abbrev pub l2_time_path : List String
l2_time_path = "genesis" ∷ "l2_time" ∷ []

abbrev pub l2_hash_path : List String
l2_hash_path = "genesis" ∷ "l2" ∷ "hash" ∷ []

abbrev pub l1_hash_path : List String
l1_hash_path = "genesis" ∷ "l1" ∷ "hash" ∷ []

abbrev pub block_time_path : List String
block_time_path = "block_time" ∷ []

-- What stands in the two files: the genesis has the time, its block is `header`, and the rollup file
-- has its hash, the hash of the L1 block, the time in seconds and the block time.
pub record Agree (lib : Libraries) (block_time timestamp : ℕ) (l1_hash : String) (header : Header)
    (genesis rollup : Fields) : Type 0 where
  pub genesis_time :
      get_path ("timestamp" ∷ []) (some (object genesis)) ≡ some (text (lib.hex timestamp))
  pub l2_time : get_path l2_time_path (some (object rollup)) ≡ some (number (decimal timestamp))
  pub l2_hash : get_path l2_hash_path (some (object rollup)) ≡ some (text (lib.header_hash header))
  pub l1_hash_eq : get_path l1_hash_path (some (object rollup)) ≡ some (text l1_hash)
  pub block_time_eq :
      get_path block_time_path (some (object rollup)) ≡ some (number (decimal block_time))

module _ (hex : ℕ → String) (addresses : List String) (timestamp : ℕ) (before : Fields) where
  genesis_timestamp :
      (fork : Option ℕ)
      → get_path
          ("timestamp" ∷ [])
          (some (object (merge_map (genesis_input hex addresses fork timestamp) before)))
        ≡ some (text (hex timestamp))
  unfolding genesis_input merge_map
  genesis_timestamp none =
      merged-path ("timestamp" ∷ []) (some (object (genesis_input hex addresses none timestamp)))
        (some (object before)) (λ _. refl) (((refl, tt), (tt, tt)), tt) refl
  genesis_timestamp (some time) =
      merged-path ("timestamp" ∷ [])
        (some (object (genesis_input hex addresses (some time) timestamp))) (some (object before))
        (λ _. refl) (((refl, (refl, tt)), ((refl, tt), (tt, tt))), tt) refl

-- What the rollup file is merged from has a value at the end of a path.
abbrev Sets : Fields → List String → Json → Type 0
Sets src keys leaf =
    Along keys (some (object src)) × (get_path keys (some (object src)) ≡ some leaf)

module _ (l1_hash l2_hash : String) (b : ArtifactsBuilder) (timestamp : ℕ) where
  -- The four values that the rollup file gets.
  rollup-Sets :
      (fork : Option ℕ)
      → Sets
          (rollup_input l1_hash l2_hash b fork timestamp)
          l2_time_path
          (number (decimal timestamp))
        × Sets (rollup_input l1_hash l2_hash b fork timestamp) l2_hash_path (text l2_hash)
        × Sets (rollup_input l1_hash l2_hash b fork timestamp) l1_hash_path (text l1_hash)
        × Sets
            (rollup_input l1_hash l2_hash b fork timestamp)
            block_time_path
            (number (decimal b.op_block_time))
  unfolding rollup_input
  rollup-Sets fork = (
    ((maps fork, (((refl, (refl, tt)), ((refl, tt), (tt, tt))), tt)), refl),
    (
      (maps fork, (((refl, (refl, tt)), ((refl, tt), (tt, tt))), (((refl, tt), (tt, tt)), tt))),
      refl,
    ),
    (
      (maps fork, (((refl, (refl, tt)), ((refl, tt), (tt, tt))), (((refl, tt), (tt, tt)), tt))),
      refl,
    ),
    ((maps fork, tt), refl),
  )
    where
      maps : (fork : Option ℕ) → IsMap (rollup_input l1_hash l2_hash b fork timestamp)
      maps none = ((refl, (refl, tt)), ((refl, tt), (tt, tt)))
      maps (some time) = ((refl, (refl, (refl, tt))), ((refl, (refl, tt)), ((refl, tt), (tt, tt))))

module _ (unmarshal : String → Result String Fields) (marshal : Fields → Result String String) where
  -- The text that `overrideJSON` gives is the merge's.
  override_json-merged :
      (content : String) (overrides : Fields)
      → Ensures
          (λ t. (original : Fields) × (marshal (merge_map overrides original) ≡ ok t))
          (override_json unmarshal marshal content overrides)
  unfolding override_json merge_map
  override_json-merged content overrides =
      Ensures-bind (wrap "failed to unmarshal original JSON: " (unmarshal content)) _ λ original _.
        record { at = λ t h. (original, wrap-eq-ok (marshal (merge_map overrides original)) h) }
    where
      wrap-eq-ok :
          (r : Result String String) {t : String}
          → wrap "failed to marshal modified JSON: " r ≡ ok t
          → r ≡ ok t
      wrap-eq-ok (ok a) h = h
      wrap-eq-ok (err e) h = cc

op_block-eq-ok :
    (r : Result Failure Header) {header : Header} → op_block r ≡ ok header → r ≡ ok header
op_block-eq-ok (ok a) h = cc
op_block-eq-ok (err e) h = cc

module _ {State : Type 0} (lib : Libraries) (db : StateDb State) (b : ArtifactsBuilder)
    (timestamp : ℕ) (l1_hash : String) where
  -- The two texts, and what they stand for.
  abbrev pub Pair : String → String → Type 0
  Pair genesis_text rollup_text =
      (header : Header) × (genesis : Fields) × (rollup : Fields) × (to_op_block db lib.geth
          lib.genesis_codec genesis_text
        ≡ ok header)
      × (lib.marshal genesis ≡ ok genesis_text)
      × (lib.marshal rollup ≡ ok rollup_text)
      × Agree lib b.op_block_time timestamp l1_hash header genesis rollup

  l2_genesis-timestamp :
      Ensures
        (λ t.
          (genesis : Fields) × (lib.marshal genesis ≡ ok t)
          × (get_path ("timestamp" ∷ []) (some (object genesis)) ≡ some (text (lib.hex timestamp))))
        (l2_genesis lib db b timestamp)
  unfolding l2_genesis
  l2_genesis-timestamp = Ensures-bind (addresses_of lib prefunded_accounts) _ λ addresses _.
      record {
        at = λ t h.
            let input = genesis_input lib.hex addresses (fork_time b timestamp) timestamp in
            let (original, e) =
              (override_json-merged lib.unmarshal lib.marshal lib.op_genesis input).at t
                (raised-eq-ok _ h) in
            (
              merge_map input original,
              e,
              genesis_timestamp lib.hex addresses timestamp original (fork_time b timestamp),
            );
      }

  l2_rollup-Pair :
      (genesis : Fields) (genesis_text : String)
      → lib.marshal genesis ≡ ok genesis_text
      → get_path ("timestamp" ∷ []) (some (object genesis)) ≡ some (text (lib.hex timestamp))
      → Ensures (Pair genesis_text) (l2_rollup lib db b timestamp l1_hash genesis_text)
  unfolding l2_rollup merge_map
  l2_rollup-Pair genesis genesis_text m time =
      Ensures-bind (op_block (to_op_block db lib.geth lib.genesis_codec genesis_text)) _
        λ header h1. record {
          at = λ t h.
              let fork = fork_time b timestamp in
              let input = rollup_input l1_hash (lib.header_hash header) b fork timestamp in
              let (original, e) =
                (override_json-merged lib.unmarshal lib.marshal lib.op_rollup_config input).at t
                  (raised-eq-ok _ h) in
              let (s1, s2, s3, s4) =
                rollup-Sets l1_hash (lib.header_hash header) b timestamp fork in
              let old = some (object original) in
              (
                header,
                genesis,
                merge_map input original,
                op_block-eq-ok _ h1,
                m,
                e,
                record {
                  genesis_time = time;
                  l2_time =
                      merged-path l2_time_path (some (object input)) old (λ _. refl) s1.0 s1.1;
                  l2_hash =
                      merged-path l2_hash_path (some (object input)) old (λ _. refl) s2.0 s2.1;
                  l1_hash_eq =
                      merged-path l1_hash_path (some (object input)) old (λ _. refl) s3.0 s3.1;
                  block_time_eq =
                      merged-path block_time_path (some (object input)) old (λ _. refl) s4.0 s4.1;
                },
              );
        }

  -- When `Build` has written the files of the L2 chain, the rollup file has the hash of the block
  -- that `toOpBlock` makes of the genesis file beside it, the hash of the L1 block, the block time,
  -- and in seconds the time that the genesis file has in hex.
  pub build_l2-Agree :
      (disk d : Disk)
      → build_l2 lib db b timestamp l1_hash disk ≡ ok d
      → (genesis_text : String) × (rollup_text : String) × (lookup "l2-genesis.json" d.contents
          ≡ some genesis_text)
        × (lookup "rollup.json" d.contents ≡ some rollup_text)
        × Pair genesis_text rollup_text
  unfolding build_l2 write_data
  build_l2-Agree disk d h = (all_of disk).at d h
    where
      all_of :
          (disk : Disk)
          → Ensures
              (λ d.
                (genesis_text : String) × (rollup_text : String) × (lookup "l2-genesis.json"
                    d.contents
                  ≡ some genesis_text)
                × (lookup "rollup.json" d.contents ≡ some rollup_text)
                × Pair genesis_text rollup_text)
              (build_l2 lib db b timestamp l1_hash disk)
      all_of disk = Ensures-bind (l2_genesis lib db b timestamp) _ λ genesis_text h1.
          Ensures-bind (l2_rollup lib db b timestamp l1_hash genesis_text) _ λ rollup_text h2.
            Ensures-bind (write_raw "l2-genesis.json" disk genesis_text) _ λ d1 h3. record {
              at = λ d h.
                  let (genesis, m, time) = l2_genesis-timestamp.at genesis_text h1 in
                  let (_, _, c1) = (write_raw-Wrote "l2-genesis.json" disk genesis_text).at d1 h3 in
                  let (_, _, c2) = (write_raw-Wrote "rollup.json" d1 rollup_text).at d h in
                  (
                    genesis_text,
                    rollup_text,
                    ap (lookup "l2-genesis.json") c2
                        ∙ lookup-insert_other "rollup.json" "l2-genesis.json" rollup_text
                            d1.contents refl
                        ∙ ap (lookup "l2-genesis.json") c1
                        ∙ lookup-insert "l2-genesis.json" genesis_text disk.contents,
                    ap (lookup "rollup.json") c2
                        ∙ lookup-insert "rollup.json" rollup_text d1.contents,
                    (l2_rollup-Pair genesis genesis_text m time).at rollup_text h2,
                  );
            }
