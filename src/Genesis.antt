-- ===== src/Genesis.antt =====
-- playground/artifacts.go: `ArtifactsBuilder`, the times of the L2 chain, and the overrides of its
-- genesis and its rollup configuration (`overrideJSON`, `mergeMap`).
pub mod Merge
pub mod Times
pub mod Block
pub mod Alloc
pub mod Paths
use builder_playground.Prelude.{
  ℕ, String, Bool, true, false, Option, none, some, List, [], ◌∷◌, ◌+◌, ◌*◌, ◌%◌, ◌^◌, ◌⊕◌, ◌==◌,
  if◌then◌else◌, ltb, eqb, decimal, Result, ok, err, ◌>>=◌,
}

-- Values of JSON; a number is its text. An object is the list of its fields.
mutual
  pub data Json : Type 0 where
    null : Json
    boolean : Bool → Json
    number text : String → Json
    array : Items → Json
    object : Fields → Json

  pub data Items : Type 0 where
    no_items : Items
    item : Json → Items → Items

  pub data Fields : Type 0 where
    end : Fields
    field : String → Json → Fields → Fields

-- `dst[key]`
abbrev pub get_field : String → Fields → Option Json
get_field key end = none
get_field key (field k v fs) = if k == key then some v else get_field key fs

-- `dst[key] = value`
unfoldable pub put_field : String → Json → Fields → Fields
put_field key value end = field key value end
put_field key value (field k v fs) =
    let later = put_field key value fs in if k == key then field key value fs else field k v later

-- `mergeMap`, and what it writes for one key; the value of the source is the last argument, since the
-- recursion goes into it.
unfoldable mutual
  unfolding put_field

  pub merge_map : Fields → Fields → Fields
  merge_map end dst = dst
  merge_map (field key src_val src) dst =
      merge_map src (put_field key (merge_value src_val (get_field key dst)) dst)

  pub merge_value : Json → Option Json → Json
  merge_value (object src) (some (object dst)) = object (merge_map src dst)
  merge_value src_val _ = src_val

-- `ArtifactsBuilder`
pub record ArtifactsBuilder : Type 0 where
  pub output_dir : String
  pub apply_latest_l1_fork : Bool
  pub genesis_delay : ℕ
  pub apply_latest_l2_fork : Option ℕ
  pub op_block_time : ℕ

abbrev pub minimum_genesis_delay : ℕ
minimum_genesis_delay = 10

-- `NewArtifactsBuilder`
unfoldable pub new_artifacts_builder : ArtifactsBuilder
new_artifacts_builder = record {
  output_dir = "";
  apply_latest_l1_fork = false;
  genesis_delay = minimum_genesis_delay;
  apply_latest_l2_fork = none;
  op_block_time = 2;
}

-- The start of `Build`: the default folder and the smallest delay.
unfoldable pub with_defaults : String → ArtifactsBuilder → ArtifactsBuilder
with_defaults home_dir b = record b {
  output_dir = if b.output_dir == "" then home_dir ⊕ "/devnet" else b.output_dir;
  genesis_delay =
      if ltb b.genesis_delay minimum_genesis_delay then minimum_genesis_delay else b.genesis_delay;
}

-- The text that takes the place of `{{.LatestForkEpoch}}` in config.yaml.
unfoldable pub latest_fork_epoch : ArtifactsBuilder → String
latest_fork_epoch b = if b.apply_latest_l1_fork then "0" else "18446744073709551615"

abbrev pub word : ℕ
word = 2 ^ 64

unfoldable pub op_timestamp : ℕ → ℕ
op_timestamp genesis_time = (genesis_time + 2) % word

-- The fork time: none, the genesis, or a number of blocks after it.
unfoldable pub fork_time : ArtifactsBuilder → ℕ → Option ℕ
fork_time b timestamp = elim b.apply_latest_l2_fork [
  | none ↦ none
  | some blocks ↦
      some (if eqb blocks 0 then 0 else (timestamp + b.op_block_time * blocks % word) % word)
]

abbrev pub fork_config : Option ℕ → Fields → Fields
fork_config none fields = fields
fork_config (some time) fields =
    field "config"
      (object (
        field "pragueTime" (number (decimal time))
          (field "isthmusTime" (number (decimal time)) end)))
      fields

abbrev pub prefunded : List String → Fields
prefunded [] = end
prefunded (address ∷ addresses) =
    field address
      (object (field "balance" (text "0x10000000000000000000000") (field "nonce" (text "0x1") end)))
      (prefunded addresses)

-- The overrides of the L2 genesis; `hex` is `hexutil.Uint64.String`, and the addresses are those of the
-- accounts with funds.
unfoldable pub genesis_input : (ℕ → String) → List String → Option ℕ → ℕ → Fields
genesis_input hex addresses fork timestamp =
    field "timestamp" (text (hex timestamp))
      (fork_config fork (field "alloc" (object (prefunded addresses)) end))

abbrev pub block_ref : String → Fields
block_ref hash = field "hash" (text hash) (field "number" (number "0") end)

abbrev pub isthmus_time : Option ℕ → Fields
isthmus_time none = end
isthmus_time (some time) = field "isthmus_time" (number (decimal time)) end

-- The overrides of rollup.json, with the hashes of the two genesis blocks.
unfoldable pub rollup_input : String → String → ArtifactsBuilder → Option ℕ → ℕ → Fields
rollup_input l1_hash l2_hash b fork timestamp =
    field "genesis"
      (object (
        field "l2_time" (number (decimal timestamp))
          (field "l1" (object (block_ref l1_hash)) (field "l2" (object (block_ref l2_hash)) end))))
      (field "block_time" (number (decimal b.op_block_time)) (
        field "chain_op_config"
          (object (
            field "eip1559Elasticity" (number "6") (
              field "eip1559Denominator" (number "50")
                (field "eip1559DenominatorCanyon" (number "250") end))))
          (isthmus_time fork)))

-- An error with what the caller puts in front of it.
abbrev pub wrap : {A : Type 0} → String → Result String A → Result String A
wrap message (ok a) = ok a
wrap message (err e) = err (message ⊕ e)

-- `overrideJSON`, with `encoding/json` for objects.
unfoldable pub override_json :
    (String → Result String Fields)
    → (Fields → Result String String)
    → String
    → Fields
    → Result String String
unfolding merge_map
override_json unmarshal marshal json_data overrides = do
  original ← wrap "failed to unmarshal original JSON: " (unmarshal json_data)
  wrap "failed to marshal modified JSON: " (marshal (merge_map overrides original))
