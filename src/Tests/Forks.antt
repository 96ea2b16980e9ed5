-- ===== src/Tests/Forks.antt =====
-- The files of the L2 chain and its genesis block at concrete inputs.
use builder_playground.Prelude.{true, false, none, some, [], ◌≡◌, refl, decimal, ltb}
use builder_playground.Genesis.{
  number, text, object, Fields, end, field, get_field, merge_map, ArtifactsBuilder, fork_time,
  genesis_input, rollup_input,
}
use builder_playground.Genesis.Merge.{merged, merge_map-merged}
use builder_playground.Genesis.Times.{Forks, fork_time-Forks}
use builder_playground.Genesis.Block.{
  ChainConfig, CoreGenesis, Geth, is_optimism_isthmus, has_withdrawals, to_block_with_root,
}
use builder_playground.Genesis.Block.Withdrawals.{Made, to_block_with_root-Made}

abbrev source : Fields
source =
    field "timestamp" (text "0x10")
      (field "config" (object (field "chainId" (number "13") end)) end)

abbrev original : Fields
original =
    field "config"
      (object (field "chainId" (number "901") (field "homesteadBlock" (number "0") end)))
      (field "nonce" (text "0x0") end)

merge_map-merged_example :
    get_field "config" (merge_map source original)
    ≡ merged (get_field "config" source) (get_field "config" original)
merge_map-merged_example = merge_map-merged source original "config" ((refl, tt), (tt, tt))

abbrev builder : ArtifactsBuilder
builder = record {
  output_dir = "";
  apply_latest_l1_fork = false;
  genesis_delay = 10;
  apply_latest_l2_fork = some 5;
  op_block_time = 2;
}

fork_time-Forks_example :
    ((config : Fields) × (get_field "config"
          (merge_map (genesis_input decimal [] (fork_time builder 100) 100) original)
        ≡ some (object config))
      × Forks 110 config)
    × (get_field "isthmus_time"
          (merge_map (rollup_input "0x01" "0x02" builder (fork_time builder 100) 100) end)
        ≡ some (number (decimal 110)))
unfolding fork_time
fork_time-Forks_example = fork_time-Forks builder decimal [] "0x01" "0x02" 100 110 original end refl

abbrev geth : Geth
geth = record {
  genesis_gas_limit = 4712388;
  genesis_difficulty = 131072;
  initial_base_fee = 1000000000;
  empty_withdrawals_hash = 7;
  empty_requests_hash = 8;
  new_block = λ withdrawals h. h;
}

abbrev config : ChainConfig
config = record {
  has_ethash = false;
  is_london = λ n. true;
  is_shanghai = λ n time. ltb 50 time;
  is_cancun = λ n time. true;
  is_prague = λ n time. true;
}

abbrev genesis : CoreGenesis
genesis = record {
  config = some config;
  number = 0;
  nonce = 0;
  timestamp = 100;
  parent_hash = 0;
  extra_data = "";
  gas_limit = 0;
  gas_used = 0;
  base_fee = none;
  difficulty = none;
  mixhash = 0;
  coinbase = 0;
  excess_blob_gas = none;
  blob_gas_used = none;
}

to_block_with_root-Made_example :
    Made geth
      (has_withdrawals geth genesis genesis.config)
      (is_optimism_isthmus (record { isthmus_time = some 110 }) genesis.timestamp)
      5
      (to_block_with_root geth (record { isthmus_time = some 110 }) genesis 3 5)
to_block_with_root-Made_example =
    to_block_with_root-Made geth (record { isthmus_time = some 110 }) genesis 3 5
      (λ withdrawals h. refl)
