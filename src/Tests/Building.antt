-- ===== src/Tests/Building.antt =====
-- The artifacts that are built, and the recipes on them, with packages that read the texts of this run.
use builder_playground.Prelude.{
  ℕ, zero, suc, String, true, false, none, some, List, [], ◌∷◌, ◌≡◌, refl, ap, ok, decimal, ltb,
  length, All, ok_inj, err, has_prefix, ◌==◌, if◌then◌else◌, Returns, Returns-ok, Succeeds, lookup,
  arith,
}
use mathlib.Core.Path.{subst}
use builder_playground.Output.Effects.{AllFound}
use builder_playground.Output.Data.{Disk, SecretKey}
use builder_playground.Output.Free.{Free}
use builder_playground.Context.{ExContext, level_info}
use builder_playground.Catalog.{Keys}
use builder_playground.Genesis.{
  end, ArtifactsBuilder, new_artifacts_builder, with_defaults, latest_fork_epoch, op_timestamp,
  override_json,
}
use builder_playground.Genesis.Block.{ChainConfig, CoreGenesis, Geth}
use builder_playground.Genesis.Alloc.{StateDb, GenesisCodec}
use builder_playground.Manifest.{Manifest, validate}
use builder_playground.Manifest.Spammer.{spam}
use builder_playground.Recipe.Lone.{L1Recipe}
use builder_playground.Recipe.BuilderNet.{BuilderNetRecipe}
use builder_playground.Recipe.OpStack
use builder_playground.Recipe.OpStack.Parts.{rbuilder, op_recipe}
use builder_playground.Recipe.OpStack.Verdict.{verdict}
use builder_playground.Artifacts.{
  Libraries, build, build_l2, empty_disk, trim_0x, addresses_of, l2_genesis, genesis_time_of,
}
use builder_playground.Artifacts.Config.{ConfigField, uint_value, other_kind, replace_first}
use builder_playground.Artifacts.Complete.{GivesKeys, mounted}
use builder_playground.Artifacts.Answers.{Works, WorksIn, Reads}
use builder_playground.Artifacts.Total.{build_l2-Free}
use builder_playground.Artifacts.Rollup.{Pair, build_l2-Agree}
use builder_playground.Artifacts.Cooked.{build-Returns, build-verdict}

abbrev key : SecretKey
key = record { pub_key = "8a"; voting_keystore = ok "{}" }

abbrev some_keys : ℕ → List SecretKey
some_keys zero = []
some_keys (suc n) = key ∷ some_keys n

abbrev geth : Geth
geth = record {
  genesis_gas_limit = 4712388;
  genesis_difficulty = 131072;
  initial_base_fee = 1000000000;
  empty_withdrawals_hash = 7;
  empty_requests_hash = 8;
  new_block = λ withdrawals h. h;
}

abbrev chain : ChainConfig
chain = record {
  has_ethash = false;
  is_london = λ n. true;
  is_shanghai = λ n t. true;
  is_cancun = λ n t. true;
  is_prague = λ n t. false;
}

abbrev genesis : CoreGenesis
genesis = record {
  config = some chain;
  number = 0;
  nonce = 0;
  timestamp = 100;
  parent_hash = 0;
  extra_data = "";
  gas_limit = 30000000;
  gas_used = 0;
  base_fee = none;
  difficulty = none;
  mixhash = 0;
  coinbase = 0;
  excess_blob_gas = none;
  blob_gas_used = none;
}

abbrev codec : GenesisCodec
codec = record {
  core_genesis = λ content. if content == "{}" then ok genesis else err "invalid JSON";
  alloc = λ content. [];
  is_verkle = λ content. false;
  op_config = λ content. ok (some (record { isthmus_time = none }));
}

-- A state is the number of changes that were made.
abbrev pub db : StateDb ℕ
db = record {
  new = λ is_verkle. ok 0;
  add_balance = λ address balance n. suc n;
  set_code = λ address code n. suc n;
  set_nonce = λ address nonce n. suc n;
  set_state = λ address key value n. suc n;
  commit = λ n. ok (n, n);
  get_storage_root = λ address n. n;
}

-- A configuration, with a field without a tag, whose kind is not looked at.
abbrev beacon_config : List ConfigField
beacon_config =
    record { tag = "SECONDS_PER_SLOT"; value = uint_value 12 }
    ∷ (record { tag = ""; value = other_kind "map" } ∷ [])

abbrev pub lib : Libraries
lib = record {
  user_home_dir = ok "/home/user";
  mkdir_error = λ path. none;
  exists = λ path. true;
  remove_error = λ path. none;
  faults = [];
  unix_after = λ duration. duration;
  cl_config_content = "EPOCH: {{.LatestForkEpoch}}";
  op_state = "{}";
  op_genesis = "{}";
  op_rollup_config = "{}";
  query_ready_check = "#!/bin/sh";
  unmarshal_config =
      λ content. if has_prefix content "EPOCH: " then ok beacon_config else err "no configuration";
  set_active = λ config. none;
  deposit_contract = λ config. "0x00";
  testnet_genesis =
      λ time config. record { base = "{}"; deposit_contract_address = "0x01"; alloc = [] };
  decode_hex = λ s. if has_prefix s "0x" then err "invalid byte" else ok s;
  key_address = λ s. ok s;
  l1_state_dump = λ s. if s == "{}" then ok "H4sI" else err "invalid JSON";
  decode_base64 = λ s. if s == "H4sI" then ok "zipped" else err "illegal data";
  gzip_reader = λ s. if s == "zipped" then ok "reader" else err "invalid header";
  read_all = λ s. ok s;
  unmarshal_alloc = λ s. ok [];
  l1_block_hash = λ gen. "0x11";
  genesis_json = λ gen. ok "{}";
  generate_keys = λ n. ok (some_keys n);
  deposit_data = λ priv. ok "";
  premined = λ time electra block deposits. ok (record { ssz = ok ""; validators_root = "00" });
  hex = decimal;
  unmarshal = λ content. if content == "{}" then ok end else err "invalid JSON";
  marshal = λ fields. ok "{}";
  geth = geth;
  genesis_codec = codec;
  header_hash = λ header. decimal header.root;
}

length-some_keys : (n : ℕ) → length (some_keys n) ≡ n
length-some_keys zero = refl
length-some_keys (suc n) = ap suc (length-some_keys n)

some_keys-All : (n : ℕ) → All (λ k. Succeeds k.voting_keystore) (some_keys n)
some_keys-All zero = tt
some_keys-All (suc n) = (Returns-ok tt, some_keys-All n)

pub gives : GivesKeys lib
gives n keys h = subst (λ ks. length ks ≡ n) (ok_inj h) (length-some_keys n)

reads : (content : String) → "{}" ≡ content → Reads lib db content
reads content e = subst (Reads lib db) e (record {
  genesis = genesis;
  core_eq = refl;
  config = record { isthmus_time = none };
  config_eq = refl;
  shanghai = refl;
  fits = tt;
  opens = Returns-ok tt;
  commits = λ state. Returns-ok tt;
})

works_in : (b : ArtifactsBuilder) → WorksIn lib db (with_defaults "/home/user/.playground" b)
unfolding trim_0x replace_first latest_fork_epoch l2_genesis addresses_of override_json
works_in b = record {
  removes = refl;
  allows = refl;
  config = beacon_config;
  config_eq = refl;
  activates = refl;
  printable = ((λ e. refl), ((λ e. cc), tt));
  addresses = (
    Returns-ok (Returns-ok tt),
    (
      Returns-ok (Returns-ok tt),
      (
        Returns-ok (Returns-ok tt),
        (
          Returns-ok (Returns-ok tt),
          (
            Returns-ok (Returns-ok tt),
            (
              Returns-ok (Returns-ok tt),
              (
                Returns-ok (Returns-ok tt),
                (
                  Returns-ok (Returns-ok tt),
                  (Returns-ok (Returns-ok tt), (Returns-ok (Returns-ok tt), tt)),
                ),
              ),
            ),
          ),
        ),
      ),
    ),
  );
  state = Returns-ok (Returns-ok (Returns-ok (Returns-ok (Returns-ok tt))));
  prints = λ gen _. Returns-ok tt;
  validators = some_keys 100;
  validators_eq = refl;
  keystores = some_keys-All 100;
  deposits = "";
  deposits_eq = refl;
  premines = λ gen _. Returns-ok (Returns-ok tt);
  op_genesis = Returns-ok tt;
  op_rollup = Returns-ok tt;
  marshals = λ fields. Returns-ok tt;
  keeps = λ withdrawals h. refl;
  reads = λ content h. reads content (ok_inj h);
}

pub works : (b : ArtifactsBuilder) → Works lib db b
works b = record { home = "/home/user"; home_eq = refl; makes = refl; inner = works_in b }

abbrev pub keys : Keys
keys = record { valid_key = λ n. ltb 0 n; node_id = λ n. decimal n; relay_key = none }

abbrev start : Disk
start = empty_disk lib db "/out" "/home/user/.playground"

abbrev pub ctx : ExContext
ctx = record {
  log_level = level_info;
  output = start.folder;
  bootnode = none;
  contender = spam true "";
}

abbrev l1 : L1Recipe
l1 = record {
  latest_fork = false;
  use_reth_for_validation = true;
  secondary_el_port = 9551;
  use_native_reth = false;
  use_separate_mev_boost = true;
}

abbrev pub net : BuilderNetRecipe
net = record { l1_recipe = l1; include_mock_proxy = false }

build-Returns_example :
    Returns (λ disk. AllFound disk.folder mounted × Free disk) (build lib db new_artifacts_builder)
build-Returns_example =
    build-Returns lib db gives new_artifacts_builder (works new_artifacts_builder)

build-verdict_example :
    (disk : Disk) × (build lib db new_artifacts_builder ≡ ok disk)
    × ((m : Manifest) × (OpStack.apply keys
            (op_recipe rbuilder true true false none 2 0)
            ctx
            disk.folder
          ≡ ok m)
        × (validate m ≡ verdict rbuilder true true))
unfolding decimal
build-verdict_example =
    build-verdict lib db gives keys new_artifacts_builder (works new_artifacts_builder) ctx true
      refl none 2 0 rbuilder true true false refl (omega arith) refl

abbrev filled : ArtifactsBuilder
filled = with_defaults "/home/user/.playground" new_artifacts_builder

abbrev l2_time : ℕ
l2_time = op_timestamp (genesis_time_of lib filled)

abbrev files_written : Returns Free (build_l2 lib db filled l2_time "0x11" start)
files_written =
    build_l2-Free lib db filled (works_in new_artifacts_builder) "0x11" start (refl, refl)

build_l2-Agree_example :
    (genesis_text : String) × (rollup_text : String) × (lookup "l2-genesis.json"
        files_written.value.contents
      ≡ some genesis_text)
    × (lookup "rollup.json" files_written.value.contents ≡ some rollup_text)
    × Pair lib db filled l2_time "0x11" genesis_text rollup_text
build_l2-Agree_example =
    build_l2-Agree lib db filled l2_time "0x11" start files_written.value files_written.returned
