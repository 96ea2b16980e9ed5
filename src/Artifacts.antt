-- ===== src/Artifacts.antt =====
-- playground/artifacts.go: `Build`, from the flags to the files of the output folder, with `GetHomeDir`
-- and `getPrivKey`. Genesis has the times and the overrides of the L2 files.
pub mod Config
pub mod Answers
pub mod Complete
pub mod Total
pub mod Rollup
pub mod Cooked
use builder_playground.Prelude.{
  ℕ, suc, String, Bool, true, false, Option, none, some, List, [], ◌∷◌, ◌*◌, ◌%◌, ◌^◌, ◌⊕◌,
  if◌then◌else◌, decimal, has_prefix, Result, ok, err, ◌>>=◌, Stop, fails, panics, raised,
  raised_as, GoMap, insert,
}
use builder_playground.Output.{Output}
use builder_playground.Output.Data.{
  Disk, SecretKey, Datum, bytes, text, ssz_object, lighthouse_keystore, enc_fn, object, write_data,
  write_batch,
}
use builder_playground.Genesis.{
  Fields, ArtifactsBuilder, with_defaults, latest_fork_epoch, word, op_timestamp, fork_time,
  genesis_input, rollup_input, override_json,
}
use builder_playground.Genesis.Block.{Geth, Header, Crash, nil_dereference, no_withdrawals}
use builder_playground.Genesis.Alloc.{
  StateDb, Failure, GenesisCodec, balance_too_large, to_op_block,
}
use builder_playground.Artifacts.Config.{ConfigField, convert, replace_first, skip_chars}

-- An account of the L1 genesis: one with funds and a nonce, or one of the dumped state.
pub data L1Account : Type 0 where
  funded : ℕ → ℕ → L1Account
  dumped : String → L1Account

-- The fields of the L1 genesis that `Build` changes; `base` stands for the others.
pub record L1Genesis : Type 0 where
  pub base : String
  pub deposit_contract_address : String
  pub alloc : GoMap L1Account

-- The state of the beacon chain at genesis: its SSZ, and the root of its validators in hex.
pub record BeaconState : Type 0 where
  pub ssz : Result String String
  pub validators_root : String

-- What the operating system, the embedded files, prysm, go-ethereum and the codecs answer.
pub record Libraries : Type 0 where
  pub user_home_dir : Result String String
  pub mkdir_error : String → Option String
  pub exists : String → Bool
  pub remove_error : String → Option String
  pub faults : List String
  -- The Unix time after a duration of nanoseconds, a word of 64 bits.
  pub unix_after : ℕ → ℕ
  pub cl_config_content : String
  pub op_state : String
  pub op_genesis : String
  pub op_rollup_config : String
  pub query_ready_check : String
  pub unmarshal_config : String → Result String (List ConfigField)
  pub set_active : List ConfigField → Option String
  pub deposit_contract : List ConfigField → String
  pub testnet_genesis : ℕ → List ConfigField → L1Genesis
  pub decode_hex : String → Result String String
  -- The address of the public key of a private key, or the error of `ToECDSA`.
  pub key_address : String → Result String String
  pub l1_state_dump : String → Result String String
  pub decode_base64 : String → Result String String
  pub gzip_reader : String → Result String String
  pub read_all : String → Result String String
  pub unmarshal_alloc : String → Result String (GoMap L1Account)
  pub l1_block_hash : L1Genesis → String
  pub genesis_json : L1Genesis → Result String String
  pub generate_keys : ℕ → Result String (List SecretKey)
  pub deposit_data : List SecretKey → Result String String
  -- The premined state, with the version Electra or Deneb.
  pub premined : ℕ → Bool → String → String → Result String BeaconState
  pub hex : ℕ → String
  pub unmarshal : String → Result String Fields
  pub marshal : Fields → Result String String
  pub geth : Geth
  pub genesis_codec : GenesisCodec
  pub header_hash : Header → String

abbrev pub default_jwt_token : String
default_jwt_token = "04592280e1778419b7aa954d43871cb2cfb2ebda754fb735e8adeb293a88f9bf"

abbrev pub prefunded_accounts : List String
prefunded_accounts =
    "0xac0974bec39a17e36ba4a6b4d238ff944bacb478cbed5efcae784d7bf4f2ff80"
    ∷ ("0x59c6995e998f97a5a0044966f0945389dc9e86dae88c7a8412f4603b6b78690d"
        ∷ ("0x5de4111afa1a4b94908f83103eb1f1706367c2e68ca870fc3fb9a804cdab365a"
            ∷ ("0x7c852118294e51e653712a81e05800f419141751be58f605c371e15141b007a6"
                ∷ ("0x47e179ec197488593b187f80a00eb0da91f1b9d0b13f8733639f19c30a34926a"
                    ∷ ("0x8b3a350cf5c34c9194ca85829a2df0ec3153be0318b5e2d3348e872092edffba"
                        ∷ ("0x92db14e403b83dfe3df233f83dfa3a0d7096f21ca9b0d6d6b8d88b2b4ec1564e"
                            ∷ ("0x4bbbf85ce3377467afe5d46f804f221813b2bb87f24d81f60f1fcdbf7cbf4356"
                                ∷ ("0xdbda1821b80551c9d65939329250298aa3472ba22feea921c0cf5d620ea67b97"
                                    ∷ ("0x2a871d0798f97d79848a013d4936a73bf4cc922c825d33c1cf7073dff6d409c6"
                                        ∷ [])))))))))

abbrev pub unless_error : String → Option String → Result Stop (Unit {0})
unless_error message none = ok tt
unless_error message (some e) = err (fails (message ⊕ e))

-- How a panic or an error of `toOpBlock` ends `Build`.
abbrev pub stop_of : Failure → Stop
stop_of (Failure.fails e) = fails ("failed to convert opGenesis to block: " ⊕ e)
stop_of (Failure.panics nil_dereference) =
    panics "runtime error: invalid memory address or nil pointer dereference"
stop_of (Failure.panics no_withdrawals) =
    panics "expected non-nil empty withdrawals operation list in Isthmus"
stop_of (balance_too_large balance) = panics "overflow"

abbrev pub op_block : Result Failure Header → Result Stop Header
op_block (ok header) = ok header
op_block (err failure) = err (stop_of failure)

-- strings.TrimPrefix of "0x".
unfoldable pub trim_0x : String → String
trim_0x s = if has_prefix s "0x" then skip_chars 2 s else s

unfoldable pub fund_accounts : List String → GoMap L1Account → GoMap L1Account
unfolding insert
fund_accounts [] alloc = alloc
fund_accounts (address ∷ addresses) alloc =
    fund_accounts addresses (insert address (funded (16 ^ 22) 1) alloc)

unfoldable pub apply_state : GoMap L1Account → GoMap L1Account → GoMap L1Account
unfolding insert
apply_state [] alloc = alloc
apply_state ((address, account) ∷ more) alloc = apply_state more (insert address account alloc)

module _ (lib : Libraries) where
  -- `GetHomeDir`
  unfoldable pub get_home_dir : Result Stop String
  get_home_dir = do
    home_dir ← raised_as "error getting user home directory: " lib.user_home_dir
    let custom_home_dir = home_dir ⊕ "/.playground"
    _ ← unless_error "error creating output directory: " (lib.mkdir_error custom_home_dir)
    ok custom_home_dir

  -- The removal of the output folder, if it is there.
  unfoldable pub clear : String → Result Stop (Unit {0})
  clear output_dir =
      if lib.exists output_dir then unless_error "" (lib.remove_error output_dir) else ok tt

  -- The configuration of the beacon chain.
  unfoldable pub load_config : ArtifactsBuilder → Result Stop (List ConfigField)
  unfolding replace_first latest_fork_epoch
  load_config b = do
    config ← raised (
        lib.unmarshal_config
          (replace_first lib.cl_config_content "{{.LatestForkEpoch}}" (latest_fork_epoch b)))
    _ ← unless_error "" (lib.set_active config)
    ok config

  -- `getPrivKey`, and the address of its public key, for each account.
  unfoldable pub addresses_of : List String → Result Stop (List String)
  unfolding trim_0x
  addresses_of [] = ok []
  addresses_of (priv_str ∷ more) = do
    priv_buf ← raised (lib.decode_hex (trim_0x priv_str))
    address ← raised (lib.key_address priv_buf)
    rest ← addresses_of more
    ok (address ∷ rest)

  -- The accounts of the dumped state.
  unfoldable pub dumped_state : Result Stop (GoMap L1Account)
  dumped_state = do
    dump ← raised_as "failed to unmarshal opState: " (lib.l1_state_dump lib.op_state)
    decoded ← raised_as "failed to decode opState: " (lib.decode_base64 dump)
    reader ← raised_as "failed to create gzip reader: " (lib.gzip_reader decoded)
    contents ← raised_as "failed to read opState: " (lib.read_all reader)
    raised_as "failed to unmarshal opState: " (lib.unmarshal_alloc contents)

  -- The genesis time: the duration is counted in nanoseconds, modulo 2 ^ 64.
  abbrev pub genesis_time_of : ArtifactsBuilder → ℕ
  genesis_time_of b = lib.unix_after (b.genesis_delay * 1000000000 % word)

  -- The L1 genesis, with the accounts that have funds and those of the dumped state.
  unfoldable pub l1_genesis : ℕ → List ConfigField → Result Stop L1Genesis
  unfolding addresses_of dumped_state fund_accounts apply_state
  l1_genesis genesis_time config = do
    addresses ← addresses_of prefunded_accounts
    state ← dumped_state
    let gen = lib.testnet_genesis genesis_time config
    ok (record gen {
      deposit_contract_address = lib.deposit_contract config;
      alloc = apply_state state (fund_accounts addresses gen.alloc);
    })

  -- The files of the L1 chain.
  abbrev pub l1_files : List ConfigField → BeaconState → L1Genesis → List SecretKey → GoMap Datum
  l1_files config state gen priv =
      ("testnet/config.yaml", enc_fn (convert config))
      ∷ (("testnet/genesis.ssz", ssz_object state.ssz)
          ∷ (("genesis.json", object (lib.genesis_json gen) (err ""))
              ∷ (("jwtsecret", text default_jwt_token)
                  ∷ (("testnet/boot_enr.yaml", text "[]")
                      ∷ (("testnet/deploy_block.txt", text "0")
                          ∷ (("testnet/deposit_contract_block.txt", text "0")
                              ∷ (("testnet/genesis_validators_root.txt", text state.validators_root)
                                  ∷ (("data_validator", lighthouse_keystore priv)
                                      ∷ (("scripts/query.sh", bytes lib.query_ready_check)
                                          ∷ [])))))))))

  -- The part of `Build` up to the first batch of files.
  unfoldable pub build_l1 :
      ArtifactsBuilder → ℕ → L1Genesis → List ConfigField → Disk → Result Stop Disk
  unfolding write_batch
  build_l1 b genesis_time gen config disk = do
    priv ← raised (lib.generate_keys 100)
    deposits ← raised (lib.deposit_data priv)
    state ←
        raised (lib.premined genesis_time b.apply_latest_l1_fork (lib.l1_block_hash gen) deposits)
    write_batch (l1_files config state gen priv) disk

  module _ {State : Type 0} (db : StateDb State) where
    -- The L2 genesis, with the overrides.
    unfoldable pub l2_genesis : ArtifactsBuilder → ℕ → Result Stop String
    unfolding addresses_of override_json
    l2_genesis b timestamp = do
      addresses ← addresses_of prefunded_accounts
      raised (
          override_json lib.unmarshal lib.marshal lib.op_genesis
            (genesis_input lib.hex addresses (fork_time b timestamp) timestamp))

    abbrev pub rollup_of : ArtifactsBuilder → ℕ → String → Header → Result Stop String
    rollup_of b timestamp l1_hash header = raised (
        override_json lib.unmarshal lib.marshal lib.op_rollup_config
          (rollup_input l1_hash (lib.header_hash header) b (fork_time b timestamp) timestamp))

    -- The rollup file, with the hashes of the L1 genesis and of the L2 genesis as it is written.
    unfoldable pub l2_rollup : ArtifactsBuilder → ℕ → String → String → Result Stop String
    unfolding override_json to_op_block
    l2_rollup b timestamp l1_hash new_op_genesis =
        op_block (to_op_block db lib.geth lib.genesis_codec new_op_genesis)
        >>= rollup_of b timestamp l1_hash

    -- The files of the L2 chain.
    unfoldable pub build_l2 : ArtifactsBuilder → ℕ → String → Disk → Result Stop Disk
    unfolding l2_genesis l2_rollup write_data
    build_l2 b timestamp l1_hash disk = do
      new_op_genesis ← l2_genesis b timestamp
      new_op_rollup ← l2_rollup b timestamp l1_hash new_op_genesis
      d1 ← write_data "l2-genesis.json" (bytes new_op_genesis) disk
      write_data "rollup.json" (bytes new_op_rollup) d1

    -- An output folder at the start of `Build`, which removed what was there.
    abbrev pub empty_disk : String → String → Disk
    empty_disk output_dir home_dir = record {
      folder = record {
        dst = output_dir;
        home_dir = home_dir;
        enode_addr_seq = none;
        files = [];
        faults = lib.faults;
      };
      contents = [];
    }

    -- `Build` behind the choice of the output folder.
    unfoldable pub build_in : String → ArtifactsBuilder → Result Stop Disk
    unfolding clear load_config l1_genesis build_l1 build_l2
    build_in home_dir b = do
      _ ← clear b.output_dir
      config ← load_config b
      gen ← l1_genesis (genesis_time_of b) config
      disk ← build_l1 b (genesis_time_of b) gen config (empty_disk b.output_dir home_dir)
      build_l2 b (op_timestamp (genesis_time_of b)) (lib.l1_block_hash gen) disk

    -- `Build`
    unfoldable pub build : ArtifactsBuilder → Result Stop Disk
    unfolding get_home_dir with_defaults build_in
    build b = get_home_dir >>= λ home_dir. build_in home_dir (with_defaults home_dir b)
