-- ===== src/Artifacts/Answers.antt =====
-- What `Build` of playground/artifacts.go is answered by the operating system, the packages and the
-- embedded files, in a run that goes through.
use builder_playground.Prelude.{
  ℕ, String, Bool, true, false, Option, none, some, List, [], ◌∷◌, ◌^◌, ◌≡◌, refl, ◌==◌, ltb, ◌⊕◌,
  Result, ok, err, Bool-cases, inl, inr, Succeeds, Returns, Returns-ok, Returns-bind, All,
}
use builder_playground.Output.Data.{SecretKey}
use builder_playground.Genesis.{
  Fields, ArtifactsBuilder, with_defaults, latest_fork_epoch, op_timestamp,
}
use builder_playground.Genesis.Block.{
  CoreGenesis, OpChainConfig, has_withdrawals, is_optimism_isthmus, to_block_with_root,
}
use builder_playground.Genesis.Block.Withdrawals.{KeepsTime, to_block_with_root-Made}
use builder_playground.Genesis.Alloc.{
  Account, StateDb, lifted, crashing, fund, set_accounts, hash_alloc, to_op_block,
}
use builder_playground.Artifacts.{
  Libraries, L1Genesis, BeaconState, trim_0x, prefunded_accounts, genesis_time_of, l1_genesis,
  l2_genesis,
}
use builder_playground.Artifacts.Config.{
  FieldValue, byte_values, string_value, uint_value, int_value, other_kind, ConfigField,
  replace_first, value_text, config_lines, convert,
}

-- `convert` knows the kind of the value.
abbrev is_known : FieldValue → Bool
is_known (byte_values bs) = true
is_known (string_value s) = true
is_known (uint_value n) = true
is_known (int_value negative n) = true
is_known (other_kind kind) = false

abbrev pub IsPrintable : ConfigField → Type 0
IsPrintable f = f.tag == "" ≡ false → is_known f.value ≡ true

value_text-Succeeds :
    (tag : String) (v : FieldValue) → is_known v ≡ true → Succeeds (value_text tag v)
unfolding value_text
value_text-Succeeds tag (byte_values bs) h = Returns-ok tt
value_text-Succeeds tag (string_value s) h = Returns-ok tt
value_text-Succeeds tag (uint_value n) h = Returns-ok tt
value_text-Succeeds tag (int_value negative n) h = Returns-ok tt
value_text-Succeeds tag (other_kind kind) h = cc

config_lines-Succeeds : (fs : List ConfigField) → All IsPrintable fs → Succeeds (config_lines fs)
unfolding config_lines
config_lines-Succeeds [] h = Returns-ok tt
config_lines-Succeeds (f ∷ fs) (p, h) = elim (Bool-cases (f.tag == "")) [
  | inl e ↦ rw e (config_lines-Succeeds fs h)
  | inr e ↦ rw e (
      Returns-bind (value_text f.tag f.value) _ (value_text-Succeeds f.tag f.value (p e))
        λ res_typ _.
          Returns-bind (config_lines fs) _ (config_lines-Succeeds fs h) λ lines _. Returns-ok tt)
]

pub convert-Succeeds : (fs : List ConfigField) → All IsPrintable fs → Succeeds (convert fs)
unfolding convert
convert-Succeeds fs h =
    Returns-bind (config_lines fs) _ (config_lines-Succeeds fs h) λ lines _. Returns-ok tt

-- `uint256.MustFromBig` takes the balance.
abbrev pub Fits : Account → Type 0
Fits account = (balance : ℕ) → account.balance ≡ some balance → ltb balance (2 ^ 256) ≡ true

module _ {State : Type 0} (lib : Libraries) (db : StateDb State) where
  -- What is read of the file of an L2 genesis: a configuration for `OpGenesis`, a chain with Shanghai
  -- at genesis, and balances of 256 bits, on a database that can be opened and committed.
  pub record Reads (content : String) : Type 0 where
    pub genesis : CoreGenesis
    pub core_eq : lib.genesis_codec.core_genesis content ≡ ok genesis
    pub config : OpChainConfig
    pub config_eq : lib.genesis_codec.op_config content ≡ ok (some config)
    pub shanghai : has_withdrawals lib.geth genesis genesis.config ≡ true
    pub fits : All Fits (lib.genesis_codec.alloc content)
    pub opens : Succeeds (db.new (lib.genesis_codec.is_verkle content))
    pub commits : (state : State) → Succeeds (db.commit state)

  lifted-Succeeds : {A : Type 0} (r : Result String A) → Succeeds r → Succeeds (lifted r)
  lifted-Succeeds (ok a) h = Returns-ok tt
  lifted-Succeeds (err e) h = (let bad = h.returned in cc)

  fund-Succeeds :
      (account : Account) (state : State) (o : Option ℕ)
      → ((balance : ℕ) → o ≡ some balance → ltb balance (2 ^ 256) ≡ true)
      → Succeeds (fund db account state o)
  unfolding fund
  fund-Succeeds account state none h = Returns-ok tt
  fund-Succeeds account state (some balance) h = rw (h balance refl) (Returns-ok tt)

  set_accounts-Succeeds :
      (accounts : List Account) (state : State)
      → All Fits accounts
      → Succeeds (set_accounts db accounts state)
  unfolding set_accounts
  set_accounts-Succeeds [] state h = Returns-ok tt
  set_accounts-Succeeds (account ∷ accounts) state (p, h) =
      Returns-bind (fund db account state account.balance) _
        (fund-Succeeds account state account.balance p)
        λ funded _. set_accounts-Succeeds accounts _ h

  hash_alloc-Succeeds :
      (content : String) (is_isthmus : Bool)
      → Reads content
      → Succeeds (
          hash_alloc db
            (lib.genesis_codec.alloc content)
            (lib.genesis_codec.is_verkle content)
            is_isthmus)
  unfolding hash_alloc
  hash_alloc-Succeeds content is_isthmus r =
      Returns-bind (lifted (db.new (lib.genesis_codec.is_verkle content))) _
        (lifted-Succeeds _ r.opens)
        λ empty _.
          Returns-bind (set_accounts db (lib.genesis_codec.alloc content) empty) _
            (set_accounts-Succeeds (lib.genesis_codec.alloc content) empty r.fits)
            λ state _.
              Returns-bind (lifted (db.commit state)) _ (lifted-Succeeds _ (r.commits state))
                λ committed _. Returns-ok tt

  to_block-Succeeds :
      (config : OpChainConfig) (g : CoreGenesis) (root passer : ℕ)
      → KeepsTime lib.geth
      → has_withdrawals lib.geth g g.config ≡ true
      → Succeeds (crashing (to_block_with_root lib.geth config g root passer))
  to_block-Succeeds config g root passer keeps shanghai =
      let (block, e, _) =
        rw shanghai at (to_block_with_root-Made lib.geth config g root passer keeps) in
      rw e (Returns-ok tt)

  pub to_op_block-Succeeds :
      (content : String)
      → KeepsTime lib.geth
      → Reads content
      → Succeeds (to_op_block db lib.geth lib.genesis_codec content)
  unfolding to_op_block
  to_op_block-Succeeds content keeps r =
      rw (r.core_eq, r.config_eq)
        (let isthmus = is_optimism_isthmus r.config r.genesis.timestamp in
          Returns-bind
            (hash_alloc db (lib.genesis_codec.alloc content) (lib.genesis_codec.is_verkle content)
              isthmus)
            _ (hash_alloc-Succeeds content isthmus r)
            λ roots _. to_block-Succeeds r.config r.genesis roots.0 roots.1 keeps r.shanghai)

  -- A private key in hex, of a number that the curve has.
  abbrev pub HasAddress : String → Type 0
  HasAddress account =
      Returns (λ buf. Succeeds (lib.key_address buf)) (lib.decode_hex (trim_0x account))

  -- Behind the choice of the output folder. Each call is asked for what `Build` hands over: an
  -- embedded file, a flag, or the answers of the calls before; only `json.Marshal` of the fields of
  -- an object is asked for all of them.
  pub record WorksIn (b : ArtifactsBuilder) : Type 0 where
    pub removes : lib.remove_error b.output_dir ≡ none
    pub allows : lib.faults ≡ []
    pub config : List ConfigField
    pub config_eq :
        lib.unmarshal_config
          (replace_first lib.cl_config_content "{{.LatestForkEpoch}}" (latest_fork_epoch b))
        ≡ ok config
    pub activates : lib.set_active config ≡ none
    pub printable : All IsPrintable config
    pub addresses : All HasAddress prefunded_accounts
    pub state :
        Returns
          (λ dump.
            Returns
              (λ decoded.
                Returns
                  (λ reader.
                    Returns
                      (λ contents. Succeeds (lib.unmarshal_alloc contents))
                      (lib.read_all reader))
                  (lib.gzip_reader decoded))
              (lib.decode_base64 dump))
          (lib.l1_state_dump lib.op_state)
    pub prints :
        (gen : L1Genesis)
        → l1_genesis lib (genesis_time_of lib b) config ≡ ok gen
        → Succeeds (lib.genesis_json gen)
    pub validators : List SecretKey
    pub validators_eq : lib.generate_keys 100 ≡ ok validators
    pub keystores : All (λ key. Succeeds key.voting_keystore) validators
    pub deposits : String
    pub deposits_eq : lib.deposit_data validators ≡ ok deposits
    pub premines :
        (gen : L1Genesis)
        → l1_genesis lib (genesis_time_of lib b) config ≡ ok gen
        → Returns
            (λ (s : BeaconState). Succeeds s.ssz)
            (lib.premined
              (genesis_time_of lib b)
              b.apply_latest_l1_fork
              (lib.l1_block_hash gen)
              deposits)
    pub op_genesis : Succeeds (lib.unmarshal lib.op_genesis)
    pub op_rollup : Succeeds (lib.unmarshal lib.op_rollup_config)
    pub marshals : (fields : Fields) → Succeeds (lib.marshal fields)
    pub keeps : KeepsTime lib.geth
    pub reads :
        (content : String)
        → l2_genesis lib db b (op_timestamp (genesis_time_of lib b)) ≡ ok content
        → Reads content

  -- The whole of `Build`, with the home folder.
  pub record Works (b : ArtifactsBuilder) : Type 0 where
    pub home : String
    pub home_eq : lib.user_home_dir ≡ ok home
    pub makes : lib.mkdir_error (home ⊕ "/.playground") ≡ none
    pub inner : WorksIn (with_defaults (home ⊕ "/.playground") b)
