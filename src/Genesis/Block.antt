-- ===== src/Genesis/Block.antt =====
-- playground/genesis_op.go: the genesis block of the L2 chain.
pub mod Withdrawals
use builder_playground.Prelude.{
  ℕ, String, Bool, true, false, ◌&&◌, Option, none, some, List, [], ◌∷◌, ◌≡◌, ◌↔◌, refl, sym, ap,
  ◌∙◌, if◌then◌else◌, leb, eqb, Result, ok, err, ◌>>=◌, Bool-cases, inl, inr,
}

-- What is read of `params.ChainConfig`: whether it has ethash, and whether forks are active at a block
-- number and a time.
pub record ChainConfig : Type 0 where
  pub has_ethash : Bool
  pub is_london : ℕ → Bool
  pub is_shanghai : ℕ → ℕ → Bool
  pub is_cancun : ℕ → ℕ → Bool
  pub is_prague : ℕ → ℕ → Bool

-- `OpChainConfig`, less what it embeds.
pub record OpChainConfig : Type 0 where
  pub isthmus_time : Option ℕ

-- The fields of `core.Genesis` that are read; a hash is its number, and the zero hash is 0.
pub record CoreGenesis : Type 0 where
  pub config : Option ChainConfig
  pub number : ℕ
  pub nonce : ℕ
  pub timestamp : ℕ
  pub parent_hash : ℕ
  pub extra_data : String
  pub gas_limit : ℕ
  pub gas_used : ℕ
  pub base_fee : Option ℕ
  pub difficulty : Option ℕ
  pub mixhash : ℕ
  pub coinbase : ℕ
  pub excess_blob_gas : Option ℕ
  pub blob_gas_used : Option ℕ

-- The fields of `types.Header` that are set.
pub record Header : Type 0 where
  pub number : ℕ
  pub nonce : ℕ
  pub time : ℕ
  pub parent_hash : ℕ
  pub extra : String
  pub gas_limit : ℕ
  pub gas_used : ℕ
  pub base_fee : Option ℕ
  pub difficulty : Option ℕ
  pub mix_digest : ℕ
  pub coinbase : ℕ
  pub root : ℕ
  pub withdrawals_hash : Option ℕ
  pub parent_beacon_root : Option ℕ
  pub excess_blob_gas : Option ℕ
  pub blob_gas_used : Option ℕ
  pub requests_hash : Option ℕ

-- The constants of go-ethereum, and the header that `types.NewBlock` makes of a header and of whether
-- there are withdrawals, of which there are none.
pub record Geth : Type 0 where
  pub genesis_gas_limit : ℕ
  pub genesis_difficulty : ℕ
  pub initial_base_fee : ℕ
  pub empty_withdrawals_hash : ℕ
  pub empty_requests_hash : ℕ
  pub new_block : Bool → Header → Header

pub data Crash : Type 0 where
  nil_dereference no_withdrawals : Crash

-- `isTimestampForked`
unfoldable pub is_timestamp_forked : Option ℕ → ℕ → Bool
is_timestamp_forked none head = false
is_timestamp_forked (some s) head = leb s head

-- `IsIsthmus`
unfoldable pub is_isthmus : OpChainConfig → ℕ → Bool
unfolding is_timestamp_forked
is_isthmus c time = is_timestamp_forked c.isthmus_time time

-- `IsOptimism`
unfoldable pub is_optimism : OpChainConfig → Bool
is_optimism c = true

-- `IsOptimismIsthmus`, and `HasOptimismWithdrawalsRoot`, which calls it.
unfoldable pub is_optimism_isthmus : OpChainConfig → ℕ → Bool
unfolding is_optimism is_isthmus
is_optimism_isthmus c time = is_optimism c && is_isthmus c time

abbrev pub or_zero : Option ℕ → Option ℕ
or_zero none = some 0
or_zero (some n) = some n

module _ (geth : Geth) where
  abbrev pub genesis_difficulty_of : CoreGenesis → Option ℕ → Option ChainConfig → Option ℕ
  genesis_difficulty_of g (some n) config = some n
  genesis_difficulty_of g none (some conf) =
      if conf.has_ethash
      then (if eqb g.mixhash 0 then some geth.genesis_difficulty else none)
      else some 0
  genesis_difficulty_of g none none = if eqb g.mixhash 0 then some geth.genesis_difficulty else none

  abbrev pub london_fee : Option ℕ → Option ℕ
  london_fee none = some geth.initial_base_fee
  london_fee (some fee) = some fee

  abbrev pub base_fee_of : CoreGenesis → Option ChainConfig → Option ℕ
  base_fee_of g none = g.base_fee
  base_fee_of g (some conf) = if conf.is_london 0 then london_fee g.base_fee else g.base_fee

  -- The header as `toBlockWithRoot` starts it, up to the base fee.
  unfoldable pub first_header : CoreGenesis → ℕ → Header
  first_header g state_root = record {
    number = g.number;
    nonce = g.nonce;
    time = g.timestamp;
    parent_hash = g.parent_hash;
    extra = g.extra_data;
    gas_limit = if eqb g.gas_limit 0 then geth.genesis_gas_limit else g.gas_limit;
    gas_used = g.gas_used;
    base_fee = base_fee_of g g.config;
    difficulty = genesis_difficulty_of g g.difficulty g.config;
    mix_digest = g.mixhash;
    coinbase = g.coinbase;
    root = state_root;
    withdrawals_hash = none;
    parent_beacon_root = none;
    excess_blob_gas = none;
    blob_gas_used = none;
    requests_hash = none;
  }

  abbrev pub with_shanghai : Bool → Header → Header
  with_shanghai active h =
      if active then record h { withdrawals_hash = some geth.empty_withdrawals_hash } else h

  abbrev pub with_cancun : Bool → CoreGenesis → Header → Header
  with_cancun active g h =
      if active
      then record h {
        parent_beacon_root = some 0;
        excess_blob_gas = or_zero g.excess_blob_gas;
        blob_gas_used = or_zero g.blob_gas_used;
      }
      else h

  abbrev pub with_prague : Bool → Header → Header
  with_prague active h =
      if active then record h { requests_hash = some geth.empty_requests_hash } else h

  -- The root of the message passer, or the empty hash in its place.
  abbrev pub passer_hash : ℕ → ℕ
  passer_hash storage_root =
      if eqb storage_root 0 then geth.empty_withdrawals_hash else storage_root

  abbrev pub with_isthmus : Bool → ℕ → Header → Header
  with_isthmus active storage_root h =
      if active then record h { withdrawals_hash = some (passer_hash storage_root) } else h

  -- The part of `toBlockWithRoot` under the chain configuration.
  unfoldable pub forked_header :
      OpChainConfig → CoreGenesis → ℕ → Option ChainConfig → Header → Header
  unfolding is_optimism_isthmus
  forked_header op g storage_root none h = h
  forked_header op g storage_root (some conf) h =
      with_isthmus (is_optimism_isthmus op g.timestamp) storage_root (
        with_prague (conf.is_prague g.number g.timestamp) (
          with_cancun (conf.is_cancun g.number g.timestamp) g
            (with_shanghai (conf.is_shanghai g.number g.timestamp) h)))

  -- Whether `withdrawals` is an empty list, and not nil.
  abbrev pub has_withdrawals : CoreGenesis → Option ChainConfig → Bool
  has_withdrawals g none = false
  has_withdrawals g (some conf) = conf.is_shanghai g.number g.timestamp

  -- The end of `toBlockWithRoot`, on the header of the block and the copy of the withdrawals' hash.
  abbrev pub final_header : Bool → Bool → ℕ → Header → Result Crash Header
  final_header true false copied h = err no_withdrawals
  final_header true true copied h = ok (record h { withdrawals_hash = some copied })
  final_header false false copied h = ok (record h { withdrawals_hash = none })
  final_header false true copied h =
      ok (record h { withdrawals_hash = some geth.empty_withdrawals_hash })

  -- Slicing the hash, whose pointer may be nil.
  abbrev pub copied_hash : Option ℕ → Result Crash ℕ
  copied_hash none = err nil_dereference
  copied_hash (some h) = ok h

  abbrev pub finished : OpChainConfig → Bool → Header → ℕ → Result Crash Header
  finished op withdrawals head copied =
      let block = geth.new_block withdrawals head in
      final_header (is_optimism_isthmus op block.time) withdrawals copied block

  -- `toBlockWithRoot`
  unfoldable pub to_block_with_root : OpChainConfig → CoreGenesis → ℕ → ℕ → Result Crash Header
  unfolding first_header forked_header is_optimism_isthmus
  to_block_with_root op g state_root storage_root =
      let head = forked_header op g storage_root g.config (first_header g state_root) in
      copied_hash head.withdrawals_hash >>= finished op (has_withdrawals g g.config) head
