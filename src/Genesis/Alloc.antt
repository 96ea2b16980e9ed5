-- ===== src/Genesis/Alloc.antt =====
-- playground/genesis_op.go: `hashAlloc` and `toOpBlock`, over the state database of go-ethereum.
use builder_playground.Prelude.{
  ℕ, String, Bool, ◌^◌, Option, none, some, List, [], ◌∷◌, if◌then◌else◌, ltb, Result, ok, err,
  ◌>>=◌,
}
use builder_playground.Genesis.Block.{
  CoreGenesis, OpChainConfig, Geth, Header, Crash, nil_dereference, is_optimism_isthmus,
  to_block_with_root,
}

-- An account of the allocation: its storage as pairs of a slot and a value.
pub record Account : Type 0 where
  pub address : ℕ
  pub balance : Option ℕ
  pub code : String
  pub nonce : ℕ
  pub storage : List (ℕ × ℕ)

-- What is called of the state database, for a verkle trie or not.
pub record StateDb (State : Type 0) : Type 0 where
  pub new : Bool → Result String State
  pub add_balance : ℕ → ℕ → State → State
  pub set_code : ℕ → String → State → State
  pub set_nonce : ℕ → ℕ → State → State
  pub set_state : ℕ → ℕ → ℕ → State → State
  pub commit : State → Result String (ℕ × State)
  pub get_storage_root : ℕ → State → ℕ

-- How `toOpBlock` ends without a block: an error, a panic of `toBlockWithRoot` or on a missing
-- configuration, or a balance that `uint256.MustFromBig` refuses.
pub data Failure : Type 0 where
  fails : String → Failure
  panics : Crash → Failure
  balance_too_large : ℕ → Failure

-- The file of a genesis: what `core.Genesis` reads of it, its allocation, whether it asks for a
-- verkle trie, and what `OpGenesis` reads of it.
pub record GenesisCodec : Type 0 where
  pub core_genesis : String → Result String CoreGenesis
  pub alloc : String → List Account
  pub is_verkle : String → Bool
  pub op_config : String → Result String (Option OpChainConfig)

-- `optimismL2ToL1MessagePasser`
abbrev pub message_passer : ℕ
message_passer = 0x4200000000000000000000000000000000000016

abbrev pub lifted {ℓ} : {A : Type ℓ} → Result String A → Result Failure A
lifted (ok a) = ok a
lifted (err e) = err (fails e)

abbrev pub crashing {ℓ} : {A : Type ℓ} → Result Crash A → Result Failure A
crashing (ok a) = ok a
crashing (err c) = err (panics c)

module _ {State : Type 0} (db : StateDb State) where
  unfoldable pub fund : Account → State → Option ℕ → Result Failure State
  fund account state none = ok state
  fund account state (some balance) =
      if ltb balance (2 ^ 256)
      then ok (db.add_balance account.address balance state)
      else err (balance_too_large balance)

  unfoldable pub set_slots : ℕ → List (ℕ × ℕ) → State → State
  set_slots address [] state = state
  set_slots address ((key, value) ∷ slots) state =
      set_slots address slots (db.set_state address key value state)

  -- The loop over the allocation.
  unfoldable pub set_accounts : List Account → State → Result Failure State
  unfolding fund set_slots
  set_accounts [] state = ok state
  set_accounts (account ∷ accounts) state = do
    funded ← fund account state account.balance
    set_accounts accounts (
        set_slots account.address account.storage (
          db.set_nonce account.address account.nonce
            (db.set_code account.address account.code funded)))

  -- `hashAlloc`: the root of the state, and of the storage of the message passer with Isthmus.
  unfoldable pub hash_alloc : List Account → Bool → Bool → Result Failure (ℕ × ℕ)
  unfolding set_accounts
  hash_alloc accounts is_verkle is_isthmus = do
    empty ← lifted (db.new is_verkle)
    state ← set_accounts accounts empty
    (root, committed) ← lifted (db.commit state)
    ok (root, if is_isthmus then db.get_storage_root message_passer committed else 0)

  -- The method is called on a pointer, and reads a field of it.
  abbrev pub present : Option OpChainConfig → Result Failure OpChainConfig
  present none = err (panics nil_dereference)
  present (some config) = ok config

  -- `toOpBlock`
  unfoldable pub to_op_block : Geth → GenesisCodec → String → Result Failure Header
  unfolding hash_alloc is_optimism_isthmus to_block_with_root
  to_op_block geth codec content = do
    g ← lifted (codec.core_genesis content)
    pointer ← lifted (codec.op_config content)
    config ← present pointer
    (root, passer) ←
        hash_alloc (codec.alloc content) (codec.is_verkle content)
          (is_optimism_isthmus config g.timestamp)
    crashing (to_block_with_root geth config g root passer)
