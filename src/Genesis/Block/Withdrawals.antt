-- ===== src/Genesis/Block/Withdrawals.antt =====
-- The withdrawals of the genesis block of playground/genesis_op.go.
use builder_playground.Prelude.{
  eqb, ℕ, Bool, true, false, Option, none, some, ◌≡◌, refl, sym, ◌∙◌, if◌then◌else◌, Result, ok,
  err, ◌>>=◌,
}
use mathlib.Core.Path.{subst}
use builder_playground.Genesis.Block.{
  ChainConfig, OpChainConfig, CoreGenesis, Header, Geth, Crash, nil_dereference,
  is_optimism_isthmus, with_shanghai, with_cancun, with_prague, with_isthmus, passer_hash,
  first_header, forked_header, has_withdrawals, final_header, copied_hash, finished,
  to_block_with_root,
}

module _ (geth : Geth) where
  abbrev forks : (isthmus prague cancun shanghai : Bool) → CoreGenesis → ℕ → Header → Header
  forks isthmus prague cancun shanghai g storage_root h =
      with_isthmus geth isthmus storage_root
        (with_prague geth prague (with_cancun geth cancun g (with_shanghai geth shanghai h)))

  forks-time :
      (isthmus prague cancun shanghai : Bool) (g : CoreGenesis) (storage_root : ℕ) (h : Header)
      → (forks isthmus prague cancun shanghai g storage_root h).time ≡ h.time
  forks-time i p c s g storage_root h = isthmus i _ ∙ prague p _ ∙ cancun c _ ∙ shanghai s h
    where
      shanghai : (b : Bool) (h : Header) → (with_shanghai geth b h).time ≡ h.time
      shanghai true h = refl
      shanghai false h = refl

      cancun : (b : Bool) (h : Header) → (with_cancun geth b g h).time ≡ h.time
      cancun true h = refl
      cancun false h = refl

      prague : (b : Bool) (h : Header) → (with_prague geth b h).time ≡ h.time
      prague true h = refl
      prague false h = refl

      isthmus : (b : Bool) (h : Header) → (with_isthmus geth b storage_root h).time ≡ h.time
      isthmus true h = refl
      isthmus false h = refl

  abbrev hash_of : Bool → Bool → ℕ → Option ℕ → Option ℕ
  hash_of true shanghai storage_root before = some (passer_hash geth storage_root)
  hash_of false true storage_root before = some geth.empty_withdrawals_hash
  hash_of false false storage_root before = before

  forks-hash :
      (isthmus prague cancun shanghai : Bool) (g : CoreGenesis) (storage_root : ℕ) (h : Header)
      → (forks isthmus prague cancun shanghai g storage_root h).withdrawals_hash
        ≡ hash_of isthmus shanghai storage_root h.withdrawals_hash
  forks-hash true p c s g r h = refl
  forks-hash false true true true g r h = refl
  forks-hash false true true false g r h = refl
  forks-hash false true false true g r h = refl
  forks-hash false true false false g r h = refl
  forks-hash false false true true g r h = refl
  forks-hash false false true false g r h = refl
  forks-hash false false false true g r h = refl
  forks-hash false false false false g r h = refl

  -- `types.NewBlock` keeps the time of the header.
  abbrev pub KeepsTime : Type 0
  KeepsTime = (withdrawals : Bool) (h : Header) → (geth.new_block withdrawals h).time ≡ h.time

  -- The hash of the withdrawals in a block with Shanghai.
  abbrev pub withdrawals_hash_of : Bool → ℕ → ℕ
  withdrawals_hash_of isthmus storage_root =
      if isthmus
      then (if eqb storage_root 0 then geth.empty_withdrawals_hash else storage_root)
      else geth.empty_withdrawals_hash

  -- A block with the hash of its withdrawals if Shanghai is active, and a panic if it is not.
  abbrev pub Made : Bool → Bool → ℕ → Result Crash Header → Type 0
  Made true isthmus storage_root r =
      (block : Header) × (r ≡ ok block)
      × (block.withdrawals_hash ≡ some (withdrawals_hash_of isthmus storage_root))
  Made false isthmus storage_root r = (crash : Crash) × (r ≡ err crash)

  ending-Made :
      (shanghai isthmus : Bool) (storage_root : ℕ) (head : Header)
      → head.withdrawals_hash ≡ hash_of isthmus shanghai storage_root none
      → Made shanghai isthmus storage_root (
          copied_hash geth head.withdrawals_hash >>= λ copied.
          final_header geth isthmus shanghai copied (geth.new_block shanghai head))
  ending-Made true true storage_root head e = rw e (_, refl, refl)
  ending-Made true false storage_root head e = rw e (_, refl, refl)
  ending-Made false true storage_root head e = rw e (_, refl)
  ending-Made false false storage_root head e = rw e (_, refl)

  configured-Made :
      (op : OpChainConfig) (g : CoreGenesis) (state_root storage_root : ℕ)
      → KeepsTime
      → (c : Option ChainConfig)
      → let head = forked_header geth op g storage_root c (first_header geth g state_root) in
        Made (has_withdrawals geth g c) (is_optimism_isthmus op g.timestamp) storage_root (
          copied_hash geth head.withdrawals_hash
          >>= finished geth op (has_withdrawals geth g c) head)
  unfolding forked_header first_header
  configured-Made op g state_root storage_root keeps none = (nil_dereference, refl)
  configured-Made op g state_root storage_root keeps (some conf) =
      let i = is_optimism_isthmus op g.timestamp in
      let p = conf.is_prague g.number g.timestamp in
      let c = conf.is_cancun g.number g.timestamp in
      let s = conf.is_shanghai g.number g.timestamp in
      let first = first_header geth g state_root in
      let head = forks i p c s g storage_root first in
      subst
        (λ t. Made s i storage_root (
          copied_hash geth head.withdrawals_hash >>= λ copied.
          final_header geth (is_optimism_isthmus op t) s copied (geth.new_block s head)))
        (sym (keeps s head ∙ forks-time i p c s g storage_root first))
        (ending-Made s i storage_root head (forks-hash i p c s g storage_root first))

  -- If `types.NewBlock` keeps the time of a header, `toBlockWithRoot` makes a block exactly when
  -- the chain has Shanghai at genesis, and panics if not; the hash of its withdrawals is the root
  -- of the message passer with Isthmus, or the empty one where this root is zero, and the empty one
  -- without Isthmus.
  pub to_block_with_root-Made :
      (op : OpChainConfig) (g : CoreGenesis) (state_root storage_root : ℕ)
      → KeepsTime
      → Made
          (has_withdrawals geth g g.config)
          (is_optimism_isthmus op g.timestamp)
          storage_root
          (to_block_with_root geth op g state_root storage_root)
  unfolding to_block_with_root
  to_block_with_root-Made op g state_root storage_root keeps =
      configured-Made op g state_root storage_root keeps g.config
