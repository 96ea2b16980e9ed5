-- ===== src/Artifacts/Total.antt =====
-- `Build` of playground/artifacts.go returns, when it is answered as Artifacts/Answers says.
use builder_playground.Prelude.{
  ℕ, String, Option, none, some, List, [], ◌∷◌, ◌≡◌, refl, sym, ap, ◌>>=◌, ok_inj, Result, ok, err,
  Stop, raised, raised_as, if_cases, Succeeds, Returns, Returns-ok, Returns-bind, Succeeds-raised,
  Returns-raised, All, ◌⊕◌,
}
use builder_playground.Output.Free.{Free, Encodes, write_data-Free, write_batch-Free}
use builder_playground.Output.Data.{Disk, bytes, ext, object_data, write_data}
use builder_playground.Genesis.{
  Fields, ArtifactsBuilder, with_defaults, op_timestamp, fork_time, genesis_input, rollup_input,
  wrap, merge_map, override_json,
}
use builder_playground.Genesis.Block.{Header}
use builder_playground.Genesis.Alloc.{StateDb, Failure, to_op_block}
use builder_playground.Artifacts.{
  Libraries, L1Genesis, BeaconState, unless_error, get_home_dir, clear, load_config, trim_0x,
  addresses_of, dumped_state, prefunded_accounts, genesis_time_of, l1_genesis, l1_files, build_l1,
  l2_genesis, l2_rollup, op_block, build_l2, empty_disk, build_in, build,
}
use builder_playground.Artifacts.Answers.{
  Works, WorksIn, HasAddress, convert-Succeeds, to_op_block-Succeeds,
}
use mathlib.Core.Path.{subst}

wrap-Succeeds :
    {A : Type 0} (message : String) (r : Result String A) → Succeeds r → Succeeds (wrap message r)
wrap-Succeeds message (ok a) h = Returns-ok tt
wrap-Succeeds message (err e) h = (let bad = h.returned in cc)

Returns-raised_as :
    {A : Type 0} {P : A → Type 0} (message : String) (r : Result String A)
    → Returns P r
    → Returns P (raised_as message r)
Returns-raised_as {P} message (ok a) h = Returns-ok (subst P (ok_inj (sym h.returned)) h.holds)
Returns-raised_as message (err e) h = (let bad = h.returned in cc)

unless_none : (message : String) (e : Option String) → e ≡ none → Succeeds (unless_error message e)
unless_none message none h = Returns-ok tt
unless_none message (some e) h = cc

op_block-Succeeds : (r : Result Failure Header) → Succeeds r → Succeeds (op_block r)
op_block-Succeeds (ok header) h = Returns-ok tt
op_block-Succeeds (err failure) h = (let bad = h.returned in cc)

-- A call whose answer is known, and the rest of its block.
Returns-step :
    {E A B : Type 0} {P : A → Type 0} (m : Result E B) (a : B) (f : B → Result E A)
    → m ≡ ok a
    → Returns P (f a)
    → Returns P (m >>= f)
Returns-step {P} m a f e h = subst (λ r. Returns P (r >>= f)) (sym e) h

-- The rest of a block may use the equation of the value.
Returns-itself : {E A : Type 0} (r : Result E A) → Succeeds r → Returns (λ a. r ≡ ok a) r
Returns-itself r h = record { value = h.value; returned = h.returned; holds = h.returned }

module _ {State : Type 0} (lib : Libraries) (db : StateDb State) where
  override_json-Succeeds :
      (content : String) (overrides : Fields)
      → Succeeds (lib.unmarshal content)
      → ((fields : Fields) → Succeeds (lib.marshal fields))
      → Succeeds (override_json lib.unmarshal lib.marshal content overrides)
  unfolding override_json merge_map
  override_json-Succeeds content overrides h k =
      Returns-bind (wrap "failed to unmarshal original JSON: " (lib.unmarshal content)) _
        (wrap-Succeeds "failed to unmarshal original JSON: " (lib.unmarshal content) h)
        λ original _.
          wrap-Succeeds "failed to marshal modified JSON: "
            (lib.marshal (merge_map overrides original)) (k _)

  addresses_of-Succeeds :
      (accounts : List String)
      → All (HasAddress lib db) accounts
      → Succeeds (addresses_of lib accounts)
  unfolding addresses_of
  addresses_of-Succeeds [] h = Returns-ok tt
  addresses_of-Succeeds (account ∷ accounts) (p, h) =
      Returns-bind (raised (lib.decode_hex (trim_0x account))) _
        (Returns-raised (lib.decode_hex (trim_0x account)) p)
        λ priv_buf q.
          Returns-bind (raised (lib.key_address priv_buf)) _
            (Succeeds-raised (lib.key_address priv_buf) q)
            λ address _.
              Returns-bind (addresses_of lib accounts) _ (addresses_of-Succeeds accounts h)
                λ rest _. Returns-ok tt

module _ {State : Type 0} (lib : Libraries) (db : StateDb State) (b : ArtifactsBuilder)
    (works : WorksIn lib db b) where
  abbrev time : ℕ
  time = genesis_time_of lib b

  clear-Succeeds : Succeeds (clear lib b.output_dir)
  unfolding clear
  clear-Succeeds =
      if_cases (λ (r : Result Stop (Unit {0})). Succeeds r) (lib.exists b.output_dir)
        (λ _. unless_none "" (lib.remove_error b.output_dir) works.removes) (λ _. Returns-ok tt)

  load_config-ok : load_config lib b ≡ ok works.config
  unfolding load_config
  load_config-ok = rw (works.config_eq, works.activates) refl

  dumped_state-Succeeds : Succeeds (dumped_state lib)
  unfolding dumped_state
  dumped_state-Succeeds =
      Returns-bind (raised_as "failed to unmarshal opState: " (lib.l1_state_dump lib.op_state)) _
        (Returns-raised_as "failed to unmarshal opState: " _ works.state)
        λ dump h1.
          Returns-bind (raised_as "failed to decode opState: " (lib.decode_base64 dump)) _
            (Returns-raised_as "failed to decode opState: " _ h1)
            λ decoded h2.
              Returns-bind (raised_as "failed to create gzip reader: " (lib.gzip_reader decoded)) _
                (Returns-raised_as "failed to create gzip reader: " _ h2)
                λ reader h3.
                  Returns-bind (raised_as "failed to read opState: " (lib.read_all reader)) _
                    (Returns-raised_as "failed to read opState: " _ h3)
                    λ contents h4. Returns-raised_as "failed to unmarshal opState: " _ h4

  l1_genesis-Succeeds : Succeeds (l1_genesis lib time works.config)
  unfolding l1_genesis
  l1_genesis-Succeeds =
      Returns-bind (addresses_of lib prefunded_accounts) _
        (addresses_of-Succeeds lib db prefunded_accounts works.addresses)
        λ addresses _.
          Returns-bind (dumped_state lib) _ dumped_state-Succeeds λ state _. Returns-ok tt

  -- Every file of the batch has a kind, and an extension, that `WriteFile` can encode.
  l1_files-Encodes :
      (state : BeaconState) (gen : L1Genesis)
      → Succeeds state.ssz
      → Succeeds (lib.genesis_json gen)
      → All
          (λ entry. Encodes entry.0 entry.1)
          (l1_files lib works.config state gen works.validators)
  unfolding object_data ext
  l1_files-Encodes state gen s g = (
    convert-Succeeds works.config works.printable,
    (
      s,
      (
        Succeeds-raised (lib.genesis_json gen) g,
        (tt, (tt, (tt, (tt, (tt, (works.keystores, (tt, tt))))))),
      ),
    ),
  )

  build_l1-Free :
      (gen : L1Genesis) (disk : Disk)
      → l1_genesis lib time works.config ≡ ok gen
      → Free disk
      → Returns Free (build_l1 lib b time gen works.config disk)
  unfolding build_l1
  build_l1-Free gen disk made free =
      Returns-step (raised (lib.generate_keys 100)) works.validators _
        (ap (λ r. raised r) works.validators_eq)
        (Returns-step (raised (lib.deposit_data works.validators)) works.deposits _
          (ap (λ r. raised r) works.deposits_eq)
          (Returns-bind
            (raised
              (lib.premined time b.apply_latest_l1_fork (lib.l1_block_hash gen) works.deposits))
            _ (Returns-raised _ (works.premines gen made))
            λ state s.
              write_batch-Free (l1_files lib works.config state gen works.validators) disk
                (l1_files-Encodes state gen s (works.prints gen made)) free))

  l2_genesis-Succeeds : Succeeds (l2_genesis lib db b (op_timestamp time))
  unfolding l2_genesis
  l2_genesis-Succeeds =
      Returns-bind (addresses_of lib prefunded_accounts) _
        (addresses_of-Succeeds lib db prefunded_accounts works.addresses)
        λ addresses _. Succeeds-raised _ (
          override_json-Succeeds lib db lib.op_genesis
            (genesis_input lib.hex addresses (fork_time b (op_timestamp time)) (op_timestamp time))
            works.op_genesis works.marshals)

  l2_rollup-Succeeds :
      (l1_hash content : String)
      → l2_genesis lib db b (op_timestamp time) ≡ ok content
      → Succeeds (l2_rollup lib db b (op_timestamp time) l1_hash content)
  unfolding l2_rollup
  l2_rollup-Succeeds l1_hash content made =
      Returns-bind (op_block (to_op_block db lib.geth lib.genesis_codec content)) _
        (op_block-Succeeds _
          (to_op_block-Succeeds lib db content works.keeps (works.reads content made)))
        λ header _. Succeeds-raised _ (
          override_json-Succeeds lib db lib.op_rollup_config
            (rollup_input l1_hash (lib.header_hash header) b (fork_time b (op_timestamp time))
              (op_timestamp time))
            works.op_rollup works.marshals)

  pub build_l2-Free :
      (l1_hash : String) (disk : Disk)
      → Free disk
      → Returns Free (build_l2 lib db b (op_timestamp (genesis_time_of lib b)) l1_hash disk)
  unfolding build_l2
  build_l2-Free l1_hash disk free =
      Returns-bind (l2_genesis lib db b (op_timestamp time)) _
        (Returns-itself _ l2_genesis-Succeeds)
        λ genesis made.
          Returns-bind (l2_rollup lib db b (op_timestamp time) l1_hash genesis) _
            (l2_rollup-Succeeds l1_hash genesis made)
            λ rollup _.
              Returns-bind (write_data "l2-genesis.json" (bytes genesis) disk) _
                (write_data-Free "l2-genesis.json" (bytes genesis) disk tt free)
                λ d1 free1. write_data-Free "rollup.json" (bytes rollup) d1 tt free1

  build_in-Free : (home_dir : String) → Returns Free (build_in lib db home_dir b)
  unfolding build_in
  build_in-Free home_dir =
      let start = empty_disk lib db b.output_dir home_dir in
      Returns-bind (clear lib b.output_dir) _ clear-Succeeds λ _ _.
        Returns-step (load_config lib b) works.config _ load_config-ok (
          Returns-bind (l1_genesis lib time works.config) _ (Returns-itself _ l1_genesis-Succeeds)
            λ gen made.
              Returns-bind (build_l1 lib b time gen works.config start) _
                (build_l1-Free gen start made (works.allows, refl))
                λ disk free. build_l2-Free (lib.l1_block_hash gen) disk free)

module _ {State : Type 0} (lib : Libraries) (db : StateDb State) where
  get_home_dir-ok :
      (b : ArtifactsBuilder) (works : Works lib db b)
      → get_home_dir lib ≡ ok (works.home ⊕ "/.playground")
  unfolding get_home_dir
  get_home_dir-ok b works = rw (works.home_eq, works.makes) refl

  pub build-Free : (b : ArtifactsBuilder) → Works lib db b → Returns Free (build lib db b)
  unfolding build
  build-Free b works =
      let home_dir = works.home ⊕ "/.playground" in
      Returns-step (get_home_dir lib) home_dir _ (get_home_dir-ok b works)
        (build_in-Free lib db (with_defaults home_dir b) works.inner home_dir)
