-- ===== src/Tests/Network.antt =====
-- The proxy, the relay's database and the watchers at concrete inputs.
use builder_playground.Prelude.{
  ℕ, String, Bool, true, false, Option, none, some, List, [], ◌∷◌, ◌≡◌, ◌≢◌, ◌↔◌, ◌⊎◌, refl, inl,
  inr, if◌then◌else◌, ◌==◌, arith, All, ok,
}
use builder_playground.Proxy.{
  Net, Config, JsonrpcMessage, Request, answered, panicked, handle_request,
}
use builder_playground.Proxy.Mirror.{
  ReadsBack, Nulls, Harmless, first_sent, later_sent, handle_request-Harmless, handle_request-reply,
}
use builder_playground.Proxy.Panics.{IsRead, to_primary, Bare, handle_request-panics_iff}
use builder_playground.Relay.{
  Packages, DeliveredPayloadEntry, new_inmemory_db, get_validator_registration,
}
use builder_playground.Relay.Registry.{save_all, latest, get-save_all}
use builder_playground.Watch.{
  alive, waiting, slept, timed_out, Round, wait_for_chain_alive, Seen, payload,
  validate_proposer_payloads, BidTraceJson, watch_proposer_payloads,
}
use builder_playground.Watch.Start.{
  HasHead, Starts, wait_for_chain_alive_iff, wait_for_chain_alive-ends,
}
use builder_playground.Watch.Slots.{Orderly, validate_proposer_payloads_iff}
use builder_playground.Watch.Heads.{Ascends, slot_of, AllUpTo, watch_proposer_payloads-Ascends}

-- A message is its method: the codec keeps it, and the call has two parameters.
abbrev choice_call : String → JsonrpcMessage
choice_call method = record {
  version = "2.0";
  id = some "1";
  method = method;
  params = some "state" ∷ some "null" ∷ [];
  result = none;
}

abbrev two_params : List (Option String) → Bool
two_params [] = false
two_params (none ∷ ps) = false
two_params (some p ∷ []) = false
two_params (some p ∷ (some q ∷ ps)) = false
two_params (some p ∷ (none ∷ [])) = true
two_params (some p ∷ (none ∷ (q ∷ ps))) = false

abbrev net : Net
net = record {
  unmarshal = λ content. some (choice_call content);
  marshal = λ m. if two_params m.params then some m.method else none;
  do_request = λ s. answered 200 (some "reply");
}

refuted : {content : String} {X : Type 0} → Path (Option String) none (some content) → X
refuted e = cc

net-ReadsBack : ReadsBack net
net-ReadsBack m content e = codec m.params m.method content e
  where
    codec :
        (ps : List (Option String)) (method content : String)
        → (if two_params ps then some method else none) ≡ some content
        → (back : JsonrpcMessage) × (some (choice_call content) ≡ some back)
          × (back.method ≡ method)
          × Nulls ps back.params
    codec [] method content e = refuted e
    codec (none ∷ ps) method content e = refuted e
    codec (some p ∷ []) method content e = refuted e
    codec (some p ∷ (some q ∷ ps)) method content e = refuted e
    codec (some p ∷ (none ∷ (q ∷ ps))) method content e = refuted e
    codec (some p ∷ (none ∷ [])) method content e = (choice_call content, refl, cc, (refl, tt))

abbrev config : Config
config = record { port = 5656; primary = "http://el"; secondary = "http://builder" }

abbrev request : Request
request = record { method = "POST"; headers = []; body = some "engine_forkchoiceUpdatedV3" }

handle_request-Harmless_example :
    All
      (λ s. (s.dst ≡ config.primary) × (request.body ≡ some s.content))
      (first_sent (handle_request net config request).sent)
    × All
        (λ s. (s.dst ≡ config.secondary) × Harmless net s.content)
        (later_sent (handle_request net config request).sent)
handle_request-Harmless_example = handle_request-Harmless net config net-ReadsBack request

handle_request-reply_example :
    (handle_request net config request).reply
    ≡ (handle_request net (record config { secondary = "" }) request).reply
handle_request-reply_example = handle_request-reply net config "" request

-- A message without parameters.
abbrev bare : JsonrpcMessage
bare = record {
  version = "2.0";
  id = none;
  method = "engine_forkchoiceUpdatedV3";
  params = [];
  result = none;
}

abbrev bare_net : Net
bare_net = record net { unmarshal = λ content. some bare }

handle_request-panics_iff_example : ((handle_request bare_net config request).ending ≡ panicked) ↔ (
    (request.method == "POST" ≡ true)
    × ((content : String) × (m : JsonrpcMessage) × (request.body ≡ some content)
        × (bare_net.unmarshal content ≡ some m)
        × (IsRead (bare_net.do_request (to_primary bare_net config request content))
            × Bare bare_net config m)))
handle_request-panics_iff_example = handle_request-panics_iff bare_net config request

bare_panics : (handle_request bare_net config request).ending ≡ panicked
unfolding handle_request
bare_panics = refl

-- A registration is a key and a fee recipient.
abbrev packages : Packages
packages = record {
  ValidatorRegistrationEntry = String × String;
  pubkey = λ entry. entry.0;
  SignedBlindedBeaconBlock = String;
  marshal = λ block. ok block;
  slots_per_epoch = 32;
}

get-save_all_example :
    get_validator_registration packages "0xaa" (
      save_all packages
        (("0xaa", "1") ∷ (("0xbb", "2") ∷ (("0xaa", "3") ∷ [])))
        (new_inmemory_db packages))
    ≡ latest packages "0xaa"
        (("0xaa", "1") ∷ (("0xbb", "2") ∷ (("0xaa", "3") ∷ [])))
        (get_validator_registration packages "0xaa" (new_inmemory_db packages))
get-save_all_example =
    get-save_all packages "0xaa" (("0xaa", "1") ∷ (("0xbb", "2") ∷ (("0xaa", "3") ∷ [])))
      (new_inmemory_db packages)

abbrev delivered : String → ℕ → DeliveredPayloadEntry
delivered builder number = record {
  signed_at = 0;
  signed_blinded_beacon_block = "{}";
  slot = number;
  epoch = 0;
  builder_pubkey = builder;
  proposer_pubkey = "0xpp";
  proposer_fee_recipient = "0xff";
  parent_hash = "0x00";
  block_hash = "0x01";
  block_number = number;
  gas_used = 0;
  gas_limit = 30000000;
  num_tx = 0;
  value = "0";
  num_blobs = 0;
  blob_gas_used = 0;
  excess_blob_gas = 0;
  publish_ms = 0;
}

abbrev rounds : List Round
rounds =
    record { head_slot = none; choice = slept }
    ∷ (record { head_slot = some 0; choice = timed_out } ∷ [])

wait_for_chain_alive_iff_example :
    (wait_for_chain_alive none rounds ≡ alive) ↔ (HasHead none ⊎ Starts rounds)
wait_for_chain_alive_iff_example = wait_for_chain_alive_iff none rounds

wait_for_chain_alive-ends_example : wait_for_chain_alive none rounds ≢ waiting
wait_for_chain_alive-ends_example = wait_for_chain_alive-ends none rounds (inr (inl (λ e. cc)))

abbrev slots : List Seen
slots = payload 5 3 ∷ (payload 5 4 ∷ (payload 6 5 ∷ []))

validate_proposer_payloads_iff_example :
    (validate_proposer_payloads slots 0 ≡ ok 6) ↔ Orderly 0 slots 6
validate_proposer_payloads_iff_example =
    validate_proposer_payloads_iff slots 6
      ((omega arith, omega arith), ((omega arith, omega arith), ((omega arith, omega arith), tt)))

abbrev bid : ℕ → BidTraceJson
bid n = record { slot = n; builder_pubkey = "0xbb"; block_number = n }

abbrev polls : List (Option (List BidTraceJson))
polls = some (bid 3 ∷ (bid 2 ∷ (bid 4 ∷ []))) ∷ (none ∷ (some (bid 4 ∷ (bid 5 ∷ [])) ∷ []))

watch_proposer_payloads-Ascends_example :
    Ascends slot_of 0 (watch_proposer_payloads polls 0).0 (watch_proposer_payloads polls 0).1
    × AllUpTo (watch_proposer_payloads polls 0).1 polls
watch_proposer_payloads-Ascends_example = watch_proposer_payloads-Ascends polls 0
