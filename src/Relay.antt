-- ===== src/Relay.antt =====
-- mev-boost-relay/mev-boost-relay.go: the relay's database in memory, and what `New` decides.
pub mod Registry
pub mod Payloads
pub mod Server
use builder_playground.Prelude.{
  ℕ, String, Bool, true, false, not, Option, none, some, List, [], ◌∷◌, ◌++◌, ◌/◌, ◌⊕◌, ◌&&◌, GoMap,
  insert, lookup, values, if◌then◌else◌, ◌==◌, eqb, length, decimal, Result, ok, err,
}

-- `Config`, less the writer of the log.
pub record Config : Type 0 where
  pub api_listen_addr : String
  pub api_listen_port : ℕ
  pub api_secret_key : String
  pub beacon_client_addr : String
  pub validation_server_addr : String

-- `DefaultConfig`, with `DefaultSecretKey`.
unfoldable pub default_config : Config
default_config = record {
  api_listen_addr = "127.0.0.1";
  api_listen_port = 5555;
  api_secret_key = "0x5eae315483f028b5cdd5d1090ff0c7618b18737ea9bf3c35047189db22835c48";
  beacon_client_addr = "http://localhost:3500";
  validation_server_addr = "";
}

-- What the relay's packages say of a registration and of a block that is delivered: the key of a
-- registration, the JSON of a block, and the number of slots of an epoch.
pub record Packages : Type 1 where
  pub ValidatorRegistrationEntry : Type 0
  pub pubkey : ValidatorRegistrationEntry → String
  pub SignedBlindedBeaconBlock : Type 0
  pub marshal : SignedBlindedBeaconBlock → Result String String
  pub slots_per_epoch : ℕ

-- The fields of `BidTraceV2WithBlobFields` that are read; keys, hashes and addresses as their text.
pub record BidTrace : Type 0 where
  pub slot : ℕ
  pub builder_pubkey : String
  pub proposer_pubkey : String
  pub proposer_fee_recipient : String
  pub parent_hash : String
  pub block_hash : String
  pub block_number : ℕ
  pub gas_used : ℕ
  pub gas_limit : ℕ
  pub num_tx : ℕ
  pub value : ℕ
  pub num_blobs : ℕ
  pub blob_gas_used : ℕ
  pub excess_blob_gas : ℕ

-- The fields of `database.DeliveredPayloadEntry` that are set.
pub record DeliveredPayloadEntry : Type 0 where
  pub signed_at : ℕ
  pub signed_blinded_beacon_block : String
  pub slot : ℕ
  pub epoch : ℕ
  pub builder_pubkey : String
  pub proposer_pubkey : String
  pub proposer_fee_recipient : String
  pub parent_hash : String
  pub block_hash : String
  pub block_number : ℕ
  pub gas_used : ℕ
  pub gas_limit : ℕ
  pub num_tx : ℕ
  pub value : String
  pub num_blobs : ℕ
  pub blob_gas_used : ℕ
  pub excess_blob_gas : ℕ
  pub publish_ms : ℕ

-- The fields of `database.GetPayloadsFilters` that are read; the block number as the word of 64
-- bits that the conversion to uint64 keeps.
pub record GetPayloadsFilters : Type 0 where
  pub block_number : ℕ
  pub builder_pubkey : String

pub data SaveError : Type 0 where
  marshal_error : String → SaveError
  division_by_zero : SaveError

module _ (pk : Packages) where
  pub record InmemoryDb : Type 0 where
    pub validator_registry_entries : GoMap pk.ValidatorRegistrationEntry
    pub delivered_payloads : List DeliveredPayloadEntry

  -- `newInmemoryDB`
  unfoldable pub new_inmemory_db : InmemoryDb
  new_inmemory_db = record { validator_registry_entries = []; delivered_payloads = [] }

  -- `NumRegisteredValidators`
  unfoldable pub num_registered_validators : InmemoryDb → ℕ
  num_registered_validators db = length db.validator_registry_entries

  -- `SaveValidatorRegistration`
  unfoldable pub save_validator_registration :
      pk.ValidatorRegistrationEntry → InmemoryDb → InmemoryDb
  unfolding insert
  save_validator_registration entry db = record db {
    validator_registry_entries = insert (pk.pubkey entry) entry db.validator_registry_entries;
  }

  -- `GetLatestValidatorRegistrations`, in the order of the association list.
  unfoldable pub get_latest_validator_registrations :
      InmemoryDb → List pk.ValidatorRegistrationEntry
  get_latest_validator_registrations db = values db.validator_registry_entries

  abbrev pub registered :
      Option pk.ValidatorRegistrationEntry → Result String pk.ValidatorRegistrationEntry
  registered none = err "validator registration not found"
  registered (some entry) = ok entry

  -- `GetValidatorRegistration`
  unfoldable pub get_validator_registration :
      String → InmemoryDb → Result String pk.ValidatorRegistrationEntry
  get_validator_registration pubkey db = registered (lookup pubkey db.validator_registry_entries)

  abbrev pub append_found :
      Option pk.ValidatorRegistrationEntry
      → List pk.ValidatorRegistrationEntry
      → List pk.ValidatorRegistrationEntry
  append_found none entries = entries
  append_found (some entry) entries = entry ∷ entries

  -- `GetValidatorRegistrationsForPubkeys`
  unfoldable pub get_validator_registrations_for_pubkeys :
      List String → InmemoryDb → List pk.ValidatorRegistrationEntry
  get_validator_registrations_for_pubkeys [] db = []
  get_validator_registrations_for_pubkeys (pubkey ∷ pubkeys) db =
      append_found (lookup pubkey db.validator_registry_entries)
        (get_validator_registrations_for_pubkeys pubkeys db)

  abbrev pub delivered_entry : BidTrace → String → ℕ → ℕ → DeliveredPayloadEntry
  delivered_entry bid_trace block signed_at publish_ms = record {
    signed_at = signed_at;
    signed_blinded_beacon_block = block;
    slot = bid_trace.slot;
    epoch = bid_trace.slot / pk.slots_per_epoch;
    builder_pubkey = bid_trace.builder_pubkey;
    proposer_pubkey = bid_trace.proposer_pubkey;
    proposer_fee_recipient = bid_trace.proposer_fee_recipient;
    parent_hash = bid_trace.parent_hash;
    block_hash = bid_trace.block_hash;
    block_number = bid_trace.block_number;
    gas_used = bid_trace.gas_used;
    gas_limit = bid_trace.gas_limit;
    num_tx = bid_trace.num_tx;
    value = decimal bid_trace.value;
    num_blobs = bid_trace.num_blobs;
    blob_gas_used = bid_trace.blob_gas_used;
    excess_blob_gas = bid_trace.excess_blob_gas;
    publish_ms = publish_ms;
  }

  abbrev pub save_marshalled :
      Result String String → BidTrace → ℕ → ℕ → InmemoryDb → Result SaveError InmemoryDb
  save_marshalled (err e) bid_trace signed_at publish_ms db = err (marshal_error e)
  save_marshalled (ok block) bid_trace signed_at publish_ms db =
      if eqb pk.slots_per_epoch 0
      then err division_by_zero
      else ok (record db {
        delivered_payloads =
            db.delivered_payloads ++ delivered_entry bid_trace block signed_at publish_ms ∷ [];
      })

  -- `SaveDeliveredPayload`
  unfoldable pub save_delivered_payload :
      BidTrace → pk.SignedBlindedBeaconBlock → ℕ → ℕ → InmemoryDb → Result SaveError InmemoryDb
  save_delivered_payload bid_trace signed_block signed_at publish_ms db =
      save_marshalled (pk.marshal signed_block) bid_trace signed_at publish_ms db

  -- `GetNumDeliveredPayloads`
  unfoldable pub get_num_delivered_payloads : InmemoryDb → ℕ
  get_num_delivered_payloads db = length db.delivered_payloads

-- `filterPayload`: whether an entry is left out.
unfoldable pub filter_payload : DeliveredPayloadEntry → GetPayloadsFilters → Bool
filter_payload entry filter =
    if not (eqb filter.block_number 0) && not (eqb entry.block_number filter.block_number)
    then true
    else if not (filter.builder_pubkey == "") && not (entry.builder_pubkey == filter.builder_pubkey)
    then true
    else false

-- The loop of `GetRecentDeliveredPayloads`.
unfoldable pub unfiltered :
    GetPayloadsFilters → List DeliveredPayloadEntry → List DeliveredPayloadEntry
unfiltered filters [] = []
unfiltered filters (entry ∷ entries) =
    let later = unfiltered filters entries in
    if filter_payload entry filters then later else entry ∷ later

-- `GetRecentDeliveredPayloads`
unfoldable pub get_recent_delivered_payloads :
    (pk : Packages) → GetPayloadsFilters → InmemoryDb pk → List DeliveredPayloadEntry
unfolding unfiltered
get_recent_delivered_payloads pk filters db = unfiltered filters db.delivered_payloads

-- `BeaconClientAddr` to the uri of `getSpec`.
unfoldable pub spec_uri : String → String
spec_uri beacon_url = beacon_url ⊕ "/eth/v1/config/spec"
