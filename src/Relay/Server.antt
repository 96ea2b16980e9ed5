-- ===== src/Relay/Server.antt =====
-- `New` of mev-boost-relay/mev-boost-relay.go: from the configuration to the services of the relay. A
-- process has its environment and the patterns of `http.DefaultServeMux`, which outlive a call.
pub mod Twice
use builder_playground.Prelude.{
  String, Bool, true, false, Option, none, some, List, [], ◌∷◌, ◌⊕◌, GoMap, insert, if◌then◌else◌,
  ◌==◌, decimal, Result, ok, err,
}
use builder_playground.Artifacts.{trim_0x}
use builder_playground.Relay.{Config, spec_uri}

-- Why `New` ends without a relay: an error, a panic, or `Fatalf`, which ends the process.
pub data Halt : Type 0 where
  fails panics exits : String → Halt

-- The environment, and whether the pattern of the mock service has a handler.
pub record Process : Type 0 where
  pub env : GoMap String
  pub has_root : Bool

-- The fields of `Spec` that are read.
pub record Spec : Type 0 where
  pub bellatrix_fork_version : String
  pub capella_fork_version : String
  pub deneb_fork_version : String
  pub electra_fork_version : String

pub record GenesisInfo : Type 0 where
  pub genesis_fork_version : String
  pub genesis_validators_root : String

-- What the system, the beacon node and the packages of the relay answer.
pub record Outside : Type 1 where
  pub set_env : String → Option String
  -- The first status of the beacon client, and those until the timeout: whether it comes without an error.
  pub synced : Bool
  pub synced_later : List Bool
  pub get : String → Result String String
  -- The field `data`, which may be missing or null.
  pub unmarshal_spec : String → Result String (Option Spec)
  pub genesis : Result String GenesisInfo
  pub EthNetworkDetails : Type 0
  pub custom_details : GoMap String → Result String EthNetworkDetails
  pub miniredis : Result String String
  pub redis_cache : String → Option String
  pub datastore : Option String
  pub listen : Result String String
  pub decode_hex : String → Result String String
  pub SecretKey : Type 0
  pub secret_key : String → Result String SecretKey
  pub relay_api : Option String

-- A call on a state: the environment, the process, or nothing.
abbrev pub Action : Type 0 → Type 0 → Type 0
Action S A = S → Result Halt A × S

module _ {S A : Type 0} where
  abbrev pub pure : A → Action S A
  pure a s = (ok a, s)

  abbrev pub raise : Halt → Action S A
  raise e s = (err e, s)

  abbrev pub after : {B : Type 0} → Result Halt B × S → (B → Action S A) → Result Halt A × S
  after (ok b, s) f = f b s
  after (err e, s) f = (err e, s)

  -- An error of a call, with what `New` puts in front of it.
  abbrev pub called : String → Result String A → Action S A
  called message (ok a) = pure a
  called message (err e) = raise (fails (message ⊕ e))

infixl 5 ◌>>=◌ ◌>>◌
abbrev pub ◌>>=◌ : {S A B : Type 0} → Action S A → (A → Action S B) → Action S B
◌>>=◌ m f s = after (m s) f

abbrev pub ◌>>◌ : {S A B : Type 0} → Action S A → Action S B → Action S B
m >> k = m >>= λ _. k

abbrev pub none_or : Halt → Option String → Action (Unit {0}) (Unit {0})
none_or halt none = pure tt
none_or halt (some e) = raise halt

-- What only changes the environment, and what changes nothing.
abbrev pub on_env : {A : Type 0} → Action (GoMap String) A → Action Process A
on_env m p = let (r, env) = m p.env in (r, record { env = env; has_root = p.has_root })

abbrev pub stateless : {A : Type 0} → Action (Unit {0}) A → Action Process A
stateless m p = ((m tt).0, p)

module _ (o : Outside) where
  -- os.Setenv, with what it answers.
  abbrev pub set_env_or :
      String → String → String → Option String → Action (GoMap String) (Unit {0})
  set_env_or message key value none env = (ok tt, insert key value env)
  set_env_or message key value (some e) env = (err (fails (message ⊕ key ⊕ ": " ⊕ e)), env)

  -- The loop of `generateEthNetworkDetails`, in the order of the source.
  unfoldable pub set_envs : GoMap String → Action (GoMap String) (Unit {0})
  unfolding insert
  set_envs [] = pure tt
  set_envs ((k, v) ∷ envs) =
      set_env_or "failed to generate eth network details: failed to set env var " k v (o.set_env k)
      >> set_envs envs

  -- The loop over the one feature flag.
  unfoldable pub enable_feature : Action (GoMap String) (Unit {0})
  unfolding insert
  enable_feature =
      set_env_or "failed to feature flag " "ENABLE_BUILDER_CANCELLATIONS" "1"
        (o.set_env "ENABLE_BUILDER_CANCELLATIONS")

  -- The loop that waits for the beacon client: a status is asked for before the timeout is looked at.
  unfoldable pub wait_synced : Bool → List Bool → Action (GoMap String) (Unit {0})
  wait_synced true later = pure tt
  wait_synced false [] = raise (fails "beacon client failed to start")
  wait_synced false (next ∷ later) = wait_synced next later

  -- `getSpec`
  unfoldable pub get_spec : String → Action (GoMap String) (Option Spec)
  unfolding spec_uri
  get_spec beacon_url = do
    body ← called "failed to get spec: " (o.get (spec_uri beacon_url))
    called "failed to get spec: " (o.unmarshal_spec body)

  abbrev pub envs_of : Spec → GenesisInfo → GoMap String
  envs_of spec info =
      ("GENESIS_FORK_VERSION", info.genesis_fork_version)
      ∷ (("GENESIS_VALIDATORS_ROOT", info.genesis_validators_root)
          ∷ (("BELLATRIX_FORK_VERSION", spec.bellatrix_fork_version)
              ∷ (("CAPELLA_FORK_VERSION", spec.capella_fork_version)
                  ∷ (("DENEB_FORK_VERSION", spec.deneb_fork_version)
                      ∷ (("ELECTRA_FORK_VERSION", spec.electra_fork_version) ∷ [])))))

  -- `generateEthNetworkDetails`; a spec that is missing is a nil dereference.
  unfoldable pub generate_eth_network_details :
      Option Spec → GenesisInfo → Action (GoMap String) o.EthNetworkDetails
  unfolding set_envs
  generate_eth_network_details none info = raise (panics "nil spec")
  generate_eth_network_details (some spec) info = set_envs (envs_of spec info) >> λ env.
      called "failed to generate eth network details: " (o.custom_details env) env

  -- The beginning of `New`, up to the network details.
  unfoldable pub prepare : Config → Action (GoMap String) o.EthNetworkDetails
  unfolding enable_feature wait_synced get_spec generate_eth_network_details
  prepare config = do
    enable_feature
    wait_synced o.synced o.synced_later
    spec ← get_spec config.beacon_client_addr
    info ← called "failed to get genesis: " o.genesis
    generate_eth_network_details spec info

  -- `startInMemoryRedisDatastore`, and the datastore on it.
  unfoldable pub start_stores : Action (Unit {0}) (Unit {0})
  start_stores = do
    addr ← called "failed to start in-memory redis: failed to start miniredis: " o.miniredis
    called "failed to start in-memory redis: failed to create redis cache: "
        (elim (o.redis_cache addr) [ none ↦ ok tt | some e ↦ err e ])
    none_or (exits "Failed setting up prod datastore") o.datastore

  -- http.HandleFunc on the default mux: the second handler of a pattern is a panic.
  abbrev pub handle_root : Action Process (Unit {0})
  handle_root p =
      if p.has_root
      then (err (panics "http: multiple registrations for /"), p)
      else (ok tt, record p { has_root = true })

  -- `startMockBlockValidationServiceServer`
  unfoldable pub start_mock_block_validation_service_server : Action Process String
  start_mock_block_validation_service_server = do
    addr ← called "failed to start mock block validation service: " o.listen
    handle_root
    pure ("http://" ⊕ addr)

  unfoldable pub block_sim_url : Config → Action Process String
  unfolding start_mock_block_validation_service_server
  block_sim_url config =
      if config.validation_server_addr == ""
      then start_mock_block_validation_service_server
      else pure config.validation_server_addr

  -- The fields of `RelayAPIOpts` that depend on the configuration.
  pub record RelayApiOpts : Type 0 where
    pub listen_addr : String
    pub secret_key : o.SecretKey
    pub eth_net_details : o.EthNetworkDetails
    pub block_sim_url : String

  -- The end of `New`.
  unfoldable pub make_api : Config → o.EthNetworkDetails → String → Action (Unit {0}) RelayApiOpts
  unfolding trim_0x decimal
  make_api config details url = do
    env_sk_bytes ←
        called ("incorrect secret key provided '" ⊕ config.api_secret_key ⊕ "': ")
          (o.decode_hex (trim_0x config.api_secret_key))
    secret_key ←
        called ("incorrect builder API secret key provided '" ⊕ config.api_secret_key ⊕ "': ")
          (o.secret_key env_sk_bytes)
    none_or (fails "failed to create service") o.relay_api
    pure (record {
      listen_addr = config.api_listen_addr ⊕ ":" ⊕ decimal config.api_listen_port;
      secret_key = secret_key;
      eth_net_details = details;
      block_sim_url = url;
    })

  -- `New`
  unfoldable pub new : Config → Action Process RelayApiOpts
  unfolding prepare start_stores block_sim_url make_api
  new config = do
    details ← on_env (prepare config)
    stateless start_stores
    url ← block_sim_url config
    stateless (make_api config details url)
