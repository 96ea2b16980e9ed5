-- ===== src/Lib.antt =====
-- A model of the playground: from a recipe to a validated manifest of services.
--
-- A recipe's `Apply` adds components to a manifest; each component's `Run` describes one service
-- (image, arguments, ports, references, mounts); the arguments are templates, whose first pass
-- records the ports and the references to other services; `Validate` then checks the manifest.
--
-- Files:
--   Prelude: results, Boolean tests, maps, and the string functions of Go that the program calls.
--   Template: the part of text/template that the program uses: text, actions with a function name,
--     quoted and numeric operands. `scan` is the lexer, `execute` runs the functions in order. Laws
--     and Actions say how it reads what the program writes.
--   Output: `output`, `ConnectRaw` and its variants and `GetEnodeAddr` of playground/artifacts.go.
--     A folder is the list of the paths that exist; Output/Data adds the contents of the files, with
--     `WriteFile`, `WriteBatch` and `Encode`; Output/Written is what they leave, and Output/Free when
--     they return.
--   Artifacts: `Build`, `GetHomeDir` and `getPrivKey` of playground/artifacts.go, on what the system
--     and the packages answer (`Libraries`); Artifacts/Config is `convert`. Artifacts/Answers is what
--     they answer in a run that goes through; Artifacts/Complete and Artifacts/Total are about the
--     files that are written, Artifacts/Rollup about those of the L2
--     chain, Artifacts/Cooked about the recipes on them.
--   Service: `Service` and its methods, playground/manifest.go. Service/FirstPass is `applyTemplate`;
--     Service/Literals, Service/RoundTrip and Service/Ports are about it and about `WithPort`.
--   Context: `ExContext`, `LogLevel`, `ContenderContext`, `BootnodeRef` of playground/manifest.go.
--   Component: `Run` of every component of playground/components.go: Ethereum (reth, lighthouse,
--     cl-proxy, mev-boost and its relay), Optimism (op-geth, op-node, op-batcher, op-reth), Rollup
--     (rollup-boost, op-rbuilder, flashblocks-rpc, bproxy, websocket-proxy), Hub (builder-hub, its
--     database and its mock proxy) and Contender.
--   Catalog: playground/catalog.go, the components as one type, with `Name` and `Run`.
--   Manifest: `AddService`, `GetService`, `Validate` and `RunContenderIfEnabled` of
--     playground/manifest.go. Manifest/Spec is the specification of `Validate`, Manifest/Shapes and
--     Manifest/Yields the summary of a service on which the theorems on recipes are computed,
--     Manifest/Spammer the contender service, Manifest/Graph
--     the graph of a manifest and the search in a log, Manifest/Json its JSON (Manifest/Json/Structs
--     has the tags, `SaveJson` and `ReadManifest`), Manifest/Accepted what a recipe's theorem needs.
--   Recipe: `Apply` of playground/recipe_l1.go (Lone), playground/recipe_buildernet.go (BuilderNet)
--     and playground/recipe_opstack.go (OpStack); Valid or Verdict below a recipe say when its manifest is
--     valid, Recipe/BuilderNet/Addresses what its `Output` gives.
--   Runner: `LocalRunner` of playground/local_runner.go: the host ports that it reserves
--     (Runner/Ports), the second template pass, which resolves references to addresses
--     (Runner/Second), the status of its tasks (Runner/Status), its start (Runner/Create), the compose
--     file (Runner/Compose), the commands on the host (Runner/Host), the events of docker
--     (Runner/Track, with Runner/Track/Readiness, Runner/Track/Failures and Runner/Track/Started on when a session is
--     ready),
--     and `Run` and `Stop` (Runner/Session, with Runner/Session/Ends on what is killed).
--   Genesis: `ArtifactsBuilder`, the overrides of the L2 files and `mergeMap` of playground/artifacts.go
--     (Genesis/Merge, Genesis/Paths, Genesis/Times), and the genesis block of
--     playground/genesis_op.go (Genesis/Block) with the state that it commits to (Genesis/Alloc).
--   Proxy: `handleRequest` and `proxy` of cl-proxy/cl-proxy.go; Proxy/Mirror is what the secondary gets,
--     Proxy/Panics when the handler panics.
--   Relay: the database in memory of mev-boost-relay/mev-boost-relay.go, its registrations
--     (Relay/Registry) and its delivered payloads (Relay/Payloads), and `New` (Relay/Server), with
--     Relay/Server/Twice on what it leaves in the process.
--   Watch: the loops of playground/watchers.go and playground/watchdog.go on the events that they
--     see: the start of a chain (Watch/Start), the order of its slots (Watch/Slots) and the slots and
--     heads that are reported (Watch/Heads).
--   Flag: the values of flags of playground/utils.go; Flag/Numbers is about the numbers.
--   Command: `runIt` of main.go, with the Prometheus service of playground/local_runner.go, as the
--     files that it writes and its calls of the runner; Command/Session is about the order of these.
--     Command/Cook is about the recipes on built artifacts, Command/Tools the other commands:
--     artifacts, artifacts-all, inspect and cook.
--   Release: `DownloadRelease` of playground/releases.go, with the releases of reth and op-reth;
--     Release/Archive is what it takes from an archive, Release/Cached what a second call finds.
--   Inspect: playground/inspect.go; Inspect/Labels is about the labels that the runner writes,
--     Inspect/Cleanup about the container of tcpflow.
--   Tests: the theorems at concrete inputs.
--
-- A method that may panic returns a result. A Go map is an association list; no result that is
-- proved depends on its order. What third-party packages compute is the parameter `Keys`: which
-- numbers are private keys of the curve, the node id of a key, and the relay's public key. The
-- lexer and all loops recurse on the text or the list that they read. `decimal` prints a number on
-- fuel one above the number, and each step divides by ten, so the fuel is enough.
--
-- A context that is shared by pointer is passed from call to call. The theorems on recipes assume
-- that contender has no extra arguments and no target of its own, which is the default.
--
-- A loop that waits for events is a function of the list of the events that it sees; a list that ends
-- before the loop does leaves it waiting. Numbers of uint64 are added and subtracted modulo 2 ^ 64. The
-- JSON codec and the HTTP client of cl-proxy are the parameter `Net`, and what the relay's packages
-- say of registrations and blocks is the parameter `Packages`. An entry is saved by value, and no
-- caller changes what the database returns.
--
-- The chain configuration, the constants and `types.NewBlock` of go-ethereum are parameters of the
-- genesis block, the JSON codec is one of `overrideJSON`, and what the file system and docker answer is
-- one of the runner's definitions. A path below the output folder is the folder, a slash and a name
-- that needs no cleaning.
--
-- Whether a port can be listened on is a parameter of the runner's definitions. Its loop tries a
-- thousand ports, as in the source.
--
-- `Build` visits the map of its files in the order of the source; Go's order is not fixed. A folder
-- is removed before `Build` writes in it, so it starts empty.
--
-- `exitErr` has room for two errors, which `runIt` and `WaitForReady` receive; between two of these,
-- a third sender waits. In a round of `WaitForReady` an error that is there when its second has passed
-- is taken to come before the tick.
--
-- The docker client, the operating system and the clients of the network are parameters or the events
-- and answers that a function is given.
--
-- Not modelled: the contents of the artifacts that go-ethereum and prysm generate, the services of the
-- relay's packages, and what is shown in the terminal.
pub mod Prelude
pub mod Proxy
pub mod Template
pub mod Output
pub mod Artifacts
pub mod Release
pub mod Inspect
pub mod Service
pub mod Context
pub mod Command
pub mod Component
pub mod Catalog
pub mod Flag
pub mod Genesis
pub mod Manifest
pub mod Recipe
pub mod Relay
pub mod Runner
pub mod Watch
pub mod Tests
