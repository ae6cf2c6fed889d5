-- ===== src/Lib.antt =====
-- switchboard-cli (orchestrator-cli): a command line tool that runs training jobs on providers.
-- A job is routed to a provider (internal/routing, over the adapters of internal/provider), run in
-- attempts that are recorded in a store (internal/state, driven by internal/cli), and, on the VM
-- clouds of internal/provider/chinacloud, by a virtual machine.
--
-- Common          shared names: lists, integers, order of strings, float64, sorting
-- App             internal/app/types.go: jobs, runs, attempts, resources, decisions, errors
-- Routing         internal/routing/routing.go and internal/provider/registry.go
--   Types, Registry   the options, the adapters and the registry (`Select`'s inputs)
--   Providers         the loop of `Select` over the registered providers
--   Hardware          sizing, constraints and costs (`estimateRequiredVRAM`, `hardwareRejections`, ...)
--   Select            `Select`, `selectHardwareRoute`, `selectManualHardware`, `sortHardware`
--   Eligible, Constraints, Selection, Guarantees   what a decision without an error promises
--   Optimal           that the sorts put the best candidate first
--   Accounts          what is reported, and when the plain choice must succeed
--
-- State           internal/state/store.go: its tables, and its operations as actions that SQLite can
--                 refuse (World, Action, Tables, Decisions, Resources); what a read returns after a
--                 save (RoundTrip), and lemmas on sequences of actions (Passes, Tried, Settled)
-- Checkpoint      internal/checkpoint/resolver.go: `Latest`, and which checkpoint it is (Newest)
-- Cli             internal/cli/root.go: `persistProviderResource` (Persist), `runAttempt` (Attempt) and
--                 `runAttempts` (Attempts); which providers are tried (Tried, Trail, Distinct), that the
--                 run is ended (Settled, Outcome, Termination); `resources cleanup` and `refresh`
--                 (Cleanup) and `cancel` (Cancel), and what they leave (Succeeds, Cleaned, Canceled)
-- Vm              internal/provider/chinacloud/vm_runtime.go: the polling loops and the results
--                 (Runtime), `Submit` (Submit), what becomes of the machine (Disposal), the end of
--                 the loops (Return), references and exit codes (Codes)
-- Config          internal/config/config.go and internal/home/home.go: the file's sections (Settings,
--                 Clouds, Types), defaults and merging (Defaults), paths (Paths), `LoadTrain` (Load) and
--                 its validation (Validate); what the validation asks for (Complete, Accepts), what a
--                 loaded configuration has (Loaded, Ready), the settings of the clouds (Layers)
-- Data            internal/data/preflight.go (Preflight) and internal/sizing/probe.go (Probe); what an
--                 accepted manifest is (Bundles)
-- Credentials     internal/credentials: keys (Keys) and which are canonical (Canonical), the store in
--                 memory and the resolver (Items, Laws), the encrypted file (Encrypted) and what is read
--                 back from it (Persisted)
-- Redact          internal/redact/redact.go: keys (Keys), URIs (Uris), values and the Redactor (Values,
--                 Redactor, Records); what is left of secrets (Hidden, Gone, Secrets, Clean)
-- Summary         internal/summary/summary.go: `Build`, the loop over the events (Scored) and the best
--                 values (Best)
-- Staging         internal/staging: prefixes and environment (Prefix), `StageBundledInputs` (Managed)
--                 and what it has done when it succeeds (Uploaded, Staged)
-- Events          internal/event/ingestor.go: the events of a log, and what is kept of a line (Kept)
-- Artifact        internal/artifact/artifact.go: the paths of a run, and where they lead (Contained)
--
-- The attempts select a provider with Routing, write through State, resume at what Checkpoint finds
-- and call an adapter's Submit, which is a tree of callbacks (Cli.Types.Submission) in which a cancel
-- command of another process can write between two callbacks. The loop of `runAttempts` recurses on
-- the number of rounds left. The loops of the VM runtime run on fuel; what they ask the cloud is
-- numbered by the round, and the fuel is enough once it passes a round that ends the loop.
--
-- Go's `float64` is a parameter (Common.Float): its comparisons are assumed to be a total order away
-- from NaN, which is documented for `<` and `==`, and nothing is assumed of its arithmetic. The
-- functions of `strings` and `net/url` are the record GoText, without laws. A Go map is an
-- association list, a nil pointer is `none`, an error is a value of App.Errors, and a formatted
-- reason is a constructor that holds what is formatted. `sort.SliceStable` and `sort.Slice` are an
-- insertion sort, which is a stable sort; for `sort.Slice` this is one of the orders that it may
-- give to elements that compare equal.
--
-- SQLite answers each statement with success or an error (State.World); instants, random ids and the
-- RFC3339Nano texts are the record Platform.
--
-- net/url, YAML, JSON, base64, the cipher, argon2, the environment, path/filepath and the file
-- system are records of functions (Config.Types.Machine, Data.Preflight.Files,
-- Data.Probe.ProbeTools, State.Decisions.DecisionJson, Credentials.Encrypted.Crypto and SaveAnswers, Redact.Uris.UriTools,
-- Staging.Managed.StageTools, Events.EventTools, Artifact.PathTools); the functions of `strings`
-- that work on single characters are in Common.Strings, with unicode.ToLower on what is not ASCII
-- as a parameter.
--
-- Not modelled: the commands' flags and rendering, the creation of a run's files, the
-- provider clients (HTTP, SSH, docker), the migrations of the store, and the JSON
-- of the metadata of its resources.
pub mod Common
pub mod App
pub mod Routing
pub mod State
pub mod Checkpoint
pub mod Cli
pub mod Vm
pub mod Config
pub mod Data
pub mod Credentials
pub mod Redact
pub mod Summary
pub mod Staging
pub mod Events
pub mod Artifact
