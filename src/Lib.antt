-- ===== src/Lib.antt =====
-- rucher runs groups of containers, called cadres, on a node: a cadre is a directory of Quadlet units,
-- native systemd units, support files and a manifest, and each has an OS user of its own. The core of
-- the program is `Apply` of internal/reconcile, which brings the host to the state that the directory
-- asks for, by a plan that internal/plan computes from the files and from the last applied state.
--
-- The parts, and the files that model them:
-- - Fileset: internal/fileset/fileset.go, the classes of files (`IsUnitFile`, `IsSystemdUnit`,
--   `ShouldEnable`, `hasSection`), `UnitService` and the reserved names.
-- - Quadletref: internal/quadletref/quadletref.go, `Extract` and all that it calls. The closure `add`
--   and its set are `add_file` on the list of references; the loop of `splitQuoted` is `split_rune` on
--   the state `Splitter`.
-- - Manifest, Cadre, State: the types of internal/manifest, internal/cadre and internal/state.
-- - Manifest/Validate, Cadre/Validate, Cadre/Load and Cadre/Warnings: `Validate` of internal/manifest,
--   and `Validate`, `Load` and `Warnings` of internal/cadre. A directory is a value with what each read of
--   it returns; the YAML decoder and `time.ParseDuration` are parameters.
-- - Placement: internal/placement/placement.go, `Assigned` over the decoder.
-- - Plan: internal/plan/plan.go. Each loop of `Compute` is a function; Plan/Compute puts them together.
-- - Host: the interface `Runner` of internal/node/runner.go. A computation is a function from a `World`
--   (the commands run so far, and the state files) to a result and a `World`. `Env` holds what is not in
--   the repository or is I/O: the answers of the host, which may depend on every earlier command, the
--   failures of a save, file reads, sha256, the JSON encoder and the decryption of SOPS files.
-- - Ops, Prune, Secrets, Provision: internal/ops, internal/prune, internal/secrets and
--   internal/provision. Provision/Subid is `nextSubidStart` and `hasSubid`.
-- - Reconcile: internal/reconcile/reconcile.go. Reconcile/Apply is `Apply` with its numbered steps,
--   Reconcile/Decide what they decide, Reconcile/NextState `nextState` and `registriesHash`, and
--   Reconcile/Remove is `Remove`, where an `rm -f` of the state file that succeeds takes the file away,
--   Reconcile/Status is `Status`, and Reconcile/New is `New` and `Recipient` with `GenerateAgeKey` of
--   internal/ops.
-- - Agent: internal/agent/agent.go, `Run` as `run_pass`, and `List` of internal/reconcile. It puts
--   Placement, Cadre/Load, Reconcile/Apply and Reconcile/Remove together. `Outside` holds the checkout of
--   the store, the decoders, the decryption of a sealed identity, and the directory of the state files.
-- - Parallel: internal/parallel/parallel.go, `Map` as a relation between states of all its goroutines: a
--   step starts the next one or lets one act, so that a run is any interleaving.
-- - Fleet: the operator's side. Fleet/Merge and Fleet/Config are internal/nodecfg, Fleet/Defaults
--   is internal/agentcfg, Fleet/Resolve is internal/sshresolve, Fleet/Deploy is `deployOne` of
--   internal/deploy with its scripts in Fleet/Deploy/Script, and Fleet/Status is internal/nodestatus
--   with the exit codes of cmd/rucher/nodescmd.go. The answers over ssh may depend on every call before.
-- - NodeKey: internal/nodekey, the node's own age key, over the one file that holds it.
-- - HostKey: internal/sshx/hostkey.go, the callback that pins the key of a new host, as a relation between
--   states of the file of known hosts and of all connections of a run.
-- - Sopsage: internal/sopsage. Sopsage/Token reads `encRE` with its backtracking, Sopsage/Scalar is cipher.go
--   and mac.go, Sopsage/File is format.go, and Sopsage/Encrypt and Sopsage/Decrypt are `Encrypt` and
--   `Decrypt`. The cipher, the hash, age and YAML are parameters; base64 is Base/Base64.
-- - Store: internal/store. Store/S3 is `Sync` of s3.go with its state file, on the files of the cache by
--   their paths, without directories (`pruneEmptyDirs` removes empty ones only); a fault of the client, a
--   listing with an error and a failed removal are values. Store/Git is `Sync` of git.go on what the
--   library opens at the path of the cache. The other files of Store are about these two.
-- - Cli: cmd/rucher/main.go, Cli/Parse with its parsers and Cli/Dispatch with `run` and what it calls,
--   Cli/Deploy with `parseDeploy` of cmd/rucher/deploycmd.go, and Cli/Commands with the commands of
--   cmd/rucher/commands.go on the cadres of a directory, their exit codes and lines. A line becomes a
--   `Command` with its arguments, or an exit code with the text that is shown.
-- - Base: shared names and helpers. Base/Text and Base/Path are the functions of `strings` and
--   `path/filepath` that the code calls, Base/Decimal those of `strconv`, Base/Sort is `slices.Sort`.
-- - Tests: one cadre on one host, and the concrete runs.
--
-- How the code is read:
-- - A Go map is an association list, in the order of one iteration; a `map[string]bool` is the list of
--   the names that are set. Texts are lists of code points, so invalid UTF-8 is left out.
-- - An `int` is an integer; only the sum in `nextSubidStart` and the range in `EnsureUser` can leave 64
--   bits, and there `add64` wraps around.
-- - An error is its text. `%q` is written without escapes. The plan that `Apply` returns beside an error
--   is left out.
-- - `state.Save` writes a new file and renames it, so a save changes the state file wholly or fails.
-- - The scanner's cap of 1 MiB on a line of a unit is not modelled. All loops run over finite lists and
--   are structural recursion. Only `itoa` takes fuel, n + 1 for the number n, which has no more digits.
--
-- Not modelled: the other commands of cmd/rucher, which print what a package returns, with the texts of
-- the usage; `Run` of internal/deploy and `Collect` of internal/nodestatus, which are `Map` over
-- one node's function; `WriteNetwork` of internal/nodecfg, internal/quadletlint; internal/age, which
-- is calls of the age library; the rest of the ssh client; the libraries of git, S3, YAML and JSON; the
-- lock of internal/provision.
pub mod Agent
pub mod Base
pub mod Cadre
pub mod Cli
pub mod Fileset
pub mod Fleet
pub mod Host
pub mod HostKey
pub mod Manifest
pub mod NodeKey
pub mod Ops
pub mod Parallel
pub mod Placement
pub mod Plan
pub mod Provision
pub mod Prune
pub mod Quadletref
pub mod Reconcile
pub mod Secrets
pub mod Sopsage
pub mod State
pub mod Store
pub mod Tests
