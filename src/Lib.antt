-- ===== src/Lib.antt =====
-- A model of internal-package-contract, the quality contract that a package installs: its checks run
-- tools, and each has a policy that turns the evidence into pass, warn or fail. Modelled are the two
-- release gates with what they stand on, the mode in which a package adopts the contract, the
-- registries of exceptions with three of the checks that rest on them, and the report of a run.
--
-- The parts, and the files that model them:
--   ApiContract/Evidence, Levels, Semver, Changesets: scripts/api-contract/evidence-types.ts, levels.ts,
--     semver.ts and changesets.ts. Changesets reads the files of `.changeset`, given as names and
--     texts, or `none` where the directory is not readable.
--   ApiContract/Members: the records of scripts/api-contract/model-normalizer.ts.
--   ApiContract/Classifier: scripts/api-contract/compatibility-classifier.ts. Changes, Parameters,
--     Metadata, Values, Matched, Overloads and Classify follow the functions of that file in order;
--     the children of each hold what is proved of it. `resolve` stands for `resolveAssignability`.
--   ApiContract/Drift: scripts/api-contract/schema-version-consistency.ts.
--   ApiContract/Check: scripts/api-contract/check.ts and summarize-changes.ts. It compares each target
--     (`compare_target`, `run_single_target_check`), and collects the evidence of all of them
--     (`aggregate_level`, `collect_evidence`, `run_api_contract_check`).
--   ApiContract/Policy: checks/api-contract.ts, the verdict on that evidence.
--   Surface/Types, Cli, Flatten, Schema, Action, Classify: scripts/surface-contract/classify.ts, the
--     differences of what a package exposes besides its types.
--   Surface/Stable, Run: scripts/surface-contract/run.ts, the check of the surface and the update of its
--     baseline.
--   Checks/SurfaceContract: checks/surface-contract.ts. Checks/Shared: checks/shared.ts.
--   Adoption: scripts/adoption/mode.mjs, which checks a package enforces while it adopts the contract, and
--     Promotion the command by which it enforces more of them.
--   Exceptions: checks/exception-record.ts. Exceptions itself has the records and their fields, Registry
--     the validation of a registry (`validate_one`, `validate_exception_registry`), FieldChecks and
--     Security the validators of single fields, Findings the verdict on a finding and the registry that
--     is reconciled and written back. Exceptions/Environment: checks/environment-exceptions.ts, for a
--     check that could not run (`degraded`).
--   Security/Socket: checks/security-socket.ts, its alerts and records, the run of its script (Run), the
--     verdict (Policy), and checks/socket-guidance.ts (Guidance).
--   Security/CodeScanning: checks/code-scanning.ts.
--   Mutation: checks/mutation.ts. Mutation itself applies the registry to the mutants, Report reads them
--     from Stryker's report and has the registry's schema, Score has the count and the verdict, Policy
--     the whole check with the variables of scripts/mutation/shard.mjs and adopt.mjs that it reads;
--     Suppressed and Passed hold what is proved of them.
--   Report: scripts/contract-report.mjs and the end of scripts/contract-run.mjs, from the checks'
--     results and the adoption to the exit code.
--   Shared: JavaScript's strings, lists, maps, sorting, JSON and regular expressions, as far as used.
--
-- How the code corresponds: a function that pushes to an array returns the list of what it pushes,
-- and its caller appends; a `Map`, a `Set` or an object used as a map is a list in the order of
-- insertion, and `Object.keys` of a given record is the order of its list; `changes.sort` is a
-- stable sort by `id_le`, which stands for `localeCompare(...) <= 0` and is a parameter, as the
-- order is the engine's. Regular expressions are functions that try the same branches in the same
-- order. Loops are recursions on the list or text that they go through; `decimal` alone has fuel,
-- its number plus one, which the lemmas of Shared/Decimals show to be enough. What the code reads
-- (package.json, baselines, changesets, a tool's output) is an argument, and what it writes is
-- part of the result: an update or a check returns the baseline that it writes, as it is read back.
-- Where the code throws, the result says so (`thrown`, `failed`). A validator that pushes onto `errors` returns
-- its messages beside its value. The package repo-contract, which loads, reconciles, writes and
-- evaluates exception records, is an argument; `IsEvaluation` states what is relied on.
--
-- JSON texts that the code compares only for equality are compared by the values that they are made of.
--
-- Left out: a command or an input whose name `Object.prototype` has (`constructor`, `toString`), but
-- for the inputs that an Action loses or gains; output of a tool that is JSON but not of the shape that
-- its check takes it for; numbers past 2^53, fractions and lone surrogates; keys that are array indices, which an
-- object moves to the front; API Extractor, the TypeScript checker, git, Prettier and the file system,
-- which these parts call; and the other checks, scripts and pages of the repository.
pub mod Shared
pub mod ApiContract
pub mod Surface
pub mod Checks
pub mod Adoption
pub mod Exceptions
pub mod Security
pub mod Report
pub mod Mutation
