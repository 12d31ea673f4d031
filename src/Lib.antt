-- ===== src/Lib.antt =====
-- Models and theorems for the lifecycle modelling tools, modeling/lifecycle of the repository.
--
-- The program keeps a lifecycle model as data: states, requirements, guards with typed expressions,
-- and transitions. `model` validates and normalizes it, `canonical` gives it bytes and a digest,
-- a compiler turns it into a reducer of tasks (`generated`), `modelmerge` merges three models,
-- `impact` compares two, `modelpatch` applies proposed edits, `topology` describes the graph of the
-- states, `scenarios` runs suites of commands against a reducer and reports where it differs from
-- what they expect, and `traceability` links human requirements to the elements of a model. The
-- model operations work on normal forms, which are equal where the records are; a digest stands
-- for a normal form, and binds suites, patches and trace documents to the model they were made for.
--
-- Where what is modelled:
--   Text, Json, Sort, Distinct, Prelude
--                     the standard library: strings as lists of bytes (`utf8.ValidString`,
--                     `strings.TrimSpace`, `strings.Fields`, `strconv.Itoa`), `encoding/json` with
--                     `SetEscapeHTML(false)`, `sort.Strings` and `sort.Slice`; helpers.
--   Model             model/ir.go and model/capabilities.go: the data types, `references`,
--                     `Identifier`, `text`.
--   Model.Key         `ExprKey`; Key.Injective is about its length-prefixed atoms.
--   Model.Typing      `exprType`, with its node counter passed along; Typing.Rules has the types as
--                     rules, Operators, Connectives and Fitting are about its two switches.
--   Model.Validate    `Validate`, a function for each of its loops; Validate.Search, Visits, Loop and
--                     Termination are about its breadth-first search, Ids, Records, Guards,
--                     Transitions, Accepts and Graph about what each part checks.
--   Model.Normalize   `normalizeExpr` and `Normalize`.
--   Model.Equal       `reflect.DeepEqual` on the records.
--   Canonical         canonical/canonical.go: `Bytes` and `Digest`.
--   Lifecycle         generated/lifecycle.go: `Task`, `Command`, `Result`, the checks of inputs;
--   Lifecycle.Guards  its guards, and
--   Lifecycle.Reducer `TaskDigest` and `Transition`. Lifecycle.Runs feeds a list of commands to it,
--                     each to the task that the last accepted one left. Lifecycle.Reads,
--                     Conditions, Reviews and Accepts are about what the guards read and ask
--                     for.
--   Merge             modelmerge/merge.go and types.go: `choose`, `records`, `prepare`, `Merge`;
--                     Merge.Conflicts is about its conflicts.
--   Impact            impact/compare.go and types.go, and `validateBindings` of impact/decode.go;
--                     Impact.Links, Declared and Linked are about `links`.
--   Patch             modelpatch/apply.go and types.go, and the encoding of patches of decode.go:
--                     Shape is `preflight`, Edit `edit`, Plan `apply` and `Plan`.
--   Topology          topology/analysis.go: `Analyze`; Topology.Closure and Topology.Reach are about
--                     its closure, Topology.Paths and Topology.Terminals about
--                     its search, Topology.Components and Cycles about its cycles.
--   Scenarios         scenarios/types.go and the parts of run.go that build records; Budget, Validate
--                     and Entries are `budget`, `validateFor` and `boundedEntryFor`, Compare is
--                     `compare`, Run is `runFor` and `executeFor`, Reports `encodeReportFor`, and
--                     Runner runner.go.
--   Scenarios.Dto, Encoding, Parse, Received
--                     scenarios/decode.go, report_decode.go and report_inspection.go: the transport
--                     records, their JSON, and the way back from what strictjson decodes. A report's
--                     record has `identitySource`, which the decoders' type has not, so that they
--                     refuse a report with one. Run.Progress, Passes, Replay and Cases follow
--                     the loop of a run beside the check of its report.
--   Traceability      traceability/trace.go: its data types; Catalog is `LoadCatalog`, Issues is
--                     `validate`, Reports has the report, Tracing the loop of `Build` over the
--                     requirements, and Build the rest. Issues.Linked and Issues.WellLinked say what a
--                     document without issues is, without the code's scans.
--   Tests             the definitions at concrete inputs.
--
-- An error is a value: `Result` holds either an error or a result, and a Go function that returns
-- early is a chain of binds. Go errors that callers only compare with nil are constructors without
-- the text. A map that the code fills from records with different keys is the list of them; a map
-- that is asked for membership is the list of its keys; a set that is sorted before use is a list
-- that is sorted. Pointers that may be nil are options. Copies (`cloneTask`, `copyExpr`) are the
-- value itself, since nothing here mutates. A nil slice differs from an empty one only where the
-- program shows it: in tasks, in results, and in the canonical bytes.
--
-- Numbers: a revision is a `uint64`, so that theorems about it assume that it is below 2 ^ 64, and
-- `next.Revision++` wraps around in the model. Lengths are unbounded naturals, as no length comes
-- near the bounds of `int`.
--
-- Fuel: `decimal` has the number itself as fuel, and each division by ten lowers it. The search of
-- `Validate` runs on as much fuel as there are edges and one more: each round takes one state off
-- the queue, and each state enters it once. That this is enough, and that more fuel changes
-- nothing, is in Model.Validate.Termination. The search of `Analyze` has the same fuel for the same
-- reason. `strings.Fields` and all else is by recursion on lists and expressions.
--
-- Parameters: `sha256_hex`, the hexadecimal SHA-256 of a text; and in Merge and Patch `encodes`,
-- which says whether jsonformat's `Encode` accepts a normalized model, and `result_error`, what the
-- encoding of the result of a plan answers; in Topology `fits`, which says whether a report is
-- encoded. In Scenarios, `apply` is the reducer that a caller hands over; it is told how many calls
-- went before, so that its results may depend on them. `strict_decode` is strictjson's decoder on a
-- transport record. In Traceability, `to_lower` is `strings.ToLower`, which reads the case tables of
-- Unicode, and `decode_model`, `decode_catalog` and `decode_document` are the decoders of the files.
-- Nothing is assumed of any of them but what a theorem names as its hypothesis.
--
-- Not modelled: the JSON decoders (strictjson, and the decode.go files of modelmerge, impact,
-- modelpatch and topology), jsonformat, the compiler, the comparison of scenario reports and of
-- traces, views and pictures, and the command line tools, rehearsals and intake around them, which
-- mostly read and write files.
pub mod Prelude
pub mod Text
pub mod Distinct
pub mod Sort
pub mod Model
pub mod Json
pub mod Canonical
pub mod Merge
pub mod Impact
pub mod Patch
pub mod Scenarios
pub mod Topology
pub mod Traceability
pub mod Lifecycle
pub mod Tests
