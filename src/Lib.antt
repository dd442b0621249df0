-- ===== src/Lib.antt =====
-- Verification of the contract evaluator for query plans, of the observer of unknown plan vocabulary
-- of optional query parameters, and of the writes and result fields of the query code generator.
--
-- Parts and how they interact
--   A plan report holds queries with the operators of their plans. `plancontract/normalize.go` makes the
--   operators from a `google.spanner.v1.QueryPlan`: it sorts the nodes, gives each a family, and collects
--   descendants, counts and edges. `plancontract/plancontract.go` compiles a file of contracts, finds each
--   contract's target in the report, runs the resolved predicates and the CEL expression, and summarizes.
--   `internal/optparam` splits a SQL text with markers into segments, enumerates every presence of the
--   optional parts and every choice, verifies that all variants have one row type, and emits a builder.
--   `plancontract/planvocab` compares the nodes of a plan with a catalog of known vocabulary: an
--   observer logs what is unknown, once for each fingerprint and up to a bound, and a matcher finds
--   nodes by a pattern. It takes families and warnings from `plancontract/normalize.go`.
--   `internal/querygen` generates Go code for queries and writes: it converts types to struct fields,
--   merges the fields of queries that share a struct, and resolves the columns that a write takes.
--   The optional parameters and the generator share nothing with the plans.
--
-- Files
--   Prelude: lists and Boolean tests over native numbers, integers, orders, maps, sorting, `switch`, and
--   results with an error. Text: the functions of Go's `strings` that the source calls.
--   PlanContract (plancontract/plancontract.go)
--     Plan, Report, Contract: the data types. Families: operator families and their counts
--     (`OperatorFamilyCounts`, `operatorMatchesFamily`). Target: `Scope`, `TargetID`, `FindTarget`.
--     Matching: the operator indexes of the rules. Remediation: the follow-ups of failures.
--     Cel: `collectCELIdentifiers`, `referencesIdentifier`. Predicates: `predicates`.
--     Compile: `compileContracts`. Rules: `evaluatePredicate`. Evaluate: `evaluateContract`, `Evaluate`.
--     Summary: `Summarize`, `EnvironmentWarnings` and their kin.
--   Normalize (plancontract/normalize.go)
--     Classify: `OperatorFamily` and metadata. Walk: the walks over nodes. Operators: `operatorContexts`,
--     `NormalizeOperators`, edges and warnings.
--   PlanVocab (plancontract/planvocab)
--     Shapes: the raw plan, findings, sorting and aggregation. Catalog: `mustLoadCatalog` and the rules.
--     Inspect: `Inspect`, `inspectNode`. Observer: `recordFingerprint`, `Observe`.
--     Matcher: `FindMatchingOperators`. Inspect/Redaction: what findings do not reveal.
--     Observer/Ideal: an observer that forgets nothing. Observer/Session: several calls of `Observe`.
--   OptParam (internal/optparam, internal/querygen/optparam_bridge.go)
--     Param: the data types. Markers: `markerRegexp`. NullIsNull: `rewriteNullIsNull`.
--     Template: `SegmentTemplate`. Compose: `ComposeVariant`, `Variant.Key`, `segmentAxes`.
--     Enumerate: `EnumerateVariants`. Verify: `VerifyBuilderRoundTrip`, `VerifyVariants`,
--     `optParamMode`, `pickCanonicalVariant`. Plan: `BuildPlanVariants`, `toPlanQueryVariants`,
--     `toOptParamParams`. Fields: the struct that `EmitGoBuilder` emits.
--   QueryGen (internal/querygen/querygen.go, internal/querygen/querygen_config.go,
--     internal/querygen/gostruct.go, catalog.go, spannerpb.go, resultconv.go)
--     Types: `TypeSpec.SpannerPB`, `TypeSpecFromSpannerPB`. Fields: `goResultFieldFromSpanner`,
--     `mergeGoResultFields`. Columns: `resolveWriteColumns` and what checks columns.
--     Config: `QueryCodegenV1AlphaWrite.normalize`. Writes: `resolveWriteSpec` from the table on. Required: `applyRequiredFields`,
--     `validateUniqueQueryResultFieldNames`, `mergeQueryCodegenParams`.
--   A module's `Laws` and its other children hold the theorems about it; modules named Tests run the
--   definitions on samples.
--
-- How code corresponds to definitions
--   A Go string is the sequence of its characters (the source's strings are valid UTF-8); a byte position
--   occurs only where a lexer gives one. Case mapping is that of Unicode where its result is ASCII. A Go
--   map is an association list; its order never matters, since the source sorts what it ranges over. `int`
--   and `int32` are integers without a bound: the source compares and counts them, and no count exceeds
--   the number of nodes, variants or contracts. To the normalizer a nil plan node is the node of zero
--   values and a metadata value is what `fmt.Sprint` prints of it; the vocabulary has nil nodes and links
--   as they are and typed values, and hands the normalizer the node that its getters see.
--   A mutex makes `recordFingerprint` atomic, so that calls from several goroutines are some list of
--   steps; the theorems hold for every list. `sort.Slice` is a stable insertion sort; its keys differ. An
--   error is a constructor of a data type in place of its text, and the error of an evaluation keeps the
--   status and the message that it is printed from. Warnings about classification are their identifiers.
--
-- Parameters
--   `Cel` is the CEL library under the environment that `newCELEnv` builds, with the map that
--   `celActivation` hands to it inside `eval`. `Lexer` is memefish's lexer as `lexSQLFragment` drives it.
--   `Protobuf` is what the vocabulary calls of the protobuf library and of `strconv`; `Vocabulary` adds
--   the embedded catalog, the digest of a finding (JSON, SHA-256 and hexadecimal) and `%q`.
--   The hash of a variant's text is a parameter of the functions that record it.
--   `RowTypes` is the GoogleSQL analyzer with all parameters declared, and `proto.Equal`. No theorem has
--   a hypothesis about them.
--
-- Fuel
--   The walk over descendants has one unit more than there are nodes, which suffices since each descent
--   marks a node that has links. `subtreeHasBatchScan` and `findWrapperInternalOperator` have at least as
--   much, for the same reason. The scan for markers has as many units as the text has characters, and a
--   marker is not empty. The decimal digits of n have n + 1.
--
-- Not modelled
--   Reading YAML (`ReadFile`); the values that `celActivation` copies; `OperatorTreeDigest`, a hash; the
--   Go text of `EmitGoBuilder`; `FormatPlanVariants`, which prints; the decoding
--   of the embedded catalog and `EmbeddedCatalogInfo`, which copies it; the query
--   generator but for its fields and writes (schemas and tables come from a DDL file, which the source
--   parses with a library), the analyzer with its catalogs, the survey and the
--   command line tools.
pub mod Prelude
pub mod Text
pub mod PlanContract
pub mod Normalize
pub mod OptParam
pub mod PlanVocab
pub mod QueryGen
