-- ===== src/Lib.antt =====
-- Sapper: the dependency graph of SBOMs, its queries and its storage (Go).
--
-- The program keeps one graph of packages and vulnerabilities. Ingestion adds nodes and edges with
-- AddNode and SetDependency, queries walk the graph or read a cache of it, scripts combine queries.
--
-- Files and what they model:
-- - Base: shared names; results with errors, byte strings, maps as association lists.
-- - Bitmap: github.com/RoaringBitmap/roaring as an interface with its documented laws, and an
--   implementation (Bitmap.Listed) that shows that the laws can be met.
-- - Graph: pkg/graph/graph.go and pkg/graph/mockGraph.go. Graph holds the types, with the storage as a
--   record and its methods as state-passing functions (Action); Graph.Storage has the methods of
--   MockStorage, Graph.Edit has AddNode and SetDependency, Graph.Query has queryBitmap, the queries of
--   a node and the batch queries. Graph.Edit.WellFormed is the storage invariant.
-- - Numbers: pkg/utils/convert.go (Uint32ToStr, StrToUint32, IntToUint32).
-- - Script: pkg/graph/parser.go (ParseAndExecute, iterateExpression, iterateTerm and the collection of
--   the packages). The grammar is a parameter: the functions take the syntax tree.
-- - Cache: pkg/graph/cache.go (Cache); Cache.Keys is pkg/graph/bindMap.go, Cache.Cycles is findCycles
--   and Cache.Build is buildCache with its helpers.
-- - Versions: pkg/tools/ingest/vuln.go, from compareVersions to the end of the file.
-- - Ingest: pkg/tools/ingest. Ingest.Osv has the records of vuln.go, Ingest.Affected decides which
--   packages a record affects, Ingest.Loader has the library index and the loading of records,
--   Ingest.Purl is helpers.go and Ingest.Sbom is sbom.go.
--   Ingest.Priorities has KEV and the helpers of prioritize.go, Ingest.Epss and Ingest.Vex the rest of
--   it. Ingest.Scorecards is scorecard.go.
-- - Report: pkg/report. Report.Walk is the walk and the paths of buildFinding, Report.Details the rest
--   of it, and Report.Build is Build (report.go). Report.Forest is the union-find of mergeAliases,
--   Report.Merge has mergeGroup and mergeAliases (merge.go).
-- - Service: api/v1/service.go, with the ingestion requests of api/v1/report.go. The state is the
--   storage and the cached index of libraries. Service.Steps has the requests in progress as threads,
--   whose changes interleave: AddNode and IngestSBOM make two changes each, to the graph and to the
--   index, and every other request makes one. Service.Leaderboard is CustomLeaderboard.
-- - Storages: pkg/storages. Storages.Sql is sql.go, as far as single nodes and caches, the stack of what is
--   to be cached and the counter go; its tables are maps, and statements that may fail change them.
-- - Tests: runs of the model, and the theorems at concrete inputs.
--
-- Conventions: a node is a value, and a method that changes a node returns it; `none` is a nil
-- pointer. So a loaded node is a copy, as in the SQL and Redis storages, which keep serialised nodes;
-- that MockStorage hands out the stored pointers, through which SetDependency changes stored nodes
-- before it saves them, is not modelled. A storage call fails where `fails` says so, as with the error
-- injection of MockStorage, and SaveNode can fail for single nodes; `fails` does not change while a
-- request runs, so a method that fails for some arguments only is not covered, but for SaveNode.
-- The text that wraps an error is left out. A uint32 is a number below 2 ^ 32, whose additions wrap.
-- A string is its bytes. The iteration of a map follows the association list, in any order.
--
-- Fuel: queryBitmap gets one unit for each open edge and one for the start, since it queues a node for
-- each edge of a node that it visits for the first time. findCycles gets one unit for each node and one
-- more, since each nested call enters a new node. The union-find of mergeAliases gets one unit for each
-- name and one more, since each name makes a chain at most one step longer. The rounds of buildCache
-- take their fuel as an argument; no bound for them is given here. The walk of buildFinding gets one
-- unit for each edge and one for the start, since each round but the first takes what an edge has
-- queued; a path gets one unit for each visited node, since it visits no node twice.
--
-- Parameters: roaring, the participle grammar, Masterminds/semver, packageurl-go, protobom, sha256,
-- base64, gzip, the CSV reader, ParseFloat, filepath.Match and the JSON coder, where they are called. Of
-- findings, the KEV entries, the EPSS scores with their order and the VEX statements are parameters,
-- and so are the numbers of float64. What depends on timing is a parameter too: the order in which the
-- goroutines of CustomLeaderboard finish, and how many have finished when it looks for an error.
--
-- Not modelled: the Redis storage and the rest of the SQL storage (many nodes or caches at once, custom
-- data, globs), findingToProto of api/v1/report.go (a copy of fields),
-- pkg/tools/weightedNACD (floating point), the command line under cmd, generated code, and the JSON
-- forms of nodes and caches. ToUpper and TrimSpace are those of ASCII. In Service.Steps the storage calls
-- of one change are made at once, so requests that interleave inside a loader are not covered.
pub mod Base
pub mod Bitmap
pub mod Graph
pub mod Numbers
pub mod Script
pub mod Cache
pub mod Versions
pub mod Ingest
pub mod Report
pub mod Service
pub mod Storages
pub mod Tests
