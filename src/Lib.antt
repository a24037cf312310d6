-- ===== src/Lib.antt =====
-- A verification library for the services of sbom-graph, which collects software bills of materials
-- in a graph database and answers questions about them.
--
-- The parts and how they meet: the API service keeps its users and their API tokens in two SQL
-- tables (user storage, token storage), and answers graph questions by queries whose results it
-- searches and draws (blast radius, patch plan, graph bounding). What a request brings is validated
-- first (validation), reports come in pages (paging) and are limited per client (rate limit).
-- Documents come in through the processors of the model package, of which the CycloneDX processor
-- checks a document, reads it into projects, dependencies and defects, and calls the graph database
-- for each, and the OpenVEX processor does so for the statements of a document. Enrichment, the
-- command line and the release listener work around these.
--
-- Which file models what; a function is named as in the source:
--   Tokens          TokenStorageService of
--                   sbom-graph-api/src/sbom_graph_api/services/token_storage.py. The state is the
--                   table `TokenDb`, the methods take it and return it. Tokens/Calls has the
--                   sequences of calls, the other children the laws.
--   Password, Users UserStorageService of .../services/user_storage.py, with the hashing of
--                   passwords in Password; Users/Calls has the sequences of calls.
--   BlastRadius     FalkorDBService.compute_blast_radius of .../services/falkordb_service.py;
--                   BlastRadius/Distance has walks and distances, the independent description.
--   PatchPlan       FalkorDBService.compute_patch_plan of the same file; PatchPlan/Scans has what
--                   its loops keep, PatchPlan/Contacts what the plan lists.
--   Bounded         bound_nodes_edges of .../visualizations/_bounded.py.
--   Json            JSON values as Python holds them, with errors as values.
--   Cyclonedx       CycloneDXProcessor of
--                   sbom-graph-model/src/sbom_graph_model/cyclonedx/processor.py: the validation;
--                   Cyclonedx/Parts reads the parts into the objects of .../model.py,
--                   Cyclonedx/Linking is `process_cyclone_dx_json` up to the calls of the database,
--                   Cyclonedx/Persisting these calls in their order.
--   Vex             VexProcessor of sbom-graph-model/src/sbom_graph_model/vex.py, and
--                   VexStatus.from_str of .../model.py; Vex/Named has the package URLs that a
--                   document names.
--   TrustScore      the vulnerability profile of TrustScoreCalculator of sbom-graph-enrichment/src/
--                   sbom_graph_enrichment/certifiers/trust_score.py, in halves of a point.
--   Propagation     propagate_effective_scores, _propagate and _reverse_topological_sort of
--                   sbom-graph-enrichment/src/sbom_graph_enrichment/tasks.py: the order in
--                   Propagation, the scores in Propagation/Scores, the task in Propagation/Task;
--                   Propagation/Rounds has the invariant of the sort, Propagation/Worst the
--                   description of the lowest score on all paths.
--   Validation      .../utils/validation.py of the API: texts in Validation, numbers and choices in
--                   Validation/Parameters, addresses in Validation/Redirects, the header and the
--                   query strings in Validation/Headers, which Validation/Headers/Query reads as
--                   the routes do; Text has the methods of `str`.
--   Paging          iterate_pages and _page_clause of .../services/falkordb_service.py and the page
--                   requests of .../routes/reports/_common.py.
--   RateLimit       _check_report_rate_limit of .../routes/reports/_common.py; RateLimit/Windows
--                   has the limiter of a single client, which it is compared with.
--   Prelude, Table, Dict, Members, Text   lists and tests, SQL tables, dictionaries and sets as
--                   lists, texts as code points.
-- The modules named Tests hold runs on concrete data and instances of the theorems.
--
-- Conventions. A table is the list of its rows in insertion order, and a query that takes the first
-- row takes the first of that list. A call is given a flag for each database session of it, which
-- says whether the session raises; the source rolls such a session back and returns its error
-- value. Sessions run one after the other: calls that interleave are not modelled. Times are natural
-- numbers, those of the rate limit in nanoseconds, as the monotonic clock has fractions of a
-- second. A Python set is a list whose order stands for the order of iteration.
--
-- Parameters. SHA-256 and Fernet are the fields of `Crypto`, PBKDF2 of `Kdf`; salts and temporary
-- passwords are drawn by the caller (`Draw`). The database's ORDER BY, the Cypher queries of the
-- blast radius and the patch plan, `str.lower`, `parse_repo_url`, and for OpenVEX the regular
-- expression of identifiers and the test for `pkg:`, are function arguments. So are Python's floats
-- (`Floats`, `FloatTests`), the lower case and the digits of Unicode (`Unicode`), `urlparse` and the
-- escaping of `urlencode`. What a theorem needs of them is a hypothesis with its name.
--
-- Bounds and fuel. Ids and counts are unbounded, as in Python. The search of the blast radius runs
-- over `max_depth` levels, as the source does, and stops early at 50000 packages, and so does the
-- patch plan; no fuel is added.
-- `_reverse_topological_sort` runs with as much fuel as there are nodes and dependencies, since each
-- round takes a node from a queue that every node and every dependency fills at most once.
-- `iterate_pages` takes fuel above the number of rows. All other loops
-- run over finite lists.
--
-- Not modelled: references and ids of a CycloneDX document that are not texts (the outcome
-- `untyped`), failures of the graph database within a document, the Cypher text of the queries, the
-- routes and the rendering of reports, the check of bodies against JSON schemas, the exports and
-- drawings, the SPDX processor, the other scores, enrichment tasks and certifiers, the command line
-- and the listener.
pub mod Prelude
pub mod Table
pub mod Text
pub mod Tokens
pub mod Password
pub mod Users
pub mod Members
pub mod BlastRadius
pub mod Bounded
pub mod Json
pub mod Cyclonedx
pub mod Dict
pub mod Vex
pub mod TrustScore
pub mod Propagation
pub mod Validation
pub mod Paging
pub mod RateLimit
pub mod PatchPlan
