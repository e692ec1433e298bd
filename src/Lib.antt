-- ===== src/Lib.antt =====
-- The core of CareerPilot's backend: the task queue and its worker, the inference key pool and the
-- chain of providers, refresh tokens and consents, applications and their history, the eligibility
-- gates, the matching funnel with its retrieval, reranking, sub-scores and aggregation, the rows that a
-- matching run keeps, the percentiles that matches are shown by, the verification of links, the clusters
-- of postings of one job, the HTTP client, and discovery: the runs of a source, what they store, and the
-- employers that they resolve.
--
-- The backend is one Python program around one Postgres database. The scheduler and the API put
-- tasks in the queue; workers claim them, run a handler in a transaction and complete or fail them.
-- Handlers and services call language models through the chain, whose first provider draws keys
-- from a pool. Matching passes each posting through the gates, retrieves and reranks the eligible ones,
-- scores the finalists against their requirements, and keeps the scored and the withheld ones in one
-- table, from which the API presents scores as percentiles.
--
-- Files, with the code that each is about:
--
--   Prelude, Prelude/Tests, Lists, Texts, Sorting: shared names; Python's truth tests, lists, str.strip
--     and sort
--   Queue: backend/app/db/queue.py (enqueue, claim, complete); Queue/Retry: fail, reap_stale, depth
--     Queue/Dedup, Claiming, Retry/Schedule, Consistency, Steps: what holds of them
--   Worker: backend/app/workers/runner.py (run_once, enqueue_due_discoveries,
--     run_source_now) and session_scope of backend/app/db/session.py; Worker/Runs, Schedule
--   Llm/KeyPool: backend/app/adapters/llm/keypool.py; KeyPool/Build, Acquire, Parking, Fairness
--   Llm/Chain: backend/app/adapters/llm/chain.py; Chain/Answers, Cooldowns
--   Auth: backend/app/services/auth.py, with the request transaction of backend/app/api/deps.py and
--     the refresh route of backend/app/api/v1/auth.py; Auth/Rotation, Requests, Revocation
--   Engagement, Engagement/Applications: backend/app/services/engagement.py; Engagement/Recording,
--     Duplicates, Transitions, History, Queries
--   Matching: backend/app/domain/matching/gates.py and the snapshots of backend/app/domain/models.py;
--     Matching/Gates; Matching/Fusion: backend/app/domain/matching/retrieval.py;
--     Fusion/Shares, Chosen; Matching/Rerank: backend/app/domain/matching/rerank.py; Rerank/Chosen
--   Matching/Funnel: backend/app/services/matching.py (_stage2_gates, _stage3_retrieval,
--     _stage4_rerank, _posting_snapshot); Funnel/Scanned, Finalists
--   Matching/Shortlist: the same file (_persist, _persist_evidence, _persist_withheld, _explain) and the
--     selections of backend/app/api/v1/matches.py; Shortlist/Recorded, Gated
--   Matching/Requirements: backend/app/domain/jobs/requirements.py; Requirements/Spans, Expanded
--   Matching/Extraction: backend/app/services/matching.py (_requirements_for, _persist_requirements);
--     Extraction/Again
--   Scoring: backend/app/domain/scoring/percentile.py; Scoring/Percentiles; Scoring/Rounding: bounds
--   Scoring/Subscores: backend/app/domain/scoring/subscores.py; Subscores/Coverage, Coverage/Met,
--     Growth, Alignment, Levels
--   Scoring/Aggregate: backend/app/domain/scoring/aggregate.py; Aggregate/Assessed, Unavailable
--   Links: backend/app/services/verification.py (verify_one, _assess, _persist); Links/Expiry
--   Http: backend/app/adapters/http.py (request); Http/Budget: _consume_rpm; Http/Robots: RobotsCache;
--     Http/Attempts: what holds of request
--   Companies: backend/app/domain/dedup/entities.py (resolve_company) and company_domain of
--     backend/app/domain/jobs/urls.py; Companies/Directory: backend/app/services/companies.py;
--     Companies/Justified, Remembered
--   Ingest, Ingest/Rows, Runs: backend/app/services/ingestion.py (_upsert_posting, _ingest, run_source);
--     Ingest/Discover: backend/app/workers/tasks/discover.py; Ingest/Upserting, Counts, Breaker
--   Dedup: backend/app/domain/dedup/clustering.py (canonical_pick and its tests); Dedup/Pick
--   Dedup/Hashes: backend/app/domain/dedup/simhash.py; Hashes/Stored
--   Dedup/Forest: UnionFind of the same file; Forest/Roots, Partition, Union
--   Dedup/Cluster: its stages; Cluster/Evidence, Merging, Grouped, Stages, Sources
--   Dedup/Groups: its groups and clusters; Groups/Members, Grouping
--   Examples: each theorem at a concrete input
--
-- How the code is represented. A table is a list of rows in the order of insertion and a statement is
-- a function on tables; a statement's rows change together, as a transaction makes them. The keys and
-- secrets that the database or the runtime generates, the instants that a clock gives, the rows that
-- other transactions hold locked, token digests and the Unicode case tables are arguments. Instants
-- and spans are natural numbers of one unit that each file names. Exceptions are values of a result
-- type. Loops are structural recursion over lists, with three exceptions. The loops of
-- `UnionFind.find` run on fuel, the sum of the sizes and one more, which is enough as sizes grow on
-- the way to a root. Lists are cut into batches with their length as fuel, as each batch takes an
-- element at least. The attempts of a request are counted down from the retries allowed.
--
-- Not modelled: threads and signals, logging, passwords and access tokens, configuration, the
-- interval per host of the HTTP client, the source adapters, renormalisation and the partitions of the
-- raw payloads, the extraction of
-- profiles and of stated years, the analysis of the finalists of a matching run, the remaining services and routes, the evaluation harness
-- and the web frontend. A text that the code formats for a person is left out or is an argument.
-- Scores, years and percentages are exact where the code uses floating point.
mod Prelude
pub mod Llm
pub mod Queue
pub mod Worker
pub mod Auth
pub mod Engagement
pub mod Matching
pub mod Scoring
pub mod Http
pub mod Dedup
pub mod Links
pub mod Companies
pub mod Ingest
mod Examples
