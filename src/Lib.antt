-- ===== src/Lib.antt =====
-- Apache Fineract analytics platform: the ingestion of a microfinance institution's records from the
-- Fineract REST API into PostgreSQL (ingestion/fineract_ingest), and what runs and watches it.
--
-- How the program's parts hang together. The client (client.py) reads collections page by page, with
-- a rate limit and retries. The mappers (entities.py) turn each JSON record into a row by the parse
-- functions (parsers.py). The pipeline (pipeline.py) runs one entity at a time: fetch, map, validate
-- (validation.py), and load (loader.py) in one transaction, with the run's record and the watermark.
-- The command line (cli.py) runs the pipeline and turns its outcomes into an exit code. The DAGs of
-- Airflow (orchestration/) call it, wait for the change data capture, run dbt and gate its results; the
-- exporter (observability/exporter) turns the state of the databases into metrics; the mock server
-- stands for the API; and a script (scripts/validate_dbt_sql.py) builds and tests the dbt project.
--
-- Files.
--   Prelude, Prelude/*: shared names, Boolean tests, lists over the native numbers, integers.
--   Values: Python values; JSON as `Value`, a mapped record as `Row`, a list of columns with `Cell`s.
--   Outcome: exceptions as values.
--   Client/Types, Transport, Pages: client.py. `get` is `FineractClient.get`, `attempts` its loop,
--     `receive` the body of its `try` with the handlers; `pages` is the loop of `iter_pages`. The
--     state of the object and the clock are the record `Client`.
--   Client/Retries, Pacing, Keeps, Walk: the proofs about them.
--   Parsers/*: parsers.py. Scan has the parts of `str`, `int`, `float` and `Decimal` that it calls.
--   Entities/*: entities.py. `loan_cells` is `map_loan`, and so on; `build` is the dict literal.
--   Entities/Keys, Columns: the proofs about the keys and the columns of mapped records.
--   Validation/Records, Expectations: validation.py. Validation/Gate: the proof about its last rule.
--   Loader/Store, Upsert, Control: loader.py. Store is the database: the committed state, the state
--     that the open transaction sees, and a counter of the statements.
--   Pipeline/World, Batch, Fetch, Checks, Work, Entity, Run: pipeline.py. `run_entity` is split at
--     its `try`: Checks up to the first write, Work up to the commit, Entity the rest.
--   Loader/Status: the reads of the command line and the heartbeat.
--   Loader/Reference, Chunks, Cells, Refinement, Counts, Stored, Again, Watermarks: the proofs about
--     the upsert and the watermarks. Reference has the upsert without chunks and counters.
--   Loader/Uncommitted, Quiet: which statements leave the committed state, or the loaded data, alone.
--   Pipeline/Atomic, Quiet, Undo, AllOrNothing, AfterCommit, Isolation: the proofs about one load. Undo is
--     about its handler.
--   Pipeline/Dedup, Conserve, KeyChecks, Reload: the proofs about the batch, for every entity.
--   Pipeline/FailFast, Completes: the proof about the run over several entities.
--   Cli, Cli/*: cli.py. A command comes with its options. Cli/Statements counts the statements of the
--     commands that look at the system.
--   Dbt/Order: `topological_order` of scripts/validate_dbt_sql.py, newest first until its end. Dbt/Fuel,
--     Dependencies, Acyclic: the proofs about it.
--   Dbt/Engine, Build, SchemaTests, Script: the build and the tests of that script, up to its exit code.
--     Dbt/Passing, Verdict: the proofs about the exit code.
--   Mock/Page, Handler: mock_server.py, the paging and the routes. Mock/Faults, Serving, Crawl: the
--     proofs about it, alone and behind the client.
--   Parsers/RoundTrip: the proof that `int` reads what `str` writes.
--   Exporter/Sources, Samples, Rows, Collectors, Gauges, Scrape: observability/exporter/pipeline_exporter,
--     collectors.py and exporter.py. Exporter/Labels, Declared, Readings, Isolation: the proofs about it.
--   Airflow/Hooks, Connect, Sensors, Gate, Dbt, Escaping, Publish: orchestration/plugins/fineract.
--   Airflow/Dag, Ingest: orchestration/dags/fineract_analytics_pipeline.py, as data and over `Cli`.
--   Airflow/Verdicts, CaughtUp, Runs: the proofs about the gate, the wait for the change data capture
--     and the end of a run. Escaping, Ingest and Metrics, the task of the metrics, have
--     their proofs.
--   Airflow/Maintenance, Backfill: the tasks of platform_maintenance.py and fineract_backfill.py, beside
--     the DAG of the pipeline. Airflow/Slots, Shrunk: the proofs about the check of the replication slots
--     and the check of the row counts.
--   Cli/Arguments: the argument of `--entities`, with its proof, over Parsers/Split.
--   Config/Env, Settings: config.py of the ingestion. Config/Exporter: config.py of the exporter.
--   Tests/*: the theorems at concrete inputs, and runs on small inputs.
--
-- Parameters. `Server` is what the n-th request of a process is answered, any function; `Library` is
-- `strptime`, `fromisoformat` and the `str` of floats and containers; the digest is SHA-256 of the
-- JSON text; `Faults` says which statements and commits of the database fail,
-- and which rollbacks, with which the connection and its transaction are lost; the answers to the
-- parent queries are a function of the database. `Wire` is what the HTTP libraries make of a request on
-- its way to the mock. `Sources` is what the databases answer the exporter, and `GaugeOps` what it uses
-- of the Prometheus client. `Scheduler` is what Airflow's documentation says of the trigger rules.
-- `Engine` is what the embedded ClickHouse answers to a statement in a state, and `Jinja` what the
-- template of a model becomes, with its references.
--
-- Bounds. The loop of `get` has `max_retries` + 1 passes and the walk `max_pages`, as in the source,
-- so neither needs fuel of its own. `slices` has the length of the list for fuel, and `digits_of` the
-- number. `visit` of Dbt/Order has the number of the models and one for fuel: each visit under way is of
-- another model.
--
-- Not modelled: log calls, clock readings of durations, the push of metrics, URL and header text,
-- SSL; the rounding of floats, which are exact decimal fractions; negative settings; integers of a date
-- that are too large for C. The text
-- of the command line is not parsed, but for the names of the entities. Of the scripts only
-- validate_dbt_sql.py is modelled, without its Jinja functions and its fixtures, and the scheduling
-- is that of the analytics pipeline alone.
pub mod Prelude
pub mod Values
pub mod Client
pub mod Outcome
pub mod Parsers
pub mod Entities
pub mod Validation
pub mod Loader
pub mod Pipeline
pub mod Cli
pub mod Mock
pub mod Exporter
pub mod Airflow
pub mod Config
pub mod Dbt
pub mod Tests
