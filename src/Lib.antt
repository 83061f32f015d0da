-- ===== src/Lib.antt =====
-- Verification of the fail-closed core of PruebasPersonalizadas: the contracts, the validators, the
-- planner, the rate limiter, the idempotency keys, the durable jobs, the stage runs and the model
-- gateway of comprehension_verification (paths below are from the root of the repository).
--
-- Evidence of a submission arrives as a bundle with an allowlist. A model proposes an evidence map,
-- which the validators check against the bundle and the blueprint of the activity; the planner
-- selects opportunities of an accepted map, and the validators check every later artifact against
-- what came before.
--
-- Prelude: Python's equality, sets, stable sort, dictionaries built by a comprehension, calls that
-- may raise (Result), and floats as an interface of operations (Floats), since no property depends
-- on rounding. Contracts: the records and enumerations of specification/models_v1.1(1).py.
-- Diagnostics: src/comprehension_verification/diagnostics.py. Validation:
-- src/comprehension_verification/validation.py, one module for each validator. Planning:
-- src/comprehension_verification/planning.py; Scores has the scores and sort keys, Search the beam
-- search _select_exact, Build the reserve and build_assessment_plan. RateLimit:
-- src/comprehension_verification/web/rate_limit.py, with the clock of each call given in
-- nanoseconds. Idempotency: the idempotency keys of
-- src/comprehension_verification/web/repository.py as steps on a table, with what other requests do
-- between two statements in the tables that a call is given. Tests: runs at concrete inputs.
--
-- Jobs: the durable jobs of `Repository` in src/comprehension_verification/web/repository.py.
-- Tables and Documents have the rows, Queue the queueing and the reports of workers, Cancel,
-- Continue, Worker, Publish the operations, each a function of the tables at the start of its
-- transaction, the clock and its arguments, that returns the tables at the commit or the error that
-- rolls it back; a lock is left out, since a transaction is one step. Reads that skip the rows
-- which others have locked take the test on a row as an argument, and so is the order of the
-- database on identifiers. History has, module by module, what every operation does to the tables
-- of jobs and control records (Change, Audit), a history as any sequence of operations (Moves), and
-- what holds of all of them. A history takes any attempt that a worker reports, or, for the bound
-- on claims alone, only those that are not below the stored one and within the limit of the job,
-- and queues jobs within it: save_job_status writes the attempt of a report without a test.
--
-- Gateway: src/comprehension_verification/model_gateway/gateway.py. Routes and Approved have the
-- resolution of a route, Attempts and Governed the loop of invoke, at most three attempts, with the
-- adapter as a function from the attempt to its reply, and with what becomes of an answer as an
-- argument.
--
-- Stages: save_stage and stage_by_key of src/comprehension_verification/web/repository.py, over the
-- tables that its statements find, with the digests of JSON values as parameters.
--
-- A Python exception is an error value, with the code of ContextValidationError and without its
-- message. The beam search is recursion on the number of questions, so it needs no fuel; its width
-- is the default of the source, 512. stable_id is a parameter of the planner, since its digits come
-- from SHA-256, and so is the test of a stored response for transient capabilities in Idempotency.
-- The patterns of identifiers, the loading of schemas, the validators and the repair of the model
-- gateway, the workflows, the HTTP application, the parsers, the exports and the frontend are not
-- modelled.
pub mod Prelude
pub mod Contracts
pub mod Validation
pub mod Diagnostics
pub mod Planning
pub mod RateLimit
pub mod Idempotency
pub mod Jobs
pub mod Stages
pub mod Gateway
pub mod Tests
