-- ===== src/Lib.antt =====
-- Verification of the georisk platform: the assessment and identity contexts, the acquisition of
-- data, the validation of results, alerts and reports, with the outbox, the transactions and the
-- rate limiting that they stand on. Paths are from the repository's root.
--
-- How the parts interact. A request is checked against an access token, becomes a command, and a
-- handler runs the command in one transaction: it loads an aggregate, calls one of its methods,
-- saves the aggregate, appends the method's event to the outbox, and commits. The workflow engine
-- runs several commands, a transaction each, and reacts to what they leave.
--
-- Which file models what.
--   Common                names of the libraries, tests on numbers, lists and tables
--   Errors                src/georisk/shared_kernel/errors.py, the error classes of the contexts,
--                         and `_STATUS_MAP` of src/georisk/api/middleware/error_handling.py
--   Session               src/georisk/db/session.py: `in_session` is `Database.session`
--   Outbox                src/georisk/db/outbox_writer.py and outbox_models.py
--   RateLimiting          src/georisk/rate_limiting.py
--   Assessment            src/georisk/contexts/assessment
--     Types, Stage        domain/value_objects.py, domain/workflow_value_objects.py
--     Template            domain/workflow_template.py
--     Entity, Events      domain/entities.py, domain/events.py
--     Database            infrastructure/repositories.py and workflow_repositories.py
--     Handlers            application/handlers.py and workflow_handlers.py: the `handle` of
--                         `MarkAssessmentReadyHandler` is `mark_assessment_ready`, and so on;
--                         `transact` is what the handlers of methods with one event share
--     Engine              application/workflow_engine.py
--   Notification          src/georisk/contexts/notification
--     Types, Events       domain/value_objects.py, domain/events.py
--     Rule, Subscription  domain/entities.py
--     Database            infrastructure/repositories.py
--     Handlers, Evaluate  application/handlers.py; `EvaluateAlertRulesHandler` is
--                         `evaluate_alert_rules`
--   Acquisition           src/georisk/contexts/data_acquisition
--     Types, Events       domain/value_objects.py, domain/events.py
--     Catalog, Job        domain/entities.py
--     Database            infrastructure/repositories.py
--     Handlers            application/handlers.py but for the execution of a job
--     Json, Validation    domain/validation.py
--     Features            domain/feature_extraction.py
--     Import, Execute     `ExecuteAcquisitionJobHandler` of application/handlers.py: what it does
--                         between its two transactions, and the transactions
--   Reporting             src/georisk/contexts/reporting
--     Sections            domain/value_objects.py, and what `GenerateReportHandler` of
--                         application/handlers.py reads
--     Report              domain/entities.py, domain/events.py
--     Handlers            application/handlers.py, infrastructure/repositories.py
--     Queries             application/queries.py, the queries for one report
--   Validation            src/georisk/contexts/validation
--     Types               domain/value_objects.py
--     Matrix              the confusion matrix of domain/value_objects.py and domain/metrics.py
--     Ranks, Metrics      domain/metrics.py
--     Regression          domain/regression_metrics.py
--     Run                 domain/entities.py, domain/events.py
--     Handlers            application/handlers.py, with the tables of infrastructure/repositories.py
--   Identity              src/georisk/contexts/identity
--     Types, User, Events domain/value_objects.py, domain/entities.py, domain/events.py
--     Tokens              domain/tokens.py
--     Database            infrastructure/repositories.py
--     Auth, Sessions      application/handlers_auth.py, application/services.py, the change of a
--                         password in application/handlers_user.py, interface/dependencies.py
--     Users               application/handlers_user.py
-- The modules below these hold proofs, and those called Tests runs and witnesses.
--
-- How the state corresponds. An id is a number, and a command carries ids that are parsed. Times are
-- numbers; where an operation reads the clock more than once, `clock k` is reading k of its
-- transaction. New ids and raw tokens are arguments. An event is its payload. A database row and the
-- domain object that the mappers make of it are one record. A frozenset is a list that is only asked
-- for its members, or, where it is iterated, a list without repetitions. A method that mutates its
-- object returns the new object, and a raised exception is `err`; the object that a raise leaves
-- behind is the old one, since every method raises before it assigns. A transaction works on a copy of the tables, which `commit` publishes; transactions follow
-- one another, and interleavings of two sessions are not modelled.
--
-- Parameters. `Crypto` is the hashing of passwords and tokens and the signing of access tokens, which
-- the program takes from argon2, hashlib and PyJWT. `Env` is the stage executor that the composition
-- root passes to the engine, with the clock. What Redis answers is an argument of the limiter.
-- `Env` of Notification is the metric reader, the assessment reader and the channels; a measured value
-- is of a type `V`, with the comparisons and the text of a floating-point number as `Floats`.
-- `Env` of Reporting is the readers of a report, each of which answers or raises; the entries copied
-- from prediction runs, data sets and validation runs are of types `P`, `D` and `W`. The sections of a
-- report are one optional value, since only a failed generation leaves them out.
-- `Env` of Acquisition is the providers of data, the area reader, base64, the parser of shapefiles and
-- the texts of ids and boxes; its `Stdlib` is Python's parsers of JSON, CSV and ZIP with the tables of
-- Unicode, and its `Floats` the arithmetic, whose errors are not modelled. A parser may raise the
-- exception that the code expects or another. A text that an entry of the provenance is formatted
-- from is a `Description`.
-- `Floats` of Validation is the arithmetic of its metrics, on floats that are ordered (no NaN); what a
-- resolver of a subject answers or raises is an argument.
--
-- Fuel. `resolve_loop` runs on one more step than there are stages, since each round but the last
-- resolves a stage. `execute_stage` runs on the depth of the recursion through the engine's
-- reactions, and raises `out_of_fuel`, an error of the model alone, where the depth is too small; ten
-- times one more than the largest number of attempts is enough, since there are nine stages.
-- `rank_runs` runs on as many steps as there are values, and each round passes at least one.
--
-- Not modelled: HTTP routing and schemas, logging and tracing, list queries and their cursors, the
-- Tenant aggregate, the connectors of acquisition, and the contexts for geospatial data, analysis,
-- prediction, dashboards and audit. Attempt limits below zero and windows
-- of length 0 are not represented.
pub mod Common
pub mod Errors
pub mod Session
pub mod Outbox
pub mod Assessment
pub mod Identity
pub mod RateLimiting
pub mod Notification
pub mod Reporting
pub mod Acquisition
pub mod Validation
