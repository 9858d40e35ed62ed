-- ===== src/Lib.antt =====
-- The control plane of the feature-flag platform, control-plane/app, the reference bucketing,
-- conformance/reference_bucket.py, the evaluator, sdk/go/flageval, and of the data plane,
-- data-plane/internal, the keys that it accepts and the rulesets that it holds.
--
-- The program is an HTTP API over eight Postgres tables. A request is matched to a handler of one
-- of five routers (api/projects.py, flags.py, segments.py, credentials.py, audit.py); its body is
-- read by a Pydantic model (schemas/); the handler runs in one transaction that `get_session` of
-- db.py opens, commits where the handler returns and rolls back where it raises; handlers that
-- change a row write an entry of the audit log in the same transaction (services/audit.py), and the
-- two that change what is evaluated notify the data plane (services/notify.py). The data plane reads
-- the stored rows and evaluates flags with them, for callers whose SDK key it finds among the
-- credentials by its hash.
--
-- Which file models which part (paths of the program below control-plane/app):
--   Json, Schemas/*: JSON, and schemas/*.py. `load_...` reads a model from JSON with its
--     constraints and validators, `dump_...` is `model_dump`. Schemas/Accepted and Schemas/Bodies
--     say what an accepted body is, independently of its reading; Schemas/Soundness and
--     Schemas/RoundTrip relate the two.
--   Models: models/*.py, a record for each table, with its primary key.
--   Store/Engine: what the handlers take from SQLAlchemy and Postgres, as operations on tables and
--     their laws. Store/Memory, Store/Sorting: tables as lists, which meet them. Store/Session:
--     db.py, and the type of a handler, `Action A = Transaction → Result A × Transaction`; an
--     exception is a value of `Error`. Store/Compare: Python's `==` of JSON values, by which a flush finds that
--     a column was set to the value it had. Store/Relations: unique keys and references.
--     Store/Actions, Store/Tables: lemmas.
--   Services/*: services/audit.py (`record` is `record_audit`), notify.py, credentials.py.
--   Api/Common, Api/Projects, Api/Flags/*, Api/Segments, Api/Credentials, Api/Audit: api/*.py, a
--     function for each handler, of the same name. In Api/Flags, Indices is `_validate_indices`,
--     Config holds the row that an update writes, `_config_snapshot` and `_config_out`, and
--     Handlers the six handlers. Api/Flags/Race is `update_flag_config` in two phases, what its
--     transaction reads and what it writes, between which another transaction can commit. The other
--     files under Api hold what is proved of them: Api/Flags/Written and Api/Flags/ReadBack of an
--     update's rows and of reading them again, Api/Parts of the rows that a WHERE clause finds.
--   App/Requests: the routers that main.py includes: a request is a value of `Request`, `route` its
--     handler with the reading of the body and the response model, `handle` the handler in its
--     transaction. App/Responses: the response models. App/Served: `serve`, requests one after
--     another. App/Steps: what a request does to the tables, stated by primary keys and without the
--     handlers. App/Consistent: what holds of the tables at all times. The other files of App relate
--     these.
--   Startup/Config, Startup/Process: config.py, and what `create_app` of main.py sets up in db.py,
--     services/notify.py and logging_setup.py. Startup/Url, Startup/Precedence: where each setting
--     comes from.
--   Conformance/Bucket: conformance/reference_bucket.py.
--   Sdk/*: sdk/go/flageval, a function for each of the package's, in snake case. Sdk/Types is
--     types.go, Sdk/Values values.go with the values that encoding/json makes, Sdk/Attributes
--     context.go, Sdk/Bucket bucket.go, Sdk/Clauses clauses.go, Sdk/Evaluate eval.go. Sdk/Run has the
--     outcomes of a run: a result, a panic, or that the fuel was used up.
--   Sdk/Ruleset: what `assemble` of data-plane/internal/store/store.go decodes of the targeting that
--     the control plane has stored.
--   DataPlane/Rulesets: `assemble` and `LoadAll` of data-plane/internal/store/store.go. The rulesets
--     that are held are a function of the environment's id.
--   DataPlane/Auth: data-plane/internal/auth/auth.go, and `bearer` and `authenticate` of
--     data-plane/internal/server/server.go.
--   Examples: runs of the program on tables in memory, and each property at an input.
--
-- State and operations. `Server` is what is kept between requests: the committed tables and the
-- notifications delivered so far. `Transaction` is a session: the tables as it sees them and the
-- notifications it has issued. What a request draws from outside (the caller, a UUID, a token, the
-- number of the audit row, the time, SHA-256, the configured backend) is its `Context`, so nothing
-- is assumed of it; a UUID that is taken is a clash of the primary key. `session.add` with `flush`
-- is a test for a clash followed by the write. A `flush` of a row that was loaded and changed writes a
-- JSON column only where its new value differs from the loaded one by Python's `==`, for which
-- True == 1 == 1.0: `flushed_config` and `flushed_segment_config` are the rows that it leaves, while
-- the response and the audit entry are made from the row in memory. A unique constraint is a query in
-- the handler's `..._clashes`. The number of an audit row is drawn from the database's sequence, which
-- draws none twice; a row under a number that is taken, which the database would refuse, replaces the
-- stored one here. Integers of a body are ℤ; a column's width (32 bits for `Integer`, 63 bits of
-- magnitude for `BigInteger`) is tested where a handler writes it.
--
-- Bounds and fuel. Every loop of the program is over a list and is structural recursion here. The
-- decimal digits of a number are printed with the number itself as fuel, which is at least the
-- number of its digits. Lengths of texts are counted in code points. The evaluator recurs over
-- prerequisites and over segments: `evaluate` takes as fuel the depth of prerequisites, for which one
-- more than the number of the store's flags is enough, since each nested call marks one more flag as
-- visited; `depth` is that of segments within segments, for which any number above the ranks of the
-- segments is enough where each names segments of a lower rank only. A segment that names itself has
-- no such depth.
--
-- Parameters. `Engine` (SQLAlchemy and Postgres, and Python's comparison of floats with floats and
-- with ints), `Pydantic` (the lenient conversions; a value of the
-- declared type is taken as it is), `Floats` and the SHA-1 of the bucketing, `Python` and `Env` of
-- the configuration, the collation of the database (`collates`) by which lists are ordered; `Go`, the
-- doubles and the functions of Go's standard library; `value_of`, the decoding of a clause's value;
-- `unchanged`, in Api/Flags/Race, the comparison of a flush, of which nothing is assumed;
-- `cut_prefix`, and the SHA-256 of the data plane; `unmarshal_flag` and `unmarshal_segment`, what
-- encoding/json makes of a stored row in a load, where Sdk/Ruleset says it for the targeting.
--
-- Not modelled: requests at the same time, whose transactions interleave under READ COMMITTED, but
-- for two updates of one flag's targeting; the matching of a URL to a route and the conversion of
-- its parts; the texts of error responses beyond their parts; texts with NUL characters, which
-- Postgres refuses; the reading of YAML; log messages; the web console and its static files; the
-- migrations; the command line of reference_bucket.py; of the data plane, its listener, the streams
-- to its clients and its configuration, and what another transaction commits between the queries of
-- one load; that Go divides a 60-bit number after rounding it to a double, while Python divides the
-- integers; the conversion of a double beyond the 64-bit integers to text.
pub mod Base
pub mod Json
pub mod Schemas
pub mod Models
pub mod Store
pub mod Services
pub mod Api
pub mod App
pub mod Startup
pub mod DataPlane
pub mod Sdk
mod Examples
pub mod Conformance
