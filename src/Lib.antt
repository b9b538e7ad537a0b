-- ===== src/Lib.antt =====
-- The backend of TestExchange, where campaign owners have their software tested for credits: the
-- services of app/services with the state that they keep in the database, the routes that call
-- them with their request bodies and responses, the transaction round each request, the rate
-- limiter, the settings, and the policies of the storage of evidence.
--
-- Parts and files.
--   Base, Base/Tests, Base/Tables, Base/Sorting, Base/Int: Boolean tests, tables as lists with the
--     queries made of them (`find` for one row, `select`, `count_if`, `update_if`, `order_by`),
--     integers.
--   Model/Enums: app/models/enums.py. Model/Keys: the idempotency keys of the services.
--   Model/Entities: the rows of app/models/entities.py.
--   Session/Defs, Session/Rows: one database session, its errors and the monad `M` of the services;
--     INSERT and UPDATE on each table, with the unique and check constraints of
--     app/models/entities.py at an INSERT.
--   Common, Notifications, Credits/Defs, Moderation, Profiles: the files of app/services with those
--     names, function by function.
--   Campaigns/Drafts, Campaigns/Contracts, Campaigns/Lifecycle: app/services/campaigns.py.
--   Workflow/Applications, Workflow/Testing, Workflow/StorageKey, Workflow/Submissions,
--     Workflow/Reviews, Workflow/Disputes: app/services/workflow.py.
--   Reading/Accounts, Reading/Workspaces, Reading/Cases: the functions of app/services that only read.
--   Quality, Quality/Texts: app/services/quality.py.
--   EvidenceLinks, EvidenceLinks/Quoting: app/services/evidence.py.
--   Schemas/Fields, Schemas/Bodies: the constraints of the bodies in app/schemas/api.py.
--     Schemas/Reads, Schemas/Records, Schemas/Nested: its response models.
--   Routes/Responses, Routes/CampaignRoutes, Routes/WorkflowRoutes, Routes/ModerationRoutes,
--     Routes/AccountRoutes: the functions of app/api/routes.
--   RateLimit, RateLimit/Middleware: app/core/rate_limit.py.
--   Waitlist/Addresses: the body of the waitlist in app/schemas/api.py, as a function from any text and
--     as the test that its route makes.
--   Application: the request identifier and the handler of errors of app/main.py.
--   Config: the check of production settings and the addresses in app/core/config.py, and `normalize_database_url` of app/db/session.py.
--   StoragePolicies: the SQL functions for the evidence bucket in
--     migrations/versions/d82e41f6a903_repair_release_security.sql, the last migration, which
--     replaces the earlier ones of the same names.
--   Api/Requests: which function each writing request goes to, `get_active_user` and `get_moderator`
--     of app/core/auth.py, and the transaction of `get_db` in app/db/session.py. Api/Queries: the
--     same for the requests that only read.
--   Session/Keeps, Session/Wp, Session/Reads, Session/Inversion: rules for what operations keep, for
--     what holds after them, for operations that only read, and for what a return tells.
--   Credits/Balance, Credits/Steps, Credits/Ledger, Credits/Purposes: what the credit service does to
--     its two tables. Credits/Charging, Credits/Repeats: one call of it, and a call that is repeated.
--   Stability/: each service keeps what the operations on single rows keep.
--   Workflow/Steps, Progress/: the state machine of an assignment and the proofs for each service.
--   Api/Invariants, Api/Ledger, Progress/Requests, Progress/Ids, Progress/Reach: any request, and any
--     run of requests.
--   Api/Access, Api/Workspaces, Api/Unchanged, Waitlist, Waitlist/Requests: users without access,
--     private workspaces, reading requests, joining the waitlist, and a request to join it.
--   Routes/Evidence, Quality/Scores, Quality/Agreement, EvidenceLinks/Links, EvidenceLinks/Escapes,
--     Routes/Unlocking, Routes/Listing, Config/Urls, StoragePolicies/Frozen: the proofs
--     about the part that each is named after.
--   RateLimit/Cleaning, RateLimit/Runs, RateLimit/Quota: the clean-up of the limiter, runs of
--     requests against it, and how many it lets through.
--   Progress/Capacity: the places of a campaign. Profiles/Seats: the seats of the beta.
--   Examples/: the theorems at concrete databases.
--
-- How the parts interact. A request goes through the middleware, `dispatch`, and then through
-- `route`, which checks the user and the body and calls the function of the route: this calls one
-- service and makes the response. The services call the common helpers, the notifications and the
-- credits, and all of them read and write the one session. `handle` commits what a request did, or
-- rolls it back where it raised; `serve` answers requests one after another. A reading request goes
-- through `answer`.
--
-- Choices of the model.
--   An exception rolls the transaction back, so a result is either a value with the new session or
--   an error alone. The session of the code does not flush by itself; each of its queries that
--   depends on an earlier write comes after a flush or reads the identity map, so a write of the
--   model is seen at once. An id is a UUID of which only the identity is used, a natural number
--   here; the text of one is written out for the storage keys alone. `uuid4` and the clock answer
--   with what a request is supplied with, which no theorem restricts but for the fresh id of a new
--   entry in Credits/Charging. A time is a number of
--   microseconds in UTC. A table is a list with the newest row first, which stands for the order of
--   `created_at` where the server fills it; the evidence items have a `created_at` of their own, read
--   from the clock when the row is written. A body is taken as pydantic hands it on: its types are
--   right and its texts stripped; what `str.strip` and `str.lower` make of the waitlist's address
--   comes with the request. An idempotency key is a constructor with the id in it. The detail of the
--   error for a storage key is one fixed text, where the code names the folder in it.
--   Recursion is structural throughout, so there is no fuel but in `decimal`, which has as many
--   steps as the number it prints.
--
-- Parameters: Python's Unicode tables for white space and lower case, the storage service behind
-- `httpx.post`, Starlette's responses, the text of a fresh identifier of a request, the
-- text-to-UUID cast of PostgreSQL.
--
-- Not modelled: foreign keys, the columns `created_at` and `updated_at` that the server fills, and
-- check constraints at an UPDATE, but for that of a balance; row locks and the interleaving of transactions; the checks of a URL in the schemas; the
-- verification of tokens, error tracking and the wiring of app/main.py, which are calls of libraries
-- and of services outside; `parse_origins` and `parse_moderators`, before which pydantic-settings
-- decodes a list of the environment as JSON; the probes /health and /ready; and the changes of the
-- SQL schema in the migrations, since the tables are taken as app/models/entities.py declares them.
pub mod Base
pub mod Model
pub mod Session
pub mod Common
pub mod Notifications
pub mod Credits
pub mod Campaigns
pub mod Workflow
pub mod Moderation
pub mod Profiles
pub mod Waitlist
pub mod Reading
pub mod Schemas
pub mod Quality
pub mod EvidenceLinks
pub mod Routes
pub mod Config
pub mod StoragePolicies
pub mod RateLimit
pub mod Stability
pub mod Progress
pub mod Api
pub mod Application
pub mod Examples
