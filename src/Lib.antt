-- ===== src/Lib.antt =====
-- data-effi: the backend's ingestion pipeline, its upload queue, its subscriptions, its
-- notifications and the guard of generated SQL.
--
-- Files of guides (shipments) and of money movements come in, row by row. A row is normalised
-- (pipeline/normalize.py, pipeline/mapping.py), becomes a ShipmentInput or a MovementInput
-- (pipeline/models.py), and is written to a store (pipeline/ingest.py). The store merges a guide
-- that it has seen before by a fixed policy, and links a movement to its guide, in whatever order
-- the two arrive.
--
-- Files, and the code that each is about:
-- - Prelude: the shared names, Boolean tests, lists, texts, integers, equality of keys.
-- - Dict: Python's dict, as an association list in insertion order.
-- - Decimal: decimal.Decimal, finite, with == and < by value.
-- - Pipeline.Models: pipeline/models.py, the data.
-- - Pipeline.Normalize: pipeline/normalize.py. Normalize.Text has normalize_text and clean_text,
--   Normalize.Money parse_decimal and parse_int, Normalize.Dates parse_date and parse_datetime,
--   Normalize.Keys normalize_tracking, normalize_currency, hash_customer and dedupe_key.
--   Normalize.Runtime has what they take from Python and from the Unicode database, as a record of
--   functions: str of a value that is no text, strptime, sha256, and the tests of characters.
-- - Pipeline.Mapping: pipeline/mapping.py. Mapping.Status has STATUS_CANON and the groups,
--   Mapping.Aliases and Mapping.Resolve resolve_status, Mapping.Movements resolve_movement_type,
--   Mapping.Columns and Mapping.Headers build_header_map.
-- - Pipeline.Checks: check_shipment and check_movement of pipeline/ingest.py.
-- - Pipeline.Rows: the row handlers of IngestEngine, in Rows.Guide and Rows.Payment; Rows.Accepted
--   and Rows.Identity are about their results.
-- - Pipeline.Profiles: pipeline/profiles.py. Profiles.Source has detection and header map,
--   Profiles.Country detect_country, Profiles.Redaction redact_row; the tables of the four reports
--   are in Profiles.Effi, Profiles.Dropi and Profiles.Catalogue; parse_content in Profiles.Contents,
--   the transforms in Profiles.EffiGuide, Profiles.DropiOrder and Profiles.Wallet.
--   Profiles.Concealed is about redact_row, .Named about build_profile_header_map, .Guided,
--   .Ordered, .Signed and .Outgoing about the transforms, by the lemmas of .Leaves.
-- - Pipeline.Readers: pipeline/readers.py. iter_records is in Readers, sniff_format in Readers.Bytes,
--   the regular expressions of HTML tables in Readers.Html, read_tabular and its readers in
--   Readers.Tables, what they take from libraries as a record of functions. Readers.Kept is about
--   the rows that they keep and about sniff_format.
-- - Pipeline.Merge: ShipmentRecord, MergeOutcome, merge_shipment and apply_merge of
--   pipeline/ingest.py. Merge.Loops puts its three loops over the field names in closed form,
--   Merge.Fields says what each field holds afterwards, Merge.Status what becomes of the status,
--   Merge.Known that merges keep a known status, Merge.Idempotence that a second merge of a row
--   is idle.
-- - Pipeline.MemoryStore: the class MemoryStore of pipeline/ingest.py, one function for each
--   method: MemoryStore.State has its attributes, .Register the batches, .Guides the guides,
--   .Payments the movements, .Orphans relink_orphans and .Many the upsert of a list. The other
--   modules are about them: .Shipments, .Movements, .Batches, .Known, .Groups, .Invariant and
--   .Relinking.
-- - Pipeline.Engine: IngestEngine.ingest. Engine.Writing has flush and the counters of the report,
--   Engine.Reading the loop over the rows, Engine.Upload and .Loading the frame around it. The
--   other modules say what a load does to the report and to the store: .Flush, .Keeps, .Accounts,
--   .Consistent, .Repeat, .Total and .Returns.
-- - Pipeline.Tests: concrete inputs.
-- - Api.Billing: api/billing.py, in Billing.Reading and Billing.Changes; Billing.Access has
--   _guard_subscription of api/deps.py, the limit on companies of api/routers/org.py and the lists
--   that are shown. Billing.Standing is about reads of a subscription, .Choosing and .Activating
--   about its changes, .Unpaid about sequences of them.
-- - Api.Queue: api/ingest_queue.py, on a store and with a load that are arguments. Queue.State has
--   the tables, Queue.Country _resolve_country and Queue.Steps _process; Queue.Processed, .Copies and
--   .Undetermined are about what becomes of an upload, by Queue.Taken. Queue.Loads makes the load of
--   IngestEngine.ingest and the store in memory.
-- - Api.Tests: concrete inputs.
-- - Ai.Sql: validate_sql of ai/nl2sql.py. Sql.Lists has its lists, Sql.Scans and Sql.Fence its regular
--   expressions, Sql.Parser what it takes from sqlglot, and Sql.Guard the function itself. Sql.Safe,
--   .Answers, .Vetted and .Accepted say which queries are accepted, Sql.Views which views they name,
--   Sql.Bounded how many rows they return, Sql.Reached what they read, by the scopes of SQL in
--   Sql.Scope.
-- - Ai.Alerts: ai/alerts.py, the table raw.notification and the events. Alerts.Findings has
--   persist_findings, Alerts.Digest the digest and the report of a day; Alerts.Spaced is about
--   sequences of them, Alerts.Daily about one that is done again.
-- - Ai.Tests: concrete inputs.
--
-- How the code is modelled: a method of the store returns the new store beside its result, and an
-- exception that leaves it (KeyError for an unknown status, BatchAlreadyExists) is None. A UUID is a
-- number, for it is only compared; uuid4() is an argument. Dates and timestamps are numbers of days
-- and of microseconds. The attributes that getattr reads by name are a function of the name. A
-- decimal has a coefficient and a scale; amounts of more digits than the 28 of Python's context
-- are rounded by unary minus and abs in the source, and not here. A row handler returns the issues
-- and the verdict that the source writes to the report. There is no fuel: every loop is over a list
-- or a text.
--
-- The statements of api/billing.py are functions on the two tables; `now` is an argument, and the
-- texts for people are constructors.
--
-- The statements of sqlglot are a type with the functions that validate_sql calls. Where the code
-- goes through a set, which has no fixed order, the model goes through it in the order of the text.
-- In ai/alerts.py an amount is the decimal that the source makes a float of, and `now` is an argument.
--
-- A job of api/ingest_queue.py is processed in one step; a transaction that is rolled back writes
-- nothing. Tasks that run at the same time are steps in some order, as its lock orders them.
--
-- Not modelled: PostgreSQL, the cipher, HTTP, the exceptions of csv.reader and of openpyxl, the
-- warnings, times and logs of a report, and the rest of the packages api, ai, connectors, worker and
-- web.
pub mod Ai
pub mod Api
pub mod Decimal
pub mod Dict
pub mod Pipeline
pub mod Prelude
