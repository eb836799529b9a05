-- ===== src/Lib.antt =====
-- A model of the parts of the ChatVector server (backend/) and of its Python client
-- (sdk/python/chatvector/) that decide what a turn sees, what becomes of a job, and what is
-- retried.
--
-- How the parts interact: an upload creates a document, registers it with its tenant and puts a
-- job into the ingestion queue; a worker runs the ingestion pipeline on the job, which extracts
-- the text, cuts it into chunks, embeds and stores them, and a failure is judged and retried or
-- ends in the dead letters. A chat turn gets its session, resolves its history settings,
-- transforms its question, asks the registry and the session which documents it may search, widens
-- what retrieval finds by a graph, settles its retrieval settings from the layers of the request,
-- a preset and the process, builds its context from what it found, and streams its answer as
-- server-sent events, which the client parses; the client and the server each have a retry loop
-- around their remote calls. An upload may carry an Idempotency-Key, so that a repeated request is
-- answered with the first one's result.
--
-- Prelude, Text: the library's names, Boolean tests, lists measured by native numbers, Python's
--   integers and dictionaries, and what the code uses of Python's texts.
-- History: backend/services/history_config.py. Fields is `merge_history_fields` over layers of
--   optional values (`PyValue` is a value as `is None`, `int` and `bool` see it), Config
--   `resolve_history_config`, `build_resolution_policy`, `config_applied_debug` and
--   `history_load_limit`, Windows `slice_history` and `trim_generation_history`, Turn
--   `prepare_turn_history`. An InvalidHistoryConfigError is the result `invalid`.
-- Failures: `is_transient_error` of backend/utils/retry.py and `ingestion_failure_is_terminal` of
--   backend/services/ingestion_outcome.py. An exception is one of the classes that the code tests
--   for, with its message.
-- Retry: `retry_async` of backend/utils/retry.py. The outcome of each call and each random draw
--   are arguments; the result has the outcome, the number of calls and the sleeps.
-- Limiter: `TokenBucketRateLimiter` of backend/services/queue_base.py, one round under its lock
--   at a time, with the reading of the clock as an argument.
-- SdkRetry: `retry_sync` and `retry_async` of sdk/python/chatvector/_retry.py with the helpers of
--   _common.py that they use; the readings of the clock are arguments.
-- Bulk: `execute_bulk_uploads` and `execute_bulk_uploads_async` of
--   sdk/python/chatvector/_bulk_upload.py. A path has its calls of the upload, each with its
--   outcome; Steps is the relation of the steps that the workers take in any order, as long as
--   fewer than their number are busy.
-- Queue: backend/services/queue_asyncio.py. Asyncio has one function for each stretch of
--   `enqueue`, `_worker` and `_process_job` between two waits; Asyncio/Steps is the relation of the
--   steps that producers and workers take in any order, where a worker may receive a job that was
--   taken later than another worker's. `asyncio.Queue` is a list with a bound.
--   Calls of the database and of the webhook are a list of effects; their failure is an argument
--   where the code goes on after it. Redis is backend/services/queue_redis.py, function by
--   function, with Redis/Jobs for what it makes of a job; Redis/Interface holds what it uses of RQ,
--   Redis and the artifact storage (backend/services/artifact_storage.py) as a record of operations
--   and a record of laws. Contract states what both backends do with a failed attempt, a requeue
--   and a submission on the ids that wait, the dead letters and the writes alone; Contract/InMemory
--   and Contract/Persistent relate the backends to it.
-- Chunking: the chunking strategies of backend/services/ingestion_pipeline.py. Lines is what the
--   code uses of Python's lines, Blocks `_iter_text_blocks` as a fold over the lines, Documents the
--   metadata of chunks and the splitter, a record of one operation with a law, which
--   Documents/Fallback fills with the class that stands in for LangChain's; Strategies has the
--   three strategies, over the sentence spans of a text as a function with laws.
-- Ingestion: Records is `_build_chunk_records` of the same file, Pages the loops over pages of
--   backend/services/extraction_service.py, Formats its registry of extractors and its decoding,
--   with Python's codecs as arguments, Upload `validate_file`, FileName `_sanitize_filename`, Row the transactions of
--   backend/db/sqlalchemy_service.py on the row and the chunks of one document. Pipeline and
--   Pipeline/Process are `_update_status`, `_handle_error`, `_embed_documents_with_progress`,
--   `process_document_background` and `process_document` in a monad of a state (the row and the
--   calls made) and exceptions; whether a call of the database or the webhook fails is a function
--   of the calls before it, and so is whether a call of the database that fails has changed the row
--   before. Pipeline/Triple has the triples by
--   which the stages are proved.
-- Query: backend/services/query_service.py, with the answers of the model as an argument. Query
--   is rewriting, expansion and step-back, Query/Transform the gate, the resolution policy and
--   `transform_query`; what the regular expressions of the gate find is an argument.
-- Sessions: backend/services/session_service.py with the transactions on session records of
--   backend/db/sqlalchemy_service.py, one call after the other; Steps are the requests of tenants.
-- Idempotency: backend/services/idempotency.py, with Redis as a record of operations on one key.
--   `begin_idempotency` takes the answers to its reads and claims; Steps is the relation of the
--   steps that requests with the same key take in any order.
-- Retrieval: Fields is `merge_retrieval_field_layers` of backend/services/retrieval_config.py,
--   Config its `resolve_retrieval_config` with the record of the result in Config/Settings,
--   Config/Turn what backend/services/chat_service.py does with it, Presets
--   backend/services/retrieval_presets.py and `resolve_effective_retrieval`, Context
--   `build_context_from_chunks` of backend/services/context_service.py.
-- Tenant: Registry is backend/services/tenant_registry.py, Registry/Steps its use by uploads
--   (backend/routes/upload.py), deletions (backend/routes/documents.py) and reads that overlap;
--   Scope is backend/services/retrieval_service.py and `_resolve_retrieval_doc_ids` of
--   backend/services/chat_service.py, on the answer of the registry's `get_tenant_document_ids`,
--   whose database is an argument, as is the metadata filter.
-- Metadata: backend/services/metadata_filter.py and backend/services/document_metadata.py, from
--   parsed JSON on.
-- Graph: backend/services/graph_retrieval.py, from parsed rows on. A Python set is a list in
--   which only membership counts; the code sorts a set before its order could matter.
-- Sse: `_format_sse_event` of backend/services/chat_service.py, and the four generators of
--   sdk/python/chatvector/_sse.py; the dispatch of one event is an argument.
--
-- Bounds and fuel: durations and times are whole ticks in place of floats. The retry loops recurse
-- on the number of rounds left, which starts at that of `range`, so that no round is lost. The
-- loop over the sentences of a block has fuel for their number, the batches of embeddings for the
-- number of texts and the fallback splitter for the length of its text; each round moves on by one
-- at least. All other loops recurse on their list. Interleavings are finite sequences of steps of
-- any length.
--
-- Not modelled: SQL, HTTP, the inside of Redis and RQ, and the model providers; logging; the
-- starting and stopping of workers; the metadata of a job and the inside of the webhook; file
-- formats, the cleaning of text and the finding of sentences; the deletion of a document while it
-- is ingested; and retrieval, ranking and evaluation, which compute with floats. OverflowError of
-- `int` on a float infinity is left out, and texts that are lower-cased or stripped are taken to
-- be ASCII.
pub mod Prelude
pub mod Text
pub mod History
pub mod Failures
pub mod Limiter
pub mod Idempotency
pub mod Metadata
pub mod Retrieval
pub mod Retry
pub mod Bulk
pub mod SdkRetry
pub mod Queue
pub mod Tenant
pub mod Graph
pub mod Sse
pub mod Chunking
pub mod Ingestion
pub mod Query
pub mod Sessions
