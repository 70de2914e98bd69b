-- ===== src/Lib.antt =====
-- A model of the event-driven RAG pipeline, with the theorems that make its parts correct.
--
-- Posts are synced, chunked, embedded and searched by services that talk through an event log and
-- RabbitMQ queues. Paths below are from the root of the repository.
--
-- EventBus: src/event_driven_rag_service/infrastructure/event_bus.py. The Postgres bus: the two
-- tables, `publish`, and one `subscribe` generator as a sequence of steps, with crashes.
-- Tasks, Config: src/event_driven_rag_service/tasks and config/embedding_config.py,
-- config/reranking_config.py. The task models and the constant model tables.
-- Embed: src/event_driven_rag_service/handlers/embed_handler.py. `embed_chunks` and
-- `embed_query`, as actions that may raise over what was saved and published.
-- Worker: src/event_driven_rag_service/worker/base_worker.py, the channel, the poll and the
-- callback; Worker/Gpu: worker/gpu_worker.py, the rounds of the GPU worker over an interface of
-- handlers, which Worker/Gpu/Embedding fills with the handler of Embed.
-- Search: src/event_driven_rag_service/repository/search_job_repository.py, and the handlers
-- search_handler.py (Search/Run), search_finalize_handler.py (Search/Finalize) and
-- rerank_handler.py (Search/Rerank).
-- Dispatch: src/event_driven_rag_service/dispatchers, what each does with one event; Posts: the texts
-- of data_models/post.py as handlers/chunk_handler.py resolves them.
-- Chunker: src/event_driven_rag_service/utils/chunk_strategies.py, the boundary chunker over Python's
-- integers. What it rounds from floats is a record of functions, which Chunker/Exact fills with the
-- code's formulas in exact arithmetic over whole percents; its fuel is one turn for each character of
-- the text and one more, which is enough under the conditions of Chunker/Ends.
-- Chunks: src/event_driven_rag_service/repository/chunk_repository.py, the statements on the chunk
-- tables; Chunks/Handler: handlers/chunk_handler.py over those tables.
-- Requeue: src/event_driven_rag_service/services/requeue_service.py and chunk_backfill_service.py.
-- Ladder: src/event_driven_rag_service/worker/remote_embedding.py and reranking.py, the remote leg with
-- its checks and the local leg behind it; Guard: worker/local_run_guard.py, the markers of local runs
-- over restarts; Loader: worker/entrypoints/gpu.py, which model the worker loads for a name, and the
-- ladder over the guard. Loader/Redelivery runs them together with the handler of Embed.
-- TableNames: src/event_driven_rag_service/utils/build_table_names.py.
-- Remote: remote_embedder_service/src/remote_embedder, registry.py and manager.py.
--
-- Prelude/Action models fallible code: a call returns or raises, and keeps what it did before.
-- Databases, brokers, model weights, clocks and telemetry are not modelled: what a call of them
-- answers is a parameter. Loops are structural over the finite lists they run over; the endless
-- loops of the workers and of the bus are runs of any number of rounds or steps. Only the chunker runs
-- on fuel. Texts are lists of code points and floats are an abstract type, ordered where scores are
-- compared.
--
-- Not modelled: the HTTP API and its templates, telemetry and wiring, the folder suggestions, which
-- score with floats, the repositories of posts, folders, highlights and libraries, which are SQL text,
-- and the Redpanda bus, which only calls its client.
pub mod Prelude
pub mod Tasks
pub mod Config
pub mod EventBus
pub mod Embed
pub mod Worker
pub mod Requeue
pub mod Search
pub mod TableNames
pub mod Posts
pub mod Dispatch
pub mod Remote
pub mod Ladder
pub mod Chunker
pub mod Chunks
pub mod Guard
pub mod Loader
