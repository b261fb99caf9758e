-- ===== src/Lib.antt =====
-- The verification library of dog-rs. It covers the job queue, the crate
-- dog-queue, the calls, hooks, events and errors of services, in the crate dog-core, the blobs of
-- the crate dog-blob, whole, in parts and in chunks, the authentication of dog-auth and the
-- passwords of dog-auth-local, and services over
-- HTTP, in the crate dog-axum.
--
-- The queue. A client enqueues a message for a tenant; the backend stores it as a job and puts an
-- entry for it in the tenant's queue of that name. A worker dequeues: it gets the job with a lease,
-- runs the handler of the job's type, and acknowledges the job as completed or failed. A failed job
-- may be put back for a later attempt. A heartbeat extends the lease, a client may cancel a job at
-- any time, and the reaper takes back jobs whose lease has run out.
--
-- What models what (paths under dog-queue/src):
--   Queue/Error     error.rs
--   Queue/Priority  types/priority.rs
--   Queue/Record    types/record.rs, types/message.rs, types/ids.rs
--   Queue/Event     types/events.rs
--   Queue/Ctx       types/ctx.rs
--   Queue/Order     priority_insert and the search for a due entry, backend/memory/storage.rs
--   Queue/Memory    the backend of backend/memory/storage.rs: its state and enqueue; its child
--                   Dequeue has dequeue, Ack the operations on one job (ack_complete, ack_fail,
--                   heartbeat_extend, cancel and the reads), and Reaper backend/memory/reaper.rs
--   Queue/Config    QueueConfig of adapter.rs
--   Queue/Retry     calculate_retry_time and the sleeps of Worker::run, adapter.rs
--   Queue/Metrics   observability/metrics.rs
--   Queue/Worker    Worker::process_next_job, adapter.rs; its child Loop has Worker::run
-- The other children of Queue/Memory are about proofs: Queues reads the nested maps of queues as
-- one queue for each tenant and name, Invariant is what holds between critical sections, Lifecycle
-- is the state machine of a job, and Interleaving has the steps of any number of tasks.
-- Queue/Examples applies the theorems to a small backend. Dict stands for the hash maps, and Base
-- has
-- what all files share.
--
-- The services. An application registers services by name, with hooks for all of them and for
-- each. A
-- call of a service through its handle runs around hooks, before hooks, the service, after hooks
-- and, on
-- an error, error hooks; a call that changes something and succeeds emits an event, which the hub
-- of
-- events delivers to the listeners whose patterns match it.
--
-- What models what (paths under dog-core/src):
--   Core/Kit             the types over which the crate is generic
--   Core/Service         service.rs and tenant.rs
--   Core/Hooks           the context of a call and the containers of hooks, hooks.rs
--   Core/Events          the hub of events, events.rs; its child Pattern has the texts that name
-- events
--   Core/App             services, the registry, the application and its builder: app.rs,
-- registry.rs,
--                        config.rs and the trait of service.rs
--   Core/Pipeline        ServiceHandle::run_pipeline, app.rs
--   Core/Handle          the methods of ServiceHandle, app.rs
--   Core/Errors          errors.rs
-- Events/Delivery, Pipeline/Order and Handle/Transparent are about proofs, and Core/Examples
-- applies the
-- theorems to a small application. A hook is a function from a call under way to its result and
-- the call
-- afterwards, and may read and change everything the application shares; an around hook is given
-- the
-- rest of the pipeline, and is not held to calling it once at most, as the source's `Next` is. A
-- call is not interleaved with others. A service changes the state of what the application supplies,
-- and not the hub: that it holds the application itself and emits events is left out.
--
-- The blobs. The adapter stores a blob under a key that its strategy makes of the tenant, the id
-- and the time, and
-- opens it again by its id. A file may also be sent in chunks, which are kept as temporary files
-- until all have come, or
-- in parts. A client begins an upload and hands in its parts in any order; each part is staged as
-- a blob of
-- its own and recorded in the session of the upload. Completing the upload joins the parts under
-- the
-- final key, deletes the staged ones and marks the session. Where a call reads the
-- clock more than once, for a key, a session and a receipt, each reading is an argument of its own.
--
-- What models what (paths under dog-blob/src):
--   Blob/Types        the data of types.rs, upload.rs, receipt.rs, config.rs and error.rs
--   Blob/Parts        the ordered map of an upload's parts
--   Blob/Sessions     session_store.rs
--   Blob/Store        the traits BlobStore and BlobKeyStrategy of store.rs, and what an upload
-- relies on
--   Blob/Staging      the staged parts, coordinator.rs
--   Blob/Coordinator  the operations of coordinator.rs
--   Blob/Keys         DefaultKeyStrategy of store.rs
--   Blob/Adapter      adapter.rs but for the chunks
--   Blob/Chunks       put_chunk, adapter.rs
-- Adapter/Laws, Chunks/Laws, Chunks/Whole, Staging/Joined, Coordinator/Assembly and
-- Coordinator/Outcomes are about proofs, and Blob/Examples applies the theorems to a
-- store in memory. The stream that joins the parts is read before the final blob is stored.
--
-- Authentication. A hook of a service asks that a call from outside bring a request or a token,
-- and hands
-- it to a strategy of the authentication service, by its name; a login answers with a signed token.
--
-- What models what (paths under dog-auth/src):
--   Auth/Bearer   extract_bearer_token, core.rs
--   Auth/Core     AuthenticationBase and the data of core.rs and options.rs
--   Auth/Service  service.rs
--   Auth/Hooks    hooks/authenticate.rs and hooks/event.rs
-- Auth/Claims and Auth/Laws are about proofs.
--
-- Passwords. A strategy compares the password of a request with the hash of an entity; a hook
-- hashes the password in the data of a call, and another takes fields such as it out of
-- the results that clients get. A number of JSON is its text.
--
-- What models what (paths under dog-auth-local/src):
--   AuthLocal/Values        the values of JSON, and dotted paths into them
--   AuthLocal/Protect       hooks/protect.rs
--   AuthLocal/HashPassword  hooks/hash_password.rs
--   AuthLocal/Strategy      strategy.rs
-- Their children Laws are about proofs, and AuthLocal/Examples has small values.
--
-- Services over HTTP. A route of a service reads the tenant and the parameters of a request, and
-- its body where it has one, and
-- calls a method of the service through its handle, or a custom method that a header names; an
-- error becomes a
-- response with a status.
--
-- What models what (paths under dog-axum/src):
--   Axum/Params    params.rs, and the tenant of rest.rs
--   Axum/Response  error.rs
--   Axum/Rest      the routes of rest.rs
-- Rest/Laws, Rest/Answers and Guarded are about proofs; Guarded joins Axum/Rest, Core/Pipeline and
-- Auth/Hooks.
-- Axum/Examples applies the theorems to a small application.
--
-- How the state is modelled. A method takes the backend's state and returns its result with the
-- new state. The code under one lock is a function of its own, so that the steps of Interleaving
-- are
-- the sections that really exclude each other; the reaper's second phase is one step for each job,
-- which allows more interleavings than the code does. Hash maps are association lists, and no
-- theorem
-- depends on their order. The channel of events is the list of what was sent.
--
-- Numbers. Times are nanoseconds since a fixed instant and durations are nanoseconds, both natural
-- numbers without bound: the range of chrono's dates is not modelled. `attempt` and the counter of
-- errors wrap at two to the 32, the power of the retry delay, the counters of the metrics
-- and the received bytes of an upload at two to the 64, as they do in a release build; the sizes
-- of parts
-- have no bound. All recursion is on lists, texts and values of JSON, so that nothing
-- needs fuel.
--
-- Parameters. The clock's readings, fresh identifiers and tokens, random samples, the conversion of
-- durations (`chrono::Duration::from_std`), the addition of seconds to a time, the display of an
-- error, and the codecs and handlers that a user registers are arguments; so are the services,
-- hooks and
-- listeners of an application, the methods `trim` and `to_lowercase` of texts in the patterns of
-- events, and the store of blobs, the
-- strategy of its keys, the calendar, the file system and the display of a number; the crate
-- anyhow, the values of JSON, the signing of
-- tokens, the hashing of passwords, the strategies of authentication, the reading of a body and
-- the statuses of HTTP.
--
-- Not modelled: the other calls of the queue's adapter and the worker pool, the registration of
-- codecs and
-- job types, the observability layer but for its counters and times, logging and serialization;
-- the data adapters of
-- dog-core, the lookup of other services by a hook, and the typed readings of a configuration; the
-- file data in JSON and
-- the S3 store of dog-blob; the strategies, options and service adapter of dog-auth; the
-- application, the OAuth callback and the direct calls of custom
-- methods of dog-axum; the crates dog-schema, dog-auth-oauth, dog-typedb and those around them.
pub mod Base
pub mod Dict
pub mod Queue
pub mod Core
pub mod Blob
pub mod Auth
pub mod Axum
pub mod AuthLocal
