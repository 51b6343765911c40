-- ===== src/Lib.antt =====
-- Rationale: a model of the Rust host that answers why a piece of code is as it is, from explicit
-- evidence only, with the theorems that make its parts correct.
--
-- The program. Sources (Git history, documents, GitHub) are normalised into evidence records, edges
-- and conflicts. The engine publishes them as an immutable snapshot in an SQLite store. A query names
-- a target; the part of the current snapshot that is reachable from it is read within limits and sent
-- to a proof worker, a separate process, over length-prefixed frames. A verdict comes from the worker
-- alone. Beside a partial or missing proof, ranked candidates are suggested.
--
-- The files, by the crate that they model:
--   Model              crates/rationale-model/src/protocol.rs: the shared types.
--   Protocol/Frame     crates/rationale-protocol/src/lib.rs: frames as lists of bytes.
--   Protocol/Worker    crates/rationale-protocol/src/worker.rs: Config (settings and reasons), Exchange
--                      (one message and its reply), Supervise (handshake, restart loop, supervisor).
--   Store              crates/rationale-store/src/lib.rs with migrations/0001_initial.sql: Types (the
--                      tables), Candidate (writes), Publish (the end of a candidate), Read (slices),
--                      Session (any sequence of candidates).
--   Git, Git/Target    crates/rationale-git/src/lib.rs and target.rs: types, and the target syntax.
--   Git/References     crates/rationale-git/src/references.rs: references in commit messages.
--   Docs               crates/rationale-docs/src/lib.rs: types; Identifiers (validation and search),
--                      Structure (nesting limit, front matter), Paths, Normalize (one document),
--                      Ingest (a batch).
--   Github             crates/rationale-github/src/lib.rs: types; Remote is remote.rs, Normalize
--                      normalize.rs, Client and Client/Fetch client.rs.
--   Engine/Candidate   crates/rationale-engine/src/candidate.rs: the ranking of suggestions.
--   Engine/Evidence    crates/rationale-engine/src/lib.rs: evidence from commits, documents and GitHub.
--   Engine/Sync        crates/rationale-engine/src/lib.rs: publish_evidence, over Store.
--   Engine/Github      crates/rationale-engine/src/lib.rs: sync_local and sync_with_github_client.
--   Engine/Attach, Engine/Suggest, Engine/Query
--                      crates/rationale-engine/src/lib.rs: the proof request, suggestions, the queries.
--   Prelude, Result, Order, Map, Set, Sort, Text: what these share. Map and Set are BTreeMap and BTreeSet as
--                      sorted lists, Sort is the stable slice sort, Text is str as scalar values.
--
-- State. A database is a record of tables, each a map by its primary key; a candidate is a write
-- transaction, the database inside it and the one before it. The supervisor's state is whether it
-- holds a worker, the published process identifier, the number of interactions and the sleeps. The
-- GitHub client's state is the counter of requests and the list of those sent; the server is any
-- function of the requests before and of the request. A panic of unreachable! is an outcome of its own.
--
-- Fuel. The restart loop has restart_limit + 1 rounds; Protocol.Worker.Supervise.Answers proves that it
-- returns within them. The recursive query of the store runs one round for each link of the snapshot;
-- Store.Read.Reach proves that these are enough. A collection of pages has the source's own bound of 100.
--
-- Parameters. The libraries for JSON, YAML, TOML, Markdown, URLs, HTTP and hashes, the pipes and spawns of
-- the worker process, and the parser of timestamps are arguments; the engine takes the GitHub client as a
-- function of the stored cursor, which may panic as Github/Client does. Paths are split as std::path does on Unix.
--
-- Not modelled. Errors of the disk and of database locking, the clock, the migration of the store, the
-- resolver over libgit2, the walk over the working tree that collects documents, canonical JSON, the
-- command line, the MCP server and the benchmarks.
pub mod Prelude
pub mod Result
pub mod Order
pub mod Map
pub mod Set
pub mod Sort
pub mod Text
pub mod Model
pub mod Git
pub mod Docs
pub mod Github
pub mod Protocol
pub mod Store
pub mod Engine
