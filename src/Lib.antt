-- ===== src/Lib.antt =====
-- Verification of Feather Mesh: registered datasets that provider projects publish in a serving
-- directory, and that consumer projects resolve through configured routes.
--
-- The code is the Rust workspace feather-mesh. Its core is
-- feather-mesh/mesh_core/src/services/peer_access.rs: a provider validates a publication, inspects its
-- assets, and edits manifest.json under a lock; a consumer parses a reference, follows a route, reads
-- the manifest and checks the assets. feather-mesh/mesh_core/src/stac.rs and stac_http.rs show the
-- registered rasters as STAC items over HTTP; catalog_service.rs beside peer_access.rs pages through the products of
-- all routes; interactive_operations.rs executes what a person has reviewed. The agent of
-- feather-mesh/mesh_agent lets a model read the catalog and ask for reviews, within a profile's limits.
--
-- Files, and what they model:
-- Prelude (and below it): the library's names passed on; Boolean tests, lists on native numbers, texts
--   as lists of code points, maps with text keys, and Result with the bind that `?` makes.
-- Std: what the code uses of Rust's standard library. Char and Str are methods of char and str,
--   FilePath is std::path on Unix, Float compares f64 values by their bits, Decimal, Hex and Utf8 are
--   the formatting, parsing and slicing of texts. Their Laws and Components hold the lemmas.
-- Peer.Error, Peer.Types: PeerError without its messages, and the structs of peer_access.rs.
-- Peer.Env: the file system at one moment (Fs), the operating system's answers in one mutation (Os),
--   and the libraries (External: serde_json, sha2, chrono, parquet, tiff), all of them parameters.
-- Peer.Token: validate_token, reference, parse_reference, validate_relative_path.
-- Peer.Project: serving_root, route_for_namespace, validate_project_config (Peers),
--   checked_asset_path (AssetPath).
-- Peer.Validation: validate_publication_fields, validate_publication, and in Inspect the inspection of
--   Parquet and GeoTIFF files and the merge of their descriptors.
-- Peer.Manifest: reading and writing manifest.json, and the two edits of its products; Edits,
--   WellFormed, Withdrawn and Reading hold what is proved of them.
-- Peer.Mutation: publish_reviewed, withdraw_with_precondition, withdraw_qualified and
--   local_manifest_revision; Commit and Outcome give every outcome, ReadBack what a reader sees, Serial
--   the mutations of several callers one after the other.
-- Peer.Resolve: resolve; Local, AfterPublish and AfterWithdraw compose it with the mutations.
-- Stac.Uri, Stac.Search, Stac.Http: file_uri and path_from_file_uri, search, and the query strings,
--   cursors and pages of the HTTP adapter, each with its theorems below it.
-- Journal: record_intent, record_outcome and prune_completed of
--   feather-mesh/mesh_core/src/services/operation_journal.rs, as runs that list their steps on
--   the directory, which a crash may lose until the next sync; Runs, Crash, Settled and Intents hold what
--   is proved of them.
-- Peer.Staging: stage and preflight_stage; what a copy under a path outside the staging directory changes
--   is a parameter; Copies and Outcome hold what is proved.
-- Peer.Opening: Project::open and configuration_fingerprint. Peer.Creation: Project::init.
-- Peer.Listing: list_registered_with_coverage, observe, refresh, cache_status and cached; Coverage, Bytes
--   and Cached hold what is proved of them.
-- Catalog: catalog_service.rs, the filters and the order; Query the fingerprint, the cursors and a page,
--   Groups the products and teams of the command line; Cursors, Order, Times and Walk hold what
--   is proved.
-- Interactive: prepare_publication, prepare_withdrawal and their execution in
--   interactive_operations.rs; Staged the stagings and reconcile, Outcome what is proved.
-- Agent.Json, Agent.Provider: JSON values, and the messages, requests, events and errors of provider.rs.
-- Agent.Profile, Agent.Config: AgentProfile::validate, AgentConfig. Agent.Fake: FakeProvider.
-- Agent.Disclosure: outbound, redact and tool_summary; Allowed holds what is proved.
-- Agent.Tools: the state of ToolExecutor, Execute its handlers; Authority and Calls hold what is proved.
-- Agent.Harness: run_mode of harness.rs, in the steps of Answer, Calls and Turn; Requests, Limits,
--   Counted, Total and Ending hold what is proved.
-- Agent.Sse: SseParser of provider.rs on UTF-8 bytes; Lines, Pushes and Chunks hold what is proved.
-- Agent.Router: RouterToolNames and process_router_event of provider.rs, Stream stream_async; Names,
--   Batches and Offered hold what is proved.
-- Controls: split_command and shell_quote of feather-mesh/mesh_tui/src/controls.rs; Quoting.
-- Examples: concrete inputs, one for each theorem.
--
-- How the code corresponds. A function that changes the file system returns the file system after it
-- and a Result. publish_reviewed takes two file systems, the one that validation saw and the one
-- under the lock, since other processes may write in between; the section under the lock is one
-- step. A loop with `?` is for_each or a recursion on its list. Fuel bounds the decimal digits of a
-- number (the number itself), the clients of Stac.Http.Paging and Catalog.Walk that follow pages
-- (the number of matches), the loop of bounded_request (the number of messages, one of which each
-- round drops), and the rounds of a turn (one more than the profile's tool calls, since every round
-- but the last handles a call). A revision is a u64: its successor is taken modulo 2^64. A time is
-- its number of nanoseconds, an f64 its bit pattern. Paths and texts are code points in Peer and
-- UTF-8 bytes in Stac and Agent.Sse.
--
-- Not modelled: messages of errors, the lock file's content, temporary files of the atomic write, a
-- rename of it that reports an error and yet took place,
-- the construction of STAC values, the sockets, the journal's permissions, the SQLite registry, the
-- body and the sending of the router's HTTP request, the user interface's events, the command line,
-- the terminal's drawing, and everything outside the Rust workspace. Parquet and GeoTIFF decoding,
-- hashing, JSON and time parsing are parameters; where a theorem relies on serde_json reading back
-- what it writes, this is a hypothesis of the theorem.
pub mod Prelude
pub mod Std
pub mod Peer
pub mod Stac
pub mod Journal
pub mod Catalog
pub mod Interactive
pub mod Controls
pub mod Agent
pub mod Examples
