-- ===== src/Lib.antt =====
-- AgentSpace: the memory service (services/memory_rs), a store of Markdown pages that agents read and
-- write through a command line, an HTTP server, or a direct client; and the configuration of the
-- client service (services/client_service_rs/src/config), a document of agents, connections, skills,
-- gateways and secrets that is validated, compared, kept in snapshots and resolved.
--
-- The parts and how they interact. A page path (path.rs) is parsed from text and resolved to a file
-- below the root of a store. A page document (frontmatter.rs) is a YAML block and a Markdown body;
-- the body holds links to other pages (links.rs). The service (service.rs) composes these over a
-- store (store.rs): each operation plans while it holds the store's lock and then makes one change.
-- A command of an allowlist runs with bounded output (command_runner.rs), and its output goes over
-- the wire in frames (run_stream.rs). Errors (error.rs) go over the wire in an envelope (wire.rs).
-- A configuration document (document.rs) is validated (validate.rs, and skill_validation.rs for the
-- files of its skills), compared with the active one (canonical.rs, plan.rs), and activated as a
-- snapshot (snapshot.rs); what refers to secrets is resolved when it is needed (resolver.rs).
--
-- Which file models which part:
--   Common              results, lists, equality, and texts as lists of bytes
--   Memory/Error        services/memory_rs/src/error.rs: MemoryError, kind
--   Memory/Path         services/memory_rs/src/path.rs: PagePath::parse, as_str, resolve_within
--   Memory/Links        services/memory_rs/src/links.rs: parse_links, resolve_relative_target,
--                       relative_target, rewrite_links
--   Memory/Crates       the parts of serde_yaml_ng, chrono and sha2 that the service calls, as a
--                       record that every definition takes
--   Memory/Model        services/memory_rs/src/model.rs: the records, Revision::of
--   Memory/Frontmatter  services/memory_rs/src/frontmatter.rs: parse_document, render_document,
--                       split_frontmatter, normalize_body
--   Memory/Store        services/memory_rs/src/store.rs: the trait MemoryStore as a record of
--                       operations on a state, and its documentation as a record of laws;
--                       Memory/Store/InMemory is a store that fills the laws
--   Memory/FsStore      services/memory_rs/src/fs_store.rs: FilesystemMemoryStore over a file system
--                       that is a record of operations with laws (Disk); Commit, Checked and Pages
--                       on a move that succeeds, Undo, Atomic and Lost on one that fails
--   Memory/Service      services/memory_rs/src/service.rs: write_page, read_page, move_page and
--                       remove_page in Pages, query_pages and list_pages in Query, list_tags and
--                       links in Report, check in Check
--   Memory/Runner       services/memory_rs/src/command_runner.rs: is_allowed, copy_capped and drive
--                       as steps of two tasks and a supervisor
--   Memory/RunStream    services/memory_rs/src/run_stream.rs: encode_chunk, encode_terminal,
--                       FrameDecoder
--   Memory/Wire         services/memory_rs/src/wire.rs: ErrorEnvelope, PageWire, ListPagesQuery::tags;
--                       status_for of services/memory_rs/src/server.rs and exit_code_for of
--                       services/memory_rs/src/cli.rs
--   Memory/Sample       small concrete crates, for the tests
--   ClientService/Models  services/client_service_rs/src/models.rs: HarnessName and the other
--                       enumerations, the formats of ids, parse_env_vars
--   ClientService/Config  services/client_service_rs/src/config, with one module for each file:
--                       Document for value.rs and document.rs, Canonical (over Keyed, the stable sort
--                       by a key), Plan, Snapshot, Resolver, Skills for skill_validation.rs, and
--                       Validate; their child modules hold the proofs
-- The operations keep their names; a loop or a match of a function that is a definition of its own
-- stands beside it.
--
-- State. A store's state is a value: what reads takes it, what changes it returns the next one,
-- after a failure as well. `with_lock` is the acquisition of the lock, which may fail, before the
-- operation; while it is held no one else changes the store, so an operation is one step. The time
-- of a write is an argument. Text is a list of UTF-8 bytes; a 32-bit length or code keeps its
-- wrap-around.
--
-- In the configuration, a map that is only asked for keys is an association list, a map that is
-- also walked is the list of its entries in the order of their keys; an issue is a constructor with
-- the values that its text prints. The secret store is its operation resolve, locks do not fail,
-- the serializers of serde are parameters, and the comparison that a derive writes is the equality
-- of the fields. The generation of a snapshot is a natural number: the 64 bits of the source do not
-- overflow before as many insertions.
--
-- Loops. Loops over lists are structural. The loops of parse_links and split_frontmatter run on fuel,
-- one round more than the text has bytes; each round goes on behind what it has seen, and theorems
-- state that further rounds change nothing. The decoder is driven by the number of bytes it holds.
--
-- Not modelled. The directory walk of the file system store (scan and list_pages of fs_store.rs)
-- and its open; the HTTP handlers and client, JSON, the command line's parsing and printing, and
-- process handling of the host. The texts that Display prints are data: one constructor for each,
-- or any text. Of the configuration: the YAML loader, bundles, the encryption of the secret store,
-- the SQLite backend of the snapshots, the canonical YAML and its hash, and the state that applies
-- a document. The rest of the client service, the agent host, the skills command line, the Python
-- services and the web interfaces are separate programs.
pub mod ClientService
pub mod Common
pub mod Memory
