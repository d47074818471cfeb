-- ===== src/Lib.antt =====
-- Starframe, a mod manager: the decisions of its desktop backend (src-tauri/src), and theorems about
-- them.
--
-- A user enables releases of mods. A release is known by a mod, a release ID and a SHA-256
-- (Registry/Identity). Its dependencies are exact releases or version ranges (Registry/Dependency,
-- on the versions of Registry/Version), and `suggest` names the release that would meet one. The
-- resolver checks a request against the installed releases, builds the graph of what must load
-- before what, refuses a cycle, and puts the request in order (Ordering). Paths of packages pass
-- `relative_path` first (Paths), and installation plans pass `valid` (Registry/Installation). The
-- application itself is updated on a schedule, from the releases of a feed (Updates). What the
-- website says of blocked releases is signed: `verify_keys` accepts the keys that the root key
-- signs, `verify_security` and `verify_release` accept what these sign, and a `SecurityState`
-- accepts the snapshots (Trust). The manager and the game exchange documents, which `read` checks
-- (Contract). A `Session` follows a launch from its request to the end of the game (Launch), and
-- `supported_files` limits what a package may hold (Packages).
--
--   Prelude, Prelude/*   lists, options, bytes, comparisons, and the outcome of fallible code
--   Paths                `relative_path` of src-tauri/src/runtime_contract.rs, `lua_path` of
--                        src-tauri/src/packages/archive.rs
--   References           src-tauri/src/references.rs
--   Registry/Identity    src-tauri/src/registry.rs
--   Registry/Version,    src-tauri/src/registry/dependencies.rs, with the types of
--   Registry/Dependency  src-tauri/src/registry/wire.rs
--   Registry/Installation,  src-tauri/src/registry/installation.rs: the plans, and the files of a
--   Registry/Files       release
--   Registry/Valid,      what src-tauri/src/registry/wire.rs accepts of the website's answers and sends
--   Registry/Listing,    as a query
--   Registry/Query,
--   Registry/Readers
--   Json                 `serde_json::Value` and what the program calls of the crate
--   Contract             src-tauri/src/runtime_contract.rs: the documents of the game runtime
--   Trust                src-tauri/src/registry/trust.rs: signed metadata and the security state
--   Launch               the types of src-tauri/src/launch.rs and src-tauri/src/game.rs
--   Launch/Session       src-tauri/src/game_service/session.rs
--   Packages             `supported_files` and `layout` of src-tauri/src/packages/archive.rs
--   Ordering/Graph       `topological` and `cycle` of src-tauri/src/ordering.rs
--   Ordering/Shared,     src-tauri/src/ordering/registry.rs
--   Ordering/Registry
--   Ordering/Locals      `resolve_locals` of src-tauri/src/ordering.rs, with `metadata` of
--                        src-tauri/src/mods/local.rs
--   Updates/Schedule,    `Schedule` and `select` of src-tauri/src/updates.rs
--   Updates/Select
--   Examples             concrete inputs: tests, and a run of each theorem with hypotheses
--
-- Definitions carry the names of the source. The modules below a definition's module hold its
-- proofs.
--
-- Text is the list of its UTF-8 bytes, as the source compares, splits and measures it. An integer of
-- the machine is a natural number, with saturation written out. A `Result` is an `Outcome`: a value,
-- an error with its message, or a panic (an index out of range, an underflow). A `BTreeSet` of
-- indices is an ascending list, a `HashMap` an association list. A function that changes its
-- receiver returns the new state.
--
-- `topological` takes at most one step for each index, and `visit` goes at most one call deeper than
-- there are indices; these numbers are the fuel, which is why it is enough.
--
-- The crates `uuid`, `semver`, `serde_json`, `reqwest::Url`, `base64`, `ring`, `sha2` and `time` are
-- parameters: records of the functions that the program calls, and so are the deserializers that serde
-- derives. A JSON object of the program is a list of members; `Strict` puts them in the order of their
-- keys. A time is a number of the clock's units, whose last one is a parameter, since a sum beyond
-- it panics.
--
-- Not modelled: HTTP, SQLite, the file system, threads, serialization, the windows of the
-- application, the C# runtime inside the game and the Svelte frontend, which are effects or glue;
-- the load order of mixed collections, the worker of the game service, the package watcher and the
-- journal of deployments.
pub mod Prelude
pub mod Paths
pub mod References
pub mod Registry
pub mod Ordering
pub mod Updates
pub mod Trust
pub mod Examples
pub mod Contract
pub mod Json
pub mod Launch
pub mod Packages
