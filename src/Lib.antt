-- ===== src/Lib.antt =====
-- reoftpd: an append-only FTP server for security cameras, in Rust. Cameras upload into a directory
-- of their own, viewers read what their scope grants, and a finished file is meant never to change.
-- This library models the server's own logic and states what makes it correct.
--
-- The parts, in the order in which a session meets them:
--   * Config.antt models src/config.rs (`Config`, `validate`, `load`), past the TOML parser. A
--     configuration is loaded at the start and at every reload.
--   * Account.antt models src/account.rs (`build`, `expand_scope`): the accounts of a
--     configuration, by login.
--   * Limits.antt models src/limits.rs (`SessionTracker`) and src/presence.rs: the live sessions
--     and the caps on them. A method holds the mutex throughout, so it is one function on the
--     state, and what happens to a tracker is a list of such steps. Limits/Roster.antt says
--     what a tracker stands for: one list of the live sessions.
--   * Auth.antt models src/auth.rs and `verify_password` of src/hashing.rs: the login gate, which
--     asks the accounts and then the tracker.
--   * Path.antt is `std::path` on Unix; Scope.antt models src/paths.rs (`ScopeMap`, `contained`):
--     what path of the file system a client's path stands for, and the jail around it.
--   * Append.antt models src/append.rs: offsets, staging names, probe files.
--   * Disk.antt is the file system as a map of names to inodes, with the effect of every call that
--     the code makes; Disk/Act.antt sequences calls. Before each call the other sessions may change
--     the disk, and each call may fail: a script of turns says what happens. Disk/Triple.antt has
--     the rules to reason about such sequences under any script, Disk/Still.antt those for the
--     script in which nobody else touches the disk and nothing fails. Disk/Writing.antt is
--     `write_all`, cut into as many writes as the system likes.
--   * Store.antt models `store_stream` and `store_encrypted` of src/backend.rs on that disk.
--   * Backend.antt models the rest of src/backend.rs: what each role may do, and in
--     Backend/Handlers.antt the methods of `ReoBackend` that libunftp calls. Backend/Requests.antt
--     has the requests that a client can make.
--   * Server.antt models src/server.rs: `ensure_home_dirs`, `reload_config` and the options that
--     `build_server` sets; Server/Privileges.antt has `drop_privileges`.
--   * System.antt is the running server: the launch of `run` in src/server.rs, and from then on
--     what clients, libunftp, the reaper and SIGHUP do, as steps that come in any order. It
--     composes the login gate, the tracker, the handlers and the reload over one state.
--   * Retention.antt models src/retention.rs: `sweep` over a tree of directories, each call of
--     which may fail as a script of faults says.
--   * Cli.antt models src/cli.rs: the commands, and the entries that `add-camera` and `add-viewer`
--     append. Crypto.antt models `encrypt_stream` and `decrypt_stream` of src/crypto.rs, Tls.antt
--     `write_cert_files` of src/tls.rs, Nftables.antt `render_nftables` of src/nftables.rs.
--   * Main.antt models src/main.rs, a command at a time, and Main/Dispatch.antt the choice among
--     them.
-- Base.antt passes on the library's names and adds tests, lists, results, texts and maps.
--
-- Bounds: `u32` counts keep their wrap-around or saturation written out; `u64` sizes are those of
-- files and are not bounded, but the seconds of a retention wrap around. No definition runs on
-- fuel: loops follow lists and texts, and the decimal digits of a number its accessibility. The
-- loop of `contained` follows the components of the path that it shortens.
--
-- Parameters stand for code of other crates and of the system: `canonicalize` (realpath at the
-- moment of the call), `parse_phc`, `matches` and `argon2` (argon2), `parse_recipient` and
-- `parse_identity` (age, on the trimmed text), `encrypt` (what age writes, which
-- Crypto/Sealing.antt takes apart), `age` (its writer), `open_age` (what age reads), `from_utf8`
-- (the standard library's decoder), `rcgen`, `setgid`, `setuid` and the user database. The disk has
-- no symbolic links of its own: these are behind `canonicalize`, which answers all questions of one
-- resolution of a path from one and the same moment, where src/paths.rs asks at several.
--
-- Other simplifications: a mode is the one that is asked for, before the umask; a failed write
-- leaves nothing of its bytes (`write_all` may fail between writes); `get` answers the open file with
-- the position to read it from, and the reading itself is libunftp's; a suffix is pushed to the last
-- component of a path, which on the paths that resolve is a name.
--
-- Not modelled: the runtime of the tasks and the listening (a step of System.antt is never
-- interrupted, but the other sessions act between the calls of a request); what is printed to the
-- standard error, and the printed report of a sweep; libunftp, tokio, serde, clap and the crates
-- for cryptography and certificates.
pub mod Base
pub mod Path
pub mod Scope
pub mod Append
pub mod Config
pub mod Limits
pub mod Account
pub mod Auth
pub mod Disk
pub mod Store
pub mod Backend
pub mod Server
pub mod Retention
pub mod Cli
pub mod Crypto
pub mod Nftables
pub mod Tls
pub mod Main
pub mod System
