-- ===== src/Lib.antt =====
-- Verification library of Zerem, a BitTorrent client.
--
-- The program is a window (src/, ui/) over an engine. The engine (crates/zerem-engine) owns the
-- BitTorrent library, runs a tick a second and publishes snapshots; what it decides is decided by pure
-- code in crates/zerem-core; crates/zerem-mse opens encrypted connections to peers. The window sends
-- commands, the engine answers with the next snapshot. The modules follow the crates:
--
-- - Session: crates/zerem-engine/src/session.rs, the torrents that the engine owns (`Entry`, `Session`)
--   and the queue that it enforces over them. Its children are parts of the same file: Entries (look up,
--   replace, drop), Selecting (ticks, pins, `apply_choice`, `reconcile`, `restore_narrowed`), Adding
--   (reading a torrent, the dialog, `confirm_add`, `add`, removing, `adopt_moved`), Publishing (a
--   tick's rows, names that finished, the notice, the snapshot).
-- - Journal: crates/zerem-engine/src/journal.rs, the file of narrowed selections and the roster of the
--   queue. Session.Selecting writes the one, Engine keeps the other.
-- - Arrival: crates/zerem-engine/src/arrival.rs, the moving of finished torrents and the rebuilding of a
--   torrent in its new place. It takes its plan from Relocate and what its task did from Carry.
-- - Engine: crates/zerem-engine/src/lib.rs and command.rs, the loop's turn: the commands in order, then
--   what every turn does (the queue, the watched folder, the snapshot).
-- - Snapshot and Detail: crates/zerem-engine/src/snapshot.rs and crates/zerem-core/src/detail.rs, what
--   the window is handed.
-- - Queue: crates/zerem-core/src/queue.rs, which torrents may run under a limit (`admit`).
-- - Choice: crates/zerem-core/src/choice.rs, the ticks of files, the list handed to the library
--   (`to_fetch`) and pinning. Pending: crates/zerem-core/src/pending.rs, the dialog of a torrent that
--   is not accepted yet, which uses the flags of Choice.
-- - Content: crates/zerem-core/src/content.rs, the kind of a torrent by its files. Torrent:
--   crates/zerem-core/src/torrent.rs, the row, its transitions and the totals. History:
--   crates/zerem-core/src/history.rs, the ring of rates and its drawing.
-- - Tree: crates/zerem-core/src/tree.rs, the files of a torrent as an indented list with folders.
-- - Geo and Flag: crates/zerem-core/src/geo.rs and flag.rs, the country of a peer and its picture.
-- - Fault and Mapping: crates/zerem-core/src/fault.rs and crates/zerem-engine/src/map.rs, from the
--   library's reports to a row, and when a row says that it stands still.
-- - View: crates/zerem-core/src/filter.rs and sort.rs.
-- - Relocate and Carry: crates/zerem-core/src/relocate.rs plans where the files of a finished torrent
--   go, crates/zerem-engine/src/relocate.rs moves them. Carry takes the steps of Relocate.
-- - Watch and Sweep: crates/zerem-core/src/watch.rs and crates/zerem-engine/src/watch.rs, the watched
--   folder.
-- - Stream: crates/zerem-engine/src/stream.rs, the local server that a player reads from.
-- - Mse.Rc4, Mse.Dh, Mse.Link, Mse.Handshake: crates/zerem-mse/src/rc4.rs, dh.rs and handshake.rs.
--   Link holds the reading, writing, padding and scanning of handshake.rs, Handshake both ends.
-- - Category: crates/zerem-core/src/category.rs, the shelves. Table: src/model.rs, the table that is
--   drawn. Window: src/state.rs, what the window keeps of the view; Window.Acting holds the clicks, the
--   keys and the laying of guesses over a snapshot. It takes the filters and the order from View.
-- - Update: src/update.rs, which release is offered and how it is installed, with `swap` of
--   crates/zerem-shell/src/update.rs.
-- - Language, Mime and Labels: crates/zerem-core/src/language.rs, mime.rs, filename.rs, and what fmt.rs
--   computes in integers. Mime.Routing follows an address to the server of Stream.
-- - Prelude: helpers over the native numbers, texts as lists of code points, paths as lists of
--   components, association lists, printed numbers, trimming and cutting, sorts, and machine words.
--   Examples: tests and the theorems at concrete inputs.
--
-- State is passed explicitly. A disk is a function from paths to bytes, a connection is the bytes that
-- will come, the bytes that were sent and the answers of the random source; what the operating system
-- or the library answers is a parameter that may depend on the state. Work that the source does in a
-- task of its own (the reading of a torrent, a move) enters as what it has come to when the loop looks
-- at it. Machine integers wrap or saturate as the source has it; what goes up or down by one over the
-- life of a session (`seq`, `generation`, places in the queue) is unbounded. Loops are structural over
-- the list or the input they walk. Three have fuel: `discard_loop` as many rounds as bytes, which
-- Mse.Rc4.Discarding shows to be enough; the binary search `seek` as many rounds as there are rows,
-- enough by Geo.Searching; and the walk over ranges (Geo) as many rounds as bytes, enough by Geo.Walking.
-- `scan_loop` and `headers` count down the allowance that the source has.
--
-- Parameters stand for code outside the repository: SHA-1 and big numbers (Mse.Handshake.Library,
-- Mse.Dh.BigUint, with their documented laws), the torrent library's handles and streams (Session,
-- Stream), its reports (records of Mapping), and the translation and the lower-casing of texts. Not
-- modelled: the threads, channels and sockets around the engine's loop, and the session's start; the
-- smoothing of rates, sizes as text and contrast, which compute in floating point; the texts, the
-- colours and the icons; the Slint window with its bridge, settings and tray, the rest of the desktop
-- shell, and the vendored libraries.
pub mod Prelude
pub mod Queue
pub mod Pending
pub mod Choice
pub mod Content
pub mod Torrent
pub mod History
pub mod Relocate
pub mod Carry
pub mod Mse
pub mod Stream
pub mod Watch
pub mod Sweep
pub mod View
pub mod Fault
pub mod Mapping
pub mod Journal
pub mod Detail
pub mod Snapshot
pub mod Session
pub mod Arrival
pub mod Engine
pub mod Geo
pub mod Flag
pub mod Tree
pub mod Category
pub mod Table
pub mod Window
pub mod Language
pub mod Mime
pub mod Labels
pub mod Update
pub mod Examples
