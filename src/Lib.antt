-- ===== src/Lib.antt =====
-- ContextSnap: a daemon that captures the windows, browser tabs and displays of a desktop, stores
-- them without secrets, and restores them, possibly on other displays.
--
-- The program's parts and their files here (paths from the repository's root):
--   Errors: include/contextsnap/core/result.hpp and src/core/result.cpp. `Result` is a sum; an
--     early return of an error is `>>=`.
--   Types: include/contextsnap/core/types.hpp and src/core/types.cpp. A record for each struct.
--   Ulid: src/core/ulid.cpp. Clock and random words are arguments.
--   Geometry, Geometry/Monitors: src/core/geometry.cpp. A pointer into a list of monitors is an
--     optional monitor.
--   Ipc/Frame: the frame codec of src/ipc/protocol.cpp, `encode_frame`, `decode_frame` and
--     `FrameReader`, whose buffer is a list of bytes. Ipc/Pump: the loop of `Server::serve_client`
--     (src/ipc/server.cpp) that feeds chunks to a reader and takes frames out.
--   Privacy/Glob, Privacy/Url, Privacy/Rules, Privacy/Sanitizer: src/privacy/sanitizer.cpp, all of
--     it. `glob_match` decides the host and path patterns of the rules; `sanitize_url` reads a URL,
--     strips it by the options, applies the rules in order and drops what looks like a secret;
--     `sanitize_snapshot` does so for each tab of each window. The parsed URL and the result that
--     the code changes in place are the record `Progress`.
--   Matching/Text, Matching/Similarity, Matching/Assign, Matching/Launch: src/core/matching.cpp, all
--     of it. `match_windows` scores every pair of a saved and a live window and takes pairs in the
--     order of their scores; the vectors of flags are lists of Booleans.
--   Restore/Select, Restore/Place, Restore/Plan: src/core/restore_engine.cpp up to `plan_restore`.
--     What the store and the platform return are arguments; `best_live_match` uses the similarities
--     of Matching, selectors the patterns of Privacy/Glob. The variables of the loop over the
--     windows are the record `Planning`.
--   Json, Json/Escape, Json/Printer, Json/Number, Json/Strings, Json/Parser: src/core/json.cpp, all of
--     it. A value is a data type in a mutual block with its items and members; a member function of
--     `Parser` takes the text that is left and returns it with its result (Json/Outcome).
--   Ipc/Message: requests, responses and events of src/ipc/protocol.cpp to and from JSON.
--   Ipc/Session: `Server::serve_client` as a whole: frames from Ipc/Pump's loop are parsed,
--     dispatched to a handler and answered; the events that the handler publishes are written to a
--     subscribed client before the reply; sending repeats the transport's write. The state is the
--     record `Session`: the connection, the daemon's own state, and whether the client subscribed
--     and is active; the transport's write and the handlers are the record `Service`.
--   Storage/Fields, Storage/ToJson, Storage/FromJson, Storage/Documents, Storage/Timestamps,
--     Storage/Reports: src/storage/serialization.cpp, in the build without FlatBuffers, and the readers
--     of summaries and reports of src/ipc/client.cpp. They use the values and the text of Json, the
--     ids of Ulid and the enumerators' names of Types.
--   Base: what the parts share: native numbers, lists, byte strings, integers, decimals, doubles.
--
-- Machine arithmetic: a string is a list of byte values. A double is its bit pattern and the
-- operations on it are the parameter `Fpu`, of which no law is assumed; printing and reading
-- doubles is the parameter `DoubleText`, breaking a time into its date the parameter `Calendar`.
-- Sums of 32-bit coordinates are taken in the integers: the code's signed overflow is undefined
-- behaviour. Casts to `int32_t` and the counts of `shannon_entropy` wrap as written.
--
-- Fuel: `glob_loop` has fuel for every return to a `*` (length of the text times the sum of the
-- lengths); `drain` has one more than the buffer's length, since a frame takes four bytes or
-- more; `parse_query` has the query's length, since every round but the last takes an `&`.
-- `parse_value` has 130, two more than the depth at which the parser stops, and the loops over
-- strings, items and members one more than the text's length, since every round takes a byte:
-- Json/Total proves that the fuel never ends. `write_all` has the frame's length, `serve_frames`
-- one more than the buffer's length.
--
-- Not modelled: sockets, threads, files, SQLite, the cryptographic library, the system calls of
-- the platform layers, logging, and the user interfaces; and of the program's own logic the
-- server's accept loop and broadcasts from other threads, capture, carrying a plan out, the
-- browser bridge, the session file parsers, configuration, the repository's queries, and the
-- client's and the daemon's commands.
pub mod Base
pub mod Errors
pub mod Types
pub mod Ulid
pub mod Ipc
pub mod Json
pub mod Geometry
pub mod Privacy
pub mod Matching
pub mod Restore
pub mod Storage
