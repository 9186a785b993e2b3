-- ===== src/Lib.antt =====
-- ptymux: a multiplexer for shells on pseudo-terminals. A daemon keeps shells behind names of three
-- parts (session, pane, tab), reads what they write and serves requests of local and remote clients.
--
-- What is modelled is mostly the part of the packages internal/server and internal/remote that decides,
-- without its I/O: what is kept of a shell's output, what a client is shown, how frames are written and read, which
-- requests are accepted, and which tabs there are. Output goes from a shell to the transcript
-- (Server/Transcript) and, while a command runs, to the collector (Server/Collector); both drop or
-- cut at the marker lines that ptymux writes itself (Server/Marker), which the transcript finds in
-- the text that the cleaner (Server/Cleaner) makes of a line. A request is checked by
-- Server/Protocol, its tab is found in Server/Store, its keys are turned into bytes by Server/Keys,
-- and an answer that is streamed goes out as the frames of Server/LocalStream. Server/Service puts
-- these together for each request, and Server/Daemon admits connections and stops. Remote clients
-- have credentials in a registry (Remote/Registry) that is saved with each change.
--
-- Files and sources:
--   Server/Transcript: internal/server/transcript.go, type ansiTranscript and its methods (write,
--     recent_lines and what they call); Transcript/Style: ansiStyle (apply_sgr, sequence).
--   Server/Cleaner: internal/server/cleaner.go, TerminalCleaner.
--   Server/Keys: internal/server/keys.go. strings.ToLower is a parameter.
--   Server/LocalStream: internal/server/local_stream.go without DecodeLocalRequest.
--   Server/Protocol: internal/server/protocol.go.
--   Server/Store: internal/server/store.go, installTabLocked, findTabLocked, removeTabLocked and the
--     counts; Server/Snapshot: its snapshots; Server/Uses: use counts, idle tabs, and what
--     getOrCreate, closeTarget, CloseAll and removeWhenDone do while they hold the lock.
--     Uses/Interleaving: the same critical sections taken by many goroutines, as a list of events.
--   Server/Collector and Server/Marker: internal/server/tab.go, runCollector, appendBounded,
--     skipPrefixWriter, completeUTF8Prefix and isInternalMarkerLine; Server/Format: formatRunOutput
--     and what it calls.
--   Remote/Protocol: internal/remote/protocol.go, the requests and their validation.
--   Remote/Names: internal/remote/registry.go, ValidClientName; Remote/Registry/Client: its records of
--     clients, their validation and their credentials; Remote/Registry: Register,
--     PrepareRegistration, CommitRegistration, Authenticate, Rotate, Revoke and Close, with the
--     publication of the file; Registry/Load: its loading.
--   Server/Service: internal/server/service.go, ValidateStreamRequest; Service/Targets: beginTargetUse,
--     with all rounds of getOrCreate; Service/Handle: HandleWithDone, Stream, Create and
--     CloseExisting.
--   Server/Daemon: internal/server/daemon.go, the table of connections, and requestStop and
--     cleanupIdle as goroutines that go on from one locked section to the next.
--   App/Target: internal/app/parse.go, applyTarget and its callers; App/Operations: the words for
--     operations and help.
--   Std: what these use of strings, strconv and unicode/utf8, and maps with string keys.
--   Prelude: shared names, tests, lists and texts. The Examples of a component hold its theorems at
--     concrete inputs.
--
-- Conventions. A Go string or byte slice is the list of its bytes, a rune a number. A reader is the
-- list of bytes that it still gives; a writer is the list of what its next calls do. An error is a
-- constructor without the message. An int that counts bytes is a natural number: the bounds that
-- are proved keep it far below 2^63. A map is an association list with one entry for a key, and a
-- pointer to a tab is a number.
--
-- Fuel. Write, Fields and the decoding of runes take the length of their text as fuel, and each
-- round takes a byte at least (Transcript/Chunks, Fields/Append, Utf8/RoundTrip show that this is
-- enough). FormatUint takes 20 rounds, one for each digit of a uint64. A stream is cut into chunks
-- with its length as fuel (LocalStream/Stream).
--
-- The outside. What a runner answers, what a system call returns, a random token and the time are
-- arguments. What other goroutines do while a call holds no lock is a function that the call takes
-- (Service/Targets), or there are many calls and a list of their critical sections
-- (Uses/Interleaving, Daemon/Lifecycle). SHA-256 and base64 are parameters with the laws that a digest has 32 bytes
-- and that what is encoded can be decoded (Remote/Registry/Client); the size of the encoded registry
-- is one without laws.
--
-- Not modelled: the rendering of a vt10x terminal, processes and pseudo-terminals, sockets, JSON,
-- HTTP, the locks and permissions of files, the daemon's sockets and timers, and the options of the
-- command line.
pub mod Prelude
pub mod Std
pub mod Server
pub mod App
pub mod Remote
