-- ===== src/Lib.antt =====
-- localsend-nas: a server that lets devices of the LocalSend protocol send files to and receive files
-- from the shares of a NAS.
--
-- The parts of the program and the files that model them:
--   Prelude     the shared notation, lists, text, int64, Go maps as association lists, results, sorting
--   Filepath    path/filepath: Clean, Join, Split and Ext on slash-separated names
--   Host        the operating system: a record of functions of a state that the program does not look
--               into, with the documented behaviour that the theorems rely on as records of laws
--   Settings    internal/settings/settings.go: Load is load, Update is update, clamp is clamp
--   LocalSend   internal/localsend/types.go: the data of the protocol
--   Shares      internal/shares/shares.go: NewStore, Path, Names, resolve, List, Open,
--               SanitizeElement and ResolveForWrite under the same names in small letters;
--               Shares/Write is EnsureDir
--   Receive     internal/receive/receive.go: sessions; Receive/Prepare is Prepare (offer up to its
--               select, resume after it) and Decide, Receive/Upload and Receive/Upload/Stream are
--               Upload and streamWithProgress, Receive/Paths is sanitizeRelPath and claimFinalPath;
--               CancelSession is cancel_session in Receive
--   Transfer    internal/transfer/manager.go: List, Cancel, Forget, Subscribe; Transfer/Expand is the
--               expansion of baskets, Transfer/Run is Send, the queues and run, Transfer/Hooks is the
--               implementation of receive.Hooks
--   Discovery   internal/discovery/discovery.go: the registry with Get, Snapshot, Upsert, Add, Remove,
--               evict, parseAddress and the saved targets
--   Net         the functions of package net on addresses
--   Config      internal/config/config.go: parseShare, shareList.String and the readers of the
--               environment; Config/Flags is Parse with the loop of package flag
--   Identity    internal/identity/identity.go: Load, generate, save and TLSConfig
--   LsServer    internal/lsserver/server.go: the handlers; handlePrepareUpload is
--               handle_prepare_upload up to the select of Prepare and finish_prepare_upload after it
--   Client      internal/localsend/client.go: Probe, Prepare, Upload, Cancel and statusError
--   HttpApi     internal/httpapi/api.go: the handlers of settings, shares and devices;
--               HttpApi/Sending has those of transfers, HttpApi/Events the streams and BroadcastJob,
--               HttpApi/Selftest handleSelftest, HttpApi/Spa handleSPA
--   Main        cmd/localsend-nas/main.go: start is main up to the servers, hide_entry the filter of
--               listings
--   Tests       a file system in memory, and the theorems at concrete inputs
-- The receive pipeline resolves and makes directories through the shares, reads the countdown and
-- the dropbox share from the settings, and tells the job list of every change by its hooks, which
-- the model keeps as a trace; Transfer/Mirror replays it. The sending side opens files through the
-- shares. The two servers work on shared parts: the record Api of HttpApi holds them, server_of of
-- Main gives the server for other devices its view, and Main/Node runs the requests to both in any
-- order. There a request calls its hooks as it goes, and the job list takes them up at the end of
-- the request (absorb, and stop_session for a cancellation in the web UI). Transfer/Agree and
-- Main/Kept compare the list with the sessions.
--
-- A pointer to a session or a job is its id, and the objects stand in a map of the manager. Strings
-- are lists of bytes. An int64 keeps its wrap-around (◌+₆₄◌). The body of an upload is a list of
-- reads, and each read carries what other requests do to the manager and the system before the next:
-- that is the grain of the interleavings. A call of the sending side's client carries its result in
-- the same way, and so does the opening of the file that is sent (uploadOne). Two loops run on fuel:
-- the search for a free name (claim_final_path, one unit for each name that is tried, so one more
-- than the names taken is enough) and the descent into directories (expand_item, one unit for each
-- level of the tree, so one more than its depth is enough); a result of none says that the fuel was
-- too small.
--
-- Not modelled: the loops that announce and listen by multicast, the transport of the client, TLS, the
-- routing and the encoding of net/http, http.ServeContent, listeners, signals, shutdown, the usage text
-- of the flags, and the log. Of an error that wraps another one the handlers' answers keep the outer
-- text or the kind, not the full text. Random ids, the time, encoding/json, strconv.ParseInt, the
-- cryptographic packages and the system are parameters. Text is taken as ASCII where the code folds
-- case or skips blanks. Requests interleave between the steps that the model names and not inside them.
pub mod Prelude
pub mod Filepath
pub mod Host
pub mod Net
pub mod Config
pub mod Shares
pub mod Settings
pub mod LocalSend
pub mod Identity
pub mod Receive
pub mod Transfer
pub mod Discovery
pub mod LsServer
pub mod Client
pub mod HttpApi
pub mod Main
pub mod Tests
