-- ===== src/HttpApi/Events.antt =====
-- The streams of internal/httpapi/api.go: `BroadcastJob` with the clients of the global stream, and
-- the frames that the loops of `handleGlobalEvents` and `handleTransferEvents` write.
pub mod Streams
pub mod Delivers
use localsend_nas.Prelude.{
  ℕ, Bool, true, false, not, List, [], ◌∷◌, ◌++◌, Option, none, some, Str, codes, Result, ok, err,
  ◌==◌, if◌then◌else◌,
}
use localsend_nas.Transfer.{
  State, done, failed, cancelled, Job, is_ended, send_all, without, subscribe, unsubscribe,
}
use localsend_nas.HttpApi.{Api, Reply, failure, text}

-- BroadcastJob
unfoldable pub broadcast_job : Job → Api → Api
broadcast_job j a = record a { events = send_all j a.events }

-- handleGlobalEvents registers its channel, under a name that no other client has.
abbrev pub connect : ℕ → Api → Api
connect client a = record a { events = a.events ++ (client, []) ∷ [] }

-- The deferred function of `handleGlobalEvents`.
abbrev pub disconnect : ℕ → Api → Api
disconnect client a = record a { events = without client a.events }

-- `handleGlobalEvents` receives from its channel.
unfoldable pub take_event : ℕ → List (ℕ × List Job) → List (ℕ × List Job)
take_event client [] = []
take_event client ((k, held) ∷ rest) =
    let others = take_event client rest in
    if k == client
    then (k, elim held [ [] ↦ [] | _ ∷ later ↦ later ]) ∷ rest
    else (k, held) ∷ others

-- What happens to the clients of the global stream.
pub data Notice : Type 0 where
  joins leaves takes : ℕ → Notice
  publishes : Job → Notice

abbrev pub notice : Notice → Api → Api
notice (joins client) a = connect client a
notice (leaves client) a = disconnect client a
notice (takes client) a = record a { events = take_event client a.events }
notice (publishes j) a = broadcast_job j a

unfoldable pub notices : List Notice → Api → Api
unfolding broadcast_job take_event
notices [] a = a
notices (n ∷ ns) a = notices ns (notice n a)

-- What a loop of a stream waits for.
pub data Arrival : Type 0 where
  gone closed : Arrival
  arrived : Job → Arrival

-- A data frame.
abbrev pub frame : Str → Str
frame data_text = codes "data: " ++ (data_text ++ (10 ∷ 10 ∷ []))

-- The loop of `handleGlobalEvents`: the frames until the client is gone. Its channel is never closed.
unfoldable pub stream_global : (Job → Result Str Str) → List Arrival → List Str
stream_global encode [] = []
stream_global encode (gone ∷ rest) = []
stream_global encode (closed ∷ rest) = []
stream_global encode (arrived job ∷ rest) =
    let more = stream_global encode rest in
    elim (encode job) [ err _ ↦ more | ok bytes ↦ frame bytes ∷ more ]

-- handleGlobalEvents up to its loop: the refusal, or the new client.
unfoldable pub open_global : ℕ → Bool → Api → Option Reply × Api
open_global client flushes a =
    if flushes
    then (none, connect client a)
    else (some (failure 500 (text (codes "streaming unsupported"))), a)

-- What `handleGlobalEvents` writes to a client.
unfoldable pub global_stream : (Job → Result Str Str) → List Arrival → List Str
unfolding stream_global
global_stream encode arrivals =
    (codes ": connected" ++ 10 ∷ 10 ∷ []) ∷ stream_global encode arrivals

-- The loop of `handleTransferEvents`.
unfoldable pub stream_job : (Job → Result Str Str) → List Arrival → List Str
stream_job encode [] = []
stream_job encode (gone ∷ rest) = []
stream_job encode (closed ∷ rest) = []
stream_job encode (arrived job ∷ rest) =
    let more = stream_job encode rest in
    elim (encode job) [
      | err _ ↦ more
      | ok bytes ↦ frame bytes ∷ (if is_ended job.state then [] else more)
    ]

-- handleTransferEvents up to its loop: the refusal, or the subscription. `flushes` says whether the
-- response can be flushed; a subscription that cannot be streamed is taken back.
unfoldable pub open_stream : ℕ → Bool → Str → Api → Option Reply × Api
open_stream sub flushes id a =
    let (found, tm) = subscribe sub id a.tm in
    if not found
    then (some (failure 404 (text (codes "unknown job"))), record a { tm = tm })
    else if not flushes
    then (
      some (failure 500 (text (codes "streaming unsupported"))),
      record a { tm = unsubscribe sub id tm },
    )
    else (none, record a { tm = tm })
