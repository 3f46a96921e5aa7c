-- ===== src/LsServer.antt =====
-- internal/lsserver/server.go: the endpoint that other devices talk to. The decoder of a request's
-- body gives its result as an argument; a response is its status and what is encoded into the body.
-- `handlePrepareUpload` waits in the select of `Prepare`, so it is two steps, as `Prepare` is.
pub mod Steps
pub mod ReadOnly
pub mod Accept
pub mod Welcome
use localsend_nas.Prelude.{
  ℕ, Bool, true, false, not, ◌||◌, List, [], ◌∷◌, Option, none, some, Str, codes, str_eq, ◌==◌,
  if◌then◌else◌, Result, ok, err,
}
use localsend_nas.LocalSend.{Info, PrepareRequest, PrepareResponse}
use localsend_nas.Host.{Host}
use localsend_nas.Net.{split_host_port}
use localsend_nas.Identity.{Crypto, fingerprint_of}
use localsend_nas.Discovery
use localsend_nas.Discovery.{upsert}
use localsend_nas.Shares
use localsend_nas.Settings
use localsend_nas.Receive
use localsend_nas.Receive.{Fault, context_cancelled, Session, cancel_session}
use localsend_nas.Receive.Prepare.{offer, resume, Wake, Answer}
use localsend_nas.Receive.Upload.{Read}
use localsend_nas.Receive.Upload.Stream.{Response, upload}

-- Server; `receiver` is `none` in read-only mode.
pub record Server : Type 0 where
  pub info : Info
  pub registry : Discovery.Discovery
  pub receiver : Option Receive.Manager

-- What is written into the body of a response.
pub data Content : Type 0 where
  empty : Content
  own_info : Info → Content
  message : Str → Content
  fault : Fault → Content
  prepared : PrepareResponse → Content

pub data Reply : Type 0 where
  unanswered : Reply
  reply : ℕ → Content → Reply

abbrev pub send_only : Reply
send_only = reply 403 (message (codes "localsend-nas is send-only"))

-- The sender's address without the port.
unfoldable pub remote_host : Str → Str
unfolding split_host_port
remote_host address = elim (split_host_port address) [ none ↦ address | some (host, _) ↦ host ]

-- clientCertFP, of the certificates that the client presented in DER.
unfoldable pub client_cert_fp : Crypto → List Str → Str
unfolding fingerprint_of
client_cert_fp crypto [] = []
client_cert_fp crypto (der ∷ _) = fingerprint_of crypto der

-- handleInfo
abbrev pub handle_info : Server → Reply
handle_info s = reply 200 (own_info s.info)

-- handleRegister, at the given time.
unfoldable pub handle_register : ℕ → Result Str Info → Str → Server → Reply × Server
handle_register now (err e) address s = (reply 400 (message (codes "invalid register body")), s)
handle_register now (ok peer) address s =
    if str_eq peer.fingerprint []
    then (reply 400 (message (codes "invalid register body")), s)
    else (
      reply 200 (own_info s.info),
      record s { registry = upsert now peer (remote_host address) s.registry },
    )

-- The result of `Prepare` as a response.
unfoldable pub reply_of_answer : Answer → Reply
reply_of_answer a = elim a.fault [
  | some context_cancelled ↦ unanswered
  | some e ↦ reply a.status (fault e)
  | none ↦
      if a.status == 204
      then reply 204 empty
      else elim a.response [ none ↦ reply a.status empty | some r ↦ reply a.status (prepared r) ]
]

-- What a handler does next: it answers, or it waits in the select of `Prepare` for a session.
pub data Outcome : Type 0 where
  answered : Reply → Outcome
  waiting : Outcome

-- handlePrepareUpload up to the select; `id` is the fresh identifier of the session.
unfoldable pub handle_prepare_upload :
    Crypto → Str → ℕ → Result Str PrepareRequest → Str → List Str → Server → Outcome × Server
handle_prepare_upload crypto id now body address certs s = elim s.receiver [
  | none ↦ (answered send_only, s)
  | some m ↦ elim body [
    | err e ↦ (answered (reply 400 (message (codes "invalid prepare-upload body"))), s)
    | ok req ↦
        elim (offer id now req.info (remote_host address) (client_cert_fp crypto certs) req.files
          m) [
            | err (status, e) ↦ (answered (reply status (fault e)), s)
            | ok m1 ↦ (waiting, record s { receiver = some m1 })
          ]
  ]
]

-- handlePrepareUpload from the case on that the select takes.
unfoldable pub finish_prepare_upload :
    (Str → Str) → Shares.Store → Settings.Store → Session → Wake → Server → Reply × Server
finish_prepare_upload new_id shares settings session wake s = elim s.receiver [
  | none ↦ (send_only, s)
  | some m ↦
      let (a, m1) = resume new_id shares settings session wake m in
      (reply_of_answer a, record s { receiver = some m1 })
]

abbrev pub reply_of_response : Response → Reply
reply_of_response (status, none) = reply status empty
reply_of_response (status, some e) = reply status (fault e)

module _ {D : Type 0} (host : Host D) where
  abbrev pub uploaded :
      Server → Option (Response × Receive.Manager × D) → Option (Reply × Server × D)
  uploaded s none = none
  uploaded s (some (r, m, d)) = some (reply_of_response r, record s { receiver = some m }, d)

  -- handleUpload, of the parameters of the query; `none` when the fuel of `claimFinalPath` is used up.
  unfoldable pub handle_upload :
      ℕ → Shares.Store → Str → Str → Str → List (Read D) → Server → D → Option (Reply × Server × D)
  handle_upload fuel shares sid fid token body s d = elim s.receiver [
    | none ↦ some (send_only, s, d)
    | some m ↦ uploaded s (upload host fuel shares sid fid token body m d)
  ]

  -- handleCancel
  unfoldable pub handle_cancel : Str → Server → D → Reply × Server × D
  handle_cancel sid s d = elim s.receiver [
    | none ↦ (reply 204 empty, s, d)
    | some m ↦
        let (m1, d1) = cancel_session host sid m d in
        (reply 204 empty, record s { receiver = some m1 }, d1)
  ]
