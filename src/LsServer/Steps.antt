-- ===== src/LsServer/Steps.antt =====
-- Sequences of the requests that internal/lsserver/server.go serves, and what they do to the parts of
-- the program behind it.
use mathlib.Core.Option.{some-injective}
use localsend_nas.Prelude.{
  [], ℕ, true, List, some, Str, Result, ok, err, lookup, In, Bool-cases, Option-cases, Result-cases,
  str_eq, ◌≡◌, refl, sym, ap, ◌∙◌, inl, inr,
}
use localsend_nas.LocalSend.{Info, PrepareRequest}
use localsend_nas.Host.{Host}
use localsend_nas.Identity.{Crypto}
use localsend_nas.Shares
use localsend_nas.Settings
use localsend_nas.Receive
use localsend_nas.Receive.{Session, cancel_session}
use localsend_nas.Receive.Prepare.{offer, Wake, is_ready}
use localsend_nas.Receive.Upload.{Read}
use localsend_nas.Receive.Upload.Stream.{upload}
use localsend_nas.Transfer.Reach.{Step, Steps, stay, step, offers, resumes, cancels, uploads}
use localsend_nas.LsServer.{
  Server, Reply, remote_host, client_cert_fp, handle_register, handle_prepare_upload,
  finish_prepare_upload, handle_upload, handle_cancel,
}

module _ {D : Type 0} (host : Host D) (shares : Shares.Store) where
  -- One request, or one part of a prepare-upload. What others do between the reads of an upload are
  -- operations of the receive pipeline.
  pub data Request : Server → D → Server → D → Type 0 where
    registers :
        (now : ℕ) (body : Result Str Info) (address : Str) (s : Server) (d : D)
        → Request s d (handle_register now body address s).1 d
    prepares :
        (crypto : Crypto) (id : Str) (now : ℕ) (body : Result Str PrepareRequest) (address : Str)
        (certs : List Str) (s : Server) (d : D)
        → Request s d (handle_prepare_upload crypto id now body address certs s).1 d
    finishes :
        (new_id : Str → Str) (settings : Settings.Store) (session : Session) (wake : Wake)
        (s : Server) (m : Receive.Manager) (d : D)
        → s.receiver ≡ some m
        → lookup session.id m.sessions ≡ some session
        → is_ready wake session ≡ true
        → Request s d (finish_prepare_upload new_id shares settings session wake s).1 d
    receives :
        (fuel : ℕ) (sid fid token : Str) (body : List (Read D)) (s s' : Server) (d d' : D)
        (r : Reply)
        → ((x : Read D)
            → In x body
            → (m1 : Receive.Manager) (d1 : D)
            → Steps host shares m1 d1 (x.meanwhile m1 d1).0 (x.meanwhile m1 d1).1)
        → handle_upload host fuel shares sid fid token body s d ≡ some (r, s', d')
        → Request s d s' d'
    stops :
        (sid : Str) (s : Server) (d : D)
        → Request s d (handle_cancel host sid s d).1 (handle_cancel host sid s d).2

  pub data Requests : Server → D → Server → D → Type 0 where
    idle : (s : Server) (d : D) → Requests s d s d
    next :
        (s s1 s' : Server) (d d1 d' : D)
        → Request s d s1 d1
        → Requests s1 d1 s' d'
        → Requests s d s' d'

  -- The receive pipeline has made operations of its own.
  pub record Received (m : Receive.Manager) (d : D) (s' : Server) (d' : D) : Type 0 where
    pub manager : Receive.Manager
    pub receiver : s'.receiver ≡ some manager
    pub steps : Steps host shares m d manager d'

  one :
      {m m' : Receive.Manager} {d d' : D} → Step host shares m d m' d' → Steps host shares m d m' d'
  one {m} {m'} {d} {d'} h = step m m' m' d d' d' h (stay m' d')

  Steps-append :
      {m m1 m' : Receive.Manager} {d d1 d' : D}
      → Steps host shares m d m1 d1
      → Steps host shares m1 d1 m' d'
      → Steps host shares m d m' d'
  Steps-append (stay m d) k = k
  Steps-append (step m m1 m2 d d1 d2 h hs) k = step m m1 _ d d1 _ h (Steps-append hs k)

  pub register_receiver :
      (now : ℕ) (body : Result Str Info) (address : Str) (s : Server)
      → (handle_register now body address s).1.receiver ≡ s.receiver
  unfolding handle_register
  register_receiver now (err e) address s = refl
  register_receiver now (ok peer) address s = elim (Bool-cases (str_eq peer.fingerprint [])) [
    | inl q ↦ rw q refl
    | inr q ↦ rw q refl
  ]

  kept : (s : Server) (d : D) (m : Receive.Manager) → s.receiver ≡ some m → Received m d s d
  kept s d m e = record { manager = m; receiver = e; steps = stay m d }

  prepare-Received :
      (crypto : Crypto) (id : Str) (now : ℕ) (body : Result Str PrepareRequest) (address : Str)
      (certs : List Str) (s : Server) (d : D) (m : Receive.Manager)
      → s.receiver ≡ some m
      → Received m d (handle_prepare_upload crypto id now body address certs s).1 d
  unfolding handle_prepare_upload
  prepare-Received crypto id now (err bad) address certs s d m e =
      rw (handle_prepare_upload, e) (kept s d m e)
  prepare-Received crypto id now (ok req) address certs s d m e =
      elim (Result-cases
        (offer id now req.info (remote_host address) (client_cert_fp crypto certs) req.files m)) [
          | inr (bad, q) ↦ rw (handle_prepare_upload, e, q) (kept s d m e)
          | inl (m1, q) ↦
              rw (handle_prepare_upload, e, q)
                (record {
                  manager = m1;
                  receiver = refl;
                  steps = one (offers id now req.info _ _ req.files m m1 d q);
                })
        ]

  finish-Received :
      (new_id : Str → Str) (settings : Settings.Store) (session : Session) (wake : Wake)
      (s : Server) (d : D) (m : Receive.Manager)
      → s.receiver ≡ some m
      → lookup session.id m.sessions ≡ some session
      → is_ready wake session ≡ true
      → Received m d (finish_prepare_upload new_id shares settings session wake s).1 d
  unfolding finish_prepare_upload
  finish-Received new_id settings session wake s d m e known ready =
      rw (finish_prepare_upload, e)
        (record {
          manager = _;
          receiver = refl;
          steps = one (resumes new_id settings session wake m d known ready);
        })

  upload-Received :
      (fuel : ℕ) (sid fid token : Str) (body : List (Read D)) (s : Server) (d : D)
      (m : Receive.Manager) (d' : D) (s' : Server) (r : Reply)
      → ((x : Read D)
          → In x body
          → (m1 : Receive.Manager) (d1 : D)
          → Steps host shares m1 d1 (x.meanwhile m1 d1).0 (x.meanwhile m1 d1).1)
      → handle_upload host fuel shares sid fid token body s d ≡ some (r, s', d')
      → s.receiver ≡ some m
      → Received m d s' d'
  unfolding handle_upload
  upload-Received fuel sid fid token body s d m d' s' r h u e =
      elim (Option-cases (upload host fuel shares sid fid token body m d)) [
        | inl q ↦ cc (u, rw (handle_upload, e, q) at u)
        | inr ((response, m1, d1), q) ↦
            let done = some-injective _ _ (rw (handle_upload, e, q) at u) in
            rw (sym (ap (λ x. x.1) done), sym (ap (λ x. x.2) done))
              (record {
                manager = m1;
                receiver = refl;
                steps = one (uploads fuel sid fid token body m m1 d d1 response h q);
              })
      ]

  cancel-Received :
      (sid : Str) (s : Server) (d : D) (m : Receive.Manager)
      → s.receiver ≡ some m
      → Received m d (handle_cancel host sid s d).1 (handle_cancel host sid s d).2
  unfolding handle_cancel
  cancel-Received sid s d m e =
      rw (handle_cancel, e) (record { manager = _; receiver = refl; steps = one (cancels sid m d) })

  pub Request-Received :
      (s : Server) (d d' : D) (s' : Server) (m : Receive.Manager)
      → Request s d s' d'
      → s.receiver ≡ some m
      → Received m d s' d'
  Request-Received _ _ _ _ m (registers now body address s d) e =
      kept _ d m (register_receiver now body address s ∙ e)
  Request-Received _ _ _ _ m (prepares crypto id now body address certs s d) e =
      prepare-Received crypto id now body address certs s d m e
  Request-Received _ _ _ _ m (finishes new_id settings session wake s m1 d q known ready) e =
      let same : m1 ≡ m = some-injective _ _ (sym q ∙ e) in
      finish-Received new_id settings session wake s d m e (rw (sym same) known) ready
  Request-Received _ _ _ _ m (receives fuel sid fid token body s s' d d' r h u) e =
      upload-Received fuel sid fid token body s d m d' s' r h u e
  Request-Received _ _ _ _ m (stops sid s d) e = cancel-Received sid s d m e

  -- From a server with a receiver, whatever other devices ask for, in any order: the receive
  -- pipeline and the disk are then where a sequence of the operations of the pipeline takes them.
  pub Requests-Received :
      (s : Server) (d d' : D) (s' : Server) (m : Receive.Manager)
      → Requests s d s' d'
      → s.receiver ≡ some m
      → Received m d s' d'
  Requests-Received _ _ _ _ m (idle s d) e = kept s d m e
  Requests-Received _ _ _ _ m (next s s1 s' d d1 d' h hs) e =
      let first = Request-Received s d d1 s1 m h e in
      let rest = Requests-Received s1 d1 d' s' first.manager hs first.receiver in
      record {
        manager = rest.manager;
        receiver = rest.receiver;
        steps = Steps-append first.steps rest.steps;
      }
