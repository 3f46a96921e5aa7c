-- ===== src/Client/Answers.antt =====
-- internal/localsend/client.go against internal/lsserver/server.go: what the sender's `Prepare` makes
-- of the answer of a receiver that runs the same program.
use localsend_nas.Prelude.{
  ℕ, [], Option, none, some, is_some, Str, Result, ok, err, str_eq_iff, Bool-cases, ◌≡◌, ◌≢◌, refl,
  inl, inr, arith,
}
use localsend_nas.LocalSend.{PrepareResponse}
use localsend_nas.Shares
use localsend_nas.Shares.{path}
use localsend_nas.Settings
use localsend_nas.Receive.{
  Fault, Session, Decision, declined_by_user, share_vanished, context_cancelled, share_missing,
  modify,
}
use localsend_nas.Receive
use localsend_nas.Receive.Prepare.{
  Answer, answer, resume, Wake, decided, timeout, session_stopped, disconnected, refused, taken,
  on_timeout,
}
use localsend_nas.LsServer.{
  Reply, unanswered, reply, Content, empty, own_info, message, fault, prepared, reply_of_answer,
}
use localsend_nas.Client.{Web, Response, ClientFault, send_error, read_prepared, status_error}

-- writeJSON on the contents of the answers to a prepare-upload; `describe` is the text of an error.
pub record Encoder : Type 0 where
  pub describe : Fault → Str
  pub encode_message : Str → Str
  pub encode_prepared : PrepareResponse → Str

-- What the sender decodes is what was encoded, and no error has the text "".
pub record WireLaws (web : Web) (enc : Encoder) : Type 0 where
  pub message_back : (s : Str) → web.decode_message (enc.encode_message s) ≡ ok s
  pub prepared_back : (r : PrepareResponse) → web.decode_prepared (enc.encode_prepared r) ≡ ok r
  pub described : (e : Fault) → enc.describe e ≢ []

abbrev pub body_of : Encoder → Content → Str
body_of enc empty = []
body_of enc (own_info _) = []
body_of enc (message s) = enc.encode_message s
body_of enc (fault e) = enc.encode_message (enc.describe e)
body_of enc (prepared r) = enc.encode_prepared r

-- The response on the wire, if there is one.
abbrev pub respond : Encoder → Reply → Option Response
respond enc unanswered = none
respond enc (reply status content) = some (record { status = status; body = body_of enc content })

-- What `Prepare` of the sender is to return for an answer of `Prepare` of the receiver.
pub data IsSeen (enc : Encoder)
    : Answer → Result ClientFault (Option PrepareResponse × ℕ) → Type 0 where
  granted :
      (r : PrepareResponse)
      → IsSeen enc (record { status = 200; response = some r; fault = none }) (ok (some r, 200))
  needless : IsSeen enc (record { status = 204; response = none; fault = none }) (ok (none, 204))
  declined : (e : Fault) → IsSeen enc (refused 403 e) (err (send_error 403 (enc.describe e)))
  broken : (e : Fault) → IsSeen enc (refused 500 e) (err (send_error 500 (enc.describe e)))

-- The sender has seen an answer.
pub record Sees (web : Web) (enc : Encoder) (a : Answer) : Type 0 where
  pub response : Response
  pub sent : respond enc (reply_of_answer a) ≡ some response
  pub seen : IsSeen enc a (read_prepared web response)

module _ (web : Web) (enc : Encoder) (laws : WireLaws web enc) where
  status_error-fault :
      (status : ℕ) (e : Fault)
      → status_error web (record { status = status; body = enc.encode_message (enc.describe e) })
        ≡ send_error status (enc.describe e)
  unfolding status_error
  status_error-fault status e =
      rw (laws.message_back (enc.describe e))
        (ground (arith, str_eq_iff (enc.describe e) [], laws.described e))

  granted-Sees :
      (r : PrepareResponse)
      → Sees web enc (record { status = 200; response = some r; fault = none })
  unfolding reply_of_answer read_prepared
  granted-Sees r = record {
    response = record { status = 200; body = enc.encode_prepared r };
    sent = refl;
    seen = rw (read_prepared, laws.prepared_back r) (granted r);
  }

  declined-Sees : Sees web enc (refused 403 declined_by_user)
  unfolding reply_of_answer read_prepared
  declined-Sees = record {
    response = record { status = 403; body = enc.encode_message (enc.describe declined_by_user) };
    sent = refl;
    seen = rw (read_prepared, status_error-fault 403 declined_by_user) (declined declined_by_user);
  }

  missing-Sees : (share : Str) → Sees web enc (refused 500 (share_missing share))
  unfolding reply_of_answer read_prepared
  missing-Sees share = record {
    response = record {
      status = 500;
      body = enc.encode_message (enc.describe (share_missing share));
    };
    sent = refl;
    seen =
        rw (read_prepared, status_error-fault 500 (share_missing share))
          (broken (share_missing share));
  }

  needless-Sees : Sees web enc (record { status = 204; response = none; fault = none })
  unfolding reply_of_answer read_prepared
  needless-Sees = record {
    response = record { status = 204; body = [] };
    sent = refl;
    seen = needless;
  }

  answer-Sees :
      (new_id : Str → Str) (shares : Shares.Store) (s : Session) (dec : Decision)
      (m : Receive.Manager)
      → Sees web enc (answer new_id shares s dec m).0
  unfolding answer
  answer-Sees new_id shares s dec m = elim (Bool-cases dec.accept) [
    | inr q ↦ rw q declined-Sees
    | inl q ↦ elim (Bool-cases (is_some (path shares dec.share))) [
      | inl p ↦ rw (q, p) (granted-Sees _)
      | inr p ↦ rw (q, p) (missing-Sees dec.share)
    ]
  ]

  -- Between two nodes of this program, where the sender decodes what the receiver encoded and no
  -- error has an empty text: the sender's `Prepare` returns what the receiver's `Prepare` answered,
  -- unless the sender has gone: the tokens with 200, nothing with 204 for a session that was
  -- stopped, and a `SendError` with the status and the text of the error otherwise.
  pub resume-Sees :
      (new_id : Str → Str) (shares : Shares.Store) (settings : Settings.Store) (s : Session)
      (wake : Wake) (m : Receive.Manager)
      → wake ≢ disconnected
      → Sees web enc (resume new_id shares settings s wake m).0
  unfolding resume
  resume-Sees new_id shares settings s decided m h =
      answer-Sees new_id shares s (taken s.decision) _
  resume-Sees new_id shares settings s timeout m h =
      answer-Sees new_id shares s (on_timeout shares settings) m
  resume-Sees new_id shares settings s session_stopped m h = needless-Sees
  resume-Sees new_id shares settings s disconnected m h = absurd (h refl)
