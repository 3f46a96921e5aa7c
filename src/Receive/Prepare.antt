-- ===== src/Receive/Prepare.antt =====
-- `Prepare`, `Decide` and `dropboxShare` of internal/receive/receive.go: an offer, and its answer.
-- `Prepare` blocks in a select, so it is two steps, between which other calls may run: `offer`
-- registers the session, and `resume` goes on from the case that the select takes.
pub mod Answers
use localsend_nas.Prelude.{
  ℕ, Bool, true, false, not, ◌&&◌, List, [], ◌∷◌, ◌++◌, Option, none, some, is_some, Str, Map, ℤ,
  pos, str_eq, equal_fold, lookup, insert, map, if◌then◌else◌, Result, ok, err, ◌>>=◌, map_err,
}
use localsend_nas.LocalSend.{Info, FileDto, PrepareResponse}
use localsend_nas.Shares
use localsend_nas.Shares.{ShareError, path}
use localsend_nas.Settings
use localsend_nas.Receive.{
  State, pending, accepted, declined, cancelled, failed, Fault, fingerprint_mismatch, no_files,
  declined_by_user, share_vanished, context_cancelled, unknown_session, not_pending, bad_name,
  share_missing, unknown_share, File, Decision, Session, Hook, receive_registered, Manager,
  is_pending, emit, modify, set_state,
}
use localsend_nas.Receive.Paths.{sanitize_rel_path}

abbrev pub with_id : Str → FileDto → FileDto
with_id id dto = if str_eq dto.id [] then record dto { id = id } else dto

abbrev pub new_file : FileDto → File
new_file dto = record { dto = dto; received = pos 0; done = false; part_path = [] }

-- The loop that validates the offered names.
unfoldable pub offered_files : Map FileDto → Result ShareError (Map File)
offered_files [] = ok []
offered_files ((id, dto) ∷ rest) = do
  _ ← sanitize_rel_path dto.file_name
  files ← offered_files rest
  ok ((id, new_file (with_id id dto)) ∷ files)

abbrev pub new_session : Str → ℕ → Info → Str → Map File → Session
new_session id now sender sender_ip files = record {
  id = id;
  sender = sender;
  sender_ip = sender_ip;
  files = files;
  state = pending;
  dest_share = [];
  created_at = now;
  tokens = [];
  decision = none;
  stopped = false;
}

abbrev pub register : Session → Manager → Manager
register s m = emit (receive_registered s) (record m { sessions = insert s.id s m.sessions })

abbrev pub has_none : Map FileDto → Bool
has_none [] = true
has_none (_ ∷ _) = false

-- `Prepare` up to the select: the refusal with its status, or the manager with the session.
-- `id` is the fresh identifier and `now` the time.
unfoldable pub offer :
    Str → ℕ → Info → Str → Str → Map FileDto → Manager → Result (ℕ × Fault) Manager
offer id now sender sender_ip cert_fp files m =
    if not (str_eq cert_fp []) && not (equal_fold sender.fingerprint cert_fp)
    then err (403, fingerprint_mismatch)
    else if has_none files
    then err (400, no_files)
    else do
      fs ← map_err (λ e. (400, bad_name e)) (offered_files files)
      ok (register (new_session id now sender sender_ip fs) m)

-- dropboxShare: the share for accepted offers when the countdown expires, if it exists.
unfoldable pub dropbox_share : Shares.Store → Settings.Store → Str
dropbox_share shares settings =
    let share = settings.s.dropbox_share in
    if str_eq share [] then [] else if is_some (path shares share) then share else []

-- The case that the select takes.
pub data Wake : Type 0 where
  decided timeout session_stopped disconnected : Wake

pub record Answer : Type 0 where
  pub status : ℕ
  pub response : Option PrepareResponse
  pub fault : Option Fault

abbrev pub refused : ℕ → Fault → Answer
refused status e = record { status = status; response = none; fault = some e }

abbrev pub refusal : Decision
refusal = record { accept = false; share = [] }

-- The decision when the countdown expires.
abbrev pub on_timeout : Shares.Store → Settings.Store → Decision
on_timeout shares settings =
    let share = dropbox_share shares settings in
    if str_eq share [] then refusal else record { accept = true; share = share }

-- One token for each file.
abbrev pub make_tokens : (Str → Str) → Map File → Map Str
make_tokens new_id [] = []
make_tokens new_id ((id, _) ∷ files) = (id, new_id id) ∷ make_tokens new_id files

-- `Prepare` from the decision on. `new_id` gives each file its fresh token.
unfoldable pub answer : (Str → Str) → Shares.Store → Session → Decision → Manager → Answer × Manager
answer new_id shares s dec m =
    if not dec.accept
    then (refused 403 declined_by_user, set_state s.id declined none m)
    else if is_some (path shares dec.share)
    then (
      record {
        status = 200;
        response = some (record { session_id = s.id; files = make_tokens new_id s.files });
        fault = none;
      },
      set_state s.id accepted none (
          modify s.id
            (λ s. record s { dest_share = dec.share; tokens = make_tokens new_id s.files }) m),
    )
    else (refused 500 (share_missing dec.share), set_state s.id failed (some share_vanished) m)

-- Is the case of the select ready?
abbrev pub is_ready : Wake → Session → Bool
is_ready decided s = is_some s.decision
is_ready session_stopped s = s.stopped
is_ready _ s = true

abbrev pub taken : Option Decision → Decision
taken none = refusal
taken (some dec) = dec

-- `Prepare` from the select on, for a case that is ready.
unfoldable pub resume :
    (Str → Str) → Shares.Store → Settings.Store → Session → Wake → Manager → Answer × Manager
resume new_id shares settings s decided m =
    answer new_id shares s (taken s.decision) (modify s.id (λ s. record s { decision = none }) m)
resume new_id shares settings s timeout m = answer new_id shares s (on_timeout shares settings) m
resume new_id shares settings s session_stopped m =
    (record { status = 204; response = none; fault = none }, set_state s.id cancelled none m)
resume new_id shares settings s disconnected m =
    (refused 0 context_cancelled, set_state s.id cancelled none m)

-- A send into the channel with room for one: a second decision is dropped.
abbrev pub put_decision : Decision → Session → Session
put_decision dec s = elim s.decision [ none ↦ record s { decision = some dec } | some _ ↦ s ]

-- Decide: the error, if any.
unfoldable pub decide : Shares.Store → Str → Bool → Str → Manager → Option Fault × Manager
decide shares sid accept share m = elim (lookup sid m.sessions) [
  | none ↦ (some unknown_session, m)
  | some s ↦
      if not (is_pending s.state)
      then (some not_pending, m)
      else if accept && not (is_some (path shares share))
      then (some (unknown_share share), m)
      else (none, modify sid (put_decision (record { accept = accept; share = share })) m)
]
