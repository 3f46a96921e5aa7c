-- ===== src/HttpApi/Sending.antt =====
-- The handlers of the transfers in internal/httpapi/api.go, and the status of an error of `Send`.
use localsend_nas.Prelude.{
  ℕ, Bool, not, List, [], ◌∷◌, ◌++◌, Option, none, some, Str, codes, has_prefix, if◌then◌else◌,
  Result, ok, err,
}
use localsend_nas.Host.{Host}
use localsend_nas.Shares.{ShareError}
use localsend_nas.Discovery.{get}
use localsend_nas.Receive
use localsend_nas.Receive.{Hook, Fault, cancel_session}
use localsend_nas.Transfer
use localsend_nas.Transfer.{ItemRef, list, forget}
use localsend_nas.Transfer.Expand.{
  ExpandError, missing_share, empty_basket, no_files, queue_full, unknown_target, not_open, expand,
}
use localsend_nas.Transfer.Run.{send, is_empty}
use localsend_nas.Transfer.Shown.{replay}
use localsend_nas.HttpApi.{
  Api, Reply, reply, failure, no_content, invalid_body, text, send_problem, job_id, jobs,
}

-- handleTransfers
abbrev pub handle_transfers : Api → Reply
handle_transfers a = reply 200 (jobs (list a.tm))

-- "job still active — cancel first", with the dash in UTF-8.
abbrev pub still_active : Str
still_active = codes "job still active " ++ (0xe2 ∷ 0x80 ∷ 0x94 ∷ codes " cancel first")

-- handleDeleteTransfer
unfoldable pub handle_delete_transfer : Str → Api → Reply × Api
handle_delete_transfer id a =
    let ((found, removed), tm) = forget id a.tm in
    if not found
    then (failure 404 (text (codes "unknown job")), record a { tm = tm })
    else if not removed
    then (failure 409 (text still_active), record a { tm = tm })
    else (no_content, record a { tm = tm })

-- A request to send.
pub record SendBody : Type 0 where
  pub target : Str
  pub items : List ItemRef

-- `quote` is the format %q of a string, and `describe` the text of an error of a share.
module _ (quote : Str → Str) (describe : ShareError → Str) where
  -- The text of an error of `Send`.
  unfoldable pub error_text : ExpandError → Str
  error_text missing_share = codes "item missing share"
  error_text empty_basket = codes "empty basket"
  error_text no_files = codes "basket contains no files"
  error_text queue_full = codes "target queue full"
  error_text (unknown_target target) = codes "unknown target " ++ quote target
  error_text (not_open share rel e) = share ++ (codes ":" ++ (rel ++ (codes ": " ++ describe e)))

  -- The status of an error of `Send`, which goes by the beginning of its text.
  unfoldable pub send_status : ExpandError → ℕ
  unfolding error_text has_prefix
  send_status e = if has_prefix (error_text e) (codes "unknown target") then 404 else 400

  abbrev pub sent : Api → Option (Result ExpandError Str × Transfer.Manager) → Option (Reply × Api)
  sent a none = none
  sent a (some (err e, tm)) = some (failure (send_status e) (send_problem e), record a { tm = tm })
  sent a (some (ok id, tm)) = some (reply 202 (job_id id), record a { tm = tm })

  -- handleSend, with the fresh identifier of the job; `none` when the fuel for the depth of the
  -- directories is used up.
  unfoldable pub handle_send :
      {D : Type 0}
      → Host D
      → (Str → Str)
      → ℕ
      → Str
      → ℕ
      → Result Str SendBody
      → Api
      → D
      → Option (Reply × Api)
  handle_send host to_lower fuel id now (err e) a d = some (invalid_body, a)
  handle_send host to_lower fuel id now (ok b) a d = sent a (
      send (get b.target a.disc) b.target (is_empty b.items)
        (expand host d to_lower a.store fuel b.items) id now a.tm)

module _ (message : Fault → Str) (due : Hook → Bool) {D : Type 0} (host : Host D) where
  -- What the cancellation of a session does to the receive pipeline, and by its hooks to the jobs.
  abbrev pub stop_session : Str → Api → Receive.Manager → D → Api × D
  stop_session id a m d =
      let (m1, d1) = cancel_session host id (record m { trace = [] }) d in
      (
        record a {
          rcv = some (record m1 { trace = m.trace ++ m1.trace });
          tm = replay message due m1.trace a.tm;
        },
        d1,
      )

  -- The call of `SetReceiveCancel`'s function, which main.go sets in the mode with a receiver.
  abbrev pub stop_received : Option Str → Api → D → Api × D
  stop_received none a d = (a, d)
  stop_received (some id) a d = elim a.rcv [ none ↦ (a, d) | some m ↦ stop_session id a m d ]

  -- handleCancelTransfer
  unfoldable pub handle_cancel_transfer : Str → Api → D → Reply × Api × D
  handle_cancel_transfer id a d =
      let ((requested, session), tm) = Transfer.cancel id a.tm in
      let (a1, d1) = stop_received session (record a { tm = tm }) d in
      if requested
      then (no_content, a1, d1)
      else (failure 409 (text (codes "job not active or unknown")), a1, d1)
