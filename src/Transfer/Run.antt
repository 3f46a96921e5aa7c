-- ===== src/Transfer/Run.antt =====
-- `Send`, `targetWorker` and `run` of internal/transfer/manager.go. The calls of the client block,
-- and other requests run meanwhile: each carries its result and what they do to the manager.
use localsend_nas.Prelude.{
  ℕ, Bool, true, false, List, [], ◌∷◌, ◌++◌, Option, none, some, Str, codes, Map, ℤ, pos, str_eq,
  lookup, insert, length, ltb, ◌==◌, ◌+₆₄◌, if◌then◌else◌, Result, ok, err,
}
use localsend_nas.LocalSend.{Info, FileDto, PrepareRequest, PrepareResponse}
use localsend_nas.Discovery.{Device}
use localsend_nas.Transfer.{
  queued, preparing, awaiting_accept, sending, done, failed, cancelled, FileProgress, Entry,
  Manager, modify, broadcast, set_state, enter, is_cancelled, channel_size,
}
use localsend_nas.Transfer.Expand.{
  ExpandError, empty_basket, no_files, queue_full, unknown_target, Basket, Work,
}

abbrev pub new_job : Str → Str → Device → ℕ → Basket → Entry
new_job id target dev now b = record {
  job = record {
    id = id;
    direction = [];
    target_fp = target;
    alias = dev.info.alias;
    state = queued;
    error = [];
    files = b.files;
    total = b.total;
    sent = pos 0;
    created_at = now;
  };
  subs = [];
  context = none;
}

-- The queue of a target; a missing one is made, with its worker.
abbrev pub queue_of : Str → Manager → List Str
queue_of target m = elim (lookup target m.queues) [ none ↦ [] | some q ↦ q ]

abbrev pub full_text : Str
full_text = codes "target queue full"

-- The end of `Send`: the job is entered, and goes into the queue if there is room.
unfoldable pub enqueue : Str → Entry → Manager → Result ExpandError Str × Manager
enqueue target e m =
    let q = queue_of target m in
    let m1 = enter e m in
    if ltb (length q) channel_size
    then (ok e.job.id, record m1 { queues = insert target (q ++ e.job.id ∷ []) m1.queues })
    else (
      err queue_full,
      modify e.job.id (λ e. record e { job = record (e.job) { state = failed; error = full_text } })
          (record m1 { queues = insert target q m1.queues }),
    )

abbrev pub is_empty {ℓ} : {A : Type ℓ} → List A → Bool
is_empty [] = true
is_empty (_ ∷ _) = false

-- Send. `device` is what the resolver finds, `work` the expansion of the basket.
unfoldable pub send :
    Option Device
    → Str
    → Bool
    → Work
    → Str
    → ℕ
    → Manager
    → Option (Result ExpandError Str × Manager)
send none target no_items work id now m = some (err (unknown_target target), m)
send (some dev) target true work id now m = some (err empty_basket, m)
send (some dev) target false none id now m = none
send (some dev) target false (some (err e)) id now m = some (err e, m)
send (some dev) target false (some (ok b)) id now m =
    if is_empty b.files
    then some (err no_files, m)
    else some (enqueue target (new_job id target dev now b) m)

-- targetWorker receives from its channel.
unfoldable pub dequeue : Str → Manager → Option (Str × Manager)
dequeue target m = elim (queue_of target m) [
  | [] ↦ none
  | id ∷ ids ↦ some (id, record m { queues = insert target ids m.queues })
]

-- The result of client.Prepare: the response with its status, or an error's text; `is_cancel` says
-- whether the error is context.Canceled.
pub record ClientError : Type 0 where
  pub text : Str
  pub is_cancel : Bool

pub record Prepared : Type 0 where
  pub result : Result ClientError (PrepareResponse × ℕ)
  pub meanwhile : Manager → Manager

-- An upload: the calls of `onProgress`, each with whether the throttle is due and with what others do
-- before the next, and the error.
pub record Progress : Type 0 where
  pub delta : ℤ
  pub due : Bool
  pub meanwhile : Manager → Manager

-- What an upload does: the opening of the file, the progress of its body, and the error.
pub record Uploaded : Type 0 where
  pub progress : List Progress
  pub error : Option ClientError

-- fail
unfoldable pub fail : Str → ClientError → Manager → Manager
fail id cause m = broadcast id (
    modify id
      (λ e.
        if is_cancelled e.job.state
        then record e { job = record (e.job) { state = cancelled; error = [] } }
        else if cause.is_cancel
        then record e { job = record (e.job) { state = cancelled; error = [] } }
        else record e { job = record (e.job) { state = failed; error = cause.text } })
      m)

-- A change of the file that the worker is at.
abbrev pub at : Str → (FileProgress → FileProgress) → List FileProgress → List FileProgress
at fid f [] = []
at fid f (x ∷ xs) = (if str_eq x.id fid then f x else x) ∷ at fid f xs

-- `onProgress` of uploadOne.
unfoldable pub on_progress : Str → Str → Progress → Manager → Manager
on_progress id fid p m =
    let m1 =
      modify id
        (λ e. record e {
          job = record (e.job) {
            files = at fid (λ f. record f { sent = f.sent +₆₄ p.delta }) e.job.files;
            sent = e.job.sent +₆₄ p.delta;
          };
        })
        m in
    p.meanwhile (if p.due then broadcast id m1 else m1)

-- uploadOne from the opened file on; the opening, with its error, is part of `Uploaded`.
unfoldable pub upload_one : Str → Str → List Progress → Manager → Manager
upload_one id fid [] m = m
upload_one id fid (p ∷ ps) m = upload_one id fid ps (on_progress id fid p m)

abbrev pub mark_done : Str → Str → Manager → Manager
mark_done id fid m = broadcast id (
    modify id
      (λ e. record e {
        job = record (e.job) { files = at fid (λ f. record f { done = true }) e.job.files };
      })
      m)

-- The loop over the files: one that the receiver gave no token is skipped. `upload` is what the
-- client does with a file and its token.
unfoldable pub upload_all :
    Str → (FileProgress → Str → Uploaded) → Map Str → List FileProgress → Manager → Manager
upload_all id upload tokens [] m = set_state id done m
upload_all id upload tokens (f ∷ fs) m =
    let rest = upload_all id upload tokens fs in
    elim (lookup f.id tokens) [
      | none ↦ rest m
      | some token ↦
          let u = upload f token in
          let m1 = upload_one id f.id u.progress m in
          elim u.error [ some e ↦ fail id e m1 | none ↦ rest (mark_done id f.id m1) ]
    ]

-- `run` from the result of client.Prepare on.
unfoldable pub run_prepared :
    Str
    → (FileProgress → Str → Uploaded)
    → List FileProgress
    → Result ClientError (PrepareResponse × ℕ)
    → Manager
    → Manager
run_prepared id upload files (err e) m = fail id e m
run_prepared id upload files (ok (resp, status)) m =
    if status == 204
    then set_state id done m
    else upload_all id upload resp.files files (set_state id sending m)

-- The request that `run` sends.
abbrev pub file_dtos : (Str → Str) → List FileProgress → Map FileDto → Map FileDto
file_dtos mime [] dtos = dtos
file_dtos mime (f ∷ fs) dtos = file_dtos mime fs (
    insert f.id
      (record {
        id = f.id;
        file_name = f.name;
        size = f.size;
        file_type = mime f.name;
        sha256 = none;
        metadata = none;
      })
      dtos)

-- run. `prepare` is what the client does with the request, `mime` is mimeType.
unfoldable pub run :
    (Str → Str)
    → Info
    → (PrepareRequest → Prepared)
    → (FileProgress → Str → Uploaded)
    → Str
    → Manager
    → Manager
run mime info prepare upload id m = elim (lookup id m.heap) [
  | none ↦ m
  | some e ↦
      if is_cancelled e.job.state
      then m
      else let m1 = modify id (λ e. record e { context = some false }) m in
        let m2 = set_state id awaiting_accept (set_state id preparing m1) in
        let p = prepare (record { info = info; files = file_dtos mime e.job.files [] }) in
        run_prepared id upload e.job.files p.result (p.meanwhile m2)
]
