-- ===== src/Transfer/Hooks.antt =====
-- The implementation of `receive.Hooks` in internal/transfer/manager.go: inbound sessions ride the
-- job list.
use localsend_nas.Prelude.{
  Bool, true, false, List, [], ◌∷◌, ◌++◌, Option, none, some, Str, Map, ℤ, pos, str_eq, str_lt,
  sort, ◌+₆₄◌, if◌then◌else◌,
}
use localsend_nas.Receive
use localsend_nas.Receive.{
  Fault, Hook, receive_registered, receive_state, receive_progress, receive_file_done, Session,
  File,
}
use localsend_nas.Transfer.{
  State, awaiting_accept, receiving, done, failed, cancelled, declined, FileProgress, Job, Manager,
  find, modify, broadcast, with_state, enter, receive_direction,
}

abbrev pub files_of : Map File → List File
files_of [] = []
files_of ((_, f) ∷ rest) = f ∷ files_of rest

abbrev pub by_name : File → File → Bool
by_name a b = str_lt a.dto.file_name b.dto.file_name

abbrev pub listed : List File → List FileProgress
listed [] = []
listed (f ∷ fs) =
    record {
      id = f.dto.id;
      name = f.dto.file_name;
      share = [];
      rel = [];
      size = f.dto.size;
      sent = pos 0;
      done = false;
    }
    ∷ listed fs

abbrev pub add_sizes : List File → ℤ → ℤ
add_sizes [] n = n
add_sizes (f ∷ fs) n = add_sizes fs (n +₆₄ f.dto.size)

abbrev pub job_of : Session → Job
job_of s =
    let files = sort by_name (files_of s.files) in
    record {
      id = s.id;
      direction = receive_direction;
      target_fp = s.sender.fingerprint;
      alias = s.sender.alias;
      state = awaiting_accept;
      error = [];
      files = listed files;
      total = add_sizes files (pos 0);
      sent = pos 0;
      created_at = s.created_at;
    }

-- ReceiveRegistered
unfoldable pub on_registered : Session → Manager → Manager
on_registered s m =
    let j = job_of s in
    let m1 = broadcast s.id (enter (record { job = j; subs = []; context = none }) m) in
    record m1 { notified = m1.notified ++ j ∷ [] }

-- The `switch` of `ReceiveState`.
abbrev pub job_state : Receive.State → State
job_state Receive.pending = awaiting_accept
job_state Receive.accepted = receiving
job_state Receive.done = done
job_state Receive.declined = declined
job_state Receive.cancelled = cancelled
job_state Receive.failed = failed

module _ (message : Fault → Str) where
  abbrev pub error_text : Option Fault → Str
  error_text none = []
  error_text (some e) = message e

  -- ReceiveState
  unfoldable pub on_state : Str → Receive.State → Option Fault → Manager → Manager
  on_state id st e m = elim (find id m) [
    | none ↦ m
    | some _ ↦ broadcast id (modify id (with_state (job_state st) (error_text e)) m)
  ]

  abbrev pub add_sent : ℤ → FileProgress → FileProgress
  add_sent delta f = record f { sent = f.sent +₆₄ delta }

  -- A change of the first file with an id.
  unfoldable pub at_file :
      Str → (FileProgress → FileProgress) → List FileProgress → List FileProgress
  at_file fid f [] = []
  at_file fid f (x ∷ xs) =
      let rest = at_file fid f xs in if str_eq x.id fid then f x ∷ xs else x ∷ rest

  -- ReceiveProgress, where the throttle lets the broadcast through if `due`.
  unfoldable pub on_progress : Bool → Str → Str → ℤ → Manager → Manager
  on_progress due id fid delta m = elim (find id m) [
    | none ↦ m
    | some _ ↦
        let m1 =
          modify id
            (λ e. record e {
              job = record (e.job) {
                files = at_file fid (add_sent delta) e.job.files;
                sent = e.job.sent +₆₄ delta;
              };
            })
            m in
        if due then broadcast id m1 else m1
  ]

  -- ReceiveFileDone
  unfoldable pub on_file_done : Str → Str → Manager → Manager
  on_file_done id fid m = elim (find id m) [
    | none ↦ m
    | some _ ↦ broadcast id (
        modify id
          (λ e. record e {
            job = record (e.job) {
              files = at_file fid (λ f. record f { done = true }) e.job.files;
            };
          })
          m)
  ]

  -- One call of a hook.
  abbrev pub call : Bool → Hook → Manager → Manager
  call due (receive_registered s) m = on_registered s m
  call due (receive_state id st e) m = on_state id st e m
  call due (receive_progress id fid delta) m = on_progress due id fid delta m
  call due (receive_file_done id fid) m = on_file_done id fid m
