-- ===== src/Receive.antt =====
-- internal/receive/receive.go: inbound transfers. The types, and the operations on a session that
-- the others share. A session is reached through the manager's map by its id, which is what the
-- program's pointers are; the calls of the hooks are kept in order in `trace`.
pub mod Paths
pub mod Prepare
pub mod Upload
pub mod Cancel
use localsend_nas.Prelude.{
  ℕ, Bool, true, false, not, ◌&&◌, ◌||◌, List, [], ◌∷◌, ◌++◌, Option, none, some, Str, Map, ℤ,
  str_eq, lookup, insert, if◌then◌else◌,
}
use localsend_nas.LocalSend.{Info, FileDto}
use localsend_nas.Host.{Host, OsError}
use localsend_nas.Shares.{ShareError}

pub data State : Type 0 where
  pending accepted done declined cancelled failed : State

-- The errors that reach a response or a hook.
pub data Fault : Type 0 where
  fingerprint_mismatch no_files declined_by_user share_vanished context_cancelled : Fault
  unknown_session not_pending inactive invalid_token unknown_file already_received : Fault
  bad_name share_fault : ShareError → Fault
  share_missing unknown_share : Str → Fault
  read_fault : Str → Fault
  io : OsError → Fault
  size_mismatch : ℤ → ℕ → Fault

pub record File : Type 0 where
  pub dto : FileDto
  pub received : ℤ
  pub done : Bool
  pub part_path : Str

pub record Decision : Type 0 where
  pub accept : Bool
  pub share : Str

-- `decision` is the channel with room for one; `stopped` says that `cancel` was called.
pub record Session : Type 0 where
  pub id : Str
  pub sender : Info
  pub sender_ip : Str
  pub files : Map File
  pub state : State
  pub dest_share : Str
  pub created_at : ℕ
  pub tokens : Map Str
  pub decision : Option Decision
  pub stopped : Bool

-- A call of one of the `Hooks`.
pub data Hook : Type 0 where
  receive_registered : Session → Hook
  receive_state : Str → State → Option Fault → Hook
  receive_progress : Str → Str → ℤ → Hook
  receive_file_done : Str → Str → Hook

pub record Manager : Type 0 where
  pub sessions : Map Session
  pub in_progress : Map Str
  pub trace : List Hook

-- New
abbrev pub new : Manager
new = record { sessions = []; in_progress = []; trace = [] }

abbrev pub is_pending : State → Bool
is_pending pending = true
is_pending _ = false

abbrev pub is_accepted : State → Bool
is_accepted accepted = true
is_accepted _ = false

abbrev pub is_cancelled : State → Bool
is_cancelled cancelled = true
is_cancelled _ = false

unfoldable pub emit : Hook → Manager → Manager
emit h m = record m { trace = m.trace ++ h ∷ [] }

-- A change of one session; nothing happens if there is none under the id.
unfoldable pub modify : Str → (Session → Session) → Manager → Manager
modify sid f m = elim (lookup sid m.sessions) [
  | none ↦ m
  | some s ↦ record m { sessions = insert sid (f s) m.sessions }
]

unfoldable pub set_state : Str → State → Option Fault → Manager → Manager
set_state sid st e m = emit (receive_state sid st e) (modify sid (λ s. record s { state = st }) m)

-- Pending: the sessions that wait for a decision.
unfoldable pub pending_sessions : Map Session → List Session
pending_sessions [] = []
pending_sessions ((_, s) ∷ rest) =
    let more = pending_sessions rest in if is_pending s.state then s ∷ more else more

module _ {D : Type 0} (host : Host D) where
  -- The loop of `cleanupPartials`.
  unfoldable pub remove_partials : Map File → D → D
  remove_partials [] d = d
  remove_partials ((_, f) ∷ rest) d =
      remove_partials rest
        (if not (str_eq f.part_path []) && not f.done then host.remove d f.part_path else d)

  unfoldable pub cleanup_partials : Str → Manager → D → D
  cleanup_partials sid m d = elim (lookup sid m.sessions) [
    | none ↦ d
    | some s ↦ remove_partials s.files d
  ]

  unfoldable pub fail : Str → Fault → Manager → D → Manager × D
  fail sid e m d = (set_state sid failed (some e) m, cleanup_partials sid m d)

  -- CancelSession: only a pending or accepted session is changed.
  unfoldable pub cancel_session : Str → Manager → D → Manager × D
  cancel_session sid m d = elim (lookup sid m.sessions) [
    | none ↦ (m, d)
    | some s ↦
        if is_pending s.state || is_accepted s.state
        then (
          set_state sid cancelled none (modify sid (λ s. record s { stopped = true }) m),
          cleanup_partials sid m d,
        )
        else (m, d)
  ]
