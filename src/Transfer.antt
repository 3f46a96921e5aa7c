-- ===== src/Transfer.antt =====
-- internal/transfer/manager.go: the job list. A job is reached through `heap` by its id, which is
-- what the program's pointers are; `jobs` and `order` are the manager's map and its order of
-- creation, which `Forget` shortens while a worker may still hold the job.
pub mod Expand
pub mod Run
pub mod Hooks
pub mod Jobs
pub mod Cancel
pub mod Counts
pub mod Depth
pub mod Ended
pub mod Shown
pub mod Facing
pub mod Mirror
pub mod Agree
pub mod Follow
pub mod Arrival
pub mod Reach
pub mod Listing
use localsend_nas.Prelude.{
  ℕ, Bool, true, false, not, ◌||◌, List, [], ◌∷◌, ◌++◌, Option, none, some, is_some, Str, codes,
  Map, ℤ, pos, str_eq, lookup, insert, delete, any, length, ltb, if◌then◌else◌, ◌==◌,
}

-- `other` is a session state that is none of the named ones.
pub data State : Type 0 where
  queued preparing awaiting_accept sending receiving done failed cancelled declined : State

pub record ItemRef : Type 0 where
  pub share : Str
  pub rel : Str

pub record FileProgress : Type 0 where
  pub id : Str
  pub name : Str
  pub share : Str
  pub rel : Str
  pub size : ℤ
  pub sent : ℤ
  pub done : Bool

pub record Job : Type 0 where
  pub id : Str
  pub direction : Str
  pub target_fp : Str
  pub alias : Str
  pub state : State
  pub error : Str
  pub files : List FileProgress
  pub total : ℤ
  pub sent : ℤ
  pub created_at : ℕ

-- A job with its subscribers, oldest first, each with what its channel holds; and the context of its
-- worker: `none` before it has one, then whether it was cancelled.
pub record Entry : Type 0 where
  pub job : Job
  pub subs : List (ℕ × List Job)
  pub context : Option Bool

pub record Manager : Type 0 where
  pub heap : Map Entry
  pub jobs : List Str
  pub order : List Str
  pub queues : Map (List Str)
  pub cancel_receive : Bool
  pub notified : List Job

-- New
abbrev pub new : Manager
new = record {
  heap = [];
  jobs = [];
  order = [];
  queues = [];
  cancel_receive = false;
  notified = [];
}

-- SetReceiveCancel
abbrev pub set_receive_cancel : Manager → Manager
set_receive_cancel m = record m { cancel_receive = true }

-- m.jobs[id]
unfoldable pub find : Str → Manager → Option Entry
find id m = if any (str_eq id) m.jobs then lookup id m.heap else none

-- A change of the object behind an id.
unfoldable pub modify : Str → (Entry → Entry) → Manager → Manager
modify id f m = elim (lookup id m.heap) [
  | none ↦ m
  | some e ↦ record m { heap = insert id (f e) m.heap }
]

abbrev pub channel_size : ℕ
channel_size = 32

-- A send that is dropped when the channel is full.
abbrev pub offer_to : Job → ℕ × List Job → ℕ × List Job
offer_to snap (sub, held) =
    (sub, if ltb (length held) channel_size then held ++ snap ∷ [] else held)

abbrev pub send_all : Job → List (ℕ × List Job) → List (ℕ × List Job)
send_all snap [] = []
send_all snap (sub ∷ subs) = offer_to snap sub ∷ send_all snap subs

-- broadcast, broadcastLocked
unfoldable pub broadcast : Str → Manager → Manager
broadcast id = modify id (λ e. record e { subs = send_all e.job e.subs })

abbrev pub with_state : State → Str → Entry → Entry
with_state st msg e = record e { job = record (e.job) { state = st; error = msg } }

-- setState
unfoldable pub set_state : Str → State → Manager → Manager
set_state id st m =
    broadcast id (modify id (λ e. record e { job = record (e.job) { state = st } }) m)

abbrev pub is_cancelled : State → Bool
is_cancelled cancelled = true
is_cancelled _ = false

-- The states in which `Cancel` does nothing.
abbrev pub is_ended : State → Bool
is_ended done = true
is_ended failed = true
is_ended cancelled = true
is_ended _ = false

-- The states in which `Forget` removes a job.
abbrev pub is_terminal : State → Bool
is_terminal declined = true
is_terminal st = is_ended st

-- A new job is entered: in the map and in the order.
abbrev pub enter : Entry → Manager → Manager
enter e m = record m {
  heap = insert e.job.id e m.heap;
  jobs = e.job.id ∷ m.jobs;
  order = m.order ++ e.job.id ∷ [];
}

-- List: newest first. An id without a job, on which the program would fail, is left out.
unfoldable pub list_from : Manager → List Str → List Job
list_from m [] = []
list_from m (id ∷ ids) =
    let rest = list_from m ids in elim (find id m) [ none ↦ rest | some e ↦ rest ++ e.job ∷ [] ]

abbrev pub list : Manager → List Job
list m = list_from m m.order

-- What `Cancel` answers: whether it was requested, and the session that the receive pipeline is told
-- to cancel.
abbrev pub CancelResult : Type 0
CancelResult = Bool × Option Str

abbrev pub receive_direction : Str
receive_direction = codes "receive"

abbrev pub stop_context : Entry → Entry
stop_context e = record e { context = elim e.context [ none ↦ none | some _ ↦ some true ] }

-- Cancel
unfoldable pub cancel : Str → Manager → CancelResult × Manager
cancel id m = elim (find id m) [
  | none ↦ ((false, none), m)
  | some e ↦
      if str_eq e.job.direction receive_direction
      then (if m.cancel_receive then ((true, some id), m) else ((false, none), m))
      else if is_ended e.job.state
      then ((false, none), m)
      else (
        (true, none),
        modify id stop_context (
            broadcast id
              (modify id (λ e. record e { job = record (e.job) { state = cancelled } }) m)),
      )
]

-- Without the first occurrence.
unfoldable pub remove_first : Str → List Str → List Str
remove_first id [] = []
remove_first id (j ∷ js) = let rest = remove_first id js in if str_eq j id then js else j ∷ rest

-- delete(m.jobs, id)
unfoldable pub remove_all : Str → List Str → List Str
remove_all id [] = []
remove_all id (j ∷ js) = let rest = remove_all id js in if str_eq j id then rest else j ∷ rest

-- Forget: whether the job was found, and whether it was removed.
unfoldable pub forget : Str → Manager → (Bool × Bool) × Manager
forget id m = elim (find id m) [
  | none ↦ ((false, false), m)
  | some e ↦
      if not (is_terminal e.job.state)
      then ((true, false), m)
      else ((true, true), record m { jobs = remove_all id m.jobs; order = remove_first id m.order })
]

-- Subscribe: the channel starts with the current snapshot. `sub` is the new subscriber.
unfoldable pub subscribe : ℕ → Str → Manager → Bool × Manager
subscribe sub id m = elim (find id m) [
  | none ↦ (false, m)
  | some _ ↦ (true, modify id (λ e. record e { subs = e.subs ++ (sub, e.job ∷ []) ∷ [] }) m)
]

-- The function that `Subscribe` returns: the subscriber goes, if it is there.
abbrev pub without : ℕ → List (ℕ × List Job) → List (ℕ × List Job)
without sub [] = []
without sub ((k, held) ∷ subs) =
    let rest = without sub subs in if k == sub then rest else (k, held) ∷ rest

unfoldable pub unsubscribe : ℕ → Str → Manager → Manager
unsubscribe sub id = modify id (λ e. record e { subs = without sub e.subs })
