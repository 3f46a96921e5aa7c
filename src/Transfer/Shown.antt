-- ===== src/Transfer/Shown.antt =====
-- The states that the job list of internal/transfer/manager.go shows, and what the hooks make of them.
use localsend_nas.Prelude.{
  Bool, ℤ, List, [], ◌∷◌, ◌++◌, Option, none, some, Str, str_eq, str_eq_iff, lookup, lookup-insert,
  any, Bool-cases, Option-cases, if◌then◌else◌, ◌≡◌, refl, ap, ◌∙◌, inl, inr, arith,
}
use localsend_nas.Receive
use localsend_nas.Receive.{
  Fault, Hook, receive_registered, receive_state, receive_progress, receive_file_done, Session,
}
use localsend_nas.Transfer.{
  State, Job, with_state, awaiting_accept, Entry, Manager, find, modify, broadcast, enter,
}
use localsend_nas.Transfer.Hooks.{
  job_of, job_state, call, on_state, on_registered, on_progress, on_file_done, error_text,
}

-- The state that the list shows for a job.
abbrev pub state_of : Option Entry → Option State
state_of none = none
state_of (some e) = some e.job.state

abbrev pub shown : Str → Manager → Option State
shown id m = state_of (find id m)

abbrev pub apply : (Entry → Entry) → Option Entry → Option Entry
apply f none = none
apply f (some e) = some (f e)

pub heap-modify :
    (id : Str) (f : Entry → Entry) (m : Manager) (j : Str)
    → lookup j (modify id f m).heap
      ≡ (if str_eq id j then apply f (lookup j m.heap) else lookup j m.heap)
unfolding modify
heap-modify id f m j = elim (Option-cases (lookup id m.heap)) [
  | inl e ↦ rw (e, modify) (ground (arith, str_eq_iff id j))
  | inr (x, e) ↦ rw (e, modify) (lookup-insert id j (f x) m.heap ∙ ground (arith, str_eq_iff id j))
]

pub jobs-modify : (id : Str) (f : Entry → Entry) (m : Manager) → (modify id f m).jobs ≡ m.jobs
unfolding modify
jobs-modify id f m = elim (Option-cases (lookup id m.heap)) [
  | inl e ↦ rw (e, modify) refl
  | inr (x, e) ↦ rw (e, modify) refl
]

pub find-modify :
    (id : Str) (f : Entry → Entry) (m : Manager) (j : Str)
    → find j (modify id f m) ≡ (if str_eq id j then apply f (find j m) else find j m)
unfolding find
find-modify id f m j = elim (Bool-cases (any (str_eq j) m.jobs)) [
  | inl e ↦ rw (jobs-modify id f m, e, heap-modify id f m j) refl
  | inr e ↦ rw (jobs-modify id f m, e) (ground arith)
]

-- A change that keeps the state shows nothing.
pub shown-modify_keeps :
    (id : Str) (f : Entry → Entry) (m : Manager) (j : Str)
    → ((e : Entry) → (f e).job.state ≡ e.job.state)
    → shown j (modify id f m) ≡ shown j m
shown-modify_keeps id f m j h = elim (Bool-cases (str_eq id j)) [
  | inr e ↦ rw (find-modify id f m j, e) refl
  | inl e ↦ rw (find-modify id f m j, e) (kept (find j m))
]
  where
    kept : (o : Option Entry) → state_of (apply f o) ≡ state_of o
    kept none = refl
    kept (some e) = ap some (h e)

-- A change that sets the state shows it.
pub shown-modify_sets :
    (id : Str) (f : Entry → Entry) (m : Manager) (j : Str) (st : State)
    → ((e : Entry) → (f e).job.state ≡ st)
    → shown j (modify id f m)
      ≡ (if str_eq id j then elim (shown j m) [ none ↦ none | some _ ↦ some st ] else shown j m)
shown-modify_sets id f m j st h = elim (Bool-cases (str_eq id j)) [
  | inr e ↦ rw (find-modify id f m j, e) refl
  | inl e ↦ rw (find-modify id f m j, e) (set (find j m))
]
  where
    set :
        (o : Option Entry)
        → state_of (apply f o) ≡ (elim (state_of o) [ none ↦ none | some _ ↦ some st ])
    set none = refl
    set (some e) = ap some (h e)

shown-notified :
    (m : Manager) (jobs : List Job) (j : Str) → shown j (record m { notified = jobs }) ≡ shown j m
unfolding find
shown-notified m jobs j = refl

pub shown-broadcast : (id : Str) (m : Manager) (j : Str) → shown j (broadcast id m) ≡ shown j m
unfolding broadcast
shown-broadcast id m j = shown-modify_keeps id _ m j (λ e. refl)

pub shown-enter :
    (e : Entry) (m : Manager) (j : Str)
    → shown j (enter e m) ≡ (if str_eq e.job.id j then some e.job.state else shown j m)
unfolding find
shown-enter e m j =
    rw (lookup-insert e.job.id j e m.heap)
      (ground (arith, str_eq_iff j e.job.id, str_eq_iff e.job.id j))

-- What a call of a hook makes of the shown state.
abbrev pub seen : Str → Hook → Option State → Option State
seen j (receive_registered s) o = if str_eq s.id j then some awaiting_accept else o
seen j (receive_state id st e) o =
    if str_eq id j then elim o [ none ↦ none | some _ ↦ some (job_state st) ] else o
seen j (receive_progress id fid delta) o = o
seen j (receive_file_done id fid) o = o

module _ (message : Fault → Str) (due : Hook → Bool) where
  -- The hooks that were called, in order.
  abbrev pub replay : List Hook → Manager → Manager
  replay [] m = m
  replay (h ∷ hs) m = replay hs (call message (due h) h m)

  pub replay-append :
      (hs : List Hook) (h : Hook) (m : Manager)
      → replay (hs ++ h ∷ []) m ≡ call message (due h) h (replay hs m)
  replay-append [] h m = refl
  replay-append (g ∷ hs) h m = replay-append hs h (call message (due g) g m)

  shown-registered :
      (s : Session) (m : Manager) (j : Str)
      → shown j (on_registered s m) ≡ seen j (receive_registered s) (shown j m)
  unfolding on_registered
  shown-registered s m j =
      let e : Entry = record { job = job_of s; subs = []; context = none } in
      shown-notified (broadcast s.id (enter e m)) _ j
      ∙ shown-broadcast s.id (enter e m) j
      ∙ shown-enter e m j

  shown-state :
      (id : Str) (st : Receive.State) (e : Option Fault) (m : Manager) (j : Str)
      → shown j (on_state message id st e m) ≡ seen j (receive_state id st e) (shown j m)
  unfolding on_state
  shown-state id st e m j = elim (Option-cases (find id m)) [
    | inl q ↦ rw (q, on_state) (ground (arith, str_eq_iff id j))
    | inr (x, q) ↦
        rw (q, on_state)
          (shown-broadcast id _ j
            ∙ shown-modify_sets id (with_state (job_state st) (error_text message e)) m j
                (job_state st) (λ e. refl))
  ]

  shown-progress :
      (now : Bool) (id fid : Str) (delta : ℤ) (m : Manager) (j : Str)
      → shown j (on_progress message now id fid delta m) ≡ shown j m
  unfolding on_progress
  shown-progress now id fid delta m j = elim (Option-cases (find id m)) [
    | inl q ↦ rw (q, on_progress) refl
    | inr (x, q) ↦ elim (Bool-cases now) [
      | inl n ↦
          rw (q, on_progress, n) (shown-broadcast id _ j ∙ shown-modify_keeps id _ m j (λ e. refl))
      | inr n ↦ rw (q, on_progress, n) (shown-modify_keeps id _ m j (λ e. refl))
    ]
  ]

  shown-file_done :
      (id fid : Str) (m : Manager) (j : Str) → shown j (on_file_done message id fid m) ≡ shown j m
  unfolding on_file_done
  shown-file_done id fid m j = elim (Option-cases (find id m)) [
    | inl q ↦ rw (q, on_file_done) refl
    | inr (x, q) ↦
        rw (q, on_file_done) (shown-broadcast id _ j ∙ shown-modify_keeps id _ m j (λ e. refl))
  ]

  pub shown-call :
      (h : Hook) (m : Manager) (j : Str) → shown j (call message (due h) h m) ≡ seen j h (shown j m)
  shown-call (receive_registered s) m j = shown-registered s m j
  shown-call (receive_state id st e) m j = shown-state id st e m j
  shown-call (receive_progress id fid delta) m j = shown-progress _ id fid delta m j
  shown-call (receive_file_done id fid) m j = shown-file_done id fid m j
