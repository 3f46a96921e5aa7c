-- ===== src/Transfer/Cancel.antt =====
-- `Cancel` and `run` of internal/transfer/manager.go.
use localsend_nas.Prelude.{
  true, none, some, Str, str_eq, str_eq_refl, lookup, Bool-cases, Option-cases, ◌≡◌, refl, ◌∙◌,
  arith, inl, inr,
}
use localsend_nas.LocalSend.{Info, PrepareRequest}
use localsend_nas.Transfer.{
  Entry, FileProgress, cancelled, Manager, find, modify, broadcast, cancel, is_cancelled, is_ended,
  receive_direction, stop_context,
}
use localsend_nas.Transfer.Run.{Prepared, Uploaded, run}
use localsend_nas.Transfer.Shown.{heap-modify}

find-heap : (id : Str) (m : Manager) (x : Entry) → find id m ≡ some x → lookup id m.heap ≡ some x
unfolding find
find-heap id m x h = ground arith

abbrev to_cancelled : Entry → Entry
to_cancelled e = record e { job = record (e.job) { state = cancelled } }

-- The three changes of `Cancel` leave the job cancelled.
stopped-heap :
    (id : Str) (m : Manager) (x : Entry)
    → lookup id m.heap ≡ some x
    → (y : Entry) × (lookup id
          (modify id stop_context (broadcast id (modify id to_cancelled m))).heap
        ≡ some y)
      × (is_cancelled y.job.state ≡ true)
unfolding broadcast
stopped-heap id m x h =
    (_, heap_self id _ _ _ (heap_self id _ _ _ (heap_self id to_cancelled m x h)), refl)
  where
    heap_self :
        (id : Str) (f : Entry → Entry) (m : Manager) (x : Entry)
        → lookup id m.heap ≡ some x
        → lookup id (modify id f m).heap ≡ some (f x)
    heap_self id f m x h = heap-modify id f m id ∙ rw (str_eq_refl id, h) refl

cancel-cancelled :
    (id : Str) (m : Manager)
    → (cancel id m).0 ≡ (true, none)
    → (y : Entry) × (lookup id (cancel id m).1.heap ≡ some y) × (is_cancelled y.job.state ≡ true)
unfolding cancel
cancel-cancelled id m h = elim (Option-cases (find id m)) [
  | inl e ↦ cc (h, rw (e, cancel) at h)
  | inr (x, e) ↦ elim (Bool-cases (str_eq x.job.direction receive_direction)) [
    | inl d ↦ elim (Bool-cases m.cancel_receive) [
      | inl c ↦ cc (h, rw (e, cancel, d, c) at h)
      | inr c ↦ cc (h, rw (e, cancel, d, c) at h)
    ]
    | inr d ↦ elim (Bool-cases (is_ended x.job.state)) [
      | inl c ↦ cc (h, rw (e, cancel, d, c) at h)
      | inr c ↦ rw (e, cancel, d, c) (stopped-heap id m x (find-heap id m x e))
    ]
  ]
]

-- A job of the sending side that `Cancel` reports as cancelled before its worker takes it is never
-- started: `run` leaves everything as it is.
pub cancel-run :
    (mime : Str → Str) (info : Info) (prepare : PrepareRequest → Prepared)
    (upload : FileProgress → Str → Uploaded) (id : Str) (m : Manager)
    → (cancel id m).0 ≡ (true, none)
    → run mime info prepare upload id (cancel id m).1 ≡ (cancel id m).1
unfolding run
cancel-run mime info prepare upload id m h =
    let (y, e, c) = cancel-cancelled id m h in rw (e, run, c) refl
