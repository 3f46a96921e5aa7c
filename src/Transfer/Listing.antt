-- ===== src/Transfer/Listing.antt =====
-- The order of the jobs in internal/transfer/manager.go under the operations that change jobs.
use mathlib.Core.Option.{some-injective}
use localsend_nas.Prelude.{
  ℕ, Bool, true, false, List, [], ◌∷◌, Option, none, some, is_some, if◌then◌else◌, Str, str_eq,
  str_eq_iff, lookup, lookup-insert, Map, any, Bool-cases, Option-cases, Result, ok, err, ltb,
  length, ◌≡◌, refl, sym, ap, ◌∙◌, arith, inl, inr,
}
use localsend_nas.Discovery.{Device}
use localsend_nas.Receive
use localsend_nas.Receive.{Fault, Hook, receive_state}
use localsend_nas.Transfer.{
  Entry, Manager, find, modify, broadcast, enter, cancel, subscribe, unsubscribe, channel_size,
  is_ended, receive_direction,
}
use localsend_nas.Transfer.Expand.{Work, ExpandError}
use localsend_nas.Transfer.Run.{enqueue, send, queue_of, is_empty, new_job}
use localsend_nas.Transfer.Hooks.{on_state}
use localsend_nas.Transfer.Jobs.{Listed, all_found, distinct, holds, enter-Listed}

lookup-modify_some :
    (id : Str) (f : Entry → Entry) (m : Manager) (j : Str)
    → is_some (lookup j (modify id f m).heap) ≡ is_some (lookup j m.heap)
unfolding modify
lookup-modify_some id f m j = elim (Option-cases (lookup id m.heap)) [
  | inl e ↦ rw (e, modify) refl
  | inr (x, e) ↦ elim (Bool-cases (str_eq id j)) [
    | inl q ↦
        let same : lookup j m.heap ≡ some x = rw⁻¹ ((str_eq_iff id j).0 q) e in
        rw (e, modify, lookup-insert id j (f x) m.heap, q, same) refl
    | inr q ↦ rw (e, modify, lookup-insert id j (f x) m.heap, q) refl
  ]
]

same_jobs : (id : Str) (f : Entry → Entry) (m : Manager) → (modify id f m).jobs ≡ m.jobs
unfolding modify
same_jobs id f m = elim (Option-cases (lookup id m.heap)) [
  | inl e ↦ rw (e, modify) refl
  | inr (x, e) ↦ rw (e, modify) refl
]

same_order : (id : Str) (f : Entry → Entry) (m : Manager) → (modify id f m).order ≡ m.order
unfolding modify
same_order id f m = elim (Option-cases (lookup id m.heap)) [
  | inl e ↦ rw (e, modify) refl
  | inr (x, e) ↦ rw (e, modify) refl
]

find-modify_some :
    (id : Str) (f : Entry → Entry) (m : Manager) (j : Str)
    → is_some (find j (modify id f m)) ≡ is_some (find j m)
unfolding find
find-modify_some id f m j =
    ap (λ jobs. is_some (if any (str_eq j) jobs then lookup j (modify id f m).heap else none))
      (same_jobs id f m)
    ∙ ground (arith, lookup-modify_some id f m j)

found-modify :
    (id : Str) (f : Entry → Entry) (m : Manager) (ids : List Str)
    → all_found (modify id f m) ids ≡ all_found m ids
found-modify id f m [] = refl
found-modify id f m (j ∷ ids) = rw (find-modify_some id f m j, found-modify id f m ids) refl

-- A change of a job leaves the order one of distinct jobs of the map.
pub modify-Listed : (id : Str) (f : Entry → Entry) (m : Manager) → Listed m → Listed (modify id f m)
modify-Listed id f m h = record {
  found =
      ap (all_found (modify id f m)) (same_order id f m) ∙ found-modify id f m m.order ∙ h.found;
  unique = ap distinct (same_order id f m) ∙ h.unique;
}

pub broadcast-Listed : (id : Str) (m : Manager) → Listed m → Listed (broadcast id m)
unfolding broadcast
broadcast-Listed id m h = modify-Listed id _ m h

pub on_state-Listed :
    (message : Fault → Str) (id : Str) (st : Receive.State) (e : Option Fault) (m : Manager)
    → Listed m
    → Listed (on_state message id st e m)
unfolding on_state
on_state-Listed message id st e m h = elim (Option-cases (find id m)) [
  | inl q ↦ rw (q, on_state) h
  | inr (x, q) ↦ rw (q, on_state) (broadcast-Listed id _ (modify-Listed id _ m h))
]

pub subscribe-Listed : (sub : ℕ) (id : Str) (m : Manager) → Listed m → Listed (subscribe sub id m).1
unfolding subscribe
subscribe-Listed sub id m h = elim (Option-cases (find id m)) [
  | inl q ↦ rw (q, subscribe) h
  | inr (x, q) ↦ rw (q, subscribe) (modify-Listed id _ m h)
]

pub unsubscribe-Listed :
    (sub : ℕ) (id : Str) (m : Manager) → Listed m → Listed (unsubscribe sub id m)
unfolding unsubscribe
unsubscribe-Listed sub id m h = modify-Listed id _ m h

Listed-if {ℓ} :
    {A : Type ℓ} (b : Bool) (x y : A × Manager)
    → Listed x.1
    → Listed y.1
    → Listed (if b then x else y).1
Listed-if true x y h k = h
Listed-if false x y h k = k

pub cancel-Listed : (id : Str) (m : Manager) → Listed m → Listed (cancel id m).1
unfolding cancel
cancel-Listed id m h = elim (Option-cases (find id m)) [
  | inl q ↦ rw (q, cancel) h
  | inr (x, q) ↦ elim (Bool-cases (str_eq x.job.direction receive_direction)) [
    | inl r ↦ rw (q, cancel, r) (Listed-if m.cancel_receive _ _ h h)
    | inr r ↦ elim (Bool-cases (is_ended x.job.state)) [
      | inl c ↦ rw (q, cancel, r, c) h
      | inr c ↦
          rw (q, cancel, r, c)
            (modify-Listed id _ _ (broadcast-Listed id _ (modify-Listed id _ m h)))
    ]
  ]
]

queues-Listed : (q : Map (List Str)) (m : Manager) → Listed m → Listed (record m { queues = q })
unfolding find
queues-Listed q m h = record { found = h.found; unique = h.unique }

pub enqueue-Listed :
    (target : Str) (e : Entry) (m : Manager)
    → holds e.job.id m.order ≡ false
    → Listed m
    → Listed (enqueue target e m).1
unfolding enqueue
enqueue-Listed target e m f h = elim (Bool-cases (ltb (length (queue_of target m)) channel_size)) [
  | inl q ↦ rw (q, enqueue) (queues-Listed _ (enter e m) (enter-Listed e m f h))
  | inr q ↦
      rw (q, enqueue)
        (modify-Listed e.job.id _ _ (queues-Listed _ (enter e m) (enter-Listed e m f h)))
]

pub manager-eq {ℓ} :
    {A : Type ℓ} {x : A × Manager} {r : A} {m : Manager} → some x ≡ some (r, m) → x.1 ≡ m
manager-eq h = ap (λ y. y.1) (some-injective _ _ h)

-- A call of `Send` with a fresh id, whatever it answers, leaves the order one of distinct jobs of the
-- map.
pub send-Listed :
    (device : Option Device) (target : Str) (no_items : Bool) (work : Work) (id : Str) (now : ℕ)
    (m m' : Manager) (r : Result ExpandError Str)
    → holds id m.order ≡ false
    → Listed m
    → send device target no_items work id now m ≡ some (r, m')
    → Listed m'
unfolding send
send-Listed none target no_items work id now m m' r f h e = rw (sym (manager-eq e)) h
send-Listed (some dev) target true work id now m m' r f h e = rw (sym (manager-eq e)) h
send-Listed (some dev) target false none id now m m' r f h e = cc
send-Listed (some dev) target false (some (err x)) id now m m' r f h e = rw (sym (manager-eq e)) h
send-Listed (some dev) target false (some (ok b)) id now m m' r f h e =
    elim (Bool-cases (is_empty b.files)) [
      | inl q ↦ rw (sym (manager-eq (rw (q, send) at e))) h
      | inr q ↦
          rw (sym (manager-eq (rw (q, send) at e)))
            (enqueue-Listed target (new_job id target dev now b) m f h)
    ]
