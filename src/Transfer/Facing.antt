-- ===== src/Transfer/Facing.antt =====
-- The directions of the jobs in the list of internal/transfer/manager.go, and what the hooks and the
-- other operations leave of them and of the states.
use localsend_nas.Prelude.{
  ℕ, Bool, true, false, ℤ, List, [], Option, none, some, Str, str_eq, str_eq_iff, lookup-insert,
  length, ltb, Result, ok, err, Bool-cases, Option-cases, if◌then◌else◌, ◌≡◌, refl, sym, ap, ◌∙◌,
  inl, inr, arith,
}
use localsend_nas.Receive
use localsend_nas.Receive.{
  Fault, Hook, receive_registered, receive_state, receive_progress, receive_file_done, Session,
}
use localsend_nas.Discovery.{Device}
use localsend_nas.Transfer.{
  Entry, Manager, find, modify, broadcast, enter, receive_direction, subscribe, unsubscribe,
  channel_size,
}
use localsend_nas.Transfer.Hooks.{job_of, call, on_state, on_registered, on_progress, on_file_done}
use localsend_nas.Transfer.Expand.{ExpandError, Work}
use localsend_nas.Transfer.Run.{send, enqueue, new_job, queue_of, is_empty}
use localsend_nas.Transfer.Listing.{manager-eq}
use localsend_nas.Transfer.Shown.{
  apply, find-modify, state_of, shown, shown-modify_keeps, shown-broadcast, shown-enter,
}

abbrev pub direction_of : Option Entry → Option Str
direction_of none = none
direction_of (some e) = some e.job.direction

abbrev pub facing : Str → Manager → Option Str
facing j m = direction_of (find j m)

pub facing-modify :
    (id : Str) (f : Entry → Entry) (m : Manager) (j : Str)
    → ((e : Entry) → (f e).job.direction ≡ e.job.direction)
    → facing j (modify id f m) ≡ facing j m
facing-modify id f m j h = elim (Bool-cases (str_eq id j)) [
  | inr e ↦ rw (find-modify id f m j, e) refl
  | inl e ↦ rw (find-modify id f m j, e) (kept (find j m))
]
  where
    kept : (o : Option Entry) → direction_of (apply f o) ≡ direction_of o
    kept none = refl
    kept (some e) = ap some (h e)

pub facing-broadcast : (id : Str) (m : Manager) (j : Str) → facing j (broadcast id m) ≡ facing j m
unfolding broadcast
facing-broadcast id m j = facing-modify id _ m j (λ e. refl)

facing-enter :
    (e : Entry) (m : Manager) (j : Str)
    → facing j (enter e m) ≡ (if str_eq e.job.id j then some e.job.direction else facing j m)
unfolding find
facing-enter e m j =
    rw (lookup-insert e.job.id j e m.heap)
      (ground (arith, str_eq_iff j e.job.id, str_eq_iff e.job.id j))

facing-notified :
    (m : Manager) (jobs : List _) (j : Str) → facing j (record m { notified = jobs }) ≡ facing j m
unfolding find
facing-notified m jobs j = refl

-- What a call of a hook makes of the direction.
abbrev pub turned : Str → Hook → Option Str → Option Str
turned j (receive_registered s) o = if str_eq s.id j then some receive_direction else o
turned j _ o = o

module _ (message : Fault → Str) (due : Hook → Bool) where
  facing-registered :
      (s : Session) (m : Manager) (j : Str)
      → facing j (on_registered s m) ≡ turned j (receive_registered s) (facing j m)
  unfolding on_registered
  facing-registered s m j =
      let e : Entry = record { job = job_of s; subs = []; context = none } in
      facing-notified (broadcast s.id (enter e m)) _ j
      ∙ facing-broadcast s.id (enter e m) j
      ∙ facing-enter e m j

  facing-state :
      (id : Str) (st : Receive.State) (e : Option Fault) (m : Manager) (j : Str)
      → facing j (on_state message id st e m) ≡ facing j m
  unfolding on_state
  facing-state id st e m j = elim (Option-cases (find id m)) [
    | inl q ↦ rw (q, on_state) refl
    | inr (x, q) ↦ rw (q, on_state) (facing-broadcast id _ j ∙ facing-modify id _ m j (λ e. refl))
  ]

  facing-progress :
      (now : Bool) (id fid : Str) (delta : ℤ) (m : Manager) (j : Str)
      → facing j (on_progress message now id fid delta m) ≡ facing j m
  unfolding on_progress
  facing-progress now id fid delta m j = elim (Option-cases (find id m)) [
    | inl q ↦ rw (q, on_progress) refl
    | inr (x, q) ↦ elim (Bool-cases now) [
      | inl n ↦
          rw (q, on_progress, n) (facing-broadcast id _ j ∙ facing-modify id _ m j (λ e. refl))
      | inr n ↦ rw (q, on_progress, n) (facing-modify id _ m j (λ e. refl))
    ]
  ]

  facing-file_done :
      (id fid : Str) (m : Manager) (j : Str) → facing j (on_file_done message id fid m) ≡ facing j m
  unfolding on_file_done
  facing-file_done id fid m j = elim (Option-cases (find id m)) [
    | inl q ↦ rw (q, on_file_done) refl
    | inr (x, q) ↦
        rw (q, on_file_done) (facing-broadcast id _ j ∙ facing-modify id _ m j (λ e. refl))
  ]

  pub facing-call :
      (h : Hook) (m : Manager) (j : Str)
      → facing j (call message (due h) h m) ≡ turned j h (facing j m)
  facing-call (receive_registered s) m j = facing-registered s m j
  facing-call (receive_state id st e) m j = facing-state id st e m j
  facing-call (receive_progress id fid delta) m j = facing-progress _ id fid delta m j
  facing-call (receive_file_done id fid) m j = facing-file_done id fid m j

-- Two managers show the same of a job.
pub record AreAlike (j : Str) (m m' : Manager) : Type 0 where
  pub state : shown j m' ≡ shown j m
  pub direction : facing j m' ≡ facing j m

pub subscribe-AreAlike :
    (sub : ℕ) (id : Str) (m : Manager) (j : Str) → AreAlike j m (subscribe sub id m).1
unfolding subscribe
subscribe-AreAlike sub id m j = elim (Option-cases (find id m)) [
  | inl q ↦ rw (q, subscribe) (record { state = refl; direction = refl })
  | inr (x, q) ↦
      rw (q, subscribe)
        (record {
          state = shown-modify_keeps id _ m j (λ e. refl);
          direction = facing-modify id _ m j (λ e. refl);
        })
]

pub unsubscribe-AreAlike :
    (sub : ℕ) (id : Str) (m : Manager) (j : Str) → AreAlike j m (unsubscribe sub id m)
unfolding unsubscribe
unsubscribe-AreAlike sub id m j = record {
  state = shown-modify_keeps id _ m j (λ e. refl);
  direction = facing-modify id _ m j (λ e. refl);
}

pub same-AreAlike : (j : Str) {m m' : Manager} → m ≡ m' → AreAlike j m m'
same-AreAlike j e = record { state = ap (shown j) (sym e); direction = ap (facing j) (sym e) }

-- A change of a job leaves the others alone.
pub modify-AreAlike :
    (id : Str) (f : Entry → Entry) (m : Manager) (j : Str)
    → str_eq id j ≡ false
    → AreAlike j m (modify id f m)
modify-AreAlike id f m j n =
    let same : find j (modify id f m) ≡ find j m = find-modify id f m j ∙ (rw n refl) in
    record { state = ap state_of same; direction = ap direction_of same }

pub broadcast-AreAlike : (id : Str) (m : Manager) (j : Str) → AreAlike j m (broadcast id m)
broadcast-AreAlike id m j = record {
  state = shown-broadcast id m j;
  direction = facing-broadcast id m j;
}

pub AreAlike-trans :
    {j : Str} {m m1 m' : Manager} → AreAlike j m m1 → AreAlike j m1 m' → AreAlike j m m'
AreAlike-trans h k = record { state = k.state ∙ h.state; direction = k.direction ∙ h.direction }

-- A job that is entered leaves the others alone.
enqueue-AreAlike :
    (target : Str) (e : Entry) (m : Manager) (j : Str)
    → str_eq e.job.id j ≡ false
    → AreAlike j m (enqueue target e m).1
unfolding enqueue find
enqueue-AreAlike target e m j n =
    elim (Bool-cases (ltb (length (queue_of target m)) channel_size)) [
      | inl q ↦ rw (q, enqueue) (record { state = entered.state; direction = entered.direction })
      | inr q ↦
          rw (q, enqueue)
            (AreAlike-trans (record { state = entered.state; direction = entered.direction })
              (modify-AreAlike e.job.id _ _ j n))
    ]
  where
    entered : AreAlike j m (enter e m)
    entered = record {
      state = shown-enter e m j ∙ (rw n refl);
      direction = facing-enter e m j ∙ (rw n refl);
    }

pub send-AreAlike :
    (device : Option Device) (target : Str) (no_items : Bool) (work : Work) (id : Str) (now : ℕ)
    (m m' : Manager) (r : Result ExpandError Str) (j : Str)
    → str_eq id j ≡ false
    → send device target no_items work id now m ≡ some (r, m')
    → AreAlike j m m'
unfolding send
send-AreAlike none target no_items work id now m m' r j n e = same-AreAlike j (manager-eq e)
send-AreAlike (some dev) target true work id now m m' r j n e = same-AreAlike j (manager-eq e)
send-AreAlike (some dev) target false none id now m m' r j n e = cc
send-AreAlike (some dev) target false (some (err x)) id now m m' r j n e =
    same-AreAlike j (manager-eq e)
send-AreAlike (some dev) target false (some (ok b)) id now m m' r j n e =
    elim (Bool-cases (is_empty b.files)) [
      | inl q ↦ same-AreAlike j (manager-eq (rw (q, send) at e))
      | inr q ↦
          rw (sym (manager-eq (rw (q, send) at e)))
            (enqueue-AreAlike target (new_job id target dev now b) m j n)
    ]
