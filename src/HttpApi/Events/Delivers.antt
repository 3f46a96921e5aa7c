-- ===== src/HttpApi/Events/Delivers.antt =====
-- What the clients of the global stream of internal/httpapi/api.go get from `BroadcastJob`.
use mathlib.Core.Option.{some-injective}
use mathlib.Core.List.{append-nil, append_assoc}
use localsend_nas.Prelude.{
  ℕ, zero, suc, true, false, List, [], ◌∷◌, ◌++◌, Option, none, some, length, take, All, Bool-cases,
  ltb, ◌==◌, if◌then◌else◌, ◌≡◌, refl, sym, ap, ◌∙◌, arith, inl, inr,
}
use localsend_nas.Transfer.{Job, channel_size, send_all, without}
use localsend_nas.HttpApi.{Api}
use localsend_nas.HttpApi.Events.{
  Notice, joins, leaves, takes, publishes, notices, take_event, broadcast_job, connect,
}

-- What the channel of a client holds.
abbrev pub held : ℕ → List (ℕ × List Job) → Option (List Job)
held c [] = none
held c ((k, jobs) ∷ rest) = if k == c then some jobs else held c rest

-- The jobs that are published, in order.
abbrev pub published : List Notice → List Job
published [] = []
published (joins _ ∷ ns) = published ns
published (leaves _ ∷ ns) = published ns
published (takes _ ∷ ns) = published ns
published (publishes j ∷ ns) = j ∷ published ns

-- The client neither comes again, nor leaves, nor reads.
abbrev pub IsIdle : ℕ → Notice → Type 0
IsIdle c (joins k) = (k == c) ≡ false
IsIdle c (leaves k) = (k == c) ≡ false
IsIdle c (takes k) = (k == c) ≡ false
IsIdle c (publishes _) = Unit

held-joined :
    (c k : ℕ) (cs : List (ℕ × List Job))
    → (k == c) ≡ false
    → held c (cs ++ (k, []) ∷ []) ≡ held c cs
held-joined c k [] h = rw h refl
held-joined c k ((i, jobs) ∷ cs) h =
    ap (λ r. if i == c then some jobs else r) (held-joined c k cs h)

held-connected :
    (c : ℕ) (cs : List (ℕ × List Job)) → held c cs ≡ none → held c (cs ++ (c, []) ∷ []) ≡ some []
held-connected c [] h = ground arith
held-connected c ((i, jobs) ∷ cs) h = elim (Bool-cases (i == c)) [
  | inl q ↦ cc (h, rw q at h)
  | inr q ↦ rw q (held-connected c cs (rw q at h))
]

held-without :
    (c k : ℕ) (cs : List (ℕ × List Job)) → (k == c) ≡ false → held c (without k cs) ≡ held c cs
held-without c k [] h = refl
held-without c k ((i, jobs) ∷ cs) h = elim (Bool-cases (i == k)) [
  | inl q ↦
      let other : (i == c) ≡ false = ground (arith, q, h) in rw (q, other) (held-without c k cs h)
  | inr q ↦ rw q (ap (λ r. if i == c then some jobs else r) (held-without c k cs h))
]

held-take_event :
    (c k : ℕ) (cs : List (ℕ × List Job)) → (k == c) ≡ false → held c (take_event k cs) ≡ held c cs
unfolding take_event
held-take_event c k [] h = refl
held-take_event c k ((i, jobs) ∷ cs) h = elim (Bool-cases (i == k)) [
  | inl q ↦ let other : (i == c) ≡ false = ground (arith, q, h) in rw (take_event, q, other) refl
  | inr q ↦
      rw (take_event, q) (ap (λ r. if i == c then some jobs else r) (held-take_event c k cs h))
]

-- A channel takes a job if it has room.
abbrev offered : Job → List Job → List Job
offered j jobs = if ltb (length jobs) channel_size then jobs ++ j ∷ [] else jobs

held-send_all :
    (c : ℕ) (j : Job) (cs : List (ℕ × List Job)) (jobs : List Job)
    → held c cs ≡ some jobs
    → held c (send_all j cs) ≡ some (offered j jobs)
held-send_all c j [] jobs h = cc
held-send_all c j ((i, old) ∷ cs) jobs h = elim (Bool-cases (i == c)) [
  | inl q ↦
      let same : old ≡ jobs = some-injective _ _ (rw q at h) in
      elim (Bool-cases (ltb (length old) channel_size)) [
        | inl r ↦ rw (sym same, r, q) refl
        | inr r ↦ rw (sym same, r, q) refl
      ]
  | inr q ↦
      let later = held-send_all c j cs jobs (rw q at h) in
      elim (Bool-cases (ltb (length old) channel_size)) [
        | inl r ↦ rw (r, q) later
        | inr r ↦ rw (r, q) later
      ]
]

take-nil : (n : ℕ) → take {A = Job} n [] ≡ []
take-nil zero = refl
take-nil (suc n) = refl

take-offered :
    (n : ℕ) (sent : List Job) (j : Job)
    → (if ltb (length (take n sent)) n then take n sent ++ j ∷ [] else take n sent)
      ≡ take n (sent ++ j ∷ [])
take-offered zero sent j = refl
take-offered (suc n) [] j =
    let room : ltb 0 (suc n) ≡ true = ground arith in rw room (ap (λ r. j ∷ r) (sym (take-nil n)))
take-offered (suc n) (x ∷ sent) j =
    let later = take-offered n sent j in
    elim (Bool-cases (ltb (length (take n sent)) n)) [
      | inl q ↦
          let more : ltb (suc (length (take n sent))) (suc n) ≡ true = ground (arith, q) in
          rw more (ap (λ r. x ∷ r) (rw q at later))
      | inr q ↦
          let full : ltb (suc (length (take n sent))) (suc n) ≡ false = ground (arith, q) in
          rw full (ap (λ r. x ∷ r) (rw q at later))
    ]

held-notices :
    (c : ℕ) (ns : List Notice) (a : Api) (sent : List Job)
    → held c a.events ≡ some (take channel_size sent)
    → All (IsIdle c) ns
    → held c (notices ns a).events ≡ some (take channel_size (sent ++ published ns))
unfolding notices broadcast_job
held-notices c [] a sent h k = h ∙ ap (λ r. some (take channel_size r)) (sym (append-nil sent))
held-notices c (joins i ∷ ns) a sent h (k, ks) =
    held-notices c ns _ sent (held-joined c i a.events k ∙ h) ks
held-notices c (leaves i ∷ ns) a sent h (k, ks) =
    held-notices c ns _ sent (held-without c i a.events k ∙ h) ks
held-notices c (takes i ∷ ns) a sent h (k, ks) =
    held-notices c ns _ sent (held-take_event c i a.events k ∙ h) ks
held-notices c (publishes j ∷ ns) a sent h (k, ks) =
    held-notices c ns _ (sent ++ j ∷ [])
      (held-send_all c j a.events _ h ∙ ap some (take-offered channel_size sent j)) ks
    ∙ ap (λ r. some (take channel_size r)) (append_assoc sent (j ∷ []) (published ns))

-- A new client of the global stream that reads nothing holds the first 32 of the jobs that are
-- published after it came, in order, and none but these, whatever other clients come, go or read.
pub notices-delivers :
    (c : ℕ) (ns : List Notice) (a : Api)
    → held c a.events ≡ none
    → All (IsIdle c) ns
    → held c (notices ns (connect c a)).events ≡ some (take 32 (published ns))
notices-delivers c ns a fresh idle =
    held-notices c ns (connect c a) [] (held-connected c a.events fresh) idle
