-- ===== src/Transfer/Ended.antt =====
-- `run` of internal/transfer/manager.go comes to an end.
use localsend_nas.Prelude.{
  ℕ, true, List, [], ◌∷◌, Option, none, some, is_some, Str, Map, str_eq_refl, lookup, All,
  Bool-cases, Option-cases, Result, ok, err, ◌==◌, ◌≡◌, refl, ap, ◌∙◌, inl, inr, arith,
  if◌then◌else◌,
}
use localsend_nas.LocalSend.{Info, PrepareRequest, PrepareResponse}
use localsend_nas.Transfer.{
  Entry, FileProgress, Manager, State, done, cancelled, failed, modify, broadcast, set_state,
  is_cancelled, is_ended,
}
use localsend_nas.Transfer.Run.{
  ClientError, Prepared, Progress, Uploaded, fail, on_progress, upload_one, upload_all,
  run_prepared, run,
}
use localsend_nas.Transfer.Shown.{apply, heap-modify}

module _ (id : Str) where
  abbrev Present : Manager → Type 0
  Present m = is_some (lookup id m.heap) ≡ true

  -- The job is there, and has ended.
  pub record Ended (m : Manager) : Type 0 where
    pub last : Entry
    pub known : lookup id m.heap ≡ some last
    pub over : is_ended last.job.state ≡ true

  -- What others do does not take the job from the heap.
  pub record Stays (f : Manager → Manager) : Type 0 where
    pub stays :
        (m : Manager) → is_some (lookup id m.heap) ≡ true → is_some (lookup id (f m).heap) ≡ true

  heap_self :
      (f : Entry → Entry) (m : Manager)
      → lookup id (modify id f m).heap ≡ apply f (lookup id m.heap)
  heap_self f m = heap-modify id f m id ∙ rw (str_eq_refl id) refl

  modify-Present : (f : Entry → Entry) (m : Manager) → Present m → Present (modify id f m)
  modify-Present f m h = ap is_some (heap_self f m) ∙ kept (lookup id m.heap) h
    where
      kept : (o : Option Entry) → is_some o ≡ true → is_some (apply f o) ≡ true
      kept none k = k
      kept (some e) k = refl

  broadcast-Present : (m : Manager) → Present m → Present (broadcast id m)
  unfolding broadcast
  broadcast-Present m h = modify-Present _ m h

  set_state-Present : (st : State) (m : Manager) → Present m → Present (set_state id st m)
  unfolding set_state
  set_state-Present st m h = broadcast-Present _ (modify-Present _ m h)

  -- A change to a state that has ended, and a broadcast.
  ended :
      (f : Entry → Entry) (m : Manager)
      → ((e : Entry) → is_ended (f e).job.state ≡ true)
      → Present m
      → Ended (broadcast id (modify id f m))
  unfolding broadcast
  ended f m k h = elim (Option-cases (lookup id m.heap)) [
    | inl q ↦ cc (h, q)
    | inr (e, q) ↦ record {
      last = _;
      known = heap_self _ (modify id f m) ∙ ap (apply _) (heap_self f m ∙ ap (apply f) q);
      over = k e;
    }
  ]

  done-Ended : (m : Manager) → Present m → Ended (set_state id done m)
  unfolding set_state
  done-Ended m h = ended _ m (λ e. refl) h

  fail-Ended : (c : ClientError) (m : Manager) → Present m → Ended (fail id c m)
  unfolding fail
  fail-Ended c m h = ended _ m (λ e. over e) h
    where
      over :
          (e : Entry)
          → is_ended
              (if is_cancelled e.job.state
                then record e { job = record (e.job) { state = cancelled; error = [] } }
                else if c.is_cancel
                then record e { job = record (e.job) { state = cancelled; error = [] } }
                else record e { job = record (e.job) { state = failed; error = c.text } }).job.state
            ≡ true
      over e = ground arith

  abbrev Calm : List Progress → Type 0
  Calm ps = All (λ p. Stays p.meanwhile) ps

  upload_one-Present :
      (fid : Str) (ps : List Progress) (m : Manager)
      → Calm ps
      → Present m
      → Present (upload_one id fid ps m)
  unfolding upload_one on_progress
  upload_one-Present fid [] m c h = h
  upload_one-Present fid (p ∷ ps) m (c, cs) h = upload_one-Present fid ps _ cs (
      c.stays _ (elim (Bool-cases p.due) [
        | inl q ↦ rw q (broadcast-Present _ (modify-Present _ m h))
        | inr q ↦ rw q (modify-Present _ m h)
      ]))

  -- The uploads of the client let the job stay.
  pub record Gentle (upload : FileProgress → Str → Uploaded) : Type 0 where
    pub calm :
        (f : FileProgress) (token : Str) → All (λ p. Stays p.meanwhile) (upload f token).progress

  upload_all-Ended :
      (upload : FileProgress → Str → Uploaded) (tokens : Map Str) (fs : List FileProgress)
      (m : Manager)
      → Gentle upload
      → Present m
      → Ended (upload_all id upload tokens fs m)
  unfolding upload_all
  upload_all-Ended upload tokens [] m g h = done-Ended m h
  upload_all-Ended upload tokens (f ∷ fs) m g h = elim (Option-cases (lookup f.id tokens)) [
    | inl q ↦ rw (q, upload_all) (upload_all-Ended upload tokens fs m g h)
    | inr (t, q) ↦
        let k = upload_one-Present f.id (upload f t).progress m (g.calm f t) h in
        elim (Option-cases (upload f t).error) [
          | inr (c, e) ↦ rw (q, upload_all, e) (fail-Ended c _ k)
          | inl e ↦
              rw (q, upload_all, e)
                (upload_all-Ended upload tokens fs _ g (broadcast-Present _ (modify-Present _ _ k)))
        ]
  ]

  run_prepared-Ended :
      (upload : FileProgress → Str → Uploaded) (fs : List FileProgress)
      (r : Result ClientError (PrepareResponse × ℕ)) (m : Manager)
      → Gentle upload
      → Present m
      → Ended (run_prepared id upload fs r m)
  unfolding run_prepared
  run_prepared-Ended upload fs (err c) m g h = fail-Ended c m h
  run_prepared-Ended upload fs (ok (resp, status)) m g h = elim (Bool-cases (status == 204)) [
    | inl q ↦ rw q (done-Ended m h)
    | inr q ↦ rw q (upload_all-Ended upload resp.files fs _ g (set_state-Present _ m h))
  ]

  -- The worker of a job brings it to an end, done, failed or cancelled, whatever the receiver answers
  -- and wherever an upload fails, if what others do meanwhile leaves the job in the heap.
  pub run-Ended :
      (mime : Str → Str) (info : Info) (prepare : PrepareRequest → Prepared)
      (upload : FileProgress → Str → Uploaded) (m : Manager) (e : Entry)
      → ((req : PrepareRequest) → Stays (prepare req).meanwhile)
      → Gentle upload
      → lookup id m.heap ≡ some e
      → Ended (run mime info prepare upload id m)
  unfolding run
  run-Ended mime info prepare upload m e p g h = elim (Bool-cases (is_cancelled e.job.state)) [
    | inl c ↦ rw (h, run, c) (record { last = e; known = h; over = ground arith })
    | inr c ↦
        rw (h, run, c)
          (run_prepared-Ended upload e.job.files _ _ g (
            (p _).stays _
              (set_state-Present _ _ (set_state-Present _ _ (modify-Present _ m (ap is_some h))))))
  ]
