-- ===== src/Transfer/Agree.antt =====
-- The job list of internal/transfer/manager.go itself beside the sessions: jobs may have been removed
-- from it, and it holds jobs of the sending side too.
use mathlib.Core.Path.{subst}
use mathlib.Core.Option.{some-injective}
use localsend_nas.Prelude.{
  Bool, true, false, List, [], ◌∷◌, ◌++◌, Option, none, some, Str, str_eq, str_eq_iff, Bool-cases,
  Option-cases, if◌then◌else◌, ◌≡◌, refl, sym, ap, ◌∙◌, inl, inr, arith,
}
use localsend_nas.Receive
use localsend_nas.Receive.{
  Fault, Hook, receive_registered, receive_state, receive_progress, receive_file_done,
}
use localsend_nas.Transfer.{
  State, Entry, Manager, awaiting_accept, receive_direction, find, modify, broadcast, cancel,
  cancelled, CancelResult, is_ended, stop_context, new,
}
use localsend_nas.Transfer.Hooks.{call, job_state}
use localsend_nas.Transfer.Shown.{shown, replay, seen, shown-call}
use localsend_nas.Transfer.Mirror.{Mirrors, expected}
use localsend_nas.Transfer.Facing.{
  facing, direction_of, turned, facing-call, AreAlike, modify-AreAlike, AreAlike-trans,
  broadcast-AreAlike,
}

-- What the list shows of a session: the state of the session on a received job, or nothing, which
-- only a removal explains.
pub data Agrees (removed : Type 0) : Option State → Option State → Option Str → Type 0 where
  no_session : (sh : Option State) (fc : Option Str) → Agrees removed none sh fc
  listed : (st : State) → Agrees removed (some st) (some st) (some receive_direction)
  gone : (st : State) → removed → Agrees removed (some st) none none

Agrees-seen :
    (removed : Type 0) (j : Str) (h : Hook) (ex sh : Option State) (fc : Option Str)
    → Agrees removed ex sh fc
    → Agrees removed (seen j h ex) (seen j h sh) (turned j h fc)
Agrees-seen removed j (receive_registered s) ex sh fc a = elim (Bool-cases (str_eq s.id j)) [
  | inl q ↦ rw q (listed awaiting_accept)
  | inr q ↦ rw q a
]
Agrees-seen removed j (receive_state id st e) ex sh fc a = elim (Bool-cases (str_eq id j)) [
  | inl q ↦ rw q (set ex sh fc a)
  | inr q ↦ rw q a
]
  where
    set :
        (ex sh : Option State) (fc : Option Str)
        → Agrees removed ex sh fc
        → Agrees removed
            (elim ex [ none ↦ none | some _ ↦ some (job_state st) ])
            (elim sh [ none ↦ none | some _ ↦ some (job_state st) ])
            fc
    set _ _ _ (no_session sh fc) = no_session _ fc
    set _ _ _ (listed old) = listed (job_state st)
    set _ _ _ (gone old r) = gone (job_state st) r
Agrees-seen removed j (receive_progress id fid delta) ex sh fc a = a
Agrees-seen removed j (receive_file_done id fid) ex sh fc a = a

module _ (removed : Str → Type 0) where
  -- The list agrees with every session.
  pub record Tracks (m : Receive.Manager) (tm : Manager) : Type 0 where
    pub agrees : (j : Str) → Agrees (removed j) (expected j m) (shown j tm) (facing j tm)

  pub Tracks-alike :
      (m : Receive.Manager) (tm tm' : Manager)
      → ((j : Str) → AreAlike j tm tm')
      → Tracks m tm
      → Tracks m tm'
  Tracks-alike m tm tm' k t = record {
    agrees = λ j. rw ((k j).state, (k j).direction) (t.agrees j);
  }

  -- A cancellation in the web UI leaves the jobs of sessions to the receive pipeline.
  pub Tracks-cancel :
      (id : Str) (m : Receive.Manager) (tm : Manager) → Tracks m tm → Tracks m (cancel id tm).1
  unfolding cancel
  Tracks-cancel id m tm t = elim (Option-cases (find id tm)) [
    | inl q ↦ rw (q, cancel) t
    | inr (x, q) ↦ elim (Bool-cases (str_eq x.job.direction receive_direction)) [
      | inl r ↦ rw (q, cancel, r) (either tm.cancel_receive _ _ t t)
      | inr r ↦ elim (Bool-cases (is_ended x.job.state)) [
        | inl c ↦ rw (q, cancel, r, c) t
        | inr c ↦ rw (q, cancel, r, c) (outbound x q r)
      ]
    ]
  ]
    where
      either :
          (b : Bool) (x y : CancelResult × Manager)
          → Tracks m x.1
          → Tracks m y.1
          → Tracks m (if b then x else y).1
      either true x y h k = h
      either false x y h k = k

      foreign :
          (ex sh : Option State) (fc : Option Str) (x : Entry)
          → Agrees (removed id) ex sh fc
          → fc ≡ some x.job.direction
          → str_eq x.job.direction receive_direction ≡ false
          → (sh' : Option State) (fc' : Option Str) → Agrees (removed id) ex sh' fc'
      foreign _ _ _ x (no_session sh fc) e r sh' fc' = no_session sh' fc'
      foreign _ _ _ x (listed st) e r sh' fc' =
          absurd
            (ground (arith, some-injective _ _ e, r, str_eq_iff x.job.direction receive_direction))
      foreign _ _ _ x (gone st k) e r sh' fc' = cc

      outbound :
          (x : Entry)
          → find id tm ≡ some x
          → str_eq x.job.direction receive_direction ≡ false
          → Tracks m (
              modify id stop_context (
                broadcast id
                  (modify id (λ e. record e { job = record (e.job) { state = cancelled } }) tm)))
      outbound x q r =
          let ended : Manager =
            modify id (λ e. record e { job = record (e.job) { state = cancelled } }) tm in
          let told : Manager = broadcast id ended in
          let after : Manager = modify id stop_context told in
          record {
            agrees = λ j. elim (Bool-cases (str_eq id j)) [
              | inl same ↦
                  subst (λ i. Agrees (removed i) (expected i m) (shown i after) (facing i after))
                    ((str_eq_iff id j).0 same)
                    (foreign (expected id m) (shown id tm) (facing id tm) x (t.agrees id)
                      (ap direction_of q) r (shown id after) (facing id after))
              | inr other ↦
                  let alike : AreAlike j tm after =
                    AreAlike-trans
                      (AreAlike-trans (modify-AreAlike id _ tm j other)
                        (broadcast-AreAlike id ended j))
                      (modify-AreAlike id stop_context told j other) in
                  rw (alike.state, alike.direction) (t.agrees j)
            ];
          }

module _ (message : Fault → Str) (due : Hook → Bool) where
  replay-both :
      (hs ks : List Hook) (tm : Manager)
      → replay message due (hs ++ ks) tm ≡ replay message due ks (replay message due hs tm)
  replay-both [] ks tm = refl
  replay-both (h ∷ hs) ks tm = replay-both hs ks (call message (due h) h tm)

  -- The states that hooks lead to.
  abbrev seen_all : Str → List Hook → Option State → Option State
  seen_all j [] o = o
  seen_all j (h ∷ hs) o = seen_all j hs (seen j h o)

  shown-replay :
      (j : Str) (hs : List Hook) (tm : Manager)
      → shown j (replay message due hs tm) ≡ seen_all j hs (shown j tm)
  shown-replay j [] tm = refl
  shown-replay j (h ∷ hs) tm =
      shown-replay j hs (call message (due h) h tm)
      ∙ ap (seen_all j hs) (shown-call message due h tm j)

  Agrees-replay :
      (removed : Type 0) (j : Str) (hs : List Hook) (ex : Option State) (tm : Manager)
      → Agrees removed ex (shown j tm) (facing j tm)
      → Agrees removed
          (seen_all j hs ex)
          (shown j (replay message due hs tm))
          (facing j (replay message due hs tm))
  Agrees-replay removed j [] ex tm a = a
  Agrees-replay removed j (h ∷ hs) ex tm a =
      Agrees-replay removed j hs (seen j h ex) (call message (due h) h tm) (
        rw (shown-call message due h tm j, facing-call message due h tm j)
          (Agrees-seen removed j h ex (shown j tm) (facing j tm) a))

  -- The list follows the pipeline when it takes up the hooks that the pipeline called.
  pub Tracks-replay :
      (removed : Str → Type 0) (m m' : Receive.Manager) (hooks : List Hook) (tm : Manager)
      → Mirrors message due m
      → Mirrors message due m'
      → m'.trace ≡ m.trace ++ hooks
      → Tracks removed m tm
      → Tracks removed m' (replay message due hooks tm)
  Tracks-replay removed m m' hooks tm i i' e t = record {
    agrees = λ j.
        let leads : expected j m' ≡ seen_all j hooks (expected j m) =
          sym (i'.follows j)
          ∙ ap (λ hs. shown j (replay message due hs new)) e
          ∙ ap (shown j) (replay-both m.trace hooks new)
          ∙ shown-replay j hooks (replay message due m.trace new)
          ∙ ap (seen_all j hooks) (i.follows j) in
        rw leads (Agrees-replay (removed j) j hooks (expected j m) tm (t.agrees j));
  }
