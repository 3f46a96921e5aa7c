-- ===== src/Transfer/Mirror.antt =====
-- The job list of internal/transfer/manager.go follows the sessions of internal/receive/receive.go
-- through the hooks.
use localsend_nas.Prelude.{
  Bool, Option, none, some, Str, str_eq, str_eq_iff, lookup, lookup-insert, Bool-cases,
  Option-cases, if◌then◌else◌, ◌≡◌, refl, sym, ap, ◌∙◌, inl, inr, arith,
}
use localsend_nas.Receive
use localsend_nas.Receive.{
  Fault, Hook, receive_registered, receive_state, receive_progress, receive_file_done, Session,
}
use localsend_nas.Receive.Prepare.{register}
use localsend_nas.Transfer.{State, new}
use localsend_nas.Transfer.Hooks.{job_state}
use localsend_nas.Transfer.Shown.{shown, seen, replay, replay-append, shown-call}

abbrev apply_session : (Session → Session) → Option Session → Option Session
apply_session f none = none
apply_session f (some s) = some (f s)

sessions-modify :
    (id : Str) (f : Session → Session) (m : Receive.Manager) (j : Str)
    → lookup j (Receive.modify id f m).sessions
      ≡ (if str_eq id j then apply_session f (lookup j m.sessions) else lookup j m.sessions)
unfolding Receive.modify
sessions-modify id f m j = elim (Option-cases (lookup id m.sessions)) [
  | inl e ↦ rw (e, Receive.modify) (ground (arith, str_eq_iff id j))
  | inr (s, e) ↦
      rw (e, Receive.modify) (lookup-insert id j (f s) m.sessions ∙ ground (arith, str_eq_iff id j))
]

pub trace-modify :
    (id : Str) (f : Session → Session) (m : Receive.Manager)
    → (Receive.modify id f m).trace ≡ m.trace
unfolding Receive.modify
trace-modify id f m = elim (Option-cases (lookup id m.sessions)) [
  | inl e ↦ rw (e, Receive.modify) refl
  | inr (s, e) ↦ rw (e, Receive.modify) refl
]

-- The state that the list is to show for a session.
abbrev pub state_for : Option Session → Option State
state_for none = none
state_for (some s) = some (job_state s.state)

abbrev pub expected : Str → Receive.Manager → Option State
expected j m = state_for (lookup j m.sessions)

expected-modify_keeps :
    (id : Str) (f : Session → Session) (m : Receive.Manager) (j : Str)
    → ((s : Session) → (f s).state ≡ s.state)
    → expected j (Receive.modify id f m) ≡ expected j m
expected-modify_keeps id f m j k =
    ap state_for (sessions-modify id f m j) ∙ (elim (Bool-cases (str_eq id j)) [
      | inr e ↦ rw e refl
      | inl e ↦ rw e (kept (lookup j m.sessions))
    ])
  where
    kept : (o : Option Session) → state_for (apply_session f o) ≡ state_for o
    kept none = refl
    kept (some s) = ap (λ x. some (job_state x)) (k s)

expected-modify_sets :
    (id : Str) (st : Receive.State) (e : Option Fault) (m : Receive.Manager) (j : Str)
    → expected j (Receive.modify id (λ s. record s { state = st }) m)
      ≡ seen j (receive_state id st e) (expected j m)
expected-modify_sets id st e m j =
    ap state_for (sessions-modify id _ m j) ∙ (elim (Bool-cases (str_eq id j)) [
      | inr e ↦ rw e refl
      | inl e ↦ rw e (set (lookup j m.sessions))
    ])
  where
    set :
        (o : Option Session)
        → state_for (apply_session (λ s. record s { state = st }) o)
          ≡ (elim (state_for o) [ none ↦ none | some _ ↦ some (job_state st) ])
    set none = refl
    set (some s) = refl

module _ (message : Fault → Str) (due : Hook → Bool) where
  -- The shown state of every session's job is that of the session, and there is a job where there is
  -- a session.
  pub record Mirrors (m : Receive.Manager) : Type 0 where
    pub follows : (j : Str) → shown j (replay message due m.trace new) ≡ expected j m

  pub emit-Mirrors :
      (h : Hook) (m : Receive.Manager)
      → ((j : Str) (o : Option State) → seen j h o ≡ o)
      → Mirrors m
      → Mirrors (Receive.emit h m)
  unfolding Receive.emit
  emit-Mirrors h m k i = record {
    follows = λ j.
        ap (shown j) (replay-append message due m.trace h new)
        ∙ shown-call message due h (replay message due m.trace new) j
        ∙ k j (shown j (replay message due m.trace new))
        ∙ i.follows j;
  }

  pub modify-Mirrors :
      (id : Str) (f : Session → Session) (m : Receive.Manager)
      → ((s : Session) → (f s).state ≡ s.state)
      → Mirrors m
      → Mirrors (Receive.modify id f m)
  modify-Mirrors id f m k i = record {
    follows = λ j.
        ap (λ t. shown j (replay message due t new)) (trace-modify id f m)
        ∙ i.follows j
        ∙ sym (expected-modify_keeps id f m j k);
  }

  pub set_state-Mirrors :
      (id : Str) (st : Receive.State) (e : Option Fault) (m : Receive.Manager)
      → Mirrors m
      → Mirrors (Receive.set_state id st e m)
  unfolding Receive.set_state Receive.emit
  set_state-Mirrors id st e m i = record {
    follows = λ j.
        let h = receive_state id st e in
        let m1 = Receive.modify id (λ s. record s { state = st }) m in
        ap (shown j) (replay-append message due m1.trace h new)
        ∙ shown-call message due h (replay message due m1.trace new) j
        ∙ ap (λ t. seen j h (shown j (replay message due t new))) (trace-modify id _ m)
        ∙ ap (seen j h) (i.follows j)
        ∙ sym (expected-modify_sets id st e m j);
  }

  pub register-Mirrors :
      (s : Session) (m : Receive.Manager)
      → s.state ≡ Receive.pending
      → Mirrors m
      → Mirrors (register s m)
  unfolding Receive.emit
  register-Mirrors s m p i = record {
    follows = λ j.
        let h = receive_registered s in
        ap (shown j) (replay-append message due m.trace h new)
        ∙ shown-call message due h (replay message due m.trace new) j
        ∙ ap (seen j h) (i.follows j)
        ∙ sym (
            ap state_for (lookup-insert s.id j s m.sessions) ∙ (elim (Bool-cases (str_eq s.id j)) [
              | inl e ↦ rw e (ap (λ x. some (job_state x)) p)
              | inr e ↦ rw e refl
            ]));
  }
