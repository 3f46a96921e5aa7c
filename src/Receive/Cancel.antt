-- ===== src/Receive/Cancel.antt =====
-- `CancelSession` of internal/receive/receive.go, and what it means for `Upload`.
use localsend_nas.Prelude.{
  Bool, true, false, ◌||◌, none, some, Str, lookup, Bool-cases, Option-cases, err, ◌≡◌, refl, arith,
  inl, inr,
}
use localsend_nas.Host.{Host}
use localsend_nas.Receive.{
  cancelled, is_pending, is_accepted, inactive, Session, Manager, cancel_session,
}
use localsend_nas.Receive.Upload.{admit}
use localsend_nas.Receive.Prepare.Answers.{lookup-modify, lookup-set_state, admit-inactive}

abbrev is_open : Session → Bool
is_open s = is_pending s.state || is_accepted s.state

not_accepted : (s : Session) → is_open s ≡ false → is_accepted s.state ≡ false
not_accepted s h = ground arith

module _ {D : Type 0} (host : Host D) (sid : Str) where
  -- The session that a cancellation leaves.
  abbrev stopped : Session → Session
  stopped s = record s { stopped = true; state = cancelled }

  cancel_session-lookup :
      (m : Manager) (d : D) (s : Session)
      → lookup sid m.sessions ≡ some s
      → is_open s ≡ true
      → lookup sid (cancel_session host sid m d).0.sessions ≡ some (stopped s)
  unfolding cancel_session
  cancel_session-lookup m d s h o =
      rw (h, cancel_session, o)
        (lookup-set_state sid cancelled none _ _
          (lookup-modify sid (λ s. record s { stopped = true }) m s h))

  cancel_session_closed :
      (m : Manager) (d : D) (s : Session)
      → lookup sid m.sessions ≡ some s
      → is_open s ≡ false
      → cancel_session host sid m d ≡ (m, d)
  unfolding cancel_session
  cancel_session_closed m d s h o = rw (h, cancel_session, o) refl

  cancel_session_unknown :
      (m : Manager) (d : D) → lookup sid m.sessions ≡ none → cancel_session host sid m d ≡ (m, d)
  unfolding cancel_session
  cancel_session_unknown m d h = rw (h, cancel_session) refl

  admit_unknown :
      (fid token : Str) (m : Manager)
      → lookup sid m.sessions ≡ none
      → admit sid fid token m ≡ err (404, inactive)
  unfolding admit
  admit_unknown fid token m h = rw (h, admit) refl

  -- After a cancellation no upload to the session is admitted, with any token.
  pub cancel_session-inactive :
      (fid token : Str) (m : Manager) (d : D)
      → admit sid fid token (cancel_session host sid m d).0 ≡ err (404, inactive)
  cancel_session-inactive fid token m d = elim (Option-cases (lookup sid m.sessions)) [
    | inl e ↦ rw (cancel_session_unknown m d e) (admit_unknown fid token m e)
    | inr (s, e) ↦ elim (Bool-cases (is_open s)) [
      | inl o ↦ admit-inactive sid fid token _ _ (cancel_session-lookup m d s e o) refl
      | inr o ↦
          rw (cancel_session_closed m d s e o)
            (admit-inactive sid fid token m s e (not_accepted s o))
    ]
  ]

  -- A second cancellation changes neither the manager, the disk nor the calls of the hooks.
  pub cancel_session_idempotent :
      (m : Manager) (d : D)
      → cancel_session host sid (cancel_session host sid m d).0 (cancel_session host sid m d).1
        ≡ cancel_session host sid m d
  cancel_session_idempotent m d = elim (Option-cases (lookup sid m.sessions)) [
    | inl e ↦ rw (cancel_session_unknown m d e, cancel_session_unknown m d e) refl
    | inr (s, e) ↦ elim (Bool-cases (is_open s)) [
      | inl o ↦
          cancel_session_closed (cancel_session host sid m d).0 (cancel_session host sid m d).1
            (stopped s) (cancel_session-lookup m d s e o) refl
      | inr o ↦ rw (cancel_session_closed m d s e o, cancel_session_closed m d s e o) refl
    ]
  ]
