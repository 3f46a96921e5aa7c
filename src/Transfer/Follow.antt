-- ===== src/Transfer/Follow.antt =====
-- Every operation of internal/receive/receive.go keeps the job list of
-- internal/transfer/manager.go in step with the sessions.
use localsend_nas.Prelude.{
  ℕ, Bool, not, ◌&&◌, ◌||◌, [], none, some, is_some, Str, Map, str_eq, lookup, ok, ok-injective,
  Result-cases, Bool-cases, Option-cases, ◌≡◌, refl, sym, arith, inl, inr, equal_fold,
}
use localsend_nas.LocalSend.{Info, FileDto}
use localsend_nas.Host.{Host}
use localsend_nas.Shares
use localsend_nas.Shares.{path}
use localsend_nas.Settings
use localsend_nas.Receive.{
  Fault, Hook, Manager, Session, Decision, accepted, declined, cancelled, failed, share_vanished,
  is_pending, is_accepted, fail, cancel_session,
}
use localsend_nas.Receive.Prepare.{
  offer, offered_files, new_session, has_none, register, answer, resume, decide, Wake, decided,
  timeout, session_stopped, disconnected, put_decision,
}
use localsend_nas.Transfer.Mirror.{Mirrors, modify-Mirrors, set_state-Mirrors, register-Mirrors}

put_decision_keeps : (dec : Decision) (s : Session) → (put_decision dec s).state ≡ s.state
put_decision_keeps dec s = ground arith

module _ (message : Fault → Str) (due : Hook → Bool) where
  abbrev Kept : Manager → Type 0
  Kept m = Mirrors message due m

  -- An offer that is registered is shown as waiting.
  pub offer-Mirrors :
      (id : Str) (now : ℕ) (sender : Info) (ip cert_fp : Str) (files : Map FileDto) (m m' : Manager)
      → offer id now sender ip cert_fp files m ≡ ok m'
      → Mirrors message due m
      → Mirrors message due m'
  unfolding offer
  offer-Mirrors id now sender ip cert_fp files m m' h i =
      elim (Bool-cases (not (str_eq cert_fp []) && not (equal_fold sender.fingerprint cert_fp))) [
        | inl e ↦ cc (h, rw (e, offer) at h)
        | inr e ↦ elim (Bool-cases (has_none files)) [
          | inl n ↦ cc (h, rw (e, offer, n) at h)
          | inr n ↦ elim (Result-cases (offered_files files)) [
            | inr (x, k) ↦ cc (h, rw (e, offer, n, k) at h)
            | inl (fs, k) ↦
                let q : register (new_session id now sender ip fs) m ≡ m' =
                  ok-injective (rw (e, offer, n, k) at h) in
                rw (sym q) (register-Mirrors message due (new_session id now sender ip fs) m refl i)
          ]
        ]
      ]

  answer-Mirrors :
      (new_id : Str → Str) (shares : Shares.Store) (s : Session) (dec : Decision) (m : Manager)
      → Kept m
      → Kept (answer new_id shares s dec m).1
  unfolding answer
  answer-Mirrors new_id shares s dec m i = elim (Bool-cases dec.accept) [
    | inr a ↦ rw a (set_state-Mirrors message due s.id declined none m i)
    | inl a ↦ elim (Bool-cases (is_some (path shares dec.share))) [
      | inr p ↦ rw (a, p) (set_state-Mirrors message due s.id failed (some share_vanished) m i)
      | inl p ↦
          rw (a, p)
            (set_state-Mirrors message due s.id accepted none _
              (modify-Mirrors message due s.id _ m (λ s. refl) i))
    ]
  ]

  -- Whatever the select of `Prepare` takes, the list follows.
  pub resume-Mirrors :
      (new_id : Str → Str) (shares : Shares.Store) (settings : Settings.Store) (s : Session)
      (wake : Wake) (m : Manager)
      → Mirrors message due m
      → Mirrors message due (resume new_id shares settings s wake m).1
  unfolding resume
  resume-Mirrors new_id shares settings s decided m i =
      answer-Mirrors new_id shares s _ _ (modify-Mirrors message due s.id _ m (λ s. refl) i)
  resume-Mirrors new_id shares settings s timeout m i = answer-Mirrors new_id shares s _ m i
  resume-Mirrors new_id shares settings s session_stopped m i =
      set_state-Mirrors message due s.id cancelled none m i
  resume-Mirrors new_id shares settings s disconnected m i =
      set_state-Mirrors message due s.id cancelled none m i

  -- A decision waits for `Prepare`, and shows nothing.
  pub decide-Mirrors :
      (shares : Shares.Store) (sid : Str) (accept : Bool) (share : Str) (m : Manager)
      → Mirrors message due m
      → Mirrors message due (decide shares sid accept share m).1
  unfolding decide
  decide-Mirrors shares sid accept share m i = elim (Option-cases (lookup sid m.sessions)) [
    | inl q ↦ rw (q, decide) i
    | inr (s, q) ↦ elim (Bool-cases (is_pending s.state)) [
      | inr p ↦ rw (q, decide, p) i
      | inl p ↦ elim (Bool-cases (accept && not (is_some (path shares share)))) [
        | inl a ↦ rw (q, decide, p, a) i
        | inr a ↦
            rw (q, decide, p, a)
              (modify-Mirrors message due sid _ m (λ s. put_decision_keeps _ s) i)
      ]
    ]
  ]

  module _ {D : Type 0} (host : Host D) where
    pub fail-Mirrors :
        (sid : Str) (e : Fault) (m : Manager) (d : D)
        → Mirrors message due m
        → Mirrors message due (fail host sid e m d).0
    unfolding fail
    fail-Mirrors sid e m d i = set_state-Mirrors message due sid failed (some e) m i

    -- A cancellation is shown.
    pub cancel_session-Mirrors :
        (sid : Str) (m : Manager) (d : D)
        → Mirrors message due m
        → Mirrors message due (cancel_session host sid m d).0
    unfolding cancel_session
    cancel_session-Mirrors sid m d i = elim (Option-cases (lookup sid m.sessions)) [
      | inl e ↦ rw (e, cancel_session) i
      | inr (s, e) ↦ elim (Bool-cases (is_pending s.state || is_accepted s.state)) [
        | inr o ↦ rw (e, cancel_session, o) i
        | inl o ↦
            rw (e, cancel_session, o)
              (set_state-Mirrors message due sid cancelled none _
                (modify-Mirrors message due sid _ m (λ s. refl) i))
      ]
    ]
