-- ===== src/Receive/Prepare/Answers.antt =====
-- What `Prepare` of internal/receive/receive.go leaves for `Upload`.
use localsend_nas.Prelude.{
  Bool, true, false, not, ◌&&◌, [], ◌∷◌, Option, none, some, is_some, Str, Map, str_eq, str_eq_iff,
  str_eq_refl, lookup, lookup-insert_self, Bool-cases, Option-cases, ok, err, ◌≡◌, ◌≢◌, refl, ap,
  arith, inl, inr, if◌then◌else◌,
}
use localsend_nas.LocalSend.{PrepareResponse}
use localsend_nas.Shares
use localsend_nas.Shares.{path}
use localsend_nas.Settings
use localsend_nas.Receive.{
  State, is_pending, accepted, declined, cancelled, failed, is_accepted, Fault, inactive,
  share_vanished, File, Session, Manager, Decision, modify, set_state, emit,
}
use localsend_nas.Receive.Upload.{admit}
use localsend_nas.Receive.Upload.Guard.{admit_iff}
use localsend_nas.Receive.Prepare.{
  dropbox_share, Wake, decided, timeout, session_stopped, disconnected, answer, resume, make_tokens,
  on_timeout, taken, decide, put_decision,
}

pub lookup-modify :
    (sid : Str) (f : Session → Session) (m : Manager) (s : Session)
    → lookup sid m.sessions ≡ some s
    → lookup sid (modify sid f m).sessions ≡ some (f s)
unfolding modify
lookup-modify sid f m s h = rw (h, modify) (lookup-insert_self sid (f s) m.sessions)

pub lookup-set_state :
    (sid : Str) (st : State) (e : Option Fault) (m : Manager) (s : Session)
    → lookup sid m.sessions ≡ some s
    → lookup sid (set_state sid st e m).sessions ≡ some (record s { state = st })
unfolding set_state emit
lookup-set_state sid st e m s h = lookup-modify sid (λ s. record s { state = st }) m s h

lookup-make_tokens :
    (new_id : Str → Str) (fid : Str) (f : File) (files : Map File)
    → lookup fid files ≡ some f
    → lookup fid (make_tokens new_id files) ≡ some (new_id fid)
unfolding lookup
lookup-make_tokens new_id fid f [] h = cc
lookup-make_tokens new_id fid f ((id, g) ∷ files) h =
    ground (arith, str_eq_iff id fid, lookup-make_tokens new_id fid f files)

-- An upload to a session that is not accepted is refused.
pub admit-inactive :
    (sid fid token : Str) (m : Manager) (s : Session)
    → lookup sid m.sessions ≡ some s
    → is_accepted s.state ≡ false
    → admit sid fid token m ≡ err (404, inactive)
unfolding admit
admit-inactive sid fid token m s h k = rw (h, admit, k)

module _ (new_id : Str → Str) (shares : Shares.Store) where
  -- The session that an accepted offer leaves.
  abbrev pub granted : Decision → Session → Session
  granted dec s = record s {
    dest_share = dec.share;
    tokens = make_tokens new_id s.files;
    state = accepted;
  }

  -- When an offer is accepted into a share that exists, the answer is 200 with a response, which
  -- names the session and gives each offered file a token, and the token that it gives for a file
  -- that has not been received, unless it is empty, admits the upload of that file to that session.
  pub answer-admit :
      (dec : Decision) (m : Manager) (s : Session) (fid : Str) (f : File)
      → lookup s.id m.sessions ≡ some s
      → dec.accept ≡ true
      → is_some (path shares dec.share) ≡ true
      → lookup fid s.files ≡ some f
      → f.done ≡ false
      → new_id fid ≢ []
      → (r : PrepareResponse) × (token : Str) × ((answer new_id shares s dec m).0
          ≡ record { status = 200; response = some r; fault = none })
        × (r.session_id ≡ s.id)
        × (lookup fid r.files ≡ some token)
        × (admit r.session_id fid token (answer new_id shares s dec m).1 ≡ ok (granted dec s, f))
  unfolding answer
  answer-admit dec m s fid f h a p q n k =
      let t = lookup-make_tokens new_id fid f s.files q in
      let given : PrepareResponse = record {
        session_id = s.id;
        files = make_tokens new_id s.files;
      } in
      rw (a, p)
        (
          given,
          new_id fid,
          refl,
          refl,
          t,
          (admit_iff s.id fid (new_id fid) _ (granted dec s) f).1 (record {
            known = lookup-set_state s.id accepted none _ _ (
                lookup-modify s.id
                  (λ s. record s { dest_share = dec.share; tokens = make_tokens new_id s.files }) m
                  s h);
            active = refl;
            issued = ap (λ o. elim o [ none ↦ [] | some t ↦ t ]) t;
            not_empty = k;
            offered = q;
            missing = n;
          }),
        )

  -- An answer other than 200 leaves the session in a state in which no upload to it is admitted.
  pub answer-inactive :
      (dec : Decision) (m : Manager) (s now : Session) (fid token : Str)
      → lookup s.id m.sessions ≡ some now
      → (answer new_id shares s dec m).0.status ≢ 200
      → admit s.id fid token (answer new_id shares s dec m).1 ≡ err (404, inactive)
  unfolding answer
  answer-inactive dec m s now fid token h n = elim (Bool-cases dec.accept) [
    | inr a ↦
        rw a (admit-inactive s.id fid token _ _ (lookup-set_state s.id declined none m now h) refl)
    | inl a ↦ elim (Bool-cases (is_some (path shares dec.share))) [
      | inl p ↦ absurd (n (rw (a, p)))
      | inr p ↦
          rw (a, p)
            (admit-inactive s.id fid token _ _
              (lookup-set_state s.id failed (some share_vanished) m now h) refl)
    ]
  ]

  -- Whatever the select of `Prepare` takes, an answer other than 200 leaves the session in a state in
  -- which no upload to it is admitted.
  pub resume-inactive :
      (settings : Settings.Store) (wake : Wake) (m : Manager) (s : Session) (fid token : Str)
      → lookup s.id m.sessions ≡ some s
      → (resume new_id shares settings s wake m).0.status ≢ 200
      → admit s.id fid token (resume new_id shares settings s wake m).1 ≡ err (404, inactive)
  unfolding resume
  resume-inactive settings decided m s fid token h n =
      answer-inactive (taken s.decision) (modify s.id (λ s. record s { decision = none }) m) s _ fid
        token (lookup-modify s.id (λ s. record s { decision = none }) m s h) n
  resume-inactive settings timeout m s fid token h n =
      answer-inactive (on_timeout shares settings) m s s fid token h n
  resume-inactive settings session_stopped m s fid token h n =
      admit-inactive s.id fid token _ _ (lookup-set_state s.id cancelled none m s h) refl
  resume-inactive settings disconnected m s fid token h n =
      admit-inactive s.id fid token _ _ (lookup-set_state s.id cancelled none m s h) refl

  -- The answer when the countdown expires is 200 exactly when a dropbox share is set and still exists,
  -- and 403 otherwise.
  pub timeout-status :
      (settings : Settings.Store) (m : Manager) (s : Session)
      → (resume new_id shares settings s timeout m).0.status ≡ (
          if str_eq settings.s.dropbox_share []
          then 403
          else if is_some (path shares settings.s.dropbox_share)
          then 200
          else 403)
  unfolding resume answer dropbox_share
  timeout-status settings m s = elim (Bool-cases (str_eq settings.s.dropbox_share [])) [
    | inl a ↦ rw (a, str_eq_refl)
    | inr a ↦ elim (Bool-cases (is_some (path shares settings.s.dropbox_share))) [
      | inl b ↦ rw (a, b, a, b)
      | inr b ↦ rw (a, b, str_eq_refl)
    ]
  ]

-- What a decision that is taken leaves of a session: its state is untouched, and the first decision
-- stays.
pub record DecisionKept (sid : Str) (dec : Decision) (m' : Manager) (s : Session) : Type 0 where
  pub after : Session
  pub known : lookup sid m'.sessions ≡ some after
  pub state : after.state ≡ s.state
  pub first : after.decision ≡ (elim s.decision [ none ↦ some dec | some old ↦ some old ])

put_decision-first :
    (dec : Decision) (s : Session)
    → ((put_decision dec s).state ≡ s.state)
      × ((put_decision dec s).decision
          ≡ (elim s.decision [ none ↦ some dec | some old ↦ some old ]))
put_decision-first dec s = ground arith

module _ (shares : Shares.Store) (sid : Str) (accept : Bool) (share : Str) where
  -- A decision about a pending session, which accepts into an existing share only, is taken: there is
  -- no error, the state stays as it is, and a decision that was already there stays in force.
  pub decide-DecisionKept :
      (m : Manager) (s : Session)
      → lookup sid m.sessions ≡ some s
      → is_pending s.state ≡ true
      → (accept && not (is_some (path shares share))) ≡ false
      → ((decide shares sid accept share m).0 ≡ none)
        × DecisionKept sid
            (record { accept = accept; share = share })
            (decide shares sid accept share m).1
            s
  unfolding decide
  decide-DecisionKept m s h p a =
      let dec : Decision = record { accept = accept; share = share } in
      rw (h, decide, p, a)
        (
          refl,
          record {
            after = put_decision dec s;
            known = lookup-modify sid (put_decision dec) m s h;
            state = (put_decision-first dec s).0;
            first = (put_decision-first dec s).1;
          },
        )

  -- A decision that is answered by an error changes nothing.
  pub decide_unchanged :
      (m : Manager) (e : Fault)
      → (decide shares sid accept share m).0 ≡ some e
      → (decide shares sid accept share m).1 ≡ m
  unfolding decide
  decide_unchanged m e h = elim (Option-cases (lookup sid m.sessions)) [
    | inl q ↦ rw (q, decide) refl
    | inr (s, q) ↦ elim (Bool-cases (is_pending s.state)) [
      | inr p ↦ rw (q, decide, p) refl
      | inl p ↦ elim (Bool-cases (accept && not (is_some (path shares share)))) [
        | inl a ↦ rw (q, decide, p, a) refl
        | inr a ↦ cc (h, rw (q, decide, p, a) at h)
      ]
    ]
  ]
