-- ===== src/Transfer/Reach.antt =====
-- The runs of internal/receive/receive.go: sequences of its operations from the start of the program,
-- those between the reads of an upload included.
use localsend_nas.Prelude.{
  ℕ, Bool, true, List, [], ◌∷◌, some, Str, Map, All, ok, lookup, ◌≡◌, refl, In, here, there,
}
use localsend_nas.LocalSend.{Info, FileDto}
use localsend_nas.Host.{Host}
use localsend_nas.Shares
use localsend_nas.Settings
use localsend_nas.Receive.{Fault, Hook, Manager, Session, cancel_session, new}
use localsend_nas.Receive.Prepare.{offer, resume, decide, Wake, is_ready}
use localsend_nas.Receive.Upload.{Read}
use localsend_nas.Receive.Upload.Stream.{Response, upload}
use localsend_nas.Transfer
use localsend_nas.Transfer.Mirror.{Mirrors}
use localsend_nas.Transfer.Follow.{
  offer-Mirrors, resume-Mirrors, decide-Mirrors, cancel_session-Mirrors,
}
use localsend_nas.Transfer.Arrival.{Harmless, upload-Mirrors}

module _ {D : Type 0} (host : Host D) (shares : Shares.Store) where
  mutual
    -- One operation. The settings may change between two of them.
    pub data Step : Manager → D → Manager → D → Type 0 where
      offers :
          (id : Str) (now : ℕ) (sender : Info) (ip cert_fp : Str) (files : Map FileDto)
          (m m' : Manager) (d : D)
          → offer id now sender ip cert_fp files m ≡ ok m'
          → Step m d m' d
      resumes :
          (new_id : Str → Str) (settings : Settings.Store) (s : Session) (wake : Wake) (m : Manager)
          (d : D)
          → lookup s.id m.sessions ≡ some s
          → is_ready wake s ≡ true
          → Step m d (resume new_id shares settings s wake m).1 d
      decides :
          (sid : Str) (accept : Bool) (share : Str) (m : Manager) (d : D)
          → Step m d (decide shares sid accept share m).1 d
      cancels :
          (sid : Str) (m : Manager) (d : D)
          → Step m d (cancel_session host sid m d).0 (cancel_session host sid m d).1
      uploads :
          (fuel : ℕ) (sid fid token : Str) (body : List (Read D)) (m m' : Manager) (d d' : D)
          (r : Response)
          → ((x : Read D)
              → In x body
              → (m1 : Manager) (d1 : D) → Steps m1 d1 (x.meanwhile m1 d1).0 (x.meanwhile m1 d1).1)
          → upload host fuel shares sid fid token body m d ≡ some (r, m', d')
          → Step m d m' d'

    pub data Steps : Manager → D → Manager → D → Type 0 where
      stay : (m : Manager) (d : D) → Steps m d m d
      step :
          (m m1 m' : Manager) (d d1 d' : D) → Step m d m1 d1 → Steps m1 d1 m' d' → Steps m d m' d'

  module _ (message : Fault → Str) (due : Hook → Bool) where
    All-Harmless :
        (body : List (Read D))
        → ((x : Read D) → In x body → Harmless message due host x)
        → All (Harmless message due host) body
    All-Harmless [] h = tt
    All-Harmless (x ∷ xs) h = (h x (here refl), All-Harmless xs (λ y k. h y (there k)))

    mutual
      pub Step-kept :
          (m m' : Manager) (d d' : D)
          → Step m d m' d'
          → Mirrors message due m
          → Mirrors message due m'
      Step-kept _ _ _ _ (offers id now sender ip cert_fp files m m' d h) i =
          offer-Mirrors message due id now sender ip cert_fp files m m' h i
      Step-kept _ _ _ _ (resumes new_id settings s wake m d h k) i =
          resume-Mirrors message due new_id shares settings s wake m i
      Step-kept _ _ _ _ (decides sid accept share m d) i =
          decide-Mirrors message due shares sid accept share m i
      Step-kept _ _ _ _ (cancels sid m d) i = cancel_session-Mirrors message due host sid m d i
      Step-kept _ _ _ _ (uploads fuel sid fid token body m m' d d' r h u) i =
          upload-Mirrors message due host fuel shares sid fid token body m m' d d' r
            (All-Harmless body
              (λ x k. record { keeps = λ m1 d1 j. Steps-kept _ _ _ _ (h x k m1 d1) j }))
            i u

      Steps-kept :
          (m m' : Manager) (d d' : D)
          → Steps m d m' d'
          → Mirrors message due m
          → Mirrors message due m'
      Steps-kept _ _ _ _ (stay m d) i = i
      Steps-kept _ _ _ _ (step m m1 m' d d1 d' s ss) i =
          Steps-kept m1 m' d1 d' ss (Step-kept m m1 d d1 s i)

    pub new-Mirrors : Mirrors message due new
    unfolding Transfer.find lookup
    new-Mirrors = record { follows = λ j. refl }

    -- In every state that the program reaches from its start by offers, answers, decisions,
    -- cancellations and uploads, with any of these between the reads of an upload, the job list that
    -- replays the hooks shows for every session the state that the session is in.
    pub Steps-Mirrors : (m : Manager) (d d' : D) → Steps new d m d' → Mirrors message due m
    Steps-Mirrors m d d' s = Steps-kept new m d d' s new-Mirrors
