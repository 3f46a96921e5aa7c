-- ===== src/Main/Kept.antt =====
-- What a request of the web UI leaves of the receive pipeline and of the job list beside it.
use mathlib.Core.List.{append-nil}
use localsend_nas.Prelude.{
  Bool, [], ◌++◌, Option, none, some, Str, Result, ok, err, lookup, str_eq, false, Bool-cases,
  Option-cases, refl, sym, inl, inr, ◌≡◌, ◌∙◌,
}
use localsend_nas.Receive.Prepare.{decide}
use localsend_nas.Transfer
use localsend_nas.Transfer.{receive_direction, find}
use localsend_nas.Transfer.Reach.{Step-kept, decides, cancels}
use localsend_nas.HttpApi.{DecisionBody, decided, handle_receive_decision}
use localsend_nas.HttpApi.Sending.{stop_received, handle_cancel_transfer}
use localsend_nas.Host.{Host}
use localsend_nas.Receive
use localsend_nas.Receive.{Fault, Hook, Session, cancelled, cancel_session, is_pending, is_accepted}
use localsend_nas.Transfer.Mirror.{Mirrors}
use localsend_nas.HttpApi.{Api}
use localsend_nas.HttpApi.Requests
use localsend_nas.HttpApi.Requests.{
  Request, puts_settings, adds_device, deletes_device, hears, evicts, sends, deletes, opens, leaves,
}
use mathlib.Core.Path.{subst}
use localsend_nas.Transfer.Facing.{AreAlike, same-AreAlike, unsubscribe-AreAlike}
use localsend_nas.Transfer.Agree.{Tracks, Tracks-alike, Tracks-cancel, Tracks-replay}
use localsend_nas.Main.Tracked.{
  decide-trace, put_settings_tm, add_device_tm, delete_device_tm, open-AreAlike, send_tm-AreAlike,
  Tracks-delete, Tracks-others,
}
use localsend_nas.Main.Piped.{
  cancel_session-retraced, delete_rcv, open_rcv, delete_device_rcv, send_rcv, put_settings_rcv,
  add_device_rcv,
}

-- A new job does not have the id of a session: the ids are random.
abbrev pub IsUnused : Option Receive.Manager → Option Str → Type 0
IsUnused none o = Unit
IsUnused (some m) none = Unit
IsUnused (some m) (some id) = lookup id m.sessions ≡ none

-- A reason for what a request asks to remove.
abbrev pub Explains : (Str → Type 0) → Option Str → Type 0
Explains removed none = Unit
Explains removed (some id) = removed id

module _ {D : Type 0} (host : Host D) where
  -- The job that a request asks to remove, and the job that it brings in.
  abbrev pub deletes_of : {a : Api} {d d' : D} {a' : Api} → Request host a d d' a' → Option Str
  deletes_of (deletes id a d) = some id
  deletes_of _ = none

  abbrev pub sends_of : {a : Api} {d d' : D} {a' : Api} → Request host a d d' a' → Option Str
  sends_of (sends quote describe to_lower fuel id now body a d a' r f q) = some id
  sends_of _ = none

  module _ (message : Fault → Str) (due : Hook → Bool) where
    -- The pipeline, with the hooks that it called, and the job list beside it.
    pub record Kept (removed : Str → Type 0) (a : Api) : Type 0 where
      pub manager : Receive.Manager
      pub receiver : a.rcv ≡ some manager
      pub mirrors : (message : Fault → Str) (due : Hook → Bool) → Mirrors message due manager
      pub tracks : Tracks removed manager a.tm

    module _ (removed : Str → Type 0) where
      Kept-alike :
          (a a' : Api)
          → a'.rcv ≡ a.rcv
          → ((j : Str) → AreAlike j a.tm a'.tm)
          → Kept removed a
          → Kept removed a'
      Kept-alike a a' e t k = record {
        manager = k.manager;
        receiver = e ∙ k.receiver;
        mirrors = k.mirrors;
        tracks = Tracks-alike removed k.manager a.tm a'.tm t k.tracks;
      }

      Kept-decision :
          (id : Str) (body : Result Str DecisionBody) (a : Api) (d : D)
          → Kept removed a
          → Kept removed (handle_receive_decision id body a).1
      unfolding handle_receive_decision
      Kept-decision id (err bad) a d k = rw (handle_receive_decision, k.receiver) k
      Kept-decision id (ok b) a d k =
          let m = k.manager in
          let m' = (decide a.store id b.accept b.share m).1 in
          let mirrored = λ (ms : Fault → Str) (du : Hook → Bool).
            Step-kept host a.store ms du m m' d d (decides id b.accept b.share m d)
              (k.mirrors ms du) in
          let after : Kept removed (record a { rcv = some m' }) = record {
            manager = m';
            receiver = refl;
            mirrors = mirrored;
            tracks =
                Tracks-replay message due removed m m' [] a.tm (k.mirrors message due)
                  (mirrored message due)
                  (decide-trace host a.store id b.accept b.share m ∙ sym (append-nil m.trace))
                  k.tracks;
          } in
          elim (Option-cases (decide a.store id b.accept b.share m).0) [
            | inl q ↦ rw (handle_receive_decision, k.receiver, decided, q) after
            | inr (bad, q) ↦ rw (handle_receive_decision, k.receiver, decided, q) after
          ]

      module _ (ms : Fault → Str) (du : Hook → Bool) where
        Kept-stop :
            (session : Option Str) (a : Api) (d : D)
            → Kept removed a
            → Kept removed (stop_received ms du host session a d).0
        Kept-stop none a d k = k
        Kept-stop (some id) a d k =
            let m = k.manager in
            let m1 = (cancel_session host id (record m { trace = [] }) d).0 in
            let m' : Receive.Manager = record m1 { trace = m.trace ++ m1.trace } in
            let mirrored = λ (ms1 : Fault → Str) (du1 : Hook → Bool).
              subst (Mirrors ms1 du1) (sym (cancel_session-retraced host id m d))
                (Step-kept host a.store ms1 du1 m _ d _ (cancels id m d) (k.mirrors ms1 du1)) in
            rw (stop_received, k.receiver)
              (record {
                manager = m';
                receiver = refl;
                mirrors = mirrored;
                tracks =
                    Tracks-replay ms du removed m m' m1.trace a.tm (k.mirrors ms du)
                      (mirrored ms du) refl k.tracks;
              })

        Kept-cancel :
            (id : Str) (a : Api) (d : D)
            → Kept removed a
            → Kept removed (handle_cancel_transfer ms du host id a d).1
        unfolding handle_cancel_transfer
        Kept-cancel id a d k =
            let stopped =
              Kept-stop (Transfer.cancel id a.tm).0.1
                (record a { tm = (Transfer.cancel id a.tm).1 }) d
                (record {
                  manager = k.manager;
                  receiver = k.receiver;
                  mirrors = k.mirrors;
                  tracks = Tracks-cancel removed id k.manager a.tm k.tracks;
                }) in
            elim (Bool-cases (Transfer.cancel id a.tm).0.0) [
              | inl q ↦ rw (q, handle_cancel_transfer) stopped
              | inr q ↦ rw (q, handle_cancel_transfer) stopped
            ]

      Kept-send :
          (id : Str) (a a' : Api)
          → a'.rcv ≡ a.rcv
          → IsUnused a.rcv (some id)
          → ((j : Str) → str_eq id j ≡ false → AreAlike j a.tm a'.tm)
          → Kept removed a
          → Kept removed a'
      Kept-send id a a' e u t k = record {
        manager = k.manager;
        receiver = e ∙ k.receiver;
        mirrors = k.mirrors;
        tracks =
            Tracks-others removed id k.manager a.tm a'.tm
              (subst (λ o. IsUnused o (some id)) k.receiver u) t k.tracks;
      }

      pub web-Kept :
          (a : Api) (d d' : D) (a' : Api) (r : Request host a d d' a')
          → IsUnused a.rcv (sends_of r)
          → Explains removed (deletes_of r)
          → Kept removed a
          → Kept removed a'
      web-Kept _ _ _ _ (puts_settings json body a d) u x =
          Kept-alike a _ (put_settings_rcv host json body a d)
            (λ j. same-AreAlike j (sym (put_settings_tm host json body a d)))
      web-Kept _ _ _ _ (adds_device json now probe body a d) u x =
          Kept-alike a _ (add_device_rcv host json now probe body a d)
            (λ j. same-AreAlike j (sym (add_device_tm host json now probe body a d)))
      web-Kept _ _ _ _ (deletes_device json fp a d) u x =
          Kept-alike a _ (delete_device_rcv host json fp a d)
            (λ j. same-AreAlike j (sym (delete_device_tm host json fp a d)))
      web-Kept _ _ _ _ (hears now info ip a d) u x = Kept-alike a _ refl (λ j. same-AreAlike j refl)
      web-Kept _ _ _ _ (evicts now a d) u x = Kept-alike a _ refl (λ j. same-AreAlike j refl)
      web-Kept _ _ _ _ (Requests.decides id body a d) u x = Kept-decision id body a d
      web-Kept _ _ _ _ (sends quote describe to_lower fuel id now body a d a' r f q) u x =
          Kept-send id a a' (send_rcv host quote describe to_lower fuel id now body a d a' r q) u
            (λ j n. send_tm-AreAlike host quote describe to_lower fuel id now body a d a' r j n q)
      web-Kept _ _ _ _ (Requests.cancels ms du id a d) u x = Kept-cancel ms du id a d
      web-Kept _ _ _ _ (deletes id a d) u x = λ k. record {
        manager = k.manager;
        receiver = delete_rcv host id a ∙ k.receiver;
        mirrors = k.mirrors;
        tracks = Tracks-delete removed id a k.manager x k.tracks;
      }
      web-Kept _ _ _ _ (opens sub flushes id a d) u x =
          Kept-alike a _ (open_rcv host sub flushes id a) (open-AreAlike host sub flushes id a)
      web-Kept _ _ _ _ (leaves sub id a d) u x =
          Kept-alike a _ refl (unsubscribe-AreAlike sub id a.tm)
