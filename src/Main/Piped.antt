-- ===== src/Main/Piped.antt =====
-- Runs of the operations of the receive pipeline of internal/receive/receive.go, and what the
-- requests of the web UI do to it.
use mathlib.Core.List.{append-nil}
use mathlib.Core.Option.{some-injective}
use localsend_nas.Prelude.{
  ℕ, Bool, true, ◌||◌, [], ◌++◌, some, Str, Result, ok, err, lookup, insert, lookup-insert_self,
  str_eq, trim_space, Bool-cases, Option-cases, ◌≡◌, refl, sym, ap, inl, inr, arith,
}
use localsend_nas.Host.{Host}
use localsend_nas.LocalSend.{Info}
use localsend_nas.Settings
use localsend_nas.Shares
use localsend_nas.Shares.{ShareError}
use localsend_nas.Discovery
use localsend_nas.Discovery.{add, remove, get}
use localsend_nas.Receive
use localsend_nas.Receive.{Fault, Hook, Session, cancelled, cancel_session, is_pending, is_accepted}
use localsend_nas.Transfer.{forget}
use localsend_nas.Transfer.Expand.{expand}
use localsend_nas.Transfer.Run.{send, is_empty}
use localsend_nas.Transfer.Mirror.{Mirrors}
use localsend_nas.Transfer.Reach.{Step, Steps, stay, step, Step-kept}
use localsend_nas.HttpApi.{Api, Reply, handle_put_settings, handle_add_device, handle_delete_device}
use localsend_nas.HttpApi.Sending.{SendBody, handle_send, handle_delete_transfer}
use localsend_nas.HttpApi.Events.{open_stream}
use localsend_nas.HttpApi.Sound.{put_settings-api, add_device-api}

module _ {D : Type 0} (host : Host D) where
  -- The receive pipeline makes operations of its own, while the disk and the settings may change
  -- between them.
  pub data Runs : Receive.Manager → Receive.Manager → Type 0 where
    rest : (m : Receive.Manager) → Runs m m
    run :
        (shares : Shares.Store) (m m1 m' : Receive.Manager) (d d1 : D)
        → Step host shares m d m1 d1
        → Runs m1 m'
        → Runs m m'

  pub Runs_of_Steps :
      (shares : Shares.Store) {m m' : Receive.Manager} {d d' : D}
      → Steps host shares m d m' d'
      → Runs m m'
  Runs_of_Steps shares (stay m d) = rest m
  Runs_of_Steps shares (step m m1 m' d d1 d' h hs) =
      run shares m m1 m' d d1 h (Runs_of_Steps shares hs)

  pub Runs-Mirrors :
      (message : Fault → Str) (due : Hook → Bool) {m m' : Receive.Manager}
      → Runs m m'
      → Mirrors message due m
      → Mirrors message due m'
  Runs-Mirrors message due (rest m) i = i
  Runs-Mirrors message due (run shares m m1 m' d d1 h hs) i =
      Runs-Mirrors message due hs (Step-kept host shares message due m m1 d d1 h i)

  pub modify_known :
      (id : Str) (f : Session → Session) (m : Receive.Manager) (s : Session)
      → lookup id m.sessions ≡ some s
      → Receive.modify id f m ≡ record m { sessions = insert id (f s) m.sessions }
  unfolding Receive.modify
  modify_known id f m s q = rw (q, Receive.modify) refl

  -- A cancellation on a pipeline whose earlier hooks are put aside.
  pub cancel_session-retraced :
      (id : Str) (m : Receive.Manager) (d : D)
      → let m1 = (cancel_session host id (record m { trace = [] }) d).0 in
        record m1 { trace = m.trace ++ m1.trace } ≡ (cancel_session host id m d).0
  unfolding cancel_session Receive.set_state Receive.emit
  cancel_session-retraced id m d = elim (Option-cases (lookup id m.sessions)) [
    | inl q ↦ rw (cancel_session, q) (ap (λ t. record m { trace = t }) (append-nil m.trace))
    | inr (s, q) ↦ elim (Bool-cases (is_pending s.state || is_accepted s.state)) [
      | inr k ↦ rw (cancel_session, q, k) (ap (λ t. record m { trace = t }) (append-nil m.trace))
      | inl k ↦
          let stop = λ (x : Session). record x { stopped = true } in
          let end = λ (x : Session). record x { state = cancelled } in
          let later = λ (n : Receive.Manager).
            modify_known id end (record n { sessions = insert id (stop s) m.sessions }) (stop s)
              (lookup-insert_self id (stop s) m.sessions) in
          rw
            (
              cancel_session,
              q,
              k,
              modify_known id stop (record m { trace = [] }) s q,
              modify_known id stop m s q,
              later (record m { trace = [] }),
              later m,
            )
            refl
    ]
  ]

  pub delete_rcv : (id : Str) (a : Api) → (handle_delete_transfer id a).1.rcv ≡ a.rcv
  unfolding handle_delete_transfer
  delete_rcv id a = elim (Bool-cases (forget id a.tm).0.0) [
    | inr f ↦ rw (f, handle_delete_transfer) refl
    | inl f ↦ elim (Bool-cases (forget id a.tm).0.1) [
      | inr g ↦ rw (f, handle_delete_transfer, g) refl
      | inl g ↦ rw (f, handle_delete_transfer, g) refl
    ]
  ]

  pub open_rcv :
      (sub : ℕ) (flushes : Bool) (id : Str) (a : Api) → (open_stream sub flushes id a).1.rcv ≡ a.rcv
  unfolding open_stream
  open_rcv sub flushes id a = ground arith

  pub delete_device_rcv :
      (json : Discovery.Codec) (fp : Str) (a : Api) (d : D)
      → (handle_delete_device host json fp a d).1.rcv ≡ a.rcv
  unfolding handle_delete_device
  delete_device_rcv json fp a d = elim (Bool-cases (remove host json fp a.disc d).0) [
    | inl q ↦ rw (q, handle_delete_device) refl
    | inr q ↦ rw (q, handle_delete_device) refl
  ]

  pub send_rcv :
      (quote : Str → Str) (describe : ShareError → Str) (to_lower : Str → Str) (fuel : ℕ) (id : Str)
      (now : ℕ) (body : Result Str SendBody) (a : Api) (d : D) (a' : Api) (r : Reply)
      → handle_send quote describe host to_lower fuel id now body a d ≡ some (r, a')
      → a'.rcv ≡ a.rcv
  unfolding handle_send
  send_rcv quote describe to_lower fuel id now (err e) a d a' r q =
      ap (λ x. x.1.rcv) (sym (some-injective _ _ q))
  send_rcv quote describe to_lower fuel id now (ok b) a d a' r q =
      elim (Option-cases (
        send (get b.target a.disc) b.target (is_empty b.items)
          (expand host d to_lower a.store fuel b.items) id now a.tm)) [
            | inl e ↦ cc (q, rw (handle_send, e) at q)
            | inr ((err x, tm), e) ↦
                ap (λ x. x.1.rcv) (sym (some-injective _ _ (rw (handle_send, e) at q)))
            | inr ((ok j, tm), e) ↦
                ap (λ x. x.1.rcv) (sym (some-injective _ _ (rw (handle_send, e) at q)))
          ]

  pub put_settings_rcv :
      (json : Settings.Codec) (body : Result Str Settings.Settings) (a : Api) (d : D)
      → (handle_put_settings host json body a d).1.rcv ≡ a.rcv
  unfolding handle_put_settings
  put_settings_rcv json (err e) a d = refl
  put_settings_rcv json (ok input) a d = ap (λ x. x.rcv) (put_settings-api host json input a d)

  pub add_device_rcv :
      (json : Discovery.Codec) (now : ℕ) (probe : Str → ℕ → Result Str Info) (body : Result Str Str)
      (a : Api) (d : D)
      → (handle_add_device host json now probe body a d).1.rcv ≡ a.rcv
  unfolding handle_add_device
  add_device_rcv json now probe (err e) a d = refl
  add_device_rcv json now probe (ok address) a d =
      elim (Bool-cases (str_eq (trim_space address) [])) [
        | inl q ↦ rw (q, handle_add_device) refl
        | inr q ↦ ap (λ x. x.rcv) (add_device-api host json now probe address a d q)
      ]
