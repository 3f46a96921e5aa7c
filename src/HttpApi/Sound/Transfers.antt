-- ===== src/HttpApi/Sound/Transfers.antt =====
-- What the handlers of the transfers in internal/httpapi/api.go keep true of the parts behind them.
use mathlib.Core.Option.{some-injective}
use localsend_nas.Prelude.{
  ℕ, Bool, false, ◌||◌, [], ◌∷◌, ◌++◌, Option, none, some, Str, Result, ok, err, lookup, Bool-cases,
  Option-cases, ◌≡◌, ◌⊎◌, refl, sym, ap, ◌∙◌, inl, inr,
}
use localsend_nas.Host.{Host}
use localsend_nas.Shares.{ShareError}
use localsend_nas.Discovery.{get}
use localsend_nas.Receive
use localsend_nas.Receive.{
  Fault, Hook, receive_state, cancelled, is_pending, is_accepted, cancel_session,
}
use localsend_nas.Transfer
use localsend_nas.Transfer.{Job, forget, subscribe, unsubscribe}
use localsend_nas.Transfer.Expand.{expand}
use localsend_nas.Transfer.Run.{send, is_empty}
use localsend_nas.Transfer.Jobs.{holds, forget-Listed}
use localsend_nas.Transfer.Listing.{
  on_state-Listed, subscribe-Listed, unsubscribe-Listed, cancel-Listed, send-Listed,
}
use localsend_nas.Transfer.Mirror.{trace-modify}
use localsend_nas.HttpApi.{Api, Reply}
use localsend_nas.HttpApi.Sending.{
  SendBody, handle_send, handle_delete_transfer, handle_cancel_transfer, stop_session,
  stop_received,
}
use localsend_nas.HttpApi.Events.{open_stream}
use localsend_nas.HttpApi.Sound.{IsSound, with_tm}

module _ {D : Type 0} (host : Host D) where
  pub delete-IsSound : (id : Str) (a : Api) → IsSound a → IsSound (handle_delete_transfer id a).1
  unfolding handle_delete_transfer
  delete-IsSound id a h =
      let k = with_tm host _ a h (forget-Listed id a.tm h.listed) in
      elim (Bool-cases (forget id a.tm).0.0) [
        | inr f ↦ rw (f, handle_delete_transfer) k
        | inl f ↦ elim (Bool-cases (forget id a.tm).0.1) [
          | inr g ↦ rw (f, handle_delete_transfer, g) k
          | inl g ↦ rw (f, handle_delete_transfer, g) k
        ]
      ]

  pub open-IsSound :
      (sub : ℕ) (flushes : Bool) (id : Str) (a : Api)
      → IsSound a
      → IsSound (open_stream sub flushes id a).1
  unfolding open_stream
  open-IsSound sub flushes id a h =
      let k = subscribe-Listed sub id a.tm h.listed in
      elim (Bool-cases (subscribe sub id a.tm).0) [
        | inr f ↦ rw (f, open_stream) (with_tm host _ a h k)
        | inl f ↦ elim (Bool-cases flushes) [
          | inr g ↦ rw (f, open_stream, g) (with_tm host _ a h (unsubscribe-Listed sub id _ k))
          | inl g ↦ rw (f, open_stream, g) (with_tm host _ a h k)
        ]
      ]

  pub send-IsSound :
      (quote : Str → Str) (describe : ShareError → Str) (to_lower : Str → Str) (fuel : ℕ) (id : Str)
      (now : ℕ) (body : Result Str SendBody) (a : Api) (d : D) (a' : Api) (r : Reply)
      → holds id a.tm.order ≡ false
      → handle_send quote describe host to_lower fuel id now body a d ≡ some (r, a')
      → IsSound a
      → IsSound a'
  unfolding handle_send
  send-IsSound quote describe to_lower fuel id now (err e) a d a' r f q h =
      rw (sym (ap (λ x. x.1) (some-injective _ _ q))) h
  send-IsSound quote describe to_lower fuel id now (ok b) a d a' r f q h =
      elim (Option-cases (
        send (get b.target a.disc) b.target (is_empty b.items)
          (expand host d to_lower a.store fuel b.items) id now a.tm)) [
            | inl e ↦ cc (q, rw (e, handle_send) at q)
            | inr ((err x, tm), e) ↦
                rw (sym (ap (λ x. x.1) (some-injective _ _ (rw (e, handle_send) at q))))
                  (with_tm host tm a h (send-Listed _ _ _ _ id now a.tm tm (err x) f h.listed e))
            | inr ((ok j, tm), e) ↦
                rw (sym (ap (λ x. x.1) (some-injective _ _ (rw (e, handle_send) at q))))
                  (with_tm host tm a h (send-Listed _ _ _ _ id now a.tm tm (ok j) f h.listed e))
          ]

  -- The hooks that a cancellation calls.
  pub cancel_session-trace :
      (id : Str) (m : Receive.Manager) (d : D)
      → m.trace ≡ []
      → ((cancel_session host id m d).0.trace ≡ [])
        ⊎ ((cancel_session host id m d).0.trace ≡ receive_state id cancelled none ∷ [])
  unfolding cancel_session Receive.set_state Receive.emit
  cancel_session-trace id m d e = elim (Option-cases (lookup id m.sessions)) [
    | inl q ↦ rw (q, cancel_session) (inl e)
    | inr (s, q) ↦ elim (Bool-cases (is_pending s.state || is_accepted s.state)) [
      | inr k ↦ rw (q, cancel_session, k) (inl e)
      | inl k ↦
          rw (q, cancel_session, k)
            (inr (
              ap (λ t. t ++ receive_state id cancelled none ∷ [])
                (trace-modify id _ _ ∙ trace-modify id _ m ∙ e)))
    ]
  ]

  pub stop_session-IsSound :
      (message : Fault → Str) (due : Hook → Bool) (id : Str) (a : Api) (m : Receive.Manager) (d : D)
      → IsSound a
      → IsSound (stop_session message due host id a m d).0
  stop_session-IsSound message due id a m d h =
      elim (cancel_session-trace id (record m { trace = [] }) d refl) [
        | inl q ↦ record { in_range = h.in_range; keyed = h.keyed; listed = rw q h.listed }
        | inr q ↦ record {
          in_range = h.in_range;
          keyed = h.keyed;
          listed = rw q (on_state-Listed message id cancelled none a.tm h.listed);
        }
      ]

  pub stop_received-IsSound :
      (message : Fault → Str) (due : Hook → Bool) (session : Option Str) (a : Api) (d : D)
      → IsSound a
      → IsSound (stop_received message due host session a d).0
  stop_received-IsSound message due none a d h = h
  stop_received-IsSound message due (some id) a d h = elim (Option-cases a.rcv) [
    | inl q ↦ rw (stop_received, q) h
    | inr (m, q) ↦ rw (stop_received, q) (stop_session-IsSound message due id a m d h)
  ]

  pub cancel-IsSound :
      (message : Fault → Str) (due : Hook → Bool) (id : Str) (a : Api) (d : D)
      → IsSound a
      → IsSound (handle_cancel_transfer message due host id a d).1
  unfolding handle_cancel_transfer
  cancel-IsSound message due id a d h =
      let k = with_tm host _ a h (cancel-Listed id a.tm h.listed) in
      let stopped = stop_received-IsSound message due (Transfer.cancel id a.tm).0.1 _ d k in
      elim (Bool-cases (Transfer.cancel id a.tm).0.0) [
        | inl q ↦ rw (q, handle_cancel_transfer) stopped
        | inr q ↦ rw (q, handle_cancel_transfer) stopped
      ]
