-- ===== src/HttpApi/Sound.antt =====
-- What the handlers of internal/httpapi/api.go keep true of the parts behind them.
pub mod Transfers
use mathlib.Core.Option.{some-injective}
use localsend_nas.Prelude.{
  ℕ, Bool, false, ◌||◌, [], ◌∷◌, ◌++◌, Option, none, some, Str, Result, ok, err, lookup, str_eq,
  trim_space, Bool-cases, Option-cases, Result-cases, ◌≡◌, ◌⊎◌, refl, sym, ap, ◌∙◌, inl, inr,
}
use localsend_nas.LocalSend.{Info}
use localsend_nas.Host.{Host}
use localsend_nas.Shares.{ShareError}
use localsend_nas.Settings
use localsend_nas.Settings.{Settings, clamp, update}
use localsend_nas.Settings.Range.{InRange, clamp-InRange}
use localsend_nas.Discovery
use localsend_nas.Discovery.{upsert, evict, add, remove, get}
use localsend_nas.Discovery.Registry.{
  Keyed, upsert-Keyed, add-Keyed, remove-Keyed, keyed-evict_from,
}
use localsend_nas.Receive
use localsend_nas.Receive.{
  Fault, Hook, receive_state, cancelled, is_pending, is_accepted, cancel_session,
}
use localsend_nas.Transfer
use localsend_nas.Transfer.{Job, forget, subscribe, unsubscribe}
use localsend_nas.Transfer.Expand.{expand}
use localsend_nas.Transfer.Run.{send, is_empty}
use localsend_nas.Receive.Prepare.{decide}
use localsend_nas.Transfer.Jobs.{Listed, holds, forget-Listed}
use localsend_nas.Transfer.Listing.{
  on_state-Listed, subscribe-Listed, unsubscribe-Listed, cancel-Listed, send-Listed,
}
use localsend_nas.Transfer.Mirror.{trace-modify}
use localsend_nas.HttpApi.{
  Api, Reply, DecisionBody, handle_put_settings, handle_receive_decision, handle_add_device,
  handle_delete_device, decided,
}
use localsend_nas.HttpApi.Sending.{
  SendBody, handle_send, handle_delete_transfer, handle_cancel_transfer, stop_session,
  stop_received,
}
use localsend_nas.HttpApi.Events.{open_stream}

-- The settings are in range, the registry is keyed by fingerprint and free of this node, and the list
-- shows distinct jobs that are there.
pub record IsSound (a : Api) : Type 0 where
  pub in_range : InRange a.settings.s
  pub keyed : Keyed a.disc
  pub listed : Listed a.tm

module _ {D : Type 0} (host : Host D) where
  pub update-InRange :
      (json : Settings.Codec) (d : D) (st : Settings.Store) (input : Settings)
      → InRange st.s
      → InRange (update host json d st input).1.s
  unfolding update
  update-InRange json d st input h = elim (Result-cases (json.encode (clamp input))) [
    | inr (e, q) ↦ rw (q, update) h
    | inl (bytes, q) ↦ elim (Option-cases (host.write_file d st.path bytes).0) [
      | inl w ↦ rw (q, update, w) (clamp-InRange input).0
      | inr (e, w) ↦ rw (q, update, w) h
    ]
  ]

  pub put_settings-api :
      (json : Settings.Codec) (input : Settings) (a : Api) (d : D)
      → (handle_put_settings host json (ok input) a d).1
        ≡ record a { settings = (update host json d a.settings input).1 }
  unfolding handle_put_settings
  put_settings-api json input a d = elim (Result-cases (update host json d a.settings input).0) [
    | inl (out, q) ↦ rw (q, handle_put_settings) refl
    | inr (e, q) ↦ rw (q, handle_put_settings) refl
  ]

  pub put_settings-IsSound :
      (json : Settings.Codec) (body : Result Str Settings) (a : Api) (d : D)
      → IsSound a
      → IsSound (handle_put_settings host json body a d).1
  unfolding handle_put_settings
  put_settings-IsSound json (err e) a d h = h
  put_settings-IsSound json (ok input) a d h = rw (put_settings-api json input a d) (record {
    in_range = update-InRange json d a.settings input h.in_range;
    keyed = h.keyed;
    listed = h.listed;
  })

  pub with_disc :
      (disc : Discovery.Discovery) (a : Api)
      → IsSound a
      → Keyed disc
      → IsSound (record a { disc = disc })
  with_disc disc a h k = record { in_range = h.in_range; keyed = k; listed = h.listed }

  pub with_tm :
      (tm : Transfer.Manager) (a : Api) → IsSound a → Listed tm → IsSound (record a { tm = tm })
  with_tm tm a h k = record { in_range = h.in_range; keyed = h.keyed; listed = k }

  pub add_device-api :
      (json : Discovery.Codec) (now : ℕ) (probe : Str → ℕ → Result Str Info) (address : Str)
      (a : Api) (d : D)
      → str_eq (trim_space address) [] ≡ false
      → (handle_add_device host json now probe (ok address) a d).1
        ≡ record a { disc = (add host json now address probe a.disc d).1 }
  unfolding handle_add_device
  add_device-api json now probe address a d k =
      elim (Result-cases (add host json now address probe a.disc d).0) [
        | inl (out, q) ↦ rw (k, handle_add_device, q) refl
        | inr (e, q) ↦ rw (k, handle_add_device, q) refl
      ]

  pub add_device-IsSound :
      (json : Discovery.Codec) (now : ℕ) (probe : Str → ℕ → Result Str Info) (body : Result Str Str)
      (a : Api) (d : D)
      → IsSound a
      → IsSound (handle_add_device host json now probe body a d).1
  unfolding handle_add_device
  add_device-IsSound json now probe (err e) a d h = h
  add_device-IsSound json now probe (ok address) a d h =
      elim (Bool-cases (str_eq (trim_space address) [])) [
        | inl q ↦ rw (q, handle_add_device) h
        | inr q ↦
            rw (add_device-api json now probe address a d q)
              (with_disc _ a h (add-Keyed host json now address probe a.disc d h.keyed))
      ]

  pub delete_device-IsSound :
      (json : Discovery.Codec) (fingerprint : Str) (a : Api) (d : D)
      → IsSound a
      → IsSound (handle_delete_device host json fingerprint a d).1
  unfolding handle_delete_device
  delete_device-IsSound json fingerprint a d h =
      let k = remove-Keyed host json fingerprint a.disc d h.keyed in
      elim (Bool-cases (remove host json fingerprint a.disc d).0) [
        | inl q ↦ rw (q, handle_delete_device) (with_disc _ a h k)
        | inr q ↦ rw (q, handle_delete_device) (with_disc _ a h k)
      ]

  -- Only the receive pipeline may change.
  pub record SameBut (a a' : Api) : Type 0 where
    pub settings : a'.settings ≡ a.settings
    pub disc : a'.disc ≡ a.disc
    pub tm : a'.tm ≡ a.tm

  pub SameBut-IsSound : (a a' : Api) → SameBut a a' → IsSound a → IsSound a'
  SameBut-IsSound a a' k h = record {
    in_range = rw k.settings h.in_range;
    keyed = rw k.disc h.keyed;
    listed = rw k.tm h.listed;
  }

  pub decision-SameBut :
      (id : Str) (body : Result Str DecisionBody) (a : Api)
      → SameBut a (handle_receive_decision id body a).1
  unfolding handle_receive_decision
  decision-SameBut id body a = elim (Option-cases a.rcv) [
    | inl e ↦ rw (handle_receive_decision, e) (record { settings = refl; disc = refl; tm = refl })
    | inr (m, e) ↦ elim (Result-cases body) [
      | inr (bad, q) ↦
          rw (handle_receive_decision, e, q) (record { settings = refl; disc = refl; tm = refl })
      | inl (b, q) ↦ elim (Option-cases (decide a.store id b.accept b.share m).0) [
        | inl k ↦
            rw (handle_receive_decision, e, q, decided, k)
              (record { settings = refl; disc = refl; tm = refl })
        | inr (bad, k) ↦
            rw (handle_receive_decision, e, q, decided, k)
              (record { settings = refl; disc = refl; tm = refl })
      ]
    ]
  ]
