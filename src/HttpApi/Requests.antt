-- ===== src/HttpApi/Requests.antt =====
-- Sequences of the requests that internal/httpapi/api.go serves, and what stays true of the parts of
-- the program behind them.

use localsend_nas.Prelude.{ℕ, Bool, false, some, Str, Result, ◌≡◌}
use localsend_nas.LocalSend.{Info}
use localsend_nas.Host.{Host}
use localsend_nas.Shares.{ShareError}
use localsend_nas.Settings
use localsend_nas.Settings.{Settings, clamp, update}
use localsend_nas.Discovery
use localsend_nas.Discovery.{upsert, evict, add, remove, get}
use localsend_nas.Discovery.Registry.{upsert-Keyed, keyed-evict_from}
use localsend_nas.Receive.{Fault, Hook}
use localsend_nas.Transfer.{unsubscribe}
use localsend_nas.Transfer.Jobs.{holds}
use localsend_nas.Transfer.Listing.{unsubscribe-Listed}
use localsend_nas.HttpApi.{
  Api, Reply, DecisionBody, handle_put_settings, handle_receive_decision, handle_add_device,
  handle_delete_device,
}
use localsend_nas.HttpApi.Sending.{
  SendBody, handle_send, handle_delete_transfer, handle_cancel_transfer,
}
use localsend_nas.HttpApi.Events.{open_stream}
use localsend_nas.HttpApi.Sound.{
  IsSound, put_settings-IsSound, add_device-IsSound, delete_device-IsSound, with_disc, with_tm,
  decision-SameBut, SameBut-IsSound,
}
use localsend_nas.HttpApi.Sound.Transfers.{
  delete-IsSound, open-IsSound, send-IsSound, cancel-IsSound,
}

module _ {D : Type 0} (host : Host D) where
  -- One request that may change something, an announcement that is heard, or an eviction.
  pub data Request : Api → D → D → Api → Type 0 where
    puts_settings :
        (json : Settings.Codec) (body : Result Str Settings) (a : Api) (d : D)
        → Request a d
            (handle_put_settings host json body a d).2
            (handle_put_settings host json body a d).1
    adds_device :
        (json : Discovery.Codec) (now : ℕ) (probe : Str → ℕ → Result Str Info)
        (body : Result Str Str) (a : Api) (d : D)
        → Request a d
            (handle_add_device host json now probe body a d).2
            (handle_add_device host json now probe body a d).1
    deletes_device :
        (json : Discovery.Codec) (fingerprint : Str) (a : Api) (d : D)
        → Request a d
            (handle_delete_device host json fingerprint a d).2
            (handle_delete_device host json fingerprint a d).1
    hears :
        (now : ℕ) (info : Info) (ip : Str) (a : Api) (d : D)
        → Request a d d (record a { disc = upsert now info ip a.disc })
    evicts : (now : ℕ) (a : Api) (d : D) → Request a d d (record a { disc = evict now a.disc })
    decides :
        (id : Str) (body : Result Str DecisionBody) (a : Api) (d : D)
        → Request a d d (handle_receive_decision id body a).1
    sends :
        (quote : Str → Str) (describe : ShareError → Str) (to_lower : Str → Str) (fuel : ℕ)
        (id : Str) (now : ℕ) (body : Result Str SendBody) (a : Api) (d : D) (a' : Api) (r : Reply)
        → holds id a.tm.order ≡ false
        → handle_send quote describe host to_lower fuel id now body a d ≡ some (r, a')
        → Request a d d a'
    cancels :
        (message : Fault → Str) (due : Hook → Bool) (id : Str) (a : Api) (d : D)
        → Request a d
            (handle_cancel_transfer message due host id a d).2
            (handle_cancel_transfer message due host id a d).1
    deletes : (id : Str) (a : Api) (d : D) → Request a d d (handle_delete_transfer id a).1
    opens :
        (sub : ℕ) (flushes : Bool) (id : Str) (a : Api) (d : D)
        → Request a d d (open_stream sub flushes id a).1
    leaves :
        (sub : ℕ) (id : Str) (a : Api) (d : D)
        → Request a d d (record a { tm = unsubscribe sub id a.tm })

  pub data Requests : Api → D → D → Api → Type 0 where
    idle : (a : Api) (d : D) → Requests a d d a
    next :
        (a : Api) (d d1 d' : D) (a1 a' : Api)
        → Request a d d1 a1
        → Requests a1 d1 d' a'
        → Requests a d d' a'

  Request-IsSound : (a : Api) (d d' : D) (a' : Api) → Request a d d' a' → IsSound a → IsSound a'
  unfolding upsert evict
  Request-IsSound _ _ _ _ (puts_settings json body a d) h =
      put_settings-IsSound host json body a d h
  Request-IsSound _ _ _ _ (adds_device json now probe body a d) h =
      add_device-IsSound host json now probe body a d h
  Request-IsSound _ _ _ _ (deletes_device json fp a d) h = delete_device-IsSound host json fp a d h
  Request-IsSound _ _ _ _ (hears now info ip a d) h =
      with_disc host _ a h (upsert-Keyed now info ip a.disc h.keyed)
  Request-IsSound _ _ _ _ (evicts now a d) h =
      with_disc host _ a h
        (record { entries = keyed-evict_from a.disc.info.fingerprint now _ h.keyed.entries })
  Request-IsSound _ _ _ _ (decides id body a d) h =
      SameBut-IsSound host a _ (decision-SameBut host id body a) h
  Request-IsSound _ _ _ _ (sends quote describe to_lower fuel id now body a d a' r f q) h =
      send-IsSound host quote describe to_lower fuel id now body a d a' r f q h
  Request-IsSound _ _ _ _ (cancels message due id a d) h = cancel-IsSound host message due id a d h
  Request-IsSound _ _ _ _ (deletes id a d) h = delete-IsSound host id a h
  Request-IsSound _ _ _ _ (opens sub flushes id a d) h = open-IsSound host sub flushes id a h
  Request-IsSound _ _ _ _ (leaves sub id a d) h =
      with_tm host _ a h (unsubscribe-Listed sub id a.tm h.listed)

  -- Whatever the web UI asks for, in any order, with announcements and evictions between, and with
  -- a fresh id for each job, these stay true: the countdown is within 5 to 300 seconds, the
  -- registry holds each device under its fingerprint and never this node, and the list shows
  -- distinct jobs of the map.
  pub Requests-IsSound :
      (a : Api) (d d' : D) (a' : Api) → Requests a d d' a' → IsSound a → IsSound a'
  Requests-IsSound _ _ _ _ (idle a d) h = h
  Requests-IsSound _ _ _ _ (next a d d1 d' a1 a' r rs) h =
      Requests-IsSound a1 d1 d' a' rs (Request-IsSound a d d1 a1 r h)
