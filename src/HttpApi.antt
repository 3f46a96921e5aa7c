-- ===== src/HttpApi.antt =====
-- internal/httpapi/api.go: the handlers behind the web UI. The decoder of a request's body gives its
-- result as an argument; a response is its status and what is encoded into the body.
pub mod Sending
pub mod Events
pub mod Selftest
pub mod Spa
pub mod Sound
pub mod Requests
pub mod Answers
use localsend_nas.Prelude.{
  ℕ, Bool, true, false, not, ◌||◌, List, [], ◌∷◌, Option, none, some, Str, codes, ℤ, str_eq, map,
  trim_space, if◌then◌else◌, Result, ok, err,
}
use localsend_nas.LocalSend.{Info}
use localsend_nas.Host.{Host}
use localsend_nas.Config.{Config}
use localsend_nas.Shares
use localsend_nas.Shares.{ShareError, unknown_share, not_found, outside_root, names, path}
use localsend_nas.Settings
use localsend_nas.Settings.{SettingsError}
use localsend_nas.Discovery
use localsend_nas.Discovery.{Device, AddError, snapshot, add, remove}
use localsend_nas.Receive
use localsend_nas.Receive.{Fault}
use localsend_nas.Receive.Prepare.{decide}
use localsend_nas.Transfer
use localsend_nas.Transfer.{Job}
use localsend_nas.Transfer.Expand.{ExpandError}

-- API; `rcv` is `none` in read-only mode. `events` are the clients of the global stream, each with
-- what its channel holds.
pub record Api : Type 0 where
  pub cfg : Config
  pub store : Shares.Store
  pub disc : Discovery.Discovery
  pub tm : Transfer.Manager
  pub settings : Settings.Store
  pub rcv : Option Receive.Manager
  pub info : Info
  pub version : Str
  pub events : List (ℕ × List Job)

pub record Health : Type 0 where
  pub version : Str
  pub protocol : Str
  pub alias : Str
  pub fingerprint : Str
  pub ls_port : ℤ

pub record ShareDto : Type 0 where
  pub name : Str
  pub path : Str

pub record DeviceDto : Type 0 where
  pub fingerprint : Str
  pub alias : Str
  pub ip : Str
  pub port : ℤ
  pub device_type : Str
  pub device_model : Str
  pub last_seen : ℕ
  pub manual : Bool

-- The errors that are encoded into the body of a response.
pub data Problem : Type 0 where
  text : Str → Problem
  share_problem : ShareError → Problem
  settings_problem : SettingsError → Problem
  device_problem : AddError → Problem
  receive_problem : Fault → Problem
  send_problem : ExpandError → Problem

pub data Content : Type 0 where
  empty : Content
  problem : Problem → Content
  health : Health → Content
  preferences : Settings.Settings → Content
  shares : List ShareDto → Content
  entries : List Shares.Entry → Content
  devices : List DeviceDto → Content
  device : DeviceDto → Content
  job_id : Str → Content
  jobs : List Job → Content

pub record Reply : Type 0 where
  pub status : ℕ
  pub content : Content

-- writeJSON
abbrev pub reply : ℕ → Content → Reply
reply status content = record { status = status; content = content }

-- writeError
abbrev pub failure : ℕ → Problem → Reply
failure status e = reply status (problem e)

abbrev pub invalid_body : Reply
invalid_body = failure 400 (text (codes "invalid body"))

abbrev pub no_content : Reply
no_content = reply 204 empty

abbrev pub protocol_version : Str
protocol_version = codes "2.2"

-- handleHealth
abbrev pub handle_health : Api → Reply
handle_health a = reply 200 (
    health (record {
      version = a.version;
      protocol = protocol_version;
      alias = a.info.alias;
      fingerprint = a.info.fingerprint;
      ls_port = a.cfg.ls_port;
    }))

-- handleGetSettings
abbrev pub handle_get_settings : Api → Reply
handle_get_settings a = reply 200 (preferences a.settings.s)

-- The loop of `handleShares`.
unfoldable pub share_dtos : Shares.Store → List Str → List ShareDto
unfolding path
share_dtos store [] = []
share_dtos store (name ∷ rest) =
    record { name = name; path = elim (path store name) [ none ↦ [] | some p ↦ p ] }
    ∷ share_dtos store rest

-- handleShares
unfoldable pub handle_shares : Api → Reply
unfolding share_dtos names
handle_shares a = reply 200 (shares (share_dtos a.store (names a.store)))

-- The status of an error of `List`.
abbrev pub list_status : ShareError → ℕ
list_status unknown_share = 404
list_status not_found = 404
list_status outside_root = 403
list_status _ = 400

-- toDTO
abbrev pub to_dto : Device → DeviceDto
to_dto d = record {
  fingerprint = d.info.fingerprint;
  alias = d.info.alias;
  ip = d.ip;
  port = d.info.port;
  device_type = d.info.device_type;
  device_model = d.info.device_model;
  last_seen = d.last_seen;
  manual = d.manual;
}

-- handleDevices
unfoldable pub handle_devices : Api → Reply
unfolding snapshot
handle_devices a = reply 200 (devices (map to_dto (snapshot a.disc)))

-- A request for a decision.
pub record DecisionBody : Type 0 where
  pub accept : Bool
  pub share : Str

abbrev pub decided : Api → Option Fault × Receive.Manager → Reply × Api
decided a (some e, m) = (failure 400 (receive_problem e), record a { rcv = some m })
decided a (none, m) = (no_content, record a { rcv = some m })

-- handleReceiveDecision
unfoldable pub handle_receive_decision : Str → Result Str DecisionBody → Api → Reply × Api
handle_receive_decision id body a = elim a.rcv [
  | none ↦ (failure 403 (text (codes "read-only mode")), a)
  | some m ↦ elim body [
    | err e ↦ (invalid_body, a)
    | ok b ↦ decided a (decide a.store id b.accept b.share m)
  ]
]

module _ {D : Type 0} (host : Host D) where
  -- handlePutSettings
  unfoldable pub handle_put_settings :
      Settings.Codec → Result Str Settings.Settings → Api → D → Reply × Api × D
  handle_put_settings json (err e) a d = (invalid_body, a, d)
  handle_put_settings json (ok input) a d =
      let (result, st, d1) = Settings.update host json d a.settings input in
      elim result [
        | err e ↦ (failure 500 (settings_problem e), record a { settings = st }, d1)
        | ok out ↦ (reply 200 (preferences out), record a { settings = st }, d1)
      ]

  -- handleList, of the parameters of the query; `to_lower` is strings.ToLower.
  unfoldable pub handle_list : (Str → Str) → Str → Str → Api → D → Reply
  handle_list to_lower share rel a d = elim (Shares.list host d to_lower a.store share rel) [
    | err e ↦ failure (list_status e) (share_problem e)
    | ok es ↦ reply 200 (entries es)
  ]

  module _ (json : Discovery.Codec) where
    -- handleAddDevice; `probe` is that of the client.
    unfoldable pub handle_add_device :
        ℕ → (Str → ℕ → Result Str Info) → Result Str Str → Api → D → Reply × Api × D
    handle_add_device now probe (err e) a d =
        (failure 400 (text (codes "body must be {\"address\":\"host[:port]\"}")), a, d)
    handle_add_device now probe (ok address) a d =
        if str_eq (trim_space address) []
        then (failure 400 (text (codes "body must be {\"address\":\"host[:port]\"}")), a, d)
        else let (result, disc, d1) = add host json now address probe a.disc d in
          elim result [
            | err e ↦ (failure 400 (device_problem e), record a { disc = disc }, d1)
            | ok dev ↦ (reply 200 (device (to_dto dev)), record a { disc = disc }, d1)
          ]

    -- handleDeleteDevice
    unfoldable pub handle_delete_device : Str → Api → D → Reply × Api × D
    handle_delete_device fingerprint a d =
        let (found, disc, d1) = remove host json fingerprint a.disc d in
        if found
        then (no_content, record a { disc = disc }, d1)
        else (failure 404 (text (codes "unknown device")), record a { disc = disc }, d1)
