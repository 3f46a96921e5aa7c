-- ===== src/Main.antt =====
-- cmd/localsend-nas/main.go: how the parts are put together. Logging, signals and the listeners are
-- not modelled.
pub mod Serves
pub mod Hidden
pub mod Piped
pub mod Tracked
pub mod Kept
pub mod Node
pub mod Started
use localsend_nas.Prelude.{
  ℕ, Bool, true, false, not, ◌&&◌, List, [], ◌∷◌, Option, none, some, Str, codes, Map, ℤ, insert,
  has_suffix, if◌then◌else◌, Result, ok, err, ◌>>=◌, map_err,
}
use localsend_nas.Filepath.{join_path}
use localsend_nas.LocalSend.{Info}
use localsend_nas.Host.{Host, OsError}
use localsend_nas.Config.{Share, Config, ConfigError}
use localsend_nas.Config.Flags.{parse}
use localsend_nas.Identity
use localsend_nas.Identity.{Crypto, Identity, IdentityError}
use localsend_nas.Shares
use localsend_nas.Shares.{new_store, nas_noise}
use localsend_nas.Settings
use localsend_nas.Settings.{Settings, SettingsError}
use localsend_nas.Discovery
use localsend_nas.Receive
use localsend_nas.Receive.Upload.{part_suffix}
use localsend_nas.Transfer
use localsend_nas.HttpApi.{Api, protocol_version}
use localsend_nas.LsServer.{Server}

-- Why the program ends at its start, and with which status.
pub data StartError : Type 0 where
  config_failed : ConfigError → StartError
  identity_failed : IdentityError → StartError
  shares_failed : OsError → StartError
  settings_failed : SettingsError → StartError

abbrev pub exit_status : StartError → ℕ
exit_status (config_failed _) = 2
exit_status _ = 1

-- The map of the roots: a later share of the same name would replace an earlier one.
unfoldable pub roots_from : Map Str → List Share → Map Str
roots_from roots [] = roots
roots_from roots (sh ∷ shares) = roots_from (insert sh.name sh.path roots) shares

-- store.HideEntry under the settings of the moment.
unfoldable pub hide_entry : Settings → Str → Bool
unfolding has_suffix nas_noise
hide_entry s name =
    if has_suffix name part_suffix then true else not s.show_nas_noise && nas_noise name

-- The store as the other parts see it: the filter looks at the settings when it is called.
abbrev pub filtered : Settings → Shares.Store → Shares.Store
filtered s store = record store { hide_entry = some (hide_entry s) }

abbrev pub with_filter : Api → Api
with_filter a = record a { store = filtered a.settings.s a.store }

abbrev pub own_info : Config → Str → Info
own_info cfg fingerprint = record {
  alias = cfg.alias;
  version = protocol_version;
  device_model = codes "localsend-nas";
  device_type = codes "server";
  fingerprint = fingerprint;
  port = cfg.ls_port;
  protocol = codes "https";
  download = false;
  announce = false;
}

abbrev pub targets_path : Str → Str
targets_path dir = join_path (dir ∷ codes "targets.json" ∷ [])

abbrev pub receiver_of : Config → Option Receive.Manager
receiver_of cfg = if cfg.read_only then none else some Receive.new

-- The job list; the function for cancelling a received session is set with a receiver.
abbrev pub manager_of : Config → Transfer.Manager
manager_of cfg = if cfg.read_only then Transfer.new else Transfer.set_receive_cancel Transfer.new

-- The parts from what was read at the start.
abbrev pub assemble : Str → Config → Identity → Shares.Store → Settings.Store → Api
assemble version cfg id store settings =
    let info = own_info cfg id.fingerprint in
    record {
      cfg = cfg;
      store = filtered settings.s store;
      disc = Discovery.new info (targets_path cfg.data_dir);
      tm = manager_of cfg;
      settings = settings;
      rcv = receiver_of cfg;
      info = info;
      version = version;
      events = [];
    }

-- The server for other devices, which shares its parts with the web UI.
abbrev pub server_of : Api → Server
server_of a = record { info = a.info; registry = a.disc; receiver = a.rcv }

module _ (crypto : Crypto) (json : Settings.Codec) (parse_int : Str → Option ℤ) {D : Type 0}
    (host : Host D) where
  -- The start from the identity on; the identity may have been written to the disk.
  unfoldable pub start_with :
      Str → Config → Result IdentityError Identity × D → Result StartError Api × D
  unfolding roots_from
  start_with version cfg (err e, d) = (err (identity_failed e), d)
  start_with version cfg (ok id, d) = elim (new_store host d (roots_from [] cfg.shares)) [
    | err e ↦ (err (shares_failed e), d)
    | ok store ↦ elim (Settings.load host json d cfg.data_dir) [
      | err e ↦ (err (settings_failed e), d)
      | ok settings ↦ (ok (assemble version cfg id store settings), d)
    ]
  ]

  -- main, up to the servers; `mkdir_all` is os.MkdirAll.
  unfoldable pub start :
      (D → Str → Option OsError × D)
      → Str
      → ℕ
      → (Str → Str)
      → Option Str
      → List Str
      → D
      → Result StartError Api × D
  unfolding start_with
  start mkdir_all version now env hostname args d = elim (parse parse_int env hostname args) [
    | err e ↦ (err (config_failed e), d)
    | ok cfg ↦
        start_with version cfg
          (Identity.load crypto host now cfg.data_dir (mkdir_all d cfg.data_dir))
  ]
