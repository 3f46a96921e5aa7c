-- ===== src/Settings.antt =====
-- internal/settings/settings.go: the preferences that the user may change, kept in settings.json.
pub mod Range
use localsend_nas.Prelude.{
  ℕ, Bool, false, List, [], ◌∷◌, Option, none, some, Str, codes, ℤ, pos, ltb_ℤ, if◌then◌else◌,
  Result, ok, err,
}
use localsend_nas.Filepath.{join_path}
use localsend_nas.Host.{Host, OsError, not_exist, other}

pub record Settings : Type 0 where
  pub accept_timeout_sec : ℤ
  pub dropbox_share : Str
  pub show_nas_noise : Bool

pub record Store : Type 0 where
  pub path : Str
  pub s : Settings

-- encoding/json on `Settings`: a parameter of the model.
pub record Codec : Type 0 where
  pub encode : Settings → Result Str Str
  pub decode : Str → Result Str Settings

pub data SettingsError : Type 0 where
  read_failed : OsError → SettingsError
  parse_failed : Str → SettingsError
  encode_failed : Str → SettingsError
  write_failed : OsError → SettingsError

abbrev pub default_accept_timeout_sec : ℕ
default_accept_timeout_sec = 30

abbrev pub min_accept_timeout_sec : ℕ
min_accept_timeout_sec = 5

abbrev pub max_accept_timeout_sec : ℕ
max_accept_timeout_sec = 300

abbrev raise_low : Settings → Settings
raise_low s =
    if ltb_ℤ s.accept_timeout_sec (pos min_accept_timeout_sec)
    then record s { accept_timeout_sec = pos min_accept_timeout_sec }
    else s

abbrev lower_high : Settings → Settings
lower_high s =
    if ltb_ℤ (pos max_accept_timeout_sec) s.accept_timeout_sec
    then record s { accept_timeout_sec = pos max_accept_timeout_sec }
    else s

unfoldable pub clamp : Settings → Settings
clamp s = lower_high (raise_low s)

abbrev pub defaults : Settings
defaults = record {
  accept_timeout_sec = pos default_accept_timeout_sec;
  dropbox_share = [];
  show_nas_noise = false;
}

abbrev pub settings_path : Str → Str
settings_path dir = join_path (dir ∷ codes "settings.json" ∷ [])

module _ {D : Type 0} (host : Host D) (json : Codec) where
  unfoldable pub load : D → Str → Result SettingsError Store
  load d dir = elim (host.read_file d (settings_path dir)) [
    | err not_exist ↦ ok (record { path = settings_path dir; s = defaults })
    | err (other m) ↦ err (read_failed (other m))
    | ok bytes ↦ elim (json.decode bytes) [
      | err m ↦ err (parse_failed m)
      | ok s ↦ ok (record { path = settings_path dir; s = clamp s })
    ]
  ]

  -- What `Update` returns, the store and the system after it.
  abbrev pub written :
      Store → Settings → Option OsError × D → Result SettingsError Settings × Store × D
  written st s (some e, d) = (err (write_failed e), st, d)
  written st s (none, d) = (ok s, record st { s = s }, d)

  unfoldable pub update : D → Store → Settings → Result SettingsError Settings × Store × D
  update d st input =
      let s = clamp input in
      elim (json.encode s) [
        | err m ↦ (err (encode_failed m), st, d)
        | ok bytes ↦ written st s (host.write_file d st.path bytes)
      ]
