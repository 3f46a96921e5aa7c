-- ===== src/Discovery.antt =====
-- The registry of devices of internal/discovery/discovery.go. The loops that announce and listen are
-- I/O: what they hear comes in by `upsert`. Times are in nanoseconds; what the probe of
-- the client gives is an argument.
pub mod Registry
pub mod Address
pub mod Reload
use localsend_nas.Prelude.{
  pos_part, ltb_ℤ, trim_space, sscanf_int, codes, ℕ, ◌+◌, Bool, true, false, not, ◌&&◌, ◌||◌, List,
  [], ◌∷◌, ◌++◌, Option, none, some, Str, Map, ℤ, pos, negsuc, suc, str_eq, str_lt, sort,
  contains_byte, lookup, insert, delete, eqb_ℤ, ltb, if◌then◌else◌, Result, ok, err,
}
use localsend_nas.Net.{colon, join_host_port, decimal_int, split_host_port}
use localsend_nas.Host.{Host, OsError}
use localsend_nas.LocalSend.{Info}

pub record Device : Type 0 where
  pub info : Info
  pub ip : Str
  pub last_seen : ℕ
  pub manual : Bool

pub record Discovery : Type 0 where
  pub info : Info
  pub devices : Map Device
  pub targets_path : Str

-- New
abbrev pub new : Info → Str → Discovery
new info targets_path = record { info = info; devices = []; targets_path = targets_path }

-- Get
abbrev pub get : Str → Discovery → Option Device
get fingerprint d = lookup fingerprint d.devices

abbrev pub devices_of : Map Device → List Device
devices_of [] = []
devices_of ((_, dev) ∷ rest) = dev ∷ devices_of rest

-- The `less` of `Snapshot`: by alias, then by fingerprint.
abbrev pub before : Device → Device → Bool
before a b =
    if not (str_eq a.info.alias b.info.alias)
    then str_lt a.info.alias b.info.alias
    else str_lt a.info.fingerprint b.info.fingerprint

-- Snapshot
unfoldable pub snapshot : Discovery → List Device
snapshot d = sort before (devices_of d.devices)

-- A device that is seen: what is known of it but for `manual` is new.
abbrev pub seen : ℕ → Info → Str → Option Device → Device
seen now info ip none = record { info = info; ip = ip; last_seen = now; manual = false }
seen now info ip (some dev) = record dev { info = info; ip = ip; last_seen = now }

-- Upsert
unfoldable pub upsert : ℕ → Info → Str → Discovery → Discovery
upsert now info source_ip d =
    if str_eq info.fingerprint [] || str_eq info.fingerprint d.info.fingerprint
    then d
    else record d {
      devices =
          insert info.fingerprint (seen now info source_ip (lookup info.fingerprint d.devices))
            d.devices;
    }

abbrev pub registry_ttl : ℕ
registry_ttl = 120000000000

-- The test of `evict`.
abbrev pub expired : ℕ → Device → Bool
expired now dev = not dev.manual && ltb (dev.last_seen + registry_ttl) now

abbrev pub evict_from : ℕ → Map Device → Map Device
evict_from now [] = []
evict_from now ((fp, dev) ∷ rest) =
    let kept = evict_from now rest in if expired now dev then kept else (fp, dev) ∷ kept

-- evict
unfoldable pub evict : ℕ → Discovery → Discovery
evict now d = record d { devices = evict_from now d.devices }

abbrev pub default_port : ℕ
default_port = 53317

-- The port of an address, which has to be one.
abbrev pub with_host : Str → Option ℤ → Result Str (Str × ℕ)
with_host host none = err (codes "invalid port")
with_host host (some n) =
    if ltb_ℤ n (pos 1) || ltb_ℤ (pos 65535) n
    then err (codes "invalid port")
    else ok (host, pos_part n)

-- parseAddress; an error is its text, without the address in it.
unfoldable pub parse_address : Str → Result Str (Str × ℕ)
unfolding trim_space split_host_port sscanf_int
parse_address text =
    let address = trim_space text in
    if str_eq address [] then err (codes "empty address") else elim (split_host_port address) [
      | some (host, port) ↦ with_host host (sscanf_int port)
      | none ↦
          if contains_byte address colon
          then err (codes "invalid address")
          else ok (address, default_port)
    ]

-- announcement
abbrev pub announcement : Discovery → Info
announcement d = record d.info { announce = true }

-- The addresses of the manual devices.
abbrev pub manual_addresses : Map Device → List Str
manual_addresses [] = []
manual_addresses ((_, dev) ∷ rest) =
    let more = manual_addresses rest in
    if dev.manual then join_host_port dev.ip (decimal_int dev.info.port) ∷ more else more

pub data AddError : Type 0 where
  bad_address probe_failed : Str → AddError
  own_address : AddError

-- The port of the address, where the info has none.
abbrev pub with_port : ℕ → Info → Info
with_port port info = if eqb_ℤ info.port (pos 0) then record info { port = pos port } else info

-- The device of `Add` in the registry.
abbrev pub registered : ℕ → Str → Info → Discovery → Discovery
registered now ip info d = record d {
  devices =
      insert info.fingerprint
        (record (seen now info ip (lookup info.fingerprint d.devices)) { manual = true }) d.devices;
}

-- json.MarshalIndent and json.Unmarshal on a list of strings.
pub record Codec : Type 0 where
  pub encode : List Str → Result Str Str
  pub decode : Str → Result Str (List Str)

module _ {D : Type 0} (host : Host D) (json : Codec) where
  -- saveTargets; its error is only logged.
  unfoldable pub save_targets : Discovery → D → D
  save_targets d disk = elim (json.encode (sort str_lt (manual_addresses d.devices))) [
    | err _ ↦ disk
    | ok bytes ↦ (host.write_file disk d.targets_path bytes).1
  ]

  -- `Add` from the result of `parseAddress` on; `probe` is that of the client.
  unfoldable pub add_parsed :
      ℕ
      → Result Str (Str × ℕ)
      → (Str → ℕ → Result Str Info)
      → Discovery
      → D
      → Result AddError Device × Discovery × D
  add_parsed now (err e) probe d disk = (err (bad_address e), d, disk)
  add_parsed now (ok (ip, port)) probe d disk = elim (probe ip port) [
    | err e ↦ (err (probe_failed e), d, disk)
    | ok info ↦
        if str_eq info.fingerprint d.info.fingerprint
        then (err own_address, d, disk)
        else let found = with_port port info in
          let d1 = registered now ip found d in
          (
            ok (record (seen now found ip (lookup found.fingerprint d.devices)) { manual = true }),
            d1,
            save_targets d1 disk,
          )
  ]

  -- Add
  unfoldable pub add :
      ℕ → Str → (Str → ℕ → Result Str Info) → Discovery → D → Result AddError Device × Discovery × D
  unfolding parse_address add_parsed
  add now address probe d disk = add_parsed now (parse_address address) probe d disk

  -- Remove
  unfoldable pub remove : Str → Discovery → D → Bool × Discovery × D
  remove fingerprint d disk = elim (lookup fingerprint d.devices) [
    | none ↦ (false, d, disk)
    | some _ ↦
        let d1 : Discovery = record d { devices = delete fingerprint d.devices } in
        (true, d1, save_targets d1 disk)
  ]

  -- The loop of `loadTargets`: an address that cannot be reached is only logged.
  unfoldable pub add_all :
      ℕ → (Str → ℕ → Result Str Info) → List Str → Discovery → D → Discovery × D
  unfolding add
  add_all now probe [] d disk = (d, disk)
  add_all now probe (a ∷ addrs) d disk =
      let (_, d1, disk1) = add now a probe d disk in add_all now probe addrs d1 disk1

  -- loadTargets
  unfoldable pub load_targets : ℕ → (Str → ℕ → Result Str Info) → Discovery → D → Discovery × D
  unfolding add_all
  load_targets now probe d disk = elim (host.read_file disk d.targets_path) [
    | err _ ↦ (d, disk)
    | ok bytes ↦ elim (json.decode bytes) [
      | err _ ↦ (d, disk)
      | ok addrs ↦ add_all now probe addrs d disk
    ]
  ]
