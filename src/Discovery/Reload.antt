-- ===== src/Discovery/Reload.antt =====
-- The manual targets of internal/discovery/discovery.go across restarts.
use mathlib.Core.List.{Perm}
use localsend_nas.Prelude.{
  ℕ, ◌≤◌, Bool, true, false, List, [], ◌∷◌, none, Str, Map, pos, str_lt, sort, sort-perm, All,
  All-sort, In, here, there, Result, ok, if◌then◌else◌, ◌≡◌, refl, sym, ap, ◌∙◌,
}
use localsend_nas.LocalSend.{Info}
use localsend_nas.Host.{Host, FileLaws}
use localsend_nas.Net.{join_host_port, decimal_int}
use localsend_nas.Discovery.{
  Device, Discovery, Codec, devices_of, manual_addresses, parse_address, save_targets, add_all,
  load_targets,
}
use localsend_nas.Discovery.Address.{IsHost, parse_address-join_host_port}

-- A device at a host that an address can carry, with a port.
pub record IsReachable (dev : Device) : Type 0 where
  pub host : IsHost dev.ip
  pub port : ℕ
  pub is_port : dev.info.port ≡ pos port
  pub above : 1 ≤ port
  pub below : port ≤ 65535

-- The address is that of a manual device.
pub record IsTarget (devices : List Device) (address : Str) : Type 0 where
  pub device : Device
  pub member : In device devices
  pub manual : device.manual ≡ true
  pub port : ℕ
  pub is_port : device.info.port ≡ pos port
  pub parsed : parse_address address ≡ ok (device.ip, port)

IsTarget-there :
    (dev : Device) (devices : List Device) (a : Str)
    → IsTarget devices a
    → IsTarget (dev ∷ devices) a
IsTarget-there dev devices a h = record {
  device = h.device;
  member = there h.member;
  manual = h.manual;
  port = h.port;
  is_port = h.is_port;
  parsed = h.parsed;
}

All-there :
    (dev : Device) (devices : List Device) (addrs : List Str)
    → All (IsTarget devices) addrs
    → All (IsTarget (dev ∷ devices)) addrs
All-there dev devices [] h = tt
All-there dev devices (a ∷ addrs) (h, hs) =
    (IsTarget-there dev devices a h, All-there dev devices addrs hs)

manual-IsTarget :
    (dev : Device) (devices : List Device)
    → IsReachable dev
    → dev.manual ≡ true
    → IsTarget (dev ∷ devices) (join_host_port dev.ip (decimal_int dev.info.port))
manual-IsTarget dev devices h m = record {
  device = dev;
  member = here refl;
  manual = m;
  port = h.port;
  is_port = h.is_port;
  parsed =
      ap (λ p. parse_address (join_host_port dev.ip (decimal_int p))) h.is_port
      ∙ parse_address-join_host_port dev.ip h.port h.host h.above h.below;
}

All-IsTarget :
    (devices : Map Device)
    → All IsReachable (devices_of devices)
    → All (IsTarget (devices_of devices)) (manual_addresses devices)
All-IsTarget [] h = tt
All-IsTarget ((fp, dev) ∷ rest) (h, hs) =
    let later = All-there dev (devices_of rest) (manual_addresses rest) (All-IsTarget rest hs) in
    All-when (IsTarget (dev ∷ devices_of rest)) dev.manual _ (manual_addresses rest)
      (manual-IsTarget dev (devices_of rest) h) later
  where
    All-when :
        (P : Str → Type 0) (b : Bool) (x : Str) (xs : List Str)
        → (b ≡ true → P x)
        → All P xs
        → All P (if b then x ∷ xs else xs)
    All-when P true x xs h k = (h refl, k)
    All-when P false x xs h k = k

-- The JSON codec reads what it wrote.
pub record CodecLaws (json : Codec) : Type 0 where
  pub decode-encode :
      (addrs : List Str) (bytes : Str) → json.encode addrs ≡ ok bytes → json.decode bytes ≡ ok addrs

module _ {D : Type 0} (host : Host D) (json : Codec) where
  save_targets-eq :
      (d : Discovery) (disk : D) (bytes : Str)
      → json.encode (sort str_lt (manual_addresses d.devices)) ≡ ok bytes
      → save_targets host json d disk ≡ (host.write_file disk d.targets_path bytes).1
  unfolding save_targets
  save_targets-eq d disk bytes e = rw (save_targets, e) refl

  reloaded :
      (now : ℕ) (probe : Str → ℕ → Result Str Info) (d fresh : Discovery) (disk : D) (bytes : Str)
      → CodecLaws json
      → json.encode (sort str_lt (manual_addresses d.devices)) ≡ ok bytes
      → host.read_file disk fresh.targets_path ≡ ok bytes
      → load_targets host json now probe fresh disk
        ≡ add_all host json now probe (sort str_lt (manual_addresses d.devices)) fresh disk
  unfolding load_targets
  reloaded now probe d fresh disk bytes laws e read =
      rw (load_targets, read, laws.decode-encode _ bytes e) refl

  -- A later start takes up the manual targets of the registry.
  pub record Reloads (now : ℕ) (probe : Str → ℕ → Result Str Info) (d fresh : Discovery) (disk : D)
      : Type 0 where
    pub addresses : List Str
    pub taken_up :
        load_targets host json now probe fresh (save_targets host json d disk)
        ≡ add_all host json now probe addresses fresh (save_targets host json d disk)
    pub every : Perm addresses (manual_addresses d.devices)
    pub targets : All (IsTarget (devices_of d.devices)) addresses

  -- Where the targets are encoded and written without an error, files read back as written and the
  -- codec decodes what it encoded: a later start with the same file adds the addresses of all
  -- manual devices, one after the other, and each is parsed to the host and the port of a manual
  -- device, if the devices have hosts without brackets and leading blanks and ports within 1 to
  -- 65535.
  pub load_targets-save_targets :
      (now : ℕ) (probe : Str → ℕ → Result Str Info) (d fresh : Discovery) (disk : D) (bytes : Str)
      → FileLaws host
      → CodecLaws json
      → fresh.targets_path ≡ d.targets_path
      → All IsReachable (devices_of d.devices)
      → json.encode (sort str_lt (manual_addresses d.devices)) ≡ ok bytes
      → (host.write_file disk d.targets_path bytes).0 ≡ none
      → Reloads now probe d fresh disk
  load_targets-save_targets now probe d fresh disk bytes files laws same reachable e w =
      let addrs = sort str_lt (manual_addresses d.devices) in
      let written : host.write_file disk d.targets_path bytes
          ≡ (none, (host.write_file disk d.targets_path bytes).1) =
        λ i. (w i, (host.write_file disk d.targets_path bytes).1) in
      let saved = save_targets-eq d disk bytes e in
      let read =
        ap (λ p. host.read_file (host.write_file disk d.targets_path bytes).1 p) same
        ∙ files.read-write disk _ d.targets_path bytes written in
      record {
        addresses = addrs;
        taken_up =
            ap (load_targets host json now probe fresh) saved
            ∙ reloaded now probe d fresh (host.write_file disk d.targets_path bytes).1 bytes laws e
                read
            ∙ ap (add_all host json now probe addrs fresh) (sym saved);
        every = sort-perm str_lt (manual_addresses d.devices);
        targets =
            All-sort (IsTarget (devices_of d.devices)) str_lt (manual_addresses d.devices)
              (All-IsTarget d.devices reachable);
      }
