-- ===== src/Tests/Devices.antt =====
-- Examples of the registry of devices.
use localsend_nas.Prelude.{true, false, [], ◌∷◌, codes, ◌↔◌, In}
use localsend_nas.LocalSend.{Info}
use localsend_nas.Discovery.{Device, Discovery, evict}
use localsend_nas.Discovery.Registry.{IsCurrent, evict_iff}
use localsend_nas.Tests.Scene.{phone}

-- This node, a manual target, and a phone that was seen long ago.
abbrev pub this_node : Info
this_node = record phone { alias = codes "nas"; fingerprint = codes "00" }

abbrev pub desk : Device
desk = record {
  info = record phone { alias = codes "desk"; fingerprint = codes "d0" };
  ip = codes "10.0.0.3";
  last_seen = 0;
  manual = true;
}

abbrev pub old_phone : Device
old_phone = record { info = phone; ip = codes "10.0.0.2"; last_seen = 0; manual = false }

abbrev pub registry : Discovery
registry = record {
  info = this_node;
  devices = (codes "f0", old_phone) ∷ (codes "d0", desk) ∷ [];
  targets_path = codes "/data/targets.json";
}

evict_iff_example :
    In (codes "d0", desk) (evict 200000000000 registry).devices
    ↔ (In (codes "d0", desk) registry.devices × IsCurrent 200000000000 desk)
evict_iff_example = evict_iff 200000000000 registry (codes "d0") desk
