-- ===== src/Tests/Parts.antt =====
-- The configuration, the identity and the parts behind the servers in the examples.
use localsend_nas.Prelude.{false, [], ◌∷◌, some, Str, codes, pos, ok}
use localsend_nas.Config.{Share, Config}
use localsend_nas.Identity.{Certificate, Crypto, Identity}
use localsend_nas.Settings
use localsend_nas.Discovery
use localsend_nas.Receive
use localsend_nas.Transfer
use localsend_nas.HttpApi.{Api}
use localsend_nas.Main.{own_info, hide_entry}
use localsend_nas.Tests.Disk.{Disk}
use localsend_nas.Tests.Scene.{shares, nas, root, empty_disk}

abbrev pub der : Str
der = codes "der"

abbrev pub cert : Certificate
cert = record { chain = der ∷ []; private_key = codes "k" }

-- Signatures and digests that are easy to compute.
abbrev pub crypto : Crypto
crypto = record {
  sha256 = λ s. s;
  generate_key = ok (codes "k");
  random_serial = ok (codes "1");
  create_certificate = λ t k. ok der;
  marshal_key = λ k. ok k;
  pem_certificate = λ s. s;
  pem_key = λ s. s;
  key_pair = λ c k. ok (record { chain = c ∷ []; private_key = k });
}

abbrev pub own : Identity
own = record { cert = cert; fingerprint = codes "646572" }

abbrev pub nas_share : Share
nas_share = record { name = nas; path = root }

abbrev pub cfg : Config
cfg = record {
  listen = codes ":80";
  ls_port = pos 53317;
  shares = nas_share ∷ [];
  alias = codes "Nas node";
  data_dir = root;
  read_only = false;
}

abbrev pub defaults_store : Settings.Store
defaults_store = record { path = codes "/srv/nas/settings.json"; s = Settings.defaults }

abbrev pub api : Api
api = record {
  cfg = cfg;
  store = record shares { hide_entry = some (hide_entry Settings.defaults) };
  disc = Discovery.new (own_info cfg own.fingerprint) (codes "/srv/nas/targets.json");
  tm = Transfer.set_receive_cancel Transfer.new;
  settings = defaults_store;
  rcv = some Receive.new;
  info = own_info cfg own.fingerprint;
  version = codes "1.0";
  events = [];
}

-- The disk with the identity.
abbrev pub other_disk : Disk
other_disk = record empty_disk {
  files = (codes "/srv/nas/cert.pem", der) ∷ (codes "/srv/nas/key.pem", codes "k") ∷ [];
}
