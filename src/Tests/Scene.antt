-- ===== src/Tests/Scene.antt =====
-- The share, the session and the sender's bodies of the examples.
use localsend_nas.Prelude.{
  false, List, [], ◌∷◌, none, some, Str, codes, pos, IsInt64, arith, refl, length, ◌≤◌,
}
use localsend_nas.Filepath.Descend.{IsPlain, NoSlash}
use localsend_nas.Receive.Paths.Numbered.{long-IsPlain}
use localsend_nas.Filepath.Laws.{IsAbsolute}
use localsend_nas.LocalSend.{Info, FileDto}
use localsend_nas.Shares
use localsend_nas.Receive.{Manager, Session, File, accepted, pending}
use localsend_nas.Receive.Upload.{Read, eof}
use localsend_nas.Tests.Disk.{Disk}

abbrev pub root : Str
root = codes "/srv/nas"

abbrev pub nas : Str
nas = codes "nas"

abbrev pub shares : Shares.Store
shares = record { roots = (nas, root) ∷ []; hide_entry = none }

short : (n : Str) → 3 ≤ length n → NoSlash n → IsPlain n
short n l h = long-IsPlain n l h

pub root-IsAbsolute : IsAbsolute root
root-IsAbsolute = record {
  first = codes "srv";
  rest = codes "nas" ∷ [];
  plain = (
    short (codes "srv") (omega arith) (omega arith),
    (short (codes "nas") (omega arith) (omega arith), tt),
  );
  shape = refl;
}

abbrev pub empty_disk : Disk
empty_disk = record { dirs = root ∷ []; files = [] }

abbrev pub phone : Info
phone = record {
  alias = codes "phone";
  version = codes "2.1";
  device_model = [];
  device_type = codes "mobile";
  fingerprint = codes "f0";
  port = pos 53317;
  protocol = codes "https";
  download = false;
  announce = false;
}

abbrev pub sid : Str
sid = codes "s"

abbrev pub fid : Str
fid = codes "a"

abbrev pub dto : FileDto
dto = record {
  id = fid;
  file_name = codes "in/a.txt";
  size = pos 3;
  file_type = codes "text/plain";
  sha256 = none;
  metadata = none;
}

abbrev pub file : File
file = record { dto = dto; received = pos 0; done = false; part_path = [] }

abbrev pub waiting : Session
waiting = record {
  id = sid;
  sender = phone;
  sender_ip = codes "10.0.0.2";
  files = (fid, file) ∷ [];
  state = pending;
  dest_share = [];
  created_at = 7;
  tokens = [];
  decision = none;
  stopped = false;
}

abbrev pub token : Str
token = codes "t"

abbrev pub agreed : Session
agreed = record waiting { state = accepted; dest_share = nas; tokens = (fid, token) ∷ [] }

abbrev pub with_session : Session → Manager
with_session s = record { sessions = (sid, s) ∷ []; in_progress = []; trace = [] }

abbrev pub body : List (Read Disk)
body =
    record { bytes = 1 ∷ 2 ∷ []; end = none; meanwhile = λ m d. (m, d) }
    ∷ record { bytes = 3 ∷ []; end = some eof; meanwhile = λ m d. (m, d) }
    ∷ []

pub dto-IsInt64 : IsInt64 dto.size
dto-IsInt64 = record { above = omega arith; below = omega arith }
