-- ===== src/Tests/Runs.antt =====
-- Examples of runs of the program: an offer, its acceptance in the web UI, and the upload.
use localsend_nas.Prelude.{Bool, true, [], ◌∷◌, ◌++◌, none, some, Str, codes}
use localsend_nas.LocalSend.{PrepareRequest}
use localsend_nas.Receive
use localsend_nas.Receive.{
  Manager, Hook, Fault, File, Session, accepted, receive_registered, receive_state,
  receive_progress, receive_file_done,
}
use localsend_nas.Transfer.Reach.{Steps}
use localsend_nas.LsServer.{Server}
use localsend_nas.LsServer.Steps as DeviceRequests
use localsend_nas.HttpApi.{Api}
use localsend_nas.Main.{server_of}
use localsend_nas.Main.Node.{absorb}
use localsend_nas.Tests.Disk.{Disk, memory}
use localsend_nas.Tests.Uploads.{finished, final}
use localsend_nas.Tests.Scene.{sid, fid, agreed, waiting, dto, phone}
use localsend_nas.Tests.Sessions.{yes}
use localsend_nas.Tests.Parts.{api, other_disk}

abbrev message : Fault → Str
message e = codes "error"

abbrev due : Hook → Bool
due h = true

abbrev offer_body : PrepareRequest
offer_body = record { info = phone; files = (fid, dto) ∷ [] }

-- A node without a certificate of its own offers a file.
abbrev registered : Manager
registered = record {
  sessions = (sid, waiting) ∷ [];
  in_progress = [];
  trace = receive_registered waiting ∷ [];
}

abbrev offered : Server
offered = record (server_of api) { receiver = some registered }

-- The web UI accepts it.
abbrev pub agreeing : Session
agreeing = record waiting { decision = some yes }

abbrev told : Manager
told = record registered { sessions = (sid, agreeing) ∷ [] }

abbrev shown : Api
shown = absorb memory message due offered (receive_registered waiting ∷ []) api

abbrev accepted_api : Api
accepted_api = record shown { rcv = some told }

-- The offer is answered.
abbrev accepted_manager : Manager
accepted_manager = record {
  sessions = (sid, agreed) ∷ [];
  in_progress = [];
  trace = receive_registered waiting ∷ receive_state sid accepted none ∷ [];
}

abbrev answered : Server
answered = record (server_of accepted_api) { receiver = some accepted_manager }

abbrev answered_api : Api
answered_api =
    absorb memory message due answered (receive_state sid accepted none ∷ []) accepted_api

-- The file arrives.
abbrev arrived : Manager
arrived = record finished {
  trace = receive_registered waiting ∷ receive_state sid accepted none ∷ finished.trace;
}

abbrev uploaded : Server
uploaded = record (server_of answered_api) { receiver = some arrived }

abbrev filed_disk : Disk
filed_disk = record {
  dirs = codes "/srv/nas/in" ∷ other_disk.dirs;
  files = other_disk.files ++ (final, 1 ∷ 2 ∷ 3 ∷ []) ∷ [];
}

abbrev uploaded_api : Api
uploaded_api = absorb memory message due uploaded finished.trace answered_api
