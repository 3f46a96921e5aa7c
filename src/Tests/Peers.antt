-- ===== src/Tests/Peers.antt =====
-- Examples of addresses, saved targets, and the server and the client of other devices.
use localsend_nas.Receive.Paths.{
  claim_final_path, claim_from, numbered, sanitize_all, sanitize_rel_path,
}
use localsend_nas.Shares.{
  collect, confine, entry, entry_less, list, open_file, path, resolve, sanitize_element,
}
use mathlib.Core.List.{append-nil}
use localsend_nas.Prelude.{
  zero, suc, map, ◌∙◌, ℕ, List, [], ◌∷◌, ◌++◌, none, some, Str, codes, Map, pos, Result, ok, err,
  str_eq, str_lt, sort, arith, refl, sym, ap, ok-injective, ◌≡◌, ◌≢◌, ◌↔◌, insert, contains_byte,
  cut, decimal, decimal_from, delete, drop_prefix, equal_fold, has_prefix, has_suffix, hex,
  insert_sorted, join, lookup, replace_byte, scan_digits, skip_blanks, split, sscanf_int, to_lower,
  to_lower_byte, to_upper, to_upper_byte, trim_prefix, trim_space, trim_suffix, ◌+₆₄◌,
}
use localsend_nas.LocalSend.{Info, PrepareRequest, PrepareResponse}
use localsend_nas.Net.{join_host_port, decimal_int}
use localsend_nas.Discovery
use localsend_nas.Discovery.{Device, Discovery, Codec, devices_of, manual_addresses, parse_address}
use localsend_nas.Discovery.Address.{IsHost, parse_address-join_host_port}
use localsend_nas.Discovery.Reload.{IsReachable, CodecLaws, Reloads, load_targets-save_targets}
use localsend_nas.Identity.{identify, fingerprint_of, generate, load, save}
use localsend_nas.Receive
use localsend_nas.Receive.{Fault, File}
use localsend_nas.Receive.Prepare.{
  decided, offered_files, new_session, register, resume, answer, decide, dropbox_share, offer,
}
use localsend_nas.LsServer.{
  client_cert_fp, handle_register, handle_cancel, handle_prepare_upload, remote_host, Server,
  waiting,
}
use localsend_nas.LsServer.Steps.{Requests, registers, stops, idle, next}
use localsend_nas.LsServer.ReadOnly.{IsUntouched, Requests-IsUntouched}
use localsend_nas.LsServer.Welcome.{IsWelcome, prepare-waiting_iff}
use localsend_nas.LsServer.Accept.{prepare-own_certificate}
use localsend_nas.Client.{Web}
use localsend_nas.Client.Answers.{Encoder, WireLaws, Sees, resume-Sees}
use localsend_nas.Main.{server_of}
use localsend_nas.Tests.Disk.{memory, memory-FileLaws}
use localsend_nas.Tests.Scene.{shares, sid, fid, file, dto, phone, empty_disk, with_session}
use localsend_nas.Tests.Sessions.{settings, new_id}
use localsend_nas.Tests.Runs.{agreeing}
use localsend_nas.Tests.Devices.{registry, this_node, desk, old_phone}
use localsend_nas.Tests.Parts.{crypto, cert, own, api}

link_local-IsHost : IsHost (codes "fe80::1")
unfolding lookup insert delete str_eq split replace_byte trim_prefix trim_suffix contains_byte
    drop_prefix has_prefix has_suffix join ◌+₆₄◌ equal_fold to_lower to_lower_byte str_lt
    insert_sorted sort decimal_from decimal cut skip_blanks trim_space scan_digits sscanf_int
    to_upper to_upper_byte hex
link_local-IsHost = record { no_left = refl; no_right = refl; no_blank = refl }

parse_address-join_host_port_example :
    parse_address (join_host_port (codes "fe80::1") (decimal_int (pos 53317)))
    ≡ ok (codes "fe80::1", 53317)
parse_address-join_host_port_example =
    parse_address-join_host_port (codes "fe80::1") 53317 link_local-IsHost (omega arith)
      (omega arith)

-- One address is a file of its own.
abbrev encode_one : List Str → Result Str Str
encode_one (a ∷ []) = ok a
encode_one _ = err (codes "not one address")

abbrev json : Codec
json = record { encode = encode_one; decode = λ bytes. ok (bytes ∷ []) }

one_address : (addrs : List Str) (bytes : Str) → encode_one addrs ≡ ok bytes → bytes ∷ [] ≡ addrs
one_address [] bytes h = cc
one_address (a ∷ []) bytes h = ap (λ x. x ∷ []) (sym (ok-injective h))
one_address (a ∷ b ∷ rest) bytes h = cc

json-CodecLaws : CodecLaws json
json-CodecLaws = record { decode-encode = λ addrs bytes h. ap ok (one_address addrs bytes h) }

reachable : (dev : Device) → IsHost dev.ip → dev.info.port ≡ pos 53317 → IsReachable dev
reachable dev h e = record {
  host = h;
  port = 53317;
  is_port = e;
  above = omega arith;
  below = omega arith;
}

phone_ip-IsHost : IsHost (codes "10.0.0.2")
unfolding lookup insert delete str_eq split replace_byte trim_prefix trim_suffix contains_byte
    drop_prefix has_prefix has_suffix join ◌+₆₄◌ equal_fold to_lower to_lower_byte str_lt
    insert_sorted sort decimal_from decimal cut skip_blanks trim_space scan_digits sscanf_int
    to_upper to_upper_byte hex
phone_ip-IsHost = record { no_left = refl; no_right = refl; no_blank = refl }

desk_ip-IsHost : IsHost (codes "10.0.0.3")
unfolding lookup insert delete str_eq split replace_byte trim_prefix trim_suffix contains_byte
    drop_prefix has_prefix has_suffix join ◌+₆₄◌ equal_fold to_lower to_lower_byte str_lt
    insert_sorted sort decimal_from decimal cut skip_blanks trim_space scan_digits sscanf_int
    to_upper to_upper_byte hex
desk_ip-IsHost = record { no_left = refl; no_right = refl; no_blank = refl }

abbrev probe : Str → ℕ → Result Str Info
probe ip port = ok (record phone { fingerprint = ip; port = pos 0 })

abbrev fresh : Discovery
fresh = Discovery.new this_node registry.targets_path

encoded :
    json.encode (sort str_lt (manual_addresses registry.devices)) ≡ ok (codes "10.0.0.3:53317")
unfolding lookup insert delete str_eq split replace_byte trim_prefix trim_suffix contains_byte
    drop_prefix has_prefix has_suffix join ◌+₆₄◌ equal_fold to_lower to_lower_byte str_lt
    insert_sorted sort decimal_from decimal cut skip_blanks trim_space scan_digits sscanf_int
    to_upper to_upper_byte hex
encoded = refl

load_targets-save_targets_example : Reloads memory json 9 probe registry fresh empty_disk
load_targets-save_targets_example =
    load_targets-save_targets memory json 9 probe registry fresh empty_disk (codes "10.0.0.3:53317")
      memory-FileLaws json-CodecLaws refl
      (reachable old_phone phone_ip-IsHost refl, (reachable desk desk_ip-IsHost refl, tt)) encoded
      refl

-- The server of a read-only node: a registration and a cancellation.
abbrev read_only : Server
read_only = record (server_of api) { receiver = none }

abbrev registered : Server
registered = (handle_register 5 (ok phone) (codes "10.0.0.2:4000") read_only).1

requests :
    Requests memory shares read_only empty_disk
      (handle_cancel memory sid registered empty_disk).1
      (handle_cancel memory sid registered empty_disk).2
requests =
    next read_only registered _ empty_disk empty_disk _
      (registers 5 (ok phone) (codes "10.0.0.2:4000") read_only empty_disk)
      (next registered _ _ empty_disk _ _ (stops sid registered empty_disk) (idle _ _))

Requests-IsUntouched_example :
    IsUntouched memory shares empty_disk
      (handle_cancel memory sid registered empty_disk).1
      (handle_cancel memory sid registered empty_disk).2
Requests-IsUntouched_example =
    Requests-IsUntouched memory shares read_only empty_disk
      (handle_cancel memory sid registered empty_disk).2
      (handle_cancel memory sid registered empty_disk).1 requests refl

-- The offer of a node to another one.
abbrev sender : Info
sender = record phone { fingerprint = own.fingerprint }

abbrev offer_body : PrepareRequest
offer_body = record { info = sender; files = (fid, dto) ∷ [] }

identified : identify crypto (codes "/data/cert.pem") cert ≡ ok own
unfolding lookup insert delete str_eq split replace_byte trim_prefix trim_suffix contains_byte
    drop_prefix has_prefix has_suffix join ◌+₆₄◌ equal_fold to_lower to_lower_byte str_lt
    insert_sorted sort decimal_from decimal cut skip_blanks trim_space scan_digits sscanf_int
    to_upper to_upper_byte hex fingerprint_of generate identify save load
identified = refl

taken_files : offered_files offer_body.files ≡ ok ((fid, file) ∷ [])
unfolding lookup insert delete str_eq split replace_byte trim_prefix trim_suffix contains_byte
    drop_prefix has_prefix has_suffix join ◌+₆₄◌ equal_fold to_lower to_lower_byte str_lt
    insert_sorted sort decimal_from decimal cut skip_blanks trim_space scan_digits sscanf_int
    to_upper to_upper_byte hex sanitize_all sanitize_rel_path numbered claim_from claim_final_path
    sanitize_element resolve confine path entry collect list open_file entry_less offered_files
    offer dropbox_share answer resume decide
taken_files = refl

prepare-own_certificate_example :
    handle_prepare_upload crypto sid 7
      (ok offer_body)
      (codes "10.0.0.2:4000")
      cert.chain
      (server_of api)
    ≡ (
      waiting,
      record (server_of api) {
        receiver = some (
            register
              (new_session sid 7 sender (remote_host (codes "10.0.0.2:4000")) ((fid, file) ∷ []))
              Receive.new);
      },
    )
prepare-own_certificate_example =
    prepare-own_certificate crypto (codes "/data/cert.pem") cert own sid 7 offer_body
      (codes "10.0.0.2:4000") (server_of api) Receive.new ((fid, file) ∷ []) identified refl refl
      taken_files refl

-- The phone presents the certificate of another device.
abbrev posed : PrepareRequest
posed = record offer_body { info = phone }

prepare-waiting_iff_example :
    (((handle_prepare_upload crypto sid 7
          (ok posed)
          (codes "10.0.0.2:4000")
          cert.chain
          (server_of api)).0
        ≡ waiting)
      ↔ IsWelcome (client_cert_fp crypto cert.chain) phone posed.files)
    × ((handle_prepare_upload crypto sid 7
            (ok posed)
            (codes "10.0.0.2:4000")
            cert.chain
            (server_of api)).0
          ≢ waiting
        → (handle_prepare_upload crypto sid 7
            (ok posed)
            (codes "10.0.0.2:4000")
            cert.chain
            (server_of api)).1
          ≡ server_of api)
prepare-waiting_iff_example =
    prepare-waiting_iff crypto sid 7 posed (codes "10.0.0.2:4000") cert.chain (server_of api)
      Receive.new refl

-- A response as a row of words, with a 0 before each of them.
abbrev row : List Str → Str
row [] = []
row (a ∷ words) = 0 ∷ (map suc a ++ row words)

abbrev words_of : Str → Str × List Str
words_of [] = ([], [])
words_of (zero ∷ s) = let (word, words) = words_of s in ([], word ∷ words)
words_of (suc c ∷ s) = let (word, words) = words_of s in (c ∷ word, words)

words_of_word : (a s : Str) → words_of (map suc a ++ s) ≡ (a ++ (words_of s).0, (words_of s).1)
words_of_word [] s = refl
words_of_word (c ∷ a) s = ap (λ w. (c ∷ w.0, w.1)) (words_of_word a s)

words_of-row : (words : List Str) → words_of (row words) ≡ ([], words)
words_of-row [] = refl
words_of-row (a ∷ words) =
    ap (λ w. ([], w.0 ∷ w.1))
      (words_of_word a (row words)
        ∙ ap (λ w. (a ++ w.0, w.1)) (words_of-row words)
        ∙ (λ i. (append-nil a i, words)))

abbrev flat : Map Str → List Str
flat [] = []
flat ((k, v) ∷ m) = k ∷ v ∷ flat m

abbrev unflat : List Str → Map Str
unflat (k ∷ v ∷ words) = (k, v) ∷ unflat words
unflat _ = []

unflat-flat : (m : Map Str) → unflat (flat m) ≡ m
unflat-flat [] = refl
unflat-flat ((k, v) ∷ m) = ap (λ r. (k, v) ∷ r) (unflat-flat m)

abbrev read_response : List Str → Result Str PrepareResponse
read_response (id ∷ words) = ok (record { session_id = id; files = unflat words })
read_response [] = err (codes "empty")

abbrev enc : Encoder
enc = record {
  describe = λ e. codes "declined";
  encode_message = λ s. s;
  encode_prepared = λ r. row (r.session_id ∷ flat r.files);
}

abbrev web : Web
web = record {
  check_request = λ method url. none;
  send = λ req. err (codes "unreachable");
  status_text = λ status. codes "error";
  query_escape = λ s. s;
  decode_info = λ s. err (codes "no info");
  encode_prepare = λ req. ok [];
  decode_prepared = λ s. read_response (words_of s).1;
  decode_message = λ s. ok s;
}

wire-WireLaws : WireLaws web enc
wire-WireLaws = record {
  message_back = λ s. refl;
  prepared_back = λ r.
      ap (λ w. read_response w.1) (words_of-row (r.session_id ∷ flat r.files))
      ∙ ap (λ m. ok (record { session_id = r.session_id; files = m })) (unflat-flat r.files);
  described = λ e h. cc;
}

resume-Sees_example :
    Sees web enc (resume new_id shares settings agreeing decided (with_session agreeing)).0
resume-Sees_example =
    resume-Sees web enc wire-WireLaws new_id shares settings agreeing decided
      (with_session agreeing) (λ e. cc)
