-- ===== src/Tests/Uploads.antt =====
-- Examples of uploads: the file "in/a.txt" arrives in two reads.
use localsend_nas.Shares.{
  collect, confine, entry, entry_less, list, open_file, path, resolve, sanitize_element,
}
use localsend_nas.Shares.Write.{check_existing, ensure_dir, ensure_element, ensure_from}
use mathlib.Core.Path.{subst}
use localsend_nas.Prelude.{
  true, false, [], ◌∷◌, ◌++◌, none, some, Str, codes, pos, ok, ◌≡◌, refl, sym, ap, ◌∙◌,
  ok-injective, length, has_key, All, ◌↔◌, ◌≢◌, arith, contains_byte, cut, decimal, decimal_from,
  delete, drop_prefix, equal_fold, has_prefix, has_suffix, hex, insert, insert_sorted, join, lookup,
  replace_byte, scan_digits, skip_blanks, sort, split, sscanf_int, str_eq, str_lt, to_lower,
  to_lower_byte, to_upper, to_upper_byte, trim_prefix, trim_space, trim_suffix, ◌+₆₄◌,
}
use localsend_nas.Receive
use localsend_nas.Receive.{
  Manager, Hook, Fault, File, Session, inactive, receive_progress, receive_file_done, receive_state,
  cancel_session, cleanup_partials, emit, fail, modify, remove_partials, set_state,
}
use localsend_nas.Receive.Upload.{Flight, admit, begin, enter, locate, place}
use localsend_nas.Receive.Upload.Stream.{
  Response, upload, Streamed, settle, after_write, complete, fail_file, receive, stream,
  write_chunk,
}
use localsend_nas.Receive.Upload.Reserved.{in_progress-settle}
use localsend_nas.Receive.Upload.Guard.{MayUpload, admit_iff}
use localsend_nas.Receive.Upload.Returns.{HasFree, HasRoom, made_dir_of, upload-returns}
use localsend_nas.Receive.Paths.{
  sanitize_rel_path, claim_final_path, claim_from, numbered, sanitize_all,
}
use localsend_nas.Filepath.{split_file, clean, clean_from, clean_step, ext, go_up, join_path}
use localsend_nas.Receive.Upload.Lands.{Lands, begin-Lands}
use localsend_nas.Receive.Upload.Outcome.{Spares, delivered}
use localsend_nas.Receive.Upload.Delivery.{upload-delivers}
use localsend_nas.Tests.Disk.{Disk, memory, content, memory-DiskLaws}
use localsend_nas.Tests.Scene.{
  shares, sid, fid, token, with_session, agreed, file, body, empty_disk, dto, dto-IsInt64, root,
  root-IsAbsolute,
}

abbrev pub final : Str
final = codes "/srv/nas/in/a.txt"

abbrev flight : Flight
flight = record {
  session = sid;
  file = fid;
  final = final;
  part = final ++ codes ".lnas-part";
  size = pos 3;
}

-- The manager and the disk once the destination is open.
abbrev opened_file : File
opened_file = record file { part_path = final ++ codes ".lnas-part" }

abbrev opened_manager : Manager
opened_manager = record {
  sessions = (sid, record agreed { files = (fid, opened_file) ∷ [] }) ∷ [];
  in_progress = (final, sid) ∷ [];
  trace = [];
}

abbrev opened_disk : Disk
opened_disk = record {
  dirs = codes "/srv/nas/in" ∷ root ∷ [];
  files = (final ++ codes ".lnas-part", []) ∷ [];
}

-- The manager and the disk at the end.
abbrev pub finished : Manager
finished = record {
  sessions =
      (
        sid,
        record agreed {
          files = (fid, record opened_file { done = true }) ∷ [];
          state = Receive.done;
        },
      )
      ∷ [];
  in_progress = [];
  trace =
      receive_progress sid fid (pos 2)
      ∷ receive_progress sid fid (pos 1)
      ∷ receive_file_done sid fid
      ∷ receive_state sid Receive.done none
      ∷ [];
}

abbrev pub finished_disk : Disk
finished_disk = record {
  dirs = codes "/srv/nas/in" ∷ root ∷ [];
  files = (final, 1 ∷ 2 ∷ 3 ∷ []) ∷ [];
}

admitted : admit sid fid token (with_session agreed) ≡ ok (agreed, file)
unfolding admit lookup insert delete str_eq split replace_byte trim_prefix trim_suffix contains_byte
    drop_prefix has_prefix has_suffix join ◌+₆₄◌ equal_fold to_lower to_lower_byte str_lt
    insert_sorted sort decimal_from decimal cut skip_blanks trim_space scan_digits sscanf_int
    to_upper to_upper_byte hex
admitted = refl

begun :
    begin memory 4 shares sid fid token (with_session agreed) empty_disk
    ≡ some (ok flight, opened_manager, opened_disk)
unfolding lookup insert delete str_eq split replace_byte trim_prefix trim_suffix contains_byte
    drop_prefix has_prefix has_suffix join ◌+₆₄◌ equal_fold to_lower to_lower_byte str_lt
    insert_sorted sort decimal_from decimal cut skip_blanks trim_space scan_digits sscanf_int
    to_upper to_upper_byte hex clean clean_from clean_step go_up join_path split_file ext
    sanitize_element resolve confine path entry collect list open_file entry_less check_existing
    ensure_element ensure_from ensure_dir emit modify set_state remove_partials cleanup_partials
    fail cancel_session sanitize_all sanitize_rel_path numbered claim_from claim_final_path admit
    place enter locate begin
begun = refl

uploaded :
    upload memory 4 shares sid fid token body (with_session agreed) empty_disk
    ≡ some ((200, none), finished, finished_disk)
unfolding lookup insert delete str_eq split replace_byte trim_prefix trim_suffix contains_byte
    drop_prefix has_prefix has_suffix join ◌+₆₄◌ equal_fold to_lower to_lower_byte str_lt
    insert_sorted sort decimal_from decimal cut skip_blanks trim_space scan_digits sscanf_int
    to_upper to_upper_byte hex clean clean_from clean_step go_up join_path split_file ext
    sanitize_element resolve confine path entry collect list open_file entry_less check_existing
    ensure_element ensure_from ensure_dir emit modify set_state remove_partials cleanup_partials
    fail cancel_session sanitize_all sanitize_rel_path numbered claim_from claim_final_path admit
    place enter locate begin after_write write_chunk stream fail_file complete settle receive upload
uploaded = refl

spare : All (Spares memory content memory-DiskLaws (final ++ codes ".lnas-part")) body
spare = (record { same = λ m d. refl }, (record { same = λ m d. refl }, tt))

upload-delivers_example :
    (content finished_disk final ≡ some (delivered body)) × (pos (length (delivered body)) ≡ pos 3)
upload-delivers_example =
    upload-delivers memory content memory-DiskLaws 4 shares sid fid token body (with_session agreed)
      opened_manager finished empty_disk opened_disk finished_disk agreed file flight none admitted
      dto-IsInt64 begun spare uploaded

share_root : lookup agreed.dest_share shares.roots ≡ some root
unfolding lookup insert delete str_eq split replace_byte trim_prefix trim_suffix contains_byte
    drop_prefix has_prefix has_suffix join ◌+₆₄◌ equal_fold to_lower to_lower_byte str_lt
    insert_sorted sort decimal_from decimal cut skip_blanks trim_space scan_digits sscanf_int
    to_upper to_upper_byte hex
share_root = refl

begin-Lands_example :
    Lands root dto.file_name flight × (has_key final (with_session agreed).in_progress ≡ false)
begin-Lands_example =
    begin-Lands memory 4 shares sid fid token {root = root} (with_session agreed)
      {m' = opened_manager} {s = agreed} {f = file} empty_disk {d' = opened_disk} {fl = flight}
      admitted root-IsAbsolute share_root begun

admit_iff_example :
    (admit sid fid token (with_session agreed) ≡ ok (agreed, file))
    ↔ MayUpload sid fid token (with_session agreed) agreed file
admit_iff_example = admit_iff sid fid token (with_session agreed) agreed file

-- The upload finds a name: the first one is free.
finds :
    HasFree memory 4 shares sid
      (with_session agreed)
      (made_dir_of memory 4 shares agreed (codes "in/a.txt") empty_disk).1
      (codes "/srv/nas/in")
      (codes "a.txt")
unfolding lookup insert delete str_eq split replace_byte trim_prefix trim_suffix contains_byte
    drop_prefix has_prefix has_suffix join ◌+₆₄◌ equal_fold to_lower to_lower_byte str_lt
    insert_sorted sort decimal_from decimal cut skip_blanks trim_space scan_digits sscanf_int
    to_upper to_upper_byte hex clean clean_from clean_step go_up join_path split_file ext
    sanitize_element resolve confine path entry collect list open_file entry_less check_existing
    ensure_element ensure_from ensure_dir sanitize_all sanitize_rel_path numbered claim_from
    claim_final_path
finds = record { index = 0; below = omega arith; free = refl }

its_name : sanitize_rel_path dto.file_name ≡ ok (codes "in/a.txt")
unfolding lookup insert delete str_eq split replace_byte trim_prefix trim_suffix contains_byte
    drop_prefix has_prefix has_suffix join ◌+₆₄◌ equal_fold to_lower to_lower_byte str_lt
    insert_sorted sort decimal_from decimal cut skip_blanks trim_space scan_digits sscanf_int
    to_upper to_upper_byte hex clean clean_from clean_step go_up join_path split_file ext
    sanitize_element resolve confine path entry collect list open_file entry_less sanitize_all
    sanitize_rel_path numbered claim_from claim_final_path
its_name = refl

its_dir :
    (made_dir_of memory 4 shares agreed (codes "in/a.txt") empty_disk).0 ≡ ok (codes "/srv/nas/in")
unfolding lookup insert delete str_eq split replace_byte trim_prefix trim_suffix contains_byte
    drop_prefix has_prefix has_suffix join ◌+₆₄◌ equal_fold to_lower to_lower_byte str_lt
    insert_sorted sort decimal_from decimal cut skip_blanks trim_space scan_digits sscanf_int
    to_upper to_upper_byte hex clean clean_from clean_step go_up join_path split_file ext
    sanitize_element resolve confine path entry collect list open_file entry_less check_existing
    ensure_element ensure_from ensure_dir
its_dir = refl

its_base : (split_file (codes "in/a.txt")).1 ≡ codes "a.txt"
unfolding lookup insert delete str_eq split replace_byte trim_prefix trim_suffix contains_byte
    drop_prefix has_prefix has_suffix join ◌+₆₄◌ equal_fold to_lower to_lower_byte str_lt
    insert_sorted sort decimal_from decimal cut skip_blanks trim_space scan_digits sscanf_int
    to_upper to_upper_byte hex clean clean_from clean_step go_up join_path split_file ext
its_base = refl

-- The upload's name is looked for in the directory.
abbrev Finds : Session → Str → Str → Type 0
Finds s rel dir =
    HasFree memory 4 shares s.id (with_session agreed)
      (made_dir_of memory 4 shares s rel empty_disk).1 dir (split_file rel).1

agreed-Finds : Finds agreed (codes "in/a.txt") (codes "/srv/nas/in")
agreed-Finds =
    subst
      (HasFree memory 4 shares sid (with_session agreed)
        (made_dir_of memory 4 shares agreed (codes "in/a.txt") empty_disk).1 (codes "/srv/nas/in"))
      (sym its_base) finds

has_room : HasRoom memory 4 shares sid fid token (with_session agreed) empty_disk
has_room = record {
  room = λ s f rel dir a n e.
      let same = ok-injective (sym admitted ∙ a) in
      let s_is : agreed ≡ s = ap (λ x. x.0) same in
      let f_is : file ≡ f = ap (λ x. x.1) same in
      let rel_is =
        ok-injective (sym its_name ∙ ap (λ x. sanitize_rel_path x.dto.file_name) f_is ∙ n) in
      let dir_is = ok-injective (
        sym its_dir
        ∙ ap (λ x. (made_dir_of memory 4 shares x (codes "in/a.txt") empty_disk).0) s_is
        ∙ ap (λ r. (made_dir_of memory 4 shares s r empty_disk).0) rel_is
        ∙ e) in
      subst (Finds s rel) dir_is (
        subst (λ r. Finds s r (codes "/srv/nas/in")) rel_is
          (subst (λ x. Finds x (codes "in/a.txt") (codes "/srv/nas/in")) s_is agreed-Finds));
}

upload-returns_example :
    (r : Response) × (m' : Manager) × (d' : Disk) × (upload memory 4 shares sid fid token body
        (with_session agreed)
        empty_disk
      ≡ some (r, m', d'))
upload-returns_example =
    upload-returns memory 4 shares sid fid token body (with_session agreed) empty_disk has_room

-- The stream of a body that ends after two bytes.
abbrev short_stream : Streamed Disk
short_stream = record { total = 2; fault = none; manager = opened_manager; disk = opened_disk }

mismatch : (settle memory flight short_stream (none, opened_disk)).0.0 ≢ 200
unfolding after_write write_chunk stream fail_file complete settle receive upload
mismatch = omega arith

in_progress-settle_example :
    (settle memory flight short_stream (none, opened_disk)).1.in_progress
    ≡ opened_manager.in_progress
in_progress-settle_example =
    in_progress-settle memory flight short_stream (none, opened_disk) mismatch
