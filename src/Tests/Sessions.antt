-- ===== src/Tests/Sessions.antt =====
-- Examples of offers, decisions and cancellations.
use localsend_nas.Prelude.{
  true, [], none, some, Str, codes, ok, err, ◌≡◌, ◌≢◌, refl, arith, is_some, if◌then◌else◌,
  contains_byte, cut, decimal, decimal_from, delete, drop_prefix, equal_fold, has_prefix,
  has_suffix, hex, insert, insert_sorted, join, lookup, replace_byte, scan_digits, skip_blanks,
  sort, split, sscanf_int, str_eq, str_lt, to_lower, to_lower_byte, to_upper, to_upper_byte,
  trim_prefix, trim_space, trim_suffix, ◌+₆₄◌,
}
use localsend_nas.LocalSend.{PrepareResponse}
use localsend_nas.Settings
use localsend_nas.Shares.{path}
use localsend_nas.Receive.{Decision, inactive, cancel_session}
use localsend_nas.Receive.Upload.{admit}
use localsend_nas.Receive.Cancel.{cancel_session-inactive}
use localsend_nas.Receive.Prepare.{
  offer, answer, resume, decide, timeout, dropbox_share, offered_files,
}
use localsend_nas.Receive.Prepare.Answers.{granted, answer-admit, resume-inactive, timeout-status}
use localsend_nas.Tests.Disk.{memory}
use localsend_nas.Tests.Scene.{
  shares, nas, sid, fid, token, with_session, agreed, waiting, file, empty_disk,
}

abbrev pub settings : Settings.Store
settings = record { path = []; s = Settings.defaults }

abbrev pub new_id : Str → Str
new_id id = codes "t"

abbrev pub yes : Decision
yes = record { accept = true; share = nas }

known : lookup sid (with_session waiting).sessions ≡ some waiting
unfolding lookup insert delete str_eq split replace_byte trim_prefix trim_suffix contains_byte
    drop_prefix has_prefix has_suffix join ◌+₆₄◌ equal_fold to_lower to_lower_byte str_lt
    insert_sorted sort decimal_from decimal cut skip_blanks trim_space scan_digits sscanf_int
    to_upper to_upper_byte hex
known = refl

offered : lookup fid waiting.files ≡ some file
unfolding lookup insert delete str_eq split replace_byte trim_prefix trim_suffix contains_byte
    drop_prefix has_prefix has_suffix join ◌+₆₄◌ equal_fold to_lower to_lower_byte str_lt
    insert_sorted sort decimal_from decimal cut skip_blanks trim_space scan_digits sscanf_int
    to_upper to_upper_byte hex
offered = refl

share_exists : is_some (path shares nas) ≡ true
unfolding path lookup insert delete str_eq split replace_byte trim_prefix trim_suffix contains_byte
    drop_prefix has_prefix has_suffix join ◌+₆₄◌ equal_fold to_lower to_lower_byte str_lt
    insert_sorted sort decimal_from decimal cut skip_blanks trim_space scan_digits sscanf_int
    to_upper to_upper_byte hex
share_exists = refl

answer-admit_example :
    (r : PrepareResponse) × (given : Str) × ((answer new_id shares waiting yes
        (with_session waiting)).0
      ≡ record { status = 200; response = some r; fault = none })
    × (r.session_id ≡ sid)
    × (lookup fid r.files ≡ some given)
    × (admit r.session_id fid given (answer new_id shares waiting yes (with_session waiting)).1
        ≡ ok (granted new_id shares yes waiting, file))
answer-admit_example =
    answer-admit new_id shares yes (with_session waiting) waiting fid file known refl share_exists
      offered refl (λ e. cc)

refused_status :
    (resume new_id shares settings waiting timeout (with_session waiting)).0.status ≢ 200
unfolding offered_files offer dropbox_share answer resume decide lookup insert delete str_eq split
    replace_byte trim_prefix trim_suffix contains_byte drop_prefix has_prefix has_suffix join ◌+₆₄◌
    equal_fold to_lower to_lower_byte str_lt insert_sorted sort decimal_from decimal cut skip_blanks
    trim_space scan_digits sscanf_int to_upper to_upper_byte hex
refused_status = omega arith

resume-inactive_example :
    admit sid fid token (resume new_id shares settings waiting timeout (with_session waiting)).1
    ≡ err (404, inactive)
resume-inactive_example =
    resume-inactive new_id shares settings timeout (with_session waiting) waiting fid token known
      refused_status

timeout-status_example :
    (resume new_id shares settings waiting timeout (with_session waiting)).0.status ≡ (
      if str_eq settings.s.dropbox_share []
      then 403
      else if is_some (path shares settings.s.dropbox_share)
      then 200
      else 403)
timeout-status_example = timeout-status new_id shares settings (with_session waiting) waiting

cancel_session-inactive_example :
    admit sid fid token (cancel_session memory sid (with_session agreed) empty_disk).0
    ≡ err (404, inactive)
cancel_session-inactive_example =
    cancel_session-inactive memory sid fid token (with_session agreed) empty_disk
