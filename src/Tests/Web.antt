-- ===== src/Tests/Web.antt =====
-- Examples of the web UI's requests and streams, and of a run of the program.
use localsend_nas.Filepath.{clean, clean_from, clean_step, ext, go_up, join_path, split_file}
use localsend_nas.Prelude.{
  true, List, [], ◌∷◌, ◌++◌, none, some, Str, pos, Result, ok, str_eq, ◌==◌, if◌then◌else◌, map,
  lookup, All, arith, refl, take, ◌≡◌, ◌↔◌, contains_byte, cut, decimal, decimal_from, delete,
  drop_prefix, equal_fold, has_prefix, has_suffix, hex, insert, insert_sorted, join, replace_byte,
  scan_digits, skip_blanks, sort, split, sscanf_int, str_lt, to_lower, to_lower_byte, to_upper,
  to_upper_byte, trim_prefix, trim_space, trim_suffix, ◌+₆₄◌,
}
use localsend_nas.Host.{EvalLaws}
use localsend_nas.Settings
use localsend_nas.Shares.{
  nas_noise, collect, confine, entry, entry_less, list, open_file, path, resolve, sanitize_element,
}
use localsend_nas.HttpApi.{
  handle_put_settings, handle_add_device, handle_delete_device, handle_list,
  handle_receive_decision, handle_shares, share_dtos,
}
use localsend_nas.HttpApi.Sending.{handle_delete_transfer}
use localsend_nas.HttpApi.Selftest.{handle_selftest}
use localsend_nas.Transfer
use localsend_nas.Transfer.{find, forget, Job, done, queued, is_ended}
use localsend_nas.HttpApi.{Api, Reply, reply, entries}
use localsend_nas.HttpApi.Sound.{IsSound}
use localsend_nas.HttpApi.Requests.{Requests, puts_settings, deletes, idle, next, Requests-IsSound}
use localsend_nas.HttpApi.Answers.{
  IsHealthy, handle_selftest_iff, ListsWithin, handle_list-ListsWithin, delete_status,
  handle_delete_transfer-status,
}
use localsend_nas.HttpApi.Events.{
  connect, Notice, joins, leaves, takes, publishes, notices, arrived, frame, stream_job,
}
use localsend_nas.HttpApi.Events.Delivers.{held, published, notices-delivers}
use localsend_nas.HttpApi.Events.Streams.{stream_job_ends}
use localsend_nas.Main.{with_filter, hide_entry, roots_from, start, start_with}
use localsend_nas.Main.Hidden.{IsShown, handle_list-IsShown}
use localsend_nas.Tests.Disk.{Disk, memory, memory-EvalLaws}
use localsend_nas.Tests.Scene.{nas, root, root-IsAbsolute, empty_disk}
use localsend_nas.Tests.Names.{full, shown_entries}
use localsend_nas.Tests.Preferences.{codec}
use localsend_nas.Tests.Jobs.{jobs, jobs-Listed, one, entry_of}
use localsend_nas.Tests.Parts.{api}

-- The web UI of a node with two jobs.
abbrev busy : Api
busy = record api { tm = jobs }

busy-IsSound : IsSound busy
unfolding lookup insert delete str_eq split replace_byte trim_prefix trim_suffix contains_byte
    drop_prefix has_prefix has_suffix join ◌+₆₄◌ equal_fold to_lower to_lower_byte str_lt
    insert_sorted sort decimal_from decimal cut skip_blanks trim_space scan_digits sscanf_int
    to_upper to_upper_byte hex
busy-IsSound = record {
  in_range = record { low = omega arith; high = omega arith };
  keyed = record { entries = refl };
  listed = jobs-Listed;
}

abbrev wish : Settings.Settings
wish = record Settings.defaults { accept_timeout_sec = pos 1000 }

abbrev changed : Reply × Api × Disk
changed = handle_put_settings memory codec (ok wish) busy empty_disk

requests : Requests memory busy empty_disk changed.2 (handle_delete_transfer one changed.1).1
requests =
    next busy empty_disk changed.2 changed.2 changed.1 _
      (puts_settings codec (ok wish) busy empty_disk)
      (next changed.1 changed.2 changed.2 changed.2 _ _ (deletes one changed.1 changed.2)
        (idle _ _))

Requests-IsSound_example : IsSound (handle_delete_transfer one changed.1).1
Requests-IsSound_example =
    Requests-IsSound memory busy empty_disk changed.2 (handle_delete_transfer one changed.1).1
      requests busy-IsSound

handle_selftest_iff_example :
    ((handle_selftest memory empty_disk none true api).status ≡ 200)
    ↔ IsHealthy memory empty_disk none true api
handle_selftest_iff_example = handle_selftest_iff memory empty_disk none true api

share_root : lookup nas api.store.roots ≡ some root
unfolding lookup insert delete str_eq split replace_byte trim_prefix trim_suffix contains_byte
    drop_prefix has_prefix has_suffix join ◌+₆₄◌ equal_fold to_lower to_lower_byte str_lt
    insert_sorted sort decimal_from decimal cut skip_blanks trim_space scan_digits sscanf_int
    to_upper to_upper_byte hex
share_root = refl

listed_now : handle_list full (λ s. s) nas [] api empty_disk ≡ reply 200 (entries shown_entries)
unfolding nas_noise lookup insert delete str_eq split replace_byte trim_prefix trim_suffix
    contains_byte drop_prefix has_prefix has_suffix join ◌+₆₄◌ equal_fold to_lower to_lower_byte
    str_lt insert_sorted sort decimal_from decimal cut skip_blanks trim_space scan_digits sscanf_int
    to_upper to_upper_byte hex clean clean_from clean_step go_up join_path split_file ext
    sanitize_element resolve confine path entry collect list open_file entry_less roots_from
    hide_entry start_with start share_dtos handle_shares handle_receive_decision handle_put_settings
    handle_list handle_add_device handle_delete_device
listed_now = refl

full-EvalLaws : EvalLaws full
full-EvalLaws = record { eval_rooted = memory-EvalLaws.eval_rooted }

handle_list-ListsWithin_example : ListsWithin full empty_disk api.store root [] shown_entries
handle_list-ListsWithin_example =
    handle_list-ListsWithin full empty_disk (λ s. s) nas [] api root shown_entries full-EvalLaws
      root-IsAbsolute share_root listed_now

listed_filtered :
    handle_list full (λ s. s) nas [] (with_filter api) empty_disk
    ≡ reply 200 (entries shown_entries)
unfolding nas_noise lookup insert delete str_eq split replace_byte trim_prefix trim_suffix
    contains_byte drop_prefix has_prefix has_suffix join ◌+₆₄◌ equal_fold to_lower to_lower_byte
    str_lt insert_sorted sort decimal_from decimal cut skip_blanks trim_space scan_digits sscanf_int
    to_upper to_upper_byte hex clean clean_from clean_step go_up join_path split_file ext
    sanitize_element resolve confine path entry collect list open_file entry_less roots_from
    hide_entry start_with start share_dtos handle_shares handle_receive_decision handle_put_settings
    handle_list handle_add_device handle_delete_device
listed_filtered = refl

handle_list-IsShown_example : All (IsShown api.settings.s) shown_entries
handle_list-IsShown_example =
    handle_list-IsShown full (λ s. s) nas [] api empty_disk shown_entries listed_filtered

handle_delete_transfer-status_example :
    ((handle_delete_transfer one busy).0.status ≡ delete_status (find one busy.tm))
    × (find one (handle_delete_transfer one busy).1.tm ≡ (
        if str_eq one one
        then (if (handle_delete_transfer one busy).0.status == 204 then none else find one busy.tm)
        else find one busy.tm))
handle_delete_transfer-status_example = handle_delete_transfer-status one busy one

abbrev a_job : Transfer.State → Job
a_job st = (entry_of one st).job

-- Two clients, of which the second one reads nothing.
abbrev some_notices : List Notice
some_notices = joins 1 ∷ publishes (a_job queued) ∷ takes 1 ∷ publishes (a_job done) ∷ leaves 1 ∷ []

notices-delivers_example :
    held 2 (notices some_notices (connect 2 api)).events ≡ some (take 32 (published some_notices))
notices-delivers_example =
    notices-delivers 2 some_notices api refl (refl, (tt, (refl, (tt, (refl, tt)))))

abbrev text : Job → Str
text j = j.id

abbrev encode : Job → Result Str Str
encode j = ok (text j)

stream_job_ends_example :
    stream_job encode
      (map arrived (a_job queued ∷ []) ++ arrived (a_job done) ∷ arrived (a_job queued) ∷ [])
    ≡ map (λ j. frame (text j)) (a_job queued ∷ a_job done ∷ [])
stream_job_ends_example =
    stream_job_ends encode text (a_job queued ∷ []) (a_job done) (arrived (a_job queued) ∷ [])
      (record { encoded = refl; ongoing = refl }, tt) refl refl
