-- ===== src/Tests/Jobs.antt =====
-- Examples of the job list.
use localsend_nas.Filepath.{clean, clean_from, clean_step, ext, go_up, join_path, split_file}
use localsend_nas.Shares.{
  collect, confine, entry, entry_less, list, open_file, path, resolve, sanitize_element,
}
use localsend_nas.Receive.Paths.{
  claim_final_path, claim_from, numbered, sanitize_all, sanitize_rel_path,
}
use localsend_nas.Prelude.{
  true, false, List, [], ◌∷◌, none, some, Str, codes, pos, Result, ok, str_eq, ◌≡◌, ◌≢◌, refl, All,
  ok-injective, sym, ◌∙◌, contains_byte, cut, decimal, decimal_from, delete, drop_prefix,
  equal_fold, has_prefix, has_suffix, hex, insert, insert_sorted, join, lookup, replace_byte,
  scan_digits, skip_blanks, sort, split, sscanf_int, str_lt, to_lower, to_lower_byte, to_upper,
  to_upper_byte, trim_prefix, trim_space, trim_suffix, ◌+₆₄◌,
}
use localsend_nas.LocalSend.{PrepareRequest}
use localsend_nas.Transfer
use localsend_nas.Transfer.{
  Entry, Job, FileProgress, ItemRef, queued, done, cancel, forget, find, enter,
}
use localsend_nas.Transfer.Jobs.{Listed}
use localsend_nas.Transfer.Ended.{Ended, Gentle, run-Ended}
use localsend_nas.Transfer.Cancel.{cancel-run}
use localsend_nas.Transfer.Expand.{
  Basket, ExpandError, expand, add_file, expand_entries, expand_from, expand_item, file_id,
  join_name,
}
use localsend_nas.Transfer.Depth.{IsShallow, expand-returns}
use localsend_nas.Tests.Names.{full, quiet_shares, listed}
use localsend_nas.Tests.Scene.{empty_disk}
use localsend_nas.Shares
use mathlib.Core.Path.{subst}
use localsend_nas.Transfer.Counts.{Counts, expand-Counts}
use localsend_nas.Transfer.Run.{Prepared, Uploaded, run}
use localsend_nas.Tests.Disk.{Disk, memory}
use localsend_nas.Tests.Scene.{shares, nas, root, phone}

abbrev a_file : FileProgress
a_file = record {
  id = codes "f0";
  name = codes "a.txt";
  share = nas;
  rel = codes "a.txt";
  size = pos 2;
  sent = pos 0;
  done = false;
}

abbrev pub entry_of : Str → Transfer.State → Entry
entry_of id st = record {
  job = record {
    id = id;
    direction = [];
    target_fp = codes "f0";
    alias = codes "phone";
    state = st;
    error = [];
    files = a_file ∷ [];
    total = pos 2;
    sent = pos 0;
    created_at = 7;
  };
  subs = [];
  context = none;
}

abbrev pub one : Str
one = codes "j1"

abbrev two : Str
two = codes "j2"

-- A finished job, and one in the queue.
abbrev pub jobs : Transfer.Manager
jobs = record Transfer.new {
  heap = (one, entry_of one done) ∷ (two, entry_of two queued) ∷ [];
  jobs = two ∷ one ∷ [];
  order = one ∷ two ∷ [];
}

pub jobs-Listed : Listed jobs
unfolding find lookup insert delete str_eq split replace_byte trim_prefix trim_suffix contains_byte
    drop_prefix has_prefix has_suffix join ◌+₆₄◌ equal_fold to_lower to_lower_byte str_lt
    insert_sorted sort decimal_from decimal cut skip_blanks trim_space scan_digits sscanf_int
    to_upper to_upper_byte hex
jobs-Listed = record { found = refl; unique = refl }

abbrev prepare : PrepareRequest → Prepared
prepare req = record {
  result = ok (record { session_id = codes "s"; files = (codes "f0", codes "t") ∷ [] }, 200);
  meanwhile = λ m. m;
}

abbrev uploads : FileProgress → Str → Uploaded
uploads f token = record {
  progress = record { delta = f.size; due = true; meanwhile = λ m. m } ∷ [];
  error = none;
}

cancelled_two : (cancel two jobs).0 ≡ (true, none)
unfolding find cancel lookup insert delete str_eq split replace_byte trim_prefix trim_suffix
    contains_byte drop_prefix has_prefix has_suffix join ◌+₆₄◌ equal_fold to_lower to_lower_byte
    str_lt insert_sorted sort decimal_from decimal cut skip_blanks trim_space scan_digits sscanf_int
    to_upper to_upper_byte hex
cancelled_two = refl

cancel-run_example :
    run (λ name. codes "text/plain") phone prepare uploads two (cancel two jobs).1
    ≡ (cancel two jobs).1
cancel-run_example =
    cancel-run (λ name. codes "text/plain") phone prepare uploads two jobs cancelled_two

-- A basket of one file.
abbrev disk : Disk
disk = record { dirs = root ∷ []; files = (codes "/srv/nas/a.txt", 1 ∷ 2 ∷ []) ∷ [] }

abbrev item : ItemRef
item = record { share = nas; rel = codes "a.txt" }

abbrev basket : Basket
basket = record {
  files = record a_file { name = codes "/srv/nas/a.txt" } ∷ [];
  total = pos 2;
  n = 1;
}

expanded : expand memory disk (λ s. s) shares 3 (item ∷ []) ≡ some (ok basket)
unfolding lookup insert delete str_eq split replace_byte trim_prefix trim_suffix contains_byte
    drop_prefix has_prefix has_suffix join ◌+₆₄◌ equal_fold to_lower to_lower_byte str_lt
    insert_sorted sort decimal_from decimal cut skip_blanks trim_space scan_digits sscanf_int
    to_upper to_upper_byte hex clean clean_from clean_step go_up join_path split_file ext
    sanitize_element resolve confine path entry collect list open_file entry_less sanitize_all
    sanitize_rel_path numbered claim_from claim_final_path join_name file_id add_file expand_entries
    expand_item expand_from
expanded = refl

expand-Counts_example : Counts basket
expand-Counts_example = expand-Counts memory disk (λ s. s) shares 3 (item ∷ []) basket expanded

two_queued : lookup two jobs.heap ≡ some (entry_of two queued)
unfolding lookup insert delete str_eq split replace_byte trim_prefix trim_suffix contains_byte
    drop_prefix has_prefix has_suffix join ◌+₆₄◌ equal_fold to_lower to_lower_byte str_lt
    insert_sorted sort decimal_from decimal cut skip_blanks trim_space scan_digits sscanf_int
    to_upper to_upper_byte hex
two_queued = refl

uploads-Gentle : Gentle two uploads
uploads-Gentle = record { calm = λ f token. (record { stays = λ m h. h }, tt) }

run-Ended_example : Ended two (run (λ name. codes "text/plain") phone prepare uploads two jobs)
run-Ended_example =
    run-Ended two (λ name. codes "text/plain") phone prepare uploads jobs (entry_of two queued)
      (λ req. record { stays = λ m h. h }) uploads-Gentle two_queued

-- A share with a directory.
in_b :
    (es : List Shares.Entry)
    → Shares.list full empty_disk (λ s. s) quiet_shares nas (codes "b") ≢ ok es
unfolding lookup insert delete str_eq split replace_byte trim_prefix trim_suffix contains_byte
    drop_prefix has_prefix has_suffix join ◌+₆₄◌ equal_fold to_lower to_lower_byte str_lt
    insert_sorted sort decimal_from decimal cut skip_blanks trim_space scan_digits sscanf_int
    to_upper to_upper_byte hex clean clean_from clean_step go_up join_path split_file ext
    sanitize_element resolve confine path entry collect list open_file entry_less
in_b es e = cc

in_a :
    (es : List Shares.Entry)
    → Shares.list full empty_disk (λ s. s) quiet_shares nas (codes "a.txt") ≢ ok es
unfolding lookup insert delete str_eq split replace_byte trim_prefix trim_suffix contains_byte
    drop_prefix has_prefix has_suffix join ◌+₆₄◌ equal_fold to_lower to_lower_byte str_lt
    insert_sorted sort decimal_from decimal cut skip_blanks trim_space scan_digits sscanf_int
    to_upper to_upper_byte hex clean clean_from clean_step go_up join_path split_file ext
    sanitize_element resolve confine path entry collect list open_file entry_less
in_a es e = cc

abbrev whole : ItemRef
whole = record { share = nas; rel = [] }

one_level : IsShallow full empty_disk (λ s. s) quiet_shares 1 nas []
one_level es e =
    subst (All (λ e. e.is_dir ≡ true → IsShallow full empty_disk (λ s. s) quiet_shares 0 nas e.rel))
      (ok-injective (sym listed ∙ e)) (λ _. in_b, (λ _. in_a, tt))

expand-returns_example :
    (r : Result ExpandError Basket) × (expand full empty_disk (λ s. s) quiet_shares 2 (whole ∷ [])
      ≡ some r)
expand-returns_example =
    expand-returns full empty_disk (λ s. s) quiet_shares 1 (whole ∷ []) (one_level, tt)
