-- ===== src/Tests/Start.antt =====
-- Examples of the start: the configuration and the identity.
use localsend_nas.Config.Flags.{
  check_names, check_port, classify, from_env, kind, parse, parse_args, parse_parts, read_flag, set,
  with_alias, with_env_shares,
}
use localsend_nas.Filepath.{clean, clean_from, clean_step, ext, go_up, join_path, split_file}
use localsend_nas.Main.{hide_entry, roots_from, start, start_with}
use localsend_nas.Prelude.{
  List, [], ◌∷◌, Option, none, some, Str, codes, ℤ, pos, ok, err, str_eq, split, arith, refl, sym,
  ap, ◌∙◌, lookup, insert, lookup-insert, ◌≡◌, ◌↔◌, contains_byte, cut, decimal, decimal_from,
  delete, drop_prefix, equal_fold, has_prefix, has_suffix, hex, insert_sorted, join, replace_byte,
  scan_digits, skip_blanks, sort, sscanf_int, str_lt, to_lower, to_lower_byte, to_upper,
  to_upper_byte, trim_prefix, trim_space, trim_suffix, ◌+₆₄◌,
}
use localsend_nas.Host.{OsError, not_exist, AreSeparate}
use localsend_nas.Config.{
  comma, env_or_bool, env_or_int, parse_share, print_share, share_list_string,
}
use localsend_nas.Config.Pair.{IsShare, Spells, parse_share_iff}
use localsend_nas.Config.Valid.{IsUsable, parse-IsUsable}
use localsend_nas.Config.EnvList.{IsListed, parse_parts-share_list_string}
use localsend_nas.Config.CommandLine.{command_line, parse-command_line}
use localsend_nas.Settings
use localsend_nas.Shares.{
  new_store, collect, confine, entry, entry_less, list, open_file, path, resolve, sanitize_element,
}
use localsend_nas.Settings.{clamp}
use localsend_nas.Identity.{key_path, cert_path, fingerprint_of, generate, identify, load, save}
use localsend_nas.Identity.Persisted.{PairLaws, load-load}
use localsend_nas.Main.Serves.{IsReady, start-IsReady}
use localsend_nas.Tests.Disk.{Disk, memory, memory-FileLaws}
use localsend_nas.Tests.Scene.{nas, root, empty_disk}
use localsend_nas.Tests.Preferences.{codec}
use localsend_nas.Tests.Parts.{crypto, own, nas_share, cfg, api, other_disk}

nas-IsShare : IsShare nas_share
unfolding lookup insert delete str_eq split replace_byte trim_prefix trim_suffix contains_byte
    drop_prefix has_prefix has_suffix join ◌+₆₄◌ equal_fold to_lower to_lower_byte str_lt
    insert_sorted sort decimal_from decimal cut skip_blanks trim_space scan_digits sscanf_int
    to_upper to_upper_byte hex
nas-IsShare = record {
  name_ne_nil = λ e. cc;
  path_ne_nil = λ e. cc;
  no_equals = refl;
  no_slash = refl;
  no_nul = refl;
}

parse_share_iff_example :
    (parse_share (codes "nas=/srv=1") ≡ ok (record { name = nas; path = codes "/srv=1" }))
    ↔ Spells (codes "nas=/srv=1") (record { name = nas; path = codes "/srv=1" })
parse_share_iff_example =
    parse_share_iff (codes "nas=/srv=1") (record { name = nas; path = codes "/srv=1" })

nas-IsListed : IsListed nas_share
unfolding lookup insert delete str_eq split replace_byte trim_prefix trim_suffix contains_byte
    drop_prefix has_prefix has_suffix join ◌+₆₄◌ equal_fold to_lower to_lower_byte str_lt
    insert_sorted sort decimal_from decimal cut skip_blanks trim_space scan_digits sscanf_int
    to_upper to_upper_byte hex parse_share print_share env_or_bool env_or_int share_list_string
nas-IsListed = record { share = nas-IsShare; no_comma = refl; no_edge_blanks = refl }

parse_parts-share_list_string_example :
    parse_parts (split comma (share_list_string (nas_share ∷ nas_share ∷ [])))
    ≡ ok (nas_share ∷ nas_share ∷ [])
parse_parts-share_list_string_example =
    parse_parts-share_list_string (nas_share ∷ nas_share ∷ []) (λ e. cc)
      (nas-IsListed, (nas-IsListed, tt))

-- The only port that is read.
abbrev pub parse_int : Str → Option ℤ
parse_int s = some (pos 53317)

abbrev pub env : Str → Str
env s = []

abbrev pub args : List Str
args = codes "--share=nas=/srv/nas" ∷ codes "--data-dir" ∷ root ∷ []

parsed : parse parse_int env (some (codes "node")) args ≡ ok cfg
unfolding lookup insert delete str_eq split replace_byte trim_prefix trim_suffix contains_byte
    drop_prefix has_prefix has_suffix join ◌+₆₄◌ equal_fold to_lower to_lower_byte str_lt
    insert_sorted sort decimal_from decimal cut skip_blanks trim_space scan_digits sscanf_int
    to_upper to_upper_byte hex parse_share print_share env_or_bool env_or_int share_list_string
    classify kind set read_flag parse_args parse_parts with_env_shares check_names with_alias
    check_port from_env parse
parsed = refl

parse-IsUsable_example : IsUsable cfg
parse-IsUsable_example = parse-IsUsable parse_int env (some (codes "node")) args cfg parsed

cfg-IsUsable : IsUsable cfg
cfg-IsUsable = parse-IsUsable parse_int env (some (codes "node")) args cfg parsed

parse-command_line_example : parse parse_int env none (command_line (codes "53317") cfg) ≡ ok cfg
parse-command_line_example =
    parse-command_line parse_int env none (codes "53317") cfg refl cfg-IsUsable

crypto-PairLaws : PairLaws crypto
crypto-PairLaws = record { pair = λ t k c key g h e. ground (arith, e) }

separate : AreSeparate memory (key_path root) (cert_path root)
unfolding lookup insert delete str_eq split replace_byte trim_prefix trim_suffix contains_byte
    drop_prefix has_prefix has_suffix join ◌+₆₄◌ equal_fold to_lower to_lower_byte str_lt
    insert_sorted sort decimal_from decimal cut skip_blanks trim_space scan_digits sscanf_int
    to_upper to_upper_byte hex clean clean_from clean_step go_up join_path split_file ext
separate = record {
  read_other = λ d d' bytes e k.
      ap (λ x. memory.read_file x (cert_path root)) (sym (ap (λ x. x.1) k))
      ∙ ap (λ o. elim o [ none ↦ err not_exist | some c ↦ ok c ])
          (lookup-insert (key_path root) (cert_path root) bytes d.files);
}

generated : load crypto memory 7 root (none, empty_disk) ≡ (ok own, other_disk)
unfolding lookup insert delete str_eq split replace_byte trim_prefix trim_suffix contains_byte
    drop_prefix has_prefix has_suffix join ◌+₆₄◌ equal_fold to_lower to_lower_byte str_lt
    insert_sorted sort decimal_from decimal cut skip_blanks trim_space scan_digits sscanf_int
    to_upper to_upper_byte hex clean clean_from clean_step go_up join_path split_file ext
    fingerprint_of generate identify save load
generated = refl

load-load_example : load crypto memory 8 root (none, other_disk) ≡ (ok own, other_disk)
load-load_example =
    load-load crypto memory memory-FileLaws crypto-PairLaws 7 8 root empty_disk other_disk own
      separate generated

abbrev pub made : Disk → Str → Option OsError × Disk
made d p = (none, d)

pub started :
    start crypto codec parse_int memory made
      (codes "1.0")
      7
      env
      (some (codes "node"))
      args
      empty_disk
    ≡ (ok api, other_disk)
unfolding lookup insert delete str_eq split replace_byte trim_prefix trim_suffix contains_byte
    drop_prefix has_prefix has_suffix join ◌+₆₄◌ equal_fold to_lower to_lower_byte str_lt
    insert_sorted sort decimal_from decimal cut skip_blanks trim_space scan_digits sscanf_int
    to_upper to_upper_byte hex clean clean_from clean_step go_up join_path split_file ext
    parse_share print_share env_or_bool env_or_int share_list_string classify kind set read_flag
    parse_args parse_parts with_env_shares check_names with_alias check_port from_env parse
    fingerprint_of generate identify save load sanitize_element resolve confine path entry collect
    list open_file entry_less new_store clamp Settings.load roots_from hide_entry start_with start
started = refl

-- A later start, which finds the identity.
pub started_again :
    start crypto codec parse_int memory made
      (codes "1.0")
      9
      env
      (some (codes "node"))
      args
      other_disk
    ≡ (ok api, other_disk)
unfolding lookup insert delete str_eq split replace_byte trim_prefix trim_suffix contains_byte
    drop_prefix has_prefix has_suffix join ◌+₆₄◌ equal_fold to_lower to_lower_byte str_lt
    insert_sorted sort decimal_from decimal cut skip_blanks trim_space scan_digits sscanf_int
    to_upper to_upper_byte hex clean clean_from clean_step go_up join_path split_file ext
    parse_share print_share env_or_bool env_or_int share_list_string classify kind set read_flag
    parse_args parse_parts with_env_shares check_names with_alias check_port from_env parse
    fingerprint_of generate identify save load sanitize_element resolve confine path entry collect
    list open_file entry_less new_store clamp Settings.load roots_from hide_entry start_with start
started_again = refl

start-IsReady_example : IsReady memory other_disk api
start-IsReady_example =
    start-IsReady crypto codec parse_int memory made (codes "1.0") 7 env (some (codes "node")) args
      empty_disk other_disk api started
