-- ===== src/Tests/Names.antt =====
-- Examples of names, paths and settings.
use localsend_nas.Shares.Write.{check_existing, ensure_dir, ensure_element, ensure_from}
use localsend_nas.Prelude.{
  Bool, true, false, List, [], ◌∷◌, none, some, Str, codes, pos, ok, ◌≡◌, ◌↔◌, refl, All, lookup,
  contains_byte, cut, decimal, decimal_from, delete, drop_prefix, equal_fold, has_prefix,
  has_suffix, hex, insert, insert_sorted, join, replace_byte, scan_digits, skip_blanks, sort, split,
  sscanf_int, str_eq, str_lt, to_lower, to_lower_byte, to_upper, to_upper_byte, trim_prefix,
  trim_space, trim_suffix, ◌+₆₄◌,
}
use localsend_nas.Filepath.{slash, clean, clean_from, clean_step, ext, go_up, join_path, split_file}
use localsend_nas.Filepath.Descend.{Within, descend}
use mathlib.Core.List.{Perm}
use localsend_nas.Host.{Host, FileInfo, DirEntry}
use localsend_nas.Shares
use localsend_nas.Shares.{
  nas_noise, collect, confine, entry, entry_less, list, open_file, path, resolve, sanitize_element,
}
use localsend_nas.Shares.Order.{IsOrdered, Shows, list-IsOrdered}
use localsend_nas.Shares.Sanitize.{IsSafe}
use localsend_nas.Shares.Confine.{rel_names, resolve_iff, resolve-slash_root}
use localsend_nas.Shares.Created.{ensure_dir-eq-descend}
use localsend_nas.Receive.{Manager, new}
use localsend_nas.Receive.Paths.{
  claim_final_path, claim_from, numbered, sanitize_all, sanitize_rel_path,
}
use localsend_nas.Receive.Paths.Names.{Accepts, sanitize_rel_path_iff}
use localsend_nas.Receive.Paths.Claim.{Claims, claim_final_path-Claims}
use localsend_nas.Tests.Disk.{Disk, memory, memory-EvalLaws}
use localsend_nas.Tests.Scene.{shares, nas, root, root-IsAbsolute, empty_disk, sid}

sanitize_rel_path_iff_example :
    (sanitize_rel_path (codes "in\\a.txt") ≡ ok (codes "in/a.txt"))
    ↔ Accepts (codes "in\\a.txt") (codes "in/a.txt")
sanitize_rel_path_iff_example = sanitize_rel_path_iff (codes "in\\a.txt") (codes "in/a.txt")

share_root : lookup nas shares.roots ≡ some root
unfolding lookup insert delete str_eq split replace_byte trim_prefix trim_suffix contains_byte
    drop_prefix has_prefix has_suffix join ◌+₆₄◌ equal_fold to_lower to_lower_byte str_lt
    insert_sorted sort decimal_from decimal cut skip_blanks trim_space scan_digits sscanf_int
    to_upper to_upper_byte hex
share_root = refl

resolve_iff_example :
    (resolve memory empty_disk shares nas (codes "../x/./y") ≡ ok (codes "/srv/nas/x/y")) ↔ (
      (memory.eval_symlinks empty_disk (descend root (rel_names (codes "../x/./y")))
        ≡ ok (codes "/srv/nas/x/y"))
      × Within root (codes "/srv/nas/x/y"))
resolve_iff_example =
    resolve_iff memory empty_disk shares nas (codes "../x/./y") {root = root} (codes "/srv/nas/x/y")
      memory-EvalLaws root-IsAbsolute share_root

made : (ensure_dir memory empty_disk shares nas (codes "x/y")).0 ≡ ok (codes "/srv/nas/x/y")
unfolding lookup insert delete str_eq split replace_byte trim_prefix trim_suffix contains_byte
    drop_prefix has_prefix has_suffix join ◌+₆₄◌ equal_fold to_lower to_lower_byte str_lt
    insert_sorted sort decimal_from decimal cut skip_blanks trim_space scan_digits sscanf_int
    to_upper to_upper_byte hex clean clean_from clean_step go_up join_path split_file ext
    sanitize_element resolve confine path entry collect list open_file entry_less check_existing
    ensure_element ensure_from ensure_dir
made = refl

ensure_dir-eq-descend_example :
    All IsSafe (rel_names (codes "x/y"))
    × (codes "/srv/nas/x/y" ≡ descend root (rel_names (codes "x/y")))
ensure_dir-eq-descend_example =
    ensure_dir-eq-descend memory empty_disk shares nas (codes "x/y") {root = root}
      (codes "/srv/nas/x/y") root-IsAbsolute share_root made

-- A share of the whole system.
abbrev everything : Shares.Store
everything = record { roots = (nas, slash ∷ []) ∷ []; hide_entry = none }

slash_root : lookup nas everything.roots ≡ some (slash ∷ [])
unfolding lookup insert delete str_eq split replace_byte trim_prefix trim_suffix contains_byte
    drop_prefix has_prefix has_suffix join ◌+₆₄◌ equal_fold to_lower to_lower_byte str_lt
    insert_sorted sort decimal_from decimal cut skip_blanks trim_space scan_digits sscanf_int
    to_upper to_upper_byte hex
slash_root = refl

slash_resolved : resolve memory empty_disk everything nas [] ≡ ok (slash ∷ [])
unfolding lookup insert delete str_eq split replace_byte trim_prefix trim_suffix contains_byte
    drop_prefix has_prefix has_suffix join ◌+₆₄◌ equal_fold to_lower to_lower_byte str_lt
    insert_sorted sort decimal_from decimal cut skip_blanks trim_space scan_digits sscanf_int
    to_upper to_upper_byte hex clean clean_from clean_step go_up join_path split_file ext
    sanitize_element resolve confine path entry collect list open_file entry_less
slash_resolved = refl

resolve-slash_root_example : slash ∷ [] ≡ slash ∷ []
resolve-slash_root_example =
    resolve-slash_root memory empty_disk everything nas [] (slash ∷ []) memory-EvalLaws slash_root
      slash_resolved

-- A directory in which the first two names are taken.
abbrev busy : Disk
busy = record {
  dirs = root ∷ [];
  files = (codes "/srv/nas/a.txt", []) ∷ (codes "/srv/nas/a (1).txt", []) ∷ [];
}

abbrev reserved : Manager
reserved = record new { in_progress = (codes "/srv/nas/a (2).txt", sid) ∷ [] }

claimed :
    claim_final_path memory 4 sid busy new root (codes "a.txt")
    ≡ some (codes "/srv/nas/a (2).txt", reserved)
unfolding lookup insert delete str_eq split replace_byte trim_prefix trim_suffix contains_byte
    drop_prefix has_prefix has_suffix join ◌+₆₄◌ equal_fold to_lower to_lower_byte str_lt
    insert_sorted sort decimal_from decimal cut skip_blanks trim_space scan_digits sscanf_int
    to_upper to_upper_byte hex clean clean_from clean_step go_up join_path split_file ext
    sanitize_all sanitize_rel_path numbered claim_from claim_final_path
claimed = refl

claim_final_path-Claims_example :
    Claims memory sid busy new root (codes "a.txt") 0 (codes "/srv/nas/a (2).txt") reserved
claim_final_path-Claims_example =
    claim_final_path-Claims memory sid busy new root (codes "a.txt") 4 (codes "/srv/nas/a (2).txt")
      reserved claimed

-- A share with a file, a directory and one that is hidden.
abbrev pub info_of : Str → Bool → FileInfo
info_of name dir = record { name = name; is_dir = dir; size = pos 4; mod_time = 7 }

abbrev pub dir_entry : Str → Bool → DirEntry
dir_entry name dir = record { name = name; info = ok (info_of name dir) }

abbrev pub full : Host Disk
full = record memory {
  read_dir = λ d p. ok (
      dir_entry (codes "a.txt") false
      ∷ dir_entry (codes "@eaDir") true
      ∷ dir_entry (codes "b") true
      ∷ []);
}

abbrev pub quiet_shares : Shares.Store
quiet_shares = record shares { hide_entry = some nas_noise }

abbrev pub shown_entry : Str → Bool → Shares.Entry
shown_entry name dir = record { name = name; rel = name; is_dir = dir; size = pos 4; mod_time = 7 }

abbrev pub shown_entries : List Shares.Entry
shown_entries = shown_entry (codes "b") true ∷ shown_entry (codes "a.txt") false ∷ []

pub listed : Shares.list full empty_disk (λ s. s) quiet_shares nas [] ≡ ok shown_entries
unfolding nas_noise lookup insert delete str_eq split replace_byte trim_prefix trim_suffix
    contains_byte drop_prefix has_prefix has_suffix join ◌+₆₄◌ equal_fold to_lower to_lower_byte
    str_lt insert_sorted sort decimal_from decimal cut skip_blanks trim_space scan_digits sscanf_int
    to_upper to_upper_byte hex clean clean_from clean_step go_up join_path split_file ext
    sanitize_element resolve confine path entry collect list open_file entry_less
listed = refl

list-IsOrdered_example :
    IsOrdered (λ s. s) shown_entries
    × ((p : Str) × (des : List DirEntry) × (shown : List Shares.Entry) × (resolve full empty_disk
            quiet_shares nas []
          ≡ ok p)
        × (full.read_dir empty_disk p ≡ ok des)
        × Shows quiet_shares [] des shown
        × Perm shown_entries shown)
list-IsOrdered_example =
    list-IsOrdered full empty_disk (λ s. s) quiet_shares nas [] shown_entries listed
