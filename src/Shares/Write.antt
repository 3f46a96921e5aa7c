-- ===== src/Shares/Write.antt =====
-- `EnsureDir` of internal/shares/shares.go: the part of the store that creates directories.
use localsend_nas.Prelude.{
  ◌||◌, List, [], ◌∷◌, Option, none, some, Str, str_eq, split, lookup, if◌then◌else◌, Result, ok,
  err, ◌>>=◌, map_err,
}
use localsend_nas.Filepath.{slash, dot, join_path}
use localsend_nas.Host.{Host, OsError, not_exist, other}
use localsend_nas.Shares.{
  ShareError, unknown_share, outside_root, not_a_directory, os, Store, sanitize_element, anchored,
  escapes,
}

abbrev pub made_dir : {D : Type 0} → Option OsError × D → Result ShareError (Unit {0}) × D
made_dir (none, d') = (ok tt, d')
made_dir (some e, d') = (err (os e), d')

module _ {D : Type 0} (host : Host D) where
  -- `default:` of `EnsureDir`: an element that exists must be a directory inside the root.
  unfoldable pub check_existing : D → Str → Str → Str → Result ShareError (Unit {0})
  check_existing d root candidate elem = do
    eval ← map_err os (host.eval_symlinks d candidate)
    if escapes root eval then err outside_root else elim (host.stat d eval) [
      | err _ ↦ err (not_a_directory elem)
      | ok fi ↦ if fi.is_dir then ok tt else err (not_a_directory elem)
    ]

  -- The `switch` of `EnsureDir`.
  unfoldable pub ensure_element : D → Str → Str → Str → Result ShareError (Unit {0}) × D
  unfolding check_existing
  ensure_element d root candidate elem = elim (host.lstat d candidate) [
    | err not_exist ↦ made_dir (host.mkdir d candidate)
    | err (other m) ↦ (err (os (other m)), d)
    | ok _ ↦ (check_existing d root candidate elem, d)
  ]

  -- The loop of `EnsureDir`.
  unfoldable pub ensure_from : D → Str → Str → List Str → Result ShareError Str × D
  unfolding ensure_element sanitize_element
  ensure_from d root cur [] = (ok cur, d)
  ensure_from d root cur (elem ∷ es) =
      let candidate = join_path (cur ∷ elem ∷ []) in
      let (r, d') = ensure_element d root candidate elem in
      let rest = ensure_from d' root candidate es in
      elim (sanitize_element elem) [
        | err e ↦ (err e, d)
        | ok _ ↦ elim r [ err e ↦ (err e, d') | ok _ ↦ rest ]
      ]

  unfoldable pub ensure_dir : D → Store → Str → Str → Result ShareError Str × D
  unfolding ensure_from
  ensure_dir d st name rel_dir = elim (lookup name st.roots) [
    | none ↦ (err unknown_share, d)
    | some root ↦
        let rel = anchored rel_dir in
        if str_eq rel [] || str_eq rel dot
        then (ok root, d)
        else ensure_from d root root (split slash rel)
  ]
