-- ===== src/Shares.antt =====
-- internal/shares/shares.go: path-confined access to configured share roots.
pub mod Sanitize
pub mod Write
pub mod Confine
pub mod Created
pub mod Order
use localsend_nas.Prelude.{
  ℕ, Bool, true, false, not, ◌&&◌, ◌||◌, List, [], ◌∷◌, ◌++◌, Option, none, some, Str, codes, Map,
  ℤ, str_eq, str_lt, sort, has_prefix, trim_prefix, contains_byte, lookup, insert, any, map, ltb,
  ◌==◌, if◌then◌else◌, Result, ok, err, ◌>>=◌, map_err,
}
use localsend_nas.Filepath.{slash, dot, dotdot, clean, join_path, split_file}
use localsend_nas.Host.{Host, OsError, not_exist, other, FileInfo, DirEntry}

pub data ShareError : Type 0 where
  unknown_share : ShareError
  outside_root : ShareError
  not_found : ShareError
  is_directory : ShareError
  not_a_directory : Str → ShareError
  invalid_name : Str → ShareError
  has_separator : Str → ShareError
  has_control : Str → ShareError
  os : OsError → ShareError

pub record Entry : Type 0 where
  pub name : Str
  pub rel : Str
  pub is_dir : Bool
  pub size : ℤ
  pub mod_time : ℕ

pub record Store : Type 0 where
  pub roots : Map Str
  pub hide_entry : Option (Str → Bool)

unfoldable pub nas_noise : Str → Bool
nas_noise name =
    any (str_eq name) (
      codes "@eaDir"
      ∷ codes "#recycle"
      ∷ codes "$RECYCLE.BIN"
      ∷ codes ".DS_Store"
      ∷ codes "Thumbs.db"
      ∷ codes "desktop.ini"
      ∷ codes ".SynologyWorkingDirectory"
      ∷ [])
    || has_prefix name (codes ".Trash-")

-- A control character in the sense of `SanitizeElement`. Characters beyond ASCII have no byte
-- below 0x80, so the test on runes is a test on bytes.
abbrev pub is_control : ℕ → Bool
is_control c = ltb c 0x20 || c == 0x7f

-- strings.ContainsAny(name, "/\\\x00")
abbrev pub is_separator : ℕ → Bool
is_separator c = c == slash || c == 0x5c || c == 0

unfoldable pub sanitize_element : Str → Result ShareError Str
sanitize_element name =
    if str_eq name [] || str_eq name dot || str_eq name dotdot
    then err (invalid_name name)
    else if any is_separator name
    then err (has_separator name)
    else if any is_control name
    then err (has_control name)
    else ok name

-- Path: the host path of a share root.
unfoldable pub path : Store → Str → Option Str
path st name = lookup name st.roots

-- The `less` of `List`: directories first, then by lower-case name. Lower case is that of Unicode.
unfoldable pub entry_less : (Str → Str) → Entry → Entry → Bool
entry_less to_lower a b =
    if a.is_dir && not b.is_dir
    then true
    else if not a.is_dir && b.is_dir
    then false
    else str_lt (to_lower a.name) (to_lower b.name)

-- Names: sorted.
unfoldable pub names : Store → List Str
names st = sort str_lt (map (λ r. r.0) st.roots)

-- The names of a relative path, anchored at "/": what `clean` leaves of it.
abbrev pub anchored : Str → Str
anchored rel = trim_prefix (clean (slash ∷ rel)) (slash ∷ [])

-- Does an evaluated path stay in the root?
abbrev pub escapes : Str → Str → Bool
escapes root eval = not (str_eq eval root) && not (has_prefix eval (root ++ slash ∷ []))

unfoldable pub confine : Str → Result OsError Str → Result ShareError Str
confine root (err not_exist) = err not_found
confine root (err (other m)) = err (os (other m))
confine root (ok eval) = if escapes root eval then err outside_root else ok eval

unfoldable pub entry : Str → Str → FileInfo → Entry
entry name rel fi = record {
  name = name;
  rel = rel;
  is_dir = fi.is_dir;
  size = fi.size;
  mod_time = fi.mod_time;
}

-- Is the name kept out of listings?
abbrev pub hidden : Store → Str → Bool
hidden st name = elim st.hide_entry [ none ↦ false | some hide ↦ hide name ]

-- An entry whose `Info` fails is left out.
abbrev pub keep_entry : (FileInfo → Entry) → List Entry → Result OsError FileInfo → List Entry
keep_entry make rest (ok fi) = make fi ∷ rest
keep_entry make rest (err _) = rest

-- The loop of `List` over the directory's entries.
unfoldable pub collect : Store → Str → List DirEntry → List Entry
unfolding entry
collect st rel [] = []
collect st rel (de ∷ des) =
    let rest = collect st rel des in
    if hidden st de.name
    then rest
    else keep_entry (entry de.name (join_path (rel ∷ de.name ∷ []))) rest de.info

module _ {D : Type 0} (host : Host D) (d : D) where
  -- One share of `NewStore`.
  unfoldable pub open_root : Str → Result OsError Str
  open_root p = do
    abs ← host.abs d p
    eval ← host.eval_symlinks d abs
    fi ← host.stat d eval
    if fi.is_dir then ok eval else err (other (codes "is not a directory"))

  unfoldable pub new_store : Map Str → Result OsError Store
  unfolding open_root
  new_store [] = ok (record { roots = []; hide_entry = none })
  new_store ((name, p) ∷ rest) = do
    eval ← open_root p
    st ← new_store rest
    ok (record st { roots = insert name eval st.roots })

  unfoldable pub resolve : Store → Str → Str → Result ShareError Str
  unfolding confine
  resolve st name rel = elim (lookup name st.roots) [
    | none ↦ err unknown_share
    | some root ↦ confine root (host.eval_symlinks d (join_path (root ∷ anchored rel ∷ [])))
  ]

  unfoldable pub list : (Str → Str) → Store → Str → Str → Result ShareError (List Entry)
  unfolding resolve collect sort entry_less
  list to_lower st name rel = do
    abs ← resolve st name rel
    fi ← map_err os (host.stat d abs)
    if fi.is_dir
        then (do
          des ← map_err os (host.read_dir d abs)
          ok (sort (entry_less to_lower) (collect st rel des)))
        else err (not_a_directory rel)

  -- Open: the handle is the resolved path.
  unfoldable pub open_file : Store → Str → Str → Result ShareError (Str × Entry)
  unfolding resolve entry
  open_file st name rel = do
    abs ← resolve st name rel
    fi ← map_err os (host.stat d abs)
    if fi.is_dir then err is_directory else elim (host.open_read d abs) [
      | some e ↦ err (os e)
      | none ↦ ok (abs, entry fi.name rel fi)
    ]

  unfoldable pub resolve_for_write : Store → Str → Str → Result ShareError Str
  unfolding resolve sanitize_element split_file
  resolve_for_write st name rel =
      let (dir, base) = split_file rel in
      do
        _ ← sanitize_element base
        parent ← resolve st name dir
        ok (join_path (parent ∷ base ∷ []))
