-- ===== src/Filepath.antt =====
-- The functions of Go's path/filepath that the program calls, on a system whose separator is "/".
pub mod Descend
pub mod Laws
pub mod Rooted
pub mod SplitFile
use localsend_nas.Prelude.{
  Bool, true, false, ◌||◌, not, List, [], ◌∷◌, ◌++◌, Str, codes, str_eq, has_prefix, contains_byte,
  split, join, ℕ, ◌==◌, if◌then◌else◌,
}
use mathlib.Core.List.{reverse}

abbrev pub slash : ℕ
slash = b'/'

abbrev pub dot : Str
dot = codes "."

abbrev pub dotdot : Str
dotdot = codes ".."

-- ".." in `Clean`: it takes an element back, or stays if there is none to take.
unfoldable pub go_up : Bool → List Str → List Str
go_up rooted [] = if rooted then [] else dotdot ∷ []
go_up rooted (top ∷ rest) = if str_eq top dotdot then dotdot ∷ top ∷ rest else rest

-- One element of a path in `Clean`; the stack has the last element of the output at its head.
unfoldable pub clean_step : Bool → List Str → Str → List Str
unfolding go_up
clean_step rooted stack e =
    if str_eq e [] || str_eq e dot
    then stack
    else if str_eq e dotdot
    then go_up rooted stack
    else e ∷ stack

unfoldable pub clean_from : Bool → List Str → List Str → List Str
unfolding clean_step
clean_from rooted stack [] = reverse stack
clean_from rooted stack (e ∷ es) = clean_from rooted (clean_step rooted stack e) es

abbrev pub or_dot : Str → Str
or_dot [] = dot
or_dot s = s

-- filepath.Clean
unfoldable pub clean : Str → Str
unfolding clean_from split join has_prefix
clean s =
    if has_prefix s (slash ∷ [])
    then slash ∷ join slash (clean_from true [] (split slash s))
    else or_dot (join slash (clean_from false [] (split slash s)))

-- filepath.Join: leading empty elements are skipped.
unfoldable pub join_path : List Str → Str
unfolding clean
join_path [] = []
join_path ([] ∷ es) = join_path es
join_path (e ∷ es) = clean (join slash (e ∷ es))

-- filepath.Split: the directory keeps its final separator.
unfoldable pub split_file : Str → Str × Str
unfolding str_eq
split_file [] = ([], [])
split_file (a ∷ s) =
    let (dir, base) = split_file s in
    if not (str_eq dir [])
    then (a ∷ dir, base)
    else if a == slash
    then (a ∷ [], base)
    else ([], a ∷ base)

-- filepath.Ext: from the last dot of the last element.
unfoldable pub ext : Str → Str
unfolding contains_byte
ext [] = []
ext (a ∷ s) =
    if contains_byte s b'.' || contains_byte s slash then ext s else if a == b'.' then a ∷ s else []
