-- ===== src/Transfer/Expand.antt =====
-- `expand` and `expandItem` of internal/transfer/manager.go: the files of a basket.
use localsend_nas.Prelude.{
  decimal, ℕ, zero, suc, ◌+◌, false, List, [], ◌∷◌, ◌++◌, Option, none, some, Str, codes, ℤ, pos,
  str_eq, ◌+₆₄◌, if◌then◌else◌, Result, ok, err,
}
use localsend_nas.Filepath.{slash, clean, split_file}
use localsend_nas.Host.{Host}
use localsend_nas.Shares
use localsend_nas.Shares.{ShareError, list, open_file}
use localsend_nas.Transfer.{ItemRef, FileProgress}

pub data ExpandError : Type 0 where
  missing_share empty_basket no_files queue_full : ExpandError
  unknown_target : Str → ExpandError
  not_open : Str → Str → ShareError → ExpandError

-- The files so far, their total size, and how many there are: the three pointers that the functions
-- share.
pub record Basket : Type 0 where
  pub files : List FileProgress
  pub total : ℤ
  pub n : ℕ

abbrev pub empty : Basket
empty = record { files = []; total = pos 0; n = 0 }

-- joinName
unfoldable pub join_name : Str → Str → Str
join_name prefix name = if str_eq prefix [] then name else prefix ++ slash ∷ name

-- fileID
unfoldable pub file_id : ℕ → Str
file_id n = codes "f" ++ decimal n

-- addFile
unfoldable pub add_file : Str → ItemRef → ℤ → Basket → Basket
add_file name src size b = record {
  files =
      b.files
      ++ record {
        id = file_id b.n;
        name = name;
        share = src.share;
        rel = src.rel;
        size = size;
        sent = pos 0;
        done = false;
      }
        ∷ [];
  total = b.total +₆₄ size;
  n = b.n + 1;
}

-- filepath.Base of an absolute clean path.
abbrev pub base : Str → Str
base p = if str_eq (split_file p).1 [] then slash ∷ [] else (split_file p).1

abbrev pub dir_prefix : Str → Str → Str
dir_prefix prefix rel =
    if str_eq rel [] then prefix else join_name prefix (base (clean (slash ∷ rel)))

-- Fallible work on the basket, `none` when the fuel is spent.
abbrev pub Work : Type 0
Work = Option (Result ExpandError Basket)

abbrev pub then_work : Work → (Basket → Work) → Work
then_work none f = none
then_work (some (err e)) f = some (err e)
then_work (some (ok b)) f = f b

module _ {D : Type 0} (host : Host D) (d : D) (to_lower : Str → Str) (shares : Shares.Store) where
  -- Not a listable directory: a file.
  abbrev pub expand_file : ItemRef → Str → Basket → Result ExpandError Basket
  expand_file item prefix b = elim (open_file host d shares item.share item.rel) [
    | err e ↦ err (not_open item.share item.rel e)
    | ok (_, e) ↦ ok (add_file (join_name prefix e.name) item e.size b)
  ]

  -- The loop over the entries of a directory; `item` expands a directory among them.
  unfoldable pub expand_entries :
      (ItemRef → Str → Basket → Work) → Str → Str → List Shares.Entry → Basket → Work
  expand_entries item share prefix [] b = some (ok b)
  expand_entries item share prefix (e ∷ es) b =
      let rest = expand_entries item share prefix es in
      let child : ItemRef = record { share = share; rel = e.rel } in
      if e.is_dir
      then then_work (item child prefix b) rest
      else rest (add_file (join_name prefix e.name) child e.size b)

  -- expandItem, on fuel for the depth of the tree.
  unfoldable pub expand_item : ℕ → ItemRef → Str → Basket → Work
  expand_item zero item prefix b = none
  expand_item (suc k) item prefix b = elim (list host d to_lower shares item.share item.rel) [
    | err _ ↦ some (expand_file item prefix b)
    | ok entries ↦ expand_entries (expand_item k) item.share (dir_prefix prefix item.rel) entries b
  ]

  -- The loop of `expand`.
  unfoldable pub expand_from : ℕ → List ItemRef → Basket → Work
  expand_from fuel [] b = some (ok b)
  expand_from fuel (item ∷ items) b =
      if str_eq item.share []
      then some (err missing_share)
      else then_work (expand_item fuel item [] b) (λ b. expand_from fuel items b)

  abbrev pub expand : ℕ → List ItemRef → Work
  expand fuel items = expand_from fuel items empty
