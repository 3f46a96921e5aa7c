-- ===== src/Receive/Paths.antt =====
-- The destination paths of internal/receive/receive.go: `sanitizeRelPath` and `claimFinalPath`.
pub mod Names
pub mod Claim
pub mod Numbered
use localsend_nas.Prelude.{
  decimal, ℕ, zero, suc, ◌+◌, ◌/◌, ◌%◌, Bool, true, false, ◌&&◌, not, List, [], ◌∷◌, ◌++◌, Option,
  none, some, Str, codes, Map, has_key, insert, replace_byte, split, trim_suffix, str_eq,
  if◌then◌else◌, ◌==◌, ltb, Result, ok, err, ◌>>=◌,
}
use localsend_nas.Filepath.{slash, ext, join_path}
use localsend_nas.Host.{Host}
use localsend_nas.Shares.{ShareError, invalid_name, sanitize_element}
use localsend_nas.Receive.{Manager}

-- The loop of `sanitizeRelPath`.
unfoldable pub sanitize_all : List Str → Result ShareError (List Str)
sanitize_all [] = ok []
sanitize_all (p ∷ ps) = do s ← sanitize_element p; rest ← sanitize_all ps; ok (s ∷ rest)

unfoldable pub sanitize_rel_path : Str → Result ShareError Str
unfolding sanitize_all
sanitize_rel_path name =
    if str_eq name []
    then err (invalid_name name)
    else do parts ← sanitize_all (split slash (replace_byte 0x5c slash name)); ok (join_path parts)

-- The i-th name that is tried: "name.ext", "name (1).ext", "name (2).ext", …
unfoldable pub numbered : Str → ℕ → Str
numbered base zero = base
numbered base (suc i) =
    trim_suffix base (ext base) ++ (codes " (" ++ (decimal (suc i) ++ (codes ")" ++ ext base)))

module _ {D : Type 0} (host : Host D) where
  abbrev pub exists : D → Str → Bool
  exists d p = elim (host.lstat d p) [ ok _ ↦ true | err _ ↦ false ]

  abbrev pub is_free : D → Manager → Str → Bool
  is_free d m p = not (has_key p m.in_progress) && not (exists d p)

  -- The loop of `claimFinalPath` from the i-th name; `none` when the fuel is used up.
  unfoldable pub claim_from : ℕ → ℕ → Str → D → Manager → Str → Str → Option (Str × Manager)
  claim_from zero i sid d m dir base = none
  claim_from (suc fuel) i sid d m dir base =
      let candidate = join_path (dir ∷ numbered base i ∷ []) in
      let rest = claim_from fuel (i + 1) sid d m dir base in
      if is_free d m candidate
      then some (candidate, record m { in_progress = insert candidate sid m.in_progress })
      else rest

  unfoldable pub claim_final_path : ℕ → Str → D → Manager → Str → Str → Option (Str × Manager)
  unfolding claim_from
  claim_final_path fuel sid d m dir base = claim_from fuel 0 sid d m dir base
