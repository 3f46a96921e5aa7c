-- ===== src/Receive/Paths/Names.antt =====
-- What `sanitizeRelPath` of internal/receive/receive.go admits, and the parts of its result.
use localsend_nas.Prelude.{
  List, [], ◌∷◌, Str, str_eq_iff, replace_byte, split, join, All, ok, ok-injective, Result-cases,
  ◌≡◌, ◌≢◌, ◌↔◌, refl, arith, inl, inr,
}
use localsend_nas.Filepath.{slash, join_path}
use localsend_nas.Filepath.Descend.{IsPlain, split-ne-nil}
use localsend_nas.Filepath.Rooted.{join_path_of_IsPlain}
use localsend_nas.Shares.{sanitize_element}
use localsend_nas.Shares.Sanitize.{IsSafe, sanitize_element-IsSafe, sanitize_element_of_IsSafe}
use localsend_nas.Receive.Paths.{sanitize_all, sanitize_rel_path}

-- The parts of a received name, with both separators.
abbrev pub name_parts : Str → List Str
name_parts name = split slash (replace_byte 0x5c slash name)

sanitize_all-IsSafe : (ps qs : List Str) → sanitize_all ps ≡ ok qs → (ps ≡ qs) × All IsSafe ps
unfolding sanitize_all
sanitize_all-IsSafe [] qs h = (ok-injective h, tt)
sanitize_all-IsSafe (p ∷ ps) qs h = elim (Result-cases (sanitize_element p)) [
  | inr (x, e) ↦ ground arith
  | inl (s, e) ↦ elim (Result-cases (sanitize_all ps)) [
    | inr (x, k) ↦ ground arith
    | inl (rest, k) ↦
        let (same, safe) = sanitize_element-IsSafe e in
        let (all_same, all_safe) = sanitize_all-IsSafe ps rest k in (cc, (safe, all_safe))
  ]
]

sanitize_all_of_IsSafe : (ps : List Str) → All IsSafe ps → sanitize_all ps ≡ ok ps
unfolding sanitize_all
sanitize_all_of_IsSafe [] h = refl
sanitize_all_of_IsSafe (p ∷ ps) (h, hs) =
    rw (sanitize_element_of_IsSafe p h, sanitize_all_of_IsSafe ps hs)

All-IsPlain : (ps : List Str) → All IsSafe ps → All IsPlain ps
All-IsPlain [] h = tt
All-IsPlain (p ∷ ps) (h, hs) = (h.plain, All-IsPlain ps hs)

join_path-parts :
    (name : Str)
    → All IsSafe (name_parts name)
    → join_path (name_parts name) ≡ join slash (name_parts name)
join_path-parts name h = go (name_parts name) (split-ne-nil (replace_byte 0x5c slash name)) h
  where
    go : (ps : List Str) → ps ≢ [] → All IsSafe ps → join_path ps ≡ join slash ps
    go [] n k = absurd (n refl)
    go (p ∷ ps) n k = join_path_of_IsPlain p ps (All-IsPlain (p ∷ ps) k)

-- What is asked of a name, and what comes out.
pub record Accepts (name rel : Str) : Type 0 where
  pub nonempty : name ≢ []
  pub safe : All IsSafe (name_parts name)
  pub result : rel ≡ join slash (name_parts name)

accepted : {name rel : Str} → sanitize_rel_path name ≡ ok rel → Accepts name rel
unfolding sanitize_rel_path
accepted {name} {rel} h = elim (Result-cases (sanitize_all (name_parts name))) [
  | inr (x, k) ↦ ground arith
  | inl (parts, k) ↦
      let (same, safe) = sanitize_all-IsSafe (name_parts name) parts k in
      ground (arith, str_eq_iff name [], join_path-parts name safe)
]

accepts : {name rel : Str} → Accepts name rel → sanitize_rel_path name ≡ ok rel
unfolding sanitize_rel_path
accepts {name} {rel} h =
    let e : sanitize_all (name_parts name) ≡ ok (name_parts name) =
      sanitize_all_of_IsSafe (name_parts name) h.safe in
    ground (arith, str_eq_iff name [], join_path-parts name h.safe)

-- A sender's file name is accepted exactly when it is not empty and each of its parts, between "/"
-- or "\", is a safe element; the result is the parts joined by "/".
pub sanitize_rel_path_iff : (name rel : Str) → (sanitize_rel_path name ≡ ok rel) ↔ Accepts name rel
sanitize_rel_path_iff name rel = (accepted, accepts)
