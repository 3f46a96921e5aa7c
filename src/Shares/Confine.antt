-- ===== src/Shares/Confine.antt =====
-- Reads are confined: what `resolve` of internal/shares/shares.go admits.
use mathlib.Core.Path.{subst}
use mathlib.Core.List.{append_assoc, append-nil}
use localsend_nas.Prelude.{
  true, false, List, [], ◌∷◌, ◌++◌, some, Str, str_eq, str_eq_iff, has_prefix, has_prefix-append,
  has_prefix_of_append, trim_prefix, split, join, lookup, All, Result, ok, err, ◌≡◌, ◌↔◌, refl, sym,
  ap, ◌∙◌, inl, inr, arith, length, length-append, Bool-cases, ok-injective,
}
use localsend_nas.Filepath.{slash, clean_from, join_path}
use localsend_nas.Filepath.Descend.{IsPlain, Within, descend, path_tail, split-All}
use localsend_nas.Filepath.Laws.{
  IsAbsolute, clean_from-IsPlain, clean-eq-names, join_path-descend, Within-IsAbsolute,
}
use localsend_nas.Filepath.Rooted.{clean-IsRooted, Within-has_prefix}
use localsend_nas.Host.{Host, OsError, not_exist, other, IsRooted, EvalLaws}
use localsend_nas.Shares.{Store, anchored, escapes, confine, resolve}

-- The names that a relative path stands for: ".." takes one back, and stops at the root.
abbrev pub rel_names : Str → List Str
rel_names rel = clean_from true [] (split slash (slash ∷ rel))

pub rel_names-IsPlain : (rel : Str) → All IsPlain (rel_names rel)
rel_names-IsPlain rel =
    clean_from-IsPlain [] (split slash (slash ∷ rel)) tt (split-All (slash ∷ rel))

trim_prefix-slash : (s : Str) → trim_prefix (slash ∷ s) (slash ∷ []) ≡ s
unfolding trim_prefix
trim_prefix-slash s = refl

pub anchored-eq : (rel : Str) → anchored rel ≡ join slash (rel_names rel)
anchored-eq rel =
    ap (λ s. trim_prefix s (slash ∷ [])) (clean-eq-names rel)
    ∙ trim_prefix-slash (join slash (rel_names rel))

-- What is joined below a root is the root and the plain names of the path.
pub join_path-anchored :
    {root : Str} (rel : Str)
    → IsAbsolute root
    → join_path (root ∷ anchored rel ∷ []) ≡ descend root (rel_names rel)
join_path-anchored {root} rel h =
    ap (λ s. join_path (root ∷ s ∷ [])) (anchored-eq rel)
    ∙ join_path-descend (rel_names rel) h (rel_names-IsPlain rel)

-- "/" has no absolute directory, with its separator, for a prefix.
slash-prefix : {root : Str} → IsAbsolute root → has_prefix (slash ∷ []) (root ++ slash ∷ []) ≡ false
slash-prefix {root} h = elim (Bool-cases (has_prefix (slash ∷ []) (root ++ slash ∷ []))) [
  | inr e ↦ e
  | inl e ↦ absurd (
      omega (
        arith,
        ap length (has_prefix-append (slash ∷ []) (root ++ slash ∷ []) e),
        ap length h.shape,
        length-append {0} (root ++ slash ∷ []),
        length-append {0} root (slash ∷ []),
      ))
]

Within-prefix :
    {root q : Str}
    → IsAbsolute root
    → IsRooted q
    → has_prefix q (root ++ slash ∷ []) ≡ true
    → Within root q
Within-prefix {root} {q} h (inr k) e = Within-has_prefix h k e
Within-prefix {root} {q} h (inl k) e = cc (slash-prefix h)

Within-refl : (root : Str) → Within root root
Within-refl root = record { names = []; plain = tt; reached = sym (append-nil root) }

not_escapes-Within :
    {root q : Str} → IsAbsolute root → IsRooted q → escapes root q ≡ false → Within root q
not_escapes-Within {root} {q} h k e = elim (Bool-cases (str_eq q root)) [
  | inl same ↦ rw ((str_eq_iff q root).0 same) (Within-refl root)
  | inr differ ↦ Within-prefix h k (ground arith)
]

Within-not_escapes : {root q : Str} → Within root q → escapes root q ≡ false
Within-not_escapes {root} {q} w = go w.names w.reached
  where
    go : (es : List Str) → q ≡ descend root es → escapes root q ≡ false
    go [] e = ground (arith, (str_eq_iff q root).1 (e ∙ append-nil root))
    go (n ∷ ns) e =
        let inside : has_prefix q (root ++ slash ∷ []) ≡ true =
          rw (e ∙ sym (append_assoc root (slash ∷ []) (descend n ns)))
            (has_prefix_of_append (root ++ slash ∷ []) (descend n ns)) in
        ground (arith, inside)

descend-IsAbsolute :
    {root : Str} (rel : Str) → IsAbsolute root → IsAbsolute (descend root (rel_names rel))
descend-IsAbsolute {root} rel h =
    Within-IsAbsolute h
      (record { names = rel_names rel; plain = rel_names-IsPlain rel; reached = refl })

confine_iff :
    {root : Str} (p : Str) (r : Result OsError Str)
    → IsAbsolute root
    → ((q : Str) → r ≡ ok q → IsRooted q)
    → (confine root r ≡ ok p) ↔ ((r ≡ ok p) × Within root p)
unfolding confine
confine_iff {root} p (ok q) h k = elim (Bool-cases (escapes root q)) [
  | inr inside ↦ rw inside (
    (λ e. (
      ap ok (ok-injective e),
      subst (Within root) (ok-injective e) (not_escapes-Within h (k q refl) inside),
    )),
    (λ e. ap ok (ok-injective e.0)),
  )
  | inl outside ↦ rw outside (
    (λ e. cc),
    (λ e. cc (outside, Within-not_escapes (subst (Within root) (sym (ok-injective e.0)) e.1))),
  )
]
confine_iff {root} p (err not_exist) h k = ((λ e. cc), (λ e. cc e.0))
confine_iff {root} p (err (other m)) h k = ((λ e. cc), (λ e. cc e.0))

resolve-eq-confine :
    {D : Type 0} (host : Host D) (d : D) (st : Store) (name rel : Str) {root : Str}
    → IsAbsolute root
    → lookup name st.roots ≡ some root
    → resolve host d st name rel
      ≡ confine root (host.eval_symlinks d (descend root (rel_names rel)))
unfolding resolve
resolve-eq-confine host d st name rel {root} h e = rw (e, resolve) (rw (join_path-anchored rel h))

-- For a share whose root is an absolute path other than "/", where the evaluation of symlinks gives
-- clean absolute paths, `resolve` of any relative path succeeds with `p` exactly when the symlinks
-- of the path that goes down from the root along the plain names of the relative path evaluate to
-- `p`, and `p` is the root or lies below it.
pub resolve_iff :
    {D : Type 0} (host : Host D) (d : D) (st : Store) (name rel : Str) {root : Str} (p : Str)
    → EvalLaws host
    → IsAbsolute root
    → lookup name st.roots ≡ some root
    → (resolve host d st name rel ≡ ok p)
      ↔ ((host.eval_symlinks d (descend root (rel_names rel)) ≡ ok p) × Within root p)
resolve_iff host d st name rel {root} p laws h e = rw (resolve-eq-confine host d st name rel h e) (
    confine_iff p (host.eval_symlinks d (descend root (rel_names rel))) h
      λ q. laws.eval_rooted d (descend root (rel_names rel)) q (inr (descend-IsAbsolute rel h)))

-- "/" joined with anything that is anchored is rooted.
join_path-slash : (rel : Str) → IsRooted (join_path ((slash ∷ []) ∷ anchored rel ∷ []))
unfolding join_path join
join_path-slash rel = clean-IsRooted (slash ∷ anchored rel)

name-not_slash :
    (f : Str) (t : Str) → IsPlain f → has_prefix (slash ∷ f ++ t) (slash ∷ slash ∷ []) ≡ false
unfolding has_prefix
name-not_slash [] t k = absurd (k.nonempty refl)
name-not_slash (c ∷ f) t k = ground (arith, k.no_slash)

slash-slash : {q : Str} → IsAbsolute q → has_prefix q (slash ∷ slash ∷ []) ≡ false
slash-slash {q} h = rw h.shape (name-not_slash h.first (path_tail h.rest) h.plain.0)

confine-slash :
    (p : Str) (r : Result OsError Str)
    → ((q : Str) → r ≡ ok q → IsRooted q)
    → confine (slash ∷ []) r ≡ ok p
    → p ≡ slash ∷ []
unfolding confine
confine-slash p (err not_exist) k h = cc
confine-slash p (err (other m)) k h = cc
confine-slash p (ok q) k h = elim (k q refl) [
  | inl e ↦ ground (arith, str_eq_iff q (slash ∷ []))
  | inr a ↦ ground (arith, str_eq_iff q (slash ∷ []), slash-slash a)
]

-- Where the evaluation of symlinks gives clean absolute paths, a share whose root is "/" gives
-- access to nothing but "/" itself: every path below it is refused, since the guard looks for the
-- prefix "//".
pub resolve-slash_root :
    {D : Type 0} (host : Host D) (d : D) (st : Store) (name rel p : Str)
    → EvalLaws host
    → lookup name st.roots ≡ some (slash ∷ [])
    → resolve host d st name rel ≡ ok p
    → p ≡ slash ∷ []
unfolding resolve
resolve-slash_root host d st name rel p laws e h =
    confine-slash p (host.eval_symlinks d (join_path ((slash ∷ []) ∷ anchored rel ∷ [])))
      (λ q.
        laws.eval_rooted d (join_path ((slash ∷ []) ∷ anchored rel ∷ [])) q (join_path-slash rel))
      (rw (e, resolve) at h)
