-- ===== src/Shares/Created.antt =====
-- The write path of internal/shares/shares.go is confined: `EnsureDir`, `ResolveForWrite`.

use mathlib.Core.List.{append-nil}
use localsend_nas.Prelude.{
  List, [], ◌∷◌, ◌++◌, some, Str, str_eq_iff, split, join, lookup, All, ok, ◌≡◌, ◌≢◌, ◌⊎◌, refl,
  sym, ap, ◌∙◌, inl, inr, arith, Result-cases, ok-injective,
}
use localsend_nas.Filepath.{slash, dot, join_path}
use localsend_nas.Filepath.Descend.{
  IsPlain, descend, descend-append, join-nil, join-cons, split-descend, split-NoSlash,
  All-IsPlain-NoSlash,
}
use localsend_nas.Filepath.Laws.{IsAbsolute, join_path-name, Within-IsAbsolute}
use localsend_nas.Host.{Host}
use localsend_nas.Shares.{Store, anchored, sanitize_element}
use localsend_nas.Shares.Write.{ensure_element, ensure_from, ensure_dir}
use localsend_nas.Shares.Sanitize.{IsSafe, sanitize_element-IsSafe}
use localsend_nas.Shares.Confine.{rel_names, rel_names-IsPlain, anchored-eq}

-- One round of the loop, where the element is accepted.
descend-name :
    {cur elem : Str} → IsAbsolute cur → IsSafe elem → IsAbsolute (join_path (cur ∷ elem ∷ []))
descend-name {cur} {elem} h s =
    rw (join_path-name elem h s.plain)
      (Within-IsAbsolute h (record { names = elem ∷ []; plain = (s.plain, tt); reached = refl }))

module _ {D : Type 0} (host : Host D) where
  -- The loop goes down from its start along the names that it is given, all of them safe.
  ensure_from-eq-descend :
      (d : D) (root cur : Str) (es : List Str) (p : Str)
      → IsAbsolute cur
      → (ensure_from host d root cur es).0 ≡ ok p
      → All IsSafe es × (p ≡ descend cur es)
  unfolding ensure_from
  ensure_from-eq-descend d root cur [] p h e = (tt, sym (ok-injective e) ∙ sym (append-nil cur))
  ensure_from-eq-descend d root cur (elem ∷ es) p h e =
      elim (Result-cases (sanitize_element elem)) [
        | inr (x, refused) ↦ ground arith
        | inl (f, accepted) ↦
            let safe : IsSafe elem = (sanitize_element-IsSafe accepted).1 in
            elim (Result-cases (ensure_element host d root (join_path (cur ∷ elem ∷ [])) elem).0) [
              | inr (x, failed) ↦ ground arith
              | inl (u, made) ↦
                  let (safes, q) =
                    ensure_from-eq-descend
                      (ensure_element host d root (join_path (cur ∷ elem ∷ [])) elem).1 root
                      (join_path (cur ∷ elem ∷ [])) es p (descend-name h safe) (ground arith) in
                  (
                    (safe, safes),
                    q
                        ∙ ap (λ c. descend c es) (join_path-name elem h safe.plain)
                        ∙ sym (descend-append cur (elem ∷ []) es),
                  )
            ]
      ]

-- The parts of an anchored path are its names, unless it stands for the root.
split-anchored : (rel : Str) → anchored rel ≢ [] → split slash (anchored rel) ≡ rel_names rel
split-anchored rel h = go (rel_names rel) (rel_names-IsPlain rel) (anchored-eq rel)
  where
    go :
        (es : List Str)
        → All IsPlain es
        → anchored rel ≡ join slash es
        → split slash (anchored rel) ≡ es
    go [] k e = absurd (h (e ∙ join-nil))
    go (n ∷ ns) k e =
        ap (split slash) (e ∙ join-cons n ns)
        ∙ split-descend n ns (All-IsPlain-NoSlash ns k.1)
        ∙ ap (λ q. q ++ ns) (split-NoSlash n k.0.no_slash)

descend-ne-nil : (n : Str) (ns : List Str) → IsPlain n → descend n ns ≢ []
descend-ne-nil [] ns h e = h.nonempty refl
descend-ne-nil (c ∷ n) ns h e = cc

descend-ne-dot : (n : Str) (ns : List Str) → IsPlain n → descend n ns ≢ dot
descend-ne-dot [] ns h e = h.nonempty refl
descend-ne-dot (c ∷ []) ns h e = h.not_dot (cc)
descend-ne-dot (c ∷ b ∷ n) ns h e = cc

anchored-cases : (rel : Str) → (rel_names rel ≡ []) ⊎ ((anchored rel ≢ []) × (anchored rel ≢ dot))
anchored-cases rel = go (rel_names rel) (rel_names-IsPlain rel) (anchored-eq rel)
  where
    go :
        (es : List Str)
        → All IsPlain es
        → anchored rel ≡ join slash es
        → (es ≡ []) ⊎ ((anchored rel ≢ []) × (anchored rel ≢ dot))
    go [] k e = inl refl
    go (n ∷ ns) k e =
        let q : anchored rel ≡ descend n ns = e ∙ join-cons n ns in
        inr ((λ z. descend-ne-nil n ns k.0 (sym q ∙ z)), (λ z. descend-ne-dot n ns k.0 (sym q ∙ z)))

module _ {D : Type 0} (host : Host D) (d : D) (st : Store) (name rel : Str) {root : Str} where
  ensure_dir-root :
      lookup name st.roots ≡ some root
      → anchored rel ≡ []
      → (ensure_dir host d st name rel).0 ≡ ok root
  unfolding ensure_dir
  ensure_dir-root e h = rw (e, ensure_dir) (ground (arith, (str_eq_iff (anchored rel) []).1 h))

  ensure_dir-below :
      lookup name st.roots ≡ some root
      → anchored rel ≢ []
      → anchored rel ≢ dot
      → ensure_dir host d st name rel ≡ ensure_from host d root root (split slash (anchored rel))
  unfolding ensure_dir
  ensure_dir-below e h k =
      rw (e, ensure_dir)
        (ground (arith, str_eq_iff (anchored rel) [], str_eq_iff (anchored rel) dot))

-- When `EnsureDir` succeeds below an absolute root, its result is the directory that goes down from
-- the root along the plain names of the given path, and every one of these names is safe.
pub ensure_dir-eq-descend :
    {D : Type 0} (host : Host D) (d : D) (st : Store) (name rel : Str) {root : Str} (p : Str)
    → IsAbsolute root
    → lookup name st.roots ≡ some root
    → (ensure_dir host d st name rel).0 ≡ ok p
    → All IsSafe (rel_names rel) × (p ≡ descend root (rel_names rel))
ensure_dir-eq-descend host d st name rel {root} p h e k = elim (anchored-cases rel) [
  | inl here ↦
      let at_root : anchored rel ≡ [] = anchored-eq rel ∙ ap (join slash) here ∙ join-nil in
      rw here (
        tt,
        ok-injective (sym k ∙ ensure_dir-root host d st name rel e at_root) ∙ sym (append-nil root),
      )
  | inr (nonempty, not_dot) ↦ rw (← split-anchored rel nonempty) (
      ensure_from-eq-descend host d root root (split slash (anchored rel)) p h
        (sym (ap (λ r. r.0) (ensure_dir-below host d st name rel e nonempty not_dot)) ∙ k))
]
