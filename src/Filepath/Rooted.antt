-- ===== src/Filepath/Rooted.antt =====
-- Prefixes of absolute paths, and what `Clean` of path/filepath makes of rooted and relative paths.
use mathlib.Core.List.{append_assoc}
use mathlib.Core.Path.{subst}
use mathlib.Core.List.{tail}
use localsend_nas.Prelude.{
  ℕ, true, false, List, [], ◌∷◌, ◌++◌, Str, has_prefix, drop_prefix, has_prefix-append, split, join,
  cons_head, ◌==◌, ◌≡◌, ◌⊎◌, inl, inr, refl, sym, ap, ◌∙◌, arith, All,
}
use localsend_nas.Filepath.{slash, clean_from, or_dot, clean, join_path}
use localsend_nas.Filepath.Descend.{
  IsPlain, Within, descend, path_tail, split-append, split-All, split-descend, split-NoSlash,
  join-nil, join-cons, All-IsPlain-NoSlash,
}
use localsend_nas.Filepath.Laws.{
  IsAbsolute, clean-eq-names, split-rooted, clean_from-IsPlain, clean_from_of_IsPlain,
}

split-IsAbsolute : {p : Str} (h : IsAbsolute p) → split slash p ≡ [] ∷ h.first ∷ h.rest
split-IsAbsolute {p} h = ap (split slash) h.shape ∙ split-rooted h.first h.rest h.plain

prefix_parts :
    {root p : Str} (d : Str) (h : IsAbsolute root) (k : IsAbsolute p)
    → p ≡ root ++ slash ∷ d
    → k.first ∷ k.rest ≡ h.first ∷ h.rest ++ split slash d
prefix_parts {root} {p} d h k e = ap tail (
    sym (split-IsAbsolute k)
    ∙ ap (split slash) e
    ∙ split-append root d
    ∙ ap (λ q. q ++ split slash d) (split-IsAbsolute h))

All-right : (xs ys : List Str) → All IsPlain (xs ++ ys) → All IsPlain ys
All-right [] ys h = h
All-right (x ∷ xs) ys (h, hs) = All-right xs ys hs

path_tail-cons_head :
    (a : ℕ) (d : Str) (ps : List Str)
    → path_tail ps ≡ slash ∷ d
    → path_tail (cons_head a ps) ≡ slash ∷ a ∷ d
path_tail-cons_head a d [] h = cc
path_tail-cons_head a d (p ∷ ps) h = ap (λ t. slash ∷ a ∷ t) (ap tail h)

path_tail-split : (d : Str) → path_tail (split slash d) ≡ slash ∷ d
unfolding split
path_tail-split [] = refl
path_tail-split (a ∷ d) =
    ground (arith, path_tail-cons_head a d (split slash d) (path_tail-split d), path_tail-split d)

-- An absolute path that has another, with the separator, as a prefix lies below it.
pub Within-has_prefix :
    {root p : Str}
    → IsAbsolute root
    → IsAbsolute p
    → has_prefix p (root ++ slash ∷ []) ≡ true
    → Within root p
Within-has_prefix {root} {p} h k e =
    let d = drop_prefix p (root ++ slash ∷ []) in
    let eq : p ≡ root ++ slash ∷ d =
      has_prefix-append p (root ++ slash ∷ []) e ∙ append_assoc root (slash ∷ []) d in
    record {
      names = split slash d;
      plain =
          All-right (h.first ∷ h.rest) (split slash d)
            (subst (All IsPlain) (prefix_parts d h k eq) k.plain);
      reached = eq ∙ ap (λ t. root ++ t) (sym (path_tail-split d));
    }

-- What `Clean` makes of a rooted path: "/" or an absolute path.
pub clean-IsRooted : (s : Str) → (clean (slash ∷ s) ≡ slash ∷ []) ⊎ IsAbsolute (clean (slash ∷ s))
clean-IsRooted s =
    go (clean_from true [] (split slash (slash ∷ s)))
      (clean_from-IsPlain [] (split slash (slash ∷ s)) tt (split-All (slash ∷ s)))
      (clean-eq-names s)
  where
    go :
        (es : List Str)
        → All IsPlain es
        → clean (slash ∷ s) ≡ slash ∷ join slash es
        → (clean (slash ∷ s) ≡ slash ∷ []) ⊎ IsAbsolute (clean (slash ∷ s))
    go [] h e = inl (e ∙ ap (λ t. slash ∷ t) join-nil)
    go (n ∷ ns) h e = inr (record {
      first = n;
      rest = ns;
      plain = h;
      shape = e ∙ ap (λ t. slash ∷ t) (join-cons n ns);
    })

clean-eq-relative :
    (c : ℕ) (s : Str)
    → (c == slash) ≡ false
    → clean (c ∷ s) ≡ or_dot (join slash (clean_from false [] (split slash (c ∷ s))))
unfolding clean
clean-eq-relative c s h = ground arith

-- `Clean` of a relative path whose names are known.
clean_relative :
    (c : ℕ) (s : Str) (es : List Str)
    → (c == slash) ≡ false
    → clean_from false [] (split slash (c ∷ s)) ≡ es
    → join slash es ≡ c ∷ s
    → clean (c ∷ s) ≡ c ∷ s
clean_relative c s es h k e =
    clean-eq-relative c s h ∙ ap (λ q. or_dot (join slash q)) k ∙ ap or_dot e

-- A relative path of plain names is clean.
pub join_path_of_IsPlain :
    (e : Str) (es : List Str) → All IsPlain (e ∷ es) → join_path (e ∷ es) ≡ join slash (e ∷ es)
unfolding join_path
join_path_of_IsPlain [] es h = absurd (h.0.nonempty refl)
join_path_of_IsPlain (c ∷ e) es h = rw (join-cons (c ∷ e) es) (
    clean_relative c (descend e es) ((c ∷ e) ∷ es) (ground (arith, h.0.no_slash))
      (ap (clean_from false []) (
          split-descend (c ∷ e) es (All-IsPlain-NoSlash es h.1)
          ∙ ap (λ q. q ++ es) (split-NoSlash (c ∷ e) h.0.no_slash))
        ∙ clean_from_of_IsPlain false [] ((c ∷ e) ∷ es) h)
      (join-cons (c ∷ e) es))
