-- ===== src/Filepath/Laws.antt =====
-- What `Clean`, `Join` and `Split` give, in terms of plain names.
use mathlib.Core.List.{reverse, reverse-cons, append_assoc, append-nil}
use localsend_nas.Prelude.{
  Bool, true, List, [], ◌∷◌, ◌++◌, Str, str_eq, str_eq_iff, split, join, ◌≡◌, refl, sym, ap, ◌∙◌,
  arith, All, All-append,
}
use localsend_nas.Filepath.{slash, dot, dotdot, go_up, clean_step, clean_from, clean, join_path}
use localsend_nas.Filepath.Descend.{
  NoSlash, IsPlain, Within, descend, split-append, split-descend, join-cons, descend-append,
  All-IsPlain-NoSlash,
}

-- From the root, one element keeps the output plain.
clean_step-IsPlain :
    (stack : List Str) (e : Str)
    → All IsPlain stack
    → NoSlash e
    → All IsPlain (clean_step true stack e)
unfolding clean_step go_up
clean_step-IsPlain [] e h k = ground (arith, str_eq_iff e [], str_eq_iff e dot, str_eq_iff e dotdot)
clean_step-IsPlain (t ∷ stack) e h k =
    ground (arith, str_eq_iff e [], str_eq_iff e dot, str_eq_iff e dotdot, str_eq_iff t dotdot)

All-reverse : (es : List Str) → All IsPlain es → All IsPlain (reverse es)
All-reverse [] h = tt
All-reverse (e ∷ es) (h, hs) =
    rw reverse-cons (All-append IsPlain (reverse es) (e ∷ []) (All-reverse es hs) (h, tt))

pub clean_from-IsPlain :
    (stack es : List Str)
    → All IsPlain stack
    → All NoSlash es
    → All IsPlain (clean_from true stack es)
unfolding clean_from
clean_from-IsPlain stack [] h k = All-reverse stack h
clean_from-IsPlain stack (e ∷ es) h (k, ks) =
    clean_from-IsPlain (clean_step true stack e) es (clean_step-IsPlain stack e h k) ks

-- Plain elements pass unchanged.
pub clean_step_of_IsPlain :
    (rooted : Bool) (stack : List Str) (e : Str) → IsPlain e → clean_step rooted stack e ≡ e ∷ stack
unfolding clean_step
clean_step_of_IsPlain rooted stack e h =
    ground (arith, str_eq_iff e [], str_eq_iff e dot, str_eq_iff e dotdot)

pub clean_from_of_IsPlain :
    (rooted : Bool) (stack es : List Str)
    → All IsPlain es
    → clean_from rooted stack es ≡ reverse stack ++ es
unfolding clean_from
clean_from_of_IsPlain rooted stack [] h = sym (append-nil _)
clean_from_of_IsPlain rooted stack (e ∷ es) (h, hs) =
    rw (clean_step_of_IsPlain rooted stack e h, clean_from_of_IsPlain rooted (e ∷ stack) es hs)
      (simp (reverse-cons, append_assoc))

-- An absolute path other than "/", in the form that `Clean` gives.
pub record IsAbsolute (root : Str) : Type 0 where
  pub first : Str
  pub rest : List Str
  pub plain : All IsPlain (first ∷ rest)
  pub shape : root ≡ descend [] (first ∷ rest)

-- Cleaning a path anchored at "/" leaves names, and these are plain (`clean_from-IsPlain`).
pub clean-eq-names :
    (rel : Str)
    → clean (slash ∷ rel) ≡ slash ∷ join slash (clean_from true [] (split slash (slash ∷ rel)))
unfolding clean
clean-eq-names rel = refl

pub clean_from-nil : (qs : List Str) → clean_from true [] ([] ∷ qs) ≡ clean_from true [] qs
unfolding clean_from clean_step str_eq
clean_from-nil qs = refl

clean_from-last : (stack : List Str) → clean_from true stack ([] ∷ []) ≡ reverse stack
unfolding clean_from clean_step str_eq
clean_from-last stack = refl

-- A final separator adds nothing.
clean_from-trailing :
    (stack es : List Str)
    → All IsPlain es
    → clean_from true stack (es ++ [] ∷ []) ≡ reverse stack ++ es
unfolding clean_from
clean_from-trailing stack [] h = clean_from-last stack ∙ sym (append-nil _)
clean_from-trailing stack (e ∷ es) (h, hs) =
    ap (λ q. clean_from true q (es ++ [] ∷ [])) (clean_step_of_IsPlain true stack e h)
    ∙ clean_from-trailing (e ∷ stack) es hs
    ∙ (simp (reverse-cons, append_assoc))

pub split-rooted :
    (e : Str) (es : List Str)
    → All IsPlain (e ∷ es)
    → split slash (descend [] (e ∷ es)) ≡ [] ∷ e ∷ es
unfolding split
split-rooted e es h = split-descend [] (e ∷ es) (All-IsPlain-NoSlash (e ∷ es) h)

-- `Clean` of a rooted path whose parts are known.
clean_of_split :
    (s : Str) (qs es : List Str)
    → split slash (slash ∷ s) ≡ [] ∷ qs
    → clean_from true [] qs ≡ es
    → clean (slash ∷ s) ≡ slash ∷ join slash es
unfolding clean
clean_of_split s qs es h k =
    ap (λ q. slash ∷ join slash (clean_from true [] q)) h
    ∙ ap (λ q. slash ∷ join slash q) (clean_from-nil qs ∙ k)

clean-descend_nil :
    (e : Str) (es : List Str)
    → All IsPlain (e ∷ es)
    → clean (descend [] (e ∷ es)) ≡ descend [] (e ∷ es)
clean-descend_nil e es h =
    clean_of_split (descend e es) (e ∷ es) (e ∷ es) (split-rooted e es h)
      (clean_from_of_IsPlain true [] (e ∷ es) h)
    ∙ ap (λ q. slash ∷ q) (join-cons e es)

split-rooted_trailing :
    (e : Str) (es : List Str)
    → All IsPlain (e ∷ es)
    → split slash (descend [] (e ∷ es) ++ slash ∷ []) ≡ [] ∷ ((e ∷ es) ++ [] ∷ [])
unfolding split
split-rooted_trailing e es h =
    split-append (descend [] (e ∷ es)) [] ∙ ap (λ q. q ++ [] ∷ []) (split-rooted e es h)

clean-descend_trailing :
    (e : Str) (es : List Str)
    → All IsPlain (e ∷ es)
    → clean (descend [] (e ∷ es) ++ slash ∷ []) ≡ descend [] (e ∷ es)
clean-descend_trailing e es h =
    clean_of_split (descend e es ++ slash ∷ []) ((e ∷ es) ++ [] ∷ []) (e ∷ es)
      (split-rooted_trailing e es h) (clean_from-trailing [] (e ∷ es) h)
    ∙ ap (λ q. slash ∷ q) (join-cons e es)

-- A path in the form of `IsAbsolute` is clean.
pub clean-IsAbsolute : {root : Str} → IsAbsolute root → clean root ≡ root
clean-IsAbsolute {root} h =
    ap clean h.shape ∙ clean-descend_nil h.first h.rest h.plain ∙ sym h.shape

join_path-names :
    (f : Str) (fs es : List Str)
    → All IsPlain (f ∷ fs)
    → All IsPlain es
    → join_path (descend [] (f ∷ fs) ∷ join slash es ∷ []) ≡ descend (descend [] (f ∷ fs)) es
unfolding join_path join
join_path-names f fs [] h k = clean-descend_trailing f fs h ∙ sym (append-nil _)
join_path-names f fs (e ∷ es) h k =
    ap (λ t. clean (descend [] (f ∷ fs) ++ slash ∷ t)) (join-cons e es)
    ∙ ap clean (sym (descend-append [] (f ∷ fs) (e ∷ es)))
    ∙ clean-descend_nil f (fs ++ e ∷ es) (All-append IsPlain (f ∷ fs) (e ∷ es) h k)
    ∙ descend-append [] (f ∷ fs) (e ∷ es)

-- Joining names below a directory goes down from it.
pub join_path-descend :
    {root : Str} (es : List Str)
    → IsAbsolute root
    → All IsPlain es
    → join_path (root ∷ join slash es ∷ []) ≡ descend root es
join_path-descend {root} es h k =
    ap (λ r. join_path (r ∷ join slash es ∷ [])) h.shape
    ∙ join_path-names h.first h.rest es h.plain k
    ∙ sym (ap (λ r. descend r es) h.shape)

-- Joining one name below a directory.
pub join_path-name :
    {root : Str} (e : Str)
    → IsAbsolute root
    → IsPlain e
    → join_path (root ∷ e ∷ []) ≡ descend root (e ∷ [])
unfolding join
join_path-name e h k = join_path-descend (e ∷ []) h (k, tt)

-- What lies within an absolute directory is absolute.
pub Within-IsAbsolute : {root p : Str} → IsAbsolute root → Within root p → IsAbsolute p
Within-IsAbsolute {root} {p} h w = record {
  first = h.first;
  rest = h.rest ++ w.names;
  plain = All-append IsPlain (h.first ∷ h.rest) w.names h.plain w.plain;
  shape =
      w.reached
      ∙ ap (λ r. descend r w.names) h.shape
      ∙ sym (descend-append [] (h.first ∷ h.rest) w.names);
}
