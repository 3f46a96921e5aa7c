-- ===== src/Filepath/Descend.antt =====
-- Paths that go down from a directory through plain names, and what splitting and cleaning do to
-- them.
use mathlib.Core.List.{append_assoc, append-nil}
use localsend_nas.Prelude.{
  ℕ, List, [], ◌∷◌, ◌++◌, Str, codes, split, join, ◌==◌, ◌≡◌, ◌≢◌, refl, sym, ap, ◌∙◌, arith, All,
  All-append, inl, inr, Bool-cases, cons_head,
}

abbrev pub sep : ℕ
sep = b'/'

abbrev pub NoSlash : Str → Type 0
NoSlash s = All (λ c. c ≢ sep) s

-- A name that stands for an entry of its directory: not empty, not ".", not "..", no separator.
pub record IsPlain (e : Str) : Type 0 where
  pub nonempty : e ≢ []
  pub not_dot : e ≢ codes "."
  pub not_dotdot : e ≢ codes ".."
  pub no_slash : NoSlash e

-- The path below `root` along `es`: root/e1/e2/…
abbrev pub path_tail : List Str → Str
path_tail [] = []
path_tail (e ∷ es) = sep ∷ e ++ path_tail es

abbrev pub descend : Str → List Str → Str
descend root es = root ++ path_tail es

-- `p` is `root`, or lies below it along plain names.
pub record Within (root p : Str) : Type 0 where
  pub names : List Str
  pub plain : All IsPlain names
  pub reached : p ≡ descend root names

cons_head-append :
    (a : ℕ) (ps qs : List Str) → ps ≢ [] → cons_head a ps ++ qs ≡ cons_head a (ps ++ qs)
cons_head-append a [] qs h = absurd (h refl)
cons_head-append a (p ∷ ps) qs h = refl

cons_head-ne-nil : (a : ℕ) (ps : List Str) → cons_head a ps ≢ []
cons_head-ne-nil a [] h = cc
cons_head-ne-nil a (p ∷ ps) h = cc

pub split-ne-nil : (s : Str) → split sep s ≢ []
unfolding split
split-ne-nil [] h = cc
split-ne-nil (a ∷ s) h = ground (arith, cons_head-ne-nil a (split sep s))

-- A separator between two strings splits them apart.
pub split-append : (s t : Str) → split sep (s ++ sep ∷ t) ≡ split sep s ++ split sep t
unfolding split
split-append [] t = ground arith
split-append (a ∷ s) t =
    ground
      (arith, split-append s t, cons_head-append a (split sep s) (split sep t) (split-ne-nil s))

-- A string with no separator is one part.
pub split-NoSlash : (s : Str) → NoSlash s → split sep s ≡ s ∷ []
unfolding split
split-NoSlash [] h = refl
split-NoSlash (a ∷ s) (h, hs) = ground (arith, split-NoSlash s hs)

-- No part of a split string holds a separator.
NoSlash-cons_head :
    (a : ℕ) (ps : List Str) → a ≢ sep → All NoSlash ps → All NoSlash (cons_head a ps)
NoSlash-cons_head a [] h hs = ((h, tt), tt)
NoSlash-cons_head a (p ∷ ps) h (hp, hs) = ((h, hp), hs)

pub split-All : (s : Str) → All NoSlash (split sep s)
unfolding split
split-All [] = (tt, tt)
split-All (a ∷ s) = elim (Bool-cases (a == sep)) [
  | inl e ↦ rw e (tt, split-All s)
  | inr e ↦ rw e (NoSlash-cons_head a (split sep s) (ground arith) (split-All s))
]

-- Splitting a path that goes down gives the parts of its start and the names.
pub split-descend :
    (root : Str) (es : List Str)
    → All NoSlash es
    → split sep (descend root es) ≡ split sep root ++ es
split-descend root [] h = simp append-nil
split-descend root (e ∷ es) (h, hs) =
    rw split-append (rw (split-descend e es hs, split-NoSlash e h))

pub join-nil : join sep [] ≡ []
unfolding join
join-nil = refl

-- Joining names is going down from the first.
pub join-cons : (e : Str) (es : List Str) → join sep (e ∷ es) ≡ descend e es
unfolding join
join-cons e [] = sym (append-nil e)
join-cons e (f ∷ es) = rw (join-cons f es)

pub All-IsPlain-NoSlash : (es : List Str) → All IsPlain es → All NoSlash es
All-IsPlain-NoSlash [] h = tt
All-IsPlain-NoSlash (e ∷ es) (h, hs) = (h.no_slash, All-IsPlain-NoSlash es hs)

path_tail-append : (es fs : List Str) → path_tail (es ++ fs) ≡ path_tail es ++ path_tail fs
path_tail-append [] fs = refl
path_tail-append (e ∷ es) fs = simp (path_tail-append es fs, append_assoc)

-- Going down twice.
pub descend-append :
    (root : Str) (es fs : List Str) → descend root (es ++ fs) ≡ descend (descend root es) fs
descend-append root es fs = simp (path_tail-append es fs, append_assoc)

-- What lies within a directory within the root lies within the root.
pub Within-trans : {a b c : Str} → Within a b → Within b c → Within a c
Within-trans {a} {b} {c} h k = record {
  names = h.names ++ k.names;
  plain = All-append IsPlain h.names k.names h.plain k.plain;
  reached =
      k.reached ∙ ap (λ x. descend x k.names) h.reached ∙ sym (descend-append a h.names k.names);
}
