-- ===== src/Filepath/SplitFile.antt =====
-- What filepath.Split gives, in terms of the parts of the path.
use mathlib.Core.Path.{subst}
use mathlib.Core.List.{reverse-append, reverse-reverse, append_assoc}
use localsend_nas.Prelude.{
  ℕ, false, List, [], ◌∷◌, ◌++◌, Str, str_eq, str_eq_iff, trim_suffix, split, join, cons_head, ◌==◌,
  if◌then◌else◌, ◌≡◌, ◌≢◌, refl, sym, ap, ◌∙◌, arith, Bool-cases, ==_iff, inl, inr,
}
use localsend_nas.Filepath.{slash, split_file}

-- Each part with its separator behind it.
abbrev pub dir_of : List Str → Str
dir_of [] = []
dir_of (p ∷ ps) = p ++ slash ∷ dir_of ps

-- The directory holds the parts before the last one, and the base is the last.
pub record Splits (s : Str) : Type 0 where
  pub parts : List Str
  pub all_parts : split slash s ≡ parts ++ (split_file s).1 ∷ []
  pub dir : (split_file s).0 ≡ dir_of parts

split_file-slash : (s : Str) → split_file (slash ∷ s) ≡ (slash ∷ (split_file s).0, (split_file s).1)
unfolding split_file
split_file-slash s = ground (arith, str_eq_iff (split_file s).0 [])

split_file-name :
    (a : ℕ) (s : Str)
    → (a == slash) ≡ false
    → split_file (a ∷ s) ≡ (
        if str_eq (split_file s).0 []
        then ([], a ∷ (split_file s).1)
        else (a ∷ (split_file s).0, (split_file s).1))
unfolding split_file
split_file-name a s h = ground (arith, str_eq_iff (split_file s).0 [])

Splits-slash : {s : Str} → Splits s → Splits (slash ∷ s)
unfolding split
Splits-slash {s} h = record {
  parts = [] ∷ h.parts;
  all_parts = rw (split_file-slash s) (ap (λ ps. [] ∷ ps) h.all_parts);
  dir = rw (split_file-slash s) (ap (λ t. slash ∷ t) h.dir);
}

split-name :
    (a : ℕ) (s : Str) → (a == slash) ≡ false → split slash (a ∷ s) ≡ cons_head a (split slash s)
unfolding split
split-name a s h = rw h

Splits-alone :
    (a : ℕ) (s : Str)
    → (a == slash) ≡ false
    → split slash s ≡ (split_file s).1 ∷ []
    → (split_file s).0 ≡ []
    → Splits (a ∷ s)
Splits-alone a s h e k =
    let q : split_file (a ∷ s) ≡ ([], a ∷ (split_file s).1) =
      split_file-name a s h ∙ (ground (arith, str_eq_iff (split_file s).0 [])) in
    record { parts = []; all_parts = rw q (split-name a s h ∙ ap (cons_head a) e); dir = rw q }

Splits-more :
    (a : ℕ) (s p : Str) (ps : List Str)
    → (a == slash) ≡ false
    → split slash s ≡ p ∷ ps ++ (split_file s).1 ∷ []
    → (split_file s).0 ≡ p ++ slash ∷ dir_of ps
    → Splits (a ∷ s)
Splits-more a s p ps h e k =
    let ne : (split_file s).0 ≢ [] = λ z. append-ne-nil p (dir_of ps) (sym k ∙ z) in
    let q : split_file (a ∷ s) ≡ (a ∷ (split_file s).0, (split_file s).1) =
      split_file-name a s h ∙ (ground (arith, str_eq_iff (split_file s).0 [])) in
    record {
      parts = (a ∷ p) ∷ ps;
      all_parts = rw q (split-name a s h ∙ ap (cons_head a) e);
      dir = rw q (ap (λ t. a ∷ t) k);
    }
  where
    append-ne-nil : (p t : Str) → p ++ slash ∷ t ≢ []
    append-ne-nil [] t z = cc
    append-ne-nil (c ∷ p) t z = cc

Splits-name : (a : ℕ) (s : Str) → (a == slash) ≡ false → Splits s → Splits (a ∷ s)
Splits-name a s h k = go k.parts k.all_parts k.dir
  where
    go :
        (ps : List Str)
        → split slash s ≡ ps ++ (split_file s).1 ∷ []
        → (split_file s).0 ≡ dir_of ps
        → Splits (a ∷ s)
    go [] e d = Splits-alone a s h e d
    go (p ∷ ps) e d = Splits-more a s p ps h e d

pub split_file-Splits : (s : Str) → Splits s
unfolding split split_file
split_file-Splits [] = record { parts = []; all_parts = refl; dir = refl }
split_file-Splits (a ∷ s) = elim (Bool-cases (a == slash)) [
  | inr e ↦ Splits-name a s e (split_file-Splits s)
  | inl e ↦
      subst (λ b. Splits (b ∷ s)) (sym ((==_iff a slash).0 e)) (Splits-slash (split_file-Splits s))
]

-- The directory without its final separator.
pub trim_suffix-slash : (s : Str) → trim_suffix (s ++ slash ∷ []) (slash ∷ []) ≡ s
unfolding trim_suffix
trim_suffix-slash s = rw (reverse-append s (slash ∷ [])) (reverse-reverse s)

dir_of-join : (p : Str) (ps : List Str) → dir_of (p ∷ ps) ≡ join slash (p ∷ ps) ++ slash ∷ []
unfolding join
dir_of-join p [] = refl
dir_of-join p (q ∷ ps) =
    ap (λ t. p ++ slash ∷ t) (dir_of-join q ps)
    ∙ sym (append_assoc p (slash ∷ join slash (q ∷ ps)) (slash ∷ []))

pub trim_suffix-dir_of : (ps : List Str) → trim_suffix (dir_of ps) (slash ∷ []) ≡ join slash ps
unfolding join trim_suffix
trim_suffix-dir_of [] = refl
trim_suffix-dir_of (p ∷ ps) =
    ap (λ t. trim_suffix t (slash ∷ [])) (dir_of-join p ps)
    ∙ trim_suffix-slash (join slash (p ∷ ps))
