-- ===== src/Receive/Paths/Numbered.antt =====
-- The numbered names of `claimFinalPath` in internal/receive/receive.go stay plain.
use mathlib.Core.List.{reverse, reverse-cons}
use localsend_nas.Prelude.{
  decimal_from, decimal, ℕ, zero, suc, ◌+◌, ◌/◌, ◌%◌, ◌≤◌, Bool, true, false, [], ◌∷◌, ◌++◌, Str,
  codes, drop_prefix, has_suffix, trim_suffix, All-append, length, length-append, ltb,
  if◌then◌else◌, ◌≢◌, ap, arith,
}
use localsend_nas.Filepath.{slash, ext}
use localsend_nas.Filepath.Descend.{NoSlash, IsPlain}
use localsend_nas.Receive.Paths.{numbered}

NoSlash-reverse : (s : Str) → NoSlash s → NoSlash (reverse s)
NoSlash-reverse [] h = tt
NoSlash-reverse (c ∷ s) (h, hs) =
    rw reverse-cons
      (All-append (λ c. c ≢ slash) (reverse s) (c ∷ []) (NoSlash-reverse s hs) (h, tt))

NoSlash-drop_prefix : (s p : Str) → NoSlash s → NoSlash (drop_prefix s p)
unfolding drop_prefix
NoSlash-drop_prefix s [] h = h
NoSlash-drop_prefix [] (b ∷ p) h = tt
NoSlash-drop_prefix (a ∷ s) (b ∷ p) (h, hs) = NoSlash-drop_prefix s p hs

NoSlash-if : (b : Bool) (s t : Str) → NoSlash s → NoSlash t → NoSlash (if b then s else t)
NoSlash-if true s t h k = h
NoSlash-if false s t h k = k

NoSlash-trim_suffix : (s p : Str) → NoSlash s → NoSlash (trim_suffix s p)
unfolding trim_suffix
NoSlash-trim_suffix s p h =
    NoSlash-if (has_suffix s p) (reverse (drop_prefix (reverse s) (reverse p))) s
      (NoSlash-reverse (drop_prefix (reverse s) (reverse p))
        (NoSlash-drop_prefix (reverse s) (reverse p) (NoSlash-reverse s h)))
      h

NoSlash-ext : (s : Str) → NoSlash s → NoSlash (ext s)
unfolding ext
NoSlash-ext [] h = tt
NoSlash-ext (a ∷ s) (h, hs) = ground (arith, NoSlash-ext s hs)

NoSlash-decimal_from : (fuel n : ℕ) (acc : Str) → NoSlash acc → NoSlash (decimal_from fuel n acc)
unfolding decimal_from
NoSlash-decimal_from zero n acc h = h
NoSlash-decimal_from (suc fuel) n acc h =
    let digits : NoSlash ((b'0' + n % 10) ∷ acc) = ((λ e. omega arith), h) in
    NoSlash-if (ltb n 10) ((b'0' + n % 10) ∷ acc)
      (decimal_from fuel (n / 10) ((b'0' + n % 10) ∷ acc)) digits
      (NoSlash-decimal_from fuel (n / 10) ((b'0' + n % 10) ∷ acc) digits)

NoSlash-decimal : (n : ℕ) → NoSlash (decimal n)
unfolding decimal
NoSlash-decimal n = NoSlash-decimal_from (suc n) n [] tt

-- Any name of three bytes or more with no separator is plain.
pub long-IsPlain : (s : Str) → 3 ≤ length s → NoSlash s → IsPlain s
long-IsPlain s h k = record {
  nonempty = λ e. omega (arith, ap length e);
  not_dot = λ e. omega (arith, ap length e);
  not_dotdot = λ e. omega (arith, ap length e);
  no_slash = k;
}

-- A numbered name is plain if the name is.
pub numbered-IsPlain : (base : Str) (i : ℕ) → IsPlain base → IsPlain (numbered base i)
unfolding numbered
numbered-IsPlain base zero h = h
numbered-IsPlain base (suc i) h =
    long-IsPlain (stem ++ (codes " (" ++ tail))
      (omega (
        arith,
        length-append {0} stem (codes " (" ++ tail),
        length-append {0} (decimal (suc i)) (codes ")" ++ ext base),
      ))
      (All-append (λ c. c ≢ slash) stem (codes " (" ++ tail) stem-NoSlash
        ((λ e. omega arith), ((λ e. omega arith), tail-NoSlash)))
  where
    stem : Str
    stem = trim_suffix base (ext base)

    tail : Str
    tail = decimal (suc i) ++ (codes ")" ++ ext base)

    stem-NoSlash : NoSlash stem
    stem-NoSlash = NoSlash-trim_suffix base (ext base) h.no_slash

    tail-NoSlash : NoSlash tail
    tail-NoSlash =
        All-append (λ c. c ≢ slash) (decimal (suc i)) (codes ")" ++ ext base)
          (NoSlash-decimal (suc i)) ((λ e. omega arith), NoSlash-ext base h.no_slash)
