-- ===== src/Prelude/Scan.antt =====
-- Cutting text and reading numbers from it: strings.Cut, strings.TrimSpace and fmt.Sscanf;
-- and printing them.
use Prim.Native.Nat.{ℕ, zero, suc, ◌+◌, ◌-◌, ◌*◌, ◌^◌, ◌/◌, ◌%◌}
use mathlib.Core.Path.{◌≡◌}
use mathlib.Core.Logic.{inl, inr}
use mathlib.Core.Bool.{Bool, true, false, ◌&&◌, ◌||◌}
use mathlib.Core.Option.{Option, none, some}
use mathlib.Core.List.{[], ◌∷◌, ◌++◌, reverse}
use native.Mathlib.Omega.{arith}
use localsend_nas.Prelude.Tests.{ltb, leb, ◌==◌, if◌then◌else◌, Bool-cases, Option-cases}
use localsend_nas.Prelude.Int.{ℤ, pos, negsuc}
use localsend_nas.Prelude.Text.{Str, contains_byte}

abbrev pub put_front : ℕ → Option (Str × Str) → Option (Str × Str)
put_front a none = none
put_front a (some (before, after)) = some (a ∷ before, after)

-- strings.Cut by one byte.
unfoldable pub cut : ℕ → Str → Option (Str × Str)
cut sep [] = none
cut sep (a ∷ s) = let rest = cut sep s in if a == sep then some ([], s) else put_front a rest

pub cut-eq-some :
    (sep : ℕ) (s before after : Str)
    → cut sep s ≡ some (before, after)
    → (s ≡ before ++ sep ∷ after) × (contains_byte before sep ≡ false)
unfolding cut contains_byte
cut-eq-some sep [] before after h = cc
cut-eq-some sep (a ∷ s) before after h = elim (Bool-cases (a == sep)) [
  | inl e ↦
      let same : some ([], s) ≡ some (before, after) = rw (e, cut) at h in ground (arith, same)
  | inr e ↦ elim (Option-cases (cut sep s)) [
    | inl q ↦ cc (h, rw (q, e, cut) at h)
    | inr ((b, t), q) ↦
        let same : some (a ∷ b, t) ≡ some (before, after) = rw (q, e, cut) at h in
        ground (arith, same, e, cut-eq-some sep s b t q)
  ]
]

pub cut-append :
    (sep : ℕ) (before after : Str)
    → contains_byte before sep ≡ false
    → cut sep (before ++ sep ∷ after) ≡ some (before, after)
unfolding cut contains_byte
cut-append sep [] after h = ground arith
cut-append sep (a ∷ before) after h = ground (arith, cut-append sep before after)

-- A blank of strings.TrimSpace, within ASCII.
abbrev pub is_blank : ℕ → Bool
is_blank c = c == 0x20 || leb 9 c && leb c 13

unfoldable pub skip_blanks : Str → Str
skip_blanks [] = []
skip_blanks (c ∷ s) = let rest = skip_blanks s in if is_blank c then rest else c ∷ s

-- strings.TrimSpace
unfoldable pub trim_space : Str → Str
unfolding skip_blanks
trim_space s = reverse (skip_blanks (reverse (skip_blanks s)))

abbrev pub is_digit : ℕ → Bool
is_digit c = leb b'0' c && leb c b'9'

-- The number that the digits at the front spell behind `n`.
unfoldable pub scan_digits : ℕ → Str → ℕ
scan_digits n [] = n
scan_digits n (c ∷ s) =
    let rest = scan_digits (n * 10 + (c - b'0')) s in if is_digit c then rest else n

abbrev pub starts_with_digit : Str → Bool
starts_with_digit [] = false
starts_with_digit (c ∷ _) = is_digit c

-- The value with its sign, if it is an int64.
abbrev pub signed : Bool → ℕ → Option ℤ
signed false n = if ltb n (2 ^ 63) then some (pos n) else none
signed true zero = some (pos 0)
signed true (suc n) = if ltb n (2 ^ 63) then some (negsuc n) else none

abbrev pub scan_number : Bool → Str → Option ℤ
scan_number minus s = if starts_with_digit s then signed minus (scan_digits 0 s) else none

abbrev pub scan_signed : Str → Option ℤ
scan_signed [] = none
scan_signed (c ∷ s) =
    if c == 0x2d
    then scan_number true s
    else if c == 0x2b
    then scan_number false s
    else scan_number false (c ∷ s)

-- fmt.Sscanf(s, "%d", &n): blanks but no newline, a sign, and the digits at the front; what follows
-- is not looked at.
unfoldable pub sscanf_int : Str → Option ℤ
sscanf_int [] = none
sscanf_int (c ∷ s) =
    let rest = sscanf_int s in
    if c == 10 then none else if is_blank c then rest else scan_signed (c ∷ s)

-- The decimal digits of a number, with fuel above it.
unfoldable pub decimal_from : ℕ → ℕ → Str → Str
decimal_from zero n acc = acc
decimal_from (suc fuel) n acc =
    let digits = (b'0' + n % 10) ∷ acc in
    let rest = decimal_from fuel (n / 10) digits in if ltb n 10 then digits else rest

-- fmt.Sprintf("%d", n)
unfoldable pub decimal : ℕ → Str
unfolding decimal_from
decimal n = decimal_from (suc n) n []
