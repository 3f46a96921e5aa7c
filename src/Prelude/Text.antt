-- ===== src/Prelude/Text.antt =====
-- Go strings as lists of bytes, with the functions of package `strings` that the program uses.
use Prim.Native.Nat.{ℕ, ◌+◌, ◌-◌, ◌/◌, ◌%◌}
use Prim.Native.Char.{code}
use Prim.Native.String.{String}
use mathlib.Core.Path.{◌≡◌, refl}
use mathlib.Core.Logic.{◌↔◌}
use mathlib.Core.Bool.{Bool, true, false, ◌&&◌, ◌||◌}
use mathlib.Core.List.{List, [], ◌∷◌, ◌++◌, map, reverse}
use native.Mathlib.Omega.{arith}
use localsend_nas.Prelude.Tests.{leb, ltb, ◌==◌, if◌then◌else◌}

abbrev pub Str : Type 0
Str = List ℕ

-- The bytes of an ASCII literal.
abbrev pub codes : String → Str
codes String.[] = []
codes (String.◌∷◌ c s) = code c ∷ codes s

unfoldable pub str_eq : Str → Str → Bool
str_eq [] [] = true
str_eq (a ∷ s) (b ∷ t) = a == b && str_eq s t
str_eq _ _ = false

pub str_eq_refl : (s : Str) → str_eq s s ≡ true
unfolding str_eq
str_eq_refl [] = refl
str_eq_refl (a ∷ s) = ground (arith, str_eq_refl s)

str_eq→eq : (s t : Str) → str_eq s t ≡ true → s ≡ t
unfolding str_eq
str_eq→eq [] [] h = refl
str_eq→eq [] (b ∷ t) h = ground arith
str_eq→eq (a ∷ s) [] h = ground arith
str_eq→eq (a ∷ s) (b ∷ t) h = ground (arith, str_eq→eq s t)

pub str_eq_iff : (s t : Str) → (str_eq s t ≡ true) ↔ (s ≡ t)
str_eq_iff s t = (str_eq→eq s t, λ e. rw e (str_eq_refl t))

-- strings.HasPrefix
unfoldable pub has_prefix : Str → Str → Bool
has_prefix s [] = true
has_prefix [] (b ∷ p) = false
has_prefix (a ∷ s) (b ∷ p) = a == b && has_prefix s p

-- The rest of a string behind a prefix that it has.
unfoldable pub drop_prefix : Str → Str → Str
drop_prefix s [] = s
drop_prefix [] (b ∷ p) = []
drop_prefix (a ∷ s) (b ∷ p) = drop_prefix s p

-- strings.TrimPrefix
unfoldable pub trim_prefix : Str → Str → Str
unfolding has_prefix drop_prefix
trim_prefix s p = if has_prefix s p then drop_prefix s p else s

pub has_prefix-append : (s p : Str) → has_prefix s p ≡ true → s ≡ p ++ drop_prefix s p
unfolding has_prefix drop_prefix
has_prefix-append s [] h = refl
has_prefix-append [] (b ∷ p) h = ground arith
has_prefix-append (a ∷ s) (b ∷ p) h = ground (arith, has_prefix-append s p)

-- strings.HasSuffix
unfoldable pub has_suffix : Str → Str → Bool
unfolding has_prefix
has_suffix s p = has_prefix (reverse s) (reverse p)

-- strings.TrimSuffix
unfoldable pub trim_suffix : Str → Str → Str
unfolding has_suffix drop_prefix
trim_suffix s p = if has_suffix s p then reverse (drop_prefix (reverse s) (reverse p)) else s

-- Does byte `c` stand in `s`?
unfoldable pub contains_byte : Str → ℕ → Bool
contains_byte [] c = false
contains_byte (a ∷ s) c = a == c || contains_byte s c

-- strings.ReplaceAll of one byte by one byte.
unfoldable pub replace_byte : ℕ → ℕ → Str → Str
replace_byte old new [] = []
replace_byte old new (a ∷ s) = (if a == old then new else a) ∷ replace_byte old new s

-- A byte put in front of the first part.
abbrev pub cons_head : ℕ → List Str → List Str
cons_head a [] = (a ∷ []) ∷ []
cons_head a (p ∷ ps) = (a ∷ p) ∷ ps

-- strings.Split by a one-byte separator: k separators give k + 1 parts.
unfoldable pub split : ℕ → Str → List Str
split sep [] = [] ∷ []
split sep (a ∷ s) = if a == sep then [] ∷ split sep s else cons_head a (split sep s)

-- strings.Join with a one-byte separator.
unfoldable pub join : ℕ → List Str → Str
join sep [] = []
join sep (p ∷ []) = p
join sep (p ∷ q ∷ ps) = p ++ sep ∷ join sep (q ∷ ps)

-- unicode-free strings.ToUpper of one byte: exact on ASCII.
unfoldable pub to_lower_byte : ℕ → ℕ
to_lower_byte c = if leb b'A' c && leb c b'Z' then c + 32 else c

-- strings.ToLower on ASCII text.
unfoldable pub to_lower : Str → Str
unfolding to_lower_byte
to_lower = map to_lower_byte

-- strings.ToUpper of one byte, exact on ASCII.
unfoldable pub to_upper_byte : ℕ → ℕ
to_upper_byte c = if leb b'a' c && leb c b'z' then c - 32 else c

-- strings.ToUpper on ASCII text.
unfoldable pub to_upper : Str → Str
unfolding to_upper_byte
to_upper = map to_upper_byte

-- The lower-case digit of hex.EncodeToString.
abbrev pub hex_digit : ℕ → ℕ
hex_digit d = if ltb d 10 then b'0' + d else b'a' + (d - 10)

-- hex.EncodeToString
unfoldable pub hex : Str → Str
hex [] = []
hex (c ∷ s) = hex_digit (c / 16) ∷ hex_digit (c % 16) ∷ hex s

-- strings.EqualFold on ASCII text.
unfoldable pub equal_fold : Str → Str → Bool
unfolding to_lower str_eq
equal_fold s t = str_eq (to_lower s) (to_lower t)

-- `<` on strings: bytewise lexicographic.
unfoldable pub str_lt : Str → Str → Bool
str_lt [] [] = false
str_lt [] (b ∷ t) = true
str_lt (a ∷ s) [] = false
str_lt (a ∷ s) (b ∷ t) = ltb a b || (a == b && str_lt s t)

pub has_prefix_of_append : (p t : Str) → has_prefix (p ++ t) p ≡ true
unfolding has_prefix
has_prefix_of_append [] t = refl
has_prefix_of_append (a ∷ p) t = ground (arith, has_prefix_of_append p t)
