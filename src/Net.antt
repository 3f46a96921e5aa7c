-- ===== src/Net.antt =====
-- The functions of package net on addresses that internal/discovery, internal/lsserver and
-- internal/localsend call. The callers of net.SplitHostPort do not tell its errors apart.
pub mod Ports
use localsend_nas.Prelude.{
  suc, ◌++◌, ℤ, pos, negsuc, decimal, ℕ, Bool, true, false, not, ◌&&◌, ◌||◌, List, [], ◌∷◌, Option,
  none, some, Str, contains_byte, cut, ◌==◌, if◌then◌else◌,
}

abbrev pub colon : ℕ
colon = 0x3a

abbrev pub left_bracket : ℕ
left_bracket = 0x5b

abbrev pub right_bracket : ℕ
right_bracket = 0x5d

abbrev pub has_bracket : Str → Bool
has_bracket s = contains_byte s left_bracket || contains_byte s right_bracket

-- What follows the host: the last colon of the address, and the port.
abbrev pub port_behind : Str → Str → Option (Str × Str)
port_behind host [] = none
port_behind host (c ∷ port) =
    if c == colon && not (contains_byte port colon) && not (has_bracket port)
    then some (host, port)
    else none

-- An address behind "[": the host ends at the first "]".
abbrev pub bracketed : Str → Option (Str × Str)
bracketed s = elim (cut right_bracket s) [
  | none ↦ none
  | some (host, rest) ↦ if contains_byte host left_bracket then none else port_behind host rest
]

-- An address without brackets: its only colon is in front of the port.
abbrev pub plain : Str → Option (Str × Str)
plain s = elim (cut colon s) [
  | none ↦ none
  | some (host, port) ↦
      if contains_byte port colon || has_bracket host || has_bracket port
      then none
      else some (host, port)
]

unfoldable pub split_host_port : Str → Option (Str × Str)
unfolding cut
split_host_port [] = none
split_host_port (c ∷ s) = if c == left_bracket then bracketed s else plain (c ∷ s)

-- fmt.Sprint of an int.
abbrev pub decimal_int : ℤ → Str
decimal_int (pos n) = decimal n
decimal_int (negsuc n) = 0x2d ∷ decimal (suc n)

-- net.JoinHostPort
abbrev pub join_host_port : Str → Str → Str
join_host_port host port =
    if contains_byte host colon
    then left_bracket ∷ (host ++ (right_bracket ∷ colon ∷ port))
    else host ++ (colon ∷ port)
