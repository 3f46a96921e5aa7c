-- ===== src/Discovery/Address.antt =====
-- `parseAddress` of internal/discovery/discovery.go on the addresses that `saveTargets` writes.
use mathlib.Core.List.{reverse, reverse-append, reverse-cons, reverse-reverse, append_assoc}
use localsend_nas.Prelude.{
  ℕ, ◌+◌, ◌≤◌, ◌%◌, Bool, true, false, [], ◌∷◌, ◌++◌, some, Str, pos, contains_byte, is_blank,
  skip_blanks, trim_space, cut-append, decimal, str_eq, ok, ◌≡◌, refl, sym, ap, ◌∙◌, arith,
  Bool-cases, inl, inr,
}
use localsend_nas.Net.{
  colon, left_bracket, right_bracket, bracketed, plain, split_host_port, join_host_port,
  decimal_int,
}
use localsend_nas.Net.Ports.{
  is_number, decimal-is_number, contains_byte-number, sscanf_int-decimal, decimal-last,
}
use localsend_nas.Discovery.{parse_address}

abbrev starts_blank : Str → Bool
starts_blank [] = false
starts_blank (c ∷ _) = is_blank c

-- A host that an address can carry: no brackets, and no blank in front.
pub record IsHost (host : Str) : Type 0 where
  pub no_left : contains_byte host left_bracket ≡ false
  pub no_right : contains_byte host right_bracket ≡ false
  pub no_blank : starts_blank host ≡ false

split-plain :
    (host port : Str)
    → IsHost host
    → contains_byte host colon ≡ false
    → is_number port ≡ true
    → plain (host ++ colon ∷ port) ≡ some (host, port)
split-plain host port h q k =
    rw (cut-append colon host port q, plain)
      (ground (
        arith,
        h.no_left,
        h.no_right,
        contains_byte-number port colon k refl,
        contains_byte-number port left_bracket k refl,
        contains_byte-number port right_bracket k refl,
      ))

split-bracketed :
    (host port : Str)
    → IsHost host
    → is_number port ≡ true
    → bracketed (host ++ right_bracket ∷ colon ∷ port) ≡ some (host, port)
split-bracketed host port h k =
    rw (cut-append right_bracket host (colon ∷ port) h.no_right, bracketed)
      (ground (
        arith,
        h.no_left,
        contains_byte-number port colon k refl,
        contains_byte-number port left_bracket k refl,
        contains_byte-number port right_bracket k refl,
      ))

-- Without "[" in front an address is plain.
split-no_bracket :
    (host rest : Str)
    → contains_byte host left_bracket ≡ false
    → split_host_port (host ++ colon ∷ rest) ≡ plain (host ++ colon ∷ rest)
unfolding split_host_port contains_byte
split-no_bracket [] rest h = refl
split-no_bracket (c ∷ host) rest h = ground (arith, h)

split-join :
    (host port : Str)
    → IsHost host
    → is_number port ≡ true
    → split_host_port (join_host_port host port) ≡ some (host, port)
unfolding split_host_port
split-join host port h k = elim (Bool-cases (contains_byte host colon)) [
  | inl q ↦ rw q (split-bracketed host port h k)
  | inr q ↦ rw q (split-no_bracket host port h.no_left ∙ split-plain host port h q k)
]

skip_blanks-keep : (s : Str) → starts_blank s ≡ false → skip_blanks s ≡ s
unfolding skip_blanks
skip_blanks-keep [] h = refl
skip_blanks-keep (c ∷ s) h = rw h refl

-- A text with no blank at its ends is left as it is.
trim_space-edges :
    (text s : Str) (c : ℕ)
    → text ≡ s ++ c ∷ []
    → starts_blank text ≡ false
    → is_blank c ≡ false
    → trim_space text ≡ text
unfolding trim_space
trim_space-edges text s c e h k =
    ap (λ t. reverse (skip_blanks (reverse t))) (skip_blanks-keep text h ∙ e)
    ∙ ap (λ t. reverse (skip_blanks t)) (reverse-append s (c ∷ []))
    ∙ ap reverse (skip_blanks-keep (c ∷ reverse s) k)
    ∙ (reverse-cons c (reverse s) ∙ ap (λ t. t ++ c ∷ []) (reverse-reverse s))
    ∙ sym e

starts_blank-host :
    (host rest : Str) → starts_blank host ≡ false → starts_blank (host ++ colon ∷ rest) ≡ false
starts_blank-host [] rest h = refl
starts_blank-host (c ∷ host) rest h = h

trim_space-join :
    (host : Str) (n : ℕ)
    → IsHost host
    → trim_space (join_host_port host (decimal n)) ≡ join_host_port host (decimal n)
trim_space-join host n h =
    let (s, e) = decimal-last n in
    let last : ℕ = b'0' + n % 10 in
    let behind = λ (front : Str).
      ap (λ t. host ++ t) (ap (λ t. front ++ t) e ∙ sym (append_assoc front s (last ∷ [])))
      ∙ sym (append_assoc host (front ++ s) (last ∷ [])) in
    elim (Bool-cases (contains_byte host colon)) [
      | inl q ↦ rw q (
          trim_space-edges _ (left_bracket ∷ (host ++ right_bracket ∷ colon ∷ s)) last
            (ap (λ t. left_bracket ∷ t) (behind (right_bracket ∷ colon ∷ []))) refl (ground arith))
      | inr q ↦ rw q (
          trim_space-edges _ (host ++ colon ∷ s) last (behind (colon ∷ []))
            (starts_blank-host host (decimal n) h.no_blank) (ground arith))
    ]

join-ne-nil : (host port : Str) → str_eq (join_host_port host port) [] ≡ false
unfolding str_eq
join-ne-nil [] port = ground arith
join-ne-nil (c ∷ host) port = ground arith

-- An address that is printed from a host without brackets and leading blanks, IPv6 or not, and a
-- port within 1 to 65535 is parsed to the same host and port.
pub parse_address-join_host_port :
    (host : Str) (port : ℕ)
    → IsHost host
    → 1 ≤ port
    → port ≤ 65535
    → parse_address (join_host_port host (decimal_int (pos port))) ≡ ok (host, port)
unfolding parse_address
parse_address-join_host_port host port h low high =
    rw
      (
        trim_space-join host port h,
        split-join host (decimal port) h (decimal-is_number port),
        join-ne-nil host (decimal port),
        sscanf_int-decimal port (omega arith),
      )
      (ground (arith, low, high))
