-- ===== src/Net/Ports.antt =====
-- Ports in decimal: what a printed port is read back as.
use mathlib.Core.List.{append_assoc}
use localsend_nas.Prelude.{
  decimal_from, decimal, ℕ, zero, suc, ◌+◌, ◌/◌, ◌%◌, ◌<◌, ◌^◌, Bool, true, false, ◌&&◌, [], ◌∷◌,
  ◌++◌, some, Str, pos, contains_byte, is_digit, scan_digits, sscanf_int, ltb, all, ◌≡◌, refl, sym,
  ap, ◌∙◌, arith, Bool-cases, inl, inr,
}

scan_digits-decimal_from :
    (fuel n : ℕ) (acc : Str)
    → n < fuel
    → scan_digits 0 (decimal_from fuel n acc) ≡ scan_digits n acc
unfolding scan_digits decimal_from
scan_digits-decimal_from zero n acc h = absurd (omega arith)
scan_digits-decimal_from (suc fuel) n acc h =
    let rest = scan_digits-decimal_from fuel (n / 10) ((b'0' + n % 10) ∷ acc) in
    ground (arith, rest)

-- A text of one or more digits.
abbrev pub is_number : Str → Bool
is_number [] = false
is_number (c ∷ s) = is_digit c && all is_digit s

is_number-decimal_from :
    (fuel n : ℕ) (acc : Str)
    → n < fuel
    → all is_digit acc ≡ true
    → is_number (decimal_from fuel n acc) ≡ true
unfolding decimal_from
is_number-decimal_from zero n acc h k = absurd (omega arith)
is_number-decimal_from (suc fuel) n acc h k =
    let rest = is_number-decimal_from fuel (n / 10) ((b'0' + n % 10) ∷ acc) in ground (arith, rest)

pub decimal-is_number : (n : ℕ) → is_number (decimal n) ≡ true
unfolding decimal
decimal-is_number n = is_number-decimal_from (suc n) n [] (omega arith) refl

contains_byte-digits :
    (s : Str) (c : ℕ) → all is_digit s ≡ true → is_digit c ≡ false → contains_byte s c ≡ false
unfolding contains_byte
contains_byte-digits [] c h k = refl
contains_byte-digits (a ∷ s) c h k = ground (arith, contains_byte-digits s c)

pub contains_byte-number :
    (s : Str) (c : ℕ) → is_number s ≡ true → is_digit c ≡ false → contains_byte s c ≡ false
contains_byte-number [] c h k = cc
contains_byte-number (a ∷ s) c h k = contains_byte-digits (a ∷ s) c h k

-- The last digit of a printed number.
ends_in : (fuel n : ℕ) (acc : Str) → (s : Str) × (decimal_from fuel n acc ≡ s ++ acc)
unfolding decimal_from
ends_in zero n acc = ([], refl)
ends_in (suc fuel) n acc =
    let (s, e) = ends_in fuel (n / 10) ((b'0' + n % 10) ∷ acc) in
    elim (Bool-cases (ltb n 10)) [
      | inl q ↦ ((b'0' + n % 10) ∷ [], rw q refl)
      | inr q ↦
          (s ++ (b'0' + n % 10) ∷ [], rw q (e ∙ sym (append_assoc s ((b'0' + n % 10) ∷ []) acc)))
    ]

pub decimal-last : (n : ℕ) → (s : Str) × (decimal n ≡ s ++ (b'0' + n % 10) ∷ [])
unfolding decimal decimal_from
decimal-last n =
    let (s, e) = ends_in n (n / 10) ((b'0' + n % 10) ∷ []) in
    elim (Bool-cases (ltb n 10)) [ inl q ↦ ([], rw q refl) | inr q ↦ (s, rw q e) ]

sscanf_int-number :
    (s : Str)
    → is_number s ≡ true
    → scan_digits 0 s < 2 ^ 63
    → sscanf_int s ≡ some (pos (scan_digits 0 s))
unfolding sscanf_int
sscanf_int-number [] h k = cc
sscanf_int-number (c ∷ s) h k = ground (arith, h, k)

scan_digits-decimal : (n : ℕ) → scan_digits 0 (decimal n) ≡ n
unfolding decimal scan_digits
scan_digits-decimal n = scan_digits-decimal_from (suc n) n [] (omega arith)

-- A printed number is read back.
pub sscanf_int-decimal : (n : ℕ) → n < 2 ^ 63 → sscanf_int (decimal n) ≡ some (pos n)
sscanf_int-decimal n h =
    let value : scan_digits 0 (decimal n) ≡ n = scan_digits-decimal n in
    sscanf_int-number (decimal n) (decimal-is_number n) (rw value h) ∙ ap (λ k. some (pos k)) value
