-- ===== src/Identity/Fingerprint.antt =====
-- The form of the fingerprint of internal/identity/identity.go.
use localsend_nas.Prelude.{
  ℕ, ◌*◌, ◌/◌, ◌%◌, ◌<◌, Bool, true, ◌&&◌, ◌||◌, [], ◌∷◌, Str, hex, hex_digit, to_upper,
  to_upper_byte, all, All, length, leb, ◌≡◌, refl, arith,
}
use localsend_nas.Identity.{Crypto, fingerprint_of}

-- A digit of upper-case hexadecimal.
abbrev pub is_upper_hex : ℕ → Bool
is_upper_hex c = (leb b'0' c && leb c b'9') || (leb b'A' c && leb c b'F')

-- sha256.Sum256 gives 32 bytes.
pub record DigestLaws (crypto : Crypto) : Type 0 where
  pub size : (s : Str) → length (crypto.sha256 s) ≡ 32
  pub bytes : (s : Str) → All (λ c. c < 256) (crypto.sha256 s)

hex_digit-upper : (d : ℕ) → d < 16 → is_upper_hex (to_upper_byte (hex_digit d)) ≡ true
unfolding to_upper_byte
hex_digit-upper d h = ground arith

hex-upper : (s : Str) → All (λ c. c < 256) s → all is_upper_hex (to_upper (hex s)) ≡ true
unfolding to_upper hex
hex-upper [] h = refl
hex-upper (c ∷ s) (h, hs) =
    rw
      (
        hex_digit-upper (c / 16) (omega arith),
        hex_digit-upper (c % 16) (omega arith),
        hex-upper s hs,
      )
      refl

length-hex : (s : Str) → length (to_upper (hex s)) ≡ 2 * length s
unfolding to_upper hex
length-hex [] = refl
length-hex (c ∷ s) = omega (arith, length-hex s)

-- A fingerprint is 64 digits of upper-case hexadecimal.
pub fingerprint_of-hex :
    (crypto : Crypto) (der : Str)
    → DigestLaws crypto
    → (length (fingerprint_of crypto der) ≡ 64)
      × (all is_upper_hex (fingerprint_of crypto der) ≡ true)
unfolding fingerprint_of
fingerprint_of-hex crypto der h = (
  omega (arith, length-hex (crypto.sha256 der), h.size der),
  hex-upper (crypto.sha256 der) (h.bytes der),
)
