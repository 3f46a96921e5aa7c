-- ===== src/Shares/Sanitize.antt =====
-- What `SanitizeElement` of internal/shares/shares.go admits.
use localsend_nas.Prelude.{
  ℕ, false, [], ◌∷◌, Str, str_eq_iff, any, All, ok, ◌≡◌, ◌≢◌, ◌↔◌, ◌≤◌, refl, ap, arith, ◌∙◌,
}
use localsend_nas.Filepath.{slash, dot, dotdot}
use localsend_nas.Filepath.Descend.{IsPlain, NoSlash}
use localsend_nas.Shares.{is_control, is_separator, sanitize_element}

-- A byte that a received file name may hold: no separator of any system, no control character.
pub record IsPrintable (c : ℕ) : Type 0 where
  pub not_slash : c ≢ slash
  pub not_backslash : c ≢ 0x5c
  pub not_low : 0x20 ≤ c
  pub not_delete : c ≢ 0x7f

-- A file name that a sender may choose.
pub record IsSafe (e : Str) : Type 0 where
  pub plain : IsPlain e
  pub printable : All IsPrintable e

any-IsPrintable :
    (e : Str) → any is_separator e ≡ false → any is_control e ≡ false → All IsPrintable e
any-IsPrintable [] h k = tt
any-IsPrintable (c ∷ e) h k = (ground arith, any-IsPrintable e (ground arith) (ground arith))

IsPrintable-any :
    (e : Str) → All IsPrintable e → (any is_separator e ≡ false) × (any is_control e ≡ false)
IsPrintable-any [] h = (refl, refl)
IsPrintable-any (c ∷ e) (h, hs) = ground (arith, IsPrintable-any e hs)

printable-NoSlash : (e : Str) → All IsPrintable e → NoSlash e
printable-NoSlash [] h = tt
printable-NoSlash (c ∷ e) (h, hs) = (h.not_slash, printable-NoSlash e hs)

-- An accepted element is returned as it is, and is safe.
pub sanitize_element-IsSafe : {e f : Str} → sanitize_element e ≡ ok f → (e ≡ f) × IsSafe e
unfolding sanitize_element
sanitize_element-IsSafe {e} {f} h = ground (
  arith,
  str_eq_iff e [],
  str_eq_iff e dot,
  str_eq_iff e dotdot,
  any-IsPrintable e,
  printable-NoSlash e,
)

pub sanitize_element_of_IsSafe : (e : Str) → IsSafe e → sanitize_element e ≡ ok e
unfolding sanitize_element
sanitize_element_of_IsSafe e h =
    ground
      (arith, str_eq_iff e [], str_eq_iff e dot, str_eq_iff e dotdot, IsPrintable-any e h.printable)

-- A file name element is accepted exactly when it is not empty, not "." or "..", and holds no
-- separator ("/", "\", NUL) and no control character; and what is accepted comes back unchanged.
pub sanitize_element_iff : (e f : Str) → (sanitize_element e ≡ ok f) ↔ ((e ≡ f) × IsSafe e)
sanitize_element_iff e f =
    (sanitize_element-IsSafe, λ (same, safe). sanitize_element_of_IsSafe e safe ∙ ap ok same)
