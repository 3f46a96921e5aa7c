-- ===== src/Config/Pair.antt =====
-- `parseShare` of internal/config/config.go: which settings are shares.
use localsend_nas.Prelude.{
  false, [], Str, str_eq_iff, contains_byte, cut, cut-eq-some, cut-append, ok, ◌≡◌, ◌≢◌, ◌↔◌, sym,
  arith, Option-cases, inl, inr,
}
use localsend_nas.Config.{Share, equals_sign, parse_share, print_share}

-- A share that can be configured: a name without "=", "/" and NUL, and a path.
pub record IsShare (sh : Share) : Type 0 where
  pub name_ne_nil : sh.name ≢ []
  pub path_ne_nil : sh.path ≢ []
  pub no_equals : contains_byte sh.name equals_sign ≡ false
  pub no_slash : contains_byte sh.name b'/' ≡ false
  pub no_nul : contains_byte sh.name 0 ≡ false

-- The text is the share's name and path around the first "=".
pub record Spells (v : Str) (sh : Share) : Type 0 where
  pub text : v ≡ print_share sh
  pub share : IsShare sh

pub parse_share-print_share : (sh : Share) → IsShare sh → parse_share (print_share sh) ≡ ok sh
unfolding parse_share print_share
parse_share-print_share sh h =
    rw (cut-append equals_sign sh.name sh.path h.no_equals, parse_share)
      (ground (
        arith,
        h.name_ne_nil,
        h.path_ne_nil,
        h.no_slash,
        h.no_nul,
        str_eq_iff sh.name [],
        str_eq_iff sh.path [],
      ))

parse_share-Spells : (v : Str) (sh : Share) → parse_share v ≡ ok sh → Spells v sh
unfolding parse_share print_share
parse_share-Spells v sh h = elim (Option-cases (cut equals_sign v)) [
  | inl e ↦ cc (h, rw (e, parse_share) at h)
  | inr ((name, path), e) ↦
      let checked = rw (e, parse_share) at h in
      let (text, no_equals) = cut-eq-some equals_sign v name path e in
      let same : record { name = name; path = path } ≡ sh = ground (arith, checked) in
      rw (sym same) record {
        text = text;
        share = record {
          name_ne_nil = ground (arith, checked, str_eq_iff name []);
          path_ne_nil = ground (arith, checked, str_eq_iff path []);
          no_equals = no_equals;
          no_slash = ground (arith, checked);
          no_nul = ground (arith, checked);
        };
      }
]

-- A setting is read as a share exactly when it is the share's name, "=" and its path, none of them
-- empty, and the name has no "=", "/" or NUL: the first "=" ends the name.
pub parse_share_iff : (v : Str) (sh : Share) → (parse_share v ≡ ok sh) ↔ Spells v sh
parse_share_iff v sh =
    (parse_share-Spells v sh, λ h. rw h.text (parse_share-print_share sh h.share))
