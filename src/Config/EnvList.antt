-- ===== src/Config/EnvList.antt =====
-- The comma-separated list of shares of internal/config/config.go: what `shareList.String` prints, as
-- the variable LOCALSEND_NAS_SHARES.
use localsend_nas.Prelude.{
  trim_space, ℕ, false, List, [], ◌∷◌, ◌++◌, Str, contains_byte, split, join, map, All, ok, ◌≡◌,
  ◌≢◌, refl, ap, ◌∙◌, arith,
}
use localsend_nas.Config.{Share, comma, print_share, share_list_string}
use localsend_nas.Config.Flags.{parse_parts}
use localsend_nas.Config.Pair.{IsShare, parse_share-print_share}

split-clean : (sep : ℕ) (p : Str) → contains_byte p sep ≡ false → split sep p ≡ p ∷ []
unfolding split contains_byte
split-clean sep [] h = refl
split-clean sep (a ∷ p) h = ground (arith, split-clean sep p)

split-clean_part :
    (sep : ℕ) (p t : Str) → contains_byte p sep ≡ false → split sep (p ++ sep ∷ t) ≡ p ∷ split sep t
unfolding split contains_byte
split-clean_part sep [] t h = ground arith
split-clean_part sep (a ∷ p) t h = ground (arith, split-clean_part sep p t)

-- A share whose text can stand in the list: without a comma, and without blanks at its ends.
pub record IsListed (sh : Share) : Type 0 where
  pub share : IsShare sh
  pub no_comma : contains_byte (print_share sh) comma ≡ false
  pub no_edge_blanks : trim_space (print_share sh) ≡ print_share sh

parse_parts-print :
    (shares : List Share) → All IsListed shares → parse_parts (map print_share shares) ≡ ok shares
unfolding parse_parts
parse_parts-print [] h = refl
parse_parts-print (sh ∷ shares) (h, hs) =
    rw (h.no_edge_blanks, parse_share-print_share sh h.share, parse_parts-print shares hs) refl

split-share_list_string :
    (sh : Share) (shares : List Share)
    → All IsListed (sh ∷ shares)
    → split comma (share_list_string (sh ∷ shares)) ≡ map print_share (sh ∷ shares)
unfolding share_list_string join
split-share_list_string sh [] (h, _) = split-clean comma (print_share sh) h.no_comma
split-share_list_string sh (next ∷ shares) (h, hs) =
    split-clean_part comma (print_share sh) _ h.no_comma
    ∙ ap (λ ps. print_share sh ∷ ps) (split-share_list_string next shares hs)

-- The list of one or more shares that `String` prints is read back as the same shares in the same
-- order, where no share has a comma in it or a blank at its ends.
pub parse_parts-share_list_string :
    (shares : List Share)
    → shares ≢ []
    → All IsListed shares
    → parse_parts (split comma (share_list_string shares)) ≡ ok shares
parse_parts-share_list_string [] some_share h = absurd (some_share refl)
parse_parts-share_list_string (sh ∷ shares) some_share h =
    ap parse_parts (split-share_list_string sh shares h) ∙ parse_parts-print (sh ∷ shares) h
