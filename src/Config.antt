-- ===== src/Config.antt =====
-- internal/config/config.go: the flags and the environment. The environment is a function that gives
-- "" for a variable that is not set, as os.Getenv does. Text is taken as ASCII where the code folds
-- case or skips blanks.
pub mod Flags
pub mod Pair
pub mod Distinct
pub mod Valid
pub mod EnvList
pub mod CommandLine
use localsend_nas.Prelude.{
  ℕ, zero, suc, ◌+◌, ◌-◌, ◌*◌, ◌^◌, Bool, true, false, ◌&&◌, ◌||◌, List, [], ◌∷◌, ◌++◌, Option,
  none, some, Str, codes, ℤ, pos, negsuc, str_eq, contains_byte, cut, trim_space, sscanf_int, split,
  join, to_lower, any, map, ltb, leb, ◌==◌, if◌then◌else◌, Result, ok, err, ◌>>=◌,
}

pub record Share : Type 0 where
  pub name : Str
  pub path : Str

pub record Config : Type 0 where
  pub listen : Str
  pub ls_port : ℤ
  pub shares : List Share
  pub alias : Str
  pub data_dir : Str
  pub read_only : Bool

pub data ConfigError : Type 0 where
  invalid_share invalid_share_name duplicate_share_name : Str → ConfigError
  no_shares : ConfigError
  invalid_port : ℤ → ConfigError
  bad_syntax undefined_flag needs_argument : Str → ConfigError
  help_requested : ConfigError
  invalid_value : Str → Str → ConfigError

abbrev pub equals_sign : ℕ
equals_sign = 0x3d

abbrev pub comma : ℕ
comma = 0x2c

-- strings.ContainsAny(name, "/\x00")
abbrev pub has_slash_or_nul : Str → Bool
has_slash_or_nul name = contains_byte name b'/' || contains_byte name 0

-- parseShare
unfoldable pub parse_share : Str → Result ConfigError Share
unfolding cut
parse_share v = elim (cut equals_sign v) [
  | none ↦ err (invalid_share v)
  | some (name, path) ↦
      if str_eq name [] || str_eq path []
      then err (invalid_share v)
      else if has_slash_or_nul name
      then err (invalid_share_name name)
      else ok (record { name = name; path = path })
]

-- One share as the flag prints it.
unfoldable pub print_share : Share → Str
print_share sh = sh.name ++ equals_sign ∷ sh.path

-- shareList.String
unfoldable pub share_list_string : List Share → Str
unfolding print_share
share_list_string shares = join comma (map print_share shares)

-- envOr, of the variable's value.
abbrev pub env_or : Str → Str → Str
env_or v def = if str_eq v [] then def else v

abbrev pub true_words : List Str
true_words = codes "1" ∷ codes "true" ∷ codes "yes" ∷ codes "on" ∷ []

abbrev pub false_words : List Str
false_words = codes "0" ∷ codes "false" ∷ codes "no" ∷ codes "off" ∷ []

-- envOrBool, of the variable's value.
unfoldable pub env_or_bool : Str → Bool → Bool
unfolding to_lower
env_or_bool v def =
    if str_eq v []
    then def
    else if any (str_eq (to_lower v)) true_words
    then true
    else if any (str_eq (to_lower v)) false_words
    then false
    else def

-- envOrInt, of the variable's value.
unfoldable pub env_or_int : Str → ℤ → ℤ
unfolding sscanf_int
env_or_int v def = if str_eq v [] then def else elim (sscanf_int v) [ none ↦ def | some n ↦ n ]
