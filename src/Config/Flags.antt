-- ===== src/Config/Flags.antt =====
-- `Parse` of internal/config/config.go: the flag set, its parsing (package flag), and the checks
-- behind it. strconv.ParseInt with base 0, by which the flag of the port is read, is a parameter.
use localsend_nas.Prelude.{
  cut, trim_space, ℕ, Bool, true, false, ◌||◌, List, [], ◌∷◌, ◌++◌, Option, none, some, Str, codes,
  Map, ℤ, pos, str_eq, ltb_ℤ, split, insert, has_key, any, ◌==◌, if◌then◌else◌, Result, ok, err,
  ◌>>=◌,
}
use localsend_nas.Config.{
  Share, Config, ConfigError, no_shares, duplicate_share_name, invalid_port, bad_syntax,
  undefined_flag, needs_argument, help_requested, invalid_value, equals_sign, comma, parse_share,
  env_or, env_or_bool, env_or_int,
}

-- What the loop of flag.FlagSet makes of an argument.
pub data Arg : Type 0 where
  operand terminator malformed : Arg
  flag : Str → Option Str → Arg

pub data Kind : Type 0 where
  switch valued undefined : Kind

abbrev pub hyphen : ℕ
hyphen = 0x2d

-- A flag's name, and the value behind "=".
abbrev pub flag_of : Str → Arg
flag_of [] = malformed
flag_of (c ∷ s) =
    if c == hyphen || c == equals_sign then malformed else elim (cut equals_sign (c ∷ s)) [
      | none ↦ flag (c ∷ s) none
      | some (name, value) ↦ flag name (some value)
    ]

abbrev pub after_hyphens : Str → Arg
after_hyphens [] = terminator
after_hyphens (c ∷ s) = flag_of (c ∷ s)

unfoldable pub classify : Str → Arg
unfolding cut
classify [] = operand
classify (a ∷ []) = operand
classify (a ∷ b ∷ s) =
    if a == hyphen then (if b == hyphen then after_hyphens s else flag_of (b ∷ s)) else operand

-- A share behind the others.
abbrev pub add_share : Share → Config → Config
add_share sh cfg = record cfg { shares = cfg.shares ++ sh ∷ [] }

abbrev pub valued_flags : List Str
valued_flags =
    codes "listen" ∷ codes "ls-port" ∷ codes "alias" ∷ codes "data-dir" ∷ codes "share" ∷ []

unfoldable pub kind : Str → Kind
kind name =
    if str_eq name (codes "read-only")
    then switch
    else if any (str_eq name) valued_flags
    then valued
    else undefined

-- strconv.ParseBool
abbrev pub parse_bool : Str → Option Bool
parse_bool v =
    if any (str_eq v)
      (codes "1" ∷ codes "t" ∷ codes "T" ∷ codes "TRUE" ∷ codes "true" ∷ codes "True" ∷ [])
    then some true
    else if any (str_eq v)
        (codes "0" ∷ codes "f" ∷ codes "F" ∷ codes "FALSE" ∷ codes "false" ∷ codes "False" ∷ [])
    then some false
    else none

module _ (parse_int : Str → Option ℤ) where
  -- Set of the flag's value.
  unfoldable pub set : Str → Str → Config → Result ConfigError Config
  unfolding parse_share
  set name v cfg =
      if str_eq name (codes "listen")
      then ok (record cfg { listen = v })
      else if str_eq name (codes "ls-port")
      then elim (parse_int v) [
        | none ↦ err (invalid_value name v)
        | some n ↦ ok (record cfg { ls_port = n })
      ]
      else if str_eq name (codes "alias")
      then ok (record cfg { alias = v })
      else if str_eq name (codes "data-dir")
      then ok (record cfg { data_dir = v })
      else if str_eq name (codes "read-only")
      then elim (parse_bool v) [
        | none ↦ err (invalid_value name v)
        | some b ↦ ok (record cfg { read_only = b })
      ]
      else if str_eq name (codes "share")
      then elim (parse_share v) [
        | err _ ↦ err (invalid_value name v)
        | ok sh ↦ ok (add_share sh cfg)
      ]
      else err (undefined_flag name)

  abbrev pub not_defined : Str → ConfigError
  not_defined name =
      if str_eq name (codes "help") || str_eq name (codes "h")
      then help_requested
      else undefined_flag name

  -- A flag that was found: the name that waits for the next argument as its value, and the values.
  unfoldable pub read_flag : Str → Option Str → Config → Result ConfigError (Option Str × Config)
  unfolding set kind
  read_flag name value cfg = elim (kind name) [
    | undefined ↦ err (not_defined name)
    | switch ↦ elim value [
      | none ↦ do cfg1 ← set name (codes "true") cfg; ok (none, cfg1)
      | some v ↦ do cfg1 ← set name v cfg; ok (none, cfg1)
    ]
    | valued ↦ elim value [
      | none ↦ ok (some name, cfg)
      | some v ↦ do cfg1 ← set name v cfg; ok (none, cfg1)
    ]
  ]

  -- FlagSet.Parse; the name is the flag that waits for the next argument as its value.
  unfoldable pub parse_args : Option Str → List Str → Config → Result ConfigError Config
  unfolding classify read_flag
  parse_args none [] cfg = ok cfg
  parse_args (some name) [] cfg = err (needs_argument name)
  parse_args (some name) (v ∷ args) cfg = do cfg1 ← set name v cfg; parse_args none args cfg1
  parse_args none (s ∷ args) cfg = elim (classify s) [
    | operand ↦ ok cfg
    | terminator ↦ ok cfg
    | malformed ↦ err (bad_syntax s)
    | flag name value ↦ do (wait, cfg1) ← read_flag name value cfg; parse_args wait args cfg1
  ]

-- The loop over the comma-separated list of the environment.
unfoldable pub parse_parts : List Str → Result ConfigError (List Share)
parse_parts [] = ok []
parse_parts (p ∷ ps) = do sh ← parse_share (trim_space p); rest ← parse_parts ps; ok (sh ∷ rest)

-- The shares of the environment, where the flags gave none.
unfoldable pub with_env_shares : Str → Config → Result ConfigError Config
unfolding parse_parts
with_env_shares env cfg = elim cfg.shares [
  | _ ∷ _ ↦ ok cfg
  | [] ↦
      if str_eq env []
      then ok cfg
      else do shares ← parse_parts (split comma env); ok (record cfg { shares = shares })
]

-- The loop that looks for a name that comes twice.
unfoldable pub check_names : Map Bool → List Share → Result {0, 0} ConfigError Unit
check_names seen [] = ok tt
check_names seen (sh ∷ shares) =
    let rest = check_names (insert sh.name true seen) shares in
    if has_key sh.name seen then err (duplicate_share_name sh.name) else rest

abbrev pub check_any : List Share → Result {0, 0} ConfigError Unit
check_any [] = err no_shares
check_any (_ ∷ _) = ok tt

abbrev pub host_or_node : Option Str → Str
host_or_node none = codes "node"
host_or_node (some host) = if str_eq host [] then codes "node" else host

-- The alias, from the host's name when none was given; `none` for an error of os.Hostname.
unfoldable pub with_alias : Option Str → Config → Config
with_alias hostname cfg =
    if str_eq cfg.alias []
    then record cfg { alias = codes "Nas " ++ host_or_node hostname }
    else cfg

unfoldable pub check_port : Config → Result ConfigError Config
check_port cfg =
    if ltb_ℤ cfg.ls_port (pos 1) || ltb_ℤ (pos 65535) cfg.ls_port
    then err (invalid_port cfg.ls_port)
    else ok cfg

abbrev pub default_listen : Str
default_listen = codes ":80"

abbrev pub default_data_dir : Str
default_data_dir = codes "/var/lib/localsend-nas"

-- The values before any flag is read.
unfoldable pub from_env : (Str → Str) → Config
from_env env = record {
  listen = env_or (env (codes "LOCALSEND_NAS_LISTEN")) default_listen;
  ls_port = env_or_int (env (codes "LOCALSEND_NAS_LS_PORT")) (pos 53317);
  shares = [];
  alias = env_or (env (codes "LOCALSEND_NAS_ALIAS")) [];
  data_dir = env_or (env (codes "LOCALSEND_NAS_DATA_DIR")) default_data_dir;
  read_only = env_or_bool (env (codes "LOCALSEND_NAS_READ_ONLY")) false;
}

-- Parse
unfoldable pub parse :
    (Str → Option ℤ) → (Str → Str) → Option Str → List Str → Result ConfigError Config
parse parse_int env hostname args = do
  flags ← parse_args parse_int none args (from_env env)
  cfg ← with_env_shares (env (codes "LOCALSEND_NAS_SHARES")) flags
  _ ← check_any cfg.shares
  _ ← check_names [] cfg.shares
  check_port (with_alias hostname cfg)
