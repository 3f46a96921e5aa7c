-- ===== src/Config/CommandLine.antt =====
-- `Parse` of internal/config/config.go on the command line that spells a configuration out.
use mathlib.Core.List.{append-nil, append_assoc}
use localsend_nas.Prelude.{
  cut, Bool, true, false, List, [], ◌∷◌, ◌++◌, Option, none, some, Str, codes, ℤ, map, All, ok,
  str_eq, str_eq_iff, ◌≤ℤ◌, pos, ◌≡◌, ◌≢◌, refl, sym, ap, ◌∙◌, arith,
}
use localsend_nas.Config.{Share, Config, print_share}
use localsend_nas.Config.Flags.{
  classify, kind, set, read_flag, parse_args, with_env_shares, check_any, with_alias, check_port,
  from_env, parse, add_share,
}
use localsend_nas.Config.Pair.{IsShare, parse_share-print_share}
use localsend_nas.Config.Distinct.{check_names_iff}
use localsend_nas.Config.Valid.{IsUsable}

abbrev pub share_flag : Share → Str
share_flag sh = codes "--share=" ++ print_share sh

abbrev bool_text : Bool → Str
bool_text true = codes "true"
bool_text false = codes "false"

-- Every setting as a flag; `port` is the text of the port.
abbrev pub command_line : Str → Config → List Str
command_line port cfg =
    (codes "--listen=" ++ cfg.listen)
    ∷ (codes "--ls-port=" ++ port)
    ∷ (codes "--alias=" ++ cfg.alias)
    ∷ (codes "--data-dir=" ++ cfg.data_dir)
    ∷ (codes "--read-only=" ++ bool_text cfg.read_only)
    ∷ map share_flag cfg.shares

module _ (parse_int : Str → Option ℤ) where
  set-share :
      (sh : Share) (cfg : Config)
      → IsShare sh
      → set parse_int (codes "share") (print_share sh) cfg ≡ ok (add_share sh cfg)
  unfolding set str_eq
  set-share sh cfg h = rw (parse_share-print_share sh h) refl

  parse_args-share_flag :
      (shares : List Share) (cfg : Config)
      → All IsShare shares
      → parse_args parse_int none (map share_flag shares) cfg
        ≡ ok (record cfg { shares = cfg.shares ++ shares })
  unfolding parse_args classify cut read_flag kind str_eq
  parse_args-share_flag [] cfg h =
      ap (λ ss. ok (record cfg { shares = ss })) (sym (append-nil cfg.shares))
  parse_args-share_flag (sh ∷ shares) cfg (h, hs) = rw (set-share sh cfg h) (
      parse_args-share_flag shares (add_share sh cfg) hs
      ∙ ap (λ ss. ok (record cfg { shares = ss })) (append_assoc cfg.shares (sh ∷ []) shares))

  -- One flag, and the arguments behind it.
  module _ (args : List Str) (cfg : Config) where
    parse_args_listen :
        (v : Str)
        → parse_args parse_int none ((codes "--listen=" ++ v) ∷ args) cfg
          ≡ parse_args parse_int none args (record cfg { listen = v })
    unfolding parse_args classify cut read_flag kind set str_eq
    parse_args_listen v = refl

    parse_args_ls_port :
        (v : Str) (n : ℤ)
        → parse_int v ≡ some n
        → parse_args parse_int none ((codes "--ls-port=" ++ v) ∷ args) cfg
          ≡ parse_args parse_int none args (record cfg { ls_port = n })
    unfolding parse_args classify cut read_flag kind set str_eq
    parse_args_ls_port v n q = rw q refl

    parse_args_alias :
        (v : Str)
        → parse_args parse_int none ((codes "--alias=" ++ v) ∷ args) cfg
          ≡ parse_args parse_int none args (record cfg { alias = v })
    unfolding parse_args classify cut read_flag kind set str_eq
    parse_args_alias v = refl

    parse_args_data_dir :
        (v : Str)
        → parse_args parse_int none ((codes "--data-dir=" ++ v) ∷ args) cfg
          ≡ parse_args parse_int none args (record cfg { data_dir = v })
    unfolding parse_args classify cut read_flag kind set str_eq
    parse_args_data_dir v = refl

    parse_args_read_only :
        (b : Bool)
        → parse_args parse_int none ((codes "--read-only=" ++ bool_text b) ∷ args) cfg
          ≡ parse_args parse_int none args (record cfg { read_only = b })
    unfolding parse_args classify cut read_flag kind set str_eq
    parse_args_read_only true = refl
    parse_args_read_only false = refl

  parse_args-command_line :
      (port : Str) (start cfg : Config)
      → parse_int port ≡ some cfg.ls_port
      → start.shares ≡ []
      → All IsShare cfg.shares
      → parse_args parse_int none (command_line port cfg) start ≡ ok cfg
  parse_args-command_line port start cfg q e h =
      parse_args_listen _ start cfg.listen
      ∙ parse_args_ls_port _ _ port cfg.ls_port q
      ∙ parse_args_alias _ _ cfg.alias
      ∙ parse_args_data_dir _ _ cfg.data_dir
      ∙ parse_args_read_only _ _ cfg.read_only
      ∙ parse_args-share_flag cfg.shares _ h
      ∙ ap (λ ss. ok (record cfg { shares = ss ++ cfg.shares })) e

with_env_shares_kept :
    (env : Str) (cfg : Config) → cfg.shares ≢ [] → with_env_shares env cfg ≡ ok cfg
unfolding with_env_shares
with_env_shares_kept env cfg h = ground (arith, h)

check_any-ok : (shares : List Share) → shares ≢ [] → check_any shares ≡ ok tt
check_any-ok [] h = absurd (h refl)
check_any-ok (sh ∷ shares) h = refl

with_alias_kept :
    (hostname : Option Str) (cfg : Config) → cfg.alias ≢ [] → with_alias hostname cfg ≡ cfg
unfolding with_alias
with_alias_kept hostname cfg h = ground (arith, h, str_eq_iff cfg.alias [])

check_port-ok :
    (cfg : Config) → pos 1 ≤ℤ cfg.ls_port → cfg.ls_port ≤ℤ pos 65535 → check_port cfg ≡ ok cfg
unfolding check_port
check_port-ok cfg low high = ground (arith, low, high)

-- Flags win over the environment, and every usable configuration can be asked for: the command line
-- that spells it out, one flag for each setting and each share, is parsed to exactly this
-- configuration in any environment and on any host, if strconv.ParseInt reads the port.
pub parse-command_line :
    (parse_int : Str → Option ℤ) (env : Str → Str) (hostname : Option Str) (port : Str)
    (cfg : Config)
    → parse_int port ≡ some cfg.ls_port
    → IsUsable cfg
    → parse parse_int env hostname (command_line port cfg) ≡ ok cfg
unfolding parse from_env
parse-command_line parse_int env hostname port cfg q h =
    rw (parse_args-command_line parse_int port (from_env env) cfg q refl h.all_shares) (
      rw
        (
          with_env_shares_kept (env (codes "LOCALSEND_NAS_SHARES")) cfg h.some_share,
          check_any-ok cfg.shares h.some_share,
          (check_names_iff cfg.shares).1 h.apart,
          with_alias_kept hostname cfg h.alias_ne_nil,
          check_port-ok cfg h.port_above h.port_below,
        )
        refl)
