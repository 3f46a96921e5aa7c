-- ===== src/Config/Valid.antt =====
-- What `Parse` of internal/config/config.go promises of the configuration that it returns.
use mathlib.Core.List.{cons-ne-nil}
use localsend_nas.Prelude.{
  trim_space, List, [], ◌∷◌, ◌++◌, Option, none, some, Str, codes, ℤ, pos, ◌≤ℤ◌, str_eq_iff, split,
  All, All-append, ok, err, bind-eq-ok, ok-injective, Result-cases, ◌≡◌, ◌≢◌, refl, ◌⊎◌, sym, arith,
  inl, inr,
}
use localsend_nas.Config.{Share, Config, ConfigError, comma, parse_share}
use localsend_nas.Config.Flags.{
  operand, terminator, malformed, flag, classify, set, read_flag, parse_args, parse_parts,
  with_env_shares, check_any, check_names, with_alias, check_port, from_env, parse,
}
use localsend_nas.Config.Pair.{IsShare, parse_share_iff}
use localsend_nas.Config.Distinct.{Apart, check_names_iff}

abbrev pub AllShares : Config → Type 0
AllShares cfg = All IsShare cfg.shares

module _ (parse_int : Str → Option ℤ) where
  set-same :
      (name v : Str) (cfg cfg1 : Config) (e : ConfigError)
      → parse_share v ≡ err e
      → set parse_int name v cfg ≡ ok cfg1
      → cfg1.shares ≡ cfg.shares
  unfolding set
  set-same name v cfg cfg1 e q h = ground (arith, q, h)

  set-share :
      (name v : Str) (cfg cfg1 : Config) (sh : Share)
      → parse_share v ≡ ok sh
      → set parse_int name v cfg ≡ ok cfg1
      → (cfg1.shares ≡ cfg.shares) ⊎ (cfg1.shares ≡ cfg.shares ++ sh ∷ [])
  unfolding set
  set-share name v cfg cfg1 sh q h = ground (arith, q, h)

  set-AllShares :
      (name v : Str) (cfg cfg1 : Config)
      → AllShares cfg
      → set parse_int name v cfg ≡ ok cfg1
      → AllShares cfg1
  unfolding set
  set-AllShares name v cfg cfg1 h e = elim (Result-cases (parse_share v)) [
    | inr (bad, q) ↦ rw (set-same name v cfg cfg1 bad q e) h
    | inl (sh, q) ↦ elim (set-share name v cfg cfg1 sh q e) [
      | inl same ↦ rw same h
      | inr more ↦
          rw more
            (All-append IsShare cfg.shares (sh ∷ []) h (((parse_share_iff v sh).0 q).share, tt))
    ]
  ]

  read_flag-AllShares :
      (name : Str) (value : Option Str) (cfg cfg1 : Config) (wait : Option Str)
      → AllShares cfg
      → read_flag parse_int name value cfg ≡ ok (wait, cfg1)
      → AllShares cfg1
  unfolding read_flag
  read_flag-AllShares name none cfg cfg1 wait h e =
      ground (arith, e, set-AllShares name (codes "true") cfg cfg1 h)
  read_flag-AllShares name (some v) cfg cfg1 wait h e =
      ground (arith, e, set-AllShares name v cfg cfg1 h)

  parse_args-AllShares :
      (wait : Option Str) (args : List Str) (cfg cfg1 : Config)
      → AllShares cfg
      → parse_args parse_int wait args cfg ≡ ok cfg1
      → AllShares cfg1
  unfolding parse_args
  parse_args-AllShares none [] cfg cfg1 h e = rw (sym (ok-injective e)) h
  parse_args-AllShares (some name) [] cfg cfg1 h e = cc
  parse_args-AllShares (some name) (v ∷ args) cfg cfg1 h e =
      let (mid, e1, e2) = bind-eq-ok _ _ e in
      parse_args-AllShares none args mid cfg1 (set-AllShares name v cfg mid h e1) e2
  parse_args-AllShares none (s ∷ args) cfg cfg1 h e =
      (elim (classify s) as (λ a. classify s ≡ a → AllShares cfg1) [
        | operand ↦ λ q. rw (sym (ok-injective (rw (q, parse_args) at e))) h
        | terminator ↦ λ q. rw (sym (ok-injective (rw (q, parse_args) at e))) h
        | malformed ↦ λ q. cc (e, rw (q, parse_args) at e)
        | flag name value ↦ λ q.
            let ((wait, mid), e1, e2) = bind-eq-ok _ _ (rw (q, parse_args) at e) in
            parse_args-AllShares wait args mid cfg1
              (read_flag-AllShares name value cfg mid wait h e1) e2
      ])
        refl

parse_parts-All :
    (ps : List Str) (shares : List Share) → parse_parts ps ≡ ok shares → All IsShare shares
unfolding parse_parts
parse_parts-All [] shares e = rw (sym (ok-injective e)) tt
parse_parts-All (p ∷ ps) shares e =
    let (sh, e1, e2) = bind-eq-ok (parse_share (trim_space p)) _ e in
    let (rest, e3, e4) = bind-eq-ok (parse_parts ps) _ e2 in
    rw (sym (ok-injective e4))
      (((parse_share_iff (trim_space p) sh).0 e1).share, parse_parts-All ps rest e3)

with_env_shares-AllShares :
    (env : Str) (cfg cfg1 : Config)
    → AllShares cfg
    → with_env_shares env cfg ≡ ok cfg1
    → AllShares cfg1
unfolding with_env_shares
with_env_shares-AllShares env cfg cfg1 h e = elim (Result-cases (parse_parts (split comma env))) [
  | inl (shares, q) ↦ ground (arith, e, q, h, parse_parts-All (split comma env) shares q)
  | inr (bad, q) ↦ ground (arith, e, q, h)
]

-- A configuration that can be run: at least one share, all of them well formed with distinct names,
-- a port, and an alias.
pub record IsUsable (cfg : Config) : Type 0 where
  pub some_share : cfg.shares ≢ []
  pub all_shares : All IsShare cfg.shares
  pub apart : Apart cfg.shares
  pub port_above : pos 1 ≤ℤ cfg.ls_port
  pub port_below : cfg.ls_port ≤ℤ pos 65535
  pub alias_ne_nil : cfg.alias ≢ []

check_any-ne-nil : (shares : List Share) → check_any shares ≡ ok tt → shares ≢ []
check_any-ne-nil [] h = cc
check_any-ne-nil (sh ∷ shares) h = cons-ne-nil sh shares

with_alias-shares :
    (hostname : Option Str) (cfg : Config) → (with_alias hostname cfg).shares ≡ cfg.shares
unfolding with_alias
with_alias-shares hostname cfg = ground arith

with_alias-ne-nil : (hostname : Option Str) (cfg : Config) → (with_alias hostname cfg).alias ≢ []
unfolding with_alias
with_alias-ne-nil hostname cfg = ground (arith, str_eq_iff cfg.alias [])

-- What a configuration that passed the checks is.
checked-IsUsable :
    (hostname : Option Str) (mid cfg : Config)
    → AllShares mid
    → check_any mid.shares ≡ ok tt
    → check_names [] mid.shares ≡ ok tt
    → check_port (with_alias hostname mid) ≡ ok cfg
    → IsUsable cfg
unfolding check_port
checked-IsUsable hostname mid cfg h some_share apart port =
    let same : with_alias hostname mid ≡ cfg = ground (arith, port) in
    let shares : cfg.shares ≡ mid.shares = rw (sym same) (with_alias-shares hostname mid) in
    record {
      some_share = rw shares (check_any-ne-nil mid.shares some_share);
      all_shares = rw shares h;
      apart = rw shares ((check_names_iff mid.shares).0 apart);
      port_above = ground (arith, port, same);
      port_below = ground (arith, port, same);
      alias_ne_nil = rw (sym same) (with_alias-ne-nil hostname mid);
    }

-- A configuration that `Parse` returns, whatever the arguments, the environment and the host's name,
-- has a share, only shares with a path and a name without "=", "/" and NUL, no share name twice, a
-- port within 1 to 65535, and an alias.
pub parse-IsUsable :
    (parse_int : Str → Option ℤ) (env : Str → Str) (hostname : Option Str) (args : List Str)
    (cfg : Config)
    → parse parse_int env hostname args ≡ ok cfg
    → IsUsable cfg
unfolding parse from_env
parse-IsUsable parse_int env hostname args cfg e =
    let (flags, e1, e2) = bind-eq-ok (parse_args parse_int none args (from_env env)) _ e in
    let (mid, e3, e4) =
      bind-eq-ok (with_env_shares (env (codes "LOCALSEND_NAS_SHARES")) flags) _ e2 in
    let (_, e5, e6) = bind-eq-ok (check_any mid.shares) _ e4 in
    let (_, e7, e8) = bind-eq-ok (check_names [] mid.shares) _ e6 in
    let read = parse_args-AllShares parse_int none args (from_env env) flags tt e1 in
    checked-IsUsable hostname mid cfg
      (with_env_shares-AllShares (env (codes "LOCALSEND_NAS_SHARES")) flags mid read e3) e5 e7 e8
