-- ===== src/Main/Serves.antt =====
-- The start of cmd/localsend-nas/main.go: what the parts are when the servers begin.
use mathlib.Core.Option.{some-injective}
use localsend_nas.Prelude.{
  ℕ, Bool, true, false, List, [], ◌∷◌, Option, some, Str, Map, ℤ, str_eq, str_eq_iff, lookup,
  insert, lookup-insert, lookup-insert_self, All, Result, ok, err, bind-eq-ok, ok-injective,
  Bool-cases, Result-cases, if◌then◌else◌, ◌≡◌, ◌≢◌, refl, sym, ap, ◌∙◌, inl, inr, arith,
}
use localsend_nas.Host.{Host, OsError}
use localsend_nas.Config.{Share, Config}
use localsend_nas.Config.Flags.{parse}
use localsend_nas.Config.Distinct.{Apart}
use localsend_nas.Config.Valid.{IsUsable, parse-IsUsable}
use localsend_nas.Identity
use localsend_nas.Identity.{Crypto, Identity, IdentityError}
use localsend_nas.Shares.{Store, open_root, new_store, path}
use localsend_nas.Settings
use localsend_nas.Settings.Range.{InRange, load-InRange}
use localsend_nas.Transfer
use localsend_nas.Transfer.Jobs.{Listed}
use localsend_nas.HttpApi.{Api}
use localsend_nas.HttpApi.Sound.{IsSound}
use localsend_nas.Main.{roots_from, filtered, assemble, receiver_of, start_with, start}

other_roots :
    (name : Str) (roots : Map Str) (shares : List Share)
    → All (λ sh. name ≢ sh.name) shares
    → lookup name (roots_from roots shares) ≡ lookup name roots
unfolding roots_from
other_roots name roots [] h = refl
other_roots name roots (sh ∷ shares) (h, hs) =
    other_roots name (insert sh.name sh.path roots) shares hs
    ∙ lookup-insert sh.name name sh.path roots
    ∙ ground (arith, str_eq_iff sh.name name, h)

lookup-roots_from :
    (roots : Map Str) (shares : List Share)
    → Apart shares
    → All (λ sh. lookup sh.name (roots_from roots shares) ≡ some sh.path) shares
unfolding roots_from
lookup-roots_from roots [] h = tt
lookup-roots_from roots (sh ∷ shares) (h, hs) = (
  other_roots sh.name (insert sh.name sh.path roots) shares h
      ∙ lookup-insert_self sh.name sh.path roots,
  lookup-roots_from (insert sh.name sh.path roots) shares hs,
)

module _ {D : Type 0} (host : Host D) (d : D) where
  -- The share's name stands for the directory that its path evaluates to.
  pub record IsServed (st : Store) (sh : Share) : Type 0 where
    pub root : Str
    pub known : path st sh.name ≡ some root
    pub opened : open_root host d sh.path ≡ ok root

  -- A root of the store is that of the map.
  record Opened (st : Store) (name p : Str) : Type 0 where
    root : Str
    known : lookup name st.roots ≡ some root
    opened : open_root host d p ≡ ok root

  new_store-Opened :
      (roots : Map Str) (st : Store) (name p : Str)
      → new_store host d roots ≡ ok st
      → lookup name roots ≡ some p
      → Opened st name p
  unfolding new_store lookup
  new_store-Opened [] st name p e h = cc
  new_store-Opened ((j, q) ∷ roots) st name p e h =
      let (eval, e1, e2) = bind-eq-ok (open_root host d q) _ e in
      let (rest, e3, e4) = bind-eq-ok (new_store host d roots) _ e2 in
      let same : record rest { roots = insert j eval rest.roots } ≡ st = ok-injective e4 in
      let found =
        λ (k : Str). ap (λ s. lookup k s.roots) (sym same) ∙ lookup-insert j k eval rest.roots in
      elim (Bool-cases (str_eq j name)) [
        | inl s ↦
            let here : q ≡ p = some-injective _ _ (rw (lookup, s) at h) in
            record { root = eval; known = found name ∙ (rw s refl); opened = rw (sym here) e1 }
        | inr s ↦
            let later = new_store-Opened roots rest name p e3 (rw (lookup, s) at h) in
            record {
              root = later.root;
              known = found name ∙ (rw s later.known);
              opened = later.opened;
            }
      ]

  All-IsServed :
      (roots : Map Str) (st : Store) (s : Settings.Settings) (shares : List Share)
      → new_store host d roots ≡ ok st
      → All (λ sh. lookup sh.name roots ≡ some sh.path) shares
      → All (IsServed (filtered s st)) shares
  unfolding path
  All-IsServed roots st s [] e h = tt
  All-IsServed roots st s (sh ∷ shares) e (h, hs) =
      let served = new_store-Opened roots st sh.name sh.path e h in
      (
        record { root = served.root; known = served.known; opened = served.opened },
        All-IsServed roots st s shares e hs,
      )

-- The program is ready: a usable configuration, each of whose shares is served, and sound parts.
pub record IsReady {D : Type 0} (host : Host D) (d : D) (a : Api) : Type 0 where
  pub usable : IsUsable a.cfg
  pub served : All (IsServed host d a.store) a.cfg.shares
  pub sound : IsSound a
  pub receives : a.rcv ≡ receiver_of a.cfg

manager-Listed :
    (b : Bool) → Listed (if b then Transfer.new else Transfer.set_receive_cancel Transfer.new)
manager-Listed true = record { found = refl; unique = refl }
manager-Listed false = record { found = refl; unique = refl }

module _ (crypto : Crypto) (json : Settings.Codec) (parse_int : Str → Option ℤ) {D : Type 0}
    (host : Host D) where
  assemble-IsSound :
      (version : Str) (cfg : Config) (id : Identity) (store : Store) (settings : Settings.Store)
      → InRange settings.s
      → IsSound (assemble version cfg id store settings)
  assemble-IsSound version cfg id store settings h = record {
    in_range = h;
    keyed = record { entries = refl };
    listed = manager-Listed cfg.read_only;
  }

  start_with-IsReady :
      (version : Str) (cfg : Config) (identity : Result IdentityError Identity × D) (d' : D)
      (a : Api)
      → IsUsable cfg
      → start_with crypto json parse_int host version cfg identity ≡ (ok a, d')
      → IsReady host d' a
  unfolding start_with
  start_with-IsReady version cfg (err e, d) d' a h s = cc
  start_with-IsReady version cfg (ok id, d) d' a h s =
      elim (Result-cases (new_store host d (roots_from [] cfg.shares))) [
        | inr (e, q) ↦ cc (s, rw (start_with, q) at s)
        | inl (store, q) ↦ elim (Result-cases (Settings.load host json d cfg.data_dir)) [
          | inr (e, k) ↦ cc (s, rw (start_with, q, k) at s)
          | inl (settings, k) ↦
              let done = rw (start_with, q, k) at s in
              let api : assemble version cfg id store settings ≡ a =
                ok-injective (ap (λ x. x.0) done) in
              let disk : d ≡ d' = ap (λ x. x.1) done in
              rw (sym api, sym disk)
                (record {
                  usable = h;
                  served =
                      All-IsServed host d (roots_from [] cfg.shares) store settings.s cfg.shares q
                        (lookup-roots_from [] cfg.shares h.apart);
                  sound =
                      assemble-IsSound version cfg id store settings
                        (load-InRange host json d cfg.data_dir k);
                  receives = refl;
                })
        ]
      ]

  -- Where the start of the program succeeds, the servers begin with a usable configuration, every
  -- share that was asked for stands in the store under its name with the directory that its path
  -- evaluates to, the settings, the registry and the job list are sound, and there is a receiver
  -- exactly when the mode is not read-only.
  pub start-IsReady :
      (mkdir_all : D → Str → Option OsError × D) (version : Str) (now : ℕ) (env : Str → Str)
      (hostname : Option Str) (args : List Str) (d d' : D) (a : Api)
      → start crypto json parse_int host mkdir_all version now env hostname args d ≡ (ok a, d')
      → IsReady host d' a
  unfolding start
  start-IsReady mkdir_all version now env hostname args d d' a s =
      elim (Result-cases (parse parse_int env hostname args)) [
        | inr (e, q) ↦ cc (s, rw (start, q) at s)
        | inl (cfg, q) ↦
            start_with-IsReady version cfg
              (Identity.load crypto host now cfg.data_dir (mkdir_all d cfg.data_dir)) d' a
              (parse-IsUsable parse_int env hostname args cfg q) (rw (start, q) at s)
      ]
