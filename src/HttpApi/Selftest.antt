-- ===== src/HttpApi/Selftest.antt =====
-- `handleSelftest` of internal/httpapi/api.go.
use localsend_nas.Prelude.{
  ℕ, Bool, true, false, ◌&&◌, List, [], ◌∷◌, Option, none, some, Str, length, if◌then◌else◌, ok,
  err,
}
use localsend_nas.Host.{Host, OsError}
use localsend_nas.Shares
use localsend_nas.Shares.{names, path}
use localsend_nas.Discovery.{snapshot}
use localsend_nas.HttpApi.{Api}

-- What is wrong with a share.
pub data ShareFault : Type 0 where
  stat_failed : OsError → ShareFault
  not_directory : ShareFault

-- The report. The messages on the shares are joined in no particular order.
pub record Report : Type 0 where
  pub status : ℕ
  pub ok : Bool
  pub shares : List (Str × ShareFault)
  pub ls_port : Option Str
  pub multicast : Bool
  pub devices : ℕ

abbrev pub is_nil {ℓ} : {A : Type ℓ} → List A → Bool
is_nil [] = true
is_nil (_ ∷ _) = false

module _ {D : Type 0} (host : Host D) (d : D) where
  -- The check of one root; a name without a root has the path "".
  abbrev pub share_fault : Shares.Store → Str → Option ShareFault
  share_fault store name = elim (host.stat d (elim (path store name) [ none ↦ [] | some p ↦ p ])) [
    | err e ↦ some (stat_failed e)
    | ok fi ↦ if fi.is_dir then none else some not_directory
  ]

  -- The loop over the shares.
  unfoldable pub share_faults : Shares.Store → List Str → List (Str × ShareFault)
  unfolding path
  share_faults store [] = []
  share_faults store (name ∷ rest) =
      let more = share_faults store rest in
      elim (share_fault store name) [ none ↦ more | some e ↦ (name, e) ∷ more ]

  -- handleSelftest; `dial` is the error of the connection to the own port, and `listening` says
  -- whether a multicast group was joined.
  unfoldable pub handle_selftest : Option Str → Bool → Api → Report
  unfolding share_faults names snapshot
  handle_selftest dial listening a =
      let faults = share_faults a.store (names a.store) in
      let connected : Bool = elim dial [ none ↦ true | some _ ↦ false ] in
      let passed : Bool = is_nil faults && connected && listening in
      record {
        status = if passed then 200 else 503;
        ok = passed;
        shares = faults;
        ls_port = dial;
        multicast = listening;
        devices = length (snapshot a.disc);
      }
