-- ===== src/Receive/Upload/Guard.antt =====
-- What `Upload` of internal/receive/receive.go admits, and what a refusal leaves alone.
use localsend_nas.Prelude.{
  ℕ, false, List, [], some, Str, str_eq_iff, lookup, ok, err, ◌≡◌, ◌≢◌, ◌↔◌, arith, Option-cases,
  inl, inr,
}
use localsend_nas.Host.{Host}
use localsend_nas.Shares
use localsend_nas.Receive.{accepted, Fault, File, Session, Manager}
use localsend_nas.Receive.Upload.{Read, admit, begin, token_of}
use localsend_nas.Receive.Upload.Stream.{upload}

-- The upload of a file may start.
pub record MayUpload (sid fid token : Str) (m : Manager) (s : Session) (f : File) : Type 0 where
  pub known : lookup sid m.sessions ≡ some s
  pub active : s.state ≡ accepted
  pub issued : token_of fid s ≡ token
  pub not_empty : token ≢ []
  pub offered : lookup fid s.files ≡ some f
  pub missing : f.done ≡ false

module _ (sid fid token : Str) (m : Manager) (s : Session) (f : File) where
  admit_of_MayUpload : MayUpload sid fid token m s f → admit sid fid token m ≡ ok (s, f)
  unfolding admit
  admit_of_MayUpload h =
      ground (arith, str_eq_iff (token_of fid s) [], str_eq_iff (token_of fid s) token)

  admit-MayUpload : admit sid fid token m ≡ ok (s, f) → MayUpload sid fid token m s f
  unfolding admit
  admit-MayUpload h = elim (Option-cases (lookup sid m.sessions)) [
    | inl e ↦ ground arith
    | inr (t, e) ↦ ground (arith, str_eq_iff (token_of fid t) [], str_eq_iff (token_of fid t) token)
  ]

  -- The guards of `Upload` pass exactly when the session is known and accepted, the token is the one
  -- issued for the file and not empty, and the file was offered and has not been received.
  pub admit_iff : (admit sid fid token m ≡ ok (s, f)) ↔ MayUpload sid fid token m s f
  admit_iff = (admit-MayUpload, admit_of_MayUpload)

module _ {D : Type 0} (host : Host D) (fuel : ℕ) (shares : Shares.Store) (sid fid token : Str) where
  -- An upload that the guards refuse writes nothing: the response is the refusal, and neither the
  -- manager nor the disk changes.
  pub upload_refused :
      (body : List (Read D)) (m : Manager) (d : D) (status : ℕ) (e : Fault)
      → admit sid fid token m ≡ err (status, e)
      → upload host fuel shares sid fid token body m d ≡ some ((status, some e), m, d)
  unfolding upload begin
  upload_refused body m d status e h = rw (h, begin, upload)
