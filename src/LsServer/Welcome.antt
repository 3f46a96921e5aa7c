-- ===== src/LsServer/Welcome.antt =====
-- Which offers `handlePrepareUpload` of internal/lsserver/server.go takes.
use localsend_nas.Prelude.{
  ℕ, true, false, not, ◌&&◌, List, [], ◌∷◌, some, Str, Map, ok, str_eq, str_eq_iff, equal_fold, All,
  Bool-cases, Result-cases, bind-eq-ok, ◌≡◌, ◌≢◌, ◌↔◌, refl, ap, inl, inr, arith,
}
use localsend_nas.LocalSend.{FileDto, Info, PrepareRequest}
use localsend_nas.Identity.{Crypto}
use localsend_nas.Receive
use localsend_nas.Receive.{File}
use localsend_nas.Receive.Paths.{sanitize_rel_path}
use localsend_nas.Receive.Paths.Names.{Accepts, sanitize_rel_path_iff}
use localsend_nas.Receive.Prepare.{offer, offered_files, has_none}
use localsend_nas.LsServer.{Server, waiting, remote_host, client_cert_fp, handle_prepare_upload}

-- The name of an offered file can be written below a share.
abbrev pub HasSafeName : Str × FileDto → Type 0
HasSafeName (id, dto) = (rel : Str) × Accepts dto.file_name rel

-- The sender is the owner of the certificate that it presented, if it presented one, and it offers
-- files whose names are safe.
pub record IsWelcome (cert_fp : Str) (sender : Info) (files : Map FileDto) : Type 0 where
  pub identified : cert_fp ≢ [] → equal_fold sender.fingerprint cert_fp ≡ true
  pub some_file : files ≢ []
  pub safe : All HasSafeName files

offered_files-safe :
    (files : Map FileDto) (fs : Map File) → offered_files files ≡ ok fs → All HasSafeName files
unfolding offered_files
offered_files-safe [] fs h = tt
offered_files-safe ((id, dto) ∷ files) fs h =
    let (rel, e1, e2) = bind-eq-ok (sanitize_rel_path dto.file_name) _ h in
    let (rest, e3, e4) = bind-eq-ok (offered_files files) _ e2 in
    ((rel, (sanitize_rel_path_iff dto.file_name rel).0 e1), offered_files-safe files rest e3)

safe-offered_files :
    (files : Map FileDto) → All HasSafeName files → (fs : Map File) × (offered_files files ≡ ok fs)
unfolding offered_files
safe-offered_files [] h = ([], refl)
safe-offered_files ((id, dto) ∷ files) ((rel, a), hs) =
    let (fs, e) = safe-offered_files files hs in
    rw (offered_files, (sanitize_rel_path_iff dto.file_name rel).1 a, e) (_, refl)

module _ (id : Str) (now : ℕ) (sender : Info) (ip cert_fp : Str) (files : Map FileDto)
    (m : Receive.Manager) where
  offer-IsWelcome :
      (m1 : Receive.Manager)
      → offer id now sender ip cert_fp files m ≡ ok m1
      → IsWelcome cert_fp sender files
  unfolding offer
  offer-IsWelcome m1 h =
      elim (Bool-cases (not (str_eq cert_fp []) && not (equal_fold sender.fingerprint cert_fp))) [
        | inl g ↦ cc (h, rw (offer, g) at h)
        | inr g ↦ elim (Bool-cases (has_none files)) [
          | inl n ↦ cc (h, rw (offer, g, n) at h)
          | inr n ↦ elim (Result-cases (offered_files files)) [
            | inr (e, q) ↦ cc (h, rw (offer, g, n, q) at h)
            | inl (fs, q) ↦ record {
              identified = λ k. ground (arith, g, k, str_eq_iff cert_fp []);
              some_file = λ e. cc (n, ap has_none e);
              safe = offered_files-safe files fs q;
            }
          ]
        ]
      ]

  IsWelcome-offer :
      IsWelcome cert_fp sender files
      → (m1 : Receive.Manager) × (offer id now sender ip cert_fp files m ≡ ok m1)
  unfolding offer
  IsWelcome-offer h =
      let (fs, q) = safe-offered_files files h.safe in
      rw (offer, passes, some_files files h.some_file, q) (_, refl)
    where
      passes : (not (str_eq cert_fp []) && not (equal_fold sender.fingerprint cert_fp)) ≡ false
      passes = elim (Bool-cases (str_eq cert_fp [])) [
        | inl e ↦ rw e refl
        | inr e ↦
            let known = h.identified (λ q. cc (e, (str_eq_iff cert_fp []).1 q)) in
            rw (e, known) refl
      ]

      some_files : (fs : Map FileDto) → fs ≢ [] → has_none fs ≡ false
      some_files [] k = absurd (k refl)
      some_files (f ∷ fs) k = refl

-- With a receiver, the handler waits for a decision exactly when the fingerprint that the sender
-- claims is that of the certificate that it presented, if it presented one, and it offers one or more
-- files, all of whose names are safe. Otherwise it answers at once and leaves the server as it was.
pub prepare-waiting_iff :
    (crypto : Crypto) (id : Str) (now : ℕ) (req : PrepareRequest) (address : Str) (certs : List Str)
    (s : Server) (m : Receive.Manager)
    → s.receiver ≡ some m
    → (((handle_prepare_upload crypto id now (ok req) address certs s).0 ≡ waiting)
        ↔ IsWelcome (client_cert_fp crypto certs) req.info req.files)
      × ((handle_prepare_upload crypto id now (ok req) address certs s).0 ≢ waiting
          → (handle_prepare_upload crypto id now (ok req) address certs s).1 ≡ s)
unfolding handle_prepare_upload
prepare-waiting_iff crypto id now req address certs s m r =
    let fp = client_cert_fp crypto certs in
    let made = offer id now req.info (remote_host address) fp req.files m in
    elim (Result-cases made) [
      | inl (m1, q) ↦
          rw (handle_prepare_upload, r, q)
            (
              (
                λ _. offer-IsWelcome id now req.info (remote_host address) fp req.files m m1 q,
                λ _. refl,
              ),
              λ k. absurd (k refl),
            )
      | inr ((status, e), q) ↦
          rw (handle_prepare_upload, r, q)
            (
              (
                (λ k. cc),
                λ k.
                    let (m1, p) =
                      IsWelcome-offer id now req.info (remote_host address) fp req.files m k in
                    cc (p, q),
              ),
              λ _ i. record s { receiver = r i },
            )
    ]
