-- ===== src/LsServer/Accept.antt =====
-- Two nodes of this program: internal/identity/identity.go on the sending side, and
-- `handlePrepareUpload` of internal/lsserver/server.go on the receiving one.
use localsend_nas.Prelude.{
  List-cases, inl, inr, to_lower, ℕ, true, false, some, Str, Map, ok, str_eq_refl, equal_fold,
  ok-injective, ◌≡◌, refl, sym, ap, ◌∙◌, arith,
}
use localsend_nas.LocalSend.{Info, FileDto, PrepareRequest}
use localsend_nas.Identity.{Crypto, Certificate, Identity, identify}
use localsend_nas.Receive
use localsend_nas.Receive.{File}
use localsend_nas.Receive.Prepare.{offer, offered_files, new_session, register, has_none}
use localsend_nas.LsServer.{Server, waiting, remote_host, client_cert_fp, handle_prepare_upload}

identify-client_cert_fp :
    (crypto : Crypto) (path : Str) (cert : Certificate) (id : Identity)
    → identify crypto path cert ≡ ok id
    → client_cert_fp crypto cert.chain ≡ id.fingerprint
unfolding identify client_cert_fp
identify-client_cert_fp crypto path cert id h = elim (List-cases cert.chain) [
  | inl q ↦ cc (h, rw (q, identify) at h)
  | inr (der, rest, q) ↦
      rw (q, client_cert_fp) (ap (λ i. i.fingerprint) (ok-injective (rw (q, identify) at h)))
]

equal_fold_refl : (s : Str) → equal_fold s s ≡ true
unfolding equal_fold
equal_fold_refl s = str_eq_refl (to_lower s)

offer-own :
    (id : Str) (now : ℕ) (sender : Info) (ip : Str) (files : Map FileDto) (m : Receive.Manager)
    (fs : Map File)
    → has_none files ≡ false
    → offered_files files ≡ ok fs
    → offer id now sender ip sender.fingerprint files m
      ≡ ok (register (new_session id now sender ip fs) m)
unfolding offer
offer-own id now sender ip files m fs h k =
    rw (equal_fold_refl sender.fingerprint, h, k) (ground arith)

-- The offer of a node whose info carries the fingerprint of its identity, and that presents its
-- certificate to the server, is not taken for another device's: when it has files and their names are
-- safe, its session is registered and the handler waits for the decision.
pub prepare-own_certificate :
    (crypto : Crypto) (path : Str) (cert : Certificate) (own : Identity) (id : Str) (now : ℕ)
    (req : PrepareRequest) (address : Str) (s : Server) (m : Receive.Manager) (fs : Map File)
    → identify crypto path cert ≡ ok own
    → req.info.fingerprint ≡ own.fingerprint
    → has_none req.files ≡ false
    → offered_files req.files ≡ ok fs
    → s.receiver ≡ some m
    → handle_prepare_upload crypto id now (ok req) address cert.chain s ≡ (
      waiting,
      record s {
        receiver = some (register (new_session id now req.info (remote_host address) fs) m);
      },
    )
unfolding handle_prepare_upload
prepare-own_certificate crypto path cert own id now req address s m fs i f h k e =
    let presented : client_cert_fp crypto cert.chain ≡ req.info.fingerprint =
      identify-client_cert_fp crypto path cert own i ∙ sym f in
    rw
      (
        handle_prepare_upload,
        e,
        presented,
        offer-own id now req.info (remote_host address) req.files m fs h k,
      )
      refl
