-- ===== src/LsServer/ReadOnly.antt =====
-- internal/lsserver/server.go in read-only mode.
use mathlib.Core.Option.{some-injective}
use localsend_nas.Prelude.{none, ◌≡◌, refl, sym, ap, ◌∙◌}
use localsend_nas.Host.{Host}
use localsend_nas.Shares
use localsend_nas.LsServer.{
  Server, handle_prepare_upload, finish_prepare_upload, handle_upload, handle_cancel,
}
use localsend_nas.LsServer.Steps.{
  Request, registers, prepares, finishes, receives, stops, Requests, idle, next, register_receiver,
}

module _ {D : Type 0} (host : Host D) (shares : Shares.Store) where
  -- Read-only mode: the server never gets a receiver, and nothing is written.
  pub record IsUntouched (d : D) (s' : Server) (d' : D) : Type 0 where
    pub no_receiver : s'.receiver ≡ none
    pub same_disk : d' ≡ d

  Request-IsUntouched :
      (s : Server) (d d' : D) (s' : Server)
      → Request host shares s d s' d'
      → s.receiver ≡ none
      → IsUntouched d s' d'
  unfolding handle_prepare_upload finish_prepare_upload handle_upload handle_cancel
  Request-IsUntouched _ _ _ _ (registers now body address s d) e = record {
    no_receiver = register_receiver host shares now body address s ∙ e;
    same_disk = refl;
  }
  Request-IsUntouched _ _ _ _ (prepares crypto id now body address certs s d) e =
      rw (handle_prepare_upload, e) (record { no_receiver = e; same_disk = refl })
  Request-IsUntouched _ _ _ _ (finishes new_id settings session wake s m1 d q known ready) e =
      cc (sym q ∙ e)
  Request-IsUntouched _ _ _ _ (receives fuel sid fid token body s s' d d' r h u) e =
      let done = some-injective _ _ (rw (handle_upload, e) at u) in
      rw (sym (ap (λ x. x.1) done), sym (ap (λ x. x.2) done))
        (record { no_receiver = e; same_disk = refl })
  Request-IsUntouched _ _ _ _ (stops sid s d) e =
      rw (handle_cancel, e) (record { no_receiver = e; same_disk = refl })

  -- In read-only mode no sequence of requests of other devices writes to the disk or brings a
  -- receiver into being.
  pub Requests-IsUntouched :
      (s : Server) (d d' : D) (s' : Server)
      → Requests host shares s d s' d'
      → s.receiver ≡ none
      → IsUntouched d s' d'
  Requests-IsUntouched _ _ _ _ (idle s d) e = record { no_receiver = e; same_disk = refl }
  Requests-IsUntouched _ _ _ _ (next s s1 s' d d1 d' h hs) e =
      let first = Request-IsUntouched s d d1 s1 h e in
      let rest = Requests-IsUntouched s1 d1 d' s' hs first.no_receiver in
      record { no_receiver = rest.no_receiver; same_disk = rest.same_disk ∙ first.same_disk }
