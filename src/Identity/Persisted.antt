-- ===== src/Identity/Persisted.antt =====
-- `Load` of internal/identity/identity.go across restarts.
use localsend_nas.Prelude.{
  ℕ, [], ◌∷◌, none, Str, ok, bind-eq-ok, ok-injective, Result-cases, Option-cases, ◌≡◌, refl, sym,
  ap, ◌∙◌, inl, inr,
}
use localsend_nas.Host.{Host, not_exist, other, FileLaws, AreSeparate}
use localsend_nas.Identity.{
  Certificate, Template, template, Identity, Crypto, cert_path, key_path, generate, identify, save,
  load_key_pair, load, saved, written_key,
}

-- A certificate that was created with a key, and the key: they are a pair for tls.X509KeyPair, which
-- refuses a certificate of another key.
pub record PairLaws (crypto : Crypto) : Type 0 where
  pub pair :
      (t : Template) (private_key der key : Str)
      → crypto.generate_key ≡ ok private_key
      → crypto.create_certificate t private_key ≡ ok der
      → crypto.marshal_key private_key ≡ ok key
      → crypto.key_pair (crypto.pem_certificate der) (crypto.pem_key key)
        ≡ ok (record { chain = der ∷ []; private_key = private_key })

-- The certificate was created with the key, which was generated.
record Created (crypto : Crypto) (der private_key : Str) : Type 0 where
  template : Template
  generated : crypto.generate_key ≡ ok private_key
  created : crypto.create_certificate template private_key ≡ ok der

module _ (crypto : Crypto) {D : Type 0} (host : Host D) where
  load-reused :
      (now : ℕ) (dir : Str) (d : D) (cert : Certificate)
      → load_key_pair crypto host d (cert_path dir) (key_path dir) ≡ ok cert
      → load crypto host now dir (none, d) ≡ (identify crypto (cert_path dir) cert, d)
  unfolding load
  load-reused now dir d cert h = rw (h, load) refl

  module _ (files : FileLaws host) (pairs : PairLaws crypto) where
    read_back :
        (dir der pk key : Str) (d d1 d2 : D)
        → AreSeparate host (key_path dir) (cert_path dir)
        → Created crypto der pk
        → crypto.marshal_key pk ≡ ok key
        → host.write_file d (cert_path dir) (crypto.pem_certificate der) ≡ (none, d1)
        → host.write_file d1 (key_path dir) (crypto.pem_key key) ≡ (none, d2)
        → load_key_pair crypto host d2 (cert_path dir) (key_path dir)
          ≡ ok (record { chain = der ∷ []; private_key = pk })
    read_back dir der pk key d d1 d2 h c q w1 w2 =
        rw
          (
            h.read_other d1 d2 _ none w2,
            files.read-write d d1 (cert_path dir) _ w1,
            files.read-write d1 d2 (key_path dir) _ w2,
            pairs.pair c.template pk der key c.generated c.created q,
          )
          refl

    -- A key pair that was saved is read back.
    load_key_pair-save :
        (dir der pk : Str) (d d' : D)
        → AreSeparate host (key_path dir) (cert_path dir)
        → Created crypto der pk
        → save crypto host
            (cert_path dir)
            (key_path dir)
            (record { chain = der ∷ []; private_key = pk })
            d
          ≡ (none, d')
        → load_key_pair crypto host d' (cert_path dir) (key_path dir)
          ≡ ok (record { chain = der ∷ []; private_key = pk })
    unfolding save
    load_key_pair-save dir der pk d d' h c e = elim (Result-cases (crypto.marshal_key pk)) [
      | inr (bad, q) ↦ cc (e, rw (q, save) at e)
      | inl (key, q) ↦
          elim (Option-cases (host.write_file d (cert_path dir) (crypto.pem_certificate der)).0) [
            | inr (bad, k) ↦ cc (e, rw (q, save, k) at e)
            | inl k ↦
                let d1 = (host.write_file d (cert_path dir) (crypto.pem_certificate der)).1 in
                elim (Option-cases (host.write_file d1 (key_path dir) (crypto.pem_key key)).0) [
                  | inr (bad, k2) ↦ cc (e, rw (q, save, k, written_key, k2) at e)
                  | inl k2 ↦
                      let same = ap (λ x. x.1) (rw (q, save, k, written_key, k2) at e) in
                      read_back dir der pk key d d1 d' h c q (λ i. (k i, d1)) (λ i. (k2 i, same i))
                ]
          ]
    ]

    generated :
        (now : ℕ) (cert : Certificate)
        → generate crypto now ≡ ok cert
        → (der : Str) × (pk : Str) × Created crypto der pk
          × (record { chain = der ∷ []; private_key = pk } ≡ cert)
    unfolding generate
    generated now cert h =
        let (key, e1, e2) = bind-eq-ok crypto.generate_key _ h in
        let (serial, e3, e4) = bind-eq-ok crypto.random_serial _ e2 in
        let (der, e5, e6) = bind-eq-ok (crypto.create_certificate _ key) _ e4 in
        (
          der,
          key,
          record { template = template now serial; generated = e1; created = e5 },
          ok-injective e6,
        )

    -- Where files read back as written, the paths of the certificate and the key lead to files of
    -- their own, and tls.X509KeyPair reads a certificate with the key that it was created with: an
    -- identity that `Load` returned, reused or new, is what every later `Load` returns, and the disk
    -- is left alone then.
    pub load-load :
        (now later : ℕ) (dir : Str) (d d' : D) (id : Identity)
        → AreSeparate host (key_path dir) (cert_path dir)
        → load crypto host now dir (none, d) ≡ (ok id, d')
        → load crypto host later dir (none, d') ≡ (ok id, d')
    unfolding load
    load-load now later dir d d' id h e =
        elim (Result-cases (load_key_pair crypto host d (cert_path dir) (key_path dir))) [
          | inl (cert, q) ↦
              let loaded = sym (load-reused now dir d cert q) ∙ e in
              let same : d ≡ d' = ap (λ x. x.1) loaded in
              rw (sym same) (load-reused later dir d cert q ∙ (λ i. ((loaded i).0, d)))
          | inr (other bad, q) ↦ cc (e, rw (q, load) at e)
          | inr (not_exist, q) ↦ elim (Result-cases (generate crypto now)) [
            | inr (bad, g) ↦ cc (e, rw (q, load, g) at e)
            | inl (cert, g) ↦
                let (der, pk, made, shape) = generated now cert g in
                elim (Option-cases (save crypto host (cert_path dir) (key_path dir) cert d).0) [
                  | inr (bad, k) ↦ cc (e, rw (q, load, g, saved, k) at e)
                  | inl k ↦
                      let ends : (
                        identify crypto (cert_path dir) cert,
                        (save crypto host (cert_path dir) (key_path dir) cert d).1,
                      )
                          ≡ (ok id, d') =
                        rw (q, load, g, saved, k) at e in
                      let kept : save crypto host (cert_path dir) (key_path dir) cert d
                          ≡ (none, d') =
                        λ i. (k i, (ends i).1) in
                      let held = load_key_pair-save dir der pk d d' h made (rw shape kept) in
                      load-reused later dir d' cert (rw⁻¹ shape held) ∙ (λ i. ((ends i).0, d'))
                ]
          ]
        ]
