-- ===== src/Identity.antt =====
-- internal/identity/identity.go: the node's certificate, whose hash is its fingerprint. The packages
-- crypto, x509 and pem are parameters; tls.LoadX509KeyPair reads its two files with os.ReadFile.
pub mod Fingerprint
pub mod Persisted
use localsend_nas.Prelude.{
  ℕ, ◌+◌, ◌-◌, ◌*◌, List, [], ◌∷◌, Option, none, some, Str, codes, hex, to_upper, Result, ok, err,
  ◌>>=◌, map_err,
}
use localsend_nas.Filepath.{join_path}
use localsend_nas.Host.{Host, OsError, not_exist, other}

-- tls.Certificate: the chain in DER, the node's own first, and the private key.
pub record Certificate : Type 0 where
  pub chain : List Str
  pub private_key : Str

pub record Identity : Type 0 where
  pub cert : Certificate
  pub fingerprint : Str

pub data Usage : Type 0 where
  digital_signature server_auth client_auth : Usage

-- The template of a new certificate; times are in nanoseconds.
pub record Template : Type 0 where
  pub serial_number : Str
  pub common_name : Str
  pub not_before : ℕ
  pub not_after : ℕ
  pub key_usage : Usage
  pub ext_key_usage : List Usage

pub data IdentityError : Type 0 where
  create_dir : OsError → IdentityError
  generate_failed : Str → IdentityError
  persist_failed : Str → IdentityError
  write_failed : OsError → IdentityError
  load_failed : OsError → IdentityError
  no_der_data : Str → IdentityError

-- What the program calls of crypto/ecdsa, crypto/rand, crypto/sha256, crypto/x509 and encoding/pem.
pub record Crypto : Type 0 where
  pub sha256 : Str → Str
  pub generate_key : Result Str Str
  pub random_serial : Result Str Str
  pub create_certificate : Template → Str → Result Str Str
  pub marshal_key : Str → Result Str Str
  pub pem_certificate : Str → Str
  pub pem_key : Str → Str
  -- tls.X509KeyPair
  pub key_pair : Str → Str → Result Str Certificate

pub data ClientAuth : Type 0 where
  request_client_cert : ClientAuth

pub record TlsConfig : Type 0 where
  pub certificates : List Certificate
  pub min_version : ℕ
  pub client_auth : ClientAuth

abbrev pub version_tls12 : ℕ
version_tls12 = 0x0303

-- TLSConfig
abbrev pub tls_config : Identity → TlsConfig
tls_config id = record {
  certificates = id.cert ∷ [];
  min_version = version_tls12;
  client_auth = request_client_cert;
}

abbrev pub cert_path : Str → Str
cert_path dir = join_path (dir ∷ codes "cert.pem" ∷ [])

abbrev pub key_path : Str → Str
key_path dir = join_path (dir ∷ codes "key.pem" ∷ [])

abbrev pub hour : ℕ
hour = 3600 * 1000000000

abbrev pub template : ℕ → Str → Template
template now serial = record {
  serial_number = serial;
  common_name = codes "localsend-nas";
  not_before = now - hour;
  not_after = now + 10 * 365 * 24 * hour;
  key_usage = digital_signature;
  ext_key_usage = server_auth ∷ client_auth ∷ [];
}

module _ (crypto : Crypto) where
  -- The fingerprint of a certificate in DER: its SHA-256 in upper-case hexadecimal.
  unfoldable pub fingerprint_of : Str → Str
  unfolding to_upper hex
  fingerprint_of der = to_upper (hex (crypto.sha256 der))

  -- generate, at the given time.
  unfoldable pub generate : ℕ → Result Str Certificate
  generate now = do
    key ← crypto.generate_key
    serial ← crypto.random_serial
    der ← crypto.create_certificate (template now serial) key
    ok (record { chain = der ∷ []; private_key = key })

  -- The end of `Load`.
  unfoldable pub identify : Str → Certificate → Result IdentityError Identity
  unfolding fingerprint_of
  identify path cert = elim cert.chain [
    | [] ↦ err (no_der_data path)
    | der ∷ _ ↦ ok (record { cert = cert; fingerprint = fingerprint_of der })
  ]

  module _ {D : Type 0} (host : Host D) where
    abbrev pub written_key : Str → Str → Option OsError × D → Option IdentityError × D
    written_key path bytes (some e, d) = (some (write_failed e), d)
    written_key path bytes (none, d) = elim (host.write_file d path bytes).0 [
      | some e ↦ (some (write_failed e), (host.write_file d path bytes).1)
      | none ↦ (none, (host.write_file d path bytes).1)
    ]

    -- save: the certificate, then the key.
    unfoldable pub save : Str → Str → Certificate → D → Option IdentityError × D
    save cert_file key_file cert d = elim cert.chain [
      | [] ↦ (some (persist_failed (codes "no certificate")), d)
      | der ∷ _ ↦ elim (crypto.marshal_key cert.private_key) [
        | err e ↦ (some (persist_failed e), d)
        | ok key ↦
            written_key key_file (crypto.pem_key key)
              (host.write_file d cert_file (crypto.pem_certificate der))
      ]
    ]

    -- tls.LoadX509KeyPair
    abbrev pub load_key_pair : D → Str → Str → Result OsError Certificate
    load_key_pair d cert_file key_file = do
      cert ← host.read_file d cert_file
      key ← host.read_file d key_file
      map_err other (crypto.key_pair cert key)

    -- `Load` from a new certificate on.
    abbrev pub saved :
        Str → Certificate → Option IdentityError × D → Result IdentityError Identity × D
    saved path cert (some e, d) = (err e, d)
    saved path cert (none, d) = (identify path cert, d)

    -- Load; `made` is what os.MkdirAll leaves.
    unfoldable pub load : ℕ → Str → Option OsError × D → Result IdentityError Identity × D
    unfolding generate identify save
    load now dir (some e, d) = (err (create_dir e), d)
    load now dir (none, d) = elim (load_key_pair d (cert_path dir) (key_path dir)) [
      | ok cert ↦ (identify (cert_path dir) cert, d)
      | err (other e) ↦ (err (load_failed (other e)), d)
      | err not_exist ↦ elim (generate now) [
        | err e ↦ (err (generate_failed e), d)
        | ok cert ↦ saved (cert_path dir) cert (save (cert_path dir) (key_path dir) cert d)
      ]
    ]
