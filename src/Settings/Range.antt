-- ===== src/Settings/Range.antt =====
-- The countdown stays in its range, and settings survive a restart.
use localsend_nas.Prelude.{
  Option, none, some, Str, pos, ◌≤ℤ◌, ok, err, ◌≡◌, sym, ap, ◌∙◌, ◌⊎◌, inl, inr, refl, arith,
  Result-cases,
}
use localsend_nas.Host.{Host, OsError, not_exist, other, FileLaws}
use localsend_nas.Settings.{
  Settings, Store, Codec, SettingsError, encode_failed, write_failed, clamp, settings_path, load,
  written, update, min_accept_timeout_sec, max_accept_timeout_sec,
}

-- The countdown in seconds is within 5 to 300.
pub record InRange (s : Settings) : Type 0 where
  pub low : pos min_accept_timeout_sec ≤ℤ s.accept_timeout_sec
  pub high : s.accept_timeout_sec ≤ℤ pos max_accept_timeout_sec

-- `clamp` brings any settings into range and never touches the other fields.
pub clamp-InRange :
    (s : Settings)
    → InRange (clamp s)
      × ((clamp s).dropbox_share ≡ s.dropbox_share)
      × ((clamp s).show_nas_noise ≡ s.show_nas_noise)
unfolding clamp
clamp-InRange s = (ground arith, ground arith, ground arith)

-- Settings in range are left as they are.
clamp_of_InRange : (s : Settings) → InRange s → clamp s ≡ s
unfolding clamp
clamp_of_InRange s h = ground arith

-- The JSON codec reads what it wrote.
pub record CodecLaws (json : Codec) : Type 0 where
  pub decode-encode :
      (s : Settings) (bytes : Str) → json.encode s ≡ ok bytes → json.decode bytes ≡ ok s

module _ {D : Type 0} (host : Host D) (json : Codec) where
  -- Settings that `Load` accepts are in range, whatever the file holds.
  pub load-InRange : (d : D) (dir : Str) {st : Store} → load host json d dir ≡ ok st → InRange st.s
  unfolding load
  load-InRange d dir {st} h = elim (Result-cases (host.read_file d (settings_path dir))) [
    | inr (not_exist, e) ↦ ground arith
    | inr (other m, e) ↦ ground arith
    | inl (bytes, e) ↦ elim (Result-cases (json.decode bytes)) [
      | inr (m, k) ↦ ground arith
      | inl (s, k) ↦ ground (arith, (clamp-InRange s).0)
    ]
  ]

  -- The file that `update` wrote loads as the store that it left.
  load-written :
      (d d' : D) (dir : Str) (s : Settings) (bytes : Str)
      → FileLaws host
      → CodecLaws json
      → json.encode (clamp s) ≡ ok bytes
      → host.write_file d (settings_path dir) bytes ≡ (none, d')
      → load host json d' dir ≡ ok (record { path = settings_path dir; s = clamp s })
  unfolding load
  load-written d d' dir s bytes files laws e w =
      rw (files.read-write d d' (settings_path dir) bytes w, load)
        (rw (laws.decode-encode (clamp s) bytes e)
          (rw (clamp_of_InRange (clamp s) (clamp-InRange s).0)))

  update-eq-written :
      (d : D) (st : Store) (input : Settings) (bytes : Str) {w : Option OsError × D}
      → json.encode (clamp input) ≡ ok bytes
      → host.write_file d st.path bytes ≡ w
      → update host json d st input ≡ written host json st (clamp input) w
  unfolding update
  update-eq-written d st input bytes e w =
      rw (e, update) (ap (written host json st (clamp input)) w)

  -- Where files read back as written and the codec decodes what it encoded, for a store at the path
  -- of its directory: an update that succeeds returns the clamped settings, keeps them in the
  -- store, and a later start loads a store equal to it; one that fails leaves the store as it was.
  pub load-update :
      (d : D) (dir : Str) (st : Store) (input : Settings)
      → FileLaws host
      → CodecLaws json
      → st.path ≡ settings_path dir
      → let (r, st', d') = update host json d st input in
        ((r ≡ ok (clamp input)) × (st'.s ≡ clamp input) × (load host json d' dir ≡ ok st'))
        ⊎ ((e : SettingsError) × (r ≡ err e) × (st' ≡ st))
  unfolding update
  load-update d dir st input files laws path = elim (Result-cases (json.encode (clamp input))) [
    | inr (m, e) ↦ inr (encode_failed m, rw (e, update), rw (e, update))
    | inl (bytes, e) ↦ outcome bytes e (host.write_file d st.path bytes) refl
  ]
    where
      outcome :
          (bytes : Str)
          → json.encode (clamp input) ≡ ok bytes
          → (w : Option OsError × D) → host.write_file d st.path bytes ≡ w
          → let (r, st', d') = update host json d st input in
            ((r ≡ ok (clamp input)) × (st'.s ≡ clamp input) × (load host json d' dir ≡ ok st'))
            ⊎ ((e : SettingsError) × (r ≡ err e) × (st' ≡ st))
      outcome bytes e (some x, d') w =
          rw (update-eq-written d st input bytes e w) (inr (write_failed x, refl, refl))
      outcome bytes e (none, d') w = rw (update-eq-written d st input bytes e w) (
          inl (
            refl,
            refl,
            load-written d d' dir input bytes files laws e
                  (ap (λ p. host.write_file d p bytes) (sym path) ∙ w)
                ∙ ap (λ p. ok (record { path = p; s = clamp input })) (sym path),
          ))
