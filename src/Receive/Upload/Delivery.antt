-- ===== src/Receive/Upload/Delivery.antt =====
-- `Upload` of internal/receive/receive.go from the request to the file on the disk.
use mathlib.Core.Option.{some-injective}
use localsend_nas.Prelude.{
  ℕ, List, [], ◌++◌, Option, none, some, Str, IsInt64, pos, length, All, Result, ok, err,
  Option-cases, ◌≡◌, refl, sym, ap, ◌∙◌, inl, inr,
}
use localsend_nas.Filepath.{split_file}
use localsend_nas.Host.{Host, OsError, DiskLaws}
use localsend_nas.Shares
use localsend_nas.Receive.{Fault, File, Session, Manager}
use localsend_nas.Receive.Paths.{sanitize_rel_path, claim_final_path}
use localsend_nas.Receive.Upload.{
  Flight, Begun, Read, admit, begin, locate, enter, place, opened, part_suffix,
}
use localsend_nas.Receive.Upload.Place.{made_in}
use localsend_nas.Receive.Upload.Lands.{begin-eq-locate}
use localsend_nas.Receive.Upload.Stream.{receive, upload}
use localsend_nas.Receive.Upload.Outcome.{delivered, Spares, receive-Delivers}

module _ {D : Type 0} (host : Host D) (content : D → Str → Option Str)
    (laws : DiskLaws host content) (fuel : ℕ) where
  -- The partial is empty, and the size is the declared one.
  record Fresh (f : File) (fl : Flight) (d : D) : Type 0 where
    pub empty : content d fl.part ≡ some []
    pub size : fl.size ≡ f.dto.size

  opened-Fresh :
      (f : File) (fl fl' : Flight) (m m' : Manager) (d d' : D) (x : Option OsError × D)
      → host.create d fl.part ≡ x
      → fl.size ≡ f.dto.size
      → ◌≡◌ {A = Begun D} (opened host fl m x) (ok fl', m', d')
      → Fresh f fl' d'
  opened-Fresh f fl fl' m m' d d' (some e, d1) q z h = cc
  opened-Fresh f fl fl' m m' d d' (none, d1) q z h =
      let made = laws.content-create d d1 fl.part q in
      let same : fl ≡ fl' = cc in
      let at : d1 ≡ d' = cc in record { empty = rw (sym same, sym at) made; size = rw (sym same) z }

  place-Fresh :
      (s : Session) (fid : Str) (f : File) (dest base : Str) (m m' : Manager) (d d' : D)
      (fl : Flight)
      → place host fuel s fid f dest base m d ≡ some (ok fl, m', d')
      → Fresh f fl d'
  unfolding place
  place-Fresh s fid f dest base m m' d d' fl h =
      elim (Option-cases (claim_final_path host fuel s.id d m dest base)) [
        | inl e ↦ cc (e, rw (e, place) at h)
        | inr ((p, m1), e) ↦
            let fl1 : Flight = record {
              session = s.id;
              file = fid;
              final = p;
              part = p ++ part_suffix;
              size = f.dto.size;
            } in
            opened-Fresh f fl1 fl m1 m' d d' (host.create d (p ++ part_suffix)) refl refl
              (some-injective _ _ (rw (e, place) at h))
      ]

  enter-Fresh :
      (s : Session) (fid : Str) (f : File) (base : Str) (m m' : Manager) (d' : D) (fl : Flight)
      (made : Result Shares.ShareError Str × D)
      → enter host fuel s fid f base m made ≡ some (ok fl, m', d')
      → Fresh f fl d'
  unfolding enter
  enter-Fresh s fid f base m m' d' fl (err e, d) h = cc
  enter-Fresh s fid f base m m' d' fl (ok dest, d) h = place-Fresh s fid f dest base m m' d d' fl h

  locate-Fresh :
      (shares : Shares.Store) (s : Session) (fid : Str) (f : File) (m m' : Manager) (d d' : D)
      (fl : Flight) (r : Result Shares.ShareError Str)
      → locate host fuel shares s fid f m d r ≡ some (ok fl, m', d')
      → Fresh f fl d'
  unfolding locate
  locate-Fresh shares s fid f m m' d d' fl (err e) h = cc
  locate-Fresh shares s fid f m m' d d' fl (ok rel) h =
      enter-Fresh s fid f (split_file rel).1 m m' d' fl (made_in host fuel shares s rel d) h

  -- On a system whose files keep what is written to them (DiskLaws): an upload that is answered by
  -- 200, of a file whose declared size is an int64, while the other requests leave its partial
  -- alone, has at its final path exactly the bytes that the sender's body delivered, which are as
  -- many as declared.
  pub upload-delivers :
      (shares : Shares.Store) (sid fid token : Str) (body : List (Read D)) (m m1 m2 : Manager)
      (d d1 d2 : D) (s : Session) (f : File) (fl : Flight) (e : Option Fault)
      → admit sid fid token m ≡ ok (s, f)
      → IsInt64 f.dto.size
      → begin host fuel shares sid fid token m d ≡ some (ok fl, m1, d1)
      → All (Spares host content laws fl.part) body
      → upload host fuel shares sid fid token body m d ≡ some ((200, e), m2, d2)
      → (content d2 fl.final ≡ some (delivered body)) × (pos (length (delivered body)) ≡ f.dto.size)
  unfolding upload
  upload-delivers shares sid fid token body m m1 m2 d d1 d2 s f fl e a i b sp u =
      let fresh =
        locate-Fresh shares s fid f m m1 d d1 fl (sanitize_rel_path f.dto.file_name)
          (sym (begin-eq-locate host fuel shares sid fid token m d a) ∙ b) in
      let end : receive host fl body m1 d1 ≡ ((200, e), m2, d2) =
        some-injective _ _ (rw (b, upload) at u) in
      let (there, size) =
        receive-Delivers host content laws fl body m1 d1 sp fresh.empty (rw fresh.size i)
          (ap (λ x. x.0.0) end) in
      (ap (λ x. content x.2 fl.final) (sym end) ∙ there, size ∙ fresh.size)
