-- ===== src/Receive/Upload/Returns.antt =====
-- `Upload` of internal/receive/receive.go returns.
use localsend_nas.Prelude.{
  ℕ, ◌<◌, true, List, [], ◌∷◌, some, Str, Result, ok, trim_suffix, Result-cases, ◌≡◌, refl, inl,
  inr,
}
use localsend_nas.Filepath.{slash, split_file}
use localsend_nas.Host.{Host}
use localsend_nas.Shares
use localsend_nas.Shares.Write.{ensure_dir}
use localsend_nas.Receive.{Manager, Session, File}
use localsend_nas.Receive.Paths.{is_free, sanitize_rel_path}
use localsend_nas.Receive.Paths.Claim.{candidate, claim_final_path-returns}
use localsend_nas.Receive.Upload.{Begun, Read, admit, place, enter, locate, begin}
use localsend_nas.Receive.Upload.Stream.{Response, continued, upload}

module _ {D : Type 0} (host : Host D) (fuel : ℕ) (shares : Shares.Store) where
  -- One of the names that the search tries within the fuel is free.
  pub record HasFree (sid : Str) (m : Manager) (d : D) (dir base : Str) : Type 0 where
    pub index : ℕ
    pub below : index < fuel
    pub free : is_free host d m (candidate host sid d m dir base index) ≡ true

  -- The directory into which the file of a name goes, and the system once it is made.
  abbrev pub made_dir_of : Session → Str → D → Result Shares.ShareError Str × D
  made_dir_of s rel d =
      ensure_dir host d shares s.dest_share (trim_suffix (split_file rel).0 (slash ∷ []))

  -- Wherever the upload goes, it finds a name.
  pub record HasRoom (sid fid token : Str) (m : Manager) (d : D) : Type 0 where
    pub room :
        (s : Session) (f : File) (rel dir : Str)
        → admit sid fid token m ≡ ok (s, f)
        → sanitize_rel_path f.dto.file_name ≡ ok rel
        → (made_dir_of s rel d).0 ≡ ok dir
        → HasFree s.id m (made_dir_of s rel d).1 dir (split_file rel).1

  place-returns :
      (s : Session) (fid : Str) (f : File) (dir base : Str) (m : Manager) (d : D)
      → HasFree s.id m d dir base
      → (b : Begun D) × (place host fuel s fid f dir base m d ≡ some b)
  unfolding place
  place-returns s fid f dir base m d h =
      let (p, m', e) =
        claim_final_path-returns host s.id d m dir base fuel h.index h.below h.free in
      rw (e, place) (_, refl)

  begin-returns :
      (sid fid token : Str) (m : Manager) (d : D)
      → HasRoom sid fid token m d
      → (b : Begun D) × (begin host fuel shares sid fid token m d ≡ some b)
  unfolding begin locate enter
  begin-returns sid fid token m d h = elim (Result-cases (admit sid fid token m)) [
    | inr (e, q) ↦ rw (q, begin) (_, refl)
    | inl ((s, f), q) ↦ elim (Result-cases (sanitize_rel_path f.dto.file_name)) [
      | inr (e, k) ↦ rw (q, begin, k, locate) (_, refl)
      | inl (rel, k) ↦ elim (Result-cases (made_dir_of s rel d).0) [
        | inr (e, g) ↦ rw (q, begin, k, locate, g, enter) (_, refl)
        | inl (dir, g) ↦
            let (b, p) =
              place-returns s fid f dir (split_file rel).1 m (made_dir_of s rel d).1
                (h.room s f rel dir q k g) in
            rw (q, begin, k, locate, g, enter) (b, p)
      ]
    ]
  ]

  -- An upload is answered, whatever the guards say and wherever it fails, if among the names that
  -- the search tries within the fuel one is free in the directory that `EnsureDir` gives.
  pub upload-returns :
      (sid fid token : Str) (body : List (Read D)) (m : Manager) (d : D)
      → HasRoom sid fid token m d
      → (r : Response) × (m' : Manager) × (d' : D) × (upload host fuel shares sid fid token body m d
          ≡ some (r, m', d'))
  unfolding upload
  upload-returns sid fid token body m d h =
      let (b, e) = begin-returns sid fid token m d h in
      let (r, m', d') = continued host body b in (r, m', d', rw (e, upload) refl)
