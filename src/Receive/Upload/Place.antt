-- ===== src/Receive/Upload/Place.antt =====
-- Where `Upload` of internal/receive/receive.go writes.
use mathlib.Core.Path.{subst}
use mathlib.Core.Option.{some-injective}
use localsend_nas.Prelude.{
  ℕ, true, List, [], ◌∷◌, ◌++◌, Option, none, some, Str, split, join, str_eq, replace_byte,
  trim_suffix, All, Result, ok, err, Option-cases, ◌≡◌, ◌≢◌, refl, sym, ap, ◌∙◌, inl, inr,
}
use localsend_nas.Filepath.{slash, clean_from, split_file}
use localsend_nas.Filepath.Descend.{
  IsPlain, split-ne-nil, join-cons, split-descend, split-NoSlash, All-IsPlain-NoSlash,
}
use localsend_nas.Filepath.Laws.{clean_from-nil, clean_from_of_IsPlain}
use localsend_nas.Filepath.SplitFile.{split_file-Splits, trim_suffix-dir_of}
use localsend_nas.Host.{Host, OsError}
use localsend_nas.Shares
use localsend_nas.Shares.Sanitize.{IsSafe}
use localsend_nas.Shares.Confine.{rel_names}
use localsend_nas.Shares.Write.{ensure_dir}
use localsend_nas.Receive.{File, Session, Manager}
use localsend_nas.Receive.Paths.{sanitize_rel_path, claim_final_path}
use localsend_nas.Receive.Paths.Names.{name_parts, sanitize_rel_path_iff}
use localsend_nas.Receive.Upload.{Flight, Begun, locate, enter, place, opened, part_suffix}

-- The directory names of an accepted name, whose result is `rel`.
pub record Named (name rel : Str) : Type 0 where
  pub dirs : List Str
  pub parts : name_parts name ≡ dirs ++ (split_file rel).1 ∷ []
  pub safe : All IsSafe (name_parts name)
  pub dir_part : trim_suffix (split_file rel).0 (slash ∷ []) ≡ join slash dirs

pub safe-IsPlain : (ps : List Str) → All IsSafe ps → All IsPlain ps
safe-IsPlain [] h = tt
safe-IsPlain (p ∷ ps) (h, hs) = (h.plain, safe-IsPlain ps hs)

-- Splitting what was joined gives the parts.
pub split-join : (ps : List Str) → ps ≢ [] → All IsPlain ps → split slash (join slash ps) ≡ ps
split-join [] n h = absurd (n refl)
split-join (p ∷ ps) n h =
    ap (split slash) (join-cons p ps)
    ∙ split-descend p ps (All-IsPlain-NoSlash ps h.1)
    ∙ ap (λ q. q ++ ps) (split-NoSlash p h.0.no_slash)

split-slash : (s : Str) → split slash (slash ∷ s) ≡ [] ∷ split slash s
unfolding split
split-slash s = refl

-- The names of a path that was joined from plain names.
pub rel_names-join : (ps : List Str) → All IsPlain ps → rel_names (join slash ps) ≡ ps
unfolding clean_from join split str_eq
rel_names-join [] h = refl
rel_names-join (p ∷ ps) h =
    ap (clean_from true [])
      (split-slash (join slash (p ∷ ps)) ∙ ap (λ q. [] ∷ q) (split-join (p ∷ ps) (λ e. cc) h))
    ∙ clean_from-nil (p ∷ ps)
    ∙ clean_from_of_IsPlain true [] (p ∷ ps) h

pub sanitize-Named : {name rel : Str} → sanitize_rel_path name ≡ ok rel → Named name rel
sanitize-Named {name} {rel} h =
    let a = (sanitize_rel_path_iff name rel).0 h in
    let sp = split_file-Splits rel in
    record {
      dirs = sp.parts;
      parts =
          sym (
            split-join (name_parts name) (split-ne-nil (replace_byte 0x5c slash name))
              (safe-IsPlain (name_parts name) a.safe))
          ∙ sym (ap (split slash) a.result)
          ∙ sp.all_parts;
      safe = a.safe;
      dir_part = ap (λ t. trim_suffix t (slash ∷ [])) sp.dir ∙ trim_suffix-dir_of sp.parts;
    }

All-left : (xs ys : List Str) → All IsPlain (xs ++ ys) → All IsPlain xs × All IsPlain ys
All-left [] ys h = (tt, h)
All-left (x ∷ xs) ys (h, hs) = let (l, r) = All-left xs ys hs in ((h, l), r)

pub Named-IsPlain :
    {name rel : Str} (n : Named name rel) → All IsPlain n.dirs × IsPlain (split_file rel).1
Named-IsPlain {name} {rel} n =
    let (l, r) =
      All-left n.dirs ((split_file rel).1 ∷ [])
        (subst (All IsPlain) n.parts (safe-IsPlain (name_parts name) n.safe)) in
    (l, r.0)

-- The flight of a claimed destination.
pub record Flies (s : Session) (fid : Str) (f : File) (final : Str) (fl : Flight) : Type 0 where
  pub session : fl.session ≡ s.id
  pub file : fl.file ≡ fid
  pub final_path : fl.final ≡ final
  pub part_path : fl.part ≡ final ++ part_suffix
  pub size : fl.size ≡ f.dto.size

module _ {D : Type 0} (host : Host D) (fuel : ℕ) where
  -- The directories of a name are made.
  abbrev pub made_in : Shares.Store → Session → Str → D → Result Shares.ShareError Str × D
  made_in shares s rel d =
      ensure_dir host d shares s.dest_share (trim_suffix (split_file rel).0 (slash ∷ []))

  opened-flight :
      (fl fl' : Flight) (m m' : Manager) (d' : D) (w : Option OsError × D)
      → ◌≡◌ {A = Begun D} (opened host fl m w) (ok fl', m', d')
      → fl' ≡ fl
  opened-flight fl fl' m m' d' (some e, d) h = cc
  opened-flight fl fl' m m' d' (none, d) h = cc

  -- From the destination directory on.
  place-Flies :
      (s : Session) (fid : Str) (f : File) (dest base : Str) (m m' : Manager) (d d' : D)
      (fl : Flight)
      → place host fuel s fid f dest base m d ≡ some (ok fl, m', d')
      → (p : Str) × (m1 : Manager) × (claim_final_path host fuel s.id d m dest base ≡ some (p, m1))
        × Flies s fid f p fl
  unfolding place
  place-Flies s fid f dest base m m' d d' fl h =
      elim (Option-cases (claim_final_path host fuel s.id d m dest base)) [
        | inl e ↦ cc (e, rw (e, place) at h)
        | inr ((p, m1), e) ↦
            let fl1 : Flight = record {
              session = s.id;
              file = fid;
              final = p;
              part = p ++ part_suffix;
              size = f.dto.size;
            } in
            let same : fl ≡ fl1 =
              opened-flight fl1 fl m1 m' d' (host.create d (p ++ part_suffix))
                (some-injective _ _ (rw (e, place) at h)) in
            (
              p,
              m1,
              e,
              rw same (record {
                session = refl;
                file = refl;
                final_path = refl;
                part_path = refl;
                size = refl;
              }),
            )
      ]

  enter-Flies :
      (s : Session) (fid : Str) (f : File) (base : Str) (m m' : Manager) (d' : D) (fl : Flight)
      (made : Result Shares.ShareError Str × D)
      → enter host fuel s fid f base m made ≡ some (ok fl, m', d')
      → (dest : Str) × (p : Str) × (m1 : Manager) × (made.0 ≡ ok dest)
        × (claim_final_path host fuel s.id made.1 m dest base ≡ some (p, m1))
        × Flies s fid f p fl
  unfolding enter
  enter-Flies s fid f base m m' d' fl (err e, d) h = cc
  enter-Flies s fid f base m m' d' fl (ok dest, d) h =
      let (p, m1, claimed, flies) = place-Flies s fid f dest base m m' d d' fl h in
      (dest, p, m1, refl, claimed, flies)

  pub locate-Flies :
      (shares : Shares.Store) (s : Session) (fid : Str) (f : File) (m m' : Manager) (d d' : D)
      (fl : Flight) (r : Result Shares.ShareError Str)
      → locate host fuel shares s fid f m d r ≡ some (ok fl, m', d')
      → (rel : Str) × (dest : Str) × (p : Str) × (m1 : Manager) × (r ≡ ok rel)
        × ((made_in shares s rel d).0 ≡ ok dest)
        × (claim_final_path host fuel s.id (made_in shares s rel d).1 m dest (split_file rel).1
            ≡ some (p, m1))
        × Flies s fid f p fl
  unfolding locate
  locate-Flies shares s fid f m m' d d' fl (err e) h = cc
  locate-Flies shares s fid f m m' d d' fl (ok rel) h =
      let (dest, p, m1, made, claimed, flies) =
        enter-Flies s fid f (split_file rel).1 m m' d' fl (made_in shares s rel d) h in
      (rel, dest, p, m1, refl, made, claimed, flies)
