-- ===== src/Receive/Upload/Lands.antt =====
-- Uploads of internal/receive/receive.go are confined: where the destination of `Upload` lies.

use mathlib.Core.List.{append_assoc, append-nil}
use localsend_nas.Prelude.{
  ℕ, false, true, List, [], ◌∷◌, ◌++◌, some, Str, lookup, has_key, trim_suffix, length-append,
  All-append, ok, ◌≡◌, ◌≢◌, sym, ap, ◌∙◌, arith,
}
use localsend_nas.Filepath.{slash, join_path, split_file}
use localsend_nas.Filepath.Descend.{sep, NoSlash, IsPlain, Within, descend, descend-append}
use localsend_nas.Filepath.Laws.{IsAbsolute, join_path-name, Within-IsAbsolute}
use localsend_nas.Host.{Host}
use localsend_nas.Shares
use localsend_nas.Shares.Confine.{rel_names}
use localsend_nas.Shares.Created.{ensure_dir-eq-descend}
use localsend_nas.Receive.{File, Session, Manager}
use localsend_nas.Receive.Paths.{numbered, is_free, sanitize_rel_path}
use localsend_nas.Receive.Paths.Names.{name_parts}
use localsend_nas.Receive.Paths.Claim.{claim_final_path-Claims}
use localsend_nas.Receive.Paths.Numbered.{numbered-IsPlain, long-IsPlain}
use localsend_nas.Receive.Upload.{Flight, admit, begin, locate, part_suffix}
use localsend_nas.Receive.Upload.Place.{
  Named, made_in, rel_names-join, sanitize-Named, Named-IsPlain, locate-Flies,
}

-- A suffix of the last name.
descend-suffix :
    (root : Str) (es : List Str) (n t : Str)
    → descend root (es ++ n ∷ []) ++ t ≡ descend root (es ++ (n ++ t) ∷ [])
descend-suffix root es n t =
    rw (descend-append root es (n ∷ []), descend-append root es ((n ++ t) ∷ []))
      (simp (append_assoc, append-nil))

part-IsPlain : (n : Str) → IsPlain n → IsPlain (n ++ part_suffix)
part-IsPlain n h =
    long-IsPlain (n ++ part_suffix) (omega (arith, length-append {0} n part_suffix))
      (All-append (λ c. c ≢ sep) n part_suffix h.no_slash (suffix-NoSlash))
  where
    suffix-NoSlash : NoSlash part_suffix
    suffix-NoSlash = omega arith

-- The destination of an upload below `root` of a file that the sender called `name`: the directories
-- of the name, then its last part, numbered; and the partial beside it.
pub record Lands (root name : Str) (fl : Flight) : Type 0 where
  pub dirs : List Str
  pub base : Str
  pub number : ℕ
  pub parts : name_parts name ≡ dirs ++ base ∷ []
  pub final : fl.final ≡ descend root (dirs ++ numbered base number ∷ [])
  pub part : fl.part ≡ fl.final ++ part_suffix
  pub final_within : Within root fl.final
  pub part_within : Within root fl.part

Lands-of :
    {root name rel : Str} (n : Named name rel) (fl : Flight) (i : ℕ)
    → fl.final ≡ descend root (n.dirs ++ numbered (split_file rel).1 i ∷ [])
    → fl.part ≡ fl.final ++ part_suffix
    → Lands root name fl
Lands-of {root} {name} {rel} n fl i e k =
    let (dirs, base) = Named-IsPlain n in
    let last : IsPlain (numbered (split_file rel).1 i) =
      numbered-IsPlain (split_file rel).1 i base in
    record {
      dirs = n.dirs;
      base = (split_file rel).1;
      number = i;
      parts = n.parts;
      final = e;
      part = k;
      final_within = record {
        names = n.dirs ++ numbered (split_file rel).1 i ∷ [];
        plain = All-append IsPlain n.dirs (numbered (split_file rel).1 i ∷ []) dirs (last, tt);
        reached = e;
      };
      part_within = record {
        names = n.dirs ++ (numbered (split_file rel).1 i ++ part_suffix) ∷ [];
        plain =
            All-append IsPlain n.dirs ((numbered (split_file rel).1 i ++ part_suffix) ∷ []) dirs
              (part-IsPlain (numbered (split_file rel).1 i) last, tt);
        reached =
            k
            ∙ ap (λ t. t ++ part_suffix) e
            ∙ descend-suffix root n.dirs (numbered (split_file rel).1 i) part_suffix;
      };
    }

final-eq :
    {root name rel dest p : Str} (n : Named name rel) (i : ℕ)
    → IsAbsolute root
    → dest ≡ descend root n.dirs
    → p ≡ join_path (dest ∷ numbered (split_file rel).1 i ∷ [])
    → p ≡ descend root (n.dirs ++ numbered (split_file rel).1 i ∷ [])
final-eq {root} {name} {rel} {dest} n i h at e =
    let (dirs, base) = Named-IsPlain n in
    let absolute : IsAbsolute dest =
      Within-IsAbsolute h (record { names = n.dirs; plain = dirs; reached = at }) in
    e
    ∙ join_path-name (numbered (split_file rel).1 i) absolute
        (numbered-IsPlain (split_file rel).1 i base)
    ∙ ap (λ r. descend r (numbered (split_file rel).1 i ∷ [])) at
    ∙ sym (descend-append root n.dirs (numbered (split_file rel).1 i ∷ []))

module _ {D : Type 0} (host : Host D) (fuel : ℕ) (shares : Shares.Store) where
  unclaimed :
      (d : D) (m : Manager) (q : Str) → is_free host d m q ≡ true → has_key q m.in_progress ≡ false
  unclaimed d m q h = ground arith

  pub begin-eq-locate :
      (sid fid token : Str) (m : Manager) {s : Session} {f : File} (d : D)
      → admit sid fid token m ≡ ok (s, f)
      → begin host fuel shares sid fid token m d
        ≡ locate host fuel shares s fid f m d (sanitize_rel_path f.dto.file_name)
  unfolding begin
  begin-eq-locate sid fid token m d h = rw (h, begin)

  -- The directory that `EnsureDir` makes for a name.
  dest-eq :
      (s : Session) (d : D) {name rel root dest : Str} (n : Named name rel)
      → IsAbsolute root
      → lookup s.dest_share shares.roots ≡ some root
      → (made_in host fuel shares s rel d).0 ≡ ok dest
      → dest ≡ descend root n.dirs
  dest-eq s d {name} {rel} {root} {dest} n h e k =
      let names : rel_names (trim_suffix (split_file rel).0 (slash ∷ [])) ≡ n.dirs =
        ap rel_names n.dir_part ∙ rel_names-join n.dirs (Named-IsPlain n).0 in
      (ensure_dir-eq-descend host d shares s.dest_share
        (trim_suffix (split_file rel).0 (slash ∷ [])) dest h e k).1
      ∙ ap (descend root) names

  -- When an admitted upload opens its destination, below a share whose root is absolute, the final
  -- path goes down from the root along the directories of the sender's name and its last part,
  -- numbered; so it and the partial beside it lie within the root; and no other upload had claimed
  -- the final path.
  pub begin-Lands :
      (sid fid token : Str) {root : Str} (m : Manager) {m' : Manager} {s : Session} {f : File}
      (d : D) {d' : D} {fl : Flight}
      → admit sid fid token m ≡ ok (s, f)
      → IsAbsolute root
      → lookup s.dest_share shares.roots ≡ some root
      → begin host fuel shares sid fid token m d ≡ some (ok fl, m', d')
      → Lands root f.dto.file_name fl × (has_key fl.final m.in_progress ≡ false)
  begin-Lands sid fid token {root} m {m'} {s} {f} d {d'} {fl} a h e b =
      let (rel, dest, p, m1, clean_name, made, claimed, flies) =
        locate-Flies host fuel shares s fid f m m' d d' fl (sanitize_rel_path f.dto.file_name)
          (sym (begin-eq-locate sid fid token m d a) ∙ b) in
      let n = sanitize-Named clean_name in
      let at : dest ≡ descend root n.dirs = dest-eq s d n h e made in
      let claim =
        claim_final_path-Claims host s.id (made_in host fuel shares s rel d).1 m dest
          (split_file rel).1 fuel p m1 claimed in
      (
        Lands-of n fl claim.index (flies.final_path ∙ final-eq n claim.index h at claim.path)
            (flies.part_path ∙ ap (λ t. t ++ part_suffix) (sym flies.final_path)),
        rw flies.final_path (unclaimed (made_in host fuel shares s rel d).1 m p claim.free),
      )
