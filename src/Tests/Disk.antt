-- ===== src/Tests/Disk.antt =====
-- A file system in memory, which the examples run on.
use localsend_nas.Prelude.{
  ℕ, true, false, List, [], ◌∷◌, ◌++◌, Option, none, some, Str, Map, pos, str_eq, lookup, insert,
  delete, lookup-insert_self, length, any, Result, ok, err, ◌≡◌, refl, sym, ap, ◌∙◌, ok-injective,
}
use mathlib.Core.Option.{some-injective}
use localsend_nas.Host.{Host, OsError, not_exist, FileInfo, EvalLaws, FileLaws, DiskLaws}

pub record Disk : Type 0 where
  pub dirs : List Str
  pub files : Map Str

abbrev info : Str → Disk → Result OsError FileInfo
info p d = elim (any (str_eq p) d.dirs) [
  | true ↦ ok (record { name = p; is_dir = true; size = pos 0; mod_time = 0 })
  | false ↦ elim (lookup p d.files) [
    | none ↦ err not_exist
    | some c ↦ ok (record { name = p; is_dir = false; size = pos (length c); mod_time = 0 })
  ]
]

abbrev put : Disk → Str → Str → Disk
put d p c = record d { files = insert p c d.files }

abbrev append_to : Disk → Str → Str → Option Str → ℕ × Option OsError × Disk
append_to d p bytes none = (0, some not_exist, d)
append_to d p bytes (some c) = (length bytes, none, put d p (c ++ bytes))

abbrev move : Disk → Str → Str → Option Str → Option OsError × Disk
move d p q none = (some not_exist, d)
move d p q (some c) = (none, record d { files = insert q c (delete p d.files) })

abbrev pub memory : Host Disk
memory = record {
  abs = λ d p. ok p;
  eval_symlinks = λ d p. ok p;
  stat = λ d p. info p d;
  lstat = λ d p. info p d;
  read_dir = λ d p. ok [];
  open_read = λ d p. none;
  mkdir = λ d p. (none, record d { dirs = p ∷ d.dirs });
  create = λ d p. (none, put d p []);
  write = λ d p bytes. append_to d p bytes (lookup p d.files);
  close = λ d p. (none, d);
  rename = λ d p q. move d p q (lookup p d.files);
  remove = λ d p. record d { files = delete p d.files };
  read_file = λ d p. elim (lookup p d.files) [ none ↦ err not_exist | some c ↦ ok c ];
  write_file = λ d p bytes. (none, put d p bytes);
}

abbrev pub content : Disk → Str → Option Str
content d p = lookup p d.files

pub memory-EvalLaws : EvalLaws memory
memory-EvalLaws = record { eval_rooted = λ d p q h e. rw (sym (ok-injective e)) h }

pub memory-FileLaws : FileLaws memory
memory-FileLaws = record {
  read-write = λ d d' p bytes h.
      ap (λ x. memory.read_file x p) (sym (ap (λ x. x.1) h))
      ∙ ap (λ o. elim o [ none ↦ err not_exist | some c ↦ ok c ])
          (lookup-insert_self p bytes d.files);
}

appended :
    (d d' : Disk) (p bytes : Str) (n : ℕ) (c : Str) (o : Option Str)
    → o ≡ some c
    → append_to d p bytes o ≡ (n, none, d')
    → (n ≡ length bytes) × (content d' p ≡ some (c ++ bytes))
appended d d' p bytes n c none k h = cc
appended d d' p bytes n c (some x) k h = (
  sym (ap (λ x. x.0) h),
  rw (sym (ap (λ x. x.2) h), sym (some-injective _ _ k))
      (lookup-insert_self p (x ++ bytes) d.files),
)

moved :
    (d d' : Disk) (p q : Str) (o : Option Str)
    → lookup p d.files ≡ o
    → move d p q o ≡ (none, d')
    → content d' q ≡ content d p
moved d d' p q none e h = cc
moved d d' p q (some c) e h =
    rw (sym (ap (λ x. x.1) h), e) (lookup-insert_self q c (delete p d.files))

pub memory-DiskLaws : DiskLaws memory content
memory-DiskLaws = record {
  content-create = λ d d' p h. rw (sym (ap (λ x. x.1) h)) (lookup-insert_self p [] d.files);
  content-write = λ d d' p bytes n c h k. appended d d' p bytes n c (lookup p d.files) k h;
  content-close = λ d d' p e h. ap (λ x. lookup p x.files) (sym (ap (λ x. x.1) h));
  content-rename = λ d d' p q h. moved d d' p q (lookup p d.files) refl h;
}
