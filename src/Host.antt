-- ===== src/Host.antt =====
-- The operating system as the program sees it through the packages os and path/filepath: functions
-- of a state `D`, which the program does not look into. What the code relies on is in the records of laws.
use localsend_nas.Prelude.{
  some, none, ◌++◌, length, ℕ, Bool, List, [], ◌∷◌, Option, none, Str, Result, ok, ℤ, ◌≡◌, ◌⊎◌,
}
use localsend_nas.Filepath.{slash}
use localsend_nas.Filepath.Laws.{IsAbsolute}

-- An error of a system call; `not_exist` is what `errors.Is(err, fs.ErrNotExist)` finds.
pub data OsError : Type 0 where
  not_exist : OsError
  other : Str → OsError

pub record FileInfo : Type 0 where
  pub name : Str
  pub is_dir : Bool
  pub size : ℤ
  pub mod_time : ℕ

-- One entry of a directory; `info` is the result of `DirEntry.Info`.
pub record DirEntry : Type 0 where
  pub name : Str
  pub info : Result OsError FileInfo

pub record Host (D : Type 0) : Type 0 where
  pub abs : D → Str → Result OsError Str
  pub eval_symlinks : D → Str → Result OsError Str
  pub stat : D → Str → Result OsError FileInfo
  pub lstat : D → Str → Result OsError FileInfo
  pub read_dir : D → Str → Result OsError (List DirEntry)
  -- os.Open: the handle is the path.
  pub open_read : D → Str → Option OsError
  pub mkdir : D → Str → Option OsError × D
  -- os.OpenFile with O_CREATE, O_WRONLY and O_TRUNC.
  pub create : D → Str → Option OsError × D
  -- Write to the open file at the path: how many bytes went in, and the error.
  pub write : D → Str → Str → ℕ × Option OsError × D
  pub close : D → Str → Option OsError × D
  pub rename : D → Str → Str → Option OsError × D
  pub remove : D → Str → D
  -- os.ReadFile
  pub read_file : D → Str → Result OsError Str
  -- os.WriteFile
  pub write_file : D → Str → Str → Option OsError × D

-- "/" or an absolute path of plain names: what `Clean` makes of any rooted path.
abbrev pub IsRooted : Str → Type 0
IsRooted p = (p ≡ slash ∷ []) ⊎ IsAbsolute p

-- filepath.EvalSymlinks calls Clean on its result, and keeps an absolute path absolute.
pub record EvalLaws {D : Type 0} (host : Host D) : Type 0 where
  pub eval_rooted : (d : D) (p q : Str) → IsRooted p → host.eval_symlinks d p ≡ ok q → IsRooted q

-- A file that was written whole is read back.
pub record FileLaws {D : Type 0} (host : Host D) : Type 0 where
  pub read-write :
      (d d' : D) (p bytes : Str)
      → host.write_file d p bytes ≡ (none, d')
      → host.read_file d' p ≡ ok bytes

-- Two paths lead to files of their own, whatever links there are: what is written to the first is not
-- seen at the second.
pub record AreSeparate {D : Type 0} (host : Host D) (p q : Str) : Type 0 where
  pub read_other :
      (d d' : D) (bytes : Str) (e : Option OsError)
      → host.write_file d p bytes ≡ (e, d')
      → host.read_file d' q ≡ host.read_file d q

-- What an upload relies on: the contents of files under create, write, close and rename. A write that
-- reports no error has written everything (the contract of io.Writer).
pub record DiskLaws {D : Type 0} (host : Host D) (content : D → Str → Option Str) : Type 0 where
  pub content-create : (d d' : D) (p : Str) → host.create d p ≡ (none, d') → content d' p ≡ some []
  pub content-write :
      (d d' : D) (p bytes : Str) (n : ℕ) (c : Str)
      → host.write d p bytes ≡ (n, none, d')
      → content d p ≡ some c
      → (n ≡ length bytes) × (content d' p ≡ some (c ++ bytes))
  pub content-close :
      (d d' : D) (p : Str) (e : Option OsError)
      → host.close d p ≡ (e, d')
      → content d' p ≡ content d p
  pub content-rename :
      (d d' : D) (p q : Str) → host.rename d p q ≡ (none, d') → content d' q ≡ content d p
