-- ===== src/Receive/Upload.antt =====
-- `Upload` and `streamWithProgress` of internal/receive/receive.go: one file of an accepted session.
-- Other requests run while the body streams in: each read carries what they do to the manager and
-- the system in the meantime, which is the grain of the interleavings.
pub mod Stream
pub mod Guard
pub mod Place
pub mod Lands
pub mod Outcome
pub mod Delivery
pub mod Reserved
pub mod Returns
use localsend_nas.Prelude.{
  ℕ, zero, suc, ◌+◌, ◌-◌, Bool, true, false, not, ◌&&◌, ◌||◌, List, [], ◌∷◌, ◌++◌, Option, none,
  some, Str, codes, Map, ℤ, pos, negsuc, eqb_ℤ, ◌+₆₄◌, str_eq, lookup, insert, delete, length, take,
  ltb, leb, trim_suffix, if◌then◌else◌, Result, ok, err, ◌>>=◌,
}
use localsend_nas.Filepath.{slash, split_file}
use localsend_nas.Host.{Host, OsError}
use localsend_nas.Shares
use localsend_nas.Shares.Write.{ensure_dir}
use localsend_nas.Receive.{
  State, done, failed, Fault, context_cancelled, inactive, invalid_token, unknown_file,
  already_received, bad_name, share_fault, read_fault, io, size_mismatch, File, Session, Hook,
  receive_progress, receive_file_done, Manager, is_accepted, is_cancelled, emit, modify, set_state,
  fail,
}
use localsend_nas.Receive.Paths.{sanitize_rel_path, claim_final_path}

-- An upload whose destination is open: its session and file, where it goes, the declared size.
pub record Flight : Type 0 where
  pub session : Str
  pub file : Str
  pub final : Str
  pub part : Str
  pub size : ℤ

-- How a read of the body ends.
pub data ReadEnd : Type 0 where
  eof : ReadEnd
  broken : Str → ReadEnd

-- One `Read` of the body, and what other requests do before the next one.
pub record Read (D : Type 0) : Type 0 where
  pub bytes : Str
  pub end : Option ReadEnd
  pub meanwhile : Manager → D → Manager × D

abbrev pub set_file : Str → (File → File) → Session → Session
set_file fid f s = elim (lookup fid s.files) [
  | none ↦ s
  | some x ↦ record s { files = insert fid (f x) s.files }
]

-- The token that the session holds for a file; "" where there is none.
abbrev pub token_of : Str → Session → Str
token_of fid s = elim (lookup fid s.tokens) [ none ↦ [] | some t ↦ t ]

-- The guards at the head of `Upload`: the session and the file, or the refusal.
unfoldable pub admit : Str → Str → Str → Manager → Result (ℕ × Fault) (Session × File)
admit sid fid token m = elim (lookup sid m.sessions) [
  | none ↦ err (404, inactive)
  | some s ↦
      if not (is_accepted s.state)
      then err (404, inactive)
      else if str_eq (token_of fid s) [] || not (str_eq (token_of fid s) token)
      then err (403, invalid_token)
      else elim (lookup fid s.files) [
        | none ↦ err (404, unknown_file)
        | some f ↦ if f.done then err (409, already_received) else ok (s, f)
      ]
]

abbrev pub part_suffix : Str
part_suffix = codes ".lnas-part"

abbrev pub Begun : Type 0 → Type 0
Begun D = Result (ℕ × Fault) Flight × Manager × D

-- Was the session cancelled?
abbrev pub was_cancelled : Str → Manager → Bool
was_cancelled sid m = elim (lookup sid m.sessions) [ none ↦ false | some s ↦ is_cancelled s.state ]

module _ {D : Type 0} (host : Host D) where
  -- fail, with the response.
  abbrev pub failing : Str → ℕ → Fault → Manager → D → Begun D
  failing sid status e m d = let (m', d') = fail host sid e m d in (err (status, e), m', d')

  abbrev pub set_part : Str → Str → Str → Manager → Manager
  set_part sid fid part = modify sid (set_file fid (λ f. record f { part_path = part }))

  -- From the claimed name to the open file.
  abbrev pub opened : Flight → Manager → Option OsError × D → Begun D
  opened fl m (some e, d) = failing fl.session 500 (io e) m d
  opened fl m (none, d) = (ok fl, set_part fl.session fl.file fl.part m, d)

  -- From the destination directory on. `none`: no free name within the fuel.
  unfoldable pub place : ℕ → Session → Str → File → Str → Str → Manager → D → Option (Begun D)
  place fuel s fid f dir base m d = elim (claim_final_path host fuel s.id d m dir base) [
    | none ↦ none
    | some (final, m') ↦
        let part = final ++ part_suffix in
        let fl : Flight = record {
          session = s.id;
          file = fid;
          final = final;
          part = part;
          size = f.dto.size;
        } in
        some (opened fl m' (host.create d part))
  ]

  -- `Upload` from the result of `EnsureDir` on.
  unfoldable pub enter :
      ℕ → Session → Str → File → Str → Manager → Result Shares.ShareError Str × D → Option (Begun D)
  enter fuel s fid f base m (err e, d) = some (failing s.id 403 (share_fault e) m d)
  enter fuel s fid f base m (ok dest, d) = place fuel s fid f dest base m d

  -- `Upload` from the result of `sanitizeRelPath` on.
  unfoldable pub locate :
      ℕ
      → Shares.Store
      → Session
      → Str
      → File
      → Manager
      → D
      → Result Shares.ShareError Str
      → Option (Begun D)
  locate fuel shares s fid f m d (err e) = some (err (400, bad_name e), m, d)
  locate fuel shares s fid f m d (ok rel) =
      let (dir, base) = split_file rel in
      enter fuel s fid f base m
        (ensure_dir host d shares s.dest_share (trim_suffix dir (slash ∷ [])))

  -- `Upload` up to the open destination file.
  unfoldable pub begin : ℕ → Shares.Store → Str → Str → Str → Manager → D → Option (Begun D)
  begin fuel shares sid fid token m d = elim (admit sid fid token m) [
    | err e ↦ some (err e, m, d)
    | ok (s, f) ↦ locate fuel shares s fid f m d (sanitize_rel_path f.dto.file_name)
  ]
