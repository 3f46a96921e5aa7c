-- ===== src/Receive/Upload/Stream.antt =====
-- `streamWithProgress`, `failFile` and the end of `Upload` in internal/receive/receive.go.
use localsend_nas.Prelude.{
  ℕ, zero, suc, ◌+◌, ◌-◌, Bool, true, ◌&&◌, List, [], ◌∷◌, Option, none, some, Str, Map, pos,
  pos_part, eqb_ℤ, ◌+₆₄◌, str_eq, lookup, delete, length, take, ltb, if◌then◌else◌, ok, err,
}
use localsend_nas.Host.{Host, OsError}
use localsend_nas.Shares
use localsend_nas.Receive.{
  done, Fault, context_cancelled, read_fault, io, size_mismatch, File, receive_progress,
  receive_file_done, Manager, emit, modify, set_state, fail,
}
use localsend_nas.Receive.Upload.{
  Flight, ReadEnd, eof, broken, Read, set_file, was_cancelled, begin, Begun,
}

-- How the stream ends: the bytes written, the error, and the state.
pub record Streamed (D : Type 0) : Type 0 where
  pub total : ℕ
  pub fault : Option Fault
  pub manager : Manager
  pub disk : D

-- One turn of the loop after the chunk: stop at an error or at the end of the input.
abbrev pub turn : {D : Type 0} → Streamed D → Option ReadEnd → Streamed D → Streamed D
turn w end rest = elim w.fault [
  | some _ ↦ w
  | none ↦ elim end [
    | none ↦ rest
    | some eof ↦ w
    | some (broken e) ↦ record w { fault = some (read_fault e) }
  ]
]

-- All files of a session are done.
abbrev pub all_done : Map File → Bool
all_done [] = true
all_done ((_, f) ∷ rest) = f.done && all_done rest

abbrev pub files_done : Str → Manager → Bool
files_done sid m = elim (lookup sid m.sessions) [ none ↦ true | some s ↦ all_done s.files ]

-- The current partial of a file; "" where there is none.
abbrev pub part_of : Str → Str → Manager → Str
part_of sid fid m = elim (lookup sid m.sessions) [
  | none ↦ []
  | some s ↦ elim (lookup fid s.files) [ none ↦ [] | some f ↦ f.part_path ]
]

abbrev pub Response : Type 0
Response = ℕ × Option Fault

module _ {D : Type 0} (host : Host D) where
  -- After the write of a chunk: report the progress, let the others run, and look for a write error
  -- and for a cancellation.
  unfoldable pub after_write :
      Flight → ℕ → (Manager → D → Manager × D) → Manager → ℕ × Option OsError × D → Streamed D
  after_write fl total meanwhile m (n, werr, d1) =
      let (m2, d2) = meanwhile (emit (receive_progress fl.session fl.file (pos n)) m) d1 in
      record {
        total = total + n;
        fault = elim werr [
          | some e ↦ some (io e)
          | none ↦ if was_cancelled fl.session m2 then some context_cancelled else none
        ];
        manager = m2;
        disk = d2;
      }

  -- A chunk that is not empty is written; an empty one only lets the others run.
  unfoldable pub write_chunk :
      Flight → ℕ → Str → (Manager → D → Manager × D) → Manager → D → Streamed D
  write_chunk fl total [] meanwhile m d =
      let (m2, d2) = meanwhile m d in
      record { total = total; fault = none; manager = m2; disk = d2 }
  write_chunk fl total (b ∷ bytes) meanwhile m d =
      after_write fl total meanwhile m (host.write d fl.part (b ∷ bytes))

  -- The loop over the reads of the body, through io.LimitReader: at most `left` bytes pass, then the
  -- input ends. A read that is cut short does not report its end. No read left is the end of the
  -- body.
  unfoldable pub stream : Flight → ℕ → ℕ → List (Read D) → Manager → D → Streamed D
  stream fl total left [] m d = record { total = total; fault = none; manager = m; disk = d }
  stream fl total zero (r ∷ rs) m d = record { total = total; fault = none; manager = m; disk = d }
  stream fl total (suc k) (r ∷ rs) m d =
      let cut = ltb (suc k) (length r.bytes) in
      let w = write_chunk fl total (take (suc k) r.bytes) r.meanwhile m d in
      let rest = stream fl w.total (suc k - length r.bytes) rs w.manager w.disk in
      turn w (if cut then none else r.end) rest

  unfoldable pub fail_file : Flight → Fault → Manager → D → Manager × D
  fail_file fl e m d =
      let part = part_of fl.session fl.file m in
      if str_eq part []
      then fail host fl.session e m d
      else fail host fl.session e
          (modify fl.session (set_file fl.file (λ f. record f { part_path = [] })) m)
          (host.remove d part)

  abbrev pub rejected : Flight → ℕ → Fault → Manager → D → Response × Manager × D
  rejected fl status e m d = let (m', d') = fail_file fl e m d in ((status, some e), m', d')

  -- The bookkeeping of a file that has arrived.
  unfoldable pub complete : Flight → Manager → Manager
  complete fl m =
      let m1 = modify fl.session (set_file fl.file (λ f. record f { done = true })) m in
      let m2 = record m1 { in_progress = delete fl.final m1.in_progress } in
      let m3 = emit (receive_file_done fl.session fl.file) m2 in
      if files_done fl.session m2 then set_state fl.session done none m3 else m3

  abbrev pub renamed : Flight → Manager → Option OsError × D → Response × Manager × D
  renamed fl m (some e, d) = rejected fl 500 (io e) m d
  renamed fl m (none, d) = ((200, none), complete fl m, d)

  -- The `switch` after the stream, and the rename.
  unfoldable pub settle : Flight → Streamed D → Option OsError × D → Response × Manager × D
  settle fl w (cerr, d) = elim w.fault [
    | some e ↦ rejected fl 500 e w.manager d
    | none ↦ elim cerr [
      | some e ↦ rejected fl 500 (io e) w.manager d
      | none ↦
          if eqb_ℤ (pos w.total) fl.size
          then renamed fl w.manager (host.rename d fl.part fl.final)
          else rejected fl 400 (size_mismatch fl.size w.total) w.manager d
    ]
  ]

  -- `Upload` from the open file on.
  unfoldable pub receive : Flight → List (Read D) → Manager → D → Response × Manager × D
  receive fl body m d =
      let w = stream fl 0 (pos_part (fl.size +₆₄ pos 1)) body m d in
      settle fl w (host.close w.disk fl.part)

  abbrev pub continued : List (Read D) → Begun D → Response × Manager × D
  continued body (err (status, e), m, d) = ((status, some e), m, d)
  continued body (ok fl, m, d) = receive fl body m d

  -- Upload
  unfoldable pub upload :
      ℕ
      → Shares.Store
      → Str
      → Str
      → Str
      → List (Read D)
      → Manager
      → D
      → Option (Response × Manager × D)
  upload fuel shares sid fid token body m d = elim (begin host fuel shares sid fid token m d) [
    | none ↦ none
    | some b ↦ some (continued body b)
  ]
