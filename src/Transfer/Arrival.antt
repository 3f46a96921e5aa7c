-- ===== src/Transfer/Arrival.antt =====
-- `Upload` of internal/receive/receive.go keeps the job list of internal/transfer/manager.go in step
-- with the sessions, whatever other requests do while the body streams in.
use localsend_nas.Prelude.{
  ℕ, Bool, true, List, [], ◌∷◌, ◌++◌, Option, none, some, Str, Map, str_eq, insert, delete, length,
  take, ltb, eqb_ℤ, pos, ◌-◌, suc, zero, All, Result, ok, err, Result-cases, ◌+◌, Bool-cases,
  Option-cases, ◌≡◌, refl, sym, ap, arith, inl, inr, if◌then◌else◌,
}
use mathlib.Core.Option.{some-injective}
use localsend_nas.Filepath.{join_path, split_file}
use localsend_nas.Host.{Host, OsError}
use localsend_nas.Shares
use localsend_nas.Receive.{
  Fault, Hook, Manager, Session, File, done, modify, receive_file_done, emit,
}
use localsend_nas.Receive.Paths.{is_free, sanitize_rel_path, claim_from, claim_final_path, numbered}
use localsend_nas.Receive.Upload.{
  Flight, Begun, Read, ReadEnd, eof, broken, admit, begin, locate, enter, place, opened, set_file,
  part_suffix,
}
use localsend_nas.Receive.Upload.Place.{made_in}
use localsend_nas.Receive.Upload.Stream.{
  Streamed, turn, after_write, write_chunk, stream, part_of, fail_file, complete, files_done,
  Response, renamed, settle, receive, continued, upload,
}
use localsend_nas.Transfer.Mirror.{Mirrors, emit-Mirrors, modify-Mirrors, set_state-Mirrors}
use localsend_nas.Transfer.Follow.{fail-Mirrors}

set_file_keeps : (fid : Str) (f : File → File) (s : Session) → (set_file fid f s).state ≡ s.state
set_file_keeps fid f s = ground arith

module _ (message : Fault → Str) (due : Hook → Bool) {D : Type 0} (host : Host D) where
  abbrev Kept : Manager → Type 0
  Kept m = Mirrors message due m

  -- The other requests keep the list in step.
  pub record Harmless (r : Read D) : Type 0 where
    pub keeps :
        (m : Manager) (d : D) → Mirrors message due m → Mirrors message due (r.meanwhile m d).0

  abbrev KeptIn : Option (Begun D) → Type 0
  KeptIn none = Unit
  KeptIn (some b) = Kept b.1

  set_file-Kept :
      (sid fid : Str) (f : File → File) (m : Manager)
      → Kept m
      → Kept (modify sid (set_file fid f) m)
  set_file-Kept sid fid f m i = modify-Mirrors message due sid _ m (set_file_keeps fid f) i

  opened-Kept :
      (fl : Flight) (m : Manager) (x : Option OsError × D) → Kept m → Kept (opened host fl m x).1
  opened-Kept fl m (some e, d) i = fail-Mirrors message due host fl.session _ m d i
  opened-Kept fl m (none, d) i = set_file-Kept fl.session fl.file _ m i

  -- The reservations are not shown.
  in_progress-Kept :
      (m : Manager) (reserved : Map Str) → Kept m → Kept (record m { in_progress = reserved })
  in_progress-Kept m reserved i = record { follows = i.follows }

  claim_from-Kept :
      (fuel n : ℕ) (sid : Str) (d : D) (m m' : Manager) (dir base p : Str)
      → claim_from host fuel n sid d m dir base ≡ some (p, m')
      → Kept m
      → Kept m'
  unfolding claim_from
  claim_from-Kept zero n sid d m m' dir base p h i = cc
  claim_from-Kept (suc fuel) n sid d m m' dir base p h i =
      elim (Bool-cases (is_free host d m (join_path (dir ∷ numbered base n ∷ [])))) [
        | inl e ↦
            let m1 : Manager = record m {
              in_progress = insert (join_path (dir ∷ numbered base n ∷ [])) sid m.in_progress;
            } in
            let q : m1 ≡ m' = ap (λ x. x.1) (some-injective _ _ (rw (claim_from, e) at h)) in
            rw (sym q) (in_progress-Kept m _ i)
        | inr e ↦ claim_from-Kept fuel (n + 1) sid d m m' dir base p (rw (claim_from, e) at h) i
      ]

  place-Kept :
      (fuel : ℕ) (s : Session) (fid : Str) (f : File) (dest base : Str) (m : Manager) (d : D)
      → Kept m
      → KeptIn (place host fuel s fid f dest base m d)
  unfolding place claim_final_path
  place-Kept fuel s fid f dest base m d i =
      elim (Option-cases (claim_final_path host fuel s.id d m dest base)) [
        | inl e ↦ rw (e, place) tt
        | inr ((p, m1), e) ↦
            rw (e, place)
              (opened-Kept _ m1 (host.create d (p ++ part_suffix))
                (claim_from-Kept fuel 0 s.id d m m1 dest base p e i))
      ]

  after_write-Kept :
      (fl : Flight) (total : ℕ) (r : Read D) (m : Manager) (x : ℕ × Option OsError × D)
      → Harmless r
      → Kept m
      → Kept (after_write host fl total r.meanwhile m x).manager
  unfolding after_write
  after_write-Kept fl total r m (n, werr, d) h i =
      h.keeps _ d (emit-Mirrors message due _ m (λ j o. refl) i)

  write_chunk-Kept :
      (fl : Flight) (total : ℕ) (bytes : Str) (r : Read D) (m : Manager) (d : D)
      → Harmless r
      → Kept m
      → Kept (write_chunk host fl total bytes r.meanwhile m d).manager
  unfolding write_chunk
  write_chunk-Kept fl total [] r m d h i = h.keeps m d i
  write_chunk-Kept fl total (b ∷ bytes) r m d h i =
      after_write-Kept fl total r m (host.write d fl.part (b ∷ bytes)) h i

  turn-Kept :
      (w rest : Streamed D) (end : Option ReadEnd)
      → Kept w.manager
      → Kept rest.manager
      → Kept (turn w end rest).manager
  turn-Kept w rest end i k = elim (Option-cases w.fault) [
    | inr (e, q) ↦ rw q i
    | inl q ↦ elim (Option-cases end) [
      | inl e ↦ rw (q, e) k
      | inr (eof, e) ↦ rw (q, e) i
      | inr (broken x, e) ↦ rw (q, e) i
    ]
  ]

  stream-Kept :
      (fl : Flight) (body : List (Read D)) (total left : ℕ) (m : Manager) (d : D)
      → All Harmless body
      → Kept m
      → Kept (stream host fl total left body m d).manager
  unfolding stream
  stream-Kept fl [] total zero m d h i = i
  stream-Kept fl [] total (suc n) m d h i = i
  stream-Kept fl (r ∷ rs) total zero m d h i = i
  stream-Kept fl (r ∷ rs) total (suc n) m d (h, hs) i =
      let w = write_chunk host fl total (take (suc n) r.bytes) r.meanwhile m d in
      let now = write_chunk-Kept fl total (take (suc n) r.bytes) r m d h i in
      turn-Kept w (stream host fl w.total (suc n - length r.bytes) rs w.manager w.disk)
        (if ltb (suc n) (length r.bytes) then none else r.end) now
        (stream-Kept fl rs w.total (suc n - length r.bytes) w.manager w.disk hs now)

  fail_file-Kept :
      (fl : Flight) (e : Fault) (m : Manager) (d : D) → Kept m → Kept (fail_file host fl e m d).0
  unfolding fail_file
  fail_file-Kept fl e m d i = elim (Bool-cases (str_eq (part_of fl.session fl.file m) [])) [
    | inl q ↦ rw (q, fail_file) (fail-Mirrors message due host fl.session e m d i)
    | inr q ↦
        rw (q, fail_file)
          (fail-Mirrors message due host fl.session e _ _ (set_file-Kept fl.session fl.file _ m i))
  ]

  complete-Kept : (fl : Flight) (m : Manager) → Kept m → Kept (complete host fl m)
  unfolding complete
  complete-Kept fl m i =
      let m1 = modify fl.session (set_file fl.file (λ f. record f { done = true })) m in
      let m2 : Manager = record m1 { in_progress = delete fl.final m1.in_progress } in
      let m3 = emit (receive_file_done fl.session fl.file) m2 in
      let k =
        emit-Mirrors message due (receive_file_done fl.session fl.file) m2 (λ j o. refl)
          (in_progress-Kept m1 _ (set_file-Kept fl.session fl.file _ m i)) in
      elim (Bool-cases (files_done fl.session m2)) [
        | inr q ↦ rw q k
        | inl q ↦ rw q (set_state-Mirrors message due fl.session done none m3 k)
      ]

  renamed-Kept :
      (fl : Flight) (m : Manager) (x : Option OsError × D) → Kept m → Kept (renamed host fl m x).1
  renamed-Kept fl m (some e, d) i = fail_file-Kept fl _ m d i
  renamed-Kept fl m (none, d) i = complete-Kept fl m i

  settle-Kept :
      (fl : Flight) (w : Streamed D) (x : Option OsError × D)
      → Kept w.manager
      → Kept (settle host fl w x).1
  unfolding settle
  settle-Kept fl w (cerr, d) i = elim (Option-cases w.fault) [
    | inr (e, q) ↦ rw q (fail_file-Kept fl e w.manager d i)
    | inl q ↦ elim (Option-cases cerr) [
      | inr (e, c) ↦ rw (q, c) (fail_file-Kept fl _ w.manager d i)
      | inl c ↦ elim (Bool-cases (eqb_ℤ (pos w.total) fl.size)) [
        | inr n ↦ rw (q, c, n) (fail_file-Kept fl _ w.manager d i)
        | inl y ↦ rw (q, c, y) (renamed-Kept fl w.manager (host.rename d fl.part fl.final) i)
      ]
    ]
  ]

  receive-Kept :
      (fl : Flight) (body : List (Read D)) (m : Manager) (d : D)
      → All Harmless body
      → Kept m
      → Kept (receive host fl body m d).1
  unfolding receive
  receive-Kept fl body m d h i = settle-Kept fl _ _ (stream-Kept fl body 0 _ m d h i)

  continued-Kept :
      (body : List (Read D)) (b : Begun D)
      → All Harmless body
      → Kept b.1
      → Kept (continued host body b).1
  continued-Kept body (err (status, e), m, d) h i = i
  continued-Kept body (ok fl, m, d) h i = receive-Kept fl body m d h i

  enter-Kept :
      (fuel : ℕ) (s : Session) (fid : Str) (f : File) (base : Str) (m : Manager)
      (made : Result Shares.ShareError Str × D)
      → Kept m
      → KeptIn (enter host fuel s fid f base m made)
  unfolding enter
  enter-Kept fuel s fid f base m (err e, d) i = fail-Mirrors message due host s.id _ m d i
  enter-Kept fuel s fid f base m (ok dest, d) i = place-Kept fuel s fid f dest base m d i

  locate-Kept :
      (fuel : ℕ) (shares : Shares.Store) (s : Session) (fid : Str) (f : File) (m : Manager) (d : D)
      (r : Result Shares.ShareError Str)
      → Kept m
      → KeptIn (locate host fuel shares s fid f m d r)
  unfolding locate
  locate-Kept fuel shares s fid f m d (err e) i = i
  locate-Kept fuel shares s fid f m d (ok rel) i =
      enter-Kept fuel s fid f (split_file rel).1 m (made_in host fuel shares s rel d) i

  begin-Kept :
      (fuel : ℕ) (shares : Shares.Store) (sid fid token : Str) (m : Manager) (d : D)
      → Kept m
      → KeptIn (begin host fuel shares sid fid token m d)
  unfolding begin
  begin-Kept fuel shares sid fid token m d i = elim (Result-cases (admit sid fid token m)) [
    | inr (e, q) ↦ rw (q, begin) i
    | inl ((s, f), q) ↦
        rw (q, begin) (locate-Kept fuel shares s fid f m d (sanitize_rel_path f.dto.file_name) i)
  ]

  -- An upload, whatever its outcome, leaves the list in step with the sessions, if what other
  -- requests do between its reads does.
  pub upload-Mirrors :
      (fuel : ℕ) (shares : Shares.Store) (sid fid token : Str) (body : List (Read D))
      (m m' : Manager) (d d' : D) (r : Response)
      → All Harmless body
      → Mirrors message due m
      → upload host fuel shares sid fid token body m d ≡ some (r, m', d')
      → Mirrors message due m'
  unfolding upload
  upload-Mirrors fuel shares sid fid token body m m' d d' r h i u =
      elim (Option-cases (begin host fuel shares sid fid token m d)) [
        | inl e ↦ cc (e, rw (e, upload) at u)
        | inr (b, e) ↦
            let k : Kept b.1 = rw e at (begin-Kept fuel shares sid fid token m d i) in
            let q : continued host body b ≡ (r, m', d') =
              some-injective _ _ (rw (e, upload) at u) in
            rw (sym (ap (λ x. x.1) q)) (continued-Kept body b h k)
      ]
