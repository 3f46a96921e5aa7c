-- ===== src/Receive/Upload/Outcome.antt =====
-- What an upload of internal/receive/receive.go that is answered by 200 leaves on the disk.
use localsend_nas.Prelude.{
  ℕ, zero, suc, ◌+◌, ◌-◌, ◌<◌, ◌≤◌, true, List, [], ◌∷◌, ◌++◌, Option, none, some, Str, ℤ, pos,
  negsuc, pos_part, eqb_ℤ, ◌+₆₄◌, IsInt64, length, take, length-append, length-take, take-append,
  take-append_left, take_all, ltb, if◌then◌else◌, ◌≡◌, ◌≢◌, refl, sym, ap, ◌∙◌, arith, inl, inr,
  Bool-cases, Option-cases, All, ◌⊎◌,
}
use mathlib.Core.List.{append-nil, append_assoc}
use localsend_nas.Host.{Host, DiskLaws, OsError}
use localsend_nas.Receive.{Manager}
use localsend_nas.Receive.Upload.{Flight, Read, ReadEnd, eof, broken}
use localsend_nas.Receive.Upload.Stream.{
  Streamed, after_write, write_chunk, stream, turn, settle, receive, Response, renamed,
}

-- What the sender's body delivers: the bytes up to the first read that ends it.
abbrev pub delivered : {D : Type 0} → List (Read D) → Str
delivered [] = []
delivered (r ∷ rs) = elim r.end [ none ↦ r.bytes ++ delivered rs | some _ ↦ r.bytes ]

module _ {D : Type 0} (host : Host D) (content : D → Str → Option Str)
    (laws : DiskLaws host content) where
  -- Other requests leave the partial alone.
  pub record Spares (part : Str) (r : Read D) : Type 0 where
    pub same : (m : Manager) (d : D) → content (r.meanwhile m d).1 part ≡ content d part

  -- The chunk is behind the content `c`, and counted, if the loop may go on.
  abbrev Adds : Flight → ℕ → Str → Str → Streamed D → Type 0
  Adds fl total c bytes w =
      w.fault ≡ none
      → (content w.disk fl.part ≡ some (c ++ bytes)) × (w.total ≡ total + length bytes)

  after_write-Adds :
      (fl : Flight) (total : ℕ) (bytes : Str) (r : Read D) (m : Manager) (d : D) (c : Str)
      → Spares fl.part r
      → content d fl.part ≡ some c
      → (x : ℕ × Option OsError × D) → host.write d fl.part bytes ≡ x
      → Adds fl total c bytes (after_write host fl total r.meanwhile m x)
  unfolding after_write
  after_write-Adds fl total bytes r m d c sp h (n, some e, d1) q = λ k. cc
  after_write-Adds fl total bytes r m d c sp h (n, none, d1) q = λ k.
      let (all, after) = laws.content-write d d1 fl.part bytes n c q h in
      (sp.same _ d1 ∙ after, ap (λ i. total + i) all)

  write_chunk-Adds :
      (fl : Flight) (total : ℕ) (bytes : Str) (r : Read D) (m : Manager) (d : D) (c : Str)
      → Spares fl.part r
      → content d fl.part ≡ some c
      → Adds fl total c bytes (write_chunk host fl total bytes r.meanwhile m d)
  unfolding write_chunk
  write_chunk-Adds fl total [] r m d c sp h =
      λ k. (sp.same m d ∙ h ∙ ap some (sym (append-nil c)), omega arith)
  write_chunk-Adds fl total (b ∷ bytes) r m d c sp h =
      after_write-Adds fl total (b ∷ bytes) r m d c sp h (host.write d fl.part (b ∷ bytes)) refl

  nothing_more :
      (n : ℕ) (bytes rest : Str)
      → suc n < length bytes
      → take (suc n) bytes ≡ take (suc n) bytes ++ take (suc n - length bytes) rest
  nothing_more n bytes rest h =
      let none_left : 0 ≡ suc n - length bytes = omega arith in
      sym (append-nil _) ∙ ap (λ k. take (suc n) bytes ++ take k rest) none_left

  -- A chunk that goes on into the rest, at an end of the body it has not reached.
  delivered-cut :
      (n : ℕ) (bytes : Str) (e : Option ReadEnd) (rest : Str)
      → suc n < length bytes
      → take (suc n) (elim e [ none ↦ bytes ++ rest | some _ ↦ bytes ])
        ≡ take (suc n) bytes ++ take (suc n - length bytes) rest
  delivered-cut n bytes none rest h =
      take-append_left (suc n) bytes rest (omega arith) ∙ nothing_more n bytes rest h
  delivered-cut n bytes (some _) rest h = nothing_more n bytes rest h

  delivered-whole :
      (n : ℕ) (bytes rest : Str)
      → length bytes ≤ suc n
      → take (suc n) (bytes ++ rest) ≡ take (suc n) bytes ++ take (suc n - length bytes) rest
  delivered-whole n bytes rest h =
      take-append (suc n) bytes rest h
      ∙ ap (λ t. t ++ take (suc n - length bytes) rest) (sym (take_all (suc n) bytes h))

  -- What the chunk and the rest add is what both add.
  Adds-then :
      (fl : Flight) (total : ℕ) (c a b : Str) (w rest : Streamed D)
      → w.fault ≡ none
      → Adds fl total c a w
      → Adds fl w.total (c ++ a) b rest
      → Adds fl total c (a ++ b) rest
  Adds-then fl total c a b w rest q hw hr k =
      let (more, counted) = hr k in
      (more ∙ ap some (append_assoc c a b), omega (arith, counted, hw q, length-append {0} a b))

  turn-Adds :
      (fl : Flight) (r : Read D) (later : Str) (total n : ℕ) (c : Str) (w rest : Streamed D)
      → Adds fl total c (take (suc n) r.bytes) w
      → (w.fault ≡ none
          → Adds fl w.total (c ++ take (suc n) r.bytes) (take (suc n - length r.bytes) later) rest)
      → Adds fl total c
          (take (suc n) (elim r.end [ none ↦ r.bytes ++ later | some _ ↦ r.bytes ]))
          (turn w (if ltb (suc n) (length r.bytes) then none else r.end) rest)
  turn-Adds fl r later total n c w rest hw hr = elim (Option-cases w.fault) [
    | inr (e, q) ↦ rw q (λ k. cc)
    | inl q ↦ elim (Bool-cases (ltb (suc n) (length r.bytes))) [
      | inl cut ↦
          rw (q, cut, delivered-cut n r.bytes r.end later (ground arith))
            (Adds-then fl total c (take (suc n) r.bytes) (take (suc n - length r.bytes) later) w
              rest q hw (hr q))
      | inr whole ↦ elim (Option-cases r.end) [
        | inl e ↦
            rw (q, whole, e)
              (rw (delivered-whole n r.bytes later (ground arith)) (
                Adds-then fl total c (take (suc n) r.bytes) (take (suc n - length r.bytes) later) w
                  rest q hw (hr q)))
        | inr (eof, e) ↦ rw (q, whole, e) (λ _. hw q)
        | inr (broken x, e) ↦ rw (q, whole, e) (λ k. cc)
      ]
    ]
  ]

  stream-Adds :
      (fl : Flight) (body : List (Read D)) (total left : ℕ) (m : Manager) (d : D) (c : Str)
      → All (Spares fl.part) body
      → content d fl.part ≡ some c
      → Adds fl total c (take left (delivered body)) (stream host fl total left body m d)
  unfolding stream
  stream-Adds fl [] total zero m d c sp h = λ k. (h ∙ ap some (sym (append-nil c)), omega arith)
  stream-Adds fl [] total (suc n) m d c sp h = λ k. (h ∙ ap some (sym (append-nil c)), omega arith)
  stream-Adds fl (r ∷ rs) total zero m d c sp h =
      λ k. (h ∙ ap some (sym (append-nil c)), omega arith)
  stream-Adds fl (r ∷ rs) total (suc n) m d c (sp, sps) h =
      let w = write_chunk host fl total (take (suc n) r.bytes) r.meanwhile m d in
      let chunk = write_chunk-Adds fl total (take (suc n) r.bytes) r m d c sp h in
      turn-Adds fl r (delivered rs) total n c w
        (stream host fl w.total (suc n - length r.bytes) rs w.manager w.disk) chunk
        (λ q.
          stream-Adds fl rs w.total (suc n - length r.bytes) w.manager w.disk
            (c ++ take (suc n) r.bytes) sps (chunk q).0)

  -- An answer of 200 comes with the whole body at the final path.
  abbrev pub Delivers : Flight → Str → Response × Manager × D → Type 0
  Delivers fl bytes (r, _, d) =
      r.0 ≡ 200 → (content d fl.final ≡ some bytes) × (pos (length bytes) ≡ fl.size)

  renamed-Delivers :
      (fl : Flight) (bytes : Str) (m : Manager) (x : Option OsError × D) (d : D)
      → host.rename d fl.part fl.final ≡ x
      → content d fl.part ≡ some bytes
      → pos (length bytes) ≡ fl.size
      → Delivers fl bytes (renamed host fl m x)
  renamed-Delivers fl bytes m (some e, d1) d q h sz = λ k. absurd (omega (arith, k))
  renamed-Delivers fl bytes m (none, d1) d q h sz =
      λ k. (laws.content-rename d d1 fl.part fl.final q ∙ h, sz)

  -- The limit of the reader for a file of `n` bytes: one byte more, which wraps around at the largest.
  limit :
      (n : ℕ)
      → IsInt64 (pos n)
      → (pos_part (pos n +₆₄ pos 1) ≡ suc n) ⊎ ((pos_part (pos n +₆₄ pos 1) ≡ 0) × (n ≢ 0))
  unfolding ◌+₆₄◌
  limit n h = ground arith

  cut_body :
      (left n : ℕ) (bytes : Str)
      → (left ≡ suc n) ⊎ ((left ≡ 0) × (n ≢ 0))
      → length (take left bytes) ≡ n
      → (take left bytes ≡ bytes) × (length bytes ≡ n)
  cut_body left n bytes (inl e) q =
      let short : length bytes ≤ n = omega (arith, length-take left bytes) in
      let same = take_all left bytes (omega arith) in (same, omega (arith, length-take left bytes))
  cut_body left n bytes (inr (e, z)) q = absurd (omega (arith, length-take left bytes))

  -- A total that is the declared size is that of the whole body.
  whole_body :
      (size : ℤ) (bytes : Str)
      → IsInt64 size
      → eqb_ℤ (pos (length (take (pos_part (size +₆₄ pos 1)) bytes))) size ≡ true
      → (take (pos_part (size +₆₄ pos 1)) bytes ≡ bytes) × (pos (length bytes) ≡ size)
  whole_body (negsuc n) bytes h q = absurd (ground arith)
  whole_body (pos n) bytes h q =
      let (same, size) = cut_body (pos_part (pos n +₆₄ pos 1)) n bytes (limit n h) (ground arith) in
      (same, ap pos size)

  settle-Delivers :
      (fl : Flight) (bytes : Str) (w : Streamed D) (x : Option OsError × D)
      → IsInt64 fl.size
      → Adds fl 0 [] (take (pos_part (fl.size +₆₄ pos 1)) bytes) w
      → host.close w.disk fl.part ≡ x
      → Delivers fl bytes (settle host fl w x)
  unfolding settle
  settle-Delivers fl bytes w (cerr, d) i h q = elim (Option-cases w.fault) [
    | inr (e, f) ↦ rw f (λ k. absurd (omega (arith, k)))
    | inl f ↦ elim (Option-cases cerr) [
      | inr (e, g) ↦ rw (f, g) (λ k. absurd (omega (arith, k)))
      | inl g ↦ elim (Bool-cases (eqb_ℤ (pos w.total) fl.size)) [
        | inr n ↦ rw (f, g, n) (λ k. absurd (omega (arith, k)))
        | inl y ↦
            let (there, counted) = h f in
            let all : w.total ≡ length (take (pos_part (fl.size +₆₄ pos 1)) bytes) =
              omega (arith, counted) in
            let (whole, size) =
              whole_body fl.size bytes i (ap (λ t. eqb_ℤ (pos t) fl.size) (sym all) ∙ y) in
            rw (f, g, y)
              (renamed-Delivers fl bytes w.manager (host.rename d fl.part fl.final) d refl
                (laws.content-close w.disk d fl.part cerr q ∙ there ∙ ap some whole) size)
      ]
    ]
  ]

  pub receive-Delivers :
      (fl : Flight) (body : List (Read D)) (m : Manager) (d : D)
      → All (Spares fl.part) body
      → content d fl.part ≡ some []
      → IsInt64 fl.size
      → Delivers fl (delivered body) (receive host fl body m d)
  unfolding receive
  receive-Delivers fl body m d sp h i =
      let left = pos_part (fl.size +₆₄ pos 1) in
      let w = stream host fl 0 left body m d in
      settle-Delivers fl (delivered body) w (host.close w.disk fl.part) i
        (stream-Adds fl body 0 left m d [] sp h) refl
