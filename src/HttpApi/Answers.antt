-- ===== src/HttpApi/Answers.antt =====
-- What the handlers of internal/httpapi/api.go answer.
use mathlib.Core.List.{Perm}
use localsend_nas.Prelude.{
  ℕ, Bool, true, false, List, [], ◌∷◌, Option, none, some, Str, lookup, sort-perm, All, Bool-cases,
  Option-cases, Result-cases, ok, if◌then◌else◌, str_eq, ◌≡◌, ◌↔◌, refl, sym, ap, ok-injective, ◌∙◌,
  inl, inr, arith, ◌==◌,
}
use localsend_nas.Filepath.Descend.{Within}
use localsend_nas.Filepath.Laws.{IsAbsolute}
use localsend_nas.Host.{Host, FileInfo, DirEntry, EvalLaws}
use localsend_nas.Shares
use localsend_nas.Shares.{Store, names, path, outside_root, resolve, collect, entry_less}
use localsend_nas.Shares.Confine.{resolve_iff}
use localsend_nas.Shares.Order.{list-eq-sort}
use localsend_nas.Transfer
use localsend_nas.Transfer.{find, forget, is_terminal}
use localsend_nas.Transfer.Jobs.{find-forget}
use localsend_nas.HttpApi.{Api, reply, entries, handle_list}
use localsend_nas.HttpApi.Sending.{handle_delete_transfer}
use localsend_nas.HttpApi.Selftest.{handle_selftest, share_fault, share_faults, is_nil}

module _ {D : Type 0} (host : Host D) (d : D) where
  -- The root of the name is a directory.
  pub record IsDirectory (st : Store) (name : Str) : Type 0 where
    pub info : FileInfo
    pub stat : host.stat d (elim (path st name) [ none ↦ [] | some p ↦ p ]) ≡ ok info
    pub is_dir : info.is_dir ≡ true

  share_fault_iff :
      (st : Store) (name : Str) → (share_fault host d st name ≡ none) ↔ IsDirectory st name
  share_fault_iff st name =
      elim (Result-cases (host.stat d (elim (path st name) [ none ↦ [] | some p ↦ p ]))) [
        | inr (e, q) ↦ (λ h. cc (h, rw (share_fault, q) at h), λ h. cc (q, h.stat))
        | inl (fi, q) ↦ elim (Bool-cases fi.is_dir) [
          | inl y ↦
              (λ _. record { info = fi; stat = q; is_dir = y }, λ _. rw (share_fault, q, y) refl)
          | inr y ↦ (
            λ h. cc (h, rw (share_fault, q, y) at h),
            λ h.
                let same : fi ≡ h.info = ok-injective (sym q ∙ h.stat) in
                let off : h.info.is_dir ≡ false = ap (λ i. i.is_dir) (sym same) ∙ y in
                cc (off, h.is_dir),
          )
        ]
      ]

  share_faults_iff :
      (st : Store) (ns : List Str)
      → (is_nil (share_faults host d st ns) ≡ true) ↔ All (IsDirectory st) ns
  unfolding share_faults
  share_faults_iff st [] = (λ _. tt, λ _. refl)
  share_faults_iff st (n ∷ ns) =
      let (reads, back) = share_fault_iff st n in
      let (reads_rest, back_rest) = share_faults_iff st ns in
      elim (Option-cases (share_fault host d st n)) [
        | inl q ↦ (
          λ h. (reads q, reads_rest (rw (share_faults, q) at h)),
          λ h. rw (share_faults, q) (back_rest h.1),
        )
        | inr (e, q) ↦ (λ h. cc (h, rw (share_faults, q) at h), λ h. cc (q, back h.0))
      ]

  -- Every check passes.
  pub record IsHealthy (dial : Option Str) (listening : Bool) (a : Api) : Type 0 where
    pub roots : All (IsDirectory a.store) (names a.store)
    pub connected : dial ≡ none
    pub joined : listening ≡ true

  -- The self-test answers 200 exactly when the root of every share is a directory, the port of the
  -- protocol can be dialled, and a multicast group was joined.
  pub handle_selftest_iff :
      (dial : Option Str) (listening : Bool) (a : Api)
      → ((handle_selftest host d dial listening a).status ≡ 200) ↔ IsHealthy dial listening a
  unfolding handle_selftest
  handle_selftest_iff dial listening a =
      let (reads, back) = share_faults_iff a.store (names a.store) in
      (
        λ h. record {
          roots = reads (ground (arith, h));
          connected = ground (arith, h);
          joined = ground (arith, h);
        },
        λ h. ground (arith, back h.roots, h.connected, h.joined),
      )

  -- What is listed are the entries of a directory within the root that are not hidden.
  pub record ListsWithin (st : Store) (root rel : Str) (es : List Shares.Entry) : Type 0 where
    pub dir : Str
    pub within : Within root dir
    pub contents : List DirEntry
    pub read : host.read_dir d dir ≡ ok contents
    pub listed : Perm es (collect st rel contents)

  -- Where the evaluation of symlinks gives clean absolute paths: a listing that the web UI gets, of
  -- a share whose root is an absolute path other than "/", holds exactly the entries of a directory
  -- within the root that are not hidden and whose info is there, whatever the relative path of the
  -- request is.
  pub handle_list-ListsWithin :
      (to_lower : Str → Str) (share rel : Str) (a : Api) (root : Str) (es : List Shares.Entry)
      → EvalLaws host
      → IsAbsolute root
      → lookup share a.store.roots ≡ some root
      → handle_list host to_lower share rel a d ≡ reply 200 (entries es)
      → ListsWithin a.store root rel es
  unfolding handle_list
  handle_list-ListsWithin to_lower share rel a root es laws abs known h =
      elim (Result-cases (Shares.list host d to_lower a.store share rel)) [
        | inr (e, q) ↦ cc (h, rw (handle_list, q) at h)
        | inl (found, q) ↦
            let (p, des, resolved, read, sorted) =
              list-eq-sort host d to_lower a.store share rel found q in
            let same : found ≡ es = ground (arith, rw (handle_list, q) at h) in
            record {
              dir = p;
              within = ((resolve_iff host d a.store share rel p laws abs known).0 resolved).1;
              contents = des;
              read = read;
              listed =
                  rw (sym same, sym sorted)
                    (sort-perm (entry_less to_lower) (collect a.store rel des));
            }
      ]

forget_unknown :
    (id : Str) (m : Transfer.Manager) → find id m ≡ none → forget id m ≡ ((false, false), m)
unfolding forget
forget_unknown id m e = rw (e, forget) refl

forget_active :
    (id : Str) (m : Transfer.Manager) (x : Transfer.Entry)
    → find id m ≡ some x
    → is_terminal x.job.state ≡ false
    → forget id m ≡ ((true, false), m)
unfolding forget
forget_active id m x e t = rw (e, forget, t) refl

forget_ended :
    (id : Str) (m : Transfer.Manager) (x : Transfer.Entry)
    → find id m ≡ some x
    → is_terminal x.job.state ≡ true
    → (forget id m).0 ≡ (true, true)
unfolding forget
forget_ended id m x e t = rw (e, forget, t) refl

-- The answer of `handleDeleteTransfer` to the job that was found: gone, or still active.
abbrev pub delete_status : Option Transfer.Entry → ℕ
delete_status none = 404
delete_status (some e) = if is_terminal e.job.state then 204 else 409

-- A request to remove a job is answered by 404 if there is none, by 409 if the job has not ended, and
-- otherwise by 204; by 204 exactly this job is gone.
pub handle_delete_transfer-status :
    (id : Str) (a : Api) (j : Str)
    → ((handle_delete_transfer id a).0.status ≡ delete_status (find id a.tm))
      × (find j (handle_delete_transfer id a).1.tm ≡ (
          if str_eq j id
          then (if (handle_delete_transfer id a).0.status == 204 then none else find j a.tm)
          else find j a.tm))
unfolding handle_delete_transfer
handle_delete_transfer-status id a j = elim (Option-cases (find id a.tm)) [
  | inl e ↦ rw (forget_unknown id a.tm e, handle_delete_transfer, e) (refl, ground arith)
  | inr (x, e) ↦ elim (Bool-cases (is_terminal x.job.state)) [
    | inr t ↦ rw (forget_active id a.tm x e t, handle_delete_transfer, e, t) (refl, ground arith)
    | inl t ↦
        let flags = forget_ended id a.tm x e t in
        let gone = find-forget id a.tm j (ap (λ f. f.1) flags) in
        rw (flags, handle_delete_transfer, e, t) (refl, gone)
  ]
]
