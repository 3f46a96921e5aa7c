-- ===== src/Receive/Upload/Reserved.antt =====
-- What a failed `Upload` of internal/receive/receive.go leaves reserved.
use localsend_nas.Prelude.{
  [], Option, none, some, Str, str_eq, lookup, eqb_ℤ, pos, Bool-cases, Option-cases, ◌≡◌, ◌≢◌, refl,
  ◌∙◌, inl, inr,
}
use localsend_nas.Host.{Host, OsError}
use localsend_nas.Receive.{State, Fault, Session, Manager, modify, set_state, emit, fail}
use localsend_nas.Receive.Upload.{Flight}
use localsend_nas.Receive.Upload.Stream.{Streamed, part_of, fail_file, renamed, settle}

in_progress-modify :
    (sid : Str) (f : Session → Session) (m : Manager) → (modify sid f m).in_progress ≡ m.in_progress
unfolding modify
in_progress-modify sid f m = elim (Option-cases (lookup sid m.sessions)) [
  | inl e ↦ rw (e, modify) refl
  | inr (s, e) ↦ rw (e, modify) refl
]

in_progress-set_state :
    (sid : Str) (st : State) (e : Option Fault) (m : Manager)
    → (set_state sid st e m).in_progress ≡ m.in_progress
unfolding set_state emit
in_progress-set_state sid st e m = in_progress-modify sid _ m

module _ {D : Type 0} (host : Host D) where
  in_progress-fail_file :
      (fl : Flight) (e : Fault) (m : Manager) (d : D)
      → (fail_file host fl e m d).0.in_progress ≡ m.in_progress
  unfolding fail_file fail
  in_progress-fail_file fl e m d = elim (Bool-cases (str_eq (part_of fl.session fl.file m) [])) [
    | inl q ↦ rw (q, fail_file) (in_progress-set_state fl.session _ _ m)
    | inr q ↦
        rw (q, fail_file)
          (in_progress-set_state fl.session _ _ _ ∙ in_progress-modify fl.session _ m)
  ]

  in_progress-renamed :
      (fl : Flight) (m : Manager) (x : Option OsError × D)
      → (renamed host fl m x).0.0 ≢ 200
      → (renamed host fl m x).1.in_progress ≡ m.in_progress
  in_progress-renamed fl m (some e, d) h = in_progress-fail_file fl _ m d
  in_progress-renamed fl m (none, d) h = absurd (h refl)

  -- An upload that fails after its destination was opened keeps the name of the destination
  -- reserved: the reservations are those from before the failure.
  pub in_progress-settle :
      (fl : Flight) (w : Streamed D) (x : Option OsError × D)
      → (settle host fl w x).0.0 ≢ 200
      → (settle host fl w x).1.in_progress ≡ w.manager.in_progress
  unfolding settle
  in_progress-settle fl w (cerr, d) h = elim (Option-cases w.fault) [
    | inr (e, q) ↦ rw q (in_progress-fail_file fl e w.manager d)
    | inl q ↦ elim (Option-cases cerr) [
      | inr (e, c) ↦ rw (q, c) (in_progress-fail_file fl _ w.manager d)
      | inl c ↦ elim (Bool-cases (eqb_ℤ (pos w.total) fl.size)) [
        | inr n ↦ rw (q, c, n) (in_progress-fail_file fl _ w.manager d)
        | inl y ↦
            rw (q, c, y)
              (in_progress-renamed fl w.manager (host.rename d fl.part fl.final)
                (rw (q, c, y) at h))
      ]
    ]
  ]
