-- ===== src/Discovery/Registry.antt =====
-- The registry of internal/discovery/discovery.go: what it holds, and what eviction leaves.
use mathlib.Core.Path.{subst}
use localsend_nas.Prelude.{
  ℕ, Bool, true, false, not, ◌&&◌, ◌||◌, List, [], ◌∷◌, Option, none, some, Str, Map, str_eq,
  str_eq_refl, lookup, insert, delete, Bool-cases, Option-cases, Result-cases, ok, err, Result, ◌≡◌,
  ◌↔◌, ◌⊎◌, ◌≤◌, ◌+◌, ◌*◌, In, here, there, sym, refl, ap, ◌∙◌, inl, inr, arith,
}
use localsend_nas.Host.{Host}
use localsend_nas.LocalSend.{Info}
use localsend_nas.Discovery.{
  Device, Discovery, Codec, seen, upsert, evict, evict_from, expired, with_port, parse_address,
  add_parsed, add, remove, add_all, load_targets,
}

-- An entry stands under its own fingerprint, and is not this node.
abbrev pub keyed : Str → Map Device → Bool
keyed own [] = true
keyed own ((fp, dev) ∷ rest) =
    (str_eq fp dev.info.fingerprint && not (str_eq fp own)) && keyed own rest

pub record Keyed (d : Discovery) : Type 0 where
  pub entries : keyed d.info.fingerprint d.devices ≡ true

keyed-insert :
    (own fp : Str) (dev : Device) (devices : Map Device)
    → keyed own devices ≡ true
    → str_eq fp dev.info.fingerprint ≡ true
    → str_eq fp own ≡ false
    → keyed own (insert fp dev devices) ≡ true
unfolding insert
keyed-insert own fp dev [] h k n = ground arith
keyed-insert own fp dev ((j, x) ∷ devices) h k n = ground (arith, keyed-insert own fp dev devices)

keyed-delete :
    (own fp : Str) (devices : Map Device)
    → keyed own devices ≡ true
    → keyed own (delete fp devices) ≡ true
unfolding delete
keyed-delete own fp [] h = refl
keyed-delete own fp ((j, x) ∷ devices) h = ground (arith, keyed-delete own fp devices)

pub keyed-evict_from :
    (own : Str) (now : ℕ) (devices : Map Device)
    → keyed own devices ≡ true
    → keyed own (evict_from now devices) ≡ true
keyed-evict_from own now [] h = refl
keyed-evict_from own now ((j, x) ∷ devices) h = elim (Bool-cases (expired now x)) [
  | inl e ↦ rw e (keyed-evict_from own now devices (ground arith))
  | inr e ↦ rw e (ground (arith, keyed-evict_from own now devices))
]

-- A device is manual, or it was seen within the last two minutes.
abbrev pub IsCurrent : ℕ → Device → Type 0
IsCurrent now dev = (dev.manual ≡ true) ⊎ (now ≤ dev.last_seen + 2 * 60 * 1000000000)

expired_iff : (now : ℕ) (dev : Device) → (expired now dev ≡ false) ↔ IsCurrent now dev
expired_iff now dev = (reads, back)
  where
    reads : expired now dev ≡ false → IsCurrent now dev
    reads h = elim (Bool-cases dev.manual) [ inl m ↦ inl m | inr m ↦ inr (ground (arith, h, m)) ]

    back : IsCurrent now dev → expired now dev ≡ false
    back (inl m) = ground (arith, m)
    back (inr n) = ground (arith, n)

evict_from_iff :
    (now : ℕ) (fp : Str) (dev : Device) (devices : Map Device)
    → In (fp, dev) (evict_from now devices) ↔ (In (fp, dev) devices × IsCurrent now dev)
evict_from_iff now fp dev [] = (λ k. elim k [ ], λ k. elim k.0 [ ])
evict_from_iff now fp dev ((j, x) ∷ devices) =
    let (reads, back) = evict_from_iff now fp dev devices in
    elim (Bool-cases (expired now x)) [
      | inl q ↦ rw q (
        (λ k. (there (reads k).0, (reads k).1)),
        λ k. elim k.0 [
          | here e ↦
              let same : dev ≡ x = ap (λ r. r.1) e in
              let stays : expired now x ≡ false =
                subst (λ y. expired now y ≡ false) same ((expired_iff now dev).1 k.1) in
              cc (q, stays)
          | there l ↦ back (l, k.1)
        ],
      )
      | inr q ↦ rw q (
        (λ k. elim k [
          | here e ↦
              let same : dev ≡ x = ap (λ r. r.1) e in
              (here e, subst (IsCurrent now) (sym same) ((expired_iff now x).0 q))
          | there l ↦ (there (reads l).0, (reads l).1)
        ]),
        λ k. elim k.0 [ here e ↦ here e | there l ↦ there (back (l, k.1)) ],
      )
    ]

-- Eviction leaves exactly the devices that are manual or were seen within the last two minutes, as
-- they are, each under the fingerprint that it had.
pub evict_iff :
    (now : ℕ) (d : Discovery) (fp : Str) (dev : Device)
    → In (fp, dev) (evict now d).devices ↔ (In (fp, dev) d.devices × IsCurrent now dev)
unfolding evict
evict_iff now d fp dev = evict_from_iff now fp dev d.devices

seen-key :
    (now : ℕ) (info : Info) (ip : Str) (o : Option Device)
    → str_eq info.fingerprint (seen now info ip o).info.fingerprint ≡ true
seen-key now info ip none = str_eq_refl info.fingerprint
seen-key now info ip (some dev) = str_eq_refl info.fingerprint

registered-key :
    (now : ℕ) (ip : Str) (info : Info) (d : Discovery)
    → str_eq info.fingerprint
        (record (seen now info ip (lookup info.fingerprint d.devices)) {
          manual = true;
        }).info.fingerprint
      ≡ true
registered-key now ip info d = seen-key now info ip (lookup info.fingerprint d.devices)

with_port-fingerprint :
    (port : ℕ) (info : Info) → (with_port port info).fingerprint ≡ info.fingerprint
with_port-fingerprint port info = ground arith

-- An announcement keeps the registry keyed by fingerprint and free of this node.
pub upsert-Keyed :
    (now : ℕ) (info : Info) (ip : Str) (d : Discovery) → Keyed d → Keyed (upsert now info ip d)
unfolding upsert
upsert-Keyed now info ip d h =
    elim (Bool-cases (str_eq info.fingerprint [] || str_eq info.fingerprint d.info.fingerprint)) [
      | inl e ↦ rw e h
      | inr e ↦ rw e (record {
        entries =
            keyed-insert d.info.fingerprint info.fingerprint _ d.devices h.entries
              (seen-key now info ip (lookup info.fingerprint d.devices)) (ground arith);
      })
    ]

module _ {D : Type 0} (host : Host D) (json : Codec) where
  add_parsed-Keyed :
      (now : ℕ) (address : Result Str (Str × ℕ)) (probe : Str → ℕ → Result Str Info) (d : Discovery)
      (disk : D)
      → Keyed d
      → Keyed (add_parsed host json now address probe d disk).1
  unfolding add_parsed
  add_parsed-Keyed now (err e) probe d disk h = h
  add_parsed-Keyed now (ok (ip, port)) probe d disk h = elim (Result-cases (probe ip port)) [
    | inr (e, q) ↦ rw (q, add_parsed) h
    | inl (info, q) ↦ elim (Bool-cases (str_eq info.fingerprint d.info.fingerprint)) [
      | inl n ↦ rw (q, add_parsed, n) h
      | inr n ↦
          rw (q, add_parsed, n)
            (record {
              entries =
                  keyed-insert d.info.fingerprint (with_port port info).fingerprint _ d.devices
                    h.entries (registered-key now ip (with_port port info) d)
                    (ap (λ fp. str_eq fp d.info.fingerprint) (with_port-fingerprint port info) ∙ n);
            })
    ]
  ]

  -- Adding a manual target, whether it succeeds or not, keeps the registry keyed by fingerprint and
  -- free of this node.
  pub add-Keyed :
      (now : ℕ) (address : Str) (probe : Str → ℕ → Result Str Info) (d : Discovery) (disk : D)
      → Keyed d
      → Keyed (add host json now address probe d disk).1
  unfolding add
  add-Keyed now address probe = add_parsed-Keyed now (parse_address address) probe

  pub remove-Keyed :
      (fp : Str) (d : Discovery) (disk : D) → Keyed d → Keyed (remove host json fp d disk).1
  unfolding remove
  remove-Keyed fp d disk h = elim (Option-cases (lookup fp d.devices)) [
    | inl q ↦ rw (q, remove) h
    | inr (x, q) ↦
        rw (q, remove) (record { entries = keyed-delete d.info.fingerprint fp d.devices h.entries })
  ]

  add_all-Keyed :
      (now : ℕ) (probe : Str → ℕ → Result Str Info) (addrs : List Str) (d : Discovery) (disk : D)
      → Keyed d
      → Keyed (add_all host json now probe addrs d disk).0
  unfolding add_all
  add_all-Keyed now probe [] d disk h = h
  add_all-Keyed now probe (a ∷ addrs) d disk h =
      add_all-Keyed now probe addrs _ _ (add-Keyed now a probe d disk h)

  -- Loading the saved targets, of which any may fail, keeps the registry keyed by fingerprint and
  -- free of this node.
  pub load_targets-Keyed :
      (now : ℕ) (probe : Str → ℕ → Result Str Info) (d : Discovery) (disk : D)
      → Keyed d
      → Keyed (load_targets host json now probe d disk).0
  unfolding load_targets
  load_targets-Keyed now probe d disk h = elim (Result-cases (host.read_file disk d.targets_path)) [
    | inr (e, q) ↦ rw (q, load_targets) h
    | inl (bytes, q) ↦ elim (Result-cases (json.decode bytes)) [
      | inr (e, k) ↦ rw (q, load_targets, k) h
      | inl (addrs, k) ↦ rw (q, load_targets, k) (add_all-Keyed now probe addrs d disk h)
    ]
  ]
