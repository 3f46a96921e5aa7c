-- ===== src/Shares/Order.antt =====
-- The order of the listings of internal/shares/shares.go.
use mathlib.Core.List.{Perm}
use mathlib.Core.Path.{subst}
use native.Mathlib.Decide.{ℕ_discrete}
use localsend_nas.Filepath.{join_path}
use localsend_nas.Prelude.{
  Option, ℕ, ◌<◌, Bool, true, false, none, some, All-map, Result, err, ap, ◌∙◌, ◌⊎◌, List, [], ◌∷◌,
  Str, str_lt, sort, sort-perm, insert_sorted, IsSorted, All, Bool-cases, Result-cases, ok, ◌≡◌,
  refl, sym, inl, inr, arith, ok-injective,
}
use localsend_nas.Host.{Host, DirEntry, FileInfo, OsError}
use localsend_nas.Shares.{
  Entry, Store, entry, hidden, keep_entry, entry_less, collect, list, resolve,
}

str_lt-asym : (a b : Str) → str_lt a b ≡ true → str_lt b a ≡ false
unfolding str_lt
str_lt-asym [] [] h = refl
str_lt-asym [] (y ∷ b) h = refl
str_lt-asym (x ∷ a) [] h = ground arith
str_lt-asym (x ∷ a) (y ∷ b) h = ground (arith, str_lt-asym a b)

str_lt-later : (a b c : Str) → str_lt b a ≡ false → str_lt c b ≡ false → str_lt c a ≡ false
unfolding str_lt
str_lt-later a [] [] h k = h
str_lt-later a (y ∷ b) [] h k = cc
str_lt-later [] [] (z ∷ c) h k = refl
str_lt-later (x ∷ a) [] (z ∷ c) h k = cc
str_lt-later [] (y ∷ b) (z ∷ c) h k = refl
str_lt-later (x ∷ a) (y ∷ b) (z ∷ c) h k = ground (arith, str_lt-later a b c)

module _ (to_lower : Str → Str) where
  entry_less-asym : (a b : Entry) → entry_less to_lower a b ≡ true → entry_less to_lower b a ≡ false
  unfolding entry_less
  entry_less-asym a b h = ground (arith, str_lt-asym (to_lower a.name) (to_lower b.name))

  entry_less-later :
      (a b c : Entry)
      → entry_less to_lower b a ≡ false
      → entry_less to_lower c b ≡ false
      → entry_less to_lower c a ≡ false
  unfolding entry_less
  entry_less-later a b c h k =
      ground (arith, str_lt-later (to_lower a.name) (to_lower b.name) (to_lower c.name))

  -- No entry of the list goes before the first one.
  abbrev First : Entry → List Entry → Type 0
  First a es = All (λ e. entry_less to_lower e a ≡ false) es

  First-later :
      (a b : Entry) (es : List Entry) → entry_less to_lower b a ≡ false → First b es → First a es
  First-later a b [] h k = tt
  First-later a b (e ∷ es) h (k, ks) = (entry_less-later a b e h k, First-later a b es h ks)

  First-insert_sorted :
      (a x : Entry) (es : List Entry)
      → entry_less to_lower x a ≡ false
      → First a es
      → First a (insert_sorted (entry_less to_lower) x es)
  unfolding insert_sorted
  First-insert_sorted a x [] h k = (h, tt)
  First-insert_sorted a x (e ∷ es) h (k, ks) = elim (Bool-cases (entry_less to_lower e x)) [
    | inl q ↦ rw q (k, First-insert_sorted a x es h ks)
    | inr q ↦ rw q (h, (k, ks))
  ]

  insert_sorted-IsSorted :
      (x : Entry) (es : List Entry)
      → IsSorted (entry_less to_lower) es
      → IsSorted (entry_less to_lower) (insert_sorted (entry_less to_lower) x es)
  unfolding insert_sorted
  insert_sorted-IsSorted x [] h = (tt, tt)
  insert_sorted-IsSorted x (e ∷ es) (h, hs) = elim (Bool-cases (entry_less to_lower e x)) [
    | inl q ↦
        rw q (First-insert_sorted e x es (entry_less-asym e x q) h, insert_sorted-IsSorted x es hs)
    | inr q ↦ rw q ((q, First-later x e es q h), (h, hs))
  ]

  sort-IsSorted : (es : List Entry) → IsSorted (entry_less to_lower) (sort (entry_less to_lower) es)
  unfolding sort
  sort-IsSorted [] = tt
  sort-IsSorted (e ∷ es) =
      insert_sorted-IsSorted e (sort (entry_less to_lower) es) (sort-IsSorted es)

-- Bytewise lexicographic order.
pub data IsBefore : Str → Str → Type 0 where
  prefix : (t : Str) → IsBefore [] t
  smaller : (a b : ℕ) (s t : Str) → a < b → IsBefore (a ∷ s) (b ∷ t)
  equal : (a : ℕ) (s t : Str) → IsBefore s t → IsBefore (a ∷ s) (a ∷ t)

str_lt-IsBefore : (a b : Str) → str_lt b a ≡ false → IsBefore a b
unfolding str_lt
str_lt-IsBefore [] b h = prefix b
str_lt-IsBefore (x ∷ a) [] h = cc
str_lt-IsBefore (x ∷ a) (y ∷ b) h = elim (ℕ_discrete x y) [
  | yes e ↦
      let later : str_lt b a ≡ false = ground (arith, h, e) in
      subst (λ z. IsBefore (x ∷ a) (z ∷ b)) e (equal x a b (str_lt-IsBefore a b later))
  | no n ↦ smaller x y a b (ground (arith, h, n))
]

-- A directory may go before a file, and of two of a kind the one with the lower name.
abbrev pub MayPrecede : (Str → Str) → Entry → Entry → Type 0
MayPrecede to_lower a b =
    ((a.is_dir ≡ true) × (b.is_dir ≡ false))
    ⊎ ((a.is_dir ≡ b.is_dir) × IsBefore (to_lower a.name) (to_lower b.name))

-- Every entry may precede all later ones.
abbrev pub IsOrdered : (Str → Str) → List Entry → Type 0
IsOrdered to_lower [] = Unit
IsOrdered to_lower (e ∷ es) = All (MayPrecede to_lower e) es × IsOrdered to_lower es

entry_less-MayPrecede :
    (to_lower : Str → Str) (a b : Entry) → entry_less to_lower b a ≡ false → MayPrecede to_lower a b
unfolding entry_less
entry_less-MayPrecede to_lower a b h = elim (Bool-cases a.is_dir) [
  | inl x ↦ elim (Bool-cases b.is_dir) [
    | inl y ↦ inr (x ∙ sym y, str_lt-IsBefore _ _ (ground (arith, h, x, y)))
    | inr y ↦ inl (x, y)
  ]
  | inr x ↦ elim (Bool-cases b.is_dir) [
    | inl y ↦ absurd (ground (arith, h, x, y))
    | inr y ↦ inr (x ∙ sym y, str_lt-IsBefore _ _ (ground (arith, h, x, y)))
  ]
]

IsSorted-IsOrdered :
    (to_lower : Str → Str) (es : List Entry)
    → IsSorted (entry_less to_lower) es
    → IsOrdered to_lower es
IsSorted-IsOrdered to_lower [] h = tt
IsSorted-IsOrdered to_lower (e ∷ es) (h, hs) =
    (All-map (entry_less-MayPrecede to_lower e) es h, IsSorted-IsOrdered to_lower es hs)

-- What of a directory is shown: an entry is left out when the filter of the store hides its name, or
-- when its info is not there.
pub data Shows (st : Store) (rel : Str) : List DirEntry → List Entry → Type 0 where
  nothing : Shows st rel [] []
  hides :
      (de : DirEntry) (des : List DirEntry) (es : List Entry) (hide : Str → Bool)
      → st.hide_entry ≡ some hide
      → hide de.name ≡ true
      → Shows st rel des es
      → Shows st rel (de ∷ des) es
  vanished :
      (de : DirEntry) (des : List DirEntry) (es : List Entry) (e : OsError)
      → de.info ≡ err e
      → Shows st rel des es
      → Shows st rel (de ∷ des) es
  shows :
      (de : DirEntry) (des : List DirEntry) (es : List Entry) (fi : FileInfo)
      → ((hide : Str → Bool) → st.hide_entry ≡ some hide → hide de.name ≡ false)
      → de.info ≡ ok fi
      → Shows st rel des es
      → Shows st rel (de ∷ des) (
          record {
            name = de.name;
            rel = join_path (rel ∷ de.name ∷ []);
            is_dir = fi.is_dir;
            size = fi.size;
            mod_time = fi.mod_time;
          }
          ∷ es)

hides_name :
    (o : Option (Str → Bool)) (name : Str)
    → (elim o [ none ↦ false | some hide ↦ hide name ]) ≡ true
    → (hide : Str → Bool) × (o ≡ some hide) × (hide name ≡ true)
hides_name none name h = cc
hides_name (some hide) name h = (hide, refl, h)

-- The entry of a name that is not hidden, by its info.
keep_entry-Shows :
    (st : Store) (rel : Str) (de : DirEntry) (des : List DirEntry) (es : List Entry)
    (r : Result OsError FileInfo)
    → hidden st de.name ≡ false
    → de.info ≡ r
    → Shows st rel des es
    → Shows st rel (de ∷ des) (keep_entry (entry de.name (join_path (rel ∷ de.name ∷ []))) es r)
unfolding entry
keep_entry-Shows st rel de des es (err e) q k rest = vanished de des es e k rest
keep_entry-Shows st rel de des es (ok fi) q k rest =
    shows de des es fi
      (λ hide a.
        sym (ap {B = Bool} (λ o. elim o [ none ↦ false | some hide ↦ hide de.name ]) a) ∙ q)
      k rest

collect-Shows :
    (st : Store) (rel : Str) (des : List DirEntry) → Shows st rel des (collect st rel des)
unfolding collect
collect-Shows st rel [] = nothing
collect-Shows st rel (de ∷ des) =
    let rest = collect-Shows st rel des in
    elim (Bool-cases (hidden st de.name)) [
      | inl q ↦
          let (hide, a, b) = hides_name st.hide_entry de.name q in
          rw (collect, q) (hides de des _ hide a b rest)
      | inr q ↦ rw (collect, q) (keep_entry-Shows st rel de des _ de.info q refl rest)
    ]

module _ {D : Type 0} (host : Host D) (d : D) (to_lower : Str → Str) (st : Store)
    (name rel : Str) where
  pub list-eq-sort :
      (es : List Entry)
      → list host d to_lower st name rel ≡ ok es
      → (p : Str) × (des : List DirEntry) × (resolve host d st name rel ≡ ok p)
        × (host.read_dir d p ≡ ok des)
        × (sort (entry_less to_lower) (collect st rel des) ≡ es)
  unfolding list
  list-eq-sort es h = elim (Result-cases (resolve host d st name rel)) [
    | inr (e, q) ↦ cc (h, rw (q, list) at h)
    | inl (p, q) ↦ elim (Result-cases (host.stat d p)) [
      | inr (e, k) ↦ cc (h, rw (q, list, k) at h)
      | inl (fi, k) ↦ elim (Bool-cases fi.is_dir) [
        | inr n ↦ cc (h, rw (q, list, k, n) at h)
        | inl y ↦ elim (Result-cases (host.read_dir d p)) [
          | inr (e, g) ↦ cc (h, rw (q, list, k, y, g) at h)
          | inl (des, g) ↦ (p, des, q, g, ok-injective (rw (q, list, k, y, g) at h))
        ]
      ]
    ]
  ]

  -- A listing that succeeds has the directories before the files and each of them by lower-case
  -- name, bytewise, and holds exactly the entries of the resolved directory that are not hidden and
  -- whose info is there, each as often as it is there, with its path below the listed one.
  pub list-IsOrdered :
      (es : List Entry)
      → list host d to_lower st name rel ≡ ok es
      → IsOrdered to_lower es
        × ((p : Str) × (des : List DirEntry) × (shown : List Entry) × (resolve host d st name rel
              ≡ ok p)
            × (host.read_dir d p ≡ ok des)
            × Shows st rel des shown
            × Perm es shown)
  list-IsOrdered es h =
      let (p, des, q, g, same) = list-eq-sort es h in
      rw (sym same) (
        IsSorted-IsOrdered to_lower _ (sort-IsSorted to_lower (collect st rel des)),
        (
          p,
          des,
          collect st rel des,
          q,
          g,
          collect-Shows st rel des,
          sort-perm (entry_less to_lower) (collect st rel des),
        ),
      )
