-- ===== src/Transfer/Jobs.antt =====
-- `List` and `Forget` of internal/transfer/manager.go.
use localsend_nas.Prelude.{
  Bool, true, false, not, ◌&&◌, ◌||◌, List, [], ◌∷◌, ◌++◌, none, is_some, Str, str_eq, str_eq_iff,
  str_eq_refl, lookup-insert, length, length-append, all, any, Bool-cases, Option-cases, ◌≡◌, refl,
  ◌∙◌, arith, inl, inr, if◌then◌else◌,
}
use localsend_nas.Transfer.{
  Entry, Manager, find, enter, list, list_from, forget, remove_first, remove_all, is_terminal,
}

abbrev pub holds : Str → List Str → Bool
holds id ids = any (str_eq id) ids

abbrev pub distinct : List Str → Bool
distinct [] = true
distinct (id ∷ ids) = not (holds id ids) && distinct ids

abbrev pub all_found : Manager → List Str → Bool
all_found m ids = all (λ id. is_some (find id m)) ids

-- Every id in the order is that of a job in the map, and none is there twice.
pub record Listed (m : Manager) : Type 0 where
  pub found : all_found m m.order ≡ true
  pub unique : distinct m.order ≡ true

list_from-length :
    (m : Manager) (ids : List Str) → all_found m ids ≡ true → length (list_from m ids) ≡ length ids
unfolding list_from
list_from-length m [] h = refl
list_from-length m (id ∷ ids) h = elim (Option-cases (find id m)) [
  | inl e ↦ ground arith
  | inr (x, e) ↦
      rw (list_from, e)
        (length-append (list_from m ids) (x.job ∷ [])
          ∙ omega (arith, list_from-length m ids (rw e at h)))
]

find-enter :
    (e : Entry) (m : Manager) (j : Str)
    → is_some (find j m) ≡ true
    → is_some (find j (enter e m)) ≡ true
unfolding find
find-enter e m j h = ground (arith, lookup-insert e.job.id j e m.heap)

found-enter :
    (e : Entry) (m : Manager) (ids : List Str)
    → all_found m ids ≡ true
    → all_found (enter e m) ids ≡ true
found-enter e m [] h = refl
found-enter e m (id ∷ ids) h = ground (arith, find-enter e m id, found-enter e m ids)

holds-remove_all :
    (id j : Str) (ids : List Str) → str_eq j id ≡ false → holds j (remove_all id ids) ≡ holds j ids
unfolding remove_all
holds-remove_all id j [] h = refl
holds-remove_all id j (x ∷ ids) h =
    ground (arith, str_eq_iff x id, str_eq_iff j x, str_eq_iff j id, holds-remove_all id j ids h)

holds-remove_first :
    (id j : Str) (ids : List Str) → holds j ids ≡ false → holds j (remove_first id ids) ≡ false
unfolding remove_first
holds-remove_first id j [] h = refl
holds-remove_first id j (x ∷ ids) h = ground (arith, holds-remove_first id j ids)

distinct-remove_first :
    (id : Str) (ids : List Str) → distinct ids ≡ true → distinct (remove_first id ids) ≡ true
unfolding remove_first
distinct-remove_first id [] h = refl
distinct-remove_first id (x ∷ ids) h =
    ground (arith, distinct-remove_first id ids, holds-remove_first id x ids)

gone-remove_first :
    (id : Str) (ids : List Str) → distinct ids ≡ true → holds id (remove_first id ids) ≡ false
unfolding remove_first
gone-remove_first id [] h = refl
gone-remove_first id (x ∷ ids) h =
    ground (arith, str_eq_iff x id, str_eq_iff id x, gone-remove_first id ids)

found-remove_first :
    (m : Manager) (id : Str) (ids : List Str)
    → all_found m ids ≡ true
    → all_found m (remove_first id ids) ≡ true
unfolding remove_first
found-remove_first m id [] h = refl
found-remove_first m id (x ∷ ids) h = ground (arith, found-remove_first m id ids)

-- The manager without a job.
abbrev forgotten : Str → Manager → Manager
forgotten id m = record m { jobs = remove_all id m.jobs; order = remove_first id m.order }

holds-remove_self : (id : Str) (ids : List Str) → holds id (remove_all id ids) ≡ false
unfolding remove_all
holds-remove_self id [] = refl
holds-remove_self id (x ∷ ids) =
    ground (arith, str_eq_iff x id, str_eq_iff id x, holds-remove_self id ids)

find-forgotten :
    (id : Str) (m : Manager) (j : Str)
    → find j (forgotten id m) ≡ (if str_eq j id then none else find j m)
unfolding find
find-forgotten id m j = elim (Bool-cases (str_eq j id)) [
  | inl e ↦ ground (arith, str_eq_iff j id, holds-remove_self id m.jobs)
  | inr e ↦ rw (e, holds-remove_all id j m.jobs e) refl
]

found-forgotten :
    (id : Str) (m : Manager) (ids : List Str)
    → holds id ids ≡ false
    → all_found m ids ≡ true
    → all_found (forgotten id m) ids ≡ true
found-forgotten id m [] h k = refl
found-forgotten id m (x ∷ ids) h k =
    ground
      (arith, str_eq_iff x id, str_eq_iff id x, find-forgotten id m x, found-forgotten id m ids)

-- When the order holds distinct jobs of the map, `List` shows as many jobs as the order has: no id
-- that it looks up is missing.
pub list-length : (m : Manager) → Listed m → length (list m) ≡ length m.order
list-length m h = list_from-length m m.order h.found

-- `Forget`, whether it removes the job or not, keeps the order one of distinct jobs of the map.
pub forget-Listed : (id : Str) (m : Manager) → Listed m → Listed (forget id m).1
unfolding forget
forget-Listed id m h = elim (Option-cases (find id m)) [
  | inl e ↦ rw (e, forget) h
  | inr (x, e) ↦ elim (Bool-cases (is_terminal x.job.state)) [
    | inr t ↦ rw (e, forget, t) h
    | inl t ↦
        rw (e, forget, t)
          (record {
            found =
                found-forgotten id m (remove_first id m.order)
                  (gone-remove_first id m.order h.unique) (found-remove_first m id m.order h.found);
            unique = distinct-remove_first id m.order h.unique;
          })
  ]
]

-- When `Forget` reports a removal the job is gone and every other job is as it was.
pub find-forget :
    (id : Str) (m : Manager) (j : Str)
    → (forget id m).0.1 ≡ true
    → find j (forget id m).1 ≡ (if str_eq j id then none else find j m)
unfolding forget
find-forget id m j h = elim (Option-cases (find id m)) [
  | inl e ↦ cc (h, rw (e, forget) at h)
  | inr (x, e) ↦ elim (Bool-cases (is_terminal x.job.state)) [
    | inr t ↦ cc (h, rw (e, forget, t) at h)
    | inl t ↦ rw (e, forget, t) (find-forgotten id m j)
  ]
]

distinct-append :
    (ids : List Str) (id : Str)
    → holds id ids ≡ false
    → distinct ids ≡ true
    → distinct (ids ++ id ∷ []) ≡ true
distinct-append [] id h k = refl
distinct-append (x ∷ ids) id h k =
    ground (arith, distinct-append ids id, holds-append ids x id, str_eq_iff x id, str_eq_iff id x)
  where
    holds-append : (xs : List Str) (j i : Str) → holds j (xs ++ i ∷ []) ≡ (holds j xs || str_eq j i)
    holds-append [] j i = ground arith
    holds-append (y ∷ xs) j i = ground (arith, holds-append xs j i)

found-append :
    (m : Manager) (ids : List Str) (id : Str)
    → all_found m ids ≡ true
    → is_some (find id m) ≡ true
    → all_found m (ids ++ id ∷ []) ≡ true
found-append m [] id h k = ground arith
found-append m (x ∷ ids) id h k = ground (arith, found-append m ids id)

-- A job with a fresh id is entered into an order of distinct jobs of the map, which stays one.
pub enter-Listed :
    (e : Entry) (m : Manager) → holds e.job.id m.order ≡ false → Listed m → Listed (enter e m)
unfolding find
enter-Listed e m f h = record {
  found =
      found-append (enter e m) m.order e.job.id (found-enter e m m.order h.found)
        (ground (arith, str_eq_refl e.job.id, lookup-insert e.job.id e.job.id e m.heap));
  unique = distinct-append m.order e.job.id f h.unique;
}
