-- ===== src/Transfer/Counts.antt =====
-- What `expand` of internal/transfer/manager.go counts.
use localsend_nas.Prelude.{
  ℕ, zero, suc, ◌+◌, List, [], ◌∷◌, ◌++◌, none, some, Str, ℤ, pos, str_eq, ◌+₆₄◌, length,
  length-append, ok, err, Result-cases, Bool-cases, ◌≡◌, refl, sym, ap, ◌∙◌, arith, inl, inr,
}
use localsend_nas.Host.{Host}
use localsend_nas.Shares
use localsend_nas.Shares.{list, open_file}
use localsend_nas.Transfer.{ItemRef, FileProgress}
use localsend_nas.Transfer.Expand.{
  Basket, Work, then_work, empty, file_id, add_file, expand_file, expand_entries, expand_item,
  expand_from, expand,
}

-- The sizes, added from the first on as int64.
abbrev pub sum_from : ℤ → List FileProgress → ℤ
sum_from n [] = n
sum_from n (f ∷ fs) = sum_from (n +₆₄ f.size) fs

-- The ids are f0, f1, … in order.
abbrev pub ids_from : ℕ → List FileProgress → List Str
ids_from n [] = []
ids_from n (_ ∷ fs) = file_id n ∷ ids_from (suc n) fs

abbrev pub ids : List FileProgress → List Str
ids [] = []
ids (f ∷ fs) = f.id ∷ ids fs

-- The count and the total are those of the files, whose ids number them.
pub record Counts (b : Basket) : Type 0 where
  pub count : b.n ≡ length b.files
  pub sum : b.total ≡ sum_from (pos 0) b.files
  pub numbered : ids b.files ≡ ids_from 0 b.files

sum_from-append :
    (fs : List FileProgress) (f : FileProgress) (n : ℤ)
    → sum_from n (fs ++ f ∷ []) ≡ sum_from n fs +₆₄ f.size
sum_from-append [] f n = refl
sum_from-append (g ∷ fs) f n = sum_from-append fs f (n +₆₄ g.size)

numbered-append :
    (fs : List FileProgress) (f : FileProgress) (n : ℕ)
    → ids fs ≡ ids_from n fs
    → f.id ≡ file_id (n + length fs)
    → ids (fs ++ f ∷ []) ≡ ids_from n (fs ++ f ∷ [])
numbered-append [] f n h k =
    let n_0 : n + 0 ≡ n = omega arith in ap (λ t. t ∷ []) (k ∙ ap file_id n_0)
numbered-append (g ∷ fs) f n h k =
    let moved : n + suc (length fs) ≡ suc n + length fs = omega arith in
    let later : ids fs ≡ ids_from (suc n) fs = cc in
    let first : g.id ≡ file_id n = cc in
    ap (λ t. t ∷ ids (fs ++ f ∷ [])) first
    ∙ ap (λ t. file_id n ∷ t) (numbered-append fs f (suc n) later (k ∙ ap file_id moved))

add_file-Counts :
    (name : Str) (src : ItemRef) (size : ℤ) (b : Basket)
    → Counts b
    → Counts (add_file name src size b)
unfolding add_file
add_file-Counts name src size b h = record {
  count = omega (arith, h.count, length-append b.files (_ ∷ []));
  sum = ap (λ t. t +₆₄ size) h.sum ∙ sym (sum_from-append b.files _ (pos 0));
  numbered = numbered-append b.files _ 0 h.numbered (ap file_id (omega (arith, h.count)));
}

abbrev Good : Work → Type 0
Good none = Unit
Good (some (err e)) = Unit
Good (some (ok b)) = Counts b

module _ {D : Type 0} (host : Host D) (d : D) (to_lower : Str → Str) (shares : Shares.Store) where
  expand_file-Good :
      (item : ItemRef) (prefix : Str) (b : Basket)
      → Counts b
      → Good (some (expand_file host d to_lower shares item prefix b))
  expand_file-Good item prefix b h =
      elim (Result-cases (open_file host d shares item.share item.rel)) [
        | inr (e, q) ↦ rw (q, Good) tt
        | inl ((p, e), q) ↦ rw (q, Good) (add_file-Counts _ item _ b h)
      ]

  -- A step that keeps baskets good.
  record Keeps (f : Basket → Work) : Type 0 where
    pub keeps : (b : Basket) → Counts b → Good (f b)

  then_work-Good : (w : Work) (f : Basket → Work) → Good w → Keeps f → Good (then_work w f)
  then_work-Good none f h k = tt
  then_work-Good (some (err e)) f h k = tt
  then_work-Good (some (ok b)) f h k = k.keeps b h

  expand_entries-Good :
      (item : ItemRef → Str → Basket → Work) (share prefix : Str) (es : List Shares.Entry)
      → ((i : ItemRef) (p : Str) → Keeps (item i p))
      → Keeps (expand_entries host d to_lower shares item share prefix es)
  unfolding expand_entries
  expand_entries-Good item share prefix [] k = record { keeps = λ b h. h }
  expand_entries-Good item share prefix (e ∷ es) k =
      let rest = expand_entries-Good item share prefix es k in
      record {
        keeps = λ b h. elim (Bool-cases e.is_dir) [
          | inl q ↦ rw q (then_work-Good _ _ ((k _ prefix).keeps b h) rest)
          | inr q ↦ rw q (rest.keeps _ (add_file-Counts _ _ _ b h))
        ];
      }

  expand_item-Good :
      (fuel : ℕ) (item : ItemRef) (prefix : Str)
      → Keeps (expand_item host d to_lower shares fuel item prefix)
  unfolding expand_item
  expand_item-Good zero item prefix = record { keeps = λ b h. tt }
  expand_item-Good (suc k) item prefix = record {
    keeps = λ b h. elim (Result-cases (list host d to_lower shares item.share item.rel)) [
      | inr (e, q) ↦ rw (q, Good) (expand_file-Good item prefix b h)
      | inl (entries, q) ↦
          rw (q, Good)
            ((expand_entries-Good (expand_item host d to_lower shares k) item.share _ entries
                (λ i p. expand_item-Good k i p)).keeps
              b h)
    ];
  }

  expand_from-Good :
      (fuel : ℕ) (items : List ItemRef) → Keeps (expand_from host d to_lower shares fuel items)
  unfolding expand_from
  expand_from-Good fuel [] = record { keeps = λ b h. h }
  expand_from-Good fuel (item ∷ items) = record {
    keeps = λ b h. elim (Bool-cases (str_eq item.share [])) [
      | inl q ↦ rw q tt
      | inr q ↦ rw q (
          then_work-Good _ _ ((expand_item-Good fuel item []).keeps b h)
            (expand_from-Good fuel items))
    ];
  }

  -- When a basket is expanded, the count is that of its files, the total is the sum of their sizes as
  -- int64, and the ids are f0, f1, … in order.
  pub expand-Counts :
      (fuel : ℕ) (items : List ItemRef) (b : Basket)
      → expand host d to_lower shares fuel items ≡ some (ok b)
      → Counts b
  expand-Counts fuel items b h = rw h at (
      (expand_from-Good fuel items).keeps empty
        (record { count = refl; sum = refl; numbered = refl }))
