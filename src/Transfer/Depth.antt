-- ===== src/Transfer/Depth.antt =====
-- The fuel for `expandItem` of internal/transfer/manager.go: the depth of the tree is enough.
use localsend_nas.Prelude.{
  ℕ, zero, suc, true, List, [], ◌∷◌, some, Str, Result, ok, err, All, All-map, Result-cases,
  Bool-cases, str_eq, ◌≡◌, ◌≢◌, refl, inl, inr,
}
use localsend_nas.Host.{Host}
use localsend_nas.Shares
use localsend_nas.Shares.{list}
use localsend_nas.Transfer.{ItemRef}
use localsend_nas.Transfer.Expand.{
  ExpandError, Basket, Work, then_work, expand_entries, expand_item, expand_from, expand, empty,
}

module _ {D : Type 0} (host : Host D) (d : D) (to_lower : Str → Str) (shares : Shares.Store) where
  -- Below a path of a share, directories nest at most to the given depth; at depth 0 it is a file.
  abbrev pub IsShallow : ℕ → Str → Str → Type 0
  IsShallow zero share rel =
      (es : List Shares.Entry) → list host d to_lower shares share rel ≢ ok es
  IsShallow (suc k) share rel =
      (es : List Shares.Entry)
      → list host d to_lower shares share rel ≡ ok es
      → All (λ e. e.is_dir ≡ true → IsShallow k share e.rel) es

  -- The work ends, in an error or a basket.
  abbrev Ends : Work → Type 0
  Ends w = (r : Result ExpandError Basket) × (w ≡ some r)

  then_work-Ends :
      (w : Work) (f : Basket → Work) → Ends w → ((b : Basket) → Ends (f b)) → Ends (then_work w f)
  then_work-Ends w f (err e, q) h = (err e, rw q refl)
  then_work-Ends w f (ok b, q) h = rw q (h b)

  expand_entries-Ends :
      (item : ItemRef → Str → Basket → Work) (share prefix : Str) (es : List Shares.Entry)
      (b : Basket)
      → All
          (λ e.
            e.is_dir ≡ true
            → (p : Str) (b : Basket) → Ends (item (record { share = share; rel = e.rel }) p b))
          es
      → Ends (expand_entries host d to_lower shares item share prefix es b)
  unfolding expand_entries
  expand_entries-Ends item share prefix [] b h = (ok b, refl)
  expand_entries-Ends item share prefix (e ∷ es) b (h, hs) = elim (Bool-cases e.is_dir) [
    | inl q ↦
        rw (q, expand_entries)
          (then_work-Ends _ _ (h q prefix b) (λ b1. expand_entries-Ends item share prefix es b1 hs))
    | inr q ↦ rw (q, expand_entries) (expand_entries-Ends item share prefix es _ hs)
  ]

  expand_item-Ends :
      (k : ℕ) (item : ItemRef) (prefix : Str) (b : Basket)
      → IsShallow k item.share item.rel
      → Ends (expand_item host d to_lower shares (suc k) item prefix b)
  unfolding expand_item
  expand_item-Ends zero item prefix b h =
      elim (Result-cases (list host d to_lower shares item.share item.rel)) [
        | inr (e, q) ↦ rw (q, expand_item) (_, refl)
        | inl (es, q) ↦ elim (h es q) [ ]
      ]
  expand_item-Ends (suc k) item prefix b h =
      elim (Result-cases (list host d to_lower shares item.share item.rel)) [
        | inr (e, q) ↦ rw (q, expand_item) (_, refl)
        | inl (es, q) ↦
            rw (q, expand_item)
              (expand_entries-Ends (expand_item host d to_lower shares (suc k)) item.share _ es b (
                All-map
                  (λ e l q p b1.
                    expand_item-Ends k (record { share = item.share; rel = e.rel }) p b1 (l q))
                  es (h es q)))
      ]

  expand_from-Ends :
      (depth : ℕ) (items : List ItemRef) (b : Basket)
      → All (λ i. IsShallow depth i.share i.rel) items
      → Ends (expand_from host d to_lower shares (suc depth) items b)
  unfolding expand_from
  expand_from-Ends depth [] b h = (ok b, refl)
  expand_from-Ends depth (item ∷ items) b (h, hs) = elim (Bool-cases (str_eq item.share [])) [
    | inl q ↦ rw (q, expand_from) (_, refl)
    | inr q ↦
        rw (q, expand_from)
          (then_work-Ends _ _ (expand_item-Ends depth item [] b h)
            (λ b1. expand_from-Ends depth items b1 hs))
  ]

  -- When the directories below every item nest at most to some depth, one unit of fuel more than that
  -- is enough: `expand` ends, with a basket or an error.
  pub expand-returns :
      (depth : ℕ) (items : List ItemRef)
      → All (λ i. IsShallow depth i.share i.rel) items
      → (r : Result ExpandError Basket) × (expand host d to_lower shares (suc depth) items ≡ some r)
  expand-returns depth items h = expand_from-Ends depth items empty h
