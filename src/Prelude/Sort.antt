-- ===== src/Prelude/Sort.antt =====
-- sort.Slice and sort.Strings.
use mathlib.Core.List.{Perm}
use mathlib.Core.List.Perm
use mathlib.Core.Path.{◌≡◌}
use mathlib.Core.Bool.{Bool, false}
use mathlib.Core.List.{List, [], ◌∷◌}
use localsend_nas.Prelude.Tests.{if◌then◌else◌, Bool-cases}
use localsend_nas.Prelude.Lists.{All}
use mathlib.Core.Logic.{inl, inr}

-- Insertion into a sorted list. The order of equal items is not fixed
-- by the library; here it is that of the input.
unfoldable pub insert_sorted {ℓ} : {A : Type ℓ} → (A → A → Bool) → A → List A → List A
insert_sorted less x [] = x ∷ []
insert_sorted less x (y ∷ ys) =
    let rest = insert_sorted less x ys in if less y x then y ∷ rest else x ∷ y ∷ ys

unfoldable pub sort {ℓ} : {A : Type ℓ} → (A → A → Bool) → List A → List A
unfolding insert_sorted
sort less [] = []
sort less (x ∷ xs) = insert_sorted less x (sort less xs)

module _ {ℓ} {A : Type ℓ} (less : A → A → Bool) where
  insert_sorted-perm : (x : A) (ys : List A) → Perm (insert_sorted less x ys) (x ∷ ys)
  unfolding insert_sorted
  insert_sorted-perm x [] = Perm.refl (x ∷ [])
  insert_sorted-perm x (y ∷ ys) = elim (Bool-cases (less y x)) [
    | inl e ↦ rw e (Perm.trans (Perm.cons y (insert_sorted-perm x ys)) (Perm.swap x y ys))
    | inr e ↦ rw e (Perm.refl (x ∷ y ∷ ys))
  ]

  -- Sorting keeps the items, each as often.
  pub sort-perm : (xs : List A) → Perm (sort less xs) xs
  unfolding sort
  sort-perm [] = Perm.refl []
  sort-perm (x ∷ xs) = Perm.trans (insert_sorted-perm x (sort less xs)) (Perm.cons x (sort-perm xs))

  -- No later item is less than an earlier one.
  abbrev pub IsSorted : List A → Type 0
  IsSorted [] = Unit
  IsSorted (x ∷ xs) = All (λ y. less y x ≡ false) xs × IsSorted xs

All-insert_sorted {ℓ κ} :
    {A : Type ℓ} (P : A → Type κ) (less : A → A → Bool) (x : A) (ys : List A)
    → P x
    → All P ys
    → All P (insert_sorted less x ys)
unfolding insert_sorted
All-insert_sorted P less x [] h k = (h, tt)
All-insert_sorted P less x (y ∷ ys) h (k, ks) = elim (Bool-cases (less y x)) [
  | inl q ↦ rw q (k, All-insert_sorted P less x ys h ks)
  | inr q ↦ rw q (h, (k, ks))
]

pub All-sort {ℓ κ} :
    {A : Type ℓ} (P : A → Type κ) (less : A → A → Bool) (xs : List A)
    → All P xs
    → All P (sort less xs)
unfolding sort
All-sort P less [] h = tt
All-sort P less (x ∷ xs) (h, hs) =
    All-insert_sorted P less x (sort less xs) h (All-sort P less xs hs)
