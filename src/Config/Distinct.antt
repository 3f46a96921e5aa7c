-- ===== src/Config/Distinct.antt =====
-- The names of the shares that `Parse` of internal/config/config.go accepts.
use localsend_nas.Prelude.{
  Bool, true, false, List, [], ◌∷◌, Str, Map, str_eq_iff, lookup, insert, lookup-insert, has_key,
  All, Bool-cases, ok, ◌≡◌, ◌≢◌, ◌↔◌, refl, arith, inl, inr,
}
use localsend_nas.Config.{Share}
use localsend_nas.Config.Flags.{check_names}

-- No two shares have the same name.
abbrev pub Apart : List Share → Type 0
Apart [] = Unit
Apart (sh ∷ shares) = All (λ other. sh.name ≢ other.name) shares × Apart shares

abbrev Unseen : Map Bool → List Share → Type 0
Unseen seen = All (λ sh. has_key sh.name seen ≡ false)

has_key-insert :
    (k j : Str) (seen : Map Bool)
    → (has_key j (insert k true seen) ≡ false) ↔ ((k ≢ j) × (has_key j seen ≡ false))
has_key-insert k j seen = ground (arith, lookup-insert k j true seen, str_eq_iff k j)

Unseen-insert :
    (k : Str) (seen : Map Bool) (shares : List Share)
    → Unseen (insert k true seen) shares
      ↔ (All (λ other. k ≢ other.name) shares × Unseen seen shares)
Unseen-insert k seen [] = (λ _. (tt, tt), λ _. tt)
Unseen-insert k seen (sh ∷ shares) =
    let first = has_key-insert k sh.name seen in
    let (split_off, put) = Unseen-insert k seen shares in
    (
      λ h. let (a, b) = first.0 h.0 in let (c, d) = split_off h.1 in ((a, c), (b, d)),
      λ h. (first.1 (h.0.0, h.1.0), put (h.0.1, h.1.1)),
    )

Unseen-nil : (shares : List Share) → Unseen [] shares
unfolding lookup
Unseen-nil [] = tt
Unseen-nil (sh ∷ shares) = (refl, Unseen-nil shares)

check_names-seen :
    (seen : Map Bool) (shares : List Share)
    → (check_names seen shares ≡ ok tt) ↔ (Unseen seen shares × Apart shares)
unfolding check_names
check_names-seen seen [] = (λ _. (tt, tt), λ _. refl)
check_names-seen seen (sh ∷ shares) =
    let (reads, back) = check_names-seen (insert sh.name true seen) shares in
    let (split_off, put) = Unseen-insert sh.name seen shares in
    elim (Bool-cases (has_key sh.name seen)) [
      | inl e ↦ (λ h. cc (h, rw (e, check_names) at h), λ h. cc (e, h.0.0))
      | inr e ↦ (
        λ h.
            let (later, apart) = reads (rw (e, check_names) at h) in
            let (names, unseen) = split_off later in ((e, unseen), (names, apart)),
        λ h. rw (e, check_names) (back (put (h.1.0, h.0.1), h.1.1)),
      )
    ]

-- The loop over the shares finds no name twice exactly when the names are pairwise distinct.
pub check_names_iff : (shares : List Share) → (check_names [] shares ≡ ok tt) ↔ Apart shares
check_names_iff shares =
    let (reads, back) = check_names-seen [] shares in
    (λ h. (reads h).1, λ h. back (Unseen-nil shares, h))
