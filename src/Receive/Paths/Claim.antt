-- ===== src/Receive/Paths/Claim.antt =====
-- What `claimFinalPath` of internal/receive/receive.go finds.
use mathlib.Core.Path.{subst}
use mathlib.Core.Option.{some-injective}
use native.Mathlib.Decide.{ℕ_discrete}
use localsend_nas.Prelude.{
  ℕ, zero, suc, ◌+◌, ◌<◌, ◌≤◌, true, false, [], ◌∷◌, some, Str, insert, ◌≡◌, sym, ap, ◌∙◌, arith,
  inl, inr, Bool-cases,
}
use localsend_nas.Filepath.{join_path}
use localsend_nas.Host.{Host}
use localsend_nas.Receive.{Manager}
use localsend_nas.Receive.Paths.{numbered, is_free, claim_from, claim_final_path}

module _ {D : Type 0} (host : Host D) (sid : Str) (d : D) (m : Manager) (dir base : Str) where
  -- The i-th candidate.
  abbrev pub candidate : ℕ → Str
  candidate i = join_path (dir ∷ numbered base i ∷ [])

  -- `p` is the first free candidate from the i-th on, and the manager reserves it for the session.
  pub record Claims (i : ℕ) (p : Str) (m' : Manager) : Type 0 where
    pub index : ℕ
    pub from : i ≤ index
    pub path : p ≡ candidate index
    pub free : is_free host d m p ≡ true
    pub first : (j : ℕ) → i ≤ j → j < index → is_free host d m (candidate j) ≡ false
    pub reserved : m' ≡ record m { in_progress = insert p sid m.in_progress }

  claim_now :
      (fuel i : ℕ)
      → is_free host d m (candidate i) ≡ true
      → claim_from host (suc fuel) i sid d m dir base
        ≡ some (candidate i, record m { in_progress = insert (candidate i) sid m.in_progress })
  unfolding claim_from
  claim_now fuel i free = rw (free, claim_from)

  claim_later :
      (fuel i : ℕ)
      → is_free host d m (candidate i) ≡ false
      → claim_from host (suc fuel) i sid d m dir base
        ≡ claim_from host fuel (i + 1) sid d m dir base
  unfolding claim_from
  claim_later fuel i taken = rw (taken, claim_from)

  Claims-later :
      {i : ℕ} {p : Str} {m' : Manager}
      → is_free host d m (candidate i) ≡ false
      → Claims (i + 1) p m'
      → Claims i p m'
  Claims-later {i} taken c = record {
    index = c.index;
    from = omega arith;
    path = c.path;
    free = c.free;
    first = λ j low high. elim (ℕ_discrete i j) [
      | yes e ↦ subst (λ n. is_free host d m (candidate n) ≡ false) e taken
      | no ne ↦ c.first j (omega arith) high
    ];
    reserved = c.reserved;
  }

  Claims-now :
      {i : ℕ} {p : Str} {m' : Manager}
      → is_free host d m (candidate i) ≡ true
      → ◌≡◌ {A = Str × Manager}
          (candidate i, record m { in_progress = insert (candidate i) sid m.in_progress })
          (p, m')
      → Claims i p m'
  Claims-now {i} free e = record {
    index = i;
    from = omega arith;
    path = sym (ap (λ r. r.0) e);
    free = subst (λ q. is_free host d m q ≡ true) (ap (λ r. r.0) e) free;
    first = λ j low high. absurd (omega arith);
    reserved =
        sym (ap (λ r. r.1) e)
        ∙ ap (λ q. record m { in_progress = insert q sid m.in_progress }) (ap (λ r. r.0) e);
  }

  claim_from-Claims :
      (fuel i : ℕ) {p : Str} {m' : Manager}
      → claim_from host fuel i sid d m dir base ≡ some (p, m')
      → Claims i p m'
  unfolding claim_from
  claim_from-Claims zero i h = cc
  claim_from-Claims (suc fuel) i {p} {m'} h = elim (Bool-cases (is_free host d m (candidate i))) [
    | inl free ↦ Claims-now free (some-injective _ _ (sym (claim_now fuel i free) ∙ h))
    | inr taken ↦
        Claims-later taken (claim_from-Claims fuel (i + 1) (sym (claim_later fuel i taken) ∙ h))
  ]

  -- With fuel above the distance to a free candidate, one is found.
  claim_from_total :
      (fuel i k : ℕ)
      → k < fuel
      → is_free host d m (candidate (i + k)) ≡ true
      → (p : Str) × (m' : Manager) × (claim_from host fuel i sid d m dir base ≡ some (p, m'))
  claim_from_total zero i k h free = absurd (omega arith)
  claim_from_total (suc fuel) i zero h free = (
    _,
    _,
    claim_now fuel i (subst (λ n. is_free host d m (candidate n) ≡ true) (omega arith) free),
  )
  claim_from_total (suc fuel) i (suc k) h free =
      elim (Bool-cases (is_free host d m (candidate i))) [
        | inl now ↦ (_, _, claim_now fuel i now)
        | inr taken ↦
            let (p, m', e) =
              claim_from_total fuel (i + 1) k (omega arith)
                (subst (λ n. is_free host d m (candidate n) ≡ true) (omega arith) free) in
            (p, m', claim_later fuel i taken ∙ e)
      ]

  -- When `claimFinalPath` returns, its result is the first of the numbered names that neither exists
  -- nor is being received, and it is reserved for the session.
  pub claim_final_path-Claims :
      (fuel : ℕ) (p : Str) (m' : Manager)
      → claim_final_path host fuel sid d m dir base ≡ some (p, m')
      → Claims 0 p m'
  unfolding claim_final_path
  claim_final_path-Claims fuel p m' h = claim_from-Claims fuel 0 h

  -- The search for a name returns if it is let run as far as some free name.
  pub claim_final_path-returns :
      (fuel k : ℕ)
      → k < fuel
      → is_free host d m (candidate k) ≡ true
      → (p : Str) × (m' : Manager) × (claim_final_path host fuel sid d m dir base ≡ some (p, m'))
  unfolding claim_final_path
  claim_final_path-returns fuel k h free =
      claim_from_total fuel 0 k h
        (subst (λ n. is_free host d m (candidate n) ≡ true) (omega arith) free)
