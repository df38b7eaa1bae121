-- ===== src/DocumentProcess/Naming.antt =====
-- The order of the names that document_process_executor.py gives to claims.
use claimsintelligence.Base.{
  ℕ, ◌+◌, ◌≤◌, ◌<◌, ◌≡◌, refl, ◌⊎◌, inl, inr, some, List, [], ◌∷◌, ◌==◌, nat_key, eqb_iff, arith,
  Bool-cases,
}
use claimsintelligence.DocumentProcess.{next_sequence, generate_names}

-- The times do not go back, from `a` on.
abbrev pub NeverBack : ℕ → List ℕ → Type 0
NeverBack a [] = Unit
NeverBack a (t ∷ ts) = (a ≤ t) × NeverBack t ts

abbrev pub IsBefore : ℕ × ℕ → ℕ × ℕ → Type 0
IsBefore (a, i) (b, j) = (a < b) ⊎ ((a ≡ b) × (i < j))

-- Each name sorts before the next, from `p` on.
abbrev pub Rising : ℕ × ℕ → List (ℕ × ℕ) → Type 0
Rising p [] = Unit
Rising p (q ∷ qs) = IsBefore p q × Rising q qs

-- After a name, where the times of the claims do not go back: each further name sorts after the one before
-- it, by the time and then by the number.
pub generate_names-Rising :
    (ts : List ℕ) (last seq : ℕ)
    → NeverBack last ts
    → Rising (last, seq) (generate_names ts (record { last_ts = some last; seq = seq }))
unfolding generate_names next_sequence
generate_names-Rising [] last seq h = tt
generate_names-Rising (t ∷ ts) last seq (le, h) = elim (Bool-cases (t == last)) [
  | inl e ↦
      rw (e, (eqb_iff t last).0 e)
        (
          inr (refl, omega arith),
          generate_names-Rising ts last (seq + 1) (rw ((eqb_iff t last).0 e) at h),
        )
  | inr e ↦ rw e (inl (ground (arith, le)), generate_names-Rising ts t 0 h)
]
