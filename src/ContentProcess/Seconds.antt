-- ===== src/ContentProcess/Seconds.antt =====
-- The seconds that services/content_process_service.py adds up, as Python's floats: a number that is
-- not negative is a whole number of units of 2^-1074 seconds, of 53 binary digits at most before
-- zeros, and a sum is rounded to such a number, to the even one of two that are as near. Sums
-- beyond the greatest float are left out.
use claimsintelligence.Base.{
  ℕ, zero, suc, ◌+◌, ◌*◌, ◌<◌, ◌≤◌, ◌≡◌, ◌⊎◌, inl, inr, refl, Bool, true, false, ◌&&◌, ◌||◌,
  if◌then◌else◌, ◌==◌, nat_key, ltb, arith,
}
use Prim.Native.Nat.{◌/◌, ◌%◌}
use native.Mathlib.Nat.{div-add-mod', mod-lt, add-mul}

-- The unit of the last of 53 digits: the least `u` times a power of two for which `n` has no more.
unfoldable pub last_unit : ℕ → ℕ → ℕ → ℕ
last_unit zero n u = u
last_unit (suc fuel) n u = elim (ltb n (9007199254740992 * u)) [
  | true ↦ u
  | false ↦ last_unit fuel n (2 * u)
]

unfoldable pub round_to : ℕ → ℕ → ℕ
round_to n u =
    let q = n / u in
    let r = n % u in if ltb (2 * r) u || ((2 * r == u) && (q % 2 == 0)) then q * u else (q + 1) * u

unfoldable pub plus : ℕ → ℕ → ℕ
plus a b = round_to (a + b) (last_unit (a + b) (a + b) 1)

-- The unit is one, or of the size of the 53rd digit of `n` at most.
abbrev IsFine : ℕ → ℕ → Type 0
IsFine n u = (0 < u) × ((u ≡ 1) ⊎ (4503599627370496 * u ≤ n))

last_unit-IsFine : (fuel n u : ℕ) → IsFine n u → IsFine n (last_unit fuel n u)
unfolding last_unit
last_unit-IsFine zero n u h = h
last_unit-IsFine (suc fuel) n u h =
    go (ltb n (9007199254740992 * u)) refl (last_unit-IsFine fuel n (2 * u))
  where
    go :
        (b : Bool)
        → ltb n (9007199254740992 * u) ≡ b
        → (IsFine n (2 * u) → IsFine n (last_unit fuel n (2 * u)))
        → IsFine n (elim b [ true ↦ u | false ↦ last_unit fuel n (2 * u) ])
    go true e later = h
    go false e later = later (omega (arith, h.0), inr (ground (arith, e)))

-- Rounding takes away half a unit at most.
le-round_to : (n u : ℕ) → 0 < u → 2 * n ≤ 2 * round_to n u + u
unfolding round_to
le-round_to n u pos =
    go (n / u) (n % u) (ltb (2 * (n % u)) u || ((2 * (n % u) == u) && (n / u % 2 == 0)))
      (div-add-mod' n u) (mod-lt n pos) (λ h. ground (arith, h))
  where
    go :
        (q r : ℕ) (b : Bool)
        → q * u + r ≡ n
        → r < u
        → (b ≡ true → 2 * r ≤ u)
        → 2 * n ≤ 2 * (if b then q * u else (q + 1) * u) + u
    go q r true e lt small = omega (arith, e, small refl)
    go q r false e lt small = rw (add-mul q 1 u) (omega (arith, e))

-- Where the interval is a part in 2^51 of the time at least, a sum grows by half of it at least.
pub plus_grows : (a b time : ℕ) → a < time → time ≤ 2251799813685248 * b → 2 * a + b ≤ 2 * plus a b
unfolding plus
plus_grows a b time lt coarse =
    go (last_unit (a + b) (a + b) 1) (last_unit-IsFine (a + b) (a + b) 1 (omega arith, inl refl))
  where
    go : (u : ℕ) → IsFine (a + b) u → 2 * a + b ≤ 2 * round_to (a + b) u
    go u (pos, inl one) = omega (arith, le-round_to (a + b) u pos, one)
    go u (pos, inr fine) = omega (arith, le-round_to (a + b) u pos, fine)
