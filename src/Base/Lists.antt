-- ===== src/Base/Lists.antt =====
-- Lists measured by native numbers, under the library's names.
use Prim.Native.Nat.{ℕ, zero, suc, ◌+◌, ◌-◌, min}
use mathlib.Core.Path.{◌≡◌, refl, ◌∙◌}
use mathlib.Core.Logic.{inl, inr}
use mathlib.Core.Bool.{Bool, false, ◌||◌}
use mathlib.Core.List.{List, [], ◌∷◌, ◌++◌, reverse, reverse-cons}
use native.Mathlib.Omega.{arith}
use claimsintelligence.Base.Tests.{if◌then◌else◌, Key, ◌==◌, Bool-cases}

module _ {ℓ} {A : Type ℓ} where
  abbrev pub length : List A → ℕ
  length [] = 0
  length (x ∷ xs) = suc (length xs)

  abbrev pub take : ℕ → List A → List A
  take zero xs = []
  take (suc n) [] = []
  take (suc n) (x ∷ xs) = x ∷ take n xs

  abbrev pub drop : ℕ → List A → List A
  drop zero xs = xs
  drop (suc n) [] = []
  drop (suc n) (x ∷ xs) = drop n xs

  -- xs[-n:] for 0 < n
  abbrev pub last_n : ℕ → List A → List A
  last_n n xs = drop (length xs - n) xs

  -- [x for x in xs if p(x)]
  unfoldable pub select : (A → Bool) → List A → List A
  select p [] = []
  select p (x ∷ xs) = let rest = select p xs in if p x then x ∷ rest else rest

  abbrev pub All {κ} : (A → Type κ) → List A → Type κ
  All P [] = Unit
  All P (x ∷ xs) = P x × All P xs

  pub length-append : (xs ys : List A) → length (xs ++ ys) ≡ length xs + length ys
  length-append [] ys = omega arith
  length-append (x ∷ xs) ys = omega (arith, length-append xs ys)

  pub length-take : (n : ℕ) (xs : List A) → length (take n xs) ≡ min n (length xs)
  length-take zero xs = omega arith
  length-take (suc n) [] = omega arith
  length-take (suc n) (x ∷ xs) = omega (arith, length-take n xs)

  pub length-drop : (n : ℕ) (xs : List A) → length (drop n xs) ≡ length xs - n
  length-drop zero xs = omega arith
  length-drop (suc n) [] = omega arith
  length-drop (suc n) (x ∷ xs) = omega (arith, length-drop n xs)

  All-append {κ} : (P : A → Type κ) (xs ys : List A) → All P xs → All P ys → All P (xs ++ ys)
  All-append P [] ys h k = k
  All-append P (x ∷ xs) ys h k = (h.0, All-append P xs ys h.1 k)

  pub All-reverse {κ} : (P : A → Type κ) (xs : List A) → All P xs → All P (reverse xs)
  All-reverse P [] h = tt
  All-reverse P (x ∷ xs) h =
      rw (reverse-cons x xs) (All-append P (reverse xs) (x ∷ []) (All-reverse P xs h.1) (h.0, tt))

-- k in xs, xs.discard(k) and xs.add(k) of a set kept as a list
module _ {ℓ} {A : Type ℓ} ⦃e : Key A⦄ where
  unfoldable pub member : A → List A → Bool
  member k [] = false
  member k (x ∷ xs) = k == x || member k xs

  unfoldable pub discard : A → List A → List A
  discard k [] = []
  discard k (x ∷ xs) = let rest = discard k xs in if x == k then rest else x ∷ rest

  unfoldable pub add : A → List A → List A
  unfolding member
  add k xs = if member k xs then xs else xs ++ k ∷ []

  pub member-discard :
      (k j : A) (xs : List A) → member j (discard k xs) ≡ (if k == j then false else member j xs)
  unfolding member discard
  member-discard k j [] = ground arith
  member-discard k j (x ∷ xs) =
      ground (arith, member-discard k j xs, e.same_iff x k, e.same_iff j x, e.same_iff k j)

  member-append : (j : A) (xs ys : List A) → member j (xs ++ ys) ≡ (member j xs || member j ys)
  unfolding member
  member-append j [] ys = refl
  member-append j (x ∷ xs) ys = ground (arith, member-append j xs ys)

  pub member-add : (k j : A) (xs : List A) → member j (add k xs) ≡ (j == k || member j xs)
  unfolding add
  member-add k j xs = elim (Bool-cases (member k xs)) [
    | inl old ↦ rw old (ground (arith, e.same_iff j k))
    | inr new ↦ rw new (member-append j xs (k ∷ []) ∙ ground arith)
  ]
