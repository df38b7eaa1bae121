-- ===== src/Base/Texts.antt =====
-- Native texts, as the code uses them: `str.strip`, truth, `startswith`.
use Prim.Native.Nat.{ℕ, zero, suc, ◌+◌}
use Prim.Native.Char.{Char, code}
use Prim.Native.String.{String, ◌∷◌}
use mathlib.Core.Path.{◌≡◌, refl}
use mathlib.Core.Bool.{Bool, true, false, ◌&&◌, ◌||◌}
use mathlib.Core.Logic.{inl, inr}
use mathlib.Core.Option.{none, some}
use native.Mathlib.Omega.{arith}
use package.text.Mathlib.Text.{find?}
use package.text.Mathlib.TextLemmas.{nil≢cons, tail-eq_of_cons-eq}
use claimsintelligence.Base.Tests.{leb, eqb, if◌then◌else◌, Bool-cases}

-- The characters that `str.strip()` removes.
unfoldable pub is_space : ℕ → Bool
is_space c =
    (leb 9 c && leb c 13)
    || (leb 28 c && leb c 32)
    || eqb c 0x85
    || eqb c 0xa0
    || eqb c 0x1680
    || (leb 0x2000 c && leb c 0x200a)
    || eqb c 0x2028
    || eqb c 0x2029
    || eqb c 0x202f
    || eqb c 0x205f
    || eqb c 0x3000

-- `not s` of a text
abbrev pub is_empty : String → Bool
is_empty String.[] = true
is_empty (c ∷ s) = false

-- s.lstrip(chars), s.rstrip(chars) and s.strip(chars), for the characters that a test names
unfoldable pub lstrip_by : (ℕ → Bool) → String → String
lstrip_by p String.[] = String.[]
lstrip_by p (c ∷ s) = let rest = lstrip_by p s in if p (code c) then rest else c ∷ s

-- A character in front of what is left behind it: it goes only if nothing is.
abbrev pub strip_cons : (ℕ → Bool) → Char → String → String
strip_cons p c String.[] = if p (code c) then String.[] else c ∷ String.[]
strip_cons p c (d ∷ s) = c ∷ d ∷ s

unfoldable pub rstrip_by : (ℕ → Bool) → String → String
rstrip_by p String.[] = String.[]
rstrip_by p (c ∷ s) = strip_cons p c (rstrip_by p s)

unfoldable pub strip_by : (ℕ → Bool) → String → String
unfolding lstrip_by rstrip_by
strip_by p s = lstrip_by p (rstrip_by p s)

-- s.strip()
abbrev pub strip : String → String
strip = strip_by is_space

-- s.split(sep)[0] for a separator that a test names
unfoldable pub before : (ℕ → Bool) → String → String
before p String.[] = String.[]
before p (c ∷ s) = if p (code c) then String.[] else c ∷ before p s

abbrev pub has : (ℕ → Bool) → String → Bool
has p String.[] = false
has p (c ∷ s) = p (code c) || has p s

-- s.split(sep)[-1]
unfoldable pub after_last : (ℕ → Bool) → String → String
after_last p String.[] = String.[]
after_last p (c ∷ s) =
    let rest = after_last p s in if has p s then rest else if p (code c) then s else c ∷ s

-- s[n:]
unfoldable pub skip : ℕ → String → String
skip zero s = s
skip (suc n) String.[] = String.[]
skip (suc n) (c ∷ s) = skip n s

-- s[:n]
unfoldable pub upto : ℕ → String → String
upto zero s = String.[]
upto (suc n) String.[] = String.[]
upto (suc n) (c ∷ s) = c ∷ upto n s

abbrev pub lower_code : ℕ → ℕ
lower_code c = if leb 65 c && leb c 90 then c + 32 else c

-- s.lower() == word, for a lower-case word of ASCII letters without k
unfoldable pub reads_as : String → String → Bool
reads_as String.[] String.[] = true
reads_as String.[] (d ∷ t) = false
reads_as (c ∷ s) String.[] = false
reads_as (c ∷ s) (d ∷ t) = eqb (lower_code (code c)) (code d) && reads_as s t

-- needle in s
abbrev pub contains : String → String → Bool
contains s needle = elim (find? s needle) [ none ↦ false | some i ↦ true ]

-- What is left begins and ends with no stripped character, so to strip again changes nothing.
rstrip_by-head :
    (p : ℕ → Bool) (c : Char) (s : String)
    → p (code c) ≡ false
    → (t : String) × (rstrip_by p (c ∷ s) ≡ c ∷ t)
unfolding rstrip_by
rstrip_by-head p c s h = go (rstrip_by p s)
  where
    go : (r : String) → (t : String) × (strip_cons p c r ≡ c ∷ t)
    go String.[] = (String.[], rw h)
    go (d ∷ r) = (d ∷ r, refl)

rstrip_by-strip_cons :
    (p : ℕ → Bool) (c : Char) (r : String)
    → rstrip_by p r ≡ r
    → rstrip_by p (strip_cons p c r) ≡ strip_cons p c r
unfolding rstrip_by
rstrip_by-strip_cons p c String.[] h = elim (Bool-cases (p (code c))) [
  | inl e ↦ rw e
  | inr e ↦ rw (e, rstrip_by) (rw e)
]
rstrip_by-strip_cons p c (d ∷ r) h = rw h

rstrip_by_idem : (p : ℕ → Bool) (s : String) → rstrip_by p (rstrip_by p s) ≡ rstrip_by p s
unfolding rstrip_by
rstrip_by_idem p String.[] = refl
rstrip_by_idem p (c ∷ s) = rstrip_by-strip_cons p c (rstrip_by p s) (rstrip_by_idem p s)

lstrip_by_idem : (p : ℕ → Bool) (s : String) → lstrip_by p (lstrip_by p s) ≡ lstrip_by p s
unfolding lstrip_by
lstrip_by_idem p String.[] = refl
lstrip_by_idem p (c ∷ s) = ground (arith, lstrip_by_idem p s)

strip_cons-cons : (p : ℕ → Bool) (c : Char) (r s : String) → strip_cons p c r ≡ c ∷ s → r ≡ s
strip_cons-cons p c String.[] s h = elim (Bool-cases (p (code c))) [
  | inl e ↦ absurd (nil≢cons (rw e at h))
  | inr e ↦ tail-eq_of_cons-eq (rw e at h)
]
strip_cons-cons p c (d ∷ r) s h = cc

-- A text that ends in no stripped character still does when its front is stripped.
rstrip_by-lstrip_by :
    (p : ℕ → Bool) (s : String) → rstrip_by p s ≡ s → rstrip_by p (lstrip_by p s) ≡ lstrip_by p s
unfolding rstrip_by lstrip_by
rstrip_by-lstrip_by p String.[] h = refl
rstrip_by-lstrip_by p (c ∷ s) h =
    ground (arith, rstrip_by-lstrip_by p s, strip_cons-cons p c (rstrip_by p s) s h)

pub strip_by_idem : (p : ℕ → Bool) (s : String) → strip_by p (strip_by p s) ≡ strip_by p s
unfolding strip_by
strip_by_idem p s =
    rw (rstrip_by-lstrip_by p (rstrip_by p s) (rstrip_by_idem p s))
      (lstrip_by_idem p (rstrip_by p s))
