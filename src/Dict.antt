-- ===== src/Dict.antt =====
-- Python's `dict`: the entries in the order of insertion. A write to a key that is there keeps its
-- place.
use mathlib.Core.Option.{some-injective}
use mathlib.Core.Path.{subst}
use claimsintelligence.Base.{
  ◌≡◌, refl, Option, none, some, List, [], ◌∷◌, arith, if◌then◌else◌, Key, ◌==◌, All, Bool, true,
  false,
}

abbrev pub Dict {ℓ κ} : Type ℓ → Type κ → Type (ℓ ⊔ κ)
Dict K V = List (K × V)

module _ {ℓ κ} {K : Type ℓ} {V : Type κ} ⦃e : Key K⦄ where
  -- d.get(k)
  unfoldable pub get : Dict K V → K → Option V
  get [] k = none
  get ((j, v) ∷ d) k = if j == k then some v else get d k

  -- d[k] = v
  unfoldable pub set : Dict K V → K → V → Dict K V
  set [] k v = (k, v) ∷ []
  set ((j, w) ∷ d) k v = if j == k then (j, v) ∷ d else (j, w) ∷ set d k v

  -- d.pop(k, None)
  unfoldable pub pop : Dict K V → K → Dict K V
  pop [] k = []
  pop ((j, w) ∷ d) k = let rest = pop d k in if j == k then rest else (j, w) ∷ rest

  pub get-set :
      (d : Dict K V) (k j : K) (v : V) → get (set d k v) j ≡ (if k == j then some v else get d j)
  unfolding get set
  get-set [] k j v = refl
  get-set ((i, w) ∷ d) k j v =
      ground (arith, get-set d k j v, e.same_iff i k, e.same_iff i j, e.same_iff k j)

  pub get-pop : (d : Dict K V) (k j : K) → get (pop d k) j ≡ (if k == j then none else get d j)
  unfolding get pop
  get-pop [] k j = ground arith
  get-pop ((i, w) ∷ d) k j =
      ground (arith, get-pop d k j, e.same_iff i k, e.same_iff i j, e.same_iff k j)

pub ruleset dict_laws = (get-set, get-pop)

-- What holds of every entry.
module _ {ℓ κ μ} {K : Type ℓ} {V : Type κ} ⦃e : Key K⦄ (P : K × V → Type μ) where
  All-if : (b : Bool) (d d' : Dict K V) → All P d → All P d' → All P (if b then d else d')
  All-if true d d' h h' = h
  All-if false d d' h h' = h'

  pub All-set :
      (d : Dict K V) (k : K) (v : V)
      → P (k, v)
      → ((j : K) (w : V) → P (j, w) → P (j, v))
      → All P d
      → All P (set d k v)
  unfolding set
  All-set [] k v new replace h = (new, tt)
  All-set ((j, w) ∷ d) k v new replace h =
      All-if (j == k) ((j, v) ∷ d) ((j, w) ∷ set d k v) (replace j w h.0, h.1)
        (h.0, All-set d k v new replace h.1)

  pub All-pop : (d : Dict K V) (k : K) → All P d → All P (pop d k)
  unfolding pop
  All-pop [] k h = tt
  All-pop ((j, w) ∷ d) k h =
      All-if (j == k) (pop d k) ((j, w) ∷ pop d k) (All-pop d k h.1) (h.0, All-pop d k h.1)

  some_entry :
      (b : Bool) (j : K) (w v : V) (o : Option V)
      → P (j, w)
      → (o ≡ some v → (i : K) × P (i, v))
      → (if b then some w else o) ≡ some v
      → (i : K) × P (i, v)
  some_entry true j w v o p rest q = (j, subst (λ x. P (j, x)) (some-injective w v q) p)
  some_entry false j w v o p rest q = rest q

  pub All-get : (d : Dict K V) (k : K) (v : V) → get d k ≡ some v → All P d → (j : K) × P (j, v)
  unfolding get
  All-get [] k v q h = cc
  All-get ((j, w) ∷ d) k v q h =
      some_entry (j == k) j w v (get d k) h.0 (λ q'. All-get d k v q' h.1) q
