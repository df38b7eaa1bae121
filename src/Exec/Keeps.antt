-- ===== src/Exec/Keeps.antt =====
-- Invariants of actions: whatever an action does, and whether it returns or raises, the state
-- after it satisfies what the state before it did. One rule for each way to build an action.
use claimsintelligence.Base.{Bool, true, false, if◌then◌else◌}
use claimsintelligence.Exec.{
  Exn, Outcome, returned, raised, Exec, pure, raise, gets, modify, catch, catch_exception, finally,
  finally_do, is_cancelled, recover, continue, ◌>>=◌,
}

pub record Keeps {ℓ} {S A : Type ℓ} (P : S → Type ℓ) (m : Exec S A) : Type ℓ where
  pub after : (s : S) → P s → P (m s).1

module _ {ℓ} {S A : Type ℓ} {P : S → Type ℓ} where
  pub Keeps-pure : (a : A) → Keeps P (pure a)
  unfolding pure
  Keeps-pure a = record { after = λ s h. h }

  pub Keeps-raise : (e : Exn) → Keeps P (raise {A = A} e)
  unfolding raise
  Keeps-raise e = record { after = λ s h. h }

  pub Keeps-gets : (f : S → A) → Keeps P (gets f)
  unfolding gets
  Keeps-gets f = record { after = λ s h. h }

  pub Keeps-if : (b : Bool) (m n : Exec S A) → Keeps P m → Keeps P n → Keeps P (if b then m else n)
  Keeps-if true m n km kn = km
  Keeps-if false m n km kn = kn

  recover-Keeps :
      (r : Outcome A) (h : Exn → Exec S A)
      → ((e : Exn) → Keeps P (h e))
      → (s : S) → P s
      → P (recover r h s).1
  recover-Keeps (returned a) h kh s p = p
  recover-Keeps (raised e) h kh s p = (kh e).after s p

  pub Keeps-catch :
      (m : Exec S A) (h : Exn → Exec S A)
      → Keeps P m
      → ((e : Exn) → Keeps P (h e))
      → Keeps P (catch m h)
  unfolding catch
  Keeps-catch m h km kh = record {
    after = λ s p. let (r, s') = m s in recover-Keeps r h kh s' (km.after s p);
  }

  pub Keeps-catch_exception :
      (m : Exec S A) (h : Exn → Exec S A)
      → Keeps P m
      → ((e : Exn) → Keeps P (h e))
      → Keeps P (catch_exception m h)
  unfolding catch_exception
  Keeps-catch_exception m h km kh =
      Keeps-catch m _ km λ e. Keeps-if (is_cancelled e) (raise e) (h e) (Keeps-raise e) (kh e)

  pub Keeps-finally :
      (m : Exec S A) (f : S → S) → Keeps P m → ((s : S) → P s → P (f s)) → Keeps P (finally m f)
  unfolding finally
  Keeps-finally m f km kf = record { after = λ s p. let (r, s') = m s in kf s' (km.after s p) }

  pub Keeps-finally_do :
      (m : Exec S A) (n : Exec S (Unit {ℓ})) → Keeps P m → Keeps P n → Keeps P (finally_do m n)
  unfolding finally_do
  Keeps-finally_do m n km kn = record {
    after = λ s p. let (r, s') = m s in kn.after s' (km.after s p);
  }

module _ {ℓ} {S : Type ℓ} {P : S → Type ℓ} where
  pub Keeps-modify : (f : S → S) → ((s : S) → P s → P (f s)) → Keeps P (modify f)
  unfolding modify
  Keeps-modify f kf = record { after = kf }

module _ {ℓ} {S A B : Type ℓ} {P : S → Type ℓ} where
  continue-Keeps :
      (r : Outcome A) (f : A → Exec S B)
      → ((a : A) → Keeps P (f a))
      → (s : S) → P s
      → P (continue r f s).1
  continue-Keeps (returned a) f kf s p = (kf a).after s p
  continue-Keeps (raised e) f kf s p = p

  pub Keeps-bind :
      (first : Exec S A) (next : A → Exec S B)
      → Keeps P first
      → ((a : A) → Keeps P (next a))
      → Keeps P (first >>= next)
  unfolding ◌>>=◌
  Keeps-bind first next kept then_kept = record {
    after = λ s p. let (r, s') = first s in continue-Keeps r next then_kept s' (kept.after s p);
  }

  -- What the first action establishes, and the second keeps.
  pub bind-establishes :
      (m : Exec S A) (f : A → Exec S B) (s : S)
      → P (m s).1
      → ((a : A) → Keeps P (f a))
      → P ((m >>= f) s).1
  unfolding ◌>>=◌
  bind-establishes m f s p kf = continue-Keeps (m s).0 f kf (m s).1 p

  -- The rest of the block knows that what was read was read from this state.
  pub Keeps-bind_gets :
      (g : S → A) (f : A → Exec S B) → ((s : S) → P s → P (f (g s) s).1) → Keeps P (gets g >>= f)
  unfolding ◌>>=◌
  Keeps-bind_gets g f kf = record { after = kf }

-- What holds where an action returns, and where it raises.
abbrev pub Ensures {ℓ} : {S A : Type ℓ} → (A → S → Type ℓ) → (S → Type ℓ) → Outcome A → S → Type ℓ
Ensures Q P (returned a) s = Q a s
Ensures Q P (raised e) s = P s

module _ {ℓ} {S A B : Type ℓ} (P : S → Type ℓ) (Q : A → S → Type ℓ) where
  continue-Ensures :
      (r : Outcome A) (f : A → Exec S B)
      → ((a : A) (s : S) → Q a s → P (f a s).1)
      → (s : S) → Ensures Q P r s
      → P (continue r f s).1
  continue-Ensures (returned a) f kf s q = kf a s q
  continue-Ensures (raised e) f kf s p = p

  -- From this state, the rest of the block may rely on what the first action ensures.
  pub bind-meets :
      (m : Exec S A) (f : A → Exec S B) (s : S)
      → Ensures Q P (m s).0 (m s).1
      → ((a : A) (t : S) → Q a t → P (f a t).1)
      → P ((m >>= f) s).1
  unfolding ◌>>=◌
  bind-meets m f s q rest = continue-Ensures (m s).0 f rest (m s).1 q

  -- The rest of the block may rely on what the first action ensures of its result.
  pub Keeps-bind-Ensures :
      (m : Exec S A) (f : A → Exec S B)
      → ((s : S) → P s → Ensures Q P (m s).0 (m s).1)
      → ((a : A) (s : S) → Q a s → P (f a s).1)
      → Keeps P (m >>= f)
  unfolding ◌>>=◌
  Keeps-bind-Ensures m f km kf = record {
    after = λ s p. continue-Ensures (m s).0 f kf (m s).1 (km s p);
  }

module _ {ℓ} {S A : Type ℓ} (P : S → Type ℓ) (Q : A → S → Type ℓ) where
  pub bind-Ensures :
      {C : Type ℓ} (m : Exec S C) (f : C → Exec S A)
      → Keeps P m
      → ((c : C) (s : S) → P s → Ensures Q P (f c s).0 (f c s).1)
      → (s : S) → P s
      → Ensures Q P ((m >>= f) s).0 ((m >>= f) s).1
  unfolding ◌>>=◌
  bind-Ensures {C} m f km kf s p = go (m s).0 (m s).1 (km.after s p)
    where
      go : (r : Outcome C) (s' : S) → P s' → Ensures Q P (continue r f s').0 (continue r f s').1
      go (returned c) s' p' = kf c s' p'
      go (raised e) s' p' = p'

pub ruleset keeps_rules = (
  Keeps-pure, Keeps-raise, Keeps-gets, Keeps-if, Keeps-catch, Keeps-catch_exception, Keeps-finally,
  Keeps-finally_do, Keeps-modify, Keeps-bind,
)
