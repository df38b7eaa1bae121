-- ===== src/Exec.antt =====
-- Methods that change an object and may raise. What was written before a raise stays written, so
-- the state comes back beside the exception too. `CancelledError` is no `Exception` in Python, so
-- `except Exception` does not catch it.
pub mod Keeps
use claimsintelligence.Base.{
  ◌≡◌, refl, String, Bool, true, false, Option, none, some, List, [], ◌∷◌, if◌then◌else◌,
}

-- The classes of exceptions that the handlers tell apart.
pub data Class : Type 0 where
  resource_not_found azure_error cancelled executor_failed value_error type_error timeout key_error
        other :
      Class

pub record Exn : Type 0 where
  pub class : Class
  pub message : String

abbrev pub exn : Class → String → Exn
exn c m = record { class = c; message = m }

-- `except Exception` lets a cancellation through.
abbrev pub is_cancelled : Exn → Bool
is_cancelled e = elim e.class [ cancelled ↦ true | _ ↦ false ]

-- `ResourceNotFoundError` is an `AzureError`.
abbrev pub is_azure : Exn → Bool
is_azure e = elim e.class [ resource_not_found ↦ true | azure_error ↦ true | _ ↦ false ]

abbrev pub is_not_found : Exn → Bool
is_not_found e = elim e.class [ resource_not_found ↦ true | _ ↦ false ]

abbrev pub is_type_error : Exn → Bool
is_type_error e = elim e.class [ type_error ↦ true | _ ↦ false ]

abbrev pub is_executor_failed : Exn → Bool
is_executor_failed e = elim e.class [ executor_failed ↦ true | _ ↦ false ]

pub data Outcome {ℓ} (A : Type ℓ) : Type ℓ where
  returned : A → Outcome A
  raised : Exn → Outcome A

abbrev pub Exec {ℓ} : Type ℓ → Type ℓ → Type ℓ
Exec S A = S → Outcome A × S

module _ {ℓ} {S A : Type ℓ} where
  pub pure : A → Exec S A
  pure a s = (returned a, s)

  pub raise : Exn → Exec S A
  raise e s = (raised e, s)

  pub gets : (S → A) → Exec S A
  gets f s = (returned (f s), s)

  abbrev pub recover : Outcome A → (Exn → Exec S A) → Exec S A
  recover (returned a) h s = (returned a, s)
  recover (raised e) h s = h e s

  -- try: m except BaseException as e: h(e)
  pub catch : Exec S A → (Exn → Exec S A) → Exec S A
  catch m h s = let (r, s') = m s in recover r h s'

  -- try: m finally: f, where f only writes to the object
  pub finally : Exec S A → (S → S) → Exec S A
  finally m f s = let (r, s') = m s in (r, f s')

module _ {ℓ} {S : Type ℓ} where
  pub modify : (S → S) → Exec S (Unit {ℓ})
  modify f s = (returned tt, f s)

abbrev pub conclude {ℓ} : {A : Type ℓ} → Outcome A → Outcome (Unit {ℓ}) → Outcome A
conclude r (returned u) = r
conclude r (raised e) = raised e

module _ {ℓ} {S A : Type ℓ} where
  -- try: m finally: n, where what n raises takes the place of what m did
  pub finally_do : Exec S A → Exec S (Unit {ℓ}) → Exec S A
  finally_do m n s = let (r, s') = m s in let (u, s'') = n s' in (conclude r u, s'')

module _ {ℓ} {S A B : Type ℓ} where
  abbrev pub continue : Outcome A → (A → Exec S B) → Exec S B
  continue (returned a) f s = f a s
  continue (raised e) f s = (raised e, s)

  infixl 5 ◌>>=◌ ◌>>◌
  -- opening this opens the other primitives too
  unfoldable pub ◌>>=◌ : Exec S A → (A → Exec S B) → Exec S B
  unfolding pure raise gets catch finally modify finally_do
  ◌>>=◌ m next s = let (r, s') = m s in continue r next s'

  abbrev pub ◌>>◌ : Exec S A → Exec S B → Exec S B
  m >> n = m >>= λ _. n

-- try: m except Exception as e: h(e)
unfoldable pub catch_exception {ℓ} : {S A : Type ℓ} → Exec S A → (Exn → Exec S A) → Exec S A
unfolding raise catch
catch_exception m h = catch m λ e. if is_cancelled e then raise e else h e
