-- ===== src/AppContext/Kept.antt =====
-- An object that the container keeps stays, whatever a client does: application_context.py.
use claimsintelligence.Base.{
  ℕ, String, ◌≡◌, refl, false, Option, none, some, [], ◌∷◌, ◌==◌, string_key, eq_iff, Bool-cases,
  inl, inr, ◌∙◌,
}
use claimsintelligence.Exec.{Exec, modify}
use claimsintelligence.Exec.Keeps.{
  Keeps, Keeps-pure, Keeps-raise, Keeps-bind, Keeps-gets, Keeps-modify, Keeps-if, Keeps-finally,
  Keeps-finally_do, Keeps-bind_gets,
}
use claimsintelligence.Dict.{Dict, get, get-set}
use claimsintelligence.AppContext.{
  ServiceDescriptor, Attributes, Call, Env, AppContext, perform, kept_or, of_container, in_scope,
  of_scope, keep_instance, keep_scoped,
}
use claimsintelligence.AppContext.Lifecycle.{
  within, dispose_scoped, dispose_known, dispose_all, cleanup_scope, enter_scope, exit_scope,
  create_scope,
}
use claimsintelligence.AppContext.Clients.{IsClient, Client-Keeps}

-- The service is registered, and its object is kept in the container.
pub record HasObject (t : String) (d : ServiceDescriptor) (o : ℕ) (s : AppContext) : Type 0 where
  pub registered : get s.services t ≡ some d
  pub kept : get s.instances t ≡ some o

module _ (env : Env) (attributes : Attributes) where
  module _ (t : String) (d : ServiceDescriptor) (o : ℕ) where
    abbrev Has : AppContext → Type 0
    Has = HasObject t d o

    outside :
        (f : AppContext → AppContext)
        → ((s : AppContext) → (f s).services ≡ s.services)
        → ((s : AppContext) → (f s).instances ≡ s.instances)
        → Keeps Has (modify f)
    outside f same_services same_instances = Keeps-modify f λ s h. record {
      registered = rw (same_services s) h.registered;
      kept = rw (same_instances s) h.kept;
    }

    perform-Has : (c : Call) → Keeps Has (perform env c)
    unfolding perform
    perform-Has c = record { after = λ s h. record { registered = h.registered; kept = h.kept } }

    other_key : (u : String) (s : AppContext) → Has s → get s.instances u ≡ none → (u == t) ≡ false
    other_key u s h e = elim (Bool-cases (u == t)) [
      | inl same ↦ cc ((eq_iff u t).0 same)
      | inr differ ↦ differ
    ]

    keep-Has : (u : String) (p : ℕ) → (u == t) ≡ false → Keeps Has (modify (keep_instance u p))
    keep-Has u p differ = Keeps-modify _ λ s h. record {
      registered = h.registered;
      kept = get-set s.instances u t p ∙ rw differ h.kept;
    }

    of_container-Has :
        (u : String) (create : Exec AppContext ℕ)
        → Keeps Has create
        → Keeps Has (of_container env attributes u create)
    of_container-Has u create kc = Keeps-bind_gets _ _ λ s h. go s h (get s.instances u) refl
      where
        go :
            (s : AppContext)
            → Has s
            → (k : Option ℕ) → get s.instances u ≡ k
            → Has (kept_or env attributes k create (keep_instance u) s).1
        go s h (some p) e = (Keeps-pure {P = Has} p).after s h
        go s h none e =
            (Keeps-bind _ _ kc
                λ p. Keeps-bind _ _ (keep-Has u p (other_key u s h e)) λ _. Keeps-pure p).after
              s h

    of_scope-Has :
        (u : String) (create : Exec AppContext ℕ)
        → Keeps Has create
        → Keeps Has (of_scope env attributes u create)
    of_scope-Has u create kc = Keeps-bind _ _ (Keeps-gets _) go
      where
        scope :
            (i : String) (k : Option ℕ)
            → Keeps Has (kept_or env attributes k create (keep_scoped i u))
        scope i (some p) = Keeps-pure p
        scope i none = Keeps-bind _ _ kc λ p.
            Keeps-bind _ _ (outside (keep_scoped i u p) (λ s. refl) (λ s. refl)) λ _. Keeps-pure p

        go : (i : Option String) → Keeps Has (in_scope env attributes u create i)
        go none = Keeps-raise _
        go (some i) = Keeps-bind _ _ (Keeps-gets _) (scope i)

    within-Has :
        {A : Type 0} (i : String) (m : Exec AppContext A)
        → Keeps Has m
        → Keeps Has (within env attributes i m)
    unfolding within
    within-Has i m km = Keeps-bind _ _ (Keeps-gets _) λ old.
        Keeps-bind _ _ (outside _ (λ s. refl) (λ s. refl))
          λ _. Keeps-finally _ _ km λ s h. record { registered = h.registered; kept = h.kept }

    dispose-Has : (e : ServiceDescriptor) (p : ℕ) → Keeps Has (dispose_scoped env attributes e p)
    dispose-Has e p =
        Keeps-if e.is_async _ _
          (Keeps-if (attributes.has_aexit p) _ _ (Keeps-bind _ _ (perform-Has _) λ _. Keeps-pure tt)
            (Keeps-if (attributes.has_method p e.cleanup_method) _ _
              (Keeps-bind _ _ (perform-Has _) λ _. Keeps-pure tt) (Keeps-pure tt)))
          (Keeps-pure tt)

    dispose_known-Has :
        (e : Option ServiceDescriptor) (p : ℕ)
        → Keeps Has (dispose_known env attributes (dispose_scoped env attributes) e p)
    dispose_known-Has none p = Keeps-raise _
    dispose_known-Has (some e) p = dispose-Has e p

    dispose_all-Has :
        (es : Dict String ℕ)
        → Keeps Has (dispose_all env attributes (dispose_scoped env attributes) es)
    unfolding dispose_all
    dispose_all-Has [] = Keeps-pure tt
    dispose_all-Has ((u, p) ∷ es) =
        Keeps-bind _ _ (Keeps-gets _)
          λ e. Keeps-bind _ _ (dispose_known-Has e p) λ _. dispose_all-Has es

    scope-Has :
        (A : Type 0) (i : String) (m : Exec AppContext A)
        → Keeps Has m
        → Keeps Has (create_scope env attributes i m)
    unfolding create_scope enter_scope exit_scope cleanup_scope
    scope-Has A i m km =
        Keeps-bind _ _
          (Keeps-bind _ _ (Keeps-gets _)
            λ old. Keeps-bind _ _ (outside _ (λ s. refl) (λ s. refl)) λ _. Keeps-pure old)
          λ old. Keeps-finally_do m _ km (
            Keeps-bind _ _
              (Keeps-bind _ _ (Keeps-gets _)
                λ es. Keeps-bind _ _ (dispose_all-Has es) λ _. outside _ (λ s. refl) (λ s. refl))
              λ _. outside _ (λ s. refl) (λ s. refl))

    pub client-Has :
        {A : Type 0} {m : Exec AppContext A} → IsClient env attributes A m → Keeps Has m
    client-Has c =
        Client-Keeps env attributes (Unit {0}) (λ _. Has) (λ _. perform-Has) (λ _. of_container-Has)
          (λ _ u create k s h r. (of_scope-Has u create k).after s h)
          (λ A i m k c. within-Has i m (k c)) (λ A i m k c. scope-Has A i m (k c)) c tt
