-- ===== src/AppContext/Singletons.antt =====
-- A singleton is made once: `get_service` of application_context.py, before and after the work of any
-- client.
use claimsintelligence.Base.{
  ℕ, String, ◌≡◌, refl, Option, none, some, arith, string_key, eq_iff, ◌∙◌,
}
use claimsintelligence.Exec.{Exec, Outcome, returned, raised, pure, modify, continue, ◌>>=◌}
use claimsintelligence.Dict.{get, get-set}
use claimsintelligence.AppContext.{
  singleton, Implementation, ServiceDescriptor, Attributes, Env, AppContext, perform, make,
  create_instance, kept_or, get_service, keep_instance, instance_of, factory, class_of,
}
use claimsintelligence.AppContext.Clients.{IsClient}
use claimsintelligence.AppContext.Kept.{HasObject, client-Has}

module _ (env : Env) (attributes : Attributes) where
  get_service_of :
      (t : String) (d : ServiceDescriptor) (s : AppContext)
      → get s.services t ≡ some d
      → d.lifetime ≡ singleton
      → get_service env attributes t s
        ≡ kept_or env attributes
            (get s.instances t)
            (create_instance env attributes d)
            (keep_instance t)
            s
  unfolding get_service create_instance ◌>>=◌
  get_service_of t d s e l = rw e (rw l refl)

  make-services :
      (i : Implementation) (s : AppContext) → (make env attributes i s).1.services ≡ s.services
  unfolding perform ◌>>=◌
  make-services (instance_of p) s = refl
  make-services (factory f) s = refl
  make-services (class_of c) s = refl

  kept_or-HasObject :
      (t : String) (d : ServiceDescriptor) (o : ℕ) (s : AppContext)
      → get s.services t ≡ some d
      → (k : Option ℕ) → get s.instances t ≡ k
      → (kept_or env attributes k (create_instance env attributes d) (keep_instance t) s).0
        ≡ returned o
      → HasObject t d o
          (kept_or env attributes k (create_instance env attributes d) (keep_instance t) s).1
  unfolding ◌>>=◌ create_instance
  kept_or-HasObject t d o s e (some p) f r = record { registered = e; kept = ground arith }
  kept_or-HasObject t d o s e none f r =
      go (make env attributes d.implementation s).0 (make env attributes d.implementation s).1
        (make-services d.implementation s) r
    where
      go :
          (x : Outcome ℕ) (s' : AppContext)
          → s'.services ≡ s.services
          → (continue x (λ p. modify (keep_instance t p) >>= λ _. pure p) s').0 ≡ returned o
          → HasObject t d o (continue x (λ p. modify (keep_instance t p) >>= λ _. pure p) s').1
      go (raised f) s' same r = cc
      go (returned p) s' same r = record {
        registered = rw same e;
        kept = get-set s'.instances t t p ∙ ground (arith, eq_iff t t);
      }

  -- Once `get_service` has given an object for a type that is registered as a singleton, it gives the
  -- same object again, and makes and changes nothing, after any work of a client.
  pub get_service-same :
      (t : String) (d : ServiceDescriptor) (o : ℕ) (s : AppContext)
      → get s.services t ≡ some d
      → d.lifetime ≡ singleton
      → (get_service env attributes t s).0 ≡ returned o
      → (A : Type 0) (m : Exec AppContext A) → IsClient env attributes A m
      → let s' = (m (get_service env attributes t s).1).1 in
        get_service env attributes t s' ≡ (returned o, s')
  unfolding ◌>>=◌
  get_service-same t d o s e l r A m c =
      let first : HasObject t d o (get_service env attributes t s).1 =
        rw (get_service_of t d s e l) (
          kept_or-HasObject t d o s e (get s.instances t) refl
            (rw (get_service_of t d s e l) at r)) in
      let h = (client-Has env attributes t d o c).after _ first in
      get_service_of t d _ h.registered l ∙ rw h.kept refl
