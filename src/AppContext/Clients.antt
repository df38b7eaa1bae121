-- ===== src/AppContext/Clients.antt =====
-- The code that uses a container of application_context.py: whatever resolves services, in scopes and
-- outside them, and registers none.
use claimsintelligence.Base.{
  ℕ, String, ◌≡◌, refl, true, Option, none, some, if◌then◌else◌, string_key, Bool, false,
}
use claimsintelligence.Exec.{Exec, Exn, exn, value_error, pure, raise, catch, ◌>>=◌}
use claimsintelligence.Exec.Keeps.{
  Keeps, Keeps-pure, Keeps-raise, Keeps-bind, Keeps-catch, Keeps-if, Keeps-bind_gets,
}
use claimsintelligence.Dict.{get}
use claimsintelligence.AppContext.{
  Lifetime, singleton, scoped, async_singleton, async_scoped, transient, Implementation,
  instance_of, factory, class_of, ServiceDescriptor, Call, Env, Attributes, AppContext, perform,
  make, enter_object, make_async, create_instance, create_async_instance, of_container, of_scope,
  is_registered, resolve, resolve_async, by_lifetime, by_async_lifetime, get_service,
  get_service_async,
}
use claimsintelligence.AppContext.Lifecycle.{within, create_scope}

module _ (env : Env) (attributes : Attributes) where
  pub data IsClient : (A : Type 0) → Exec AppContext A → Type 1 where
    returning : {A : Type 0} (a : A) → IsClient A (pure a)
    raising : {A : Type 0} (e : Exn) → IsClient A (raise {A = A} e)
    binding :
        {A B : Type 0} (m : Exec AppContext A) (f : A → Exec AppContext B)
        → IsClient A m
        → ((a : A) → IsClient B (f a))
        → IsClient B (m >>= f)
    catching :
        {A : Type 0} (m : Exec AppContext A) (h : Exn → Exec AppContext A)
        → IsClient A m
        → ((e : Exn) → IsClient A (h e))
        → IsClient A (catch m h)
    resolving : (t : String) → IsClient ℕ (get_service env attributes t)
    resolving_async : (t : String) → IsClient ℕ (get_service_async env attributes t)
    resolving_within :
        (i t : String) → IsClient ℕ (within env attributes i (get_service env attributes t))
    resolving_async_within :
        (i t : String) → IsClient ℕ (within env attributes i (get_service_async env attributes t))
    scoping :
        {A : Type 0} (i : String) (m : Exec AppContext A)
        → IsClient A m
        → IsClient A (create_scope env attributes i m)

  -- What the parts keep, whatever the scope `c`, a client keeps.
  module _ (I : Type 0) (P : I → AppContext → Type 0)
      (performs : (c : I) (x : Call) → Keeps (P c) (perform env x))
      (containers : (c : I) (u : String) (create : Exec AppContext ℕ)
        → Keeps (P c) create
        → Keeps (P c) (of_container env attributes u create))
      (scopes : (c : I) (u : String) (create : Exec AppContext ℕ)
        → Keeps (P c) create
        → (s : AppContext) → P c s
        → is_registered u s ≡ true
        → P c (of_scope env attributes u create s).1)
      (withins : (A : Type 0) (i : String) (m : Exec AppContext A)
        → ((c : I) → Keeps (P c) m)
        → (c : I) → Keeps (P c) (within env attributes i m))
      (scopings : (A : Type 0) (i : String) (m : Exec AppContext A)
        → ((c : I) → Keeps (P c) m)
        → (c : I) → Keeps (P c) (create_scope env attributes i m)) where
    make-Keeps : (c : I) (i : Implementation) → Keeps (P c) (make env attributes i)
    make-Keeps c (instance_of p) = Keeps-pure p
    make-Keeps c (factory f) = performs c _
    make-Keeps c (class_of k) = performs c _

    enter_object-Keeps : (c : I) (p : ℕ) → Keeps (P c) (enter_object env attributes p)
    enter_object-Keeps c p =
        Keeps-if (attributes.has_aenter p) _ _ (Keeps-bind _ _ (performs c _) λ _. Keeps-pure p)
          (Keeps-pure p)

    make_async-Keeps : (c : I) (i : Implementation) → Keeps (P c) (make_async env attributes i)
    make_async-Keeps c (instance_of p) = Keeps-pure p
    make_async-Keeps c (factory f) = Keeps-bind _ _ (performs c _) (enter_object-Keeps c)
    make_async-Keeps c (class_of k) = Keeps-bind _ _ (performs c _) (enter_object-Keeps c)

    by_lifetime-Keeps :
        (c : I) (u : String) (create : Exec AppContext ℕ)
        → Keeps (P c) create
        → (s : AppContext) → P c s
        → is_registered u s ≡ true
        → (l : Lifetime) → P c (by_lifetime env attributes l u create s).1
    by_lifetime-Keeps c u create k s p r singleton = (containers c u create k).after s p
    by_lifetime-Keeps c u create k s p r scoped = scopes c u create k s p r
    by_lifetime-Keeps c u create k s p r transient = k.after s p
    by_lifetime-Keeps c u create k s p r async_singleton = k.after s p
    by_lifetime-Keeps c u create k s p r async_scoped = k.after s p

    by_async_lifetime-Keeps :
        (c : I) (u : String) (create : Exec AppContext ℕ)
        → Keeps (P c) create
        → (s : AppContext) → P c s
        → is_registered u s ≡ true
        → (l : Lifetime) → P c (by_async_lifetime env attributes l u create s).1
    by_async_lifetime-Keeps c u create k s p r async_singleton = (containers c u create k).after s p
    by_async_lifetime-Keeps c u create k s p r async_scoped = scopes c u create k s p r
    by_async_lifetime-Keeps c u create k s p r singleton = k.after s p
    by_async_lifetime-Keeps c u create k s p r scoped = k.after s p
    by_async_lifetime-Keeps c u create k s p r transient = k.after s p

    get_service-Keeps : (u : String) (c : I) → Keeps (P c) (get_service env attributes u)
    unfolding get_service create_instance is_registered
    get_service-Keeps u c = Keeps-bind_gets _ _ λ s p. go s p (get s.services u) refl
      where
        go :
            (s : AppContext)
            → P c s
            → (o : Option ServiceDescriptor) → get s.services u ≡ o
            → P c (resolve env attributes u o s).1
        go s p none e = (Keeps-raise {P = P c} _).after s p
        go s p (some d) e =
            by_lifetime-Keeps c u _ (make-Keeps c d.implementation) s p (rw (e, is_registered) refl)
              d.lifetime

    get_service_async-Keeps :
        (u : String) (c : I) → Keeps (P c) (get_service_async env attributes u)
    unfolding get_service_async create_async_instance is_registered
    get_service_async-Keeps u c = Keeps-bind_gets _ _ λ s p. go s p (get s.services u) refl
      where
        go :
            (s : AppContext)
            → P c s
            → (o : Option ServiceDescriptor) → get s.services u ≡ o
            → P c (resolve_async env attributes u o s).1
        go s p none e = (Keeps-raise {P = P c} _).after s p
        go s p (some d) e = either d.is_async
          where
            either :
                (b : Bool)
                → P c
                    ((if b
                        then by_async_lifetime env attributes d.lifetime u
                            (create_async_instance env attributes d)
                        else raise
                            (exn value_error "the service is not registered as an async service"))
                      s).1
            either true =
                by_async_lifetime-Keeps c u _ (make_async-Keeps c d.implementation) s p
                  (rw (e, is_registered) refl) d.lifetime
            either false = (Keeps-raise {P = P c} _).after s p

    pub Client-Keeps : {A : Type 0} {m : Exec AppContext A} → IsClient A m → (c : I) → Keeps (P c) m
    Client-Keeps (returning a) c = Keeps-pure a
    Client-Keeps (raising e) c = Keeps-raise e
    Client-Keeps (binding m f cm cf) c =
        Keeps-bind m f (Client-Keeps cm c) λ a. Client-Keeps (cf a) c
    Client-Keeps (catching m h cm ch) c =
        Keeps-catch m h (Client-Keeps cm c) λ e. Client-Keeps (ch e) c
    Client-Keeps (resolving t) c = get_service-Keeps t c
    Client-Keeps (resolving_async t) c = get_service_async-Keeps t c
    Client-Keeps (resolving_within i t) c = withins _ i _ (get_service-Keeps t) c
    Client-Keeps (resolving_async_within i t) c = withins _ i _ (get_service_async-Keeps t) c
    Client-Keeps (scoping i m cm) c = scopings _ i m (λ c'. Client-Keeps cm c') c
