-- ===== src/AppContext/Scopes/Order.antt =====
-- The order that clients keep, in a scope and outside: `ServiceScope` and `create_scope` of
-- application_context.py.
use claimsintelligence.Base.{
  ℕ, String, ◌≡◌, refl, sym, ◌∙◌, true, false, Option, none, some, [], if◌then◌else◌, ◌==◌,
  string_key, All,
}
use claimsintelligence.Exec.{Exec, Outcome, returned, modify, conclude, continue, ◌>>=◌}
use claimsintelligence.Exec.Keeps.{
  Keeps, Keeps-pure, Keeps-raise, Keeps-bind, Keeps-gets, Keeps-modify,
}
use claimsintelligence.Dict.{Dict, get, pop, get-pop, All-set, All-pop, All-get}
use claimsintelligence.AppContext.{
  ServiceDescriptor, Attributes, Call, Env, AppContext, perform, kept_or, of_container, in_scope,
  of_scope, is_registered, keep_instance, keep_scoped, scope_services,
}
use claimsintelligence.AppContext.Lifecycle.{
  within, cleanup_scope, enter_scope, exit_scope, create_scope,
}
use claimsintelligence.AppContext.Clients.{IsClient, Client-Keeps}
use claimsintelligence.AppContext.Scopes.Disposal.{
  DisposesQuietly, Orderly, IsKnown, AllKnown, IsDisposed, AllDisposed, dispose_all-AllDisposed,
}

abbrev pub entered : String → AppContext → AppContext
entered i s = record s { current_scope_id = some i }

module _ (env : Env) (attributes : Attributes) where
  pub create_scope_lem :
      {A : Type 0} (i : String) (m : Exec AppContext A) (s : AppContext)
      → let x = m (entered i s) in
        let y = exit_scope env attributes i s.current_scope_id x.1 in
        create_scope env attributes i m s ≡ (conclude x.0 y.0, y.1)
  unfolding create_scope enter_scope ◌>>=◌
  create_scope_lem i m s = refl

module _ (env : Env) (attributes : Attributes) (quiet : DisposesQuietly env)
    (registry : Dict String ServiceDescriptor) where
  abbrev At : Option String → AppContext → Type 0
  At = Orderly registry

  perform-At : (c : Option String) (x : Call) → Keeps (At c) (perform env x)
  unfolding perform
  perform-At c x = record {
    after = λ s h. record { scope = h.scope; services = h.services; known = h.known };
  }

  keep_instance-At :
      (c : Option String) (u : String) (p : ℕ) → Keeps (At c) (modify (keep_instance u p))
  keep_instance-At c u p =
      Keeps-modify _ λ s h. record { scope = h.scope; services = h.services; known = h.known }

  of_container-At :
      (c : Option String) (u : String) (create : Exec AppContext ℕ)
      → Keeps (At c) create
      → Keeps (At c) (of_container env attributes u create)
  of_container-At c u create kc = Keeps-bind _ _ (Keeps-gets _) go
    where
      go : (k : Option ℕ) → Keeps (At c) (kept_or env attributes k create (keep_instance u))
      go (some p) = Keeps-pure p
      go none = Keeps-bind _ _ kc λ p. Keeps-bind _ _ (keep_instance-At c u p) λ _. Keeps-pure p

  -- The objects of a scope are known, and so they are with one more of a known service.
  scope-IsKnown :
      (i : String) (c : Option String) (s : AppContext)
      → At c s
      → All (IsKnown registry) (scope_services i s)
  scope-IsKnown i c s h = go (get s.scoped_instances i) refl
    where
      go :
          (o : Option (Dict String ℕ))
          → get s.scoped_instances i ≡ o
          → All (IsKnown registry) (elim o [ none ↦ [] | some d ↦ d ])
      go none e = tt
      go (some objects) e = (All-get (AllKnown registry) s.scoped_instances i objects e h.known).1

  keep_scoped-At :
      (c : Option String) (i u : String) (p : ℕ) (d : ServiceDescriptor)
      → get registry u ≡ some d
      → Keeps (At c) (modify (keep_scoped i u p))
  keep_scoped-At c i u p d e = Keeps-modify _ λ s h.
      let objects =
        All-set (IsKnown registry) (scope_services i s) u p (d, e) (λ j w k. k)
          (scope-IsKnown i c s h) in
      record {
        scope = h.scope;
        services = h.services;
        known =
            All-set (AllKnown registry) s.scoped_instances i _ objects (λ j w k. objects) h.known;
      }

  registered :
      (u : String) (s : AppContext) (c : Option String)
      → At c s
      → is_registered u s ≡ true
      → (d : ServiceDescriptor) × (get registry u ≡ some d)
  unfolding is_registered
  registered u s c h r = go (get s.services u) refl r
    where
      go :
          (o : Option ServiceDescriptor)
          → get s.services u ≡ o
          → (elim o [ none ↦ false | some d ↦ true ]) ≡ true
          → (d : ServiceDescriptor) × (get registry u ≡ some d)
      go none e r' = cc
      go (some d) e r' = (d, rw (sym h.services) e)

  of_scope-At :
      (c : Option String) (u : String) (create : Exec AppContext ℕ)
      → Keeps (At c) create
      → (s : AppContext) → At c s
      → is_registered u s ≡ true
      → At c (of_scope env attributes u create s).1
  of_scope-At c u create kc s h r =
      let (d, e) = registered u s c h r in (Keeps-bind _ _ (Keeps-gets _) (go d e)).after s h
    where
      kept :
          (d : ServiceDescriptor)
          → get registry u ≡ some d
          → (i : String) (k : Option ℕ)
          → Keeps (At c) (kept_or env attributes k create (keep_scoped i u))
      kept d e i (some p) = Keeps-pure p
      kept d e i none =
          Keeps-bind _ _ kc λ p. Keeps-bind _ _ (keep_scoped-At c i u p d e) λ _. Keeps-pure p

      go :
          (d : ServiceDescriptor)
          → get registry u ≡ some d
          → (i : Option String) → Keeps (At c) (in_scope env attributes u create i)
      go d e none = Keeps-raise _
      go d e (some i) = Keeps-bind _ _ (Keeps-gets _) (kept d e i)

  within-At :
      (A : Type 0) (i : String) (m : Exec AppContext A)
      → ((c : Option String) → Keeps (At c) m)
      → (c : Option String) → Keeps (At c) (within env attributes i m)
  unfolding within ◌>>=◌
  within-At A i m km c = record {
    after = λ s h.
        let inner =
          (km (some i)).after (record s { current_scope_id = some i })
            (record { scope = refl; services = h.services; known = h.known }) in
        record { scope = h.scope; services = inner.services; known = inner.known };
  }

  -- What the end of a scope leaves.
  pub record Exited (i : String) (old : Option String) (s : AppContext)
      (x : Outcome (Unit {0}) × AppContext) : Type 0 where
    pub ended : x.0 ≡ returned tt
    pub at : At old x.1
    pub scopes :
        (j : String)
        → get x.1.scoped_instances j ≡ (if i == j then none else get s.scoped_instances j)
    pub disposed : All (IsDisposed attributes registry x.1.trace) (scope_services i s)

  exit-Exited :
      (i : String) (old : Option String) (c : Option String) (s : AppContext)
      → At c s
      → (x : Outcome (Unit {0}) × AppContext)
      → AllDisposed env attributes quiet registry (scope_services i s) s x
      → Exited i old s (
          continue
            (continue x.0
              (λ _. modify λ u. record u { scoped_instances = pop u.scoped_instances i })
              x.1).0
            (λ _. modify λ u. record u { current_scope_id = old })
            (continue x.0
              (λ _. modify λ u. record u { scoped_instances = pop u.scoped_instances i })
              x.1).1)
  unfolding ◌>>=◌
  exit-Exited i old c s h (out, s') d = rw d.ended (record {
    ended = refl;
    at = record {
      scope = refl;
      services = rw d.rest h.services;
      known = All-pop (AllKnown registry) s'.scoped_instances i (rw d.rest h.known);
    };
    scopes = λ j. get-pop s'.scoped_instances i j ∙ rw d.rest refl;
    disposed = d.there;
  })

  pub exit_scope-Exited :
      (i : String) (old : Option String) (c : Option String) (s : AppContext)
      → At c s
      → Exited i old s (exit_scope env attributes i old s)
  unfolding exit_scope cleanup_scope ◌>>=◌
  exit_scope-Exited i old c s h = exit-Exited i old c s h _ (
      dispose_all-AllDisposed env attributes quiet registry (scope_services i s)
        (scope-IsKnown i c s h) s h.services)

  pub entered-At :
      (i : String) (c : Option String) (s : AppContext) → At c s → At (some i) (entered i s)
  entered-At i c s h = record { scope = refl; services = h.services; known = h.known }

  create_scope-At :
      (A : Type 0) (i : String) (m : Exec AppContext A)
      → ((c : Option String) → Keeps (At c) m)
      → (c : Option String) → Keeps (At c) (create_scope env attributes i m)
  create_scope-At A i m km c = record {
    after = λ s h. rw (create_scope_lem env attributes i m s) (
        rw (sym h.scope) (
          (exit_scope-Exited i s.current_scope_id (some i) _
            ((km (some i)).after _ (entered-At i c s h))).at));
  }

  pub client-At :
      {A : Type 0} {m : Exec AppContext A}
      → IsClient env attributes A m
      → (c : Option String) → Keeps (At c) m
  client-At client =
      Client-Keeps env attributes (Option String) At perform-At of_container-At of_scope-At
        within-At create_scope-At client
