-- ===== src/AppContext/Scopes/Failure.antt =====
-- Scopes that do not end as they should: `create_scope` of application_context.py, where a disposal
-- raises and where two tasks overlap.
use claimsintelligence.Base.{
  ℕ, String, ◌≡◌, refl, ap, ◌∙◌, Bool, true, false, Option, none, some, ◌∷◌, if◌then◌else◌,
  string_key, eq_iff, ◌==◌,
}
use claimsintelligence.Exec.{Exec, Exn, raised, conclude, pure, continue, ◌>>=◌, ◌>>◌}
use claimsintelligence.Dict.{Dict, get}
use claimsintelligence.AppContext.{
  ServiceDescriptor, Attributes, aexit, fail, Env, AppContext, perform, scope_services,
}
use claimsintelligence.AppContext.Lifecycle.{
  dispose_scoped, dispose_all, cleanup_scope, exit_scope, create_scope,
}
use claimsintelligence.AppContext.Clients.{IsClient}
use claimsintelligence.AppContext.Scopes.Disposal.{DisposesQuietly, Orderly}
use claimsintelligence.AppContext.Scopes.Order.{
  exit_scope-Exited, entered, entered-At, create_scope_lem, client-At,
}

module _ (env : Env) (attributes : Attributes) where
  abbrev Log : AppContext → ℕ → Exn → AppContext
  Log s o e = record s { trace = (aexit o, fail e) ∷ s.trace }

  failed_call :
      (b x : Bool) (p q : Exec AppContext (Unit {0})) (s : AppContext) (o : ℕ) (e : Exn)
      → b ≡ true
      → x ≡ true
      → env s.trace (aexit o) ≡ fail e
      → (if b then if x then (do perform env (aexit o); pure tt) else p else q) s
        ≡ (raised e, Log s o e)
  unfolding perform ◌>>=◌
  failed_call b x p q s o e hb hx f = rw hb (rw hx (rw f refl))

  failed_all :
      (s : AppContext) (t : String) (o : ℕ) (objects : Dict String ℕ) (d : ServiceDescriptor)
      (e : Exn)
      → get s.services t ≡ some d
      → d.is_async ≡ true
      → attributes.has_aexit o ≡ true
      → env s.trace (aexit o) ≡ fail e
      → dispose_all env attributes (dispose_scoped env attributes) ((t, o) ∷ objects) s
        ≡ (raised e, Log s o e)
  unfolding dispose_all ◌>>=◌
  failed_all s t o objects d e known a x f = rw known (
      ap
        (λ y.
          continue y.0 (λ _. dispose_all env attributes (dispose_scoped env attributes) objects)
            y.1)
        (failed_call d.is_async (attributes.has_aexit o) _ _ s o e a x f))

  failed_exit :
      (i : String) (old : Option String) (s : AppContext) (objects : Dict String ℕ) (e : Exn)
      (s' : AppContext)
      → scope_services i s ≡ objects
      → dispose_all env attributes (dispose_scoped env attributes) objects s ≡ (raised e, s')
      → exit_scope env attributes i old s ≡ (raised e, s')
  unfolding exit_scope cleanup_scope ◌>>=◌
  failed_exit i old s objects e s' held f = rw held (rw f refl)

  -- Where `__aexit__` of the first object of a scope raises, of an async service: this is what the
  -- scope raises, whatever the work in it came to. Nothing more is called, so the other objects are
  -- not disposed of, the scope is still there, and the scope before is not made current again.
  pub create_scope-failed :
      {A : Type 0} (i : String) (m : Exec AppContext A) (s : AppContext) (t : String) (o : ℕ)
      (objects : Dict String ℕ) (d : ServiceDescriptor) (e : Exn)
      → let s' = (m (entered i s)).1 in
        scope_services i s' ≡ (t, o) ∷ objects
        → get s'.services t ≡ some d
        → d.is_async ≡ true
        → attributes.has_aexit o ≡ true
        → env s'.trace (aexit o) ≡ fail e
        → create_scope env attributes i m s
          ≡ (raised e, record s' { trace = (aexit o, fail e) ∷ s'.trace })
  create_scope-failed i m s t o objects d e held known a x f =
      let s' = (m (entered i s)).1 in
      create_scope_lem env attributes i m s
      ∙ ap (λ y. (conclude (m (entered i s)).0 y.0, y.1))
          (failed_exit i s.current_scope_id s' _ e _ held
            (failed_all s' t o objects d e known a x f))

if_none : {A : Type 0} (c : Bool) (o : Option A) → o ≡ none → (if c then none else o) ≡ none
if_none true o h = refl
if_none false o h = h

if_true : {A : Type 0} (c : Bool) (o : Option A) → c ≡ true → (if c then none else o) ≡ none
if_true c o h = rw h refl

-- Two tasks whose scopes overlap: the second enters before the first has left.
module _ (env : Env) (attributes : Attributes) (quiet : DisposesQuietly env)
    (registry : Dict String ServiceDescriptor) where
  abbrev At : Option String → AppContext → Type 0
  At = Orderly registry

  module _ (a b : String) (A B : Type 0) (m : Exec AppContext A) (n : Exec AppContext B)
      (s : AppContext) where
    -- The first task enters its scope `a` and works; the second enters `b` and works.
    abbrev pub both_entered : AppContext
    both_entered = (n (entered b (m (entered a s)).1)).1

    abbrev pub first_left : AppContext
    first_left = (exit_scope env attributes a s.current_scope_id both_entered).1

    abbrev pub both_left : AppContext
    both_left = (exit_scope env attributes b (m (entered a s)).1.current_scope_id first_left).1

    -- Where no disposal raises and the services of all kept objects are registered: after two tasks
    -- whose scopes overlap, where the first to enter is the first to leave, the scope of the first is
    -- the current one, for all that comes later, though it is no longer there.
    pub overlapping_scopes :
        At none s
        → IsClient env attributes A m
        → IsClient env attributes B n
        → (both_left.current_scope_id ≡ some a) × (get both_left.scoped_instances a ≡ none)
    overlapping_scopes h cm cn =
        let worked =
          (client-At env attributes quiet registry cm (some a)).after (entered a s)
            (entered-At env attributes quiet registry a none s h) in
        let both =
          (client-At env attributes quiet registry cn (some b)).after
            (entered b (m (entered a s)).1)
            (entered-At env attributes quiet registry b (some a) _ worked) in
        let x =
          exit_scope-Exited env attributes quiet registry a s.current_scope_id (some b) both_entered
            both in
        let y =
          exit_scope-Exited env attributes quiet registry b (m (entered a s)).1.current_scope_id
            s.current_scope_id first_left x.at in
        (
          y.at.scope ∙ worked.scope,
          y.scopes a ∙ if_none (b == a) _ (x.scopes a ∙ if_true (a == a) _ ((eq_iff a a).1 refl)),
        )
