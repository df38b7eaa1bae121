-- ===== src/AppContext/Scopes.antt =====
-- A scope ends as it should: `create_scope` of application_context.py, round the work of any client.
pub mod Disposal
pub mod Order
pub mod Failure
use claimsintelligence.Base.{
  ℕ, String, ◌≡◌, refl, sym, ◌∙◌, Bool, true, false, Option, none, some, List, [], ◌∷◌,
  if◌then◌else◌, arith, ◌==◌, string_key, eq_iff, All,
}
use claimsintelligence.Exec.{
  Exec, Exn, Outcome, returned, raised, pure, raise, gets, modify, finally, finally_do, conclude,
  continue, ◌>>=◌, ◌>>◌,
}
use claimsintelligence.Exec.Keeps.{
  Keeps, Keeps-pure, Keeps-raise, Keeps-bind, Keeps-gets, Keeps-modify, Keeps-if, Keeps-finally,
  Keeps-finally_do, Keeps-bind_gets,
}
use claimsintelligence.Dict.{Dict, get, set, pop, get-pop, All-set, All-pop, All-get}
use claimsintelligence.AppContext.{
  ServiceDescriptor, Attributes, Call, aexit, cleanup, Reply, made, Event, Env, AppContext, perform,
  kept_or, of_container, in_scope, of_scope, is_registered, keep_instance, keep_scoped,
  scope_services,
}
use claimsintelligence.AppContext.Lifecycle.{
  within, dispose_scoped, dispose_known, dispose_all, cleanup_scope, enter_scope, exit_scope,
  create_scope,
}
use claimsintelligence.AppContext.Clients.{IsClient, Client-Keeps}
use claimsintelligence.AppContext.Scopes.Disposal.{
  DisposesQuietly, Orderly, IsKnown, AllKnown, IsDisposed, AllDisposed, dispose_all-AllDisposed,
}
use claimsintelligence.AppContext.Scopes.Order.{
  Exited, exit_scope-Exited, entered, entered-At, create_scope_lem, client-At,
}

module _ (env : Env) (attributes : Attributes) (quiet : DisposesQuietly env)
    (registry : Dict String ServiceDescriptor) where
  abbrev At : Option String → AppContext → Type 0
  At = Orderly registry

  -- The outcome is the client's, and the scope is left.
  pub record Scoped {A : Type 0} (i : String) (m : Exec AppContext A) (s : AppContext)
      : Type 0 where
    pub outcome : (create_scope env attributes i m s).0 ≡ (m (entered i s)).0
    pub exited :
        Exited env attributes quiet registry i s.current_scope_id
          (m (entered i s)).1
          (returned tt, (create_scope env attributes i m s).1)

  -- Where the services of all kept objects are registered and no disposal raises: a scope round the
  -- work of any client has the outcome of that work; after it the scope before is the current one,
  -- this one is gone and the others are as the work left them, and every object of an async service
  -- that it held at its end was disposed of, by `__aexit__` or else by its cleanup method, if it has
  -- either.
  pub create_scope-Scoped :
      {A : Type 0} (i : String) (m : Exec AppContext A) (c : Option String) (s : AppContext)
      → IsClient env attributes A m
      → At c s
      → Scoped i m s
  create_scope-Scoped i m c s client h =
      let x =
        exit_scope-Exited env attributes quiet registry i s.current_scope_id (some i)
          (m (entered i s)).1
          ((client-At env attributes quiet registry client (some i)).after _
            (entered-At env attributes quiet registry i c s h)) in
      record {
        outcome = rw (create_scope_lem env attributes i m s) (rw x.ended refl);
        exited =
            rw (create_scope_lem env attributes i m s)
              (record { ended = refl; at = x.at; scopes = x.scopes; disposed = x.disposed });
      }
