-- ===== src/AppContext/Lifecycle.antt =====
-- The scopes of a container and its shutdown: `ServiceScope`, `create_scope` and `shutdown_async` of
-- application_context.py.
use claimsintelligence.Base.{ℕ, String, Option, none, some, [], ◌∷◌, if◌then◌else◌, string_key}
use claimsintelligence.Exec.{
  Exec, exn, key_error, pure, raise, gets, modify, finally, finally_do, ◌>>=◌, ◌>>◌,
}
use claimsintelligence.Dict.{Dict, get, pop}
use claimsintelligence.AppContext.{
  ServiceDescriptor, Attributes, aexit, cleanup, Env, AppContext, perform, scope_services,
}

module _ (env : Env) (attributes : Attributes) where
  -- `ServiceScope.get_service` and its async twin: the container's, under the scope's id.
  unfoldable pub within : {A : Type 0} → String → Exec AppContext A → Exec AppContext A
  within i m = do
    old_scope ← gets (λ s. s.current_scope_id)
    modify (λ s. record s { current_scope_id = some i })
    finally m (λ s. record s { current_scope_id = old_scope })

  abbrev pub dispose_scoped : ServiceDescriptor → ℕ → Exec AppContext (Unit {0})
  dispose_scoped d o =
      if d.is_async
      then if attributes.has_aexit o
        then (do perform env (aexit o); pure tt)
        else if attributes.has_method o d.cleanup_method
        then (do perform env (cleanup o d.cleanup_method); pure tt)
        else pure tt
      else pure tt

  abbrev pub dispose_known :
      (ServiceDescriptor → ℕ → Exec AppContext (Unit {0}))
      → Option ServiceDescriptor
      → ℕ
      → Exec AppContext (Unit {0})
  dispose_known dispose none o = raise (exn key_error "the descriptor is gone")
  dispose_known dispose (some d) o = dispose d o

  unfoldable pub dispose_all :
      (ServiceDescriptor → ℕ → Exec AppContext (Unit {0}))
      → Dict String ℕ
      → Exec AppContext (Unit {0})
  dispose_all dispose [] = pure tt
  dispose_all dispose ((t, o) ∷ rest) = do
    d ← gets (λ s. get s.services t)
    dispose_known dispose d o
    dispose_all dispose rest

  unfoldable pub cleanup_scope : String → Exec AppContext (Unit {0})
  cleanup_scope i = do
    d ← gets (scope_services i)
    dispose_all dispose_scoped d
    modify (λ s. record s { scoped_instances = pop s.scoped_instances i })

  unfoldable pub enter_scope : String → Exec AppContext (Option String)
  enter_scope i = do
    old_scope ← gets (λ s. s.current_scope_id)
    modify (λ s. record s { current_scope_id = some i })
    pure old_scope

  unfoldable pub exit_scope : String → Option String → Exec AppContext (Unit {0})
  exit_scope i old_scope = do
    cleanup_scope i
    modify (λ s. record s { current_scope_id = old_scope })

  -- async with create_scope() as scope: body, where `i` is the new random id
  unfoldable pub create_scope : {A : Type 0} → String → Exec AppContext A → Exec AppContext A
  create_scope i body = do old_scope ← enter_scope i; finally_do body (exit_scope i old_scope)

  abbrev pub dispose_singleton : ServiceDescriptor → ℕ → Exec AppContext (Unit {0})
  dispose_singleton d o =
      if d.is_async
      then if attributes.has_method o d.cleanup_method
        then (do perform env (cleanup o d.cleanup_method); pure tt)
        else pure tt
      else pure tt

  unfoldable pub shutdown_async : Exec AppContext (Unit {0})
  shutdown_async = do
    d ← gets (λ s. s.instances)
    dispose_all dispose_singleton d
    modify (λ s. record s { instances = []; scoped_instances = [] })
