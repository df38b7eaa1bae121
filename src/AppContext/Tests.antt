-- ===== src/AppContext/Tests.antt =====
-- A container with a singleton and a service of each scope, and the theorems applied to it.
use claimsintelligence.Base.{
  ℕ, String, ◌≡◌, refl, sym, true, false, none, some, [], ◌∷◌, string_key,
}
use mathlib.Core.Path.{subst}
use claimsintelligence.Exec.{Exec, Outcome, returned, raised, exn, other, ◌>>=◌}
use claimsintelligence.Dict.{Dict, get, set}
use claimsintelligence.AppContext.{
  singleton, async_scoped, class_of, ServiceDescriptor, Attributes, instantiate, aexit, made, fail,
  Env, AppContext, empty_context, perform, get_service, get_service_async, create_instance,
  add_singleton, add_async_scoped, create_async_instance, scope_services,
}
use claimsintelligence.AppContext.Lifecycle.{create_scope}
use claimsintelligence.AppContext.Clients.{resolving_async, scoping}
use claimsintelligence.AppContext.Singletons.{get_service-same}
use claimsintelligence.AppContext.Scopes.{Scoped, create_scope-Scoped}
use claimsintelligence.AppContext.Scopes.Disposal.{DisposesQuietly, Orderly}
use claimsintelligence.AppContext.Scopes.Order.{entered}
use claimsintelligence.AppContext.Scopes.Failure.{
  create_scope-failed, overlapping_scopes, both_left,
}

abbrev processor : ServiceDescriptor
processor = record {
  service_type = "Processor";
  implementation = class_of "Processor";
  lifetime = singleton;
  is_async = false;
  cleanup_method = "close";
}

abbrev storage : ServiceDescriptor
storage = record {
  service_type = "Storage";
  implementation = class_of "Storage";
  lifetime = async_scoped;
  is_async = true;
  cleanup_method = "close";
}

abbrev registry : Dict String ServiceDescriptor
registry = ("Processor", processor) ∷ ("Storage", storage) ∷ []

abbrev context : AppContext
context = record {
  services = registry;
  instances = [];
  scoped_instances = [];
  current_scope_id = none;
  trace = [];
}

-- The container is that of two registrations.
registered_twice :
    (add_async_scoped "Storage" none none (add_singleton "Processor" none empty_context).1).1
    ≡ context
unfolding add_async_scoped add_singleton empty_context ◌>>=◌ set
registered_twice = refl

abbrev makes : Env
makes t c = made 7

-- `__aexit__` raises.
abbrev breaks : Env
breaks t (aexit o) = fail (exn other "not closed")
breaks t _ = made 7

abbrev attributes : Attributes
attributes = record { has_aenter = λ o. false; has_aexit = λ o. true; has_method = λ o m. false }

quiet : DisposesQuietly makes
quiet = record { aexit = λ t o. (7, refl); cleanup = λ t o m. (7, refl) }

orderly : Orderly registry none context
orderly = record { scope = refl; services = refl; known = tt }

abbrev use_storage : (env : Env) → Exec AppContext ℕ
use_storage env = get_service_async env attributes "Storage"

is_made : (get_service makes attributes "Processor" context).0 ≡ returned 7
unfolding get_service get create_instance perform ◌>>=◌
is_made = refl

registered : get context.services "Processor" ≡ some processor
unfolding get
registered = refl

get_service-same_example :
    let s' =
      (create_scope makes attributes "s1"
        (use_storage makes)
        (get_service makes attributes "Processor" context).1).1 in
    get_service makes attributes "Processor" s' ≡ (returned 7, s')
get_service-same_example =
    get_service-same makes attributes "Processor" processor 7 context registered refl is_made ℕ
      (create_scope makes attributes "s1" (use_storage makes))
      (scoping "s1" (use_storage makes) (resolving_async "Storage"))

create_scope-Scoped_example :
    Scoped makes attributes quiet registry "s1" (use_storage makes) context
create_scope-Scoped_example =
    create_scope-Scoped makes attributes quiet registry "s1" (use_storage makes) none context
      (resolving_async "Storage") orderly

-- The scope holds the object when its work ends.
held : (use_storage breaks (entered "s1" context)) ≡ (
  returned 7,
  record context {
    scoped_instances = ("s1", ("Storage", 7) ∷ []) ∷ [];
    current_scope_id = some "s1";
    trace = (instantiate "Storage", made 7) ∷ [];
  },
)
unfolding get_service_async get set create_async_instance perform ◌>>=◌
held = refl

abbrev holding : AppContext
holding = (use_storage breaks (entered "s1" context)).1

abbrev as_held :
    (P : AppContext → Type 0)
    → P (record context {
      scoped_instances = ("s1", ("Storage", 7) ∷ []) ∷ [];
      current_scope_id = some "s1";
      trace = (instantiate "Storage", made 7) ∷ [];
    })
    → P holding
as_held P h = subst (λ (x : Outcome ℕ × AppContext). P x.1) (sym held) h

in_scope : scope_services "s1" holding ≡ ("Storage", 7) ∷ []
unfolding get
in_scope = as_held (λ s. scope_services "s1" s ≡ ("Storage", 7) ∷ []) refl

is_storage : get holding.services "Storage" ≡ some storage
unfolding get
is_storage = as_held (λ s. get s.services "Storage" ≡ some storage) refl

create_scope-failed_example : create_scope breaks attributes "s1" (use_storage breaks) context ≡ (
  raised (exn other "not closed"),
  record holding { trace = (aexit 7, fail (exn other "not closed")) ∷ holding.trace },
)
create_scope-failed_example =
    create_scope-failed breaks attributes "s1" (use_storage breaks) context "Storage" 7 [] storage
      (exn other "not closed") in_scope is_storage refl refl refl

overlapping_scopes_example :
    let s =
      both_left makes attributes quiet registry "s1" "s2" ℕ ℕ
        (use_storage makes)
        (use_storage makes)
        context in
    (s.current_scope_id ≡ some "s1") × (get s.scoped_instances "s1" ≡ none)
overlapping_scopes_example =
    overlapping_scopes makes attributes quiet registry "s1" "s2" ℕ ℕ (use_storage makes)
      (use_storage makes) context orderly (resolving_async "Storage") (resolving_async "Storage")
