-- ===== src/AppContext.antt =====
-- `AppContext` and `ServiceScope` of libs/application/application_context.py: services are registered
-- with a lifetime, made when they are asked for, kept, and disposed of. The factories are taken to
-- make their objects without the container. `_async_cleanup_tasks`, to which nothing is ever added,
-- is left out.
pub mod Lifecycle
pub mod Clients
pub mod Kept
pub mod Singletons
pub mod Scopes
mod Tests
use claimsintelligence.Base.{
  ℕ, String, Bool, true, false, Option, none, some, List, [], ◌∷◌, if◌then◌else◌, ◌==◌, string_key,
  map, is_empty,
}
use claimsintelligence.Exec.{
  Exec, Exn, exn, key_error, value_error, Outcome, returned, raised, pure, raise, gets, modify,
  finally, finally_do, ◌>>=◌, ◌>>◌,
}
use claimsintelligence.Dict.{Dict, get, set, pop}

-- `ServiceLifetime`
pub data Lifetime : Type 0 where
  singleton transient scoped async_singleton async_scoped : Lifetime

-- An object that there is, or a factory or a class, by its name.
pub data Implementation : Type 0 where
  instance_of : ℕ → Implementation
  factory : String → Implementation
  class_of : String → Implementation

pub record ServiceDescriptor : Type 0 where
  pub service_type : String
  pub implementation : Implementation
  pub lifetime : Lifetime
  pub is_async : Bool
  pub cleanup_method : String

-- What `hasattr` says of an object.
pub record Attributes : Type 0 where
  pub has_aenter : ℕ → Bool
  pub has_aexit : ℕ → Bool
  pub has_method : ℕ → String → Bool

pub data Call : Type 0 where
  call_factory : String → Call
  instantiate : String → Call
  aenter : ℕ → Call
  aexit : ℕ → Call
  cleanup : ℕ → String → Call

pub data Reply : Type 0 where
  made : ℕ → Reply
  fail : Exn → Reply

abbrev pub Event : Type 0
Event = Call × Reply

abbrev pub Env : Type 0
Env = List Event → Call → Reply

-- The newest call is the first of `trace`.
pub record AppContext : Type 0 where
  pub services : Dict String ServiceDescriptor
  pub instances : Dict String ℕ
  pub scoped_instances : Dict String (Dict String ℕ)
  pub current_scope_id : Option String
  pub trace : List Event

unfoldable pub empty_context : AppContext
empty_context = record {
  services = [];
  instances = [];
  scoped_instances = [];
  current_scope_id = none;
  trace = [];
}

-- The object of a reply; what a disposal gives is not read.
abbrev pub answer : Reply → Outcome ℕ
answer (fail e) = raised e
answer (made o) = returned o

unfoldable pub perform : Env → Call → Exec AppContext ℕ
perform env c s = let r = env s.trace c in (answer r, record s { trace = (c, r) ∷ s.trace })

abbrev pub register : ServiceDescriptor → Exec AppContext (Unit {0})
register d = modify λ s. record s { services = set s.services d.service_type d }

-- implementation or service_type
abbrev pub or_itself : Option Implementation → String → Implementation
or_itself none t = class_of t
or_itself (some i) t = i

-- cleanup_method or "close"
abbrev pub or_close : Option String → String
or_close none = "close"
or_close (some m) = if is_empty m then "close" else m

abbrev pub describe : Lifetime → Bool → String → String → Option Implementation → ServiceDescriptor
describe lifetime is_async cleanup_method t i = record {
  service_type = t;
  implementation = or_itself i t;
  lifetime = lifetime;
  is_async = is_async;
  cleanup_method = cleanup_method;
}

unfoldable pub add_singleton : String → Option Implementation → Exec AppContext (Unit {0})
add_singleton t i = register (describe singleton false "close" t i)

unfoldable pub add_transient : String → Option Implementation → Exec AppContext (Unit {0})
add_transient t i = register (describe transient false "close" t i)

unfoldable pub add_scoped : String → Option Implementation → Exec AppContext (Unit {0})
add_scoped t i = register (describe scoped false "close" t i)

unfoldable pub add_async_singleton :
    String → Option Implementation → Option String → Exec AppContext (Unit {0})
add_async_singleton t i method = register (describe async_singleton true (or_close method) t i)

unfoldable pub add_async_scoped :
    String → Option Implementation → Option String → Exec AppContext (Unit {0})
add_async_scoped t i method = register (describe async_scoped true (or_close method) t i)

unfoldable pub is_registered : String → AppContext → Bool
is_registered t s = elim (get s.services t) [ none ↦ false | some d ↦ true ]

unfoldable pub get_registered_services : AppContext → Dict String Lifetime
get_registered_services s = map (λ e. (e.0, e.1.lifetime)) s.services

-- self._scoped_instances.get(scope_id, {})
abbrev pub scope_services : String → AppContext → Dict String ℕ
scope_services i s = elim (get s.scoped_instances i) [ none ↦ [] | some d ↦ d ]

abbrev pub keep_instance : String → ℕ → AppContext → AppContext
keep_instance t o s = record s { instances = set s.instances t o }

abbrev pub keep_scoped : String → String → ℕ → AppContext → AppContext
keep_scoped i t o s = record s {
  scoped_instances = set s.scoped_instances i (set (scope_services i s) t o);
}

module _ (env : Env) (attributes : Attributes) where
  abbrev pub make : Implementation → Exec AppContext ℕ
  make (instance_of o) = pure o
  make (factory f) = perform env (call_factory f)
  make (class_of c) = perform env (instantiate c)

  unfoldable pub create_instance : ServiceDescriptor → Exec AppContext ℕ
  create_instance d = make d.implementation

  abbrev pub enter_object : ℕ → Exec AppContext ℕ
  enter_object o = if attributes.has_aenter o then (do perform env (aenter o); pure o) else pure o

  abbrev pub make_async : Implementation → Exec AppContext ℕ
  make_async (instance_of o) = pure o
  make_async (factory f) = do o ← perform env (call_factory f); enter_object o
  make_async (class_of c) = do o ← perform env (instantiate c); enter_object o

  unfoldable pub create_async_instance : ServiceDescriptor → Exec AppContext ℕ
  create_async_instance d = make_async d.implementation

  abbrev pub kept_or :
      Option ℕ → Exec AppContext ℕ → (ℕ → AppContext → AppContext) → Exec AppContext ℕ
  kept_or (some o) create keep = pure o
  kept_or none create keep = do o ← create; modify (keep o); pure o

  abbrev pub of_container : String → Exec AppContext ℕ → Exec AppContext ℕ
  of_container t create = do
    kept ← gets (λ s. get s.instances t)
    kept_or kept create (keep_instance t)

  abbrev pub in_scope : String → Exec AppContext ℕ → Option String → Exec AppContext ℕ
  in_scope t create none = raise (exn value_error "a scoped service requires an active scope")
  in_scope t create (some i) = do
    kept ← gets (λ s. get (scope_services i s) t)
    kept_or kept create (keep_scoped i t)

  abbrev pub of_scope : String → Exec AppContext ℕ → Exec AppContext ℕ
  of_scope t create = do scope ← gets (λ s. s.current_scope_id); in_scope t create scope

  abbrev pub by_lifetime : Lifetime → String → Exec AppContext ℕ → Exec AppContext ℕ
  by_lifetime singleton t create = of_container t create
  by_lifetime scoped t create = of_scope t create
  by_lifetime _ t create = create

  abbrev pub resolve : String → Option ServiceDescriptor → Exec AppContext ℕ
  resolve t none = raise (exn key_error "the service is not registered")
  resolve t (some d) = by_lifetime d.lifetime t (create_instance d)

  unfoldable pub get_service : String → Exec AppContext ℕ
  get_service t = do d ← gets (λ s. get s.services t); resolve t d

  abbrev pub by_async_lifetime : Lifetime → String → Exec AppContext ℕ → Exec AppContext ℕ
  by_async_lifetime async_singleton t create = of_container t create
  by_async_lifetime async_scoped t create = of_scope t create
  by_async_lifetime _ t create = create

  abbrev pub resolve_async : String → Option ServiceDescriptor → Exec AppContext ℕ
  resolve_async t none = raise (exn key_error "the service is not registered")
  resolve_async t (some d) =
      if d.is_async
      then by_async_lifetime d.lifetime t (create_async_instance d)
      else raise (exn value_error "the service is not registered as an async service")

  unfoldable pub get_service_async : String → Exec AppContext ℕ
  get_service_async t = do d ← gets (λ s. get s.services t); resolve_async t d
