-- ===== src/AppContext/Scopes/Disposal.antt =====
-- What the end of a scope disposes of: `_cleanup_scope` of application_context.py.
use claimsintelligence.Base.{
  ℕ, String, ◌≡◌, refl, ap, ◌∙◌, ◌⊎◌, inl, inr, Bool, true, false, Option, none, some, List, [],
  ◌∷◌, if◌then◌else◌, string_key, All,
}
use claimsintelligence.Exec.{Exec, Outcome, returned, pure, continue, ◌>>=◌, ◌>>◌}
use claimsintelligence.Dict.{Dict, get}
use claimsintelligence.AppContext.{
  ServiceDescriptor, Attributes, Call, made, Event, Env, AppContext, perform,
}
use claimsintelligence.AppContext.Lifecycle.{dispose_scoped, dispose_all}

-- Disposals raise nothing.
pub record DisposesQuietly (env : Env) : Type 0 where
  pub aexit : (t : List Event) (o : ℕ) → (p : ℕ) × (env t (Call.aexit o) ≡ made p)
  pub cleanup :
      (t : List Event) (o : ℕ) (m : String) → (p : ℕ) × (env t (Call.cleanup o m) ≡ made p)

abbrev pub IsKnown : Dict String ServiceDescriptor → String × ℕ → Type 0
IsKnown registry (t, o) = (d : ServiceDescriptor) × (get registry t ≡ some d)

abbrev pub AllKnown : Dict String ServiceDescriptor → String × Dict String ℕ → Type 0
AllKnown registry (i, objects) = All (IsKnown registry) objects

-- The current scope, and that the services of every kept object are registered.
pub record Orderly (registry : Dict String ServiceDescriptor) (c : Option String) (s : AppContext)
    : Type 0 where
  pub scope : s.current_scope_id ≡ c
  pub services : s.services ≡ registry
  pub known : All (AllKnown registry) s.scoped_instances

abbrev pub Called : Call → List Event → Type 0
Called c [] = ⊥
Called c ((x, r) ∷ t) = (x ≡ c) ⊎ Called c t

-- How an object of an async service is disposed of: by `__aexit__`, else by the cleanup method; an
-- object that has neither, and one of a service that is not async, is dropped.
abbrev pub IsDisposedBy : Attributes → ServiceDescriptor → ℕ → List Event → Type 0
IsDisposedBy attributes d o t =
    if d.is_async
    then if attributes.has_aexit o
      then Called (Call.aexit o) t
      else if attributes.has_method o d.cleanup_method
      then Called (Call.cleanup o d.cleanup_method) t
      else Unit
    else Unit

abbrev pub IsDisposed :
    Attributes → Dict String ServiceDescriptor → List Event → String × ℕ → Type 0
IsDisposed attributes registry trace (t, o) = elim (get registry t) [
  | none ↦ Unit
  | some d ↦ IsDisposedBy attributes d o trace
]

module _ (env : Env) (attributes : Attributes) (quiet : DisposesQuietly env)
    (registry : Dict String ServiceDescriptor) where
  abbrev Dispose : ServiceDescriptor → ℕ → Exec AppContext (Unit {0})
  Dispose = dispose_scoped env attributes

  -- What one disposal does, where `There` is what it leaves in the log.
  record Disposed (There : List Event → Type 0) (s : AppContext)
      (x : Outcome (Unit {0}) × AppContext) : Type 0 where
    ended : x.0 ≡ returned tt
    there : There x.1.trace
    rest : x.1 ≡ record s { trace = x.1.trace }
    grows : (c : Call) → Called c s.trace → Called c x.1.trace

  Called-Disposed :
      (c : Call) (p : ℕ) (s : AppContext)
      → env s.trace c ≡ made p
      → Disposed (Called c) s ((do perform env c; pure tt) s)
  unfolding ◌>>=◌ perform
  Called-Disposed c p s e = record {
    ended = rw e refl;
    there = rw e (inl refl);
    rest = rw e refl;
    grows = λ c' h. rw e (inr h);
  }

  nothing-Disposed : (s : AppContext) → Disposed (λ t. Unit) s (pure tt s)
  unfolding ◌>>=◌
  nothing-Disposed s = record { ended = refl; there = tt; rest = refl; grows = λ c h. h }

  tested-Disposed :
      (is_async by_aexit by_method : Bool) (o : ℕ) (m : String) (s : AppContext)
      → Disposed
          (λ t.
            if is_async
            then if by_aexit
              then Called (Call.aexit o) t
              else if by_method
              then Called (Call.cleanup o m) t
              else Unit
            else Unit)
          s
          ((if is_async
              then if by_aexit
                then (do perform env (Call.aexit o); pure tt)
                else if by_method
                then (do perform env (Call.cleanup o m); pure tt)
                else pure tt
              else pure tt)
            s)
  tested-Disposed true true _ o m s = let (p, e) = quiet.aexit s.trace o in Called-Disposed _ p s e
  tested-Disposed true false true o m s =
      let (p, e) = quiet.cleanup s.trace o m in Called-Disposed _ p s e
  tested-Disposed true false false o m s = nothing-Disposed s
  tested-Disposed false _ _ o m s = nothing-Disposed s

  -- What the whole cleanup does.
  pub record AllDisposed (objects : Dict String ℕ) (s : AppContext)
      (x : Outcome (Unit {0}) × AppContext) : Type 0 where
    pub ended : x.0 ≡ returned tt
    pub there : All (IsDisposed attributes registry x.1.trace) objects
    pub rest : x.1 ≡ record s { trace = x.1.trace }
    pub grows : (c : Call) → Called c s.trace → Called c x.1.trace

  if-grows :
      (d : ServiceDescriptor) (o : ℕ) (t t' : List Event)
      → ((c : Call) → Called c t → Called c t')
      → IsDisposedBy attributes d o t
      → IsDisposedBy attributes d o t'
  if-grows d o t t' g =
      go d.is_async (attributes.has_aexit o) (attributes.has_method o d.cleanup_method)
    where
      go :
          (a x h : Bool)
          → (if a
              then if x
                then Called (Call.aexit o) t
                else if h
                then Called (Call.cleanup o d.cleanup_method) t
                else Unit
              else Unit)
          → (if a
              then if x
                then Called (Call.aexit o) t'
                else if h
                then Called (Call.cleanup o d.cleanup_method) t'
                else Unit {0}
              else Unit)
      go true true _ u = g _ u
      go true false true u = g _ u
      go true false false u = tt
      go false _ _ u = tt

  abbrev Leaves : ServiceDescriptor → ℕ → List Event → Type 0
  Leaves = IsDisposedBy attributes

  one-Disposed :
      (d : ServiceDescriptor) (o : ℕ) (s : AppContext) → Disposed (Leaves d o) s (Dispose d o s)
  one-Disposed d o s =
      tested-Disposed d.is_async (attributes.has_aexit o) (attributes.has_method o d.cleanup_method)
        o d.cleanup_method s

  then-AllDisposed :
      (t : String) (d : ServiceDescriptor) (o : ℕ)
      → get registry t ≡ some d
      → (objects : Dict String ℕ) (f : Exec AppContext (Unit {0})) (s : AppContext)
        (x : Outcome (Unit {0}) × AppContext)
      → Disposed (Leaves d o) s x
      → ((s' : AppContext) → s'.services ≡ s.services → AllDisposed objects s' (f s'))
      → AllDisposed ((t, o) ∷ objects) s (continue x.0 (λ _. f) x.1)
  then-AllDisposed t d o known objects f s (out, s') h next =
      let ih = next s' (rw h.rest refl) in
      rw h.ended (record {
        ended = ih.ended;
        there = (rw (known, IsDisposed) (if-grows d o s'.trace _ ih.grows h.there), ih.there);
        rest = ih.rest ∙ ap (λ (u : AppContext). record u { trace = (f s').1.trace }) h.rest;
        grows = λ c q. ih.grows c (h.grows c q);
      })

  pub dispose_all-AllDisposed :
      (objects : Dict String ℕ)
      → All (IsKnown registry) objects
      → (s : AppContext) → s.services ≡ registry
      → AllDisposed objects s (dispose_all env attributes Dispose objects s)
  unfolding dispose_all ◌>>=◌
  dispose_all-AllDisposed [] k s same = record {
    ended = refl;
    there = tt;
    rest = refl;
    grows = λ c h. h;
  }
  dispose_all-AllDisposed ((t, o) ∷ objects) ((d, known), k) s same =
      let e : get s.services t ≡ some d = rw same known in
      rw e (
        then-AllDisposed t d o known objects (dispose_all env attributes Dispose objects) s
          (Dispose d o s) (one-Disposed d o s)
          λ s' unchanged. dispose_all-AllDisposed objects k s' (unchanged ∙ same))
