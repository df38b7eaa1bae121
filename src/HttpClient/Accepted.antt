-- ===== src/HttpClient/Accepted.antt =====
-- Which responses `request` of http_request.py returns.
use claimsintelligence.Base.{
  ℕ, String, ◌≡◌, refl, ap, Bool, true, false, ◌||◌, Option, List, if◌then◌else◌, member, nat_key,
}
use mathlib.Core.Path.{subst}
use claimsintelligence.Dict.{Dict}
use claimsintelligence.Exec.{
  Outcome, returned, raised, continue, Exec, exn, other, ◌>>=◌, pure, raise,
}
use claimsintelligence.HttpClient.{
  HttpResponse, Client, Settings, Env, do_request, is_expected, Retrying, RetryLaws, request,
}

abbrev pub Returns : HttpResponse → Outcome HttpResponse × Client → Type 0
Returns r x = x.0 ≡ returned r

choose-Returns :
    (b : Bool) (q r : HttpResponse) (s : Client) (P : HttpResponse → Type 0)
    → (b ≡ true → P q)
    → Returns r ((if b then pure q else raise (exn other "HttpRequestError")) s)
    → P r
unfolding ◌>>=◌
choose-Returns true q r s P k h = subst P (the_same h) (k refl)
  where
    the_same : returned q ≡ returned r → q ≡ r
    the_same e = cc
choose-Returns false q r s P k h = cc

-- What is returned after a step is returned by what follows it.
bind-Returns :
    {A : Type 0} (m : Exec Client A) (f : A → Exec Client HttpResponse) (P : HttpResponse → Type 0)
    (r : HttpResponse) (s : Client)
    → ((a : A) (t : Client) → (m s ≡ (returned a, t)) → Returns r (f a t) → P r)
    → Returns r ((m >>= f) s)
    → P r
unfolding ◌>>=◌
bind-Returns {A} m f P r s k h = go (m s) refl h
  where
    go : (x : Outcome A × Client) → m s ≡ x → Returns r (continue x.0 f x.1) → P r
    go (returned a, t) e h = k a t e h
    go (raised x, t) e h = cc

module _ (env : Env) (settings : Settings) (retrying : Retrying) (laws : RetryLaws retrying) where
  abbrev Passes : Option (List ℕ) → HttpResponse → Type 0
  Passes expected r =
      (member r.status settings.retry_statuses || is_expected expected r.status) ≡ true

  do_request-Returns :
      (method url : String) (headers : Dict String String) (expected : Option (List ℕ))
      (r : HttpResponse) (s : Client)
      → Returns r (do_request env settings method url headers expected s)
      → Passes expected r
  unfolding do_request
  do_request-Returns method url headers expected r s =
      bind-Returns _ _ (Passes expected) r s λ req_headers t e.
        bind-Returns _ _ (Passes expected) r t
          λ q u e. choose-Returns _ q r u (Passes expected) λ h. h

  abbrev pub IsAccepted : Option (List ℕ) → HttpResponse → Type 0
  IsAccepted expected r =
      (member r.status settings.retry_statuses ≡ false) × (is_expected expected r.status ≡ true)

  swapped-Returns :
      (b : Bool) (q r : HttpResponse) (s : Client) (P : HttpResponse → Type 0)
      → (b ≡ false → P q)
      → Returns r ((if b then raise (exn other "HttpRequestError") else pure q) s)
      → P r
  swapped-Returns true q r s P k h = choose-Returns false q r s P (λ e. cc) h
  swapped-Returns false q r s P k h = choose-Returns true q r s P (λ e. k refl) h

  -- A request that returns has a response whose status is not to be retried and is expected, or, where none
  -- is said to be expected, from 200 to 299.
  pub request-IsAccepted :
      (method url : String) (headers : Dict String String) (expected : Option (List ℕ))
      (r : HttpResponse) (s : Client)
      → (request env settings retrying method url headers expected s).0 ≡ returned r
      → IsAccepted expected r
  unfolding request
  request-IsAccepted method url headers expected r s =
      bind-Returns _ _ (IsAccepted expected) r s λ q t e.
        swapped-Returns _ q r t (IsAccepted expected) λ fine.
          let (u, u', act) = laws.honest _ _ s t q e in
          (
            fine,
            rw fine at (do_request-Returns method url headers expected q u (ap (λ x. x.0) act)),
          )
