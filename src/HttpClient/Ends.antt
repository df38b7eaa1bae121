-- ===== src/HttpClient/Ends.antt =====
-- That the loop of `poll_until_done` of http_request.py ends, and how.
use claimsintelligence.Base.{
  ℕ, zero, suc, ◌+◌, ◌-◌, String, ◌≡◌, refl, Bool, true, false, not, ◌&&◌, Option, some, List, ◌∷◌,
  ◌++◌, if◌then◌else◌, member, nat_key, ltb, ◌<◌, ◌≤◌, arith,
}
use claimsintelligence.Dict.{Dict}
use claimsintelligence.Exec.{Outcome, returned, raised, exn, timeout}
use claimsintelligence.Exec.Keeps.{Keeps, Keeps-pure, Keeps-raise, Keeps-if, Keeps-bind}
use claimsintelligence.HttpClient.{
  HttpResponse, Call, Client, Settings, Env, build_headers, has_auth, update, perform, do_request,
  Retrying, RetryLaws, request, ask_token, authorized, sleep, header,
}
use claimsintelligence.HttpClient.Poll.{
  Polling, delay_after, or_same, slept, turn, poll, poll_until_done,
}
use claimsintelligence.HttpClient.Accepted.{request-IsAccepted}

-- Every call takes some time.
abbrev pub Ticks : (List Call → ℕ) → Type 0
Ticks clock = (c : Call) (l : List Call) → clock l < clock (c ∷ l)

module _ (env : Env) (settings : Settings) (retrying : Retrying) (laws : RetryLaws retrying)
    (ticks : Ticks env.clock) where
  abbrev IsLater : ℕ → Client → Type 0
  IsLater n s = n ≤ env.clock s.calls

  Keeps-build_headers :
      (n : ℕ) (headers : Dict String String)
      → Keeps (IsLater n) (build_headers env settings headers)
  unfolding build_headers
  Keeps-build_headers n headers = record { after = after }
    where
      token_after :
          (merged : Dict String String) (o : Outcome String) (s : Client)
          → IsLater n s
          → IsLater n (authorized merged o s).1
      token_after merged (returned t) s h = h
      token_after merged (raised e) s h = h

      if-after :
          (b : Bool) (x y : Outcome (Dict String String) × Client)
          → IsLater n x.1
          → IsLater n y.1
          → IsLater n (if b then x else y).1
      if-after true x y h k = h
      if-after false x y h k = k

      after : (s : Client) → IsLater n s → IsLater n (build_headers env settings headers s).1
      after s h =
          let merged = update settings.default_headers headers in
          if-after (not (has_auth env merged) && settings.has_token_provider) _ (returned merged, s)
            (token_after merged (env.token s.calls) (record s { calls = ask_token ∷ s.calls })
              (omega (arith, ticks ask_token s.calls, h)))
            h

  Keeps-perform : (n : ℕ) (c : Call) → Keeps (IsLater n) (perform env c)
  unfolding perform
  Keeps-perform n c = record { after = λ s h. omega (arith, ticks c s.calls, h) }

  Keeps-do_request :
      (n : ℕ) (method url : String) (headers : Dict String String) (expected : Option (List ℕ))
      → Keeps (IsLater n) (do_request env settings method url headers expected)
  unfolding do_request
  Keeps-do_request n method url headers expected =
      Keeps-bind _ _ (Keeps-build_headers n headers) λ req_headers.
        Keeps-bind _ _ (Keeps-perform n _) λ r. Keeps-if _ _ _ (Keeps-pure r) (Keeps-raise _)

  Keeps-request :
      (n : ℕ) (method url : String) (headers : Dict String String) (expected : Option (List ℕ))
      → Keeps (IsLater n) (request env settings retrying method url headers expected)
  unfolding request
  Keeps-request n method url headers expected =
      Keeps-bind _ _ (laws.keeps (IsLater n) _ _ (Keeps-do_request n method url headers expected))
        λ r. Keeps-if _ _ _ (Keeps-raise _) (Keeps-pure r)

  -- A response that is done, and whose status is not to be retried.
  abbrev pub IsDone : Polling → Outcome HttpResponse → Type 0
  IsDone p (returned r) =
      (member r.status p.done ≡ true) × (member r.status settings.retry_statuses ≡ false)
  IsDone p (raised e) = Unit

  abbrev pub Finishes : Polling → Option (Outcome HttpResponse × Client) → Type 0
  Finishes p o = (x : Outcome HttpResponse × Client) × (o ≡ some x) × IsDone p x.0

  turn-Finishes :
      (p : Polling) (again : String → Client → Option (Outcome HttpResponse × Client))
      (url : String) (x : Outcome HttpResponse × Client)
      → ((r : HttpResponse) → x.0 ≡ returned r → member r.status settings.retry_statuses ≡ false)
      → ((r : HttpResponse) (next : String) → Finishes p (again next (slept env p r x.1)))
      → Finishes p (turn env p again url x)
  turn-Finishes p again url (raised e, s) ok rest = ((raised e, s), refl, tt)
  turn-Finishes p again url (returned r, s) ok rest = go (member r.status p.done) refl
    where
      go :
          (b : Bool)
          → member r.status p.done ≡ b
          → Finishes p (
              if b
              then some (returned r, s)
              else again (or_same url (header env p.location_header r.headers)) (slept env p r s))
      go true e = ((returned r, s), refl, (e, ok r refl))
      go false e = rest r _

  poll-Finishes :
      (p : Polling) (fuel start : ℕ) (url : String) (s : Client)
      → start ≤ env.clock s.calls
      → 0 < fuel
      → p.timeout_limit + 2 ≤ fuel + (env.clock s.calls - start)
      → Finishes p (poll env settings retrying p fuel start url s)
  unfolding poll
  poll-Finishes p zero start url s h pos enough = absurd (omega arith)
  poll-Finishes p (suc fuel) start url s h pos enough =
      go (ltb p.timeout_limit (env.clock s.calls - start))
        (λ next t. poll-Finishes p fuel start next t) refl
    where
      x : Outcome HttpResponse × Client
      x = request env settings retrying p.method url p.headers (some (p.pending ++ p.done)) s

      Rest : Type 0
      Rest =
          (next : String) (t : Client)
          → start ≤ env.clock t.calls
          → 0 < fuel
          → p.timeout_limit + 2 ≤ fuel + (env.clock t.calls - start)
          → Finishes p (poll env settings retrying p fuel start next t)

      go :
          (b : Bool)
          → Rest
          → ltb p.timeout_limit (env.clock s.calls - start) ≡ b
          → Finishes p (
              if b
              then some (raised (exn timeout "Polling timed out"), s)
              else turn env p (poll env settings retrying p fuel start) url x)
      go true rest e = ((raised (exn timeout "Polling timed out"), s), refl, tt)
      go false rest e =
          let later =
            (Keeps-request (env.clock s.calls) p.method url p.headers
                (some (p.pending ++ p.done))).after
              s (omega arith) in
          turn-Finishes p (poll env settings retrying p fuel start) url x
            (λ r same.
              (request-IsAccepted env settings retrying laws p.method url p.headers
                (some (p.pending ++ p.done)) r s same).0)
            λ r next.
              let tick = ticks (sleep (delay_after env p.poll_interval r)) x.1.calls in
              rest next (slept env p r x.1) (omega (arith, tick, later, h)) (ground arith)
                (ground (arith, tick, later, h))

  -- Where tenacity returns results of what it runs, and every call takes some time: with two turns more
  -- than the timeout has milliseconds the loop ends. If it returns a response, its status is one of
  -- those that are done, and not one that is to be retried.
  pub poll_until_done-Finishes :
      (p : Polling) (fuel : ℕ) (url : String) (s : Client)
      → p.timeout_limit + 2 ≤ fuel
      → Finishes p (poll_until_done env settings retrying p fuel url s)
  unfolding poll_until_done
  poll_until_done-Finishes p fuel url s h =
      poll-Finishes p fuel (env.clock s.calls) url s (omega arith) (omega (arith, h))
        (omega (arith, h))
