-- ===== src/HttpClient/OAuth.antt =====
-- `OAuthClientCredentials` of http_request.py: the token that is kept until shortly before it expires.
-- The lock lets one call of get_token at a time in. Times are in seconds.
use claimsintelligence.Base.{
  ℕ, suc, ◌+◌, String, ◌≡◌, refl, ap, ◌∙◌, Bool, true, false, not, ◌&&◌, ◌||◌, Option, none, some,
  if◌then◌else◌, ltb, is_empty, arith, ◌≤◌,
}
use mathlib.Core.Path.{subst, ap₂}
use claimsintelligence.Exec.{exn, other, Exec, Outcome, returned, raised}

-- The token and when it expires, and how many requests were sent.
pub record Credentials : Type 0 where
  pub access_token : Option String
  pub expires_at : Option ℕ
  pub posts : ℕ

-- What is read of a payload: the token, if it has one, and in how many seconds it expires, with none where
-- that is missing or no number. It is not negative, and not too large for a date.
pub record Payload : Type 0 where
  pub access_token : Option String
  pub expires_in : Option ℕ

pub record Reply : Type 0 where
  pub status : ℕ
  pub body : String
  pub received_at : ℕ

-- What the requests are replied, and `json.loads` with the reading of the payload.
pub record TokenEnv : Type 0 where
  pub post : ℕ → Outcome Reply
  pub loads : String → Outcome Payload

abbrev pub seconds : Option ℕ → ℕ
seconds none = 3600
seconds (some n) = n

-- The token, if there is one that is not about to expire.
abbrev pub kept_token : ℕ → Option String → Option ℕ → Option String
kept_token now (some t) (some at) = if not (is_empty t) && ltb (now + 30) at then some t else none
kept_token now _ _ = none

abbrev pub keep : ℕ → Outcome Payload → Credentials → Outcome String × Credentials
keep at (raised e) s = (raised e, s)
keep at (returned p) s = elim p.access_token [
  | none ↦ (raised (exn other "OAuth token response missing access_token"), s)
  | some t ↦
      if is_empty t then (raised (exn other "OAuth token response missing access_token"), s) else (
        returned t,
        record s { access_token = some t; expires_at = some (at + seconds p.expires_in) },
      )
]

abbrev pub read_reply : TokenEnv → Outcome Reply → Credentials → Outcome String × Credentials
read_reply env (raised e) s = (raised e, s)
read_reply env (returned r) s =
    if ltb r.status 200 || not (ltb r.status 300)
    then (raised (exn other "OAuth token request failed"), s)
    else keep r.received_at (env.loads r.body) s

unfoldable pub get_token : TokenEnv → ℕ → Exec Credentials String
get_token env now s = elim (kept_token now s.access_token s.expires_at) [
  | some t ↦ (returned t, s)
  | none ↦ read_reply env (env.post s.posts) (record s { posts = suc s.posts })
]

-- What a call of get_token has done: it has given a token that is not empty and is kept, or it has raised
-- and keeps what it kept. One request is sent at most.
abbrev pub Did : Credentials → Outcome String × Credentials → Type 0
Did s (returned t, s') =
    (is_empty t ≡ false)
    × (s'.access_token ≡ some t)
    × ((at : ℕ) × (s'.expires_at ≡ some at))
    × (s'.posts ≤ suc s.posts)
Did s (raised e, s') =
    (s'.access_token ≡ s.access_token) × (s'.expires_at ≡ s.expires_at) × (s'.posts ≡ suc s.posts)

keep-Did :
    (at : ℕ) (o : Outcome Payload) (s : Credentials)
    → Did s (keep at o (record s { posts = suc s.posts }))
keep-Did at (raised e) s = (refl, refl, refl)
keep-Did at (returned p) s = of_token p.access_token
  where
    stored : String → Credentials
    stored t = record s {
      access_token = some t;
      expires_at = some (at + seconds p.expires_in);
      posts = suc s.posts;
    }

    of_empty :
        (t : String) (b : Bool)
        → is_empty t ≡ b
        → Did s (
            if b
            then (
              raised (exn other "OAuth token response missing access_token"),
              record s { posts = suc s.posts },
            )
            else (returned t, stored t))
    of_empty t true e = (refl, refl, refl)
    of_empty t false e = (e, refl, (_, refl), omega arith)

    of_token :
        (o : Option String)
        → Did s (elim o [
          | none ↦ (
            raised (exn other "OAuth token response missing access_token"),
            record s { posts = suc s.posts },
          )
          | some t ↦
              if is_empty t
              then (
                raised (exn other "OAuth token response missing access_token"),
                record s { posts = suc s.posts },
              )
              else (returned t, stored t)
        ])
    of_token none = (refl, refl, refl)
    of_token (some t) = of_empty t (is_empty t) refl

module _ (env : TokenEnv) where
  reply-Did :
      (o : Outcome Reply) (s : Credentials)
      → Did s (read_reply env o (record s { posts = suc s.posts }))
  reply-Did (raised e) s = (refl, refl, refl)
  reply-Did (returned r) s = go (ltb r.status 200 || not (ltb r.status 300))
    where
      go :
          (b : Bool)
          → Did s (
              if b
              then (
                raised (exn other "OAuth token request failed"),
                record s { posts = suc s.posts },
              )
              else keep r.received_at (env.loads r.body) (record s { posts = suc s.posts }))
      go true = (refl, refl, refl)
      go false = keep-Did r.received_at (env.loads r.body) s

  kept_if : (b : Bool) (t u : String) → (if b then some t else none) ≡ some u → (b ≡ true) × (t ≡ u)
  kept_if true t u h = (refl, same h)
    where
      same : some t ≡ some u → t ≡ u
      same e = cc
  kept_if false t u h = cc

  kept_lem :
      (now : ℕ) (a : Option String) (b : Option ℕ) (t : String)
      → kept_token now a b ≡ some t
      → (a ≡ some t) × (is_empty t ≡ false) × ((at : ℕ) × (b ≡ some at))
  kept_lem now none b t h = cc
  kept_lem now (some u) none t h = cc
  kept_lem now (some u) (some at) t h =
      let (fine, same) = kept_if (not (is_empty u) && ltb (now + 30) at) u t h in
      (ap some same, subst (λ k. is_empty k ≡ false) same (ground (arith, fine)), (at, refl))

  -- What a call of get_token does on every branch.
  get_token-Did : (now : ℕ) (s : Credentials) → Did s (get_token env now s)
  unfolding get_token
  get_token-Did now s = go (kept_token now s.access_token s.expires_at) refl
    where
      go :
          (o : Option String)
          → kept_token now s.access_token s.expires_at ≡ o
          → Did s (elim o [
            | some t ↦ (returned t, s)
            | none ↦ read_reply env (env.post s.posts) (record s { posts = suc s.posts })
          ])
      go (some t) e =
          let (same, filled, at) = kept_lem now s.access_token s.expires_at t e in
          (filled, same, at, omega arith)
      go none e = reply-Did (env.post s.posts) s

  again_lem :
      (later at : ℕ) (t : String) (s : Credentials)
      → is_empty t ≡ false
      → s.access_token ≡ some t
      → s.expires_at ≡ some at
      → get_token env later s ≡ (
          if ltb (later + 30) at
          then (returned t, s)
          else read_reply env (env.post s.posts) (record s { posts = suc s.posts }))
  unfolding get_token
  again_lem later at t s filled same expires =
      go (ltb (later + 30) at) (ap₂ (kept_token later) same expires ∙ rw filled refl)
    where
      go :
          (b : Bool)
          → kept_token later s.access_token s.expires_at ≡ (if b then some t else none)
          → (elim (kept_token later s.access_token s.expires_at) [
            | some t ↦ (returned t, s)
            | none ↦ read_reply env (env.post s.posts) (record s { posts = suc s.posts })
          ])
            ≡ (if b
                then (returned t, s)
                else read_reply env (env.post s.posts) (record s { posts = suc s.posts }))
      go true e = rw e refl
      go false e = rw e refl

  -- After a call of get_token that has returned a token: a later call returns the same token, with no
  -- request and nothing changed, while there are more than 30 seconds left until it expires, and
  -- sends one request for another token from then on.
  pub get_token-again :
      (now later at : ℕ) (t : String) (s s' : Credentials)
      → get_token env now s ≡ (returned t, s')
      → s'.expires_at ≡ some at
      → get_token env later s' ≡ (
          if ltb (later + 30) at
          then (returned t, s')
          else read_reply env (env.post s'.posts) (record s' { posts = suc s'.posts }))
  get_token-again now later at t s s' h expires =
      let (filled, same, _, _) = subst (Did s) h (get_token-Did now s) in
      again_lem later at t s' filled same expires
