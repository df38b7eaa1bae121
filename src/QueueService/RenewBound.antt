-- ===== src/QueueService/RenewBound.antt =====
-- How often `_renew_visibility_loop` of queue_service.py renews a message.
use claimsintelligence.Base.{
  ℕ, suc, ◌+◌, ◌*◌, ◌≤◌, ◌<◌, ◌≡◌, refl, Bool, true, false, not, List, [], ◌∷◌, arith,
  if◌then◌else◌, nat_key, leb, length, ◌⊎◌, inl, inr, Bool-cases, ◌∙◌, ap,
}
use claimsintelligence.Exec.{Outcome, returned, Exec, continue, pure, ◌>>=◌}
use claimsintelligence.QueueService.State.{Config, Event, Env, Service, perform}
use claimsintelligence.QueueService.Renew.{
  visibility_seconds, renewal_sleep, max_lifetime, renew_once, renew_tracked, renew_visibility_loop,
}

-- Each wake-up comes at least the sleeping time after the one before: what `asyncio.sleep` promises.
abbrev pub AreSpaced : ℕ → ℕ → List ℕ → Type 0
AreSpaced gap start [] = Unit
AreSpaced gap start (t ∷ ts) = (start + gap ≤ t) × AreSpaced gap t ts

module _ (env : Env) (w : ℕ) where
  -- One wake-up makes one call at most, and leaves the configuration.
  renew_tracked-calls :
      (s : Service)
      → ((renew_tracked env w s).1.config ≡ s.config)
        × (((renew_tracked env w s).1.trace ≡ s.trace)
            ⊎ (length (renew_tracked env w s).1.trace ≡ suc (length s.trace)))
  unfolding renew_tracked renew_once perform ◌>>=◌
  renew_tracked-calls s = ground arith

  same_or_more :
      {a b : List Event}
      → (a ≡ b) ⊎ (length a ≡ suc (length b))
      → (length a ≡ length b) ⊎ (length a ≡ suc (length b))
  same_or_more (inl e) = inl (ap length e)
  same_or_more (inr e) = inr e

  -- After `n` renewals the clock has not reached the limit.
  abbrev IsWithin : Config → ℕ → ℕ → ℕ → ℕ → Type 0
  IsWithin c start before after n =
      (after ≡ before + n) × ((n ≡ 0) ⊎ (start + n * renewal_sleep c < max_lifetime c))

  -- The rest of the loop behind one wake-up at `t`.
  after_wake :
      (c : Config) (rest : Exec Service (Unit {0})) (o : Outcome Bool) (start t before : ℕ)
      (s : Service)
      → start + renewal_sleep c ≤ t
      → t < max_lifetime c
      → (length s.trace ≡ before) ⊎ (length s.trace ≡ suc before)
      → ((n : ℕ) × IsWithin c t (length s.trace) (length (rest s).1.trace) n)
      → (n : ℕ) × IsWithin c start before
          (length (continue o (λ b. if b then rest else pure tt) s).1.trace)
          n
  unfolding ◌>>=◌
  after_wake c rest (returned true) start t before s gap early (inl same) (n, (eq, within)) =
      (n, (omega arith, grind arith))
  after_wake c rest (returned true) start t before s gap early (inr more) (n, (eq, within)) =
      (suc n, (omega arith, grind arith))
  after_wake c rest _ start t before s gap early (inl same) ih = (0, (omega arith, inl refl))
  after_wake c rest _ start t before s gap early (inr more) ih = (1, (omega arith, grind arith))

  loop-IsWithin :
      (wakes : List ℕ) (c : Config) (start : ℕ) (s : Service)
      → s.config ≡ c
      → AreSpaced (renewal_sleep c) start wakes
      → (n : ℕ) × IsWithin c start
          (length s.trace)
          (length (renew_visibility_loop env w wakes s).1.trace)
          n
  unfolding renew_visibility_loop ◌>>=◌
  loop-IsWithin [] c start s e h = (0, (omega arith, inl refl))
  loop-IsWithin (t ∷ wakes) c start s e h =
      let calls = renew_tracked-calls s in
      go (loop-IsWithin wakes c t (renew_tracked env w s).1 (calls.0 ∙ e) h.1) calls.1 s.is_running
        (Bool-cases (leb (max_lifetime s.config) t))
    where
      s' : Service
      s' = (renew_tracked env w s).1

      rest : Exec Service (Unit {0})
      rest = renew_visibility_loop env w wakes

      go :
          ((n : ℕ) × IsWithin c t (length s'.trace) (length (rest s').1.trace) n)
          → (s'.trace ≡ s.trace) ⊎ (length s'.trace ≡ suc (length s.trace))
          → (r : Bool)
          → (leb (max_lifetime s.config) t ≡ true) ⊎ (leb (max_lifetime s.config) t ≡ false)
          → (n : ℕ) × IsWithin c start
              (length s.trace)
              (length
                ((if not r
                    then pure tt
                    else if leb (max_lifetime s.config) t
                    then pure tt
                    else renew_tracked env w >>= λ b. if b then rest else pure tt)
                  s).1.trace)
              n
      go ih calls false l = (0, (omega arith, inl refl))
      go ih calls true (inl late) = (0, (rw late (omega arith), inl refl))
      go ih calls true (inr early) = rw early (
          after_wake c rest (renew_tracked env w s).0 start t (length s.trace) s' h.0
            (rw (← e) (ground arith)) (same_or_more calls) ih)

  -- Where the wake-ups are the sleeping time apart, the loop makes `n` calls for which `n` sleeping
  -- times are below the limit, `max_lifetime_s`, or none.
  pub renewals_bounded :
      (wakes : List ℕ) (s : Service)
      → AreSpaced (renewal_sleep s.config) 0 wakes
      → (n : ℕ) × (length (renew_visibility_loop env w wakes s).1.trace ≡ length s.trace + n)
        × ((n ≡ 0) ⊎ (n * renewal_sleep s.config < max_lifetime s.config))
  renewals_bounded wakes s h =
      let (n, (eq, within)) = loop-IsWithin wakes s.config 0 s refl h in (n, eq, omega arith)

  -- Where the wake-ups are the sleeping time apart, and the message timeout is at most the
  -- visibility timeout, as the defaults have it, the loop makes one call at most, however long the
  -- job runs.
  pub renewed_once :
      (wakes : List ℕ) (s : Service)
      → AreSpaced (renewal_sleep s.config) 0 wakes
      → s.config.message_timeout_minutes ≤ s.config.visibility_timeout_minutes
      → length (renew_visibility_loop env w wakes s).1.trace ≤ length s.trace + 1
  unfolding renewal_sleep max_lifetime visibility_seconds
  renewed_once wakes s h le = let (n, eq, within) = renewals_bounded wakes s h in grind arith
