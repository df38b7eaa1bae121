-- ===== src/ResponseClient/Attempts.antt =====
-- The attempts behind a streamed response: `_inner_get_streaming_response` of
-- azure_openai_response_retry.py.
use claimsintelligence.Base.{
  ℕ, zero, suc, ◌+◌, ◌≤◌, ◌<◌, ◌≡◌, refl, true, false, not, ◌||◌, Option, none, some, List, [], ◌∷◌,
  ◌++◌, arith, eqb, length, ap, Bool-cases, inl, inr,
}
use claimsintelligence.ResponseClient.Trim.{ContextTrimConfig, Framework, Message, trim_messages}
use claimsintelligence.ResponseClient.Errors.{Error, is_transient_error}
use claimsintelligence.ResponseClient.Stream.{
  RateLimitRetryConfig, Stream, Response, delay_for, pre_trimmed, is_context_failure, failed,
  requested, attempt, nothing_yet, inner_get_streaming_response,
}

plus_one : (n : ℕ) → n + 1 ≡ suc n
plus_one n = omega arith

predecessor : (k : ℕ) → 0 < k → (n : ℕ) × (k ≡ suc n)
predecessor zero h = (0, omega (arith, h))
predecessor (suc n) h = (n, refl)

module _ {A : Type 0} (fw : Framework) (trim : ContextTrimConfig) (retry : RateLimitRetryConfig)
    (parent : ℕ → List Message → Stream A) (jitter : ℕ → ℕ) (messages : List Message) where
  abbrev pub attempts : ℕ → ℕ → List Message → Response A → Response A
  attempts = attempt fw trim retry parent jitter messages

  -- At most so many requests have been made.
  abbrev Few : ℕ → Response A → Type 0
  Few n r = length r.requests ≤ n

  step-Few :
      (left k : ℕ) (effective : List Message) (r : Response A)
      → ((j : ℕ) (ms : List Message) (q : Response A)
          → Few (length q.requests + left) (attempts left j ms q))
      → Few (length r.requests + suc left) (attempts (suc left) k effective r)
  unfolding attempt
  step-Few left k effective r rest = go (parent k effective).failure refl
    where
      r' : Response A
      r' = requested r effective (parent k effective)

      slept : Error → Response A
      slept e = record r' { sleeps = delay_for retry jitter k e ∷ r'.sleeps }

      go :
          (o : Option Error)
          → (parent k effective).failure ≡ o
          → Few (length r.requests + suc left) (attempts (suc left) k effective r)
      go none h = rw (h, attempt) (omega arith)
      go (some e) h = elim (Bool-cases (is_context_failure trim e)) [
        | inl long ↦ elim (Bool-cases (eqb left 0)) [
          | inl last ↦ rw (h, attempt, long, last) (omega arith)
          | inr more ↦
              rw (h, attempt, long, more)
                (omega (arith, rest (suc k) (trim_messages fw trim messages) r'))
        ]
        | inr short ↦ elim (Bool-cases (not (is_transient_error e) || eqb left 0)) [
          | inl stop ↦ rw (h, attempt, short, stop) (omega arith)
          | inr more ↦
              rw (h, attempt, short, more) (omega (arith, rest (suc k) effective (slept e)))
        ]
      ]

  attempts-Few :
      (left k : ℕ) (effective : List Message) (r : Response A)
      → Few (length r.requests + left) (attempts left k effective r)
  unfolding attempt
  attempts-Few zero k effective r = omega arith
  attempts-Few (suc left) k effective r = step-Few left k effective r (attempts-Few left)

  -- What each kind of failure leads to, when it is not the last attempt.
  retrim :
      (left k : ℕ) (effective : List Message) (r : Response A) (e : Error)
      → (parent k effective).failure ≡ some e
      → is_context_failure trim e ≡ true
      → eqb left 0 ≡ false
      → attempts (suc left) k effective r
        ≡ attempts left
            (suc k)
            (trim_messages fw trim messages)
            (requested r effective (parent k effective))
  unfolding attempt
  retrim left k effective r e h long more = rw (h, attempt, long, more) refl

  repeat :
      (left k : ℕ) (effective : List Message) (r : Response A) (e : Error)
      → (parent k effective).failure ≡ some e
      → is_context_failure trim e ≡ false
      → (not (is_transient_error e) || eqb left 0) ≡ false
      → attempts (suc left) k effective r
        ≡ attempts left (suc k) effective (record (requested r effective (parent k effective)) {
          sleeps = delay_for retry jitter k e ∷ r.sleeps;
        })
  unfolding attempt
  repeat left k effective r e h short more = rw (h, attempt, short, more) refl

  give_up :
      (left k : ℕ) (effective : List Message) (r : Response A) (e : Error)
      → (parent k effective).failure ≡ some e
      → is_context_failure trim e ≡ false
      → (not (is_transient_error e) || eqb left 0) ≡ true
      → attempts (suc left) k effective r ≡ failed (requested r effective (parent k effective)) e
  unfolding attempt
  give_up left k effective r e h short stop = rw (h, attempt, short, stop) refl

  succeed :
      (left k : ℕ) (effective : List Message) (r : Response A)
      → (parent k effective).failure ≡ none
      → attempts (suc left) k effective r ≡ requested r effective (parent k effective)
  unfolding attempt
  succeed left k effective r h = rw (h, attempt) refl

  abbrev IsWorn : ℕ → List ℕ → Error → Response A → Type 0
  IsWorn n sleeps e r = (length r.requests ≡ n) × (r.sleeps ≡ sleeps) × (r.failure ≡ some e)

  context_failures-IsWorn :
      (left k : ℕ) (effective : List Message) (r : Response A) (e : Error)
      → is_context_failure trim e ≡ true
      → ((n : ℕ) (ms : List Message) → (parent n ms).failure ≡ some e)
      → IsWorn (length r.requests + suc left) r.sleeps e (attempts (suc left) k effective r)
  unfolding attempt
  context_failures-IsWorn zero k effective r e long fails =
      rw (fails k effective, attempt, long) (omega arith, refl, refl)
  context_failures-IsWorn (suc left) k effective r e long fails =
      let trimmed = trim_messages fw trim messages in
      let r' = requested r effective (parent k effective) in
      let (requests, sleeps, failure) =
        context_failures-IsWorn left (suc k) trimmed r' e long fails in
      simp (retrim (suc left) k effective r e (fails k effective) long (ground arith))
        (omega (arith, requests), sleeps, failure)

  abbrev inner : Response A
  inner = inner_get_streaming_response fw trim retry parent jitter messages

  inner_lem : inner ≡ attempts (suc retry.max_retries) 0 (pre_trimmed fw trim messages) nothing_yet
  unfolding inner_get_streaming_response
  inner_lem =
      ap (λ n. attempts n 0 (pre_trimmed fw trim messages) nothing_yet) (plus_one retry.max_retries)

  -- A streamed response takes at most one request more than there are retries.
  pub requests_bounded : length inner.requests ≤ retry.max_retries + 1
  requests_bounded = rw inner_lem (
      omega
        (arith, attempts-Few (suc retry.max_retries) 0 (pre_trimmed fw trim messages) nothing_yet))

  -- Where every request fails by the same exception, which tells of the context's length, and such
  -- failures are retried, all the requests that there may be are made, without any sleep between
  -- them, and the exception is raised.
  pub context_failures :
      (e : Error)
      → is_context_failure trim e ≡ true
      → ((n : ℕ) (ms : List Message) → (parent n ms).failure ≡ some e)
      → (length inner.requests ≡ retry.max_retries + 1)
        × (inner.sleeps ≡ [])
        × (inner.failure ≡ some e)
  context_failures e long fails =
      let (requests, sleeps, failure) =
        context_failures-IsWorn retry.max_retries 0 (pre_trimmed fw trim messages) nothing_yet e
          long fails in
      rw inner_lem (omega (arith, requests), sleeps, failure)

  -- Where the first stream gives updates and then fails by an exception that is retried and is not
  -- taken for one of the context's length, and the second gives its updates to the end: what is
  -- yielded is the updates of the first and then, from the start, those of the second.
  pub yielded_again :
      (e : Error)
      → 0 < retry.max_retries
      → (parent 0 (pre_trimmed fw trim messages)).failure ≡ some e
      → is_context_failure trim e ≡ false
      → is_transient_error e ≡ true
      → (parent 1 (pre_trimmed fw trim messages)).failure ≡ none
      → (inner.yielded
          ≡ (parent 0 (pre_trimmed fw trim messages)).updates
            ++ (parent 1 (pre_trimmed fw trim messages)).updates)
        × (inner.failure ≡ none)
  yielded_again e some_left first short transient second =
      let (n, is_suc) = predecessor retry.max_retries some_left in
      let pre = pre_trimmed fw trim messages in
      let q : Response A = record (requested nothing_yet pre (parent 0 pre)) {
        sleeps = delay_for retry jitter 0 e ∷ [];
      } in
      let more : (not (is_transient_error e) || eqb (suc n) 0) ≡ false = ground arith in
      simp
        (
          inner_lem,
          is_suc,
          repeat (suc n) 0 pre nothing_yet e first short more,
          succeed n 1 pre q second,
        )
        (refl, refl)

  -- Where the first stream fails by an exception that is neither retried nor taken for one of the
  -- context's length, that is raised after this one request, and the updates before it are yielded.
  pub raised_at_once :
      (e : Error)
      → (parent 0 (pre_trimmed fw trim messages)).failure ≡ some e
      → is_context_failure trim e ≡ false
      → is_transient_error e ≡ false
      → inner ≡ record {
        yielded = (parent 0 (pre_trimmed fw trim messages)).updates;
        requests = pre_trimmed fw trim messages ∷ [];
        sleeps = [];
        failure = some e;
      }
  raised_at_once e first short lasting =
      simp
        (
          inner_lem,
          give_up retry.max_retries 0 (pre_trimmed fw trim messages) nothing_yet e first short
              (ground arith),
        )
        refl
