-- ===== src/ResponseClient/Stream.antt =====
-- `_inner_get_streaming_response` of azure_openai_response_retry.py: the updates of a response, with
-- the attempts behind them. Times are in thousandths of a second.
use claimsintelligence.Base.{
  ℕ, zero, suc, ◌+◌, ◌*◌, Bool, not, ◌||◌, ◌&&◌, Option, none, some, List, [], ◌∷◌, ◌++◌, ltb, eqb,
  min, if◌then◌else◌,
}
use claimsintelligence.ResponseClient.Trim.{
  ContextTrimConfig, Framework, Message, total_chars, trim_messages,
}
use claimsintelligence.ResponseClient.Errors.{
  Error, info, is_transient_error, looks_like_context_length,
}

pub record RateLimitRetryConfig : Type 0 where
  pub max_retries : ℕ
  pub base_delay_seconds : ℕ
  pub max_delay_seconds : ℕ

-- What the parent's stream gives: its updates, and the exception that ends it, if one does.
pub record Stream (A : Type 0) : Type 0 where
  pub updates : List A
  pub failure : Option Error

-- What became of the call: the updates that were yielded, the messages of each request and the
-- sleeps, the newest first, and the exception that is raised.
pub record Response (A : Type 0) : Type 0 where
  pub yielded : List A
  pub requests : List (List Message)
  pub sleeps : List ℕ
  pub failure : Option Error

abbrev pub power : ℕ → ℕ
power zero = 1
power (suc n) = 2 * power n

module _ (retry : RateLimitRetryConfig) where
  -- `jitter` is the random part for an attempt.
  unfoldable pub delay_for : (ℕ → ℕ) → ℕ → Error → ℕ
  delay_for jitter attempt_index e = elim (info e).retry_after [
    | some t ↦ t
    | none ↦
        min (retry.base_delay_seconds * power attempt_index) retry.max_delay_seconds
        + jitter attempt_index
  ]

module _ (fw : Framework) (trim : ContextTrimConfig) where
  -- The messages that the first request sends.
  unfoldable pub pre_trimmed : List Message → List Message
  pre_trimmed messages =
      if trim.enabled
        && (not (eqb trim.max_total_chars 0)
            && ltb trim.max_total_chars (total_chars fw trim messages))
      then trim_messages fw trim messages
      else messages

module _ (trim : ContextTrimConfig) where
  abbrev pub is_context_failure : Error → Bool
  is_context_failure e =
      trim.enabled && (trim.retry_on_context_error && looks_like_context_length e)

module _ {A : Type 0} where
  abbrev pub failed : Response A → Error → Response A
  failed r e = record r { failure = some e }

  abbrev pub requested : Response A → List Message → Stream A → Response A
  requested r sent s = record r { yielded = r.yielded ++ s.updates; requests = sent ∷ r.requests }

  abbrev pub nothing_yet : Response A
  nothing_yet = record { yielded = []; requests = []; sleeps = []; failure = none }

module _ {A : Type 0} (fw : Framework) (trim : ContextTrimConfig)
    (retry : RateLimitRetryConfig) where
  -- The attempts from `attempt_index` on, `left` in number. `parent` is the parent's stream for an
  -- attempt and its messages; what it yields before it fails has been yielded on.
  unfoldable pub attempt :
      (ℕ → List Message → Stream A)
      → (ℕ → ℕ)
      → List Message
      → ℕ
      → ℕ
      → List Message
      → Response A
      → Response A
  attempt parent jitter messages zero attempt_index effective r = r
  attempt parent jitter messages (suc left) attempt_index effective r =
      let s = parent attempt_index effective in
      let r' = requested r effective s in
      elim s.failure [
        | none ↦ r'
        | some e ↦
            let is_last = eqb left 0 in
            let again = attempt parent jitter messages left (suc attempt_index) in
            let slept = record r' { sleeps = delay_for retry jitter attempt_index e ∷ r'.sleeps } in
            let trimmed = again (trim_messages fw trim messages) r' in
            let repeated = again effective slept in
            if is_context_failure trim e
            then (if is_last then failed r' e else trimmed)
            else (if not (is_transient_error e) || is_last then failed r' e else repeated)
      ]

  unfoldable pub inner_get_streaming_response :
      (ℕ → List Message → Stream A) → (ℕ → ℕ) → List Message → Response A
  inner_get_streaming_response parent jitter messages =
      attempt parent jitter messages (retry.max_retries + 1) 0 (pre_trimmed fw trim messages)
        nothing_yet
