-- ===== src/QueueService/Finalise.antt =====
-- `_handle_successful_processing` and `_handle_failed_no_retry` of queue_service.py: what becomes of
-- a message when its job has ended.
use claimsintelligence.Base.{
  ℕ, zero, suc, String, Bool, true, false, ◌||◌, Option, none, some, [], ◌∷◌, leb, max,
  if◌then◌else◌, string_key, is_empty, strip, reads_as, nat_key,
}
use claimsintelligence.Exec.{
  Exec, pure, gets, modify, raise, catch, catch_exception, is_azure, ◌>>=◌, ◌>>◌,
}
use claimsintelligence.Dict
use claimsintelligence.QueueService.Payload.{Codec, Raw, missing, text, bytes}
use claimsintelligence.QueueService.State.{
  Config, QueueMessage, DeadLetter, delete_message, update_message, send_dead_letter, Reply,
  receipt, Env, Service, perform, target,
}
use claimsintelligence.QueueService.Blobs.{cleanup_output_blobs}

-- int(getattr(queue_message, "dequeue_count", 1) or 1)
abbrev pub attempt_of : QueueMessage → ℕ
attempt_of m = elim m.dequeue_count [ none ↦ 1 | some n ↦ max 1 n ]

-- max(1, int(config.max_receive_attempts or 3))
abbrev pub max_attempts_of : Config → ℕ
max_attempts_of c = elim c.max_receive_attempts [ zero ↦ 3 | suc n ↦ suc n ]

unfoldable pub should_dead_letter : Config → QueueMessage → Bool → Bool
should_dead_letter c m force = force || leb (max_attempts_of c) (attempt_of m)

-- str(queue_message.inserted_on or ""), str(queue_message.content or "")
abbrev or_blank : Option String → String
or_blank none = ""
or_blank (some s) = s

abbrev pub content_text : Codec → Raw → String
content_text codec missing = ""
content_text codec (text s) = s
content_text codec (bytes bs) = elim bs [ [] ↦ "" | b ∷ rest ↦ codec.repr_bytes (b ∷ rest) ]

-- `new_pop = getattr(receipt, "pop_receipt", None)` and its test
abbrev pub new_receipt : Reply → Option String
new_receipt (receipt (some p)) = if is_empty p then none else some p
new_receipt _ = none

abbrev pub dispatch :
    Option String × Option String
    → (String → String → Exec Service (Unit {0}))
    → Exec Service (Unit {0})
dispatch (some i, some p) f = f i p
dispatch (some i, none) f = pure tt
dispatch (none, p) f = pure tt

-- What each of the four calls on the message has round it: the client is there, and so are the id
-- and the receipt.
unfoldable pub with_receipt :
    QueueMessage → Option ℕ → (String → String → Exec Service (Unit {0})) → Exec Service (Unit {0})
with_receipt m w f = do
  present ← gets (λ (s : Service). s.main_queue)
  if present then (do t ← gets (target m w); dispatch t f) else pure tt

abbrev pub track : ℕ → String → String → Service → Service
track w i p s = record s { inflight_message = Dict.set s.inflight_message w (i, p) }

abbrev pub track_receipt : Option ℕ → String → Option String → Exec Service (Unit {0})
track_receipt (some w) i (some p) = modify (track w i p)
track_receipt _ i _ = pure tt

abbrev pub payload_of : Codec → Config → QueueMessage → String → String → DeadLetter
payload_of codec config m process_id failure_reason = record {
  process_id = process_id;
  failure_reason = failure_reason;
  attempt = attempt_of m;
  max_attempts = max_attempts_of config;
  message_id = m.id;
  inserted_on = or_blank m.inserted_on;
  original_content = content_text codec m.content;
}

module _ (env : Env) where
  unfoldable pub delete_queue_message : String → String → Exec Service (Unit {0})
  delete_queue_message i p = do perform env (delete_message i p); pure tt

  -- try: delete_message … except ResourceNotFoundError … except AzureError
  unfoldable pub delete_original : QueueMessage → Option ℕ → Exec Service (Unit {0})
  delete_original m w =
      catch (with_receipt m w (delete_queue_message)) λ e. if is_azure e then pure tt else raise e

  unfoldable pub handle_successful_processing : QueueMessage → Option ℕ → Exec Service (Unit {0})
  handle_successful_processing m w = delete_original m w

  -- A failed attempt that is not the last: the message comes back after the short delay.
  unfoldable pub schedule_retry : QueueMessage → Option ℕ → Exec Service (Unit {0})
  schedule_retry m w = do
    config ← gets (λ (s : Service). s.config)
    catch_exception
        (with_receipt m w λ i p. do
          r ← perform env (update_message i p config.retry_visibility_delay_seconds)
          track_receipt w i (new_receipt r))
        (λ e. pure tt)

  -- Whether the dead letter was sent.
  unfoldable pub send_to_dead_letter_queue : DeadLetter → Exec Service Bool
  send_to_dead_letter_queue payload =
      catch_exception
        (do
          present ← gets (λ (s : Service). s.dead_letter_queue)
          if present then (do perform env (send_dead_letter payload); pure true) else pure false)
        (λ e. pure false)

  -- Without a dead letter the message is kept, for at least a minute.
  unfoldable pub postpone : QueueMessage → Option ℕ → Exec Service (Unit {0})
  postpone m w = do
    config ← gets (λ (s : Service). s.config)
    catch_exception
        (with_receipt m w λ i p. do
          perform env (update_message i p (max 60 config.retry_visibility_delay_seconds))
          pure tt)
        (λ e. pure tt)

  -- `cleanup_scope` is "output" or "process", and both clean the output folder.
  unfoldable pub cleanup_after_failure : Option String → String → Exec Service (Unit {0})
  cleanup_after_failure none scope = pure tt
  cleanup_after_failure (some c) scope =
      if is_empty c
      then pure tt
      else catch_exception
          (let scope' = strip (if is_empty scope then "output" else scope) in
            if reads_as scope' "process" || reads_as scope' "output"
            then cleanup_output_blobs env c
            else pure tt)
          (λ e. pure tt)

  unfoldable pub dead_letter :
      Codec → QueueMessage → String → String → Option String → Option ℕ → Exec Service (Unit {0})
  dead_letter codec m process_id failure_reason cleanup_id w = do
    config ← gets (λ (s : Service). s.config)
    sent ← send_to_dead_letter_queue (payload_of codec config m process_id failure_reason)
    if sent
        then (do cleanup_after_failure cleanup_id "output"; delete_original m w)
        else postpone m w

  unfoldable pub handle_failed_no_retry :
      Codec
      → QueueMessage
      → String
      → String
      → Option String
      → Option ℕ
      → Bool
      → Exec Service (Unit {0})
  handle_failed_no_retry codec m process_id failure_reason cleanup_id w force = do
    config ← gets (λ (s : Service). s.config)
    if should_dead_letter config m force
        then dead_letter codec m process_id failure_reason cleanup_id w
        else schedule_retry m w
