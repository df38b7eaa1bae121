-- ===== src/QueueService/Branches.antt =====
-- The three ends of a failed message, call by call: `_handle_failed_no_retry` of queue_service.py.
use claimsintelligence.Base.{
  ℕ, String, ◌≡◌, Bool, true, false, Option, some, List, ◌∷◌, arith, ◌≤◌, ◌<◌, max, nat_key, ◌⊎◌,
}
use claimsintelligence.Exec.{Exn, is_cancelled, catch_exception, ◌>>=◌}
use claimsintelligence.Dict
use claimsintelligence.QueueService.Payload.{Codec}
use claimsintelligence.QueueService.State.{
  QueueMessage, update_message, send_dead_letter, fail, Event, Env, Service, perform, target,
}
use claimsintelligence.QueueService.Finalise.{
  attempt_of, max_attempts_of, should_dead_letter, payload_of, with_receipt, schedule_retry,
  send_to_dead_letter_queue, postpone, dead_letter, handle_failed_no_retry,
}

-- The calls, with their replies.
module _ (env : Env) (codec : Codec) (m : QueueMessage) (s : Service) where
  abbrev pub retry_call : String → String → Event
  retry_call i p =
      let call = update_message i p s.config.retry_visibility_delay_seconds in
      (call, env s.trace call)

  abbrev pub send_call : String → String → Event
  send_call process_id reason =
      let call = send_dead_letter (payload_of codec s.config m process_id reason) in
      (call, env s.trace call)

  abbrev pub postpone_call : List Event → String → String → Event
  postpone_call t i p =
      let call = update_message i p (max 60 s.config.retry_visibility_delay_seconds) in
      (call, env t call)

module _ (env : Env) (codec : Codec) (m : QueueMessage) (w : ℕ) (process_id reason : String)
    (c : Option String) (s : Service) (i p : String) (present : s.main_queue ≡ true)
    (tracked : Dict.get s.inflight_message w ≡ some (i, p)) where
  -- With the queue's client there and a receipt tracked for the worker, a failed attempt that is
  -- neither forced nor the last makes one call: the message becomes visible after the retry delay,
  -- under the tracked receipt. So nothing is sent to the dead-letter queue, cleaned up or deleted.
  pub retry_calls :
      attempt_of m < max_attempts_of s.config
      → (handle_failed_no_retry env codec m process_id reason c (some w) false s).1.trace
        ≡ retry_call env codec m s i p ∷ s.trace
  unfolding handle_failed_no_retry should_dead_letter schedule_retry with_receipt target perform
      ◌>>=◌ catch_exception
  retry_calls h = ground arith

  -- With both clients there and a receipt tracked for the worker, the last attempt, or a forced one,
  -- where the dead-letter queue refuses the copy by an exception that is no cancellation, makes one
  -- call more: the message is hidden for a minute or for the retry delay, whichever is longer. So
  -- nothing is cleaned up or deleted.
  pub refused_calls :
      (force : Bool) (e : Exn)
      → (force ≡ true) ⊎ (max_attempts_of s.config ≤ attempt_of m)
      → s.dead_letter_queue ≡ true
      → env s.trace (send_dead_letter (payload_of codec s.config m process_id reason)) ≡ fail e
      → is_cancelled e ≡ false
      → let send = send_call env codec m s process_id reason in
        (handle_failed_no_retry env codec m process_id reason c (some w) force s).1.trace
        ≡ postpone_call env codec m s (send ∷ s.trace) i p ∷ send ∷ s.trace
  unfolding handle_failed_no_retry should_dead_letter dead_letter send_to_dead_letter_queue postpone
      with_receipt target perform ◌>>=◌ catch_exception
  refused_calls force e last open_queue h k = ground arith
