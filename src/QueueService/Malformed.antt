-- ===== src/QueueService/Malformed.antt =====
-- A message whose payload cannot be read: `_process_queue_message` of queue_service.py.
use Prim.Native.String.{◌++◌ as string_append}
use claimsintelligence.Base.{
  ℕ, String, ◌≡◌, true, false, none, some, List, ◌∷◌, arith, nat_key, member,
}
use claimsintelligence.Exec.{Exn, raised, catch_exception, ◌>>=◌}
use claimsintelligence.Dict
use claimsintelligence.QueueService.Payload.{Codec, build_task_param}
use claimsintelligence.QueueService.State.{
  QueueMessage, delete_message, send_dead_letter, done, Event, Env, Service, perform, target,
}
use claimsintelligence.QueueService.Finalise.{
  should_dead_letter, payload_of, with_receipt, delete_queue_message, delete_original,
  send_to_dead_letter_queue, cleanup_after_failure, dead_letter, handle_failed_no_retry,
}
use claimsintelligence.QueueService.Process.{
  unknown, handle_message, release, untrack, process_queue_message,
}

abbrev pub invalid_call : Codec → QueueMessage → Service → Exn → Event
invalid_call codec m s e =
    let reason = string_append "Invalid queue message: " e.message in
    (send_dead_letter (payload_of codec s.config m unknown reason), done)

module _ (env : Env) (codec : Codec) (m : QueueMessage) (w : ℕ) (s : Service) (i p : String)
    (e : Exn) (present : s.main_queue ≡ true) (open_queue : s.dead_letter_queue ≡ true)
    (idle : Dict.get s.inflight_message w ≡ none) (quiet : member w s.renewing ≡ false)
    (id : m.id ≡ some i) (pop_receipt : m.pop_receipt ≡ some p)
    (malformed : build_task_param codec m.content ≡ raised e) where
  -- With both clients there, nothing tracked for the worker, and both calls answered, a message that
  -- has an id and a receipt but cannot be read is sent to the dead-letter queue with the reason, and
  -- then deleted, whatever its attempt count. There is no other call.
  pub malformed_calls :
      (wakes : List ℕ)
      → env s.trace (invalid_call codec m s e).0 ≡ done
      → env (invalid_call codec m s e ∷ s.trace) (delete_message i p) ≡ done
      → (process_queue_message env codec w m wakes s).1.trace
        ≡ (delete_message i p, done) ∷ invalid_call codec m s e ∷ s.trace
  unfolding process_queue_message handle_message release untrack handle_failed_no_retry
      should_dead_letter dead_letter send_to_dead_letter_queue cleanup_after_failure delete_original
      delete_queue_message with_receipt target perform ◌>>=◌ catch_exception
  malformed_calls wakes h k = ground arith
