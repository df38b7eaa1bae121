-- ===== src/Pipeline/Handler/Poison.antt =====
-- A message that is no document: `_connect_async` of queue_handler_base.py, which reads the content
-- outside its `try` block.
use claimsintelligence.Base.{ℕ, suc, String, ◌≡◌, refl, true, [], ◌∷◌, string_key}
use claimsintelligence.Exec.{Exn, returned, raised, ◌>>=◌}
use claimsintelligence.Pipeline.Handler.{
  Message, get_queue_properties, peek_messages, receive_messages, done, available, messages, Env,
  Handler, perform, lift, create_queue_client_name, create_dead_letter_queue_client_name,
  invalidate_queue,
}
use claimsintelligence.Pipeline.Handler.Process.{
  Codec, decode_content, get_object, handle_message, handle_messages, check_queue, check_queues,
  initialize_handler, connect_async,
}

-- The message is the one in the queue, and comes back however often it is received.
abbrev pub holds : Message → Env
holds m t peek_messages = available true
holds m t (receive_messages n) = messages (m ∷ [])
holds m t _ = done

-- Where the only message of the queue has a content that is not the JSON of a document, the handler
-- ends by the exception in its first round, whatever the number of rounds and of times the message
-- was received. It has looked at its queues and received the message, which it has neither deleted
-- nor put to the dead-letter queue.
pub connect_async-poison :
    (codec : Codec) (m : Message) (step content : String) (n : ℕ) (h : Handler) (e : Exn)
    → decode_content codec m.content ≡ returned content
    → get_object codec content ≡ raised e
    → let queue = create_queue_client_name step in
      let dead_letters = create_dead_letter_queue_client_name step in
      connect_async (holds m) codec step (suc n) h ≡ (
        raised e,
        record h {
          handler_name = step;
          trace =
              (receive_messages h.config.app_message_queue_process_timeout, messages (m ∷ []))
              ∷ (peek_messages, available true)
              ∷ (get_queue_properties dead_letters, done)
              ∷ (get_queue_properties queue, done)
              ∷ (get_queue_properties queue, done)
              ∷ (get_queue_properties dead_letters, done)
              ∷ (get_queue_properties queue, done)
              ∷ h.trace;
        },
      )
unfolding connect_async initialize_handler check_queues check_queue invalidate_queue handle_messages
    handle_message perform lift ◌>>=◌
connect_async-poison codec m step content n h e decoded read = rw (decoded, read) refl
