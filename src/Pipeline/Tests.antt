-- ===== src/Pipeline/Tests.antt =====
-- A document in a pipeline of three steps, and the theorems on the pipeline applied to it.
use claimsintelligence.Base.{
  ℕ, String, ◌≡◌, refl, true, false, none, some, [], ◌∷◌, arith, if◌then◌else◌, ◌==◌, string_key,
  member,
}
use claimsintelligence.Exec.{exn, other, value_error, Outcome, returned, raised}
use claimsintelligence.Pipeline.Status.{Status, StepResult, output}
use claimsintelligence.Pipeline.Status.Journey.{follow, IsThrough, follow-all}
use claimsintelligence.Pipeline.Handler.{
  DataPipeline, File, source_content, Message, get_queue_properties, peek_messages,
  receive_messages, done, available, messages, Handler, create_queue_client_name,
  create_dead_letter_queue_client_name,
}
use claimsintelligence.Pipeline.Handler.Process.{
  Codec, is_base64_encoded, decode_content, get_object, handle_message, connect_async,
}
use claimsintelligence.Pipeline.Handler.Calls.{working, filed}
use claimsintelligence.Pipeline.Handler.Failure.{Stays}
use claimsintelligence.Pipeline.Handler.Failure.Kept.{handle_message-Stays}
use claimsintelligence.Pipeline.Handler.Poison.{holds, connect_async-poison}
use claimsintelligence.Pipeline.Handler.Safety.{DeletesAreJustified}
use claimsintelligence.Pipeline.Handler.Safety.Handling.{handle_message-justified}

abbrev fresh : Status
fresh = record {
  completed = false;
  process_id = some "p1";
  active_step = none;
  steps = "extract" ∷ "map" ∷ "save" ∷ [];
  remaining_steps = "extract" ∷ "map" ∷ "save" ∷ [];
  completed_steps = [];
  process_results = [];
}

abbrev scan : File
scan = record {
  name = "claim.pdf";
  artifact_type = source_content;
  processed_by = none;
  log_sources = [];
}

abbrev extractor : Handler
extractor = record {
  handler_name = "extract";
  config = record {
    app_message_queue_interval = 5;
    app_message_queue_process_timeout = 180;
    app_message_queue_visibility_timeout = 10;
  };
  current = none;
  trace = [];
}

abbrev extracted : StepResult
extracted = record { process_id = some "p1"; step_name = "extract"; result = output "text" }

-- The step leaves the document as it is.
abbrev extract : DataPipeline → Outcome StepResult × DataPipeline
extract p = (returned extracted, p)

abbrev broken : DataPipeline → Outcome StepResult × DataPipeline
broken p = (raised (exn other "boom"), p)

abbrev codec : Codec
codec = record {
  b64decode = λ s. none;
  b64encode = λ bs. "";
  utf8_decode = λ bs. none;
  loads = λ s. if s == "{}" then some (filed "p1" fresh scan []) else none;
}

abbrev message_of : ℕ → String → Message
message_of n content = record { id = "m1"; content = content; dequeue_count = n }

follow-all_example : IsThrough [] ("extract" ∷ "map" ∷ "save" ∷ []) (follow 3 "extract" fresh)
unfolding member
follow-all_example =
    follow-all "extract" ("map" ∷ "save" ∷ []) fresh refl refl refl
      (refl, refl, (refl, refl, (refl, refl, tt)))

handle_message-Stays_example :
    Stays
      (message_of 5 "{}")
      extractor
      (handle_message (working broken) codec (message_of 5 "{}") extractor)
handle_message-Stays_example =
    handle_message-Stays (working broken) codec (message_of 5 "{}") extractor
      (λ t p. (exn other "boom", p, refl)) (omega arith)

connect_async-poison_example :
    let queue = create_queue_client_name "extract" in
    let dead_letters = create_dead_letter_queue_client_name "extract" in
    connect_async (holds (message_of 9 "hello")) codec "extract" 3 extractor ≡ (
      raised (exn value_error "Failed to parse the json string to PipelineStatus object."),
      record extractor {
        trace =
            (receive_messages 180, messages (message_of 9 "hello" ∷ []))
            ∷ (peek_messages, available true)
            ∷ (get_queue_properties dead_letters, done)
            ∷ (get_queue_properties queue, done)
            ∷ (get_queue_properties queue, done)
            ∷ (get_queue_properties dead_letters, done)
            ∷ (get_queue_properties queue, done)
            ∷ [];
      },
    )
unfolding decode_content is_base64_encoded get_object
connect_async-poison_example =
    connect_async-poison codec (message_of 9 "hello") "extract" "hello" 2 extractor
      (exn value_error "Failed to parse the json string to PipelineStatus object.") refl refl

handle_message-justified_example :
    DeletesAreJustified
      (record { name = "extract"; message = message_of 1 "{}"; document = get_object codec "{}" })
      (handle_message (working extract) codec (message_of 1 "{}") extractor).1.trace
unfolding decode_content is_base64_encoded
handle_message-justified_example =
    handle_message-justified (working extract) codec (message_of 1 "{}") "{}" extractor refl tt
