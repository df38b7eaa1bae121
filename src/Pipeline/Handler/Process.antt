-- ===== src/Pipeline/Handler/Process.antt =====
-- One message of a step's queue, and the loop over them: `_connect_async` of queue_handler_base.py.
use claimsintelligence.Base.{
  ℕ, zero, suc, ltb, String, Bool, false, Option, none, some, List, [], ◌∷◌, if◌then◌else◌, ◌==◌,
  string_key,
}
use claimsintelligence.Exec.{
  Exec, Exn, exn, value_error, other, Outcome, returned, raised, pure, raise, gets, modify,
  catch_exception, ◌>>=◌, ◌>>◌,
}
use claimsintelligence.Pipeline.Status.{
  Status, StepResult, Payload, error, moved_to_dead_letter_queue, arrive, update_step,
  add_step_result,
}
use claimsintelligence.Pipeline.Handler.{
  ArtifactType, undefined, extracted_content, schema_mapped_data, score_merged_data, DataPipeline,
  Message, get_queue_properties, peek_messages, receive_messages, sleep, execute,
  update_process_status, update_status, upload_pipeline, upload_status, upload_step_outputs,
  update_message, Reply, available, messages, executed, Env, Handler, perform, lift,
  create_queue_client_name, create_dead_letter_queue_client_name, first_file, add_file, log_last,
  invalidate_queue, save_result, pass_data_pipeline_to_next_step, delete_queue_message,
  move_to_dead_letter_queue,
}

-- The decoders: strict base64 of a text and back, UTF-8, and the JSON of a document, which gives
-- nothing where `json.loads` or the model refuse it.
pub record Codec : Type 0 where
  pub b64decode : String → Option (List ℕ)
  pub b64encode : List ℕ → String
  pub utf8_decode : List ℕ → Option String
  pub loads : String → Option DataPipeline

unfoldable pub is_base64_encoded : Codec → String → Bool
is_base64_encoded codec text = elim (codec.b64decode text) [
  | none ↦ false
  | some bs ↦ codec.b64encode bs == text
]

abbrev pub decoded : Option String → Outcome String
decoded none = raised (exn value_error "invalid utf-8")
decoded (some s) = returned s

unfoldable pub decode_content : Codec → String → Outcome String
decode_content codec content =
    if is_base64_encoded codec content
    then elim (codec.b64decode content) [
      | none ↦ raised (exn value_error "not base64")
      | some bs ↦ decoded (codec.utf8_decode bs)
    ]
    else returned content

unfoldable pub get_object : Codec → String → Outcome DataPipeline
get_object codec json = elim (codec.loads json) [
  | none ↦ raised (exn value_error "Failed to parse the json string to PipelineStatus object.")
  | some p ↦ returned p
]

-- `_current_message_context.data_pipeline`
unfoldable pub document : Exec Handler DataPipeline
document h =
    (elim h.current [ none ↦ raised (exn other "no message context") | some p ↦ returned p ], h)

abbrev pub on_status : (Status → Status) → DataPipeline → DataPipeline
on_status f p = record p { pipeline_status = f p.pipeline_status }

abbrev pub on_current : (DataPipeline → DataPipeline) → Handler → Handler
on_current f h = record h { current = elim h.current [ none ↦ none | some p ↦ some (f p) ] }

abbrev pub take_result : Reply → Exec Handler StepResult
take_result (executed r p) h = (r, record h { current = some p })
take_result _ h = (raised (exn other "no result"), h)

abbrev pub artifact_type_of : String → ArtifactType
artifact_type_of step =
    if step == "extract"
    then extracted_content
    else if step == "map"
    then schema_mapped_data
    else if step == "evaluate"
    then score_merged_data
    else undefined

-- `StepResult` refuses to be made without a process id.
abbrev pub make_result : Option String → String → Payload → Outcome StepResult
make_result none step payload = raised (exn value_error "process_id")
make_result (some i) step payload =
    returned (record { process_id = some i; step_name = step; result = payload })

abbrev pub active_name : Option String → Outcome String
active_name none = raised (exn value_error "step_name")
active_name (some step) = returned step

abbrev pub final_status : String → Bool → String
final_status step completed = if completed then "Completed" else step

module _ (env : Env) where
  unfoldable pub save_pipeline : Exec Handler (Unit {0})
  save_pipeline = do
    modify (on_current (on_status update_step))
    p ← document
    perform env (upload_pipeline p)
    pure tt

  unfoldable pub save_status : Exec Handler (Unit {0})
  save_status = do
    p ← document
    elim p.pipeline_status.process_id [
      | none ↦ raise (exn value_error "Process ID is required to save the result.")
      | some i ↦ do
        modify (on_current (on_status update_step))
        p' ← document
        perform env (upload_status p'.pipeline_status)
        pure tt
    ]

  -- The `try` block.
  unfoldable pub process_message : Message → DataPipeline → Exec Handler (Unit {0})
  process_message m data_pipeline = do
    step ← gets (λ (h : Handler). h.handler_name)
    modify (λ (h : Handler). record h { current = some (on_status (arrive step) data_pipeline) })
    file ← lift (first_file data_pipeline)
    perform env (update_process_status data_pipeline.pipeline_status.process_id file.name step)
    p ← document
    reply ← perform env (execute p)
    result ← take_result reply
    save_result env result
    modify (on_current (on_status (add_step_result result)))
    save_pipeline
    p' ← document
    pass_data_pipeline_to_next_step env p'
    delete_queue_message env m
    file' ← lift (first_file p')
    perform env (
        update_process_status p'.pipeline_status.process_id file'.name
          (final_status step p'.pipeline_status.completed))
    pure tt

  -- `update_status_to_cosmos` with the status "Error"
  unfoldable pub write_error : StepResult → Exec Handler (Unit {0})
  write_error r = do
    p ← document
    file ← lift (first_file p)
    perform env (update_status p.process_id file.name r)
    pure tt

  unfoldable pub bury : Message → String → StepResult → Exec Handler StepResult
  bury m details exception_result = do
    step ← gets (λ (h : Handler). h.handler_name)
    p ← document
    dead ← lift (make_result p.pipeline_status.process_id step (moved_to_dead_letter_queue details))
    modify (on_current (on_status (add_step_result exception_result)))
    save_result env dead
    modify (on_current (on_status (add_step_result dead)))
    save_status
    move_to_dead_letter_queue env m (create_dead_letter_queue_client_name step)
    write_error dead
    pure dead

  unfoldable pub put_back : Message → StepResult → Exec Handler StepResult
  put_back m exception_result = do
    config ← gets (λ (h : Handler). h.config)
    perform env (update_message m.id config.app_message_queue_visibility_timeout)
    pure exception_result

  -- The file with the outputs, which is added to the document and logged in it. `Step_Outputs`
  -- refuses to be made without the name of a step.
  unfoldable pub save_step_outputs : StepResult → Exec Handler (Unit {0})
  save_step_outputs r = do
    step ← gets (λ (h : Handler). h.handler_name)
    p ← document
    active ← lift (active_name p.pipeline_status.active_step)
    let artifact = artifact_type_of active
    modify (on_current (add_file "step_outputs.json" artifact))
    modify (on_current (λ p. record p { files = log_last step p.files }))
    perform env (
        upload_step_outputs
          (record {
            name = "step_outputs.json";
            artifact_type = artifact;
            processed_by = some active;
            log_sources = step ∷ [];
          })
          r)
    pure tt

  -- The `except Exception` block.
  unfoldable pub on_error : Message → Exn → Exec Handler (Unit {0})
  on_error m e = do
    step ← gets (λ (h : Handler). h.handler_name)
    p ← document
    failed ← lift (make_result p.pipeline_status.process_id step (error e.message))
    modify (on_current (on_status (add_step_result failed)))
    save_result env failed
    save_status
    write_error failed
    r ← if ltb 5 m.dequeue_count then bury m e.message failed else put_back m failed
    save_step_outputs r

  -- The content is read before the `try` block. `get_object` returns a document or raises, so the
  -- branch for no document is not taken.
  unfoldable pub handle_message : Codec → Message → Exec Handler (Unit {0})
  handle_message codec m = do
    content ← lift (decode_content codec m.content)
    data_pipeline ← lift (get_object codec content)
    let m' : Message = record m { content = content }
    catch_exception (process_message m' data_pipeline) (on_error m')

  unfoldable pub handle_messages : Codec → List Message → Exec Handler (Unit {0})
  handle_messages codec [] = pure tt
  handle_messages codec (m ∷ ms) =
      let rest = handle_messages codec ms in do handle_message codec m; rest

  abbrev pub has_messages : Reply → Bool
  has_messages (available b) = b
  has_messages _ = false

  abbrev pub handle_received : Codec → Reply → Exec Handler (Unit {0})
  handle_received codec (messages ms) = handle_messages codec ms
  handle_received codec _ = pure tt

  -- One round of the loop.
  unfoldable pub check_queue : Codec → Exec Handler (Unit {0})
  check_queue codec = do
    h ← gets (λ (h : Handler). h)
    invalidate_queue env (create_queue_client_name h.handler_name)
    invalidate_queue env (create_dead_letter_queue_client_name h.handler_name)
    peeked ← perform env peek_messages
    if has_messages peeked
        then (do
          r ← perform env (receive_messages h.config.app_message_queue_process_timeout)
          handle_received codec r)
        else (do perform env (sleep h.config.app_message_queue_interval); pure tt)

  -- `while True`, for so many rounds: it ends before only by an exception.
  unfoldable pub check_queues : Codec → ℕ → Exec Handler (Unit {0})
  check_queues codec zero = pure tt
  check_queues codec (suc n) = let rest = check_queues codec n in do check_queue codec; rest

  unfoldable pub initialize_handler : String → Exec Handler (Unit {0})
  initialize_handler step = do
    modify (λ (h : Handler). record h { handler_name = step })
    invalidate_queue env (create_queue_client_name step)
    invalidate_queue env (create_dead_letter_queue_client_name step)
    perform env (get_queue_properties (create_queue_client_name step))
    pure tt

  unfoldable pub connect_async : Codec → String → ℕ → Exec Handler (Unit {0})
  connect_async codec step rounds = do initialize_handler step; check_queues codec rounds
