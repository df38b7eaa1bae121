-- ===== src/Pipeline/Handler.antt =====
-- The state and the calls of a step's handler, `HandlerBase` of queue_handler_base.py, with the
-- queues of pipeline_queue_helper.py and the document of entities/pipeline_data.py.
pub mod Process
pub mod Calls
pub mod Failure
pub mod Safety
pub mod Poison
use Prim.Native.String.{◌++◌ as string_append}
use claimsintelligence.Base.{
  ℕ, String, Bool, true, false, Option, none, some, List, [], ◌∷◌, ◌++◌, if◌then◌else◌, ◌==◌,
  string_key, select,
}
use claimsintelligence.Exec.{
  Exec, Exn, exn, value_error, other, Outcome, returned, raised, pure, raise, gets, modify, catch,
  catch_exception, is_not_found, ◌>>=◌, ◌>>◌,
}
use claimsintelligence.Pipeline.Status.{Status, StepResult, update_step, get_next_step_name}

pub data ArtifactType : Type 0 where
  undefined converted_content extracted_content schema_mapped_data score_merged_data source_content
        saved_content :
      ArtifactType

-- `FileDetails`, without the random id and the MIME type, which is computed from the name.
pub record File : Type 0 where
  pub name : String
  pub artifact_type : ArtifactType
  pub processed_by : Option String
  pub log_sources : List String

pub record DataPipeline : Type 0 where
  pub process_id : String
  pub pipeline_status : Status
  pub files : List File

pub record Message : Type 0 where
  pub id : String
  pub content : String
  pub dequeue_count : ℕ

pub record Config : Type 0 where
  pub app_message_queue_interval : ℕ
  pub app_message_queue_process_timeout : ℕ
  pub app_message_queue_visibility_timeout : ℕ

-- What is written of an entry to the database, and by whom.
pub data Call : Type 0 where
  get_queue_properties : String → Call
  create_queue : String → Call
  peek_messages : Call
  receive_messages : ℕ → Call
  sleep : ℕ → Call
  execute : DataPipeline → Call
  update_process_status : Option String → String → String → Call
  update_status : String → String → StepResult → Call
  upload_result : StepResult → Call
  upload_pipeline : DataPipeline → Call
  upload_status : Status → Call
  upload_step_outputs : File → StepResult → Call
  send_pipeline : String → DataPipeline → Call
  send_content : String → String → Call
  delete_message : String → Call
  update_message : String → ℕ → Call

-- `executed` has what the step returned or raised, and the document as the step left it.
pub data Reply : Type 0 where
  done : Reply
  available : Bool → Reply
  messages : List Message → Reply
  executed : Outcome StepResult → DataPipeline → Reply
  fail : Exn → Reply

abbrev pub Event : Type 0
Event = Call × Reply

abbrev pub Env : Type 0
Env = List Event → Call → Reply

-- `current` is `_current_message_context`; the newest call is the first of `trace`.
pub record Handler : Type 0 where
  pub handler_name : String
  pub config : Config
  pub current : Option DataPipeline
  pub trace : List Event

abbrev pub answer : Reply → Outcome Reply
answer (fail e) = raised e
answer r = returned r

unfoldable pub perform : Env → Call → Exec Handler Reply
perform env c h = let r = env h.trace c in (answer r, record h { trace = (c, r) ∷ h.trace })

-- A value, or an exception, without a call.
unfoldable pub lift : {A : Type 0} → Outcome A → Exec Handler A
lift r h = (r, h)

-- f"content-pipeline-{step_name}-queue", and the dead-letter queue's name
unfoldable pub create_queue_client_name : String → String
create_queue_client_name step = string_append "content-pipeline-" (string_append step "-queue")

unfoldable pub create_dead_letter_queue_client_name : String → String
create_dead_letter_queue_client_name step =
    string_append (create_queue_client_name step) "-dead-letter-queue"

-- data_pipeline.files[0]
abbrev pub first_file : DataPipeline → Outcome File
first_file p = elim p.files [
  | [] ↦ raised (exn other "list index out of range")
  | f ∷ fs ↦ returned f
]

unfoldable pub add_file : String → ArtifactType → DataPipeline → DataPipeline
add_file name artifact p =
    let file : File = record {
      name = name;
      artifact_type = artifact;
      processed_by = p.pipeline_status.active_step;
      log_sources = [];
    } in
    record p { files = p.files ++ file ∷ [] }

-- A log entry for the file that was added last.
abbrev pub log_last : String → List File → List File
log_last source [] = []
log_last source (f ∷ []) = record f { log_sources = f.log_sources ++ source ∷ [] } ∷ []
log_last source (f ∷ g ∷ fs) = f ∷ log_last source (g ∷ fs)

abbrev is_source : File → Bool
is_source f = elim f.artifact_type [ source_content ↦ true | _ ↦ false ]

unfoldable pub get_source_files : DataPipeline → List File
get_source_files p = select is_source p.files

module _ (env : Env) where
  unfoldable pub invalidate_queue : String → Exec Handler (Unit {0})
  invalidate_queue queue =
      catch (do perform env (get_queue_properties queue); pure tt)
        λ e. if is_not_found e then (do perform env (create_queue queue); pure tt) else raise e

  -- `StepResult.save_to_persistent_storage`
  unfoldable pub save_result : StepResult → Exec Handler (Unit {0})
  save_result r = elim r.process_id [
    | none ↦ raise (exn value_error "Process ID is required to save the result.")
    | some i ↦ do perform env (upload_result r); pure tt
  ]

  abbrev pub send_on : DataPipeline → Option String → Exec Handler (Unit {0})
  send_on p none = pure tt
  send_on p (some step) = do
    invalidate_queue (create_queue_client_name step)
    perform env (send_pipeline (create_queue_client_name step) p)
    pure tt

  unfoldable pub pass_data_pipeline_to_next_step : DataPipeline → Exec Handler (Unit {0})
  pass_data_pipeline_to_next_step p = do
    next ← lift (get_next_step_name p.pipeline_status)
    send_on p next

  unfoldable pub delete_queue_message : Message → Exec Handler (Unit {0})
  delete_queue_message m = do perform env (delete_message m.id); pure tt

  unfoldable pub move_to_dead_letter_queue : Message → String → Exec Handler (Unit {0})
  move_to_dead_letter_queue m queue = do
    perform env (send_content queue m.content)
    delete_queue_message m
