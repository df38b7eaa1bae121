-- ===== src/ClaimWorkflow/Run.antt =====
-- `ClaimProcessor.run` of steps/claim_processor.py: the events of a workflow's run, the status of the
-- claim, and the outcome.
use Prim.Native.String.{◌++◌ as string_append}
use claimsintelligence.Base.{
  String, Option, none, some, List, [], ◌∷◌, if◌then◌else◌, ◌==◌, string_key, is_empty,
}
use claimsintelligence.Exec.{
  Exec, Exn, exn, executor_failed, other, pure, raise, finally_do, ◌>>=◌, ◌>>◌,
}
use claimsintelligence.ClaimWorkflow.Repository.{
  ClaimSteps, document_processing, summarizing, gap_analysis, rai_analysis, failed, completed,
  ClaimProcess, RepositoryBase, update_claim_process_status, update_claim_process_comment,
}

-- `details` of a failure, as far as it is read.
pub record Details : Type 0 where
  pub executor_id : Option String
  pub message : String

-- The framework's events; `unrelated` is every other.
pub data Event : Type 0 where
  started : Event
  output : String → Event
  executor_failure : String → Event
  workflow_failure : Details → Event
  invoked : String → Event
  unrelated : Event

-- a or b, for texts
abbrev pub or_else : Option String → Option String → Option String
or_else none b = b
or_else (some s) b = if is_empty s then b else some s

abbrev pub or_unknown : Option String → String
or_unknown none = "<unknown>"
or_unknown (some s) = if is_empty s then "<unknown>" else s

abbrev pub failure_comment : Details → Option String → Option String → String
failure_comment d last_failed last_invoked = string_append "Workflow failed at executor " (
    string_append (or_unknown (or_else d.executor_id (or_else last_failed last_invoked)))
      (string_append ": " d.message))

abbrev pub step_of : String → Option ClaimSteps
step_of executor_id =
    if executor_id == "document_processing"
    then some document_processing
    else if executor_id == "summarizing"
    then some summarizing
    else if executor_id == "gap_analysis"
    then some gap_analysis
    else if executor_id == "rai_analysis"
    then some rai_analysis
    else none

abbrev pub output_missing : Option String → Exn
output_missing source = exn other (
    string_append "Workflow output is None (source_executor_id="
      (string_append (or_unknown source) ")"))

-- How the stream ends when its events are used up: by itself, or by an exception.
abbrev pub stream_end : Option String → Option Exn → Exn
stream_end last_invoked none = output_missing last_invoked
stream_end last_invoked (some e) = e

module _ {S : Type 0} (base : RepositoryBase S) (input_data : String) where
  abbrev pub set_step : Option ClaimSteps → Exec S (Unit {0})
  set_step none = pure tt
  set_step (some step) = do update_claim_process_status base input_data step; pure tt

  -- The text of the exception for a failed workflow, which the source formats from all of the
  -- details, is their message here.
  unfoldable pub handle_events :
      Option String → Option String → List Event → Option Exn → Exec S String
  handle_events last_failed last_invoked [] ending = raise (stream_end last_invoked ending)
  handle_events last_failed last_invoked (output result ∷ events) ending = do
    update_claim_process_status base input_data completed
    pure result
  handle_events last_failed last_invoked (executor_failure i ∷ events) ending =
      handle_events (some i) last_invoked events ending
  handle_events last_failed last_invoked (workflow_failure d ∷ events) ending = do
    update_claim_process_status base input_data failed
    update_claim_process_comment base input_data (failure_comment d last_failed last_invoked)
    raise (exn executor_failed d.message)
  handle_events last_failed last_invoked (invoked i ∷ events) ending = do
    set_step (step_of i)
    handle_events last_failed (some i) events ending
  handle_events last_failed last_invoked (started ∷ events) ending =
      handle_events last_failed last_invoked events ending
  handle_events last_failed last_invoked (unrelated ∷ events) ending =
      handle_events last_failed last_invoked events ending

  abbrev pub timed : String → Option ClaimProcess → Exec S (Unit {0})
  timed elapsed none = pure tt
  timed elapsed (some c) = base.update_async (record c { processed_time = elapsed })

  unfoldable pub write_time : String → Exec S (Unit {0})
  write_time elapsed = do found ← base.get_async input_data; timed elapsed found

  -- `elapsed` is the formatted time of the run.
  unfoldable pub run : List Event → Option Exn → String → Exec S String
  run events ending elapsed =
      finally_do (handle_events none none events ending) (write_time elapsed)
