-- ===== src/Pipeline/Handler/Calls.antt =====
-- A step that ends well, call by call: the `try` block of `_connect_async`, queue_handler_base.py.
use claimsintelligence.Base.{String, ◌≡◌, refl, Option, none, some, List, ◌∷◌}
use claimsintelligence.Exec.{Outcome, returned, ◌>>=◌}
use claimsintelligence.Pipeline.Status.{
  Status, StepResult, arrive, update_step, add_step_result, get_next_step_name,
}
use claimsintelligence.Pipeline.Handler.{
  File, DataPipeline, Message, get_queue_properties, execute, update_process_status, upload_result,
  upload_pipeline, send_pipeline, delete_message, done, executed, Event, Env, Handler, perform,
  lift, create_queue_client_name, invalidate_queue, save_result, pass_data_pipeline_to_next_step,
  delete_queue_message,
}
use claimsintelligence.Pipeline.Handler.Process.{
  document, on_status, final_status, save_pipeline, process_message,
}

-- The storage account and the database do what they are asked, and the step is a function of the
-- document.
abbrev pub working : (DataPipeline → Outcome StepResult × DataPipeline) → Env
working run t (execute p) = let (r, q) = run p in executed r q
working run t _ = done

-- The calls that hand the document on, before those in `t`.
abbrev pub sends : Option String → DataPipeline → List Event → List Event
sends none p t = t
sends (some step) p t =
    (send_pipeline (create_queue_client_name step) p, done)
    ∷ (get_queue_properties (create_queue_client_name step), done)
    ∷ t

-- The document when its step has ended.
abbrev pub ended : StepResult → DataPipeline → DataPipeline
ended r q = on_status update_step (on_status (add_step_result r) q)

abbrev pub status_call : DataPipeline → File → String → Event
status_call p f status = (update_process_status p.pipeline_status.process_id f.name status, done)

-- A document with at least one file.
abbrev pub filed : String → Status → File → List File → DataPipeline
filed i s f fs = record { process_id = i; pipeline_status = s; files = f ∷ fs }

abbrev pub identified : String → StepResult → StepResult
identified i r = record r { process_id = some i }

-- Where the calls are answered, the document has a file before and after the step, and the step
-- returns a result with a process id and leaves a next step or none: the status names the step while
-- it runs; then the result is saved, and the document with the result and with this step among the
-- completed ones; the document as saved is sent to the next step's queue, if there is one; only then
-- is the message deleted; and the status says whether the document is completed.
pub completed_calls :
    (run : DataPipeline → Outcome StepResult × DataPipeline) (m : Message) (h : Handler)
    (i j k : String) (s t : Status) (f g : File) (fs gs : List File) (r : StepResult)
    (next : Option String)
    → let p = filed i (arrive h.handler_name s) f fs in
      let q = filed j t g gs in
      let r' = identified k r in
      run p ≡ (returned r', q)
      → get_next_step_name (ended r' q).pipeline_status ≡ returned next
      → (process_message (working run) m (filed i s f fs) h).1.trace
        ≡ status_call
            (ended r' q)
            g
            (final_status h.handler_name (ended r' q).pipeline_status.completed)
          ∷ (delete_message m.id, done)
          ∷ sends next (ended r' q) (
              (upload_pipeline (ended r' q), done)
              ∷ (upload_result r', done)
              ∷ (execute p, executed (returned r') q)
              ∷ status_call p f h.handler_name
              ∷ h.trace)
unfolding process_message perform lift document save_result save_pipeline
    pass_data_pipeline_to_next_step invalidate_queue delete_queue_message ◌>>=◌
completed_calls run m h i j k s t f g fs gs r none ran onward = rw (ran, onward) refl
completed_calls run m h i j k s t f g fs gs r (some step) ran onward = rw (ran, onward) refl
