-- ===== src/Pipeline/Handler/Safety.antt =====
-- A message leaves a step's queue only when the document has gone on: `_connect_async` of
-- queue_handler_base.py, for every behaviour of the storage account, the database and the step.
pub mod Handover
pub mod Handling
use Prim.Native.String.{◌++◌ as string_append}
use claimsintelligence.Base.{
  ◌⊎◌, inl, inr, String, ◌≡◌, refl, Bool, true, false, ◌&&◌, ◌||◌, Option, none, some, List, [],
  ◌∷◌, arith, ◌==◌, string_key, eq_iff, ltb,
}
use claimsintelligence.Exec.{
  Exec, Exn, exn, value_error, Outcome, returned, raised, pure, raise, modify, catch_exception,
  ◌>>=◌, ◌>>◌,
}
use claimsintelligence.Exec.Keeps.{
  Keeps, Ensures, keeps_rules, Keeps-pure, Keeps-raise, Keeps-gets, Keeps-if, Keeps-bind,
  Keeps-bind-Ensures, Keeps-modify, Keeps-catch_exception, bind-meets, bind-Ensures,
}
use claimsintelligence.Pipeline.Status.{
  arrive, add_step_result, StepResult, get_next_step_name, update_step,
}
use claimsintelligence.Pipeline.Handler.{
  execute, DataPipeline, Message, Call, upload_pipeline, send_pipeline, send_content,
  delete_message, upload_result, upload_status, Reply, fail, executed, answer, Event, Env, Handler,
  perform, lift, send_on, create_queue_client_name, invalidate_queue, save_result,
  pass_data_pipeline_to_next_step, delete_queue_message, move_to_dead_letter_queue,
}
use claimsintelligence.Pipeline.Handler.Process.{
  Codec, decode_content, get_object, document, on_current, on_status, take_result, save_pipeline,
  save_status, process_message, write_error, bury, put_back, save_step_outputs, on_error,
  handle_message,
}

-- What is handled: the step that the handler is for, the message, with its content decoded, and the
-- document that the content is read as.
pub record Job : Type 0 where
  pub name : String
  pub message : Message
  pub document : Outcome DataPipeline

abbrev pub succeeded : Reply → Bool
succeeded (fail e) = false
succeeded _ = true

abbrev pub queue_of : String → String
queue_of step = string_append "content-pipeline-" (string_append step "-queue")

-- The document of the message was given to the step as `x`.
abbrev pub IsBegun : Job → DataPipeline → Type 0
IsBegun job x =
    (p : DataPipeline) × (job.document ≡ returned p) × (x ≡ on_status (arrive job.name) p)

-- The step has had the document of the message, and returned `r` with the document as `q`.
abbrev pub IsRun : Job → StepResult → DataPipeline → Event → Type 0
IsRun job r q (execute x, executed o q') = IsBegun job x × (o ≡ returned r) × (q' ≡ q)
IsRun job r q _ = ⊥

abbrev pub HasRun : Job → StepResult → DataPipeline → List Event → Type 0
HasRun job r q [] = ⊥
HasRun job r q (e ∷ t) = IsRun job r q e ⊎ HasRun job r q t

-- The document is the one that the step has left, with the step's result, and moved on.
abbrev pub IsProcessed : Job → DataPipeline → List Event → Type 0
IsProcessed job p t =
    (r : StepResult) × (q : DataPipeline) × HasRun job r q t
    × (p ≡ on_status update_step (on_status (add_step_result r) q))

-- The document, as the step has left it, was sent to the queue of its next step, or saved when no step
-- was left; or the content was sent to the dead-letter queue of the step.
abbrev pub HasGoneOn : Job → Event → List Event → Type 0
HasGoneOn job (send_pipeline queue p, y) t =
    (succeeded y ≡ true)
    × IsProcessed job p t
    × ((step : String) × (get_next_step_name p.pipeline_status ≡ returned (some step))
        × (queue ≡ queue_of step))
HasGoneOn job (upload_pipeline p, y) t =
    (succeeded y ≡ true)
    × IsProcessed job p t
    × (get_next_step_name p.pipeline_status ≡ returned none)
HasGoneOn job (send_content queue content, y) t =
    (succeeded y ≡ true)
    × (content ≡ job.message.content)
    × (queue ≡ string_append (queue_of job.name) "-dead-letter-queue")
HasGoneOn job _ t = ⊥

abbrev pub IsHandled : Job → List Event → Type 0
IsHandled job [] = ⊥
IsHandled job (e ∷ t) = HasGoneOn job e t ⊎ IsHandled job t

-- Every deletion in the log is of this message, and came after it had gone on.
abbrev pub DeletesAreJustified : Job → List Event → Type 0
DeletesAreJustified job [] = Unit
DeletesAreJustified job ((delete_message i, r) ∷ t) =
    (i ≡ job.message.id) × IsHandled job t × DeletesAreJustified job t
DeletesAreJustified job (_ ∷ t) = DeletesAreJustified job t

abbrev pub is_delete : Call → Bool
is_delete (delete_message i) = true
is_delete _ = false

pub lift-Keeps : {P : Handler → Type 0} {A : Type 0} (o : Outcome A) → Keeps P (lift o)
unfolding lift
lift-Keeps o = record { after = λ h s. s }

pub document-Keeps : {P : Handler → Type 0} → Keeps P document
unfolding document
document-Keeps = record { after = λ h s. s }

pub save_result-Keeps :
    {P : Handler → Type 0} (env : Env) (r : StepResult)
    → (String → Keeps P (perform env (upload_result r)))
    → Keeps P (save_result env r)
unfolding save_result
save_result-Keeps {P} env r kept = go r.process_id
  where
    go :
        (o : Option String)
        → Keeps {A = Unit {0}} P (elim o [
          | none ↦ raise (exn value_error "Process ID is required to save the result.")
          | some i ↦ do perform env (upload_result r); pure tt
        ])
    go none = Keeps-raise _
    go (some i) = Keeps-bind _ _ (kept i) λ _. Keeps-pure tt

module _ (job : Job) where
  pub record Safe (h : Handler) : Type 0 where
    pub named : h.handler_name ≡ job.name
    pub justified : DeletesAreJustified job h.trace

  pub record Handled (h : Handler) : Type 0 where
    pub safe : Safe h
    pub handled : IsHandled job h.trace

  log-Safe :
      (c : Call) (r : Reply) (t : List Event)
      → is_delete c ≡ false
      → DeletesAreJustified job t
      → DeletesAreJustified job ((c, r) ∷ t)
  log-Safe (delete_message i) r t d j = cc
  log-Safe _ r t d j = j

  pub on_current-Safe :
      (f : DataPipeline → DataPipeline) (h : Handler) → Safe h → Safe (on_current f h)
  on_current-Safe f h s = record { named = s.named; justified = s.justified }

  module _ (env : Env) where
    pub perform-Safe : (c : Call) → is_delete c ≡ false → Keeps Safe (perform env c)
    unfolding perform
    perform-Safe c d = record {
      after = λ h s. record {
        named = s.named;
        justified = log-Safe c (env h.trace c) h.trace d s.justified;
      };
    }

    pub perform-Handled : (c : Call) → is_delete c ≡ false → Keeps Handled (perform env c)
    unfolding perform
    perform-Handled c d = record {
      after = λ h s. record { safe = (perform-Safe c d).after h s.safe; handled = inr s.handled };
    }

    perform_delete-Handled : Keeps Handled (perform env (delete_message job.message.id))
    unfolding perform
    perform_delete-Handled = record {
      after = λ h s. record {
        safe = record { named = s.safe.named; justified = (refl, s.handled, s.safe.justified) };
        handled = inr s.handled;
      };
    }

    pub delete-Handled : Keeps Handled (delete_queue_message env job.message)
    unfolding delete_queue_message
    delete-Handled = Keeps-bind _ _ perform_delete-Handled λ _. Keeps-pure tt

    -- What holds after a reply: where it is no failure, `Q`.
    abbrev pub Meets : {A : Type 0} → (A → Handler → Type 0) → Outcome A × Handler → Type 0
    Meets Q (o, h) = Ensures Q Safe o h

    pub save_result-Safe : (r : StepResult) → Keeps Safe (save_result env r)
    save_result-Safe r = save_result-Keeps env r λ i. perform-Safe _ refl
