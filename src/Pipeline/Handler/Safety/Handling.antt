-- ===== src/Pipeline/Handler/Safety/Handling.antt =====
-- The `except` block of `_connect_async`, queue_handler_base.py, and the whole of a message.
use mathlib.Core.Path.{subst}
use claimsintelligence.Base.{inl, sym, String, ◌≡◌, refl, Option, none, some, ◌∷◌, string_key, ltb}
use claimsintelligence.Exec.{
  Exec, Exn, exn, value_error, Outcome, returned, raised, gets, pure, raise, modify,
  catch_exception, ◌>>=◌, ◌>>◌,
}
use claimsintelligence.Exec.Keeps.{
  Keeps, Ensures, Keeps-pure, Keeps-raise, Keeps-gets, Keeps-if, Keeps-bind, Keeps-bind-Ensures,
  Keeps-bind_gets, Keeps-modify, Keeps-catch_exception,
}
use claimsintelligence.Pipeline.Status.{StepResult, update_step}
use claimsintelligence.Pipeline.Handler.{
  DataPipeline, Message, send_content, upload_status, Reply, fail, answer, Env, Handler, perform,
  lift, create_queue_client_name, create_dead_letter_queue_client_name, move_to_dead_letter_queue,
}
use claimsintelligence.Pipeline.Handler.Process.{
  Codec, decode_content, get_object, document, on_current, on_status, save_status, process_message,
  write_error, bury, put_back, save_step_outputs, on_error, handle_message,
}
use claimsintelligence.Pipeline.Handler.Safety.{
  Job, DeletesAreJustified, Safe, Handled, on_current-Safe, perform-Safe, delete-Handled,
  lift-Keeps, document-Keeps, save_result-Safe,
}
use claimsintelligence.Pipeline.Handler.Safety.Handover.{process_message-Safe}

module _ (job : Job) (env : Env) where
  save_status-Safe : Keeps (Safe job) (save_status env)
  unfolding save_status
  save_status-Safe = Keeps-bind _ _ document-Keeps λ p. go p.pipeline_status.process_id
    where
      go :
          (o : Option String)
          → Keeps {A = Unit {0}} (Safe job) (elim o [
            | none ↦ raise (exn value_error "Process ID is required to save the result.")
            | some i ↦ do
              modify (on_current (on_status update_step))
              p' ← document
              perform env (upload_status p'.pipeline_status)
              pure tt
          ])
      go none = Keeps-raise _
      go (some i) = Keeps-bind _ _ (Keeps-modify _ (on_current-Safe job _)) λ _.
          Keeps-bind _ _ document-Keeps
            λ p'. Keeps-bind _ _ (perform-Safe job env _ refl) λ _. Keeps-pure tt

  write_error-Safe : (r : StepResult) → Keeps (Safe job) (write_error env r)
  unfolding write_error
  write_error-Safe r = Keeps-bind _ _ document-Keeps λ p.
      Keeps-bind _ _ (lift-Keeps _)
        λ file. Keeps-bind _ _ (perform-Safe job env _ refl) λ _. Keeps-pure tt

  bury_sent :
      (r : Reply) (h : Handler)
      → Safe job h
      → Ensures
          (λ _. Handled job)
          (Safe job)
          (answer r)
          (record h {
            trace =
                (
                  send_content (create_dead_letter_queue_client_name job.name) job.message.content,
                  r,
                )
                ∷ h.trace;
          })
  unfolding create_dead_letter_queue_client_name create_queue_client_name
  bury_sent (fail e) h s = record { named = s.named; justified = s.justified }
  bury_sent _ h s = record {
    safe = record { named = s.named; justified = s.justified };
    handled = inl (refl, refl, refl);
  }

  move-Safe :
      Keeps
        (Safe job)
        (move_to_dead_letter_queue env job.message (create_dead_letter_queue_client_name job.name))
  unfolding move_to_dead_letter_queue perform
  move-Safe =
      Keeps-bind-Ensures (Safe job) (λ _. Handled job)
        (perform env
          (send_content (create_dead_letter_queue_client_name job.name) job.message.content))
        _
        (λ h s.
          bury_sent
            (env h.trace
              (send_content (create_dead_letter_queue_client_name job.name) job.message.content))
            h s)
        (λ _ h t. ((delete-Handled job env).after h t).safe)

  -- Under the name of the handler, which is that of the step.
  named-Safe :
      {A : Type 0} (next : String → Exec Handler A)
      → Keeps (Safe job) (next job.name)
      → Keeps (Safe job) (gets (λ (h : Handler). h.handler_name) >>= next)
  named-Safe next kept =
      Keeps-bind_gets _ next
        λ h s. subst (λ n. Safe job (next n h).1) (sym s.named) (kept.after h s)

  bury-Safe :
      (details : String) (r : StepResult) → Keeps (Safe job) (bury env job.message details r)
  unfolding bury
  bury-Safe details r = named-Safe _ (
      Keeps-bind _ _ document-Keeps λ p. Keeps-bind _ _ (lift-Keeps _) λ dead.
        Keeps-bind _ _ (Keeps-modify _ (on_current-Safe job _)) λ _.
          Keeps-bind _ _ (save_result-Safe job env dead) λ _.
            Keeps-bind _ _ (Keeps-modify _ (on_current-Safe job _)) λ _.
              Keeps-bind _ _ save_status-Safe λ _.
                Keeps-bind _ _ move-Safe
                  λ _. Keeps-bind _ _ (write_error-Safe dead) λ _. Keeps-pure dead)

  put_back-Safe : (r : StepResult) → Keeps (Safe job) (put_back env job.message r)
  unfolding put_back
  put_back-Safe r =
      Keeps-bind _ _ (Keeps-gets _)
        λ config. Keeps-bind _ _ (perform-Safe job env _ refl) λ _. Keeps-pure r

  save_step_outputs-Safe : (r : StepResult) → Keeps (Safe job) (save_step_outputs env r)
  unfolding save_step_outputs
  save_step_outputs-Safe r = Keeps-bind _ _ (Keeps-gets _) λ step.
      Keeps-bind _ _ document-Keeps λ p. Keeps-bind _ _ (lift-Keeps _) λ active.
        Keeps-bind _ _ (Keeps-modify _ (on_current-Safe job _)) λ _.
          Keeps-bind _ _ (Keeps-modify _ (on_current-Safe job _))
            λ _. Keeps-bind _ _ (perform-Safe job env _ refl) λ _. Keeps-pure tt

  on_error-Safe : (e : Exn) → Keeps (Safe job) (on_error env job.message e)
  unfolding on_error
  on_error-Safe e = Keeps-bind _ _ (Keeps-gets _) λ step. Keeps-bind _ _ document-Keeps λ p.
      Keeps-bind _ _ (lift-Keeps _) λ failed.
        Keeps-bind _ _ (Keeps-modify _ (on_current-Safe job _)) λ _.
          Keeps-bind _ _ (save_result-Safe job env failed) λ _. Keeps-bind _ _ save_status-Safe λ _.
            Keeps-bind _ _ (write_error-Safe failed) λ _.
              Keeps-bind _ _
                (Keeps-if (ltb 5 job.message.dequeue_count) _ _ (bury-Safe _ failed)
                  (put_back-Safe failed))
                save_step_outputs-Safe

-- However the storage account, the database and the step behave, where the content of the message is
-- read as `content`: if every deletion in the log is justified, so is every one after the message was
-- handled. A deletion is justified if it is of this message, and comes after the document of
-- `content`, as the step left it, with its result and moved on, was sent to the queue of its next step, or was
-- saved when no step was left, or after `content` was sent to the dead-letter queue of the step.
pub handle_message-justified :
    (env : Env) (codec : Codec) (m : Message) (content : String) (h : Handler)
    → decode_content codec m.content ≡ returned content
    → let job : Job = record {
      name = h.handler_name;
      message = record m { content = content };
      document = get_object codec content;
    } in
      DeletesAreJustified job h.trace
      → DeletesAreJustified job (handle_message env codec m h).1.trace
unfolding handle_message lift ◌>>=◌
handle_message-justified env codec m content h decoded justified =
    rw decoded (go (get_object codec content) refl)
  where
    m' : Message
    m' = record m { content = content }

    job_of : Outcome DataPipeline → Job
    job_of o = record { name = h.handler_name; message = m'; document = o }

    body : DataPipeline → Exec Handler (Unit {0})
    body p = catch_exception (process_message env m' p) (on_error env m')

    go :
        (o : Outcome DataPipeline)
        → get_object codec content ≡ o
        → DeletesAreJustified (job_of (get_object codec content)) ((lift o >>= body) h).1.trace
    go (raised e) read = justified
    go (returned p) read =
        ((Keeps-catch_exception _ _
            (process_message-Safe (job_of (get_object codec content)) env p read)
            (on_error-Safe (job_of (get_object codec content)) env)).after
          h (record { named = refl; justified = justified })).justified
