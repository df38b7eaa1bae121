-- ===== src/Pipeline/Handler/Safety/Handover.antt =====
-- The `try` block of `_connect_async`, queue_handler_base.py: the document is handed on before the
-- message is deleted.
use claimsintelligence.Base.{inl, inr, String, ◌≡◌, refl, sym, false, Option, none, some, ◌∷◌}
use mathlib.Core.Path.{subst}
use claimsintelligence.Exec.{
  Exec, Outcome, returned, raised, continue, pure, gets, modify, ◌>>=◌, ◌>>◌,
}
use claimsintelligence.Exec.Keeps.{Keeps, keeps_rules, Keeps-pure, Keeps-bind, bind-meets}
use claimsintelligence.Pipeline.Status.{
  StepResult, arrive, add_step_result, update_step, get_next_step_name,
}
use claimsintelligence.Pipeline.Handler.{
  DataPipeline, Call, execute, upload_pipeline, send_pipeline, Reply, done, available, messages,
  executed, fail, answer, Env, Handler, perform, lift, first_file, create_queue_client_name,
  invalidate_queue, save_result, send_on, pass_data_pipeline_to_next_step, delete_queue_message,
}
use claimsintelligence.Pipeline.Handler.Process.{
  document, on_current, on_status, take_result, save_pipeline, process_message,
}
use claimsintelligence.Pipeline.Handler.Safety.{
  Job, IsBegun, HasRun, IsProcessed, IsHandled, is_delete, Safe, Handled, perform-Safe,
  perform-Handled, delete-Handled, Meets, lift-Keeps, save_result-Keeps,
}

module _ (job : Job) (env : Env) where
  record Known (x : DataPipeline) (h : Handler) : Type 0 where
    safe : Safe job h
    current : h.current ≡ some x

  -- The step has run, and left the document.
  record Took (r : StepResult) (q : DataPipeline) (h : Handler) : Type 0 where
    known : Known q h
    run : HasRun job r q h.trace

  perform-Known :
      (x : DataPipeline) (c : Call) → is_delete c ≡ false → Keeps (Known x) (perform env c)
  unfolding perform
  perform-Known x c d = record {
    after = λ h k. record { safe = (perform-Safe job env c d).after h k.safe; current = k.current };
  }

  perform-Took :
      (r : StepResult) (q : DataPipeline) (c : Call)
      → is_delete c ≡ false
      → Keeps (Took r q) (perform env c)
  unfolding perform
  perform-Took r q c d = record {
    after = λ h k. record { known = (perform-Known q c d).after h k.known; run = inr k.run };
  }

  -- The rest of a block knows what the first action keeps.
  bind_kept :
      {A B : Type 0} {K : Handler → Type 0} (m : Exec Handler A) (f : A → Exec Handler B)
      (h : Handler)
      → Keeps K m
      → ((g : Handler) → K g → Safe job g)
      → K h
      → ((a : A) (g : Handler) → K g → Safe job (f a g).1)
      → Safe job ((m >>= f) h).1
  unfolding ◌>>=◌
  bind_kept {A} {B} {K} m f h kept safe k rest = go (m h).0 (m h).1 (kept.after h k)
    where
      go : (o : Outcome A) (g : Handler) → K g → Safe job (continue o f g).1
      go (returned a) g k = rest a g k
      go (raised e) g k = safe g k

  document-known :
      (next : DataPipeline → Exec Handler (Unit {0})) (h : Handler) (p : DataPipeline)
      → h.current ≡ some p
      → Safe job (next p h).1
      → Safe job ((document >>= next) h).1
  unfolding document ◌>>=◌
  document-known next h p e s = simp e s

  abbrev reached : Call → Reply → Handler → Outcome (Unit {0}) × Handler
  reached c r h =
      ((λ (g : Handler). (answer r, g)) >>= λ _. pure tt) (record h { trace = (c, r) ∷ h.trace })

  -- The document is the one that was saved, and where no step is left, that is enough.
  abbrev Saved : StepResult → DataPipeline → Unit {0} → Handler → Type 0
  Saved r q u h =
      let p = on_status update_step (on_status (add_step_result r) q) in
      Safe job h
      × (h.current ≡ some p)
      × HasRun job r q h.trace
      × ((get_next_step_name p.pipeline_status ≡ returned none) → IsHandled job h.trace)

  upload-Saved :
      (r : StepResult) (q : DataPipeline) (y : Reply) (h : Handler)
      → Took r q h
      → let p = on_status update_step (on_status (add_step_result r) q) in
        Meets job env (Saved r q) (reached (upload_pipeline p) y (record h { current = some p }))
  unfolding ◌>>=◌
  upload-Saved r q (fail e) h k = record {
    named = k.known.safe.named;
    justified = k.known.safe.justified;
  }
  upload-Saved r q _ h k = (
    record { named = k.known.safe.named; justified = k.known.safe.justified },
    refl,
    inr k.run,
    λ l. inl (refl, (r, q, k.run, refl), l),
  )

  save_pipeline-Saved :
      (r : StepResult) (q : DataPipeline) (h : Handler)
      → Took r q h
      → Meets job env
          (Saved r q)
          (save_pipeline env (record h { current = some (on_status (add_step_result r) q) }))
  unfolding save_pipeline document perform ◌>>=◌
  save_pipeline-Saved r q h k =
      let p = on_status update_step (on_status (add_step_result r) q) in
      upload-Saved r q (env h.trace (upload_pipeline p)) h k

  send-Handled :
      (step : String) (p : DataPipeline) (y : Reply) (h : Handler)
      → Safe job h
      → IsProcessed job p h.trace
      → get_next_step_name p.pipeline_status ≡ returned (some step)
      → Meets job env
          (λ _. Handled job)
          (reached (send_pipeline (create_queue_client_name step) p) y h)
  unfolding ◌>>=◌ create_queue_client_name
  send-Handled step p (fail e) h s done_ next = record { named = s.named; justified = s.justified }
  send-Handled step p _ h s done_ next = record {
    safe = record { named = s.named; justified = s.justified };
    handled = inl (refl, done_, (step, next, refl));
  }

  record Processed (p : DataPipeline) (h : Handler) : Type 0 where
    safe : Safe job h
    processed : IsProcessed job p h.trace

  perform-Processed :
      (p : DataPipeline) (c : Call) → is_delete c ≡ false → Keeps (Processed p) (perform env c)
  unfolding perform
  perform-Processed p c d = record {
    after = λ h k. record {
      safe = (perform-Safe job env c d).after h k.safe;
      processed = let (r, q, run, e) = k.processed in (r, q, inr run, e);
    };
  }

  invalidate_queue-Processed :
      (p : DataPipeline) (queue : String) → Keeps (Processed p) (invalidate_queue env queue)
  unfolding invalidate_queue
  invalidate_queue-Processed p queue = search (keeps_rules, perform-Processed p) depth 12

  send_on-Handled :
      (p : DataPipeline) (next : Option String) (h : Handler)
      → Processed p h
      → get_next_step_name p.pipeline_status ≡ returned next
      → ((get_next_step_name p.pipeline_status ≡ returned none) → IsHandled job h.trace)
      → Meets job env (λ _. Handled job) (send_on env p next h)
  unfolding ◌>>=◌ perform
  send_on-Handled p none h k e last = record { safe = k.safe; handled = last e }
  send_on-Handled p (some step) h k e last =
      go (invalidate_queue env (create_queue_client_name step) h).0
        (invalidate_queue env (create_queue_client_name step) h).1
        ((invalidate_queue-Processed p (create_queue_client_name step)).after h k)
    where
      sends : Unit {0} → Exec Handler (Unit {0})
      sends _ = do perform env (send_pipeline (create_queue_client_name step) p); pure tt

      go :
          (o : Outcome (Unit {0})) (g : Handler)
          → Processed p g
          → Meets job env (λ _. Handled job) (continue o sends g)
      go (raised x) g k = k.safe
      go (returned u) g k =
          send-Handled step p (env g.trace (send_pipeline (create_queue_client_name step) p)) g
            k.safe k.processed e

  pass-Handled :
      (p : DataPipeline) (h : Handler)
      → Processed p h
      → ((get_next_step_name p.pipeline_status ≡ returned none) → IsHandled job h.trace)
      → Meets job env (λ _. Handled job) (pass_data_pipeline_to_next_step env p h)
  unfolding pass_data_pipeline_to_next_step lift ◌>>=◌
  pass-Handled p h k last = go (get_next_step_name p.pipeline_status) refl
    where
      go :
          (o : Outcome (Option String))
          → get_next_step_name p.pipeline_status ≡ o
          → Meets job env (λ _. Handled job) ((lift o >>= send_on env p) h)
      go (raised x) e = k.safe
      go (returned next) e = send_on-Handled p next h k e last

  -- From the save of the document on.
  hand_on-Safe :
      (last : DataPipeline → Exec Handler (Unit {0}))
      → ((p : DataPipeline) → Keeps (Handled job) (last p))
      → (r : StepResult) (q : DataPipeline) (h : Handler) → Took r q h
      → Safe job
          ((do
            save_pipeline env
            p ← document
            pass_data_pipeline_to_next_step env p
            delete_queue_message env job.message
            last p)
            (record h { current = some (on_status (add_step_result r) q) })).1
  hand_on-Safe last kept r q h k =
      bind-meets (Safe job) (Saved r q) (save_pipeline env) _ _ (save_pipeline-Saved r q h k)
        λ _ g (s, current, run, at_last).
          document-known _ g (on_status update_step (on_status (add_step_result r) q)) current (
            bind-meets (Safe job) (λ _. Handled job) (pass_data_pipeline_to_next_step env _) _ g
              (pass-Handled _ g (record { safe = s; processed = (r, q, run, refl) }) at_last)
              (λ _ f t. ((Keeps-bind _ _ (delete-Handled job env) λ _. kept _).after f t).safe))

  -- The rest of the block knows the result of the step, and the document as it was left.
  execute-Took :
      (next : StepResult → Exec Handler (Unit {0})) (x : DataPipeline) (h : Handler)
      → Known x h
      → IsBegun job x
      → ((r : StepResult) (q : DataPipeline) (g : Handler) → Took r q g → Safe job (next r g).1)
      → Safe job ((do reply ← perform env (execute x); result ← take_result reply; next result) h).1
  unfolding perform ◌>>=◌
  execute-Took next x h k begun rest = go (env h.trace (execute x))
    where
      logged : Reply → Handler
      logged y = record h { trace = (execute x, y) ∷ h.trace }

      safe : (y : Reply) → Safe job (logged y)
      safe y = record { named = k.safe.named; justified = k.safe.justified }

      go :
          (y : Reply)
          → Safe job
              (continue
                (answer y)
                (λ reply. take_result reply >>= next)
                (record h { trace = (execute x, y) ∷ h.trace })).1
      go (fail e) = safe (fail e)
      go (executed (returned r) q) =
          rest r q (record (logged (executed (returned r) q)) { current = some q })
            (record {
              known = record {
                safe = record { named = k.safe.named; justified = k.safe.justified };
                current = refl;
              };
              run = inl (begun, refl, refl);
            })
      go (executed (raised e) q) = record { named = k.safe.named; justified = k.safe.justified }
      go done = safe done
      go (available b) = safe (available b)
      go (messages ms) = safe (messages ms)

  put_result :
      (next : Exec Handler (Unit {0})) (r : StepResult) (q : DataPipeline) (g : Handler)
      → g.current ≡ some q
      → Safe job (next (record g { current = some (on_status (add_step_result r) q) })).1
      → Safe job ((modify (on_current (on_status (add_step_result r))) >>= λ _. next) g).1
  unfolding ◌>>=◌
  put_result next r q g e s = simp e s

  -- After the step: its result is saved and put into the document.
  result-Safe :
      (next : Exec Handler (Unit {0})) (r : StepResult) (q : DataPipeline) (h : Handler)
      → ((g : Handler)
          → Took r q g
          → Safe job (next (record g { current = some (on_status (add_step_result r) q) })).1)
      → Took r q h
      → Safe job
          ((do save_result env r; modify (on_current (on_status (add_step_result r))); next) h).1
  result-Safe next r q h rest k =
      bind_kept (save_result env r) _ h (save_result-Keeps env r λ i. perform-Took r q _ refl)
        (λ g k. k.known.safe) k λ _ g k. put_result next r q g k.known.current (rest g k)

  -- The document with the step's name is the current one.
  begin-Safe :
      (next : String → Exec Handler (Unit {0})) (p : DataPipeline) (h : Handler)
      → Safe job h
      → ((g : Handler) → Known (on_status (arrive job.name) p) g → Safe job (next job.name g).1)
      → Safe job
          ((do
            step ← gets (λ (h : Handler). h.handler_name)
            modify (λ (h : Handler). record h { current = some (on_status (arrive step) p) })
            next step)
            h).1
  unfolding ◌>>=◌
  begin-Safe next p h s rest =
      subst (λ n. Safe job (next n (record h { current = some (on_status (arrive n) p) })).1)
        (sym s.named)
        (rest _
          (record { safe = record { named = s.named; justified = s.justified }; current = refl }))

  pub process_message-Safe :
      (p : DataPipeline)
      → job.document ≡ returned p
      → Keeps (Safe job) (process_message env job.message p)
  unfolding process_message
  process_message-Safe p read = record {
    after = λ h s. begin-Safe _ p h s λ g k.
        bind_kept (lift (first_file p)) _ g (lift-Keeps _) (λ g k. k.safe) k
          λ file g k.
            bind_kept (perform env _) _ g (perform-Known _ _ refl) (λ g k. k.safe) k
              λ _ g k. document-known _ g x k.current (
                execute-Took _ x g k (p, read, refl)
                  λ r q g k.
                    result-Safe _ r q g
                      (λ g k.
                        hand_on-Safe _
                          (λ _. Keeps-bind _ _ (lift-Keeps _) λ file'.
                            Keeps-bind _ _ (perform-Handled job env _ refl) λ _. Keeps-pure tt)
                          r q g k)
                      k);
  }
    where
      x : DataPipeline
      x = on_status (arrive job.name) p
