-- ===== src/QueueService/Process.antt =====
-- `_process_queue_message` and `_worker_loop` of queue_service.py. The renewal task of a job runs
-- while the job waits for the workflow: `wakes` holds the times of its wake-ups there.
use Prim.Native.String.{◌++◌ as string_append}
use claimsintelligence.Base.{
  ℕ, ◌*◌, String, Bool, true, false, not, Option, none, some, List, [], ◌∷◌, if◌then◌else◌, nat_key,
  member, discard, add,
}
use claimsintelligence.Exec.{
  Exec, Exn, Outcome, returned, raised, is_executor_failed, is_cancelled, pure, gets, modify, catch,
  catch_exception, finally, finally_do, ◌>>=◌, ◌>>◌,
}
use claimsintelligence.Dict
use claimsintelligence.QueueService.Payload.{Codec, build_task_param}
use claimsintelligence.QueueService.State.{
  QueueMessage, receive_messages, get_claim_processor, run_claim, join_renewal, sleep, Reply,
  message, Env, Service, perform,
}
use claimsintelligence.QueueService.Finalise.{
  track, handle_successful_processing, handle_failed_no_retry,
}
use claimsintelligence.QueueService.Renew.{renew_visibility_loop}

abbrev pub unknown : String
unknown = "<unknown>"

-- The entries of the inflight dictionaries, when the payload has been read.
unfoldable pub track_job : ℕ → String → QueueMessage → Service → Service
track_job w c m s =
    let s' = record s {
      inflight = Dict.set s.inflight w c;
      inflight_batch_id = Dict.set s.inflight_batch_id w c;
      renewing = add w s.renewing;
    } in
    elim m.id [ none ↦ s' | some i ↦ elim m.pop_receipt [ none ↦ s' | some p ↦ track w i p s' ] ]

abbrev pub stop_renewing : ℕ → Service → Service
stop_renewing w s = record s { renewing = discard w s.renewing }

-- The `finally` block's last lines; the job's local variable goes with it.
unfoldable pub untrack : ℕ → Service → Service
untrack w s = record s {
  inflight = Dict.pop s.inflight w;
  inflight_message = Dict.pop s.inflight_message w;
  inflight_batch_id = Dict.pop s.inflight_batch_id w;
  renewing = discard w s.renewing;
}

module _ (env : Env) (codec : Codec) (w : ℕ) where
  -- `workflow_error`
  unfoldable pub run_workflow : String → List ℕ → Exec Service (Option Exn)
  run_workflow c wakes = do
    catch (renew_visibility_loop env w wakes) (λ e. pure tt)
    catch_exception (do perform env (run_claim c); pure none) (λ e. pure (some e))

  unfoldable pub finalise : QueueMessage → String → Option Exn → Exec Service (Unit {0})
  finalise m c none = handle_successful_processing env m (some w)
  finalise m c (some e) =
      if is_executor_failed e
      then handle_failed_no_retry env codec m c
          (string_append "Workflow executor failed: " e.message) (some c) (some w) true
      else handle_failed_no_retry env codec m c (string_append "Unhandled exception: " e.message)
          (some c) (some w) false

  unfoldable pub run_job : QueueMessage → String → List ℕ → Exec Service (Unit {0})
  run_job m c wakes = do
    modify (track_job w c m)
    perform env get_claim_processor
    workflow_error ← run_workflow c wakes
    perform env (join_renewal w)
    modify (stop_renewing w)
    finalise m c workflow_error

  -- except CancelledError: raise; except Exception: the last resort, whose own failure is logged
  unfoldable pub last_resort : QueueMessage → String → Exn → Exec Service (Unit {0})
  last_resort m c e =
      catch_exception
        (handle_failed_no_retry env codec m c "Worker crashed while processing message" none
          (some w) false)
        (λ e'. pure tt)

  unfoldable pub release : Exec Service (Unit {0})
  release = do
    renewing ← gets (λ (s : Service). member w s.renewing)
    if renewing then (do perform env (join_renewal w); pure tt) else pure tt
    modify (untrack w)

  abbrev pub handling : QueueMessage → List ℕ → Outcome String → Exec Service (Unit {0})
  handling m wakes (raised e) =
      catch_exception
        (handle_failed_no_retry env codec m unknown
          (string_append "Invalid queue message: " e.message) none (some w) true)
        (last_resort m unknown)
  handling m wakes (returned c) = catch_exception (run_job m c wakes) (last_resort m c)

  unfoldable pub handle_message : QueueMessage → List ℕ → Exec Service (Unit {0})
  handle_message m wakes = handling m wakes (build_task_param codec m.content)

  unfoldable pub process_queue_message : QueueMessage → List ℕ → Exec Service (Unit {0})
  process_queue_message m wakes = finally_do (handle_message m wakes) release

  -- The dead-letter attempt for a job whose task crashed.
  unfoldable pub bury_crashed : QueueMessage → Exec Service (Unit {0})
  bury_crashed m =
      catch_exception
        (do
          pid ← gets (λ (s : Service). Dict.get s.inflight w)
          batch_id ← gets (λ (s : Service). Dict.get s.inflight_batch_id w)
          handle_failed_no_retry env codec m (elim pid [ none ↦ unknown | some c ↦ c ])
              "Job task crashed unexpectedly" batch_id (some w) false)
        (λ e. pure tt)

  -- What the worker does when the job's task has raised: a cancellation ends here, also that of
  -- the worker itself.
  unfoldable pub job_crashed : QueueMessage → Exn → Exec Service (Unit {0})
  job_crashed m e = if is_cancelled e then pure tt else bury_crashed m

  unfoldable pub await_job : QueueMessage → List ℕ → Exec Service (Unit {0})
  await_job m wakes = do
    modify (λ (s : Service). record s { inflight_task = add w s.inflight_task })
    finally (catch (process_queue_message m wakes) (job_crashed m))
        (λ s. record s { inflight_task = discard w s.inflight_task })

  unfoldable pub on_received : Reply → List ℕ → Exec Service Bool
  on_received (message m) wakes = do await_job m wakes; pure true
  on_received _ wakes = pure false

  abbrev pub pause : Exec Service (Unit {0})
  pause = do
    config ← gets (λ (s : Service). s.config)
    perform env (sleep config.poll_interval_seconds)
    pure tt

  -- One round of the loop. No `Exception` leaves `await_job`, so where one is caught nothing was
  -- received.
  unfoldable pub poll_once : List ℕ → Exec Service (Unit {0})
  poll_once wakes = do
    present ← gets (λ (s : Service). s.main_queue)
    if not present then pause else do
      config ← gets (λ (s : Service). s.config)
      received_any ←
          catch_exception
            (do
              r ← perform env (receive_messages (config.visibility_timeout_minutes * 60))
              on_received r wakes)
            (λ e. do pause; pure false)
      if received_any then pure tt else pause

  -- One round for each entry of the schedule, while the service runs.
  unfoldable pub poll_loop : List (List ℕ) → Exec Service (Unit {0})
  poll_loop [] = pure tt
  poll_loop (wakes ∷ schedule) =
      let rest = poll_loop schedule in
      do
        running ← gets (λ (s : Service). s.is_running)
        if running then (do poll_once wakes; rest) else pure tt

  unfoldable pub worker_loop : List (List ℕ) → Exec Service (Unit {0})
  worker_loop schedule = do
    modify (λ (s : Service). record s { active_workers = add w s.active_workers })
    finally (poll_loop schedule) λ s. record s {
      inflight = Dict.pop s.inflight w;
      active_workers = discard w s.active_workers;
    }
