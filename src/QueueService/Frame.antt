-- ===== src/QueueService/Frame.antt =====
-- What the job of one worker leaves alone, for `_process_queue_message` of queue_service.py: a rule
-- for invariants, and with it the entries of the other workers.
use claimsintelligence.Base.{
  ℕ, String, Bool, true, false, Option, none, some, List, [], ◌∷◌, if◌then◌else◌, nat_key, not, leb,
}
use claimsintelligence.Exec.{Exec, Exn, Outcome, returned, raised, pure}
use claimsintelligence.Exec.Keeps.{
  Keeps, keeps_rules, Keeps-pure, Keeps-gets, Keeps-if, Keeps-bind, Keeps-modify,
  Keeps-catch_exception, Keeps-finally_do,
}
use claimsintelligence.Dict
use claimsintelligence.Dict.{get-set, get-pop}
use claimsintelligence.QueueService.Payload.{Codec, build_task_param}
use claimsintelligence.QueueService.State.{QueueMessage, Call, DeadLetter, Env, Service, perform}
use claimsintelligence.QueueService.Blobs.{
  delete_output_directory, delete_output_blobs, cleanup_output_blobs,
}
use claimsintelligence.QueueService.Finalise.{
  dispatch, track, track_receipt, with_receipt, delete_queue_message, delete_original,
  handle_successful_processing, schedule_retry, send_to_dead_letter_queue, postpone,
  cleanup_after_failure, dead_letter, handle_failed_no_retry,
}
use claimsintelligence.QueueService.Renew.{
  store_receipt, renew_once, renew_tracked, renew_visibility_loop, max_lifetime,
}
use claimsintelligence.QueueService.Process.{
  track_job, stop_renewing, untrack, run_workflow, finalise, run_job, last_resort, release,
  handling, handle_message, process_queue_message,
}

module _ (env : Env) (codec : Codec) (m : QueueMessage) (w : ℕ) {P : Service → Type 0}
    (call : (c : Call) → Keeps P (perform env c))
    (retrack : (i p : String) (s : Service) → P s → P (track w i p s)) where
  delete_output_directory-Keeps :
      (container dir : String) → Keeps P (delete_output_directory env container dir)
  unfolding delete_output_directory
  delete_output_directory-Keeps container dir = search (keeps_rules, call) depth 9

  delete_output_blobs-Keeps :
      (container dir : String) (names : List String)
      → Keeps P (delete_output_blobs env container dir names)
  unfolding delete_output_blobs
  delete_output_blobs-Keeps container dir [] = search keeps_rules
  delete_output_blobs-Keeps container dir (name ∷ names) =
      search (keeps_rules, call, delete_output_directory-Keeps)

  cleanup_output_blobs-Keeps : (c : String) → Keeps P (cleanup_output_blobs env c)
  unfolding cleanup_output_blobs
  cleanup_output_blobs-Keeps c = search (keeps_rules, call, delete_output_blobs-Keeps) depth 12

  cleanup_after_failure-Keeps :
      (c : Option String) (scope : String) → Keeps P (cleanup_after_failure env c scope)
  unfolding cleanup_after_failure
  cleanup_after_failure-Keeps none scope = search keeps_rules
  cleanup_after_failure-Keeps (some c) scope =
      search (keeps_rules, cleanup_output_blobs-Keeps) depth 12

  dispatch-Keeps :
      (t : Option String × Option String) (f : String → String → Exec Service (Unit {0}))
      → ((i p : String) → Keeps P (f i p))
      → Keeps P (dispatch t f)
  dispatch-Keeps (some i, some p) f k = k i p
  dispatch-Keeps (some i, none) f k = search keeps_rules
  dispatch-Keeps (none, p) f k = search keeps_rules

  with_receipt-Keeps :
      (f : String → String → Exec Service (Unit {0}))
      → ((i p : String) → Keeps P (f i p))
      → Keeps P (with_receipt m (some w) f)
  unfolding with_receipt
  with_receipt-Keeps f k = search (keeps_rules, dispatch-Keeps) depth 7

  track_receipt-Keeps : (i : String) (p : Option String) → Keeps P (track_receipt (some w) i p)
  track_receipt-Keeps i none = search keeps_rules
  track_receipt-Keeps i (some p) = Keeps-modify _ (retrack i p)

  delete_original-Keeps : Keeps P (delete_original env m (some w))
  unfolding delete_original delete_queue_message
  delete_original-Keeps = search (keeps_rules, with_receipt-Keeps, call) depth 9

  schedule_retry-Keeps : Keeps P (schedule_retry env m (some w))
  unfolding schedule_retry
  schedule_retry-Keeps = search (keeps_rules, with_receipt-Keeps, call, track_receipt-Keeps) depth 9

  postpone-Keeps : Keeps P (postpone env m (some w))
  unfolding postpone
  postpone-Keeps = search (keeps_rules, with_receipt-Keeps, call) depth 9

  send-Keeps : (d : DeadLetter) → Keeps P (send_to_dead_letter_queue env d)
  unfolding send_to_dead_letter_queue
  send-Keeps d = search (keeps_rules, call) depth 9

  pub handle_failed-Keeps :
      (process_id failure_reason : String) (c : Option String) (force : Bool)
      → Keeps P (handle_failed_no_retry env codec m process_id failure_reason c (some w) force)
  unfolding handle_failed_no_retry dead_letter
  handle_failed-Keeps process_id failure_reason c force =
      search
        (
          keeps_rules, schedule_retry-Keeps, send-Keeps, postpone-Keeps,
          cleanup_after_failure-Keeps, delete_original-Keeps,
        )
        depth 12

  store_receipt-Keeps : (i : String) (p : Option String) → Keeps P (store_receipt w i p)
  store_receipt-Keeps i none = search keeps_rules
  store_receipt-Keeps i (some p) = Keeps-modify _ (retrack i p)

  renew_once-Keeps : (t : Option (String × String)) → Keeps P (renew_once env w t)
  unfolding renew_once
  renew_once-Keeps none = search keeps_rules
  renew_once-Keeps (some (i, p)) = search (keeps_rules, call, store_receipt-Keeps) depth 9

  renew_tracked-Keeps : Keeps P (renew_tracked env w)
  unfolding renew_tracked
  renew_tracked-Keeps = record { after = λ s h. go s s.main_queue h }
    where
      go :
          (s : Service) (b : Bool)
          → P s
          → P (if b then renew_once env w (Dict.get s.inflight_message w) s else pure true s).1
      go s true h = (renew_once-Keeps (Dict.get s.inflight_message w)).after s h
      go s false h = (Keeps-pure {P = P} true).after s h

  renew_visibility_loop-Keeps : (wakes : List ℕ) → Keeps P (renew_visibility_loop env w wakes)
  unfolding renew_visibility_loop
  renew_visibility_loop-Keeps [] = search keeps_rules
  renew_visibility_loop-Keeps (t ∷ wakes) =
      let rest = renew_visibility_loop-Keeps wakes in
      Keeps-bind _ _ (Keeps-gets _) λ config. Keeps-bind _ _ (Keeps-gets _) λ running.
        Keeps-if (not running) _ _ (Keeps-pure tt) (
          Keeps-if (leb (max_lifetime config) t) _ _ (Keeps-pure tt)
            (Keeps-bind _ _ renew_tracked-Keeps λ go_on. Keeps-if go_on _ _ rest (Keeps-pure tt)))

  run_workflow-Keeps : (c : String) (wakes : List ℕ) → Keeps P (run_workflow env codec w c wakes)
  unfolding run_workflow
  run_workflow-Keeps c wakes = search (keeps_rules, call, renew_visibility_loop-Keeps) depth 9

  finalise-Keeps : (c : String) (o : Option Exn) → Keeps P (finalise env codec w m c o)
  unfolding finalise handle_successful_processing
  finalise-Keeps c none = delete_original-Keeps
  finalise-Keeps c (some e) = search (keeps_rules, handle_failed-Keeps)

  last_resort-Keeps : (c : String) (e : Exn) → Keeps P (last_resort env codec w m c e)
  unfolding last_resort
  last_resort-Keeps c e = search (keeps_rules, handle_failed-Keeps)

  module _ (begin : (c : String) (s : Service) → P s → P (track_job w c m s))
      (settle : (s : Service) → P s → P (stop_renewing w s))
      (end : (s : Service) → P s → P (untrack w s)) where
    run_job-Keeps : (c : String) (wakes : List ℕ) → Keeps P (run_job env codec w m c wakes)
    unfolding run_job
    run_job-Keeps c wakes = Keeps-bind _ _ (Keeps-modify _ (begin c)) λ _.
        Keeps-bind _ _ (call _) λ _. Keeps-bind _ _ (run_workflow-Keeps c wakes) λ o.
          Keeps-bind _ _ (call _)
            λ _. Keeps-bind _ _ (Keeps-modify _ settle) λ _. finalise-Keeps c o

    handle_message-Keeps : (wakes : List ℕ) → Keeps P (handle_message env codec w m wakes)
    unfolding handle_message
    handle_message-Keeps wakes = go (build_task_param codec m.content)
      where
        go : (r : Outcome String) → Keeps P (handling env codec w m wakes r)
        go (raised e) =
            Keeps-catch_exception _ _ (handle_failed-Keeps _ _ _ _) (last_resort-Keeps _)
        go (returned c) = Keeps-catch_exception _ _ (run_job-Keeps c wakes) (last_resort-Keeps _)

    release-Keeps : Keeps P (release env codec w)
    unfolding release
    release-Keeps =
        Keeps-bind _ _ (Keeps-gets _)
          λ renewing. Keeps-bind _ _ (search (keeps_rules, call)) λ _. Keeps-modify _ end

    -- An invariant of the calls and of the writes to the worker's own entries is one of the job.
    pub process-Keeps : (wakes : List ℕ) → Keeps P (process_queue_message env codec w m wakes)
    unfolding process_queue_message
    process-Keeps wakes = Keeps-finally_do _ _ (handle_message-Keeps wakes) release-Keeps
