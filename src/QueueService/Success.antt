-- ===== src/QueueService/Success.antt =====
-- A message whose workflow finishes or is cancelled: `_process_queue_message` and
-- `_handle_successful_processing` of queue_service.py.
use claimsintelligence.Base.{
  ℕ, String, ◌≡◌, true, some, List, ◌∷◌, arith, nat_key, member, member-discard, eqb_iff,
}
use claimsintelligence.Exec.{Exn, returned, raised, is_cancelled, catch_exception, ◌>>=◌}
use claimsintelligence.Dict
use claimsintelligence.QueueService.Payload.{Codec, build_task_param}
use claimsintelligence.QueueService.State.{
  QueueMessage, delete_message, get_claim_processor, run_claim, join_renewal, fail, done, Env,
  Service, perform, target,
}
use claimsintelligence.QueueService.Finalise.{
  with_receipt, delete_queue_message, delete_original, handle_successful_processing,
}
use claimsintelligence.QueueService.Renew.{renew_visibility_loop}
use claimsintelligence.QueueService.Process.{
  handle_message, run_job, run_workflow, finalise, release, track_job, untrack,
  process_queue_message,
}

trace-track_job :
    (w : ℕ) (c : String) (m : QueueMessage) (s : Service) → (track_job w c m s).trace ≡ s.trace
unfolding track_job
trace-track_job w c m s = ground arith

-- When the workflow starts: the message is tracked.
abbrev pub started : ℕ → String → QueueMessage → Service → Service
started w c m s =
    let t = track_job w c m s in record t { trace = (get_claim_processor, done) ∷ s.trace }

module _ (env : Env) (codec : Codec) (m : QueueMessage) (w : ℕ) (wakes : List ℕ) (c : String)
    (s s' : Service) (i p : String) (parsed : build_task_param codec m.content ≡ returned c)
    (resolved : env s.trace get_claim_processor ≡ done)
    (renewed : renew_visibility_loop env w wakes (started w c m s) ≡ (returned tt, s'))
    (present : s'.main_queue ≡ true) (tracked : Dict.get s'.inflight_message w ≡ some (i, p)) where
  -- A workflow that finishes, where the renewals returned, the client is there and the calls are
  -- answered: the renewal is stopped, and the message is deleted under the receipt that the renewals
  -- left. After the workflow nothing else is called.
  pub success_calls :
      env s'.trace (run_claim c) ≡ done
      → env ((run_claim c, done) ∷ s'.trace) (join_renewal w) ≡ done
      → env ((join_renewal w, done) ∷ (run_claim c, done) ∷ s'.trace) (delete_message i p) ≡ done
      → (process_queue_message env codec w m wakes s).1.trace
        ≡ (delete_message i p, done) ∷ (join_renewal w, done) ∷ (run_claim c, done) ∷ s'.trace
  unfolding process_queue_message handle_message run_job run_workflow finalise release untrack
      handle_successful_processing delete_original delete_queue_message with_receipt target perform
      ◌>>=◌ catch_exception
  success_calls h j k =
      ground (arith, trace-track_job w c m s, member-discard w w s'.renewing, eqb_iff w w)

  -- A workflow that is cancelled, where the renewals returned, left the client and a receipt, and
  -- the wait for them is answered: the renewal is stopped, the message is neither deleted nor
  -- touched otherwise, and the cancellation is raised.
  pub cancelled_calls :
      (e : Exn)
      → env s'.trace (run_claim c) ≡ fail e
      → is_cancelled e ≡ true
      → member w s'.renewing ≡ true
      → env ((run_claim c, fail e) ∷ s'.trace) (join_renewal w) ≡ done
      → let (r, t) = process_queue_message env codec w m wakes s in
        (r ≡ raised e) × (t.trace ≡ (join_renewal w, done) ∷ (run_claim c, fail e) ∷ s'.trace)
  unfolding process_queue_message handle_message run_job run_workflow release untrack perform ◌>>=◌
      catch_exception
  cancelled_calls e h k l j =
      (ground (arith, trace-track_job w c m s), ground (arith, trace-track_job w c m s))
