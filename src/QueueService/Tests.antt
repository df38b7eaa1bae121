-- ===== src/QueueService/Tests.antt =====
-- Runs of the queue service on concrete messages, and the theorems of its parts applied to them.
use claimsintelligence.Base.{
  ℕ, ◌<◌, ◌*◌, ◌+◌, String, ◌≡◌, refl, true, false, none, some, [], ◌∷◌, arith, if◌then◌else◌, ◌==◌,
  nat_key, string_key, is_space, strip_by, member, add, length, inr, ◌⊎◌,
}
use claimsintelligence.Exec.{
  exn, other, cancelled, azure_error, value_error, returned, raised, ◌>>=◌,
}
use claimsintelligence.Dict
use claimsintelligence.QueueService.Payload.{
  string, object, field, end, Raw, Codec, build_task_param, field_get,
}
use claimsintelligence.QueueService.State.{
  Config, QueueMessage, delete_message, update_message, send_dead_letter, run_claim, join_renewal,
  join_worker, get_claim_processor, done, fail, receipt, Env, Service, perform,
}
use claimsintelligence.QueueService.Finalise.{payload_of, handle_failed_no_retry}
use claimsintelligence.QueueService.Renew.{
  renewal_sleep, max_lifetime, renew_visibility_loop, visibility_seconds, renew_tracked, renew_once,
}
use claimsintelligence.QueueService.Process.{process_queue_message, await_job, track_job}
use claimsintelligence.QueueService.Control.{Gather}
use claimsintelligence.QueueService.NoLoss.{DeletesAreJustified}
use claimsintelligence.QueueService.NoLoss.Job.{process-justified}
use claimsintelligence.QueueService.Tracking.{Untouched, process-Untouched, IsIdle, process-IsIdle}
use claimsintelligence.QueueService.Survival.{await_job-returns}
use claimsintelligence.QueueService.Branches.{retry_calls, refused_calls}
use claimsintelligence.QueueService.Malformed.{malformed_calls, invalid_call}
use claimsintelligence.QueueService.Success.{success_calls}
use claimsintelligence.QueueService.RenewBound.{renewals_bounded}

abbrev config : Config
config = record {
  storage_account_name = "acct";
  queue_name = "claim-process-queue";
  dead_letter_queue_name = "claim-process-dead-letter-queue";
  visibility_timeout_minutes = 30;
  concurrent_workers = 1;
  poll_interval_seconds = 5;
  message_timeout_minutes = 25;
  max_receive_attempts = 3;
  retry_visibility_delay_seconds = 5;
  app_storage_account_name = none;
  app_cps_process_batch = some "batches";
  app_storage_container = none;
}

abbrev idle : Service
idle = record {
  instance_id = 1;
  active_instances = 1 ∷ [];
  config = config;
  is_running = true;
  main_queue = true;
  dead_letter_queue = true;
  active_workers = 1 ∷ [];
  worker_tasks = 1 ∷ [];
  inflight = [];
  inflight_message = [];
  inflight_batch_id = [];
  inflight_task = [];
  renewing = [];
  trace = [];
}

-- Reads one document, and takes its base64 form for the text "ZG9j".
abbrev document : String
document = "{\"claim_process_id\": \" c1 \"}"

abbrev codec : Codec
codec = record {
  utf8_decode = elim [ [] ↦ none | b ∷ bs ↦ some document ];
  b64decode = λ s. if s == "ZG9j" then some (100 ∷ []) else none;
  json_loads = λ s.
      if s == document then some (object (field "claim_process_id" (string " c1 ") end)) else none;
  repr_json = λ j. "{}";
  repr_bytes = λ bs. "b''";
}

abbrev message_of : ℕ → Raw → QueueMessage
message_of n content = record {
  id = some "m1";
  pop_receipt = some "p1";
  dequeue_count = some n;
  inserted_on = none;
  content = content;
}

abbrev good : QueueMessage
good = message_of 1 (Raw.text document)

abbrev bad : QueueMessage
bad = message_of 1 (Raw.text "hello")

-- The storage account does what it is asked, and a renewal hands out a new receipt.
abbrev healthy : Env
healthy t (update_message i p n) = receipt (some "p2")
healthy t _ = done

-- The workflow fails.
abbrev failing : Env
failing t (run_claim c) = fail (exn other "boom")
failing t (update_message i p n) = receipt (some "p2")
failing t _ = done

-- The job is cancelled while the workflow runs.
abbrev killed : Env
killed t (run_claim c) = fail (exn cancelled "")
killed t (join_worker w) = fail (exn cancelled "")
killed t _ = done

parse_good : build_task_param codec good.content ≡ returned "c1"
unfolding build_task_param field_get strip_by is_space
parse_good = refl

process-justified_example :
    DeletesAreJustified codec good
      (process_queue_message healthy codec 1 good (1080 ∷ []) idle).1.trace
unfolding Dict.get
process-justified_example = process-justified healthy codec good 1 (1080 ∷ []) idle tt refl

process-Untouched_example : Untouched 2 idle (process_queue_message failing codec 1 good [] idle).1
process-Untouched_example = process-Untouched failing 2 1 (omega arith) idle codec good []

process-IsIdle_example : IsIdle 1 (process_queue_message killed codec 1 good [] idle).1
process-IsIdle_example = process-IsIdle killed codec 1 (λ t. refl) good [] idle

await_job-returns_example : (await_job killed codec 1 good [] idle).0 ≡ returned tt
await_job-returns_example = await_job-returns killed codec 1 good (λ t. tt) [] idle

-- A service whose worker 1 holds the message.
abbrev holding : Service
holding = record idle { inflight_message = (1, ("m1", "p2")) ∷ [] }

retry_calls_example :
    (handle_failed_no_retry failing codec good "c1" "boom"
      (some "c1")
      (some 1)
      false
      holding).1.trace
    ≡ (update_message "m1" "p2" 5, receipt (some "p2")) ∷ []
unfolding Dict.get
retry_calls_example =
    retry_calls failing codec good 1 "c1" "boom" (some "c1") holding "m1" "p2" refl refl
      (omega arith)

-- The dead-letter queue refuses.
abbrev refusing : Env
refusing t (send_dead_letter d) = fail (exn azure_error "full")
refusing t _ = done

abbrev third : QueueMessage
third = message_of 3 (Raw.text document)

refused_calls_example :
    (handle_failed_no_retry refusing codec third "c1" "boom"
      (some "c1")
      (some 1)
      false
      holding).1.trace
    ≡ (update_message "m1" "p2" 60, done)
      ∷ (
        send_dead_letter (payload_of codec config third "c1" "boom"),
        fail (exn azure_error "full"),
      )
      ∷ []
unfolding Dict.get
refused_calls_example =
    refused_calls refusing codec third 1 "c1" "boom" (some "c1") holding "m1" "p2" refl refl false
      (exn azure_error "full") (inr (omega arith)) refl refl refl

malformed_calls_example :
    (process_queue_message healthy codec 1 bad [] idle).1.trace
    ≡ (delete_message "m1" "p1", done)
      ∷ invalid_call codec bad idle
          (exn value_error "Queue message must be JSON with 'claim_process_id'")
      ∷ []
unfolding build_task_param strip_by is_space Dict.get member
malformed_calls_example =
    malformed_calls healthy codec bad 1 idle "m1" "p1"
      (exn value_error "Queue message must be JSON with 'claim_process_id'") refl refl refl refl
      refl refl refl [] refl refl

-- After one renewal, at 1080 s.
abbrev renewed : Service
renewed = record idle {
  inflight = (1, "c1") ∷ [];
  inflight_message = (1, ("m1", "p2")) ∷ [];
  inflight_batch_id = (1, "c1") ∷ [];
  renewing = 1 ∷ [];
  trace = (update_message "m1" "p1" 1800, receipt (some "p2")) ∷ (get_claim_processor, done) ∷ [];
}

success_calls_example :
    (process_queue_message healthy codec 1 good (1080 ∷ []) idle).1.trace
    ≡ (delete_message "m1" "p2", done)
      ∷ (join_renewal 1, done)
      ∷ (run_claim "c1", done)
      ∷ renewed.trace
unfolding build_task_param field_get strip_by is_space Dict.get Dict.set track_job add member
    renew_visibility_loop renew_tracked renew_once visibility_seconds max_lifetime perform ◌>>=◌
success_calls_example =
    success_calls healthy codec good 1 (1080 ∷ []) "c1" idle renewed "m1" "p2" refl refl refl refl
      refl refl refl refl

renewals_bounded_example :
    (n : ℕ) × (length (renew_visibility_loop healthy 1 (1080 ∷ 2160 ∷ []) holding).1.trace ≡ 0 + n)
    × ((n ≡ 0) ⊎ (n * renewal_sleep config < max_lifetime config))
unfolding renewal_sleep
renewals_bounded_example = renewals_bounded healthy 1 (1080 ∷ 2160 ∷ []) holding (omega arith)

parse_bad :
    build_task_param codec bad.content
    ≡ raised (exn value_error "Queue message must be JSON with 'claim_process_id'")
unfolding build_task_param strip_by is_space
parse_bad = refl

-- The workers' tasks end, one of them by an exception.
abbrev one_fails : Gather
one_fails s = (returned (raised (exn other "boom") ∷ []), s)

abbrev stopped : Service
stopped = record idle { is_running = false }
