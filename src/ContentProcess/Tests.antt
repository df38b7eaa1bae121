-- ===== src/ContentProcess/Tests.antt =====
-- A database that remembers its records, with a queue that takes no message, and the theorems
-- applied to it.
use Prim.Native.String.{◌++◌ as string_append}
use Prim.Native.Nat.{◌^◌}
use claimsintelligence.Base.{
  ℕ, ◌*◌, String, ◌≡◌, refl, true, false, ◌&&◌, none, some, List, [], ◌∷◌, arith, ◌==◌, string_key,
  if◌then◌else◌, Bool-cases, inl, inr,
}
use claimsintelligence.Exec.{returned, exn, azure_error, ◌>>=◌}
use claimsintelligence.ContentProcess.{
  ProcessRecord, get_record, add_record, upload_blob, send_message, Reply, done, found, fail, Event,
  Env, Service, Submission, record_of, message_of, submit, ProcessStatus, notify, poll_status, poll,
  perform, get_status,
}
use claimsintelligence.ContentProcess.Backed.{IsBacked, HasRecord, succeeded}
use claimsintelligence.ContentProcess.Backed.Submitting.{submit-IsBacked}
use claimsintelligence.ContentProcess.Resubmit.{Remembers, claimed, id_of, resubmit_calls}
use claimsintelligence.ContentProcess.Polling.{poll_status-Polled}
use claimsintelligence.ContentProcess.Polling.Log.{Polled, reads}
use claimsintelligence.ContentProcess.Seconds.{plus, last_unit, round_to}

abbrev stored : String → List Event → Reply
stored i [] = done
stored i ((add_record r, x) ∷ t) = if r.process_id == i && succeeded x then found r else stored i t
stored i (_ ∷ t) = stored i t

abbrev no_queue : Env
no_queue t (get_record i) = stored i t
no_queue t (send_message m) = fail (exn azure_error "the queue is away")
no_queue t _ = done

stored-found :
    (i : String) (t : List Event) → HasRecord i t → (r : ProcessRecord) × (stored i t ≡ found r)
stored-found i [] h = cc
stored-found i ((add_record r, x) ∷ t) h = elim (Bool-cases (r.process_id == i && succeeded x)) [
  | inl e ↦ (r, rw e)
  | inr e ↦ rw e (stored-found i t (rw e at h))
]
stored-found i ((_, x) ∷ t) h = stored-found i t h

no_queue-Remembers : Remembers no_queue
no_queue-Remembers = record { reads = λ t i h. stored-found i t h }

abbrev uuid5 : String → String
uuid5 s = string_append "id of " s

abbrev policy : Submission
policy = record {
  file_bytes = 1 ∷ 2 ∷ [];
  filename = "policy.pdf";
  mime_type = "application/pdf";
  schema_id = "s";
  metadata_id = "m";
  cu_envelope_bytes = some (7 ∷ []);
  claim_process_id = none;
}

abbrev fresh_service : Service
fresh_service = record { blob_helper = false; queue_client = false; trace = [] }

-- The first submission, whose message is not sent.
abbrev unsent : Service
unsent = record {
  blob_helper = true;
  queue_client = true;
  trace =
      (
        send_message (message_of "id of c1:policy.pdf" (claimed no_queue uuid5 "c1" policy)),
        fail (exn azure_error "the queue is away"),
      )
      ∷ (add_record (record_of "id of c1:policy.pdf" policy), done)
      ∷ (upload_blob "id of c1:policy.pdf/policy.pdf" (1 ∷ 2 ∷ []), done)
      ∷ [];
}

submit-IsBacked_example : IsBacked (submit no_queue uuid5 "f" policy fresh_service).1.trace
submit-IsBacked_example = submit-IsBacked no_queue uuid5 "f" policy fresh_service tt

recorded : HasRecord (id_of no_queue uuid5 "c1" policy) unsent.trace
unfolding record_of message_of
recorded = refl

resubmit_calls_example :
    (r : ProcessRecord) × (submit no_queue uuid5 "f" (claimed no_queue uuid5 "c1" policy) unsent ≡ (
      returned "id of c1:policy.pdf",
      record unsent { trace = (get_record "id of c1:policy.pdf", found r) ∷ unsent.trace },
    ))
resubmit_calls_example =
    resubmit_calls no_queue uuid5 "c1" policy "f" unsent no_queue-Remembers refl recorded

silent : (r : ProcessStatus) (s : Service) → (notify none r s).1.trace ≡ s.trace
unfolding ◌>>=◌
silent r s = refl

-- 0.1 and 1.0
abbrev tenth : ℕ
tenth = 3602879701896397 * 2 ^ 1019

abbrev second : ℕ
second = 2 ^ 1074

poll_status-Polled_example :
    Polled "p" tenth second 0 none [] (poll_status no_queue "p" tenth second none 20 fresh_service)
poll_status-Polled_example =
    poll_status-Polled no_queue "p" tenth second none silent 20 (omega arith) (omega arith)
      fresh_service

abbrev unending : Env
unending t (get_record i) = found (record {
  process_id = i;
  processed_file_name = none;
  processed_file_mime_type = none;
  status = none;
})
unending t _ = done

-- The sum of ten times 0.1 is below 1.0, so there are eleven reads.
eleven_reads : reads (poll_status unending "p" tenth second none 20 fresh_service).1.trace ≡ 11
unfolding poll_status poll get_status perform plus last_unit round_to ◌>>=◌
eleven_reads = refl
