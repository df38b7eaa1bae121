-- ===== src/ContentProcess/Backed/Submitting.antt =====
-- `submit` of services/content_process_service.py, step by step.
use claimsintelligence.Base.{
  String, ◌≡◌, refl, Bool, true, Option, none, some, List, ◌∷◌, arith, string_key, eq_iff, is_empty,
}
use claimsintelligence.Exec.{pure, ◌>>◌}
use claimsintelligence.Exec.Keeps.{Keeps, Ensures, Keeps-pure, Keeps-if, Keeps-bind, bind-meets}
use claimsintelligence.ContentProcess.{
  ProcessRecord, get_record, add_record, upload_blob, send_message, Reply, fail, Event, Env,
  Service, answer, perform, Submission, blob_name, record_of, message_of, as_record,
  get_queue_client, upload_envelope, upload_and_enqueue, submit_unless, submit_once, submit,
  or_text,
}
use claimsintelligence.ContentProcess.Backed.{
  succeeded, is_record, is_file, happened, HasRecord, HasFile, IsBacked, IsKept, happened-IsKept,
  Holds, Backed, perform-Holds, modify-Holds, get_blob_helper-Holds, upload_envelope-Holds, stays,
  adds,
}

also-IsKept :
    (Q : List Event → Type 0) (p : Event → Bool)
    → IsKept Q
    → IsKept (λ t. Q t × (happened p t ≡ true))
also-IsKept Q p k e t h = (k e t h.0, happened-IsKept p e t h.1)

module _ (env : Env) (i : String) (a : Submission) where
  abbrev Filed : List Event → Type 0
  Filed t = Unit {0} × HasFile (blob_name i a.filename) t

  abbrev Recorded : List Event → Type 0
  Recorded t = Filed t × HasRecord i t

  Filed-IsKept : IsKept Filed
  Filed-IsKept = also-IsKept (λ t. Unit {0}) _ λ e t h. tt

  Recorded-IsKept : IsKept Recorded
  Recorded-IsKept = also-IsKept Filed _ Filed-IsKept

  file_adds :
      (r : Reply)
      → is_file (blob_name i a.filename) (upload_blob (blob_name i a.filename) a.file_bytes, r)
        ≡ succeeded r
  file_adds r = ground (arith, eq_iff (blob_name i a.filename) (blob_name i a.filename))

  record_adds : (r : Reply) → is_record i (add_record (record_of i a), r) ≡ succeeded r
  unfolding record_of
  record_adds r = ground (arith, eq_iff i i)

  sent :
      (s : Service)
      → Holds Recorded s
      → Backed ((do perform env (send_message (message_of i a)); pure i) s).1
  unfolding perform message_of
  sent s h =
      bind-meets Backed (λ _. Backed) (perform env (send_message (message_of i a))) (λ _. pure i) s
        (go (env s.trace (send_message (message_of i a))))
        λ _ t b. (Keeps-pure {P = Backed} i).after t b
    where
      go :
          (r : Reply)
          → Ensures
              (λ _. Backed)
              Backed
              (answer r)
              (record s { trace = (send_message (message_of i a), r) ∷ s.trace })
      go (fail e) = record { backed = (h.also.1, h.also.0.1, h.backed); also = tt }
      go r = record { backed = (h.also.1, h.also.0.1, h.backed); also = tt }

  recorded :
      (s : Service)
      → Holds Filed s
      → Backed
          ((do
            perform env (add_record (record_of i a))
            get_queue_client env
            perform env (send_message (message_of i a))
            pure i)
            s).1
  unfolding perform get_queue_client
  recorded s h =
      bind-meets Backed (λ _. Holds Recorded) (perform env (add_record (record_of i a))) _ s
        (adds env Filed Filed-IsKept (add_record (record_of i a)) (is_record i)
          (env s.trace (add_record (record_of i a))) s refl (record_adds _) h)
        λ _ t b.
          bind-meets Backed (λ _. Holds Recorded) (get_queue_client env) _ t
            (stays env Recorded Recorded-IsKept (get_queue_client env)
              (modify-Holds env Recorded Recorded-IsKept _ λ s. refl) t b)
            λ _ t' b'. sent t' b'

  uploaded :
      (s : Service)
      → Backed s
      → Ensures
          (λ _. Holds Filed)
          Backed
          (perform env (upload_blob (blob_name i a.filename) a.file_bytes) s).0
          (perform env (upload_blob (blob_name i a.filename) a.file_bytes) s).1
  unfolding perform
  uploaded s b =
      adds env (λ t. Unit {0}) (λ e t h. tt) (upload_blob (blob_name i a.filename) a.file_bytes)
        (is_file (blob_name i a.filename))
        (env s.trace (upload_blob (blob_name i a.filename) a.file_bytes)) s refl (file_adds _) b

  upload_and_enqueue-Backed : Keeps Backed (upload_and_enqueue env i a)
  unfolding upload_and_enqueue
  upload_and_enqueue-Backed =
      Keeps-bind _ _ (get_blob_helper-Holds env (λ t. Unit {0}) λ e t h. tt) λ _. record {
        after = λ s b.
            bind-meets Backed (λ _. Holds Filed)
              (perform env (upload_blob (blob_name i a.filename) a.file_bytes)) _ s (uploaded s b)
              λ _ t b'.
                bind-meets Backed (λ _. Holds Filed) (upload_envelope env _ a.cu_envelope_bytes) _ t
                  (stays env Filed Filed-IsKept (upload_envelope env _ a.cu_envelope_bytes)
                    (upload_envelope-Holds env Filed Filed-IsKept _ a.cu_envelope_bytes) t b')
                  λ _ t' b''. recorded t' b'';
      }

  submit_once-Backed : Keeps Backed (submit_once env i a)
  unfolding submit_once
  submit_once-Backed =
      Keeps-bind _ _ (perform-Holds env (λ t. Unit {0}) (λ e t h. tt) (get_record i) refl)
        λ r. go (as_record r)
    where
      go : (o : Option ProcessRecord) → Keeps Backed (submit_unless env i a o)
      go none = upload_and_enqueue-Backed
      go (some x) = Keeps-pure i

submit-Backed :
    (env : Env) (uuid5 : String → String) (fresh : String) (a : Submission)
    → Keeps Backed (submit env uuid5 fresh a)
unfolding submit
submit-Backed env uuid5 fresh a =
    Keeps-if (is_empty (or_text a.claim_process_id "")) _ _ (upload_and_enqueue-Backed env fresh a)
      (submit_once-Backed env _ a)

-- However the storage account and the database behave: if every message in the log was sent after
-- the database had taken the record of its process and the storage account its file, so was every
-- one after a submission.
pub submit-IsBacked :
    (env : Env) (uuid5 : String → String) (fresh : String) (a : Submission) (s : Service)
    → IsBacked s.trace
    → IsBacked (submit env uuid5 fresh a s).1.trace
submit-IsBacked env uuid5 fresh a s b =
    ((submit-Backed env uuid5 fresh a).after s (record { backed = b; also = tt })).backed
