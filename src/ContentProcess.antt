-- ===== src/ContentProcess.antt =====
-- `ContentProcessService` of services/content_process_service.py: documents are put into the
-- database and on the queue of the content pipeline, and polled for.
pub mod Seconds
pub mod Backed
pub mod Resubmit
pub mod Polling
mod Tests
use Prim.Native.String.{◌++◌ as string_append}
use claimsintelligence.Base.{
  ℕ, zero, suc, ◌+◌, String, Bool, true, false, Option, none, some, List, [], ◌∷◌, if◌then◌else◌,
  ltb, is_empty, length, ◌==◌, string_key, ◌||◌,
}
use claimsintelligence.ContentProcess.Seconds.{plus}
use claimsintelligence.Exec.{
  Exec, Exn, exn, other, Outcome, returned, raised, pure, raise, gets, modify, catch_exception,
  ◌>>=◌, ◌>>◌,
}

-- `ContentProcessRecord`, as far as it is written and read here.
pub record ProcessRecord : Type 0 where
  pub process_id : String
  pub processed_file_name : Option String
  pub processed_file_mime_type : Option String
  pub status : Option String

-- `ContentProcessMessage` with its one `ProcessFile` and its `PipelineStatus`, less the times and
-- the random id of the file.
pub record ProcessMessage : Type 0 where
  pub process_id : String
  pub file_name : String
  pub file_size : ℕ
  pub mime_type : String
  pub schema_id : String
  pub metadata_id : String
  pub steps : List String
  pub remaining_steps : List String
  pub completed_steps : List String

pub data Call : Type 0 where
  get_record : String → Call
  add_record : ProcessRecord → Call
  create_container : Call
  upload_blob : String → List ℕ → Call
  download_blob : String → Call
  send_message : ProcessMessage → Call
  sleep : ℕ → Call

pub data Reply : Type 0 where
  done : Reply
  found : ProcessRecord → Reply
  content : List ℕ → Reply
  fail : Exn → Reply

abbrev pub Event : Type 0
Event = Call × Reply

abbrev pub Env : Type 0
Env = List Event → Call → Reply

-- Whether the lazy clients are there; the newest call is the first of `trace`.
pub record Service : Type 0 where
  pub blob_helper : Bool
  pub queue_client : Bool
  pub trace : List Event

abbrev pub answer : Reply → Outcome Reply
answer (fail e) = raised e
answer r = returned r

unfoldable pub perform : Env → Call → Exec Service Reply
perform env c s = let r = env s.trace c in (answer r, record s { trace = (c, r) ∷ s.trace })

-- The arguments of `submit`.
pub record Submission : Type 0 where
  pub file_bytes : List ℕ
  pub filename : String
  pub mime_type : String
  pub schema_id : String
  pub metadata_id : String
  pub cu_envelope_bytes : Option (List ℕ)
  pub claim_process_id : Option String

abbrev pub blob_name : String → String → String
blob_name process_id filename = string_append process_id (string_append "/" filename)

abbrev pub pipeline_steps : List String
pipeline_steps = "extract" ∷ "map" ∷ "evaluate" ∷ "save" ∷ []

unfoldable pub record_of : String → Submission → ProcessRecord
record_of process_id a = record {
  process_id = process_id;
  processed_file_name = some a.filename;
  processed_file_mime_type = some a.mime_type;
  status = some "processing";
}

unfoldable pub message_of : String → Submission → ProcessMessage
message_of process_id a = record {
  process_id = process_id;
  file_name = a.filename;
  file_size = length a.file_bytes;
  mime_type = a.mime_type;
  schema_id = a.schema_id;
  metadata_id = a.metadata_id;
  steps = pipeline_steps;
  remaining_steps = pipeline_steps;
  completed_steps = [];
}

-- What a read of the database gives.
abbrev pub as_record : Reply → Option ProcessRecord
as_record (found r) = some r
as_record _ = none

-- a or b, for a text that may be missing
abbrev pub or_text : Option String → String → String
or_text none t = t
or_text (some s) t = if is_empty s then t else s

-- The dictionary that `get_status` gives.
pub record ProcessStatus : Type 0 where
  pub status : String
  pub process_id : String
  pub file_name : String

abbrev pub status_of : String → ProcessRecord → ProcessStatus
status_of i r = record {
  status = or_text r.status "processing";
  process_id = i;
  file_name = or_text r.processed_file_name "";
}

module _ (env : Env) where
  -- The helper is kept before the container is created, so a failed creation is not tried again.
  abbrev pub open_blob_helper : Exec Service (Unit {0})
  open_blob_helper = do
    modify (λ s. record s { blob_helper = true })
    perform env create_container
    pure tt

  unfoldable pub get_blob_helper : Exec Service (Unit {0})
  get_blob_helper = do
    there ← gets (λ s. s.blob_helper)
    (if there then pure tt else open_blob_helper)

  unfoldable pub get_queue_client : Exec Service (Unit {0})
  get_queue_client = modify (λ s. record s { queue_client = true })

  abbrev pub upload_envelope : String → Option (List ℕ) → Exec Service (Unit {0})
  upload_envelope name none = pure tt
  upload_envelope name (some []) = pure tt
  upload_envelope name (some (b ∷ bytes)) =
      catch_exception (do perform env (upload_blob name (b ∷ bytes)); pure tt) (λ e. pure tt)

  unfoldable pub upload_and_enqueue : String → Submission → Exec Service String
  upload_and_enqueue process_id a = do
    get_blob_helper
    perform env (upload_blob (blob_name process_id a.filename) a.file_bytes)
    upload_envelope (string_append (blob_name process_id a.filename) ".cu.json") a.cu_envelope_bytes
    perform env (add_record (record_of process_id a))
    get_queue_client
    perform env (send_message (message_of process_id a))
    pure process_id

  abbrev pub submit_unless : String → Submission → Option ProcessRecord → Exec Service String
  submit_unless process_id a (some existing) = pure process_id
  submit_unless process_id a none = upload_and_enqueue process_id a

  unfoldable pub submit_once : String → Submission → Exec Service String
  submit_once process_id a = do
    existing ← perform env (get_record process_id)
    submit_unless process_id a (as_record existing)

  -- `uuid5` is uuid.uuid5(uuid.NAMESPACE_OID, ◌), and `fresh` the random id of this call.
  unfoldable pub submit : (String → String) → String → Submission → Exec Service String
  submit uuid5 fresh a =
      let claim = or_text a.claim_process_id "" in
      if is_empty claim
      then upload_and_enqueue fresh a
      else submit_once (uuid5 (string_append claim (string_append ":" a.filename))) a

  unfoldable pub get_status : String → Exec Service (Option ProcessStatus)
  get_status i = do
    r ← perform env (get_record i)
    pure (elim (as_record r) [ none ↦ none | some x ↦ some (status_of i x) ])

  -- The record that `model_dump` is made of.
  unfoldable pub get_processed : String → Exec Service (Option ProcessRecord)
  get_processed i = do r ← perform env (get_record i); pure (as_record r)

  abbrev pub read_steps : {A : Type 0} → (List ℕ → Outcome A) → Reply → Exec Service (Option A)
  read_steps parse (content bytes) s =
      (elim (parse bytes) [ returned a ↦ returned (some a) | raised e ↦ raised e ], s)
  read_steps parse _ s = (raised (exn other "no content"), s)

  -- `parse` decodes the bytes and reads the JSON.
  unfoldable pub get_steps : {A : Type 0} → (List ℕ → Outcome A) → String → Exec Service (Option A)
  get_steps parse i =
      catch_exception
        (do
          get_blob_helper
          r ← perform env (download_blob (blob_name i "step_outputs.json"))
          read_steps parse r)
        (λ e. pure none)

-- `terminal` is true in every result.
abbrev pub is_terminal : String → Bool
is_terminal status = status == "Completed" || status == "Error"

abbrev pub missing : String → ProcessStatus
missing i = record { status = "Failed"; process_id = i; file_name = "" }

abbrev pub last_seen : String → Option ProcessStatus → ProcessStatus
last_seen i none = record { status = "Timeout"; process_id = i; file_name = "" }
last_seen i (some r) = r

abbrev pub notify :
    Option (ProcessStatus → Exec Service (Unit {0})) → ProcessStatus → Exec Service (Unit {0})
notify none r = pure tt
notify (some on_poll) r = on_poll r

-- The loop of `poll_status`, in the units of Seconds; `none` means that the fuel ran out.
module _ (env : Env) (i : String) (interval timeout : ℕ)
    (on_poll : Option (ProcessStatus → Exec Service (Unit {0}))) where
  abbrev pub wait_then : Exec Service (Option ProcessStatus) → Exec Service (Option ProcessStatus)
  wait_then next = do perform env (sleep interval); next

  abbrev pub after_read :
      (ProcessStatus → Exec Service (Option ProcessStatus))
      → Option ProcessStatus
      → Exec Service (Option ProcessStatus)
  after_read next none = pure (some (missing i))
  after_read next (some r) = do
    notify on_poll r
    (if is_terminal r.status then pure (some r) else wait_then (next r))

  unfoldable pub poll : ℕ → ℕ → Option ProcessStatus → Exec Service (Option ProcessStatus)
  poll zero elapsed result = pure none
  poll (suc fuel) elapsed result =
      let round = do
        r ← get_status env i
        after_read (λ seen. poll fuel (plus elapsed interval) (some seen)) r
      in if ltb elapsed timeout then round else pure (some (last_seen i result))

  -- The loop for so many rounds and one more, in which it ends by its test.
  unfoldable pub poll_status : ℕ → Exec Service (Option ProcessStatus)
  poll_status rounds = poll (suc rounds) 0 none
