-- ===== src/QueueService/State.antt =====
-- The state of `ClaimProcessingQueueService` of queue_service.py, its messages, and its calls to
-- the storage account and the workflow, which are logged with their replies. What replies is an
-- argument: a function of the calls so far.
use claimsintelligence.Base.{ℕ, String, Bool, Option, none, some, List, ◌∷◌, nat_key}
use claimsintelligence.Dict
use claimsintelligence.Dict.{Dict}
use claimsintelligence.Exec.{Exec, Exn, Outcome, returned, raised}
use claimsintelligence.QueueService.Payload.{Raw}

-- `QueueServiceConfig`, and the settings that the blob cleanup reads from the application's
-- configuration.
pub record Config : Type 0 where
  pub storage_account_name : String
  pub queue_name : String
  pub dead_letter_queue_name : String
  pub visibility_timeout_minutes : ℕ
  pub concurrent_workers : ℕ
  pub poll_interval_seconds : ℕ
  pub message_timeout_minutes : ℕ
  pub max_receive_attempts : ℕ
  pub retry_visibility_delay_seconds : ℕ
  pub app_storage_account_name : Option String
  pub app_cps_process_batch : Option String
  pub app_storage_container : Option String

-- The attributes of the SDK's `QueueMessage` that are read, each with `getattr`.
pub record QueueMessage : Type 0 where
  pub id : Option String
  pub pop_receipt : Option String
  pub dequeue_count : Option ℕ
  pub inserted_on : Option String
  pub content : Raw

-- What is sent to the dead-letter queue, before `json.dumps`.
pub record DeadLetter : Type 0 where
  pub process_id : String
  pub failure_reason : String
  pub attempt : ℕ
  pub max_attempts : ℕ
  pub message_id : Option String
  pub inserted_on : String
  pub original_content : String

-- A value under a key of a blob's listing.
pub data Attr : Type 0 where
  absent : Attr
  flag : Bool → Attr
  str : String → Attr

pub record Blob : Type 0 where
  pub name : Option String
  pub is_directory : Attr
  pub type : Attr
  pub resource_type : Attr

pub data Call : Type 0 where
  receive_messages : ℕ → Call
  delete_message : String → String → Call
  update_message : String → String → ℕ → Call
  send_dead_letter : DeadLetter → Call
  get_claim_processor : Call
  run_claim : String → Call
  join_renewal : ℕ → Call
  join_job : ℕ → Call
  join_worker : ℕ → Call
  get_azure_credential : Call
  list_blobs : String → String → Call
  delete_multiple_blobs : String → List String → Call
  delete_directory : String → String → Bool → Call
  sleep : ℕ → Call
  create_main_queue : Call
  create_dead_letter_queue : Call
  gather_workers : List ℕ → Call
  gather_jobs : List ℕ → Call
  close_main_queue : Call
  close_dead_letter_queue : Call
  close_queue_service : Call

-- `receipt` is what `update_message` returns: its `pop_receipt`.
pub data Reply : Type 0 where
  done : Reply
  message : QueueMessage → Reply
  receipt : Option String → Reply
  blobs : List Blob → Reply
  fail : Exn → Reply

abbrev pub Event : Type 0
Event = Call × Reply

abbrev pub Env : Type 0
Env = List Event → Call → Reply

-- `renewing` holds the workers whose job has a renewal task, its local variable `renew_task`.
-- `trace` has the newest call first.
pub record Service : Type 0 where
  pub instance_id : ℕ
  pub active_instances : List ℕ
  pub config : Config
  pub is_running : Bool
  pub main_queue : Bool
  pub dead_letter_queue : Bool
  pub active_workers : List ℕ
  pub worker_tasks : List ℕ
  pub inflight : Dict ℕ String
  pub inflight_message : Dict ℕ (String × String)
  pub inflight_batch_id : Dict ℕ String
  pub inflight_task : List ℕ
  pub renewing : List ℕ
  pub trace : List Event

abbrev pub answer : Reply → Outcome Reply
answer (fail e) = raised e
answer r = returned r

-- A call, its reply, and its exception if it raises.
unfoldable pub perform : Env → Call → Exec Service Reply
perform env c s = let r = env s.trace c in (answer r, record s { trace = (c, r) ∷ s.trace })

-- The id and the receipt by which the message is addressed: those tracked for the worker, which the
-- renewal keeps up to date, or else the message's own.
unfoldable pub target : QueueMessage → Option ℕ → Service → Option String × Option String
unfolding Dict.get
target m none s = (m.id, m.pop_receipt)
target m (some w) s = elim (Dict.get s.inflight_message w) [
  | none ↦ (m.id, m.pop_receipt)
  | some (i, p) ↦ (some i, some p)
]
