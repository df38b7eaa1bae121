-- ===== src/DocumentProcess/Tasks.antt =====
-- The tasks of `handle_execute` of document_process_executor.py, one for each item of the manifest,
-- and how they interleave: a semaphore lets four in, and a lock makes their writes of the claim one
-- by one. The claim has been created, and nothing else writes it: the status that `ClaimProcessor.run`
-- writes to the same document for the events of the workflow, without this lock, is left out. A call that raises has changed
-- nothing, and the id of a process is not empty.
use claimsintelligence.Base.{
  ℕ, zero, suc, ◌+◌, ◌-◌, ◌<◌, String, ◌≡◌, Bool, true, false, Option, none, some, List, [], ◌∷◌,
  if◌then◌else◌, ◌==◌, string_key,
}
use claimsintelligence.ContentProcess.{is_terminal, or_text}
use claimsintelligence.ClaimWorkflow.Repository.{ContentProcess, ClaimProcess, put_document}

-- An item of the manifest, with the type that is guessed of its name.
pub record Item : Type 0 where
  pub file_name : String
  pub schema_id : String
  pub mime_type : String

-- What `get_processed` reads, as texts, with none for what is missing or is a score that is no number.
pub record Processed : Type 0 where
  pub status : Option String
  pub schema_score : Option String
  pub entity_score : Option String
  pub processed_time : Option String

-- What is known of a document at the end.
pub record Final : Type 0 where
  pub process_id : String
  pub status : String
  pub schema_score : String
  pub entity_score : String
  pub processed_time : String

abbrev pub final_of : String → String → Option Processed → Final
final_of process_id polled none = record {
  process_id = process_id;
  status = polled;
  schema_score = "0.0";
  entity_score = "0.0";
  processed_time = "";
}
final_of process_id polled (some p) = record {
  process_id = process_id;
  status = or_text p.status polled;
  schema_score = or_text p.schema_score "0.0";
  entity_score = or_text p.entity_score "0.0";
  processed_time = or_text p.processed_time "";
}

-- The document of an upsert before the end, with that status.
abbrev pub progress_of : Item → String → String → ContentProcess
progress_of item process_id status = record {
  process_id = process_id;
  file_name = item.file_name;
  mime_type = some item.mime_type;
  entity_score = "0.0";
  schema_score = "0.0";
  status = some status;
  processed_time = "";
}

abbrev pub document_of : Item → Final → ContentProcess
document_of item f = record {
  process_id = f.process_id;
  file_name = item.file_name;
  mime_type = some item.mime_type;
  entity_score = f.entity_score;
  schema_score = f.schema_score;
  status = some f.status;
  processed_time = f.processed_time;
}

-- What follows an upsert: more polls, after the status that was polled last, or the end.
pub data After : Type 0 where
  poll_again : String → Option String → After
  finish : Final → After

-- Where a task is: before the semaphore; before the submission; before the lock; with the lock; with the lock
-- and the claim that it has read; in the loop of the polls; after it; behind the last upsert; at
-- the end.
pub data Stage : Type 0 where
  waiting started failed : Stage
  writing locked : ContentProcess → After → Stage
  loaded : ContentProcess → After → ClaimProcess → Stage
  polling : String → Option String → Stage
  polled : String → String → Stage
  leaving done : Final → Stage

pub record Task : Type 0 where
  pub item : Item
  pub stage : Stage

-- The tasks, how many are inside the semaphore, which has the lock, the stored claim, and the documents
-- that were upserted, the newest first.
pub record World : Type 0 where
  pub tasks : List Task
  pub running : ℕ
  pub lock : Option ℕ
  pub claim : ClaimProcess
  pub writes : List ContentProcess

abbrev pub get_elem? {ℓ} : {A : Type ℓ} → List A → ℕ → Option A
get_elem? [] i = none
get_elem? (x ∷ xs) zero = some x
get_elem? (x ∷ xs) (suc i) = get_elem? xs i

abbrev pub put_at {ℓ} : {A : Type ℓ} → List A → ℕ → A → List A
put_at [] i v = []
put_at (x ∷ xs) zero v = v ∷ xs
put_at (x ∷ xs) (suc i) v = x ∷ put_at xs i v

abbrev pub move : ℕ → Task → Stage → World → World
move i t s w = record w { tasks = put_at w.tasks i (record t { stage = s }) }

abbrev pub is_same : Option String → String → Bool
is_same none status = false
is_same (some last) status = status == last

-- After a poll that has read a status: a status that is new and not the last of all is upserted.
unfoldable pub on_poll : Item → String → Option String → String → Stage
on_poll item process_id last status =
    if is_terminal status
    then polled process_id status
    else if is_same last status
    then polling process_id last
    else writing (progress_of item process_id status) (poll_again process_id (some status))

-- A step of a task that reads and writes nothing that the others do: the submission, a poll, the end of the
-- polls without a last status, and the read of what was processed.
pub data Local (item : Item) : Stage → Stage → Type 0 where
  submit :
      (process_id : String)
      → Local item started
          (writing (progress_of item process_id "processing") (poll_again process_id none))
  see :
      (process_id status : String) (last : Option String)
      → Local item (polling process_id last) (on_poll item process_id last status)
  give_up :
      (process_id status : String) (last : Option String)
      → Local item (polling process_id last) (polled process_id status)
  fetch :
      (process_id status : String) (p : Option Processed)
      → Local item (polled process_id status) (
          writing
            (document_of item (final_of process_id status p))
            (finish (final_of process_id status p)))

abbrev pub next_stage : After → Stage
next_stage (poll_again process_id last) = polling process_id last
next_stage (finish f) = leaving f

abbrev pub holds : Stage → Bool
holds (locked d a) = true
holds (loaded d a c) = true
holds _ = false

-- Inside the semaphore.
abbrev pub is_inside : Stage → Bool
is_inside waiting = false
is_inside failed = false
is_inside (done f) = false
is_inside _ = true

abbrev pub is_leaving : Stage → Bool
is_leaving (leaving f) = true
is_leaving _ = false

abbrev pub max_concurrency : ℕ
max_concurrency = 4

-- A step of the task at `i`: it comes in, steps on its own, takes the lock, reads the claim, writes it
-- and gives the lock back, goes out, or raises.
pub data Step (w : World) : World → Type 0 where
  enter :
      (i : ℕ) (t : Task)
      → get_elem? w.tasks i ≡ some t
      → t.stage ≡ waiting
      → w.running < max_concurrency
      → Step w (move i t started (record w { running = w.running + 1 }))
  local :
      (i : ℕ) (t : Task) (s : Stage)
      → get_elem? w.tasks i ≡ some t
      → Local t.item t.stage s
      → Step w (move i t s w)
  acquire :
      (i : ℕ) (t : Task) (d : ContentProcess) (a : After)
      → get_elem? w.tasks i ≡ some t
      → t.stage ≡ writing d a
      → w.lock ≡ none
      → Step w (move i t (locked d a) (record w { lock = some i }))
  load :
      (i : ℕ) (t : Task) (d : ContentProcess) (a : After)
      → get_elem? w.tasks i ≡ some t
      → t.stage ≡ locked d a
      → Step w (move i t (loaded d a w.claim) w)
  store :
      (i : ℕ) (t : Task) (d : ContentProcess) (a : After) (c : ClaimProcess)
      → get_elem? w.tasks i ≡ some t
      → t.stage ≡ loaded d a c
      → Step w (
          move i t
            (next_stage a)
            (record w { lock = none; claim = put_document d c; writes = d ∷ w.writes }))
  leave :
      (i : ℕ) (t : Task) (f : Final)
      → get_elem? w.tasks i ≡ some t
      → t.stage ≡ leaving f
      → Step w (move i t (done f) (record w { running = w.running - 1 }))
  fail :
      (i : ℕ) (t : Task)
      → get_elem? w.tasks i ≡ some t
      → is_inside t.stage ≡ true
      → is_leaving t.stage ≡ false
      → Step w (
          move i t failed
            (record w { running = w.running - 1; lock = if holds t.stage then none else w.lock }))

pub data Reach (w : World) : World → Type 0 where
  here : Reach w w
  next : {u v : World} → Reach w u → Step u v → Reach w v

abbrev pub waiting_tasks : List Item → List Task
waiting_tasks [] = []
waiting_tasks (item ∷ items) = record { item = item; stage = waiting } ∷ waiting_tasks items

abbrev pub start : List Item → ClaimProcess → World
start items claim = record {
  tasks = waiting_tasks items;
  running = 0;
  lock = none;
  claim = claim;
  writes = [];
}
