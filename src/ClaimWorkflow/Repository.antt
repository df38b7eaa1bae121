-- ===== src/ClaimWorkflow/Repository.antt =====
-- `Claim_Processes` of repositories/claim_processes.py, over the entities of
-- repositories/model/claim_process.py. The base repository, of a package, is an interface.
use claimsintelligence.Base.{
  String, ◌≡◌, ◌&&◌, Option, none, some, List, [], ◌∷◌, ◌++◌, if◌then◌else◌, ◌==◌, string_key,
}
use claimsintelligence.Exec.{Exec, returned, pure, ◌>>=◌, ◌>>◌}

pub data ClaimSteps : Type 0 where
  pending document_processing summarizing gap_analysis rai_analysis failed completed : ClaimSteps

-- `Content_Process`; the scores are kept as they are written.
pub record ContentProcess : Type 0 where
  pub process_id : String
  pub file_name : String
  pub mime_type : Option String
  pub entity_score : String
  pub schema_score : String
  pub status : Option String
  pub processed_time : String

-- `Claim_Process`
pub record ClaimProcess : Type 0 where
  pub id : String
  pub process_name : String
  pub schemaset_id : String
  pub metadata_id : Option String
  pub processed_documents : List ContentProcess
  pub status : ClaimSteps
  pub process_summary : String
  pub process_gaps : String
  pub process_comment : String
  pub process_time : String
  pub processed_time : String

-- `RepositoryBase`, on a state of the database.
pub record RepositoryBase (S : Type 0) : Type 0 where
  pub get_async : String → Exec S (Option ClaimProcess)
  pub update_async : ClaimProcess → Exec S (Unit {0})
  pub add_async : ClaimProcess → Exec S (Unit {0})
  pub delete_async : String → Exec S (Unit {0})

-- A database that answers: reads give what is stored under the id, and a write of an entity stores
-- it under its id and changes nothing else.
pub record IsWorking {S : Type 0} (base : RepositoryBase S)
    (lookup : S → String → Option ClaimProcess) : Type 0 where
  pub get : (i : String) (s : S) → base.get_async i s ≡ (returned (lookup s i), s)
  pub update : (c : ClaimProcess) (s : S) → (base.update_async c s).0 ≡ returned tt
  pub lookup_update :
      (c : ClaimProcess) (s : S) (j : String)
      → lookup (base.update_async c s).1 j ≡ (if c.id == j then some c else lookup s j)

-- A document takes the place of the first with its file name and process.
unfoldable pub without : ContentProcess → List ContentProcess → List ContentProcess
without d [] = []
without d (x ∷ xs) =
    if x.file_name == d.file_name && x.process_id == d.process_id then xs else x ∷ without d xs

unfoldable pub put_document : ContentProcess → ClaimProcess → ClaimProcess
put_document d c = record c { processed_documents = without d c.processed_documents ++ d ∷ [] }

module _ {S : Type 0} (base : RepositoryBase S) where
  abbrev change_found :
      (ClaimProcess → ClaimProcess) → Option ClaimProcess → Exec S (Option ClaimProcess)
  change_found f none = pure none
  change_found f (some c) = do base.update_async (f c); pure (some (f c))

  -- Read, modify, write, as the methods of the repository do.
  unfoldable pub change : String → (ClaimProcess → ClaimProcess) → Exec S (Option ClaimProcess)
  change process_id f = do found ← base.get_async process_id; change_found f found

  unfoldable pub upsert_content_process : String → ContentProcess → Exec S (Option ClaimProcess)
  upsert_content_process process_id d = change process_id (put_document d)

  unfoldable pub update_claim_content_process_status :
      String → List ContentProcess → Exec S (Option ClaimProcess)
  update_claim_content_process_status process_id ds =
      change process_id (λ c. record c { processed_documents = ds })

  unfoldable pub update_claim_process_summary : String → String → Exec S (Option ClaimProcess)
  update_claim_process_summary process_id t =
      change process_id (λ c. record c { process_summary = t })

  unfoldable pub update_claim_process_gaps : String → String → Exec S (Option ClaimProcess)
  update_claim_process_gaps process_id t = change process_id (λ c. record c { process_gaps = t })

  unfoldable pub update_claim_process_comment : String → String → Exec S (Option ClaimProcess)
  update_claim_process_comment process_id t =
      change process_id (λ c. record c { process_comment = t })

  unfoldable pub update_claim_process_status : String → ClaimSteps → Exec S (Option ClaimProcess)
  update_claim_process_status process_id new_status =
      change process_id (λ c. record c { status = new_status })

  abbrev delete_found : String → Option ClaimProcess → Exec S (Unit {0})
  delete_found i none = pure tt
  delete_found i (some c) = base.delete_async i

  unfoldable pub create_claim_process : ClaimProcess → Exec S ClaimProcess
  create_claim_process c = do
    existing ← base.get_async c.id
    delete_found c.id existing
    base.add_async c
    pure c
